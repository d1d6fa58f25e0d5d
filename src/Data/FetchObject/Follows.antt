-- ===== src/Data/FetchObject/Follows.antt =====
-- libs/moqtail-rs/src/model/data/fetch_object.rs: which Objects may be written after a prior one.
use moqtail.Prelude.{
  is_some, ℕ, ◌+◌, ◌-◌, inl, inr, ◌||◌, if◌then◌else◌, ◌<◌, ◌≤◌, ◌^◌, ◌≡◌, refl, Bool, false,
  Option, none, some, arith, ◌==◌, Bool-cases,
}
use moqtail.Wire.Outcome.{ok}
use moqtail.Control.Constant.{GroupOrder, original, ascending, descending}
use moqtail.Data.FetchObject.{
  FetchObjectContext, FetchObjectPayload, group_delta, object_delta, subgroup_mode, subgroup_of,
  prior_mode, order_delta, step_back,
}
use moqtail.Data.FetchObject.Fields.{some_delta-ne-none}

abbrev pub InOrder : GroupOrder → ℕ → ℕ → Type 0
InOrder descending prior group = group ≤ prior
InOrder ascending prior group = prior ≤ group
InOrder original prior group = prior ≤ group

-- The groups come in the order of the Fetch, the Objects of a group ascend, and the Object and the
-- Subgroup after the prior ones have an id.
abbrev pub Follows : Option FetchObjectContext → GroupOrder → FetchObjectPayload → Type 0
Follows none order p = Unit {0}
Follows (some pc) order p =
    InOrder order pc.group_id p.group_id
    × (pc.group_id ≡ p.group_id → pc.object_id ≤ p.object_id)
    × (pc.object_id + 1 < 2 ^ 64)
    × ((s : ℕ) → pc.subgroup_id ≡ some s → s + 1 < 2 ^ 64)

order_delta-some :
    (order : GroupOrder) (prior group : ℕ)
    → InOrder order prior group
    → (prior == group) ≡ false
    → (d : ℕ) × (order_delta order prior group ≡ some d)
unfolding order_delta step_back
order_delta-some descending prior group h e = (prior - group - 1, ground arith)
order_delta-some ascending prior group h e = (group - prior - 1, ground arith)
order_delta-some original prior group h e = (group - prior - 1, ground arith)

pub group_delta_ok :
    (prev : Option FetchObjectContext) (order : GroupOrder) (p : FetchObjectPayload)
    → Follows prev order p
    → (g : Option ℕ) × (group_delta prev order p.group_id ≡ ok g)
unfolding group_delta
group_delta_ok none order p h = (some p.group_id, refl)
group_delta_ok (some pc) order p h = elim (Bool-cases (pc.group_id == p.group_id)) [
  | inl e ↦ (none, rw e refl)
  | inr e ↦
      let (d, is) = order_delta-some order pc.group_id p.group_id h.0 e in (some d, rw (e, is) refl)
]

pub object_delta_ok :
    (prev : Option FetchObjectContext) (order : GroupOrder) (p : FetchObjectPayload) (g : Option ℕ)
    → Follows prev order p
    → group_delta prev order p.group_id ≡ ok g
    → (o : Option ℕ) × (object_delta prev (is_some g) p.object_id ≡ ok o)
unfolding object_delta group_delta
object_delta_ok none order p g h e = (some p.object_id, refl)
object_delta_ok (some pc) order p (some d) h e = (some p.object_id, refl)
object_delta_ok (some pc) order p none h e =
    let same : pc.group_id ≡ p.group_id =
      ground (arith, some_delta-ne-none (order_delta order pc.group_id p.group_id)) in
    elim (Bool-cases (pc.object_id + 1 == p.object_id)) [
      | inl k ↦ (none, ground (arith, h.2))
      | inr k ↦ (some (p.object_id - pc.object_id), ground (arith, h.1, h.2, same))
    ]

prior_mode_ok :
    (prior : Option ℕ) (id : ℕ)
    → ((s : ℕ) → prior ≡ some s → s + 1 < 2 ^ 64)
    → (mode : ℕ) × (prior_mode prior id ≡ ok mode)
unfolding prior_mode
prior_mode_ok none id h = (3, refl)
prior_mode_ok (some s) id h =
    (if s == id then 1 else if s + 1 == id then 2 else 3, ground (arith, h s refl))

next_subgroup :
    (prev : Option FetchObjectContext) (order : GroupOrder) (p : FetchObjectPayload)
    → Follows prev order p
    → (s : ℕ) → subgroup_of prev ≡ some s
    → s + 1 < 2 ^ 64
next_subgroup none order p h s e = cc
next_subgroup (some pc) order p h s e = h.3 s e

pub subgroup_mode_ok :
    (is_datagram : Bool) (prev : Option FetchObjectContext) (order : GroupOrder)
    (p : FetchObjectPayload)
    → Follows prev order p
    → (mode : ℕ) × (subgroup_mode is_datagram p.subgroup_id prev ≡ ok mode)
unfolding subgroup_mode
subgroup_mode_ok is_datagram prev order p h =
    elim (Bool-cases (is_datagram || (p.subgroup_id == 0))) [
      | inl e ↦ (0, rw e refl)
      | inr e ↦
          let (mode, is) =
            prior_mode_ok (subgroup_of prev) p.subgroup_id (next_subgroup prev order p h) in
          (mode, rw (e, is) refl)
    ]
