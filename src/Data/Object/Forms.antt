-- ===== src/Data/Object/Forms.antt =====
-- The forms of an Object of object.rs, one turned into another and back.
use moqtail.Prelude.{
  ℕ, Bool-cases, subst, ◌≡◌, inl, inr, refl, [], ◌∷◌, Bool, false, Option, none, some,
  if◌then◌else◌, arith, ◌==◌,
}
use moqtail.Wire.Outcome.{Outcome, ok, err, panicked, casting_error, ◌>>=◌, >>=-eq-ok, ok_injective}
use moqtail.Wire.Buffer.{Bytes}
use moqtail.Wire.Varint.{get_vi}
use moqtail.Data.Constant.{ObjectStatus, normal, end_of_group_status, end_of_track, status_try_from}
use moqtail.Data.FetchObject.{ObjectForwardingPreference, subgroup, datagram, FetchObjectPayload}
use moqtail.Data.SubgroupObject.{
  SubgroupObject, status_or_normal, read_body, take_block, apply_delta, read_properties,
  deserialize,
}
use moqtail.Data.Object.{
  try_from_subgroup, try_from_fetch, try_into_subgroup, try_into_fetch, is_datagram, subgroup_body,
  is_normal,
}

-- An Object of a fetch stream is one again, with its Object ID as its Subgroup ID where it is a
-- datagram.
pub try_into_fetch-try_from_fetch :
    (p : FetchObjectPayload) (alias : ℕ)
    → (try_from_fetch p alias >>= try_into_fetch)
      ≡ ok (record p {
        subgroup_id = if is_datagram p.forwarding_preference then p.object_id else p.subgroup_id;
      })
unfolding try_from_fetch try_into_fetch
try_into_fetch-try_from_fetch p alias = body p.forwarding_preference p.payload refl refl
  where
    body :
        (f : ObjectForwardingPreference) (bs : Bytes)
        → p.forwarding_preference ≡ f
        → p.payload ≡ bs
        → (try_from_fetch p alias >>= try_into_fetch)
          ≡ ok (record p {
            subgroup_id =
                if is_datagram p.forwarding_preference then p.object_id else p.subgroup_id;
          })
    body subgroup [] e k = ground arith
    body subgroup (b ∷ bs) e k = ground arith
    body datagram [] e k = ground arith
    body datagram (b ∷ bs) e k = ground arith

-- A status without a payload, or a payload without a status.
FromWire : Option ObjectStatus → Option Bytes → Type 0
FromWire none none = ⊥
FromWire none (some payload) = Unit {0}
FromWire (some status) none = Unit {0}
FromWire (some status) (some payload) = ⊥

-- What all results of the last step have, the result of a chain has.
bind_all :
    {A B : Type 0} (P : B → Type 0) (m : Outcome A) (f : A → Outcome B)
    → ((a : A) (b : B) → f a ≡ ok b → P b)
    → (b : B) → (m >>= f) ≡ ok b
    → P b
bind_all P (ok a) f all b e = all a b e
bind_all P (err x) f all b e = cc
bind_all P panicked f all b e = cc

BodyFromWire : (Option ObjectStatus × Option Bytes) × Bytes → Type 0
BodyFromWire b = FromWire b.0.0 b.0.1

ObjectFromWire : SubgroupObject × Bytes → Type 0
ObjectFromWire o = FromWire o.0.object_status o.0.payload

read_body-FromWire :
    (len : ℕ) (bs : Bytes) (b : (Option ObjectStatus × Option Bytes) × Bytes)
    → read_body len bs ≡ ok b
    → BodyFromWire b
unfolding read_body FromWire BodyFromWire
read_body-FromWire len bs = elim (Bool-cases (len == 0)) [
  | inl k ↦ rw k (
      bind_all BodyFromWire (get_vi bs) _ (λ p.
        bind_all BodyFromWire (status_try_from p.0) _
          (λ s b h. subst BodyFromWire (ok_injective h) tt)))
  | inr k ↦ rw k (
      bind_all BodyFromWire (take_block len bs) _ (λ p b h. subst BodyFromWire (ok_injective h) tt))
]

deserialize-FromWire :
    (bs : Bytes) (prev : Option ℕ) (has : Bool) (o : SubgroupObject × Bytes)
    → deserialize bs prev has ≡ ok o
    → ObjectFromWire o
unfolding deserialize ObjectFromWire BodyFromWire
deserialize-FromWire bs prev has = bind_all ObjectFromWire (get_vi bs) _ λ p₁.
    bind_all ObjectFromWire (apply_delta prev p₁.0) _ λ id.
      bind_all ObjectFromWire (read_properties has p₁.1) _ λ p₂.
        bind_all ObjectFromWire (get_vi p₂.1) _ λ p₃ o e.
          let (b, e₁, e₂) = >>=-eq-ok (read_body p₃.0 p₃.1) _ e in
          subst ObjectFromWire (ok_injective e₂) (read_body-FromWire p₃.0 p₃.1 b e₁)

abbrev pub is_zero_length : Option ObjectStatus → Bool
is_zero_length none = false
is_zero_length (some status) = is_normal status

forward :
    (o : SubgroupObject) (status : Option ObjectStatus) (payload : Option Bytes)
    → FromWire status payload
    → (subgroup_body (status_or_normal status) payload >>= λ body.
        ok (record o { object_status = body.1; payload = body.0 }))
      ≡ (if is_zero_length status
          then err casting_error
          else ok (record o { object_status = status; payload = payload }))
unfolding FromWire
forward o none none w = absurd w
forward o none (some payload) w = refl
forward o (some normal) none w = refl
forward o (some end_of_group_status) none w = refl
forward o (some end_of_track) none w = refl
forward o (some status) (some payload) w = absurd w

-- An Object that was read from a subgroup stream and turned into an Object with a Subgroup ID
-- turns into the same Object for the next subgroup stream, but for one with the status Normal,
-- which has no payload: that one gives a casting error.
pub forward_read :
    (bs rest : Bytes) (prev : Option ℕ) (has : Bool) (o : SubgroupObject) (alias group id : ℕ)
    (priority : Option ℕ) (default_priority : ℕ)
    → deserialize bs prev has ≡ ok (o, rest)
    → (try_from_subgroup o alias group (some id) priority default_priority >>= try_into_subgroup)
      ≡ (if is_zero_length o.object_status then err casting_error else ok o)
unfolding try_from_subgroup try_into_subgroup ObjectFromWire
forward_read bs rest prev has o alias group id priority d e =
    forward o o.object_status o.payload (deserialize-FromWire bs prev has (o, rest) e)
