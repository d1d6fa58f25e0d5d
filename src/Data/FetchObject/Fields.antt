-- ===== src/Data/FetchObject/Fields.antt =====
-- Writing and reading back each field of a Fetch Object of fetch_object.rs.
use moqtail.Prelude.{
  is_some, ℕ, zero, suc, ◌+◌, ◌^◌, ◌<◌, ◌≡◌, refl, sym, ap, [], ◌∷◌, ◌++◌, append-nil, Bool, true,
  false, not, ◌&&◌, Option, none, some, length, length-append, lt→ltb, le→leb, ◌==◌, if◌then◌else◌,
  arith,
}
use moqtail.Wire.Outcome.{ok}
use moqtail.Wire.Buffer.{Bytes, IsU64, take-length_append, drop-length_append}
use moqtail.Wire.Varint.{vi}
use moqtail.Wire.Varint.RoundTrip.{get_vi-vi, put_vi-vi}
use moqtail.Control.Constant.{GroupOrder, original, ascending, descending}
use moqtail.Data.FetchObject.{
  FetchObjectContext, step_back, order_delta, group_delta, object_delta, has_priority, prior_mode,
  subgroup_mode, flags, put_delta, some_delta, put_if, put_byte_if, read_flags, apply_order,
  resolve_group, read_group, read_subgroup, resolve_object, read_object, read_priority, read_block,
}

abbrev pub AllU64 : Option ℕ → Type 0
AllU64 none = Unit {0}
AllU64 (some d) = IsU64 d

-- The prior Object of a stream has u64 fields.
abbrev pub IsContext : Option FetchObjectContext → Type 0
IsContext none = Unit {0}
IsContext (some pc) = IsU64 pc.group_id × AllU64 pc.subgroup_id × IsU64 pc.object_id

abbrev pub delta_bytes : Option ℕ → Bytes
delta_bytes none = []
delta_bytes (some d) = vi d

abbrev pub bytes_if : Bool → ℕ → Bytes
bytes_if false v = []
bytes_if true v = vi v

abbrev pub byte_if : Bool → ℕ → Bytes
byte_if false b = []
byte_if true b = b ∷ []

pub put_delta-delta_bytes :
    (d : Option ℕ) (buf : Bytes) → AllU64 d → put_delta d buf ≡ ok (buf ++ delta_bytes d)
put_delta-delta_bytes none buf h = ap ok (sym (append-nil buf))
put_delta-delta_bytes (some d) buf h = put_vi-vi buf d h

pub put_if-bytes_if :
    (b : Bool) (v : ℕ) (buf : Bytes) → IsU64 v → put_if b v buf ≡ ok (buf ++ bytes_if b v)
put_if-bytes_if false v buf h = ap ok (sym (append-nil buf))
put_if-bytes_if true v buf h = put_vi-vi buf v h

pub put_byte_if-byte_if :
    (b : Bool) (v : ℕ) (buf : Bytes) → put_byte_if b v buf ≡ buf ++ byte_if b v
put_byte_if-byte_if false v buf = sym (append-nil buf)
put_byte_if-byte_if true v buf = refl

-- The flags are read back.
pub read_flags-flags :
    (mode : ℕ) (o g p e d : Bool)
    → mode < 4
    → (read_flags (flags mode o g p e d) ≡ record {
      mode = mode;
      object_id = o;
      group_id = g;
      priority = p;
      properties = e;
      is_datagram = d;
    })
      × (flags mode o g p e d < 128)
unfolding read_flags flags
read_flags-flags zero o g p e d h = (ground arith, ground arith)
read_flags-flags (suc zero) o g p e d h = (ground arith, ground arith)
read_flags-flags (suc (suc zero)) o g p e d h = (ground arith, ground arith)
read_flags-flags (suc (suc (suc zero))) o g p e d h = (ground arith, ground arith)
read_flags-flags (suc (suc (suc (suc mode)))) o g p e d h = absurd (omega arith)

apply_order-order_delta :
    (order : GroupOrder) (prior group d : ℕ)
    → IsU64 prior
    → IsU64 group
    → order_delta order prior group ≡ some d
    → IsU64 d × (apply_order order prior d ≡ some group)
unfolding apply_order order_delta step_back
apply_order-order_delta descending prior group d hp hg e = (ground arith, ground arith)
apply_order-order_delta ascending prior group d hp hg e = (ground arith, ground arith)
apply_order-order_delta original prior group d hp hg e = (ground arith, ground arith)

some_delta-eq_some : (o : Option ℕ) {d : Option ℕ} → some_delta o ≡ ok d → o ≡ d
some_delta-eq_some none h = cc
some_delta-eq_some (some a) h = cc

pub some_delta-ne-none : (o : Option ℕ) → some_delta o ≡ ok none → ⊥
some_delta-ne-none none h = cc
some_delta-ne-none (some d) h = cc

read_group_prior :
    (pc : FetchObjectContext) (order : GroupOrder) (group d : ℕ) (rest : Bytes)
    → IsU64 d
    → apply_order order pc.group_id d ≡ some group
    → read_group (some pc) order true (vi d ++ rest) ≡ ok (group, rest)
unfolding read_group resolve_group
read_group_prior pc order group d rest h e = rw (get_vi-vi d rest h, e) refl

pub group_delta_lem :
    (prev : Option FetchObjectContext) (order : GroupOrder) (group : ℕ) (d : Option ℕ)
    → IsContext prev
    → IsU64 group
    → group_delta prev order group ≡ ok d
    → AllU64 d
      × ((rest : Bytes)
          → read_group prev order (is_some d) (delta_bytes d ++ rest) ≡ ok (group, rest))
unfolding group_delta read_group resolve_group
group_delta_lem none order group none c h e = cc
group_delta_lem none order group (some d) c h e =
    let same : group ≡ d = ground arith in
    (rw (← same) h, λ rest. rw (← same) (rw (get_vi-vi group rest h) refl))
group_delta_lem (some pc) order group none c h e =
    (tt, λ rest. ground (arith, some_delta-ne-none (order_delta order pc.group_id group)))
group_delta_lem (some pc) order group (some d) c h e =
    let delta : order_delta order pc.group_id group ≡ some d =
      ground (arith, some_delta-eq_some (order_delta order pc.group_id group) {d = some d}) in
    let (small, back) = apply_order-order_delta order pc.group_id group d c.0 h delta in
    (small, λ rest. read_group_prior pc order group d rest small back)

-- The Object ID goes the same way.
pub object_delta_lem :
    (prev : Option FetchObjectContext) (new_group : Bool) (object_id : ℕ) (d : Option ℕ)
    → IsContext prev
    → IsU64 object_id
    → object_delta prev new_group object_id ≡ ok d
    → AllU64 d
      × ((rest : Bytes)
          → read_object prev new_group (is_some d) (delta_bytes d ++ rest) ≡ ok (object_id, rest))
unfolding object_delta read_object resolve_object
object_delta_lem none g o none c h e = cc
object_delta_lem none g o (some d) c h e =
    let same : o ≡ d = ground arith in
    (rw (← same) h, λ rest. rw (← same) (rw (get_vi-vi o rest h) refl))
object_delta_lem (some pc) true o none c h e = cc
object_delta_lem (some pc) true o (some d) c h e =
    let same : o ≡ d = ground arith in
    (rw (← same) h, λ rest. rw (← same) (rw (get_vi-vi o rest h) refl))
object_delta_lem (some pc) false o none c h e = (tt, λ rest. ground arith)
object_delta_lem (some pc) false o (some d) c h e =
    let delta : pc.object_id + d ≡ o = ground arith in
    let small : IsU64 d = omega arith in
    (small, λ rest. rw (get_vi-vi d rest small) (ground (arith, c.2)))

pub subgroup_mode_lem :
    (prev : Option FetchObjectContext) (is_datagram : Bool) (id mode : ℕ)
    → IsU64 id
    → subgroup_mode is_datagram id prev ≡ ok mode
    → (mode < 4)
      × ((rest : Bytes)
          → read_subgroup prev is_datagram mode
              (bytes_if (not is_datagram && (mode == 3)) id ++ rest)
            ≡ ok (if is_datagram then 0 else id, rest))
unfolding subgroup_mode read_subgroup prior_mode
subgroup_mode_lem prev true id mode h e = (ground arith, λ rest. refl)
subgroup_mode_lem prev false id mode h e =
    (ground arith, λ rest. ground (arith, get_vi-vi id rest h))

pub read_priority_lem :
    (prev : Option FetchObjectContext) (priority : ℕ) (rest : Bytes)
    → read_priority prev
        (has_priority prev priority)
        (byte_if (has_priority prev priority) priority ++ rest)
      ≡ ok (priority, rest)
unfolding has_priority read_priority
read_priority_lem none priority rest = refl
read_priority_lem (some pc) priority rest = ground arith

pub read_block-vi :
    (bs rest : Bytes)
    → IsU64 (length bs)
    → read_block (vi (length bs) ++ (bs ++ rest)) ≡ ok (bs, rest)
unfolding read_block
read_block-vi bs rest h =
    rw
      (
        get_vi-vi (length bs) (bs ++ rest) h,
        lt→ltb (length bs) (2 ^ 64) h,
        le→leb (length bs) (length (bs ++ rest)) (omega (arith, length-append bs rest)),
        take-length_append,
        drop-length_append,
      )
      refl
