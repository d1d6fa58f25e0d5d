-- ===== src/Data/Subgroup/RoundTrip.antt =====
-- Writing and reading the headers of subgroup_header.rs.
use moqtail.Prelude.{
  ℕ, ◌<◌, ◌≡◌, refl, ap, [], ◌∷◌, ◌++◌, append-nil, append_assoc, sym, Bool, true, false, Option,
  none, some, arith,
}
use moqtail.Wire.Outcome.{ok}
use moqtail.Wire.Buffer.{Bytes, IsU64}
use moqtail.Wire.Varint.{vi}
use moqtail.Wire.Varint.RoundTrip.{get_vi-vi, put_vi-vi}
use moqtail.Data.Constant.{
  SubgroupIdMode, zero_id, first_object_id, explicit, subgroup_try_new, is_explicit,
  subgroup_id_mode, has_default_priority,
}
use moqtail.Data.Subgroup.{
  SubgroupHeader, unwrap_or, put_subgroup_id, put_priority, serialize, get_subgroup_id,
  get_priority, deserialize,
}

-- The Subgroup ID that a header of a mode carries once it is parsed.
unfoldable pub FitsId : SubgroupIdMode → Option ℕ → Type 0
FitsId zero_id id = id ≡ some 0
FitsId first_object_id id = id ≡ none
FitsId explicit none = ⊥
FitsId explicit (some id) = IsU64 id

unfoldable pub FitsPriority : Bool → Option ℕ → Type 0
FitsPriority true priority = priority ≡ none
FitsPriority false none = ⊥
FitsPriority false (some priority) = priority < 256

pub record IsHeader (h : SubgroupHeader) : Type 0 where
  pub type_is : subgroup_try_new h.header_type.value ≡ ok h.header_type
  pub type_byte : h.header_type.value < 256
  pub alias_u64 : IsU64 h.track_alias
  pub group_u64 : IsU64 h.group_id
  pub id_fits : FitsId (subgroup_id_mode h.header_type) h.subgroup_id
  pub priority_fits : FitsPriority (has_default_priority h.header_type) h.publisher_priority

id_bytes : SubgroupIdMode → Option ℕ → Bytes
id_bytes explicit (some id) = vi id
id_bytes m id = []

priority_bytes : Option ℕ → Bytes
priority_bytes (some p) = p ∷ []
priority_bytes none = []

-- The header that a stream of the alias is read as.
abbrev pub with_alias : SubgroupHeader → Option ℕ → SubgroupHeader
with_alias h alias = record h { track_alias = unwrap_or alias h.track_alias }

header_bytes : SubgroupHeader → Bytes
header_bytes h =
    vi h.header_type.value
    ++ (vi h.track_alias
        ++ (vi h.group_id
            ++ (id_bytes (subgroup_id_mode h.header_type) h.subgroup_id
                ++ priority_bytes h.publisher_priority)))

get_subgroup_id-bytes :
    (m : SubgroupIdMode) (id : Option ℕ) (rest : Bytes)
    → FitsId m id
    → get_subgroup_id m (id_bytes m id ++ rest) ≡ ok (id, rest)
unfolding FitsId id_bytes
get_subgroup_id-bytes zero_id id rest f = rw f refl
get_subgroup_id-bytes first_object_id id rest f = rw f refl
get_subgroup_id-bytes explicit none rest f = elim f [ ]
get_subgroup_id-bytes explicit (some id) rest f = rw (get_vi-vi id rest f) refl

get_priority-bytes :
    (default : Bool) (priority : Option ℕ) (rest : Bytes)
    → FitsPriority default priority
    → get_priority default (priority_bytes priority ++ rest) ≡ ok (priority, rest)
unfolding FitsPriority priority_bytes
get_priority-bytes true priority rest f = rw f refl
get_priority-bytes false none rest f = elim f [ ]
get_priority-bytes false (some p) rest f = refl

put_subgroup_id-bytes :
    (m : SubgroupIdMode) (id : Option ℕ) (buf : Bytes)
    → FitsId m id
    → put_subgroup_id (is_explicit m) id buf ≡ ok (buf ++ id_bytes m id)
unfolding FitsId id_bytes
put_subgroup_id-bytes zero_id id buf f = ap ok (sym (append-nil buf))
put_subgroup_id-bytes first_object_id id buf f = ap ok (sym (append-nil buf))
put_subgroup_id-bytes explicit none buf f = elim f [ ]
put_subgroup_id-bytes explicit (some id) buf f = put_vi-vi buf id f

put_priority-bytes :
    (default : Bool) (priority : Option ℕ) (buf : Bytes)
    → FitsPriority default priority
    → put_priority default priority buf ≡ ok (buf ++ priority_bytes priority)
unfolding FitsPriority priority_bytes
put_priority-bytes true priority buf f = rw f (ap ok (sym (append-nil buf)))
put_priority-bytes false none buf f = elim f [ ]
put_priority-bytes false (some p) buf f = refl

IsByte-IsU64 : (n : ℕ) → n < 256 → IsU64 n
IsByte-IsU64 n h = omega arith

unwrap_or-IsU64 :
    (alias : Option ℕ) (n : ℕ)
    → IsU64 n
    → ((a : ℕ) → alias ≡ some a → IsU64 a)
    → IsU64 (unwrap_or alias n)
unwrap_or-IsU64 none n h k = h
unwrap_or-IsU64 (some a) n h k = k a refl

serialize-header_bytes :
    (h : SubgroupHeader) (alias : Option ℕ)
    → IsHeader h
    → ((a : ℕ) → alias ≡ some a → IsU64 a)
    → serialize h alias ≡ ok (header_bytes (with_alias h alias))
unfolding serialize header_bytes
serialize-header_bytes h alias is given =
    rw
      (
        put_vi-vi [] h.header_type.value (IsByte-IsU64 _ is.type_byte),
        put_vi-vi (vi h.header_type.value) (unwrap_or alias h.track_alias)
            (unwrap_or-IsU64 alias _ is.alias_u64 given),
        put_vi-vi (vi h.header_type.value ++ vi (unwrap_or alias h.track_alias)) h.group_id
            is.group_u64,
        put_subgroup_id-bytes (subgroup_id_mode h.header_type) h.subgroup_id
            ((vi h.header_type.value ++ vi (unwrap_or alias h.track_alias)) ++ vi h.group_id)
            is.id_fits,
        put_priority-bytes (has_default_priority h.header_type) h.publisher_priority
            (((vi h.header_type.value ++ vi (unwrap_or alias h.track_alias)) ++ vi h.group_id)
              ++ id_bytes (subgroup_id_mode h.header_type) h.subgroup_id)
            is.priority_fits,
        append_assoc,
        append_assoc,
        append_assoc,
      )
      refl

deserialize-header_bytes :
    (h : SubgroupHeader) (rest : Bytes)
    → IsHeader h
    → deserialize (header_bytes h ++ rest) ≡ ok (h, rest)
unfolding deserialize header_bytes
deserialize-header_bytes h rest is =
    let t = h.header_type in
    let ids = id_bytes (subgroup_id_mode t) h.subgroup_id in
    let ps = priority_bytes h.publisher_priority in
    rw
      (
        append_assoc,
        append_assoc,
        append_assoc,
        append_assoc,
        get_vi-vi t.value (vi h.track_alias ++ (vi h.group_id ++ (ids ++ (ps ++ rest))))
            (IsByte-IsU64 _ is.type_byte),
        is.type_is,
        get_vi-vi h.track_alias (vi h.group_id ++ (ids ++ (ps ++ rest))) is.alias_u64,
        get_vi-vi h.group_id (ids ++ (ps ++ rest)) is.group_u64,
        get_subgroup_id-bytes (subgroup_id_mode t) h.subgroup_id (ps ++ rest) is.id_fits,
        get_priority-bytes (has_default_priority t) h.publisher_priority rest is.priority_fits,
      )
      refl

-- A subgroup header whose fields fit its type is written without an error, and reads back under
-- the alias that the stream was given, with what follows it left unread.
pub deserialize-serialize_subgroup :
    (h : SubgroupHeader) (alias : Option ℕ) (rest : Bytes)
    → IsHeader h
    → ((a : ℕ) → alias ≡ some a → IsU64 a)
    → (bs : Bytes) × (serialize h alias ≡ ok bs)
      × (deserialize (bs ++ rest) ≡ ok (with_alias h alias, rest))
deserialize-serialize_subgroup h alias rest is given = (
  header_bytes (with_alias h alias),
  serialize-header_bytes h alias is given,
  deserialize-header_bytes (with_alias h alias) rest (record {
    type_is = is.type_is;
    type_byte = is.type_byte;
    alias_u64 = unwrap_or-IsU64 alias _ is.alias_u64 given;
    group_u64 = is.group_u64;
    id_fits = is.id_fits;
    priority_fits = is.priority_fits;
  }),
)
