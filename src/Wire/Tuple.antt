-- ===== src/Wire/Tuple.antt =====
-- libs/moqtail-rs/src/model/common/tuple.rs: track namespaces, as lists of byte strings.
-- `TupleField` and `Tuple` are structs with one field each; here the field itself.
pub mod RoundTrip
pub mod Prefix
pub mod Paths
use moqtail.Prelude.{
  ℕ, zero, suc, ◌+◌, List, [], ◌∷◌, ◌++◌, Bool, true, false, not, ◌&&◌, Option, none, some, length,
  drop, set, get_elem?, ltb, leb, ◌==◌, if◌then◌else◌,
}
use moqtail.Wire.Outcome.{Outcome, ok, panicked, not_enough_bytes, guard, ◌>>=◌, ◌>>◌}
use moqtail.Wire.Buffer.{Bytes, copy_to_bytes, to_usize}
use moqtail.Wire.Varint.{get_vi, put_vi}

abbrev pub TupleField : Type 0
TupleField = Bytes

abbrev pub Tuple : Type 0
Tuple = List TupleField

-- `==` of byte strings
unfoldable pub bytes_eq : Bytes → Bytes → Bool
bytes_eq [] [] = true
bytes_eq [] (c ∷ cs) = false
bytes_eq (b ∷ bs) [] = false
bytes_eq (b ∷ bs) (c ∷ cs) = b == c && bytes_eq bs cs

unfoldable pub is_empty : Bytes → Bool
is_empty [] = true
is_empty (b ∷ bs) = false

unfoldable pub serialize_field : TupleField → Outcome Bytes
serialize_field value = do buf ← put_vi [] (length value); ok (buf ++ value)

unfoldable pub deserialize_field : Bytes → Outcome (TupleField × Bytes)
deserialize_field bs = do
  (len, bs₁) ← get_vi bs
  length_usize ← to_usize len
  guard (leb length_usize (length bs₁)) (not_enough_bytes length_usize (length bs₁))
  copy_to_bytes bs₁ length_usize

unfoldable pub add : Tuple → TupleField → Tuple
add t field = t ++ field ∷ []

-- `self.fields[index]` panics out of range, also on the left of an assignment.
unfoldable pub get : Tuple → ℕ → Outcome TupleField
get t index = elim (get_elem? t index) [ none ↦ panicked | some f ↦ ok f ]

unfoldable pub set_field : Tuple → ℕ → TupleField → Outcome Tuple
set_field t index f = if ltb index (length t) then ok (set t index f) else panicked

-- `for i in 0..prefix.fields.len() { if self.fields[i].ne(&prefix.fields[i]) { return false; } }`,
-- with the rounds that are left and the index.
unfoldable pub fields_agree : ℕ → ℕ → Tuple → Tuple → Bool
fields_agree zero i t p = true
fields_agree (suc rounds) i t p = elim (get_elem? t i) [
  | none ↦ false
  | some f ↦ elim (get_elem? p i) [
    | none ↦ false
    | some g ↦ if not (bytes_eq f g) then false else fields_agree rounds (i + 1) t p
  ]
]

unfoldable pub starts_with : Tuple → Tuple → Bool
starts_with t p = if ltb (length t) (length p) then false else fields_agree (length p) 0 t p

unfoldable pub suffix : Tuple → Tuple → Option Tuple
suffix t p = if not (starts_with t p) then none else some (drop (length p) t)

-- `self.fields.first()` and then `first()` of its bytes, or an equation with a literal
unfoldable pub is_reserved_namespace : Tuple → Bool
is_reserved_namespace [] = false
is_reserved_namespace ([] ∷ fs) = false
is_reserved_namespace ((b ∷ bs) ∷ fs) = b == b'.'

unfoldable pub is_reserved_dot : Tuple → Bool
is_reserved_dot [] = false
is_reserved_dot (f ∷ fs) = bytes_eq f (b'.' ∷ [])

abbrev pub session_field : Bytes
session_field = b'.' ∷ b's' ∷ b'e' ∷ b's' ∷ b's' ∷ b'i' ∷ b'o' ∷ b'n' ∷ []

unfoldable pub is_session_namespace : Tuple → Bool
is_session_namespace [] = false
is_session_namespace (f ∷ fs) = bytes_eq f session_field

-- `for field in &self.fields { buf.extend_from_slice(&field.serialize()?); }`
unfoldable pub serialize_fields : List TupleField → Bytes → Outcome Bytes
serialize_fields [] buf = ok buf
serialize_fields (f ∷ fs) buf = do e ← serialize_field f; serialize_fields fs (buf ++ e)

unfoldable pub serialize : Tuple → Outcome Bytes
serialize t = do buf ← put_vi [] (length t); serialize_fields t buf

-- `for _ in 0..count_usize`
unfoldable pub deserialize_fields : ℕ → List TupleField → Bytes → Outcome (Tuple × Bytes)
deserialize_fields zero fields bs = ok (fields, bs)
deserialize_fields (suc count) fields bs = do
  (field, rest) ← deserialize_field bs
  deserialize_fields count (fields ++ field ∷ []) rest

unfoldable pub deserialize : Bytes → Outcome (Tuple × Bytes)
deserialize bs = do
  (count, bs₁) ← get_vi bs
  count_usize ← to_usize count
  deserialize_fields count_usize [] bs₁

-- `path.split('/')`, on the UTF-8 bytes of the path
add_first : ℕ → List Bytes → List Bytes
add_first b [] = (b ∷ []) ∷ []
add_first b (w ∷ ws) = (b ∷ w) ∷ ws

unfoldable pub split_path : Bytes → List Bytes
unfolding add_first
split_path [] = [] ∷ []
split_path (b ∷ bs) = let rest = split_path bs in if b == b'/' then [] ∷ rest else add_first b rest

unfoldable pub add_parts : Tuple → List Bytes → Tuple
unfolding add is_empty
add_parts t [] = t
add_parts t (part ∷ parts) = add_parts (if is_empty part then t else add t part) parts

unfoldable pub from_utf8_path : Bytes → Tuple
from_utf8_path path = add_parts [] (split_path path)

-- `String::from_utf8_lossy` is the parameter: what it does to bytes that are no UTF-8 is not used.
module _ (from_utf8_lossy : Bytes → Bytes) where
  unfoldable pub push_fields : List TupleField → Bytes → Bytes
  push_fields [] path = path
  push_fields (f ∷ fs) path = push_fields fs ((path ++ b'/' ∷ []) ++ from_utf8_lossy f)

  unfoldable pub to_utf8_path : Tuple → Bytes
  to_utf8_path t = push_fields t []
