-- ===== src/Data/TrackName.antt =====
-- libs/moqtail-rs/src/model/data/full_track_name.rs: a namespace and a name, with their limits.
pub mod Equality
pub mod RoundTrip
use moqtail.Prelude.{ℕ, ◌+◌, List, [], ◌∷◌, ◌++◌, Bool, true, false, ◌&&◌, length, leb}
use moqtail.Wire.Outcome.{
  Outcome, ok, err, panicked, not_enough_bytes, track_name_error, guard, ◌>>=◌, ◌>>◌,
}
use moqtail.Wire.Buffer.{Bytes, copy_to_bytes}
use moqtail.Wire.Varint.{get_vi, put_vi}
use moqtail.Wire.Tuple
use moqtail.Wire.Tuple.{TupleField, bytes_eq}

abbrev pub max_namespace_tuple_count : ℕ
max_namespace_tuple_count = 32

abbrev pub max_full_track_name_length : ℕ
max_full_track_name_length = 4096

pub record FullTrackName : Type 0 where
  pub namespace : Tuple.Tuple
  pub name : TupleField

-- The derived `==`.
unfoldable pub fields_eq : Tuple.Tuple → Tuple.Tuple → Bool
fields_eq [] [] = true
fields_eq [] (g ∷ gs) = false
fields_eq (f ∷ fs) [] = false
fields_eq (f ∷ fs) (g ∷ gs) = bytes_eq f g && fields_eq fs gs

unfoldable pub name_eq : FullTrackName → FullTrackName → Bool
name_eq m n = fields_eq m.namespace n.namespace && bytes_eq m.name n.name

unfoldable pub namespace_length : Tuple.Tuple → Outcome ℕ
namespace_length namespace = do bs ← Tuple.serialize namespace; ok (length bs)

unfoldable pub new : Tuple.Tuple → TupleField → Outcome FullTrackName
new namespace name = do
  guard (leb (length namespace) max_namespace_tuple_count) track_name_error
  ns_len ← namespace_length namespace
  guard (leb (ns_len + length name) max_full_track_name_length) track_name_error
  ok (record { namespace = namespace; name = name })

-- `buf.extend(result)`: an error adds nothing.
abbrev pub extend : Outcome Bytes → Outcome Bytes
extend (ok bs) = ok bs
extend (err e) = ok []
extend panicked = panicked

unfoldable pub serialize : FullTrackName → Outcome Bytes
serialize n = do
  buf ← extend (Tuple.serialize n.namespace)
  buf₁ ← put_vi buf (length n.name)
  ok (buf₁ ++ n.name)

-- `get_vi()? as usize`, where `usize` has 64 bits
unfoldable pub deserialize : Bytes → Outcome (FullTrackName × Bytes)
deserialize bs = do
  (namespace, bs₁) ← Tuple.deserialize bs
  guard (leb (length namespace) max_namespace_tuple_count) track_name_error
  (name_len, bs₂) ← get_vi bs₁
  guard (leb name_len (length bs₂)) (not_enough_bytes name_len (length bs₂))
  (name, bs₃) ← copy_to_bytes bs₂ name_len
  ns_len ← namespace_length namespace
  guard (leb (ns_len + length name) max_full_track_name_length) track_name_error
  ok (record { namespace = namespace; name = name }, bs₃)
