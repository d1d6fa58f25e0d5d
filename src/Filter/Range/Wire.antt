-- ===== src/Filter/Range/Wire.antt =====
-- `serialize` and `deserialize` of range_filter.rs.
pub mod RoundTrip
use moqtail.Prelude.{
  ℕ, zero, suc, ◌+◌, ◌-◌, ◌^◌, ◌<◌, ◌≤◌, ◌≡◌, ◌≢◌, refl, ap, sym, ◌∙◌, List, [], ◌∷◌, ◌++◌,
  append-nil, append_assoc, length, length-append, Bool, true, false, Option, none, some,
  if◌then◌else◌, arith,
}
use moqtail.Wire.Outcome.{
  Outcome, ok, err, panicked, not_enough_bytes, protocol_violation, >>=-ne-panicked, ◌>>=◌,
}
use moqtail.Wire.Buffer.{Bytes, AllBytes, IsU64}
use moqtail.Wire.Varint.{get_vi, put_vi, vi}
use moqtail.Wire.Varint.RoundTrip.{get_vi-vi, put_vi-vi, length-vi_pos}
use moqtail.Wire.Varint.Decode.{get_vi-ne-panicked, get_vi_takes}
use moqtail.Filter.Range.{has_property_type, RangeFilter}
use moqtail.Filter.Range.Checks.{RangeFilterKind}

abbrev pub Deltas : Type 0
Deltas = List (ℕ × Option ℕ)

put_property_type : Bytes → Option ℕ → Outcome Bytes
put_property_type buf none = ok buf
put_property_type buf (some p) = put_vi buf p

-- `None if i + 1 == self.deltas.len()`, seen from the deltas that follow
put_end : Bytes → Option ℕ → Deltas → Outcome Bytes
put_end buf (some e) rest = put_vi buf e
put_end buf none [] = ok buf
put_end buf none (d ∷ rest) = err protocol_violation

put_deltas : Deltas → Bytes → Outcome Bytes
unfolding put_end
put_deltas [] buf = ok buf
put_deltas ((start, e) ∷ rest) buf = do
  buf₁ ← put_vi buf start
  buf₂ ← put_end buf₁ e rest
  put_deltas rest buf₂

-- `buf.put_u8(self.set_id)` comes first.
unfoldable pub serialize : RangeFilter → Outcome Bytes
unfolding put_property_type put_deltas
serialize f = do buf ← put_property_type (f.set_id ∷ []) f.property_type; put_deltas f.deltas buf

get_property_type : RangeFilterKind → Bytes → Outcome (Option ℕ × Bytes)
get_property_type kind bs =
    if has_property_type kind then (do (p, bs₁) ← get_vi bs; ok (some p, bs₁)) else ok (none, bs)

get_end : Bytes → Outcome (Option ℕ × Bytes)
get_end [] = ok (none, [])
get_end (b ∷ bs) = do (e, rest) ← get_vi (b ∷ bs); ok (some e, rest)

-- `while bytes.has_remaining()`. Each round takes a byte at least, so as many rounds as there are
-- bytes are enough.
get_deltas : ℕ → Deltas → Bytes → Outcome Deltas
unfolding get_end
get_deltas fuel deltas [] = ok deltas
get_deltas zero deltas (b ∷ bs) = panicked
get_deltas (suc fuel) deltas (b ∷ bs) = do
  (start, bs₁) ← get_vi (b ∷ bs)
  (e, bs₂) ← get_end bs₁
  get_deltas fuel (deltas ++ (start, e) ∷ []) bs₂

-- The bytes are used up, so nothing is left.
unfoldable pub deserialize : RangeFilterKind → Bytes → Outcome RangeFilter
unfolding get_property_type get_deltas
deserialize kind [] = err (not_enough_bytes 1 0)
deserialize kind (set_id ∷ bs) = do
  (property_type, bs₁) ← get_property_type kind bs
  deltas ← get_deltas (length bs₁) [] bs₁
  ok (record { set_id = set_id; property_type = property_type; deltas = deltas })
