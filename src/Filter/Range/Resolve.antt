-- ===== src/Filter/Range/Resolve.antt =====
-- The deltas of a Range Filter against its ranges.
use moqtail.Prelude.{
  ℕ, ◌-◌, ◌%◌, ◌≤◌, ◌≡◌, ◌⊎◌, inl, inr, subst, ap, sym, ◌∙◌, List, [], ◌∷◌, ◌++◌, append-nil,
  append_assoc, true, false, Option, none, some, le→leb, arith,
}
use moqtail.Wire.Buffer.{IsU64, checked_add, checked_sub}
use moqtail.Filter.Range.{
  has_property_type, is_priority, Range, RangeFilter, is_last, end_delta, encode_ranges, new,
  end_of_delta, resolve, ranges, bounds_of, find_above, check_property_type, check_priority,
  validate,
}
use moqtail.Filter.Range.Checks.{RangeFilterKind, unordered, accept, ok_or, >>=-eq-accept, ◌>>=◌}

-- An End at or after the Start; only the last range has none.
abbrev pub EndsWell : ℕ → Option ℕ → List Range → Type 0
EndsWell start none rest = is_last rest ≡ true
EndsWell start (some e) rest = (start ≤ e) × IsU64 e

abbrev pub next_lower : ℕ → Option ℕ → ℕ
next_lower lower none = lower
next_lower lower (some e) = e

-- The ranges hold u64s and ascend from `lower` on.
abbrev pub AscendingRanges : ℕ → List Range → Type 0
AscendingRanges lower [] = Unit {0}
AscendingRanges lower (r ∷ rs) =
    (lower ≤ r.start)
    × IsU64 r.start
    × EndsWell r.start r.end rs
    × AscendingRanges (next_lower lower r.end) rs

-- One range as it stands on the wire, behind the end `lower`.
range_deltas : ℕ → Range → ℕ × Option ℕ
range_deltas lower r = (r.start - lower, elim r.end [ none ↦ none | some e ↦ some (e - r.start) ])

all_deltas : ℕ → List Range → List (ℕ × Option ℕ)
all_deltas lower [] = []
all_deltas lower (r ∷ rs) = range_deltas lower r ∷ all_deltas (next_lower lower r.end) rs

end_delta-eq :
    (r : Range) (lower : ℕ) (rest : List Range)
    → EndsWell r.start r.end rest
    → end_delta r lower rest ≡ accept ((range_deltas lower r).1, next_lower lower r.end)
unfolding end_delta range_deltas
end_delta-eq r lower rest h = ground arith

encode_ranges-eq :
    (rs : List Range) (lower : ℕ) (out : List (ℕ × Option ℕ))
    → AscendingRanges lower rs
    → encode_ranges rs lower out ≡ accept (out ++ all_deltas lower rs)
unfolding encode_ranges all_deltas range_deltas
encode_ranges-eq [] lower out h = ap accept (sym (append-nil out))
encode_ranges-eq (r ∷ rs) lower out (le, u64, ends, h) =
    rw (le→leb lower r.start le, end_delta-eq r lower rs ends)
      (encode_ranges-eq rs (next_lower lower r.end) _ h
        ∙ ap accept (append_assoc out _ (all_deltas (next_lower lower r.end) rs)))

resolve_step :
    (r : Range) (lower : ℕ) (rest : List Range)
    → lower ≤ r.start
    → IsU64 r.start
    → EndsWell r.start r.end rest
    → end_of_delta r.start (range_deltas lower r).1 lower ≡ accept (r.end, next_lower lower r.end)
unfolding end_of_delta range_deltas
resolve_step r lower rest le u64 ends = ground arith

resolve-all_deltas :
    (rs : List Range) (lower : ℕ) (out : List Range)
    → AscendingRanges lower rs
    → resolve (all_deltas lower rs) lower out ≡ accept (out ++ rs)
unfolding resolve all_deltas
resolve-all_deltas [] lower out h = ap accept (sym (append-nil out))
resolve-all_deltas (r ∷ rs) lower out (le, u64, ends, h) =
    rw (start, resolve_step r lower rs le u64 ends)
      (resolve-all_deltas rs (next_lower lower r.end) (out ++ r ∷ []) h
        ∙ ap accept (append_assoc out (r ∷ []) rs))
  where
    start : checked_add lower (range_deltas lower r).0 ≡ some r.start
    start = unfold range_deltas in ground arith

-- A filter built from ascending ranges of u64s, of which only the last may be open, has these
-- ranges.
ranges-new :
    (set_id : ℕ) (property_type : Option ℕ) (rs : List Range)
    → AscendingRanges 0 rs
    → (new set_id property_type rs >>= λ f. ranges f) ≡ accept rs
unfolding new ranges
ranges-new set_id property_type rs h =
    rw (encode_ranges-eq rs 0 [] h) (resolve-all_deltas rs 0 [] h)

abbrev pub AllU64 : List Range → Type 0
AllU64 [] = Unit {0}
AllU64 (r ∷ rs) = IsU64 r.start × EndU64 r.end × AllU64 rs
  where
    EndU64 : Option ℕ → Type 0
    EndU64 none = Unit {0}
    EndU64 (some e) = IsU64 e

end_delta_sound :
    (r : Range) (lower : ℕ) (rest : List Range) (end : Option ℕ) (lower' : ℕ)
    → AllU64 (r ∷ [])
    → end_delta r lower rest ≡ accept (end, lower')
    → EndsWell r.start r.end rest × (lower' ≡ next_lower lower r.end)
unfolding end_delta
end_delta_sound r lower rest end lower' u64 e = ground arith

encode_ranges_sound :
    (rs : List Range) (lower : ℕ) (out ds : List (ℕ × Option ℕ))
    → AllU64 rs
    → encode_ranges rs lower out ≡ accept ds
    → AscendingRanges lower rs
unfolding encode_ranges
encode_ranges_sound [] lower out ds u64 e = tt
encode_ranges_sound (r ∷ rs) lower out ds (hs, he, u64) e =
    let (start, e₀, e₁) = >>=-eq-accept (ok_or (checked_sub r.start lower) unordered) _ e in
    let ((end, lower'), e₂, e₃) = >>=-eq-accept (end_delta r lower rs) _ e₁ in
    let (ends, same) = end_delta_sound r lower rs end lower' (hs, he, tt) e₂ in
    (
      ground arith,
      hs,
      ends,
      subst (λ l. AscendingRanges l rs) same (encode_ranges_sound rs lower' _ ds u64 e₃),
    )

-- A filter is built from ranges of u64s only if the ranges ascend and only the last is open.
new_sound :
    (set_id : ℕ) (property_type : Option ℕ) (rs : List Range) (f : RangeFilter)
    → AllU64 rs
    → new set_id property_type rs ≡ accept f
    → AscendingRanges 0 rs
unfolding new
new_sound set_id property_type rs f u64 e =
    let (ds, e₀, e₁) = >>=-eq-accept (encode_ranges rs 0 []) _ e in
    encode_ranges_sound rs 0 [] ds u64 e₀

abbrev pub AllByte : List ℕ → Type 0
AllByte [] = Unit {0}
AllByte (v ∷ vs) = (v ≤ 255) × AllByte vs

find_above-AllByte : (vs : List ℕ) → find_above vs ≡ none → AllByte vs
unfolding find_above
find_above-AllByte [] e = tt
find_above-AllByte (v ∷ vs) e = (ground arith, find_above-AllByte vs (ground arith))

-- The Property Type that a kind of filter asks for: an even one, or none at all.
abbrev pub FitsKind : RangeFilterKind → Option ℕ → Type 0
FitsKind kind none = has_property_type kind ≡ false
FitsKind kind (some p) = (has_property_type kind ≡ true) × (p % 2 ≡ 0)

check_property_type_sound :
    (kind : RangeFilterKind) (p : Option ℕ)
    → check_property_type kind p ≡ accept tt
    → FitsKind kind p
unfolding check_property_type
check_property_type_sound kind none e = ground arith
check_property_type_sound kind (some p) e = ground arith

check_priority_sound :
    (kind : RangeFilterKind) (rs out : List Range)
    → check_priority kind rs ≡ accept out
    → (out ≡ rs) × ((is_priority kind ≡ false) ⊎ (find_above (bounds_of rs) ≡ none))
unfolding check_priority
check_priority_sound kind rs out e = ground arith

priority_narrow :
    (kind : RangeFilterKind) (rs' rs : List Range)
    → rs ≡ rs'
    → (is_priority kind ≡ false) ⊎ (find_above (bounds_of rs') ≡ none)
    → (is_priority kind ≡ false) ⊎ AllByte (bounds_of rs)
priority_narrow kind rs' rs same (inl p) = inl p
priority_narrow kind rs' rs same (inr p) =
    inr (find_above-AllByte (bounds_of rs) (ap (λ l. find_above (bounds_of l)) same ∙ p))

-- A filter that `validate` accepts has the ranges it returns and the Property Type that its kind
-- asks for, and as a priority filter no bound above 255.
validate_sound :
    (f : RangeFilter) (kind : RangeFilterKind) (rs : List Range)
    → validate f kind ≡ accept rs
    → (ranges f ≡ accept rs)
      × FitsKind kind f.property_type
      × ((is_priority kind ≡ false) ⊎ AllByte (bounds_of rs))
unfolding validate
validate_sound f kind rs e =
    let (u, e₀, e₁) = >>=-eq-accept (check_property_type kind f.property_type) _ e in
    let (rs', e₂, e₃) = >>=-eq-accept (ranges f) _ e₁ in
    let (same, small) = check_priority_sound kind rs' rs e₃ in
    (
      e₂ ∙ ap accept (sym same),
      check_property_type_sound kind f.property_type e₀,
      priority_narrow kind rs' rs same small,
    )
