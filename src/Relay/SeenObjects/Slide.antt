-- ===== src/Relay/SeenObjects/Slide.antt =====
-- The loops of seen_objects.rs over a range of ids: clearing the displaced ids, promoting a bitmap.
use moqtail.Prelude.{
  ℕ, zero, suc, ◌+◌, ◌-◌, ◌%◌, ◌<◌, ◌≤◌, ◌≡◌, ◌≢◌, refl, ◌∙◌, false, ◌&&◌, ◌||◌, length,
  length-replicate, ltb, leb, if◌then◌else◌, Bool-cases, inl, inr, arith,
}
use native.Mathlib.Decide.{ℕ_discrete}
use moqtail.Relay.SeenObjects.{
  slide, Words, bit_is_set, set_bit, clear_bit, clear_range, window_bits, promote_range,
}
use moqtail.Relay.SeenObjects.Bitmap.{
  bit_is_set-set_bit, bit_is_set-clear_bit, length-set_bit, length-clear_bit, bit_is_set-empty,
}

length-clear_range : (rounds d : ℕ) (ws : Words) → length (clear_range rounds d ws) ≡ length ws
unfolding clear_range
length-clear_range zero d ws = refl
length-clear_range (suc rounds) d ws =
    length-clear_range rounds (d + 1) (clear_bit ws (d % window_bits)) ∙ length-clear_bit ws _

-- Clearing the positions of the ids from `d` on leaves the ids below `d` that do not share one.
clear_range_keeps :
    (rounds d : ℕ) (ws : Words) (y : ℕ)
    → length ws ≡ 64
    → y < d
    → d + rounds ≤ y + 4096
    → bit_is_set (clear_range rounds d ws) (y % 4096) ≡ bit_is_set ws (y % 4096)
unfolding clear_range
clear_range_keeps zero d ws y hl hy room = refl
clear_range_keeps (suc rounds) d ws y hl hy room =
    clear_range_keeps rounds (d + 1) (clear_bit ws (d % 4096)) y (length-clear_bit ws _ ∙ hl)
      (omega arith) (omega arith)
    ∙ (bit_is_set-clear_bit ws (d % 4096) (y % 4096) (omega arith) ∙ ground (arith, apart))
  where
    apart : d % 4096 ≢ y % 4096
    apart = omega arith

clear_range_absent :
    (rounds d : ℕ) (ws : Words) (p : ℕ)
    → length ws ≡ 64
    → bit_is_set ws p ≡ false
    → bit_is_set (clear_range rounds d ws) p ≡ false
unfolding clear_range
clear_range_absent zero d ws p hl h = h
clear_range_absent (suc rounds) d ws p hl h =
    clear_range_absent rounds (d + 1) (clear_bit ws (d % 4096)) p (length-clear_bit ws _ ∙ hl)
      (bit_is_set-clear_bit ws (d % 4096) p (omega arith) ∙ ground arith)

clear_range_clears :
    (rounds d : ℕ) (ws : Words) (y : ℕ)
    → length ws ≡ 64
    → d ≤ y
    → y < d + rounds
    → bit_is_set (clear_range rounds d ws) (y % 4096) ≡ false
unfolding clear_range
clear_range_clears zero d ws y hl lo hi = absurd (omega arith)
clear_range_clears (suc rounds) d ws y hl lo hi = elim (ℕ_discrete d y) [
  | yes e ↦ clear_range_absent rounds (d + 1) _ (y % 4096) (length-clear_bit ws _ ∙ hl) (first e)
  | no e ↦
      clear_range_clears rounds (d + 1) _ y (length-clear_bit ws _ ∙ hl) (omega arith) (omega arith)
]
  where
    first : d ≡ y → bit_is_set (clear_bit ws (d % 4096)) (y % 4096) ≡ false
    first e = bit_is_set-clear_bit ws (d % 4096) (y % 4096) (omega arith) ∙ ground arith

pub length-slide :
    (high : ℕ) (ws : Words) (id : ℕ) → length ws ≡ 64 → length (slide high ws id) ≡ 64
unfolding slide
length-slide high ws id hl = elim (Bool-cases (leb 4096 (id - high))) [
  | inl wide ↦ rw wide (length-replicate (length ws) 0 ∙ hl)
  | inr near ↦ rw near (length-clear_range (id - high) (high + 1) ws ∙ hl)
]

-- After the slide the window holds the ids that it held and still covers.
pub slide_keeps :
    (high : ℕ) (ws : Words) (id j : ℕ)
    → length ws ≡ 64
    → high < id
    → j ≤ id
    → id < j + 4096
    → bit_is_set (slide high ws id) (j % 4096) ≡ (leb j high && bit_is_set ws (j % 4096))
unfolding slide
slide_keeps high ws id j hl up le near = ground (
  arith,
  bit_is_set-empty (length ws) (j % 4096),
  clear_range_keeps (id - high) (high + 1) ws j hl,
  clear_range_clears (id - high) (high + 1) ws j hl,
)

pub length-promote_range :
    (rounds id : ℕ) (ws wide : Words) → length (promote_range rounds id ws wide) ≡ length wide
unfolding promote_range
length-promote_range zero id ws wide = refl
length-promote_range (suc rounds) id ws wide =
    length-promote_range rounds (id + 1) ws _ ∙ ground (arith, length-set_bit wide (id % 4096))

pub promote_range_bits :
    (rounds id : ℕ) (ws wide : Words) (p : ℕ)
    → length wide ≡ 64
    → id + rounds ≤ 4096
    → bit_is_set (promote_range rounds id ws wide) p
      ≡ (bit_is_set wide p || (leb id p && (ltb p (id + rounds) && bit_is_set ws p)))
unfolding promote_range
promote_range_bits zero id ws wide p hl room = ground arith
promote_range_bits (suc rounds) id ws wide p hl room =
    let next = if bit_is_set ws id then set_bit wide (id % 4096) else wide in
    promote_range_bits rounds (id + 1) ws next p (ground (arith, length-set_bit wide (id % 4096)))
      (omega arith)
    ∙ ground (arith, bit_is_set-set_bit wide (id % 4096) p (omega arith), same)
  where
    same : id % 4096 ≡ id
    same = omega arith
