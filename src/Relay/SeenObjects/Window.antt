-- ===== src/Relay/SeenObjects/Window.antt =====
-- The bitmaps of one group as the set of the ids that are remembered.
use moqtail.Prelude.{
  ℕ, ◌+◌, ◌-◌, ◌%◌, ◌<◌, ◌≤◌, ◌≡◌, refl, ap, ◌∙◌, max, Bool, false, ◌&&◌, ◌||◌, length,
  length-replicate, replicate, ltb, leb, ◌==◌, Bool-cases, inl, inr, arith,
}
use moqtail.Relay.SeenObjects.{
  slide, Words, bit_is_set, set_bit, window_test_and_set, GroupBits, inline, window, promote,
  test_and_set_window, test_and_set,
}
use moqtail.Relay.SeenObjects.Slide.{
  length-slide, slide_keeps, length-promote_range, promote_range_bits,
}
use moqtail.Relay.SeenObjects.Bitmap.{bit_is_set-set_bit, length-set_bit, bit_is_set-empty}

-- The bitmap has the words it should have.
abbrev pub HasWords : GroupBits → Type 0
HasWords (inline ws) = length ws ≡ 4
HasWords (window high ws) = length ws ≡ 64

-- The highest id that the bitmap covers.
abbrev pub top : GroupBits → ℕ
top (inline ws) = 255
top (window high ws) = high

-- The ids that the bitmap says were seen.
unfoldable pub remembered : GroupBits → ℕ → Bool
remembered (inline ws) id = ltb id 256 && bit_is_set ws id
remembered (window high ws) id = leb id high && (ltb (high - id) 4096 && bit_is_set ws (id % 4096))

-- What `test_and_set b id` answers, and what the bitmap remembers after it.
pub record Records (b : GroupBits) (id : ℕ) (after : GroupBits × Bool) : Type 0 where
  pub has_words : HasWords after.0
  pub answer : after.1 ≡ remembered b id
  pub top_is : top after.0 ≡ max (top b) id
  pub memory :
      (j : ℕ)
      → remembered after.0 j ≡ (ltb (max (top b) id - j) 4096 && ((id == j) || remembered b j))

window_slides :
    (high : ℕ) (ws : Words) (id : ℕ)
    → length ws ≡ 64
    → high < id
    → Records (window high ws) id (window id (set_bit (slide high ws id) (id % 4096)), false)
unfolding remembered
window_slides high ws id hl up = record {
  has_words = length-set_bit _ _ ∙ length-slide high ws id hl;
  answer = ground arith;
  top_is = omega arith;
  memory = λ j. ground (
    arith,
    bit_is_set-set_bit (slide high ws id) (id % 4096) (j % 4096)
        (omega (arith, length-slide high ws id hl)),
    slide_keeps high ws id j hl up,
  );
}

window_stays :
    (high : ℕ) (ws : Words) (id : ℕ)
    → length ws ≡ 64
    → id ≤ high
    → high < id + 4096
    → Records (window high ws) id (window high (set_bit ws (id % 4096)), bit_is_set ws (id % 4096))
unfolding remembered
window_stays high ws id hl le near = record {
  has_words = length-set_bit _ _ ∙ hl;
  answer = ground arith;
  top_is = omega arith;
  memory = λ j. ground (arith, bit_is_set-set_bit ws (id % 4096) (j % 4096) (omega (arith, hl)));
}

window_too_old :
    (high : ℕ) (ws : Words) (id : ℕ)
    → length ws ≡ 64
    → id + 4096 ≤ high
    → Records (window high ws) id (window high ws, false)
unfolding remembered
window_too_old high ws id hl old = record {
  has_words = hl;
  answer = ground arith;
  top_is = omega arith;
  memory = λ j. ground arith;
}

test_and_set_window-Records :
    (high : ℕ) (ws : Words) (id : ℕ)
    → length ws ≡ 64
    → Records (window high ws) id (test_and_set_window high ws id)
unfolding test_and_set_window window_test_and_set
test_and_set_window-Records high ws id hl = elim (Bool-cases (ltb high id)) [
  | inl up ↦ rw up (window_slides high ws id hl (ground arith))
  | inr down ↦ elim (Bool-cases (leb 4096 (high - id))) [
    | inl old ↦ rw (down, old) (window_too_old high ws id hl (ground arith))
    | inr near ↦ rw (down, near) (window_stays high ws id hl (ground arith) (ground arith))
  ]
]

-- The window that an inline bitmap is moved into remembers the same ids.
remembered-promote :
    (ws : Words) (j : ℕ)
    → remembered (window (promote ws).0 (promote ws).1) j ≡ remembered (inline ws) j
unfolding remembered promote
remembered-promote ws j = ground (
  arith,
  promote_range_bits 256 0 ws (replicate 64 0) (j % 4096) refl (omega arith),
  bit_is_set-empty 64 (j % 4096),
)

length-promote : (ws : Words) → length (promote ws).1 ≡ 64
unfolding promote
length-promote ws = length-promote_range 256 0 ws (replicate 64 0) ∙ length-replicate {A = ℕ} 64 0

promote-high : (ws : Words) → (promote ws).0 ≡ 255
unfolding promote
promote-high ws = refl

inline_stays :
    (ws : Words) (id : ℕ)
    → length ws ≡ 4
    → id < 256
    → Records (inline ws) id (inline (set_bit ws id), bit_is_set ws id)
unfolding remembered
inline_stays ws id hl lt = record {
  has_words = length-set_bit _ _ ∙ hl;
  answer = ground arith;
  top_is = omega arith;
  memory = λ j. ground (arith, bit_is_set-set_bit ws id j (omega (arith, hl)));
}

promoted :
    (ws : Words) (id : ℕ)
    → Records (inline ws) id (test_and_set_window (promote ws).0 (promote ws).1 id)
promoted ws id = record {
  has_words = r.has_words;
  answer = r.answer ∙ remembered-promote ws id;
  top_is = r.top_is ∙ top_same;
  memory = λ j. r.memory j ∙ ground (arith, remembered-promote ws j, top_same);
}
  where
    r :
        Records
          (window (promote ws).0 (promote ws).1)
          id
          (test_and_set_window (promote ws).0 (promote ws).1 id)
    r = test_and_set_window-Records (promote ws).0 (promote ws).1 id (length-promote ws)

    top_same : max (promote ws).0 id ≡ max 255 id
    top_same = ap (λ (t : ℕ). max t id) (promote-high ws)

-- Recording an id answers whether it is remembered, and then the bitmap remembers it and what it
-- remembered before, but for the ids 4096 or more below the highest.
pub test_and_set-Records : (b : GroupBits) (id : ℕ) → HasWords b → Records b id (test_and_set b id)
unfolding test_and_set
test_and_set-Records (window high ws) id hl = test_and_set_window-Records high ws id hl
test_and_set-Records (inline ws) id hl = elim (Bool-cases (ltb id 256)) [
  | inl small ↦ rw small (inline_stays ws id hl (ground arith))
  | inr large ↦ rw large (promoted ws id)
]
