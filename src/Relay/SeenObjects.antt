-- ===== src/Relay/SeenObjects.antt =====
-- apps/relay/src/server/seen_objects.rs: which Objects a track has ingested, in a ring of group
-- slots with a bitmap each. A call runs under the lock of its slot, so calls are a sequence.
-- An index out of range would panic in Rust; here such a read gives 0 and such a write does nothing.
-- The code only uses positions below the number of the bits.
pub mod Bitmap
pub mod Slide
pub mod Window
pub mod History
use moqtail.Prelude.{
  ℕ, zero, suc, ◌+◌, ◌-◌, ◌/◌, ◌%◌, ◌^◌, bit_and, bit_or, List, [], ◌∷◌, Bool, true, false, not,
  Option, none, some, length, get_or, set, replicate, ltb, leb, ◌==◌, if◌then◌else◌,
}
use moqtail.Wire.Buffer.{u64_max}
use moqtail.Wire.Location.{Location}

abbrev pub inline_bits : ℕ
inline_bits = 256

abbrev pub inline_words : ℕ
inline_words = 4

abbrev pub window_bits : ℕ
window_bits = 4096

abbrev pub window_words : ℕ
window_words = 64

abbrev pub Words : Type 0
Words = List ℕ

-- `words[index >> 6] & (1 << (index & 63)) != 0`
pub bit_is_set : Words → ℕ → Bool
bit_is_set words index = not (bit_and (get_or words (index / 64) 0) (2 ^ (index % 64)) == 0)

pub set_bit : Words → ℕ → Words
set_bit words index =
    set words (index / 64) (bit_or (get_or words (index / 64) 0) (2 ^ (index % 64)))

pub clear_bit : Words → ℕ → Words
clear_bit words index =
    set words (index / 64) (bit_and (get_or words (index / 64) 0) (u64_max - 2 ^ (index % 64)))

-- `for displaced in (*high + 1)..=id`, with the rounds that are left
clear_range : ℕ → ℕ → Words → Words
clear_range zero displaced words = words
clear_range (suc rounds) displaced words =
    clear_range rounds (displaced + 1) (clear_bit words (displaced % window_bits))

-- The words after the window has slid up to `id`: `words.fill(0)`, or the displaced bits cleared.
pub slide : ℕ → Words → ℕ → Words
slide high words id =
    if leb window_bits (id - high)
    then replicate (length words) 0
    else clear_range (id - high) (high + 1) words

-- The new `high`, the new words, and whether the bit was set.
window_test_and_set : ℕ → Words → ℕ → ℕ × Words × Bool
window_test_and_set high words id =
    if ltb high id
    then (id, set_bit (slide high words id) (id % window_bits), false)
    else if leb window_bits (high - id)
    then (high, words, false)
    else (high, set_bit words (id % window_bits), bit_is_set words (id % window_bits))

pub data GroupBits : Type 0 where
  inline : Words → GroupBits
  window : ℕ → Words → GroupBits

-- `for id in 0..INLINE_BITS`
pub promote_range : ℕ → ℕ → Words → Words → Words
promote_range zero id words wide = wide
promote_range (suc rounds) id words wide =
    promote_range rounds (id + 1) words
      (if bit_is_set words id then set_bit wide (id % window_bits) else wide)

-- The window that an inline bitmap is moved into; its `high` is `INLINE_BITS - 1`.
promote : Words → ℕ × Words
promote words = (inline_bits - 1, promote_range inline_bits 0 words (replicate window_words 0))

test_and_set_window : ℕ → Words → ℕ → GroupBits × Bool
test_and_set_window high words id =
    let (high', words', seen) = window_test_and_set high words id in (window high' words', seen)

pub test_and_set : GroupBits → ℕ → GroupBits × Bool
test_and_set (window high words) id = test_and_set_window high words id
test_and_set (inline words) id =
    if ltb id inline_bits
    then (inline (set_bit words id), bit_is_set words id)
    else (let (high, wide) = promote words in test_and_set_window high wide id)

pub record GroupState : Type 0 where
  pub group : ℕ
  pub bits : GroupBits

-- `GroupState::new`
pub start_group : ℕ → ℕ → GroupState
start_group group first_object =
    let empty =
      if ltb first_object inline_bits
      then inline (replicate inline_words 0)
      else window first_object (replicate window_words 0) in
    record { group = group; bits = (test_and_set empty first_object).0 }

abbrev pub Slots : Type 0
Slots = List (Option GroupState)

-- `SeenObjects::new`
pub new : ℕ → Slots
new retained_groups = replicate retained_groups none

-- What one slot does under its lock.
pub touch_slot : Option GroupState → Location → Option GroupState × Bool
touch_slot none location = (some (start_group location.group location.object), false)
touch_slot (some state) location =
    if state.group == location.group
    then (let (bits, seen) = test_and_set state.bits location.object in
        (some (record state { bits = bits }), seen))
    else if ltb state.group location.group
    then (some (start_group location.group location.object), false)
    else (some state, false)

pub is_duplicate : Slots → Location → Slots × Bool
is_duplicate [] location = ([], false)
is_duplicate (s ∷ slots) location =
    let all = s ∷ slots in
    let index = location.group % length all in
    let (slot, seen) = touch_slot (get_or all index none) location in (set all index slot, seen)
