-- ===== src/Relay/SeenObjects/History.antt =====
-- A specification of a whole run of seen_objects.rs: the answer to an Object as a question about the
-- Objects that came before it, without slots, bitmaps and windows.
pub mod Slot
pub mod Exact
use moqtail.Prelude.{
  ℕ, zero, suc, ◌+◌, ◌-◌, ◌*◌, ◌%◌, ◌<◌, ◌≤◌, ◌≡◌, ◌≢◌, refl, ap, ◌∙◌, sym, max, Bool, true, false,
  not, ◌&&◌, ◌||◌, List, [], ◌∷◌, Option, none, some, length, length-replicate, length-set,
  replicate, get_or, set, ltb, leb, ◌==◌, if◌then◌else◌, Bool-cases, inl, inr, arith,
}
use moqtail.Wire.Location.{Location}
use moqtail.Relay.SeenObjects.{
  GroupBits, inline, window, GroupState, Slots, test_and_set, start_group, touch_slot, new,
  is_duplicate,
}
use moqtail.Relay.SeenObjects.Bitmap.{bit_is_set-empty}
use moqtail.Relay.SeenObjects.Window.{HasWords, top, remembered, Records, test_and_set-Records}

-- The Objects that came, the newest first.
abbrev pub History : Type 0
History = List Location

-- The Object came before.
unfoldable pub seen_in : History → ℕ → ℕ → Bool
seen_in [] g o = false
seen_in (l ∷ h) g o = ((l.group == g) && (l.object == o)) || seen_in h g o

-- An Object of a newer group with the same slot came before.
unfoldable pub newer_in : ℕ → History → ℕ → Bool
newer_in n [] g = false
newer_in n (l ∷ h) g = (ltb g l.group && (l.group % n == g % n)) || newer_in n h g

-- An Object of the group came before whose id is 4096 or more above.
unfoldable pub behind_in : History → ℕ → ℕ → Bool
behind_in [] g o = false
behind_in (l ∷ h) g o = ((l.group == g) && leb (o + 4096) l.object) || behind_in h g o

-- The slots after the Objects of a history.
unfoldable pub run : ℕ → History → Slots
run n [] = new n
run n (l ∷ h) = (is_duplicate (run n h) l).0

-- What the relay should answer: seen, and neither of the two reasons to have forgotten it.
unfoldable pub expected : ℕ → History → Location → Bool
expected n h l =
    seen_in h l.group l.object && (not (newer_in n h l.group) && not (behind_in h l.group l.object))
