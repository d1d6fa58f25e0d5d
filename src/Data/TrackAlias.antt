-- ===== src/Data/TrackAlias.antt =====
-- libs/moqtail-rs/src/model/data/track_alias.rs: the names of tracks by their aliases, and back. A
-- HashMap is the function from its keys.
pub mod Inverse
use moqtail.Prelude.{ℕ, Bool, true, false, Option, none, some, is_some, ◌==◌, if◌then◌else◌}
use moqtail.Wire.Outcome.{Outcome, ok, err, track_alias_error, ok_or, ◌>>=◌}
use moqtail.Data.TrackName.{FullTrackName, name_eq}

pub record TrackAliasMap : Type 0 where
  pub alias_to_name : ℕ → Option FullTrackName
  pub name_to_alias : FullTrackName → Option ℕ

unfoldable pub new : TrackAliasMap
new = record { alias_to_name = λ a. none; name_to_alias = λ n. none }

-- `HashMap::insert` and `HashMap::remove`
abbrev pub at_alias :
    ℕ → Option FullTrackName → (ℕ → Option FullTrackName) → ℕ → Option FullTrackName
at_alias alias value m a = if a == alias then value else m a

abbrev pub at_track :
    FullTrackName → Option ℕ → (FullTrackName → Option ℕ) → FullTrackName → Option ℕ
at_track name value m n = if name_eq n name then value else m n

abbrev pub add_new : TrackAliasMap → ℕ → FullTrackName → TrackAliasMap
add_new m alias name = record {
  alias_to_name = at_alias alias (some name) m.alias_to_name;
  name_to_alias = at_track name (some alias) m.name_to_alias;
}

-- The second test of `add_mapping`, on the alias that the name has.
abbrev pub add_named : TrackAliasMap → ℕ → FullTrackName → Option ℕ → Outcome TrackAliasMap
add_named m alias name none = ok (add_new m alias name)
add_named m alias name (some existing) = if existing == alias then ok m else err track_alias_error

-- The first one, on the name that the alias has.
abbrev pub add_aliased :
    TrackAliasMap → ℕ → FullTrackName → Option FullTrackName → Outcome TrackAliasMap
add_aliased m alias name none = add_named m alias name (m.name_to_alias name)
add_aliased m alias name (some existing) =
    if name_eq existing name then ok m else err track_alias_error

unfoldable pub add_mapping : TrackAliasMap → ℕ → FullTrackName → Outcome TrackAliasMap
add_mapping m alias name = add_aliased m alias name (m.alias_to_name alias)

unfoldable pub get_name_by_alias : TrackAliasMap → ℕ → Outcome FullTrackName
get_name_by_alias m alias = ok_or (m.alias_to_name alias) track_alias_error

unfoldable pub get_alias_by_name : TrackAliasMap → FullTrackName → Outcome ℕ
get_alias_by_name m name = ok_or (m.name_to_alias name) track_alias_error

abbrev pub without : TrackAliasMap → ℕ → FullTrackName → TrackAliasMap
without m alias name = record {
  alias_to_name = at_alias alias none m.alias_to_name;
  name_to_alias = at_track name none m.name_to_alias;
}

abbrev pub drop_alias : TrackAliasMap → ℕ → Option FullTrackName → TrackAliasMap
drop_alias m alias none = m
drop_alias m alias (some name) = without m alias name

abbrev pub drop_name : TrackAliasMap → FullTrackName → Option ℕ → TrackAliasMap
drop_name m name none = m
drop_name m name (some alias) = without m alias name

-- With the name that the alias had.
unfoldable pub remove_mapping_by_alias : TrackAliasMap → ℕ → TrackAliasMap × Option FullTrackName
remove_mapping_by_alias m alias =
    let found = m.alias_to_name alias in (drop_alias m alias found, found)

unfoldable pub remove_mapping_by_name : TrackAliasMap → FullTrackName → TrackAliasMap × Option ℕ
remove_mapping_by_name m name = let found = m.name_to_alias name in (drop_name m name found, found)

unfoldable pub contains_alias : TrackAliasMap → ℕ → Bool
contains_alias m alias = is_some (m.alias_to_name alias)

unfoldable pub contains_name : TrackAliasMap → FullTrackName → Bool
contains_name m name = is_some (m.name_to_alias name)
