-- ===== src/Tests/Objects.antt =====
-- The theorems about Objects and their streams at concrete inputs.
use moqtail.Prelude.{
  ◌≡◌, ◌⊎◌, ◌||◌, refl, List, [], ◌∷◌, ◌++◌, true, false, none, some, arith, if◌then◌else◌,
}
use moqtail.Wire.Outcome.{ok, err, casting_error, track_alias_error, ◌>>=◌}
use moqtail.Wire.Buffer.{Bytes}
use moqtail.Wire.Location.{loc}
use moqtail.Control.Constant.{ascending}
use moqtail.Data.Constant.{normal, status_try_from}
use moqtail.Data.FetchObject.{subgroup, datagram, timed_out, next_context}
use moqtail.Data.SubgroupObject.{
  SubgroupObject, serialize, deserialize, apply_delta, read_properties, read_body,
}
use moqtail.Wire.Varint.{get_vi}
use moqtail.Data.SubgroupObject.RoundTrip.{deserialize-serialize_subgroup_object}
use moqtail.Data.Object.{try_from_subgroup, try_into_subgroup, try_into_fetch}
use moqtail.Data.Properties.{validate_prior_gaps}
use moqtail.Data.Object.Forms.{forward_read, is_zero_length}
use moqtail.Data.TrackName.{FullTrackName}
use moqtail.Data.TrackAlias.{
  TrackAliasMap, new, add_mapping, get_name_by_alias, get_alias_by_name, contains_alias,
  contains_name,
}
use moqtail.Data.TrackAlias.Inverse.{Call, adds, removes_alias, run, add_mapping_answers}
use moqtail.Transport.FetchStream.{
  DataStreamItem, object_item, end_of_range_item, fresh, validate, send_all,
}
use moqtail.Transport.FetchStream.RoundTrip.{AllRead, read_items-send_all}

abbrev written : SubgroupObject
written = record {
  object_id = 9;
  properties = none;
  object_status = none;
  payload = some (65 ∷ 66 ∷ []);
}

deserialize-serialize_subgroup_object_example :
    (bs : Bytes) × (serialize written (some 7) false ≡ ok bs)
    × (deserialize (bs ++ 1 ∷ []) (some 7) false ≡ ok (written, 1 ∷ []))
deserialize-serialize_subgroup_object_example =
    deserialize-serialize_subgroup_object written (some 7) false none (1 ∷ [])
      (omega arith, omega arith) (refl, refl) (omega arith)

-- An Object without a payload, whose status is Normal.
abbrev empty_object : SubgroupObject
empty_object = record {
  object_id = 9;
  properties = none;
  object_status = some normal;
  payload = none;
}

forward_read_example :
    (try_from_subgroup empty_object 3 4 (some 0) none 128 >>= try_into_subgroup)
    ≡ (if is_zero_length empty_object.object_status then err casting_error else ok empty_object)
unfolding deserialize get_vi apply_delta read_properties read_body status_try_from
forward_read_example =
    forward_read (1 ∷ 0 ∷ 0 ∷ 5 ∷ []) (5 ∷ []) (some 7) false empty_object 3 4 0 none 128 refl

abbrev news : FullTrackName
news = record { namespace = (110 ∷ []) ∷ []; name = 49 ∷ [] }

abbrev three_calls : List Call
three_calls = adds 5 news ∷ removes_alias 5 ∷ adds 6 news ∷ []

add_mapping_answers_example :
    ((m : TrackAliasMap) × (add_mapping (run new three_calls) 7 news ≡ ok m)
      × (get_name_by_alias m 7 ≡ ok news)
      × (get_alias_by_name m news ≡ ok 7))
    ⊎ ((add_mapping (run new three_calls) 7 news ≡ err track_alias_error)
        × (get_name_by_alias (run new three_calls) 7 ≡ ok news → ⊥)
        × ((contains_alias (run new three_calls) 7 || contains_name (run new three_calls) news)
            ≡ true))
add_mapping_answers_example = add_mapping_answers three_calls 7 news

-- An Object of a Subgroup, a marker, and an Object of a datagram behind it.
abbrev three_items : List DataStreamItem
three_items =
    object_item (record {
      track_alias = 0;
      location = loc 4 2;
      publisher_priority = 128;
      forwarding_preference = subgroup;
      subgroup_id = some 0;
      status = normal;
      properties = none;
      payload = some (65 ∷ []);
    })
    ∷ end_of_range_item timed_out (loc 5 7)
    ∷ object_item (record {
      track_alias = 0;
      location = loc 6 0;
      publisher_priority = 128;
      forwarding_preference = datagram;
      subgroup_id = none;
      status = normal;
      properties = none;
      payload = some (66 ∷ []);
    })
    ∷ []

read_items-send_all_example :
    (bs : Bytes) × (send_all three_items none ascending ≡ ok bs)
    × AllRead three_items bs none fresh.subgroup_priorities ascending 3
unfolding try_into_fetch validate validate_prior_gaps next_context
read_items-send_all_example =
    read_items-send_all three_items none ascending fresh.subgroup_priorities 3 tt
      (
        _,
        _,
        refl,
        (omega arith, omega arith, omega arith, omega arith),
        tt,
        refl,
        refl,
        refl,
        (
          (omega arith, omega arith),
          (
            _,
            _,
            refl,
            (omega arith, omega arith, omega arith, omega arith),
            (omega arith, (λ e. omega arith), omega arith, λ s e. ground arith),
            refl,
            refl,
            refl,
            tt,
          ),
        ),
      )
      (omega arith)
