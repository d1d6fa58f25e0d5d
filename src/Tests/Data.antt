-- ===== src/Tests/Data.antt =====
-- The theorems about data streams, datagrams and control codes at concrete inputs.
use moqtail.Prelude.{
  ◌≡◌, ◌≢◌, List, length, ◌≤◌, subst, refl, [], ◌∷◌, ◌++◌, true, false, none, some, arith,
}
use moqtail.Wire.Outcome.{ok, panicked, ok_injective, ◌>>=◌}
use moqtail.Wire.Tuple
use moqtail.Wire.Buffer.{Bytes}
use moqtail.Data.Subgroup.{SubgroupHeader, new_with_explicit_id, serialize, deserialize}
use moqtail.Data.Subgroup.RoundTrip.{with_alias, deserialize-serialize_subgroup}
use moqtail.Data.Subgroup.Built.{new-IsHeader}
use moqtail.Control.Constant.{ascending}
use moqtail.Data.FetchObject
use moqtail.Data.FetchObject.{FetchObjectContext, FetchObjectPayload, object, subgroup}
use moqtail.Data.FetchObject.Layout.{read_back}
use moqtail.Data.FetchObject.RoundTrip.{deserialize-serialize_fetch}
use moqtail.Data.FetchObject.Safe.{deserialize-ne-panicked_fetch}
use moqtail.Data.Datagram
use moqtail.Data.Datagram.{Datagram}
use moqtail.Data.Datagram.RoundTrip.{deserialize-serialize_datagram}
use moqtail.Data.Properties.{
  ObjectProperty, immutable_properties, prior_group_id_gap, prior_object_id_gap, any_immutable,
  collect, type_value, try_into, serialize_object_properties, deserialize_object_properties,
}
use moqtail.Data.Properties.RoundTrip.{deserialize-serialize_properties}
use moqtail.Wire.Pair.{
  var_int, try_new_varint, serialize_kvp_list, serialize_sorted, sort_by_type, insert_by_type,
  serialize_delta, put_value,
}
use moqtail.Wire.Varint.{put_vi}
use moqtail.Data.TrackName
use moqtail.Data.TrackName.{FullTrackName}
use moqtail.Data.TrackName.RoundTrip.{deserialize-serialize_name}

abbrev header : SubgroupHeader
header = new_with_explicit_id 4 7 2 (some 128) true false true

deserialize-serialize_subgroup_example :
    (bs : Bytes) × (serialize header (some 9) ≡ ok bs)
    × (deserialize (bs ++ 1 ∷ []) ≡ ok (with_alias header (some 9), 1 ∷ []))
deserialize-serialize_subgroup_example =
    deserialize-serialize_subgroup header (some 9) (1 ∷ [])
      (new-IsHeader 4 7 2 (some 128) true false true (omega arith) (omega arith) (omega arith)
        (λ n e. ground arith)).2
      (λ a e. ground arith)

abbrev news : FullTrackName
news = record { namespace = (110 ∷ []) ∷ []; name = 49 ∷ [] }

deserialize-serialize_name_example :
    (TrackName.serialize news >>= λ e. TrackName.deserialize (e ++ 9 ∷ [])) ≡ ok (news, 9 ∷ [])
unfolding TrackName.new TrackName.namespace_length Tuple.serialize Tuple.serialize_fields
    Tuple.serialize_field put_vi
deserialize-serialize_name_example =
    deserialize-serialize_name ((110 ∷ []) ∷ []) (49 ∷ []) news (9 ∷ []) refl

abbrev prior : FetchObjectContext
prior = record { group_id = 4; subgroup_id = some 2; object_id = 7; publisher_priority = some 128 }

-- The next group, the subgroup after the prior one, the same priority.
abbrev fetched : FetchObjectPayload
fetched = record {
  group_id = 6;
  subgroup_id = 3;
  object_id = 9;
  publisher_priority = 128;
  forwarding_preference = subgroup;
  properties = none;
  payload = 65 ∷ 66 ∷ [];
}

deserialize-serialize_fetch_example :
    (bs : Bytes) × (FetchObject.serialize (object fetched) (some prior) ascending ≡ ok bs)
    × (FetchObject.deserialize (bs ++ 1 ∷ []) (some prior) ascending
        ≡ ok (read_back fetched none, 1 ∷ []))
deserialize-serialize_fetch_example =
    deserialize-serialize_fetch fetched (some prior) ascending none (1 ∷ [])
      (omega arith, omega arith, omega arith) (omega arith, omega arith, omega arith, omega arith)
      (omega arith, (λ e. omega arith), omega arith, λ s e. ground arith) refl

-- It takes a byte of flags, the group and the object deltas, the length and the payload.
serialize-fetched :
    FetchObject.serialize (object fetched) (some prior) ascending
    ≡ ok (14 ∷ 1 ∷ 9 ∷ 2 ∷ 65 ∷ 66 ∷ [])
unfolding FetchObject.serialize FetchObject.serialize_payload FetchObject.group_delta
    FetchObject.order_delta FetchObject.step_back FetchObject.object_delta FetchObject.subgroup_mode
    FetchObject.prior_mode put_vi FetchObject.flags FetchObject.has_priority
serialize-fetched = refl

deserialize-ne-panicked_fetch_example :
    FetchObject.deserialize (14 ∷ 1 ∷ 9 ∷ []) (some prior) ascending ≢ panicked
deserialize-ne-panicked_fetch_example =
    deserialize-ne-panicked_fetch (14 ∷ 1 ∷ 9 ∷ []) (some prior) ascending (λ s e. ground arith)

abbrev gaps : List ObjectProperty
gaps = immutable_properties (var_int 2 5 ∷ []) ∷ prior_group_id_gap 3 ∷ prior_object_id_gap 1 ∷ []

two_bytes : (e : Bytes) → serialize_kvp_list (var_int 2 5 ∷ []) ≡ ok e → 2 ∷ 5 ∷ [] ≡ e
unfolding serialize_kvp_list serialize_sorted sort_by_type insert_by_type serialize_delta put_vi
    put_value
two_bytes e w = ok_injective w

deserialize-serialize_properties_example :
    (serialize_object_properties gaps >>= deserialize_object_properties) ≡ ok gaps
unfolding serialize_kvp_list any_immutable type_value
deserialize-serialize_properties_example =
    deserialize-serialize_properties gaps
      (
        (
          ((omega arith, refl, omega arith), tt),
          (omega arith, tt),
          refl,
          λ e w. subst (λ (l : Bytes). length l ≤ 65535) (two_bytes e w) (omega arith),
        ),
        (omega arith, (omega arith, tt)),
      )
      (omega arith, (omega arith, (omega arith, tt)))

-- The last Object of a group, with properties.
abbrev last_object : Datagram
last_object = record {
  track_alias = 9;
  group_id = 4;
  object_id = 0;
  publisher_priority = some 128;
  properties = some (prior_group_id_gap 3 ∷ []);
  payload = some (65 ∷ 66 ∷ []);
  object_status = none;
  end_of_group = true;
}

deserialize-serialize_datagram_example :
    (Datagram.serialize last_object >>= Datagram.deserialize) ≡ ok (last_object, [])
unfolding serialize_object_properties collect try_into try_new_varint serialize_kvp_list
    serialize_sorted sort_by_type insert_by_type serialize_delta put_vi put_value
deserialize-serialize_datagram_example =
    deserialize-serialize_datagram last_object (some (prior_group_id_gap 3 ∷ []))
      (omega arith, omega arith, omega arith, tt)
      (
        60 ∷ 3 ∷ [],
        prior_group_id_gap 3 ∷ [],
        refl,
        omega arith,
        omega arith,
        deserialize-serialize_properties (prior_group_id_gap 3 ∷ []) (omega arith, tt)
            (omega arith, tt),
        refl,
      )
