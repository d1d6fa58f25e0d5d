-- ===== src/Lib.antt =====
-- moqtail: Media over QUIC in Rust, a protocol library (libs/moqtail-rs), a relay (apps/relay) and
-- track selection (libs/moqtail-ssts). This library models the relay's duplicate detection, its track
-- cache, the switching sets and both track selections, and the part of the protocol library that turns
-- bytes into values and back, with the filters that subscribers ask for and the Objects of a fetch
-- stream.
--
-- How the parts interact. Every message and header is a sequence of variable-length integers and
-- byte strings (Wire.Varint). Key-value pairs, tuples, Locations and reason phrases (Wire) stand on
-- these. Location and range filters (Filter) and subgroup headers, datagrams and Fetch Objects
-- (Data) stand on both; Object properties (Data) are key-value pairs with a meaning. The relay
-- takes Objects named by a Location and asks Relay.SeenObjects whether it has forwarded them;
-- Relay.TrackCache keeps them, and the Locations that have none, and says what it can serve a Fetch
-- from. Data.Object is the one form that the Objects of subgroup streams, fetch streams and datagrams
-- are turned into, and Transport.FetchStream sends and reads a stream of them.
-- For each group it asks Ssts.Backpressure or Ssts.Default which track of a switching set to
-- forward; Relay.SwitchingSets keeps the sets, of tracks named by Data.TrackName, that these see as
-- snapshots.
--
-- Which file models which part; paths are from the repository's root, M is
-- libs/moqtail-rs/src/model:
--   Wire/Outcome        M/error/parse.rs: ParseError; `Outcome` is Rust's Result with a case for a
--                       panic
--   Wire/Buffer         the calls of `bytes::Bytes` and of the integer types that the code uses
--   Wire/Varint         M/common/varint.rs: get_vi, put_vi, minimal_vi_length
--   Wire/Pair           M/common/pair.rs: KeyValuePair, its delta encoding, the lists of pairs
--   Wire/Tuple          M/common/tuple.rs: TupleField, Tuple, prefixes, paths, reserved namespaces
--   Wire/Location       M/common/location.rs: Location, next, prev
--   Wire/Phrase         M/common/reason_phrase.rs: ReasonPhrase
--   Wire/Grease         M/common/grease.rs: is_grease, grease_value
--   Filter/Location     M/parameter/location_filter.rs: LocationFilter, fetch_range
--   Filter/Range        M/parameter/range_filter.rs: RangeFilter, new, ranges, validate
--   Data/Constant       M/data/constant.rs: SubgroupHeaderType, ObjectDatagramType, ObjectStatus
--   Data/Subgroup       M/data/subgroup_header.rs: SubgroupHeader
--   Control/Constant    M/control/constant.rs: the code points of the control messages
--   Data/TrackName      M/data/full_track_name.rs: FullTrackName
--   Relay/SwitchingSets apps/relay/src/server/ssts/switching_set.rs: SwitchingSetManager
--   Data/Properties     M/property/object_property.rs and the types in M/property/constant.rs
--   Data/FetchObject    M/data/fetch_object.rs: FetchObject, its markers and its context
--   Data/Datagram       M/data/datagram.rs: Datagram
--   Data/SubgroupObject M/data/subgroup_object.rs: SubgroupObject
--   Data/Object         M/data/object.rs: Object, from and into its three forms
--   Data/TrackAlias     M/data/track_alias.rs: TrackAliasMap
--   Transport/FetchStream  libs/moqtail-rs/src/transport/data_stream_handler.rs: send_object and
--                       send_end_of_range on a fetch stream, the Fetch branch of read_object, the
--                       inner loop of read, FetchSubgroupPriorityState
--   Relay/TrackCache    apps/relay/src/server/track_cache.rs: AbsentRanges, add_object, mark_absent,
--                       objects_if_complete; Fills has claim_fill and the drop of a FillClaim, whose
--                       lock is told by its address, a number that is new for each claim
--   Relay/SeenObjects   apps/relay/src/server/seen_objects.rs: SeenObjects, GroupState, GroupBits
--   Ssts/Tier           libs/moqtail-ssts/src/algorithms/backpressure/state.rs: TierState
--   Ssts/Backpressure   libs/moqtail-ssts/src/algorithms/backpressure/mod.rs: decide, with SetSnapshot
--                       and AbrInput of libs/moqtail-ssts/src/lib.rs
--   Ssts/Default        libs/moqtail-ssts/src/algorithms/default: allocate and decide, with budget_kbps
--                       of libs/moqtail-ssts/src/lib.rs
-- The definitions of Relay/SwitchingSets stand in its modules State, Lists and Calls, those of
-- Data/FetchObject in Context, Write and Read. Any other module below one of these holds proofs and is
-- named for what they are about; Tests applies the theorems at concrete inputs; Prelude has the shared names, tests and lemmas.
--
-- State and operations. A read buffer is the list of its unread bytes; a read returns the value
-- and the rest, so `&mut Bytes` is state passed along. A write buffer is the list written so far.
-- `SeenObjects` is the list of its slots; a call returns the new slots and the answer. Each call
-- holds the lock of its one slot from the test to the record, so calls are a sequence.
--
-- The manager of the switching sets is a record of maps, each its lookup; a method returns the new
-- record. Its caller holds the lock for a whole method, so a run is a sequence of operations.
--
-- Numbers. A u64 is a natural number below 2^64; the wrap of a shift is written out, and checked
-- and saturating operations have their own definitions. `usize` has 64 bits. The
-- counters of the tier state machine and the counts of open streams are natural numbers without a
-- bound; the sum of the weights of Ssts/Default wraps, as in a build without overflow checks.
--
-- Loops. `for` loops are recursions on the rounds that are left. The two loops that read until the
-- buffer is empty (the list of pairs, the deltas of a range filter) get as many rounds as the
-- buffer has bytes; each round takes a byte at least, so they are enough. Running out is
-- `panicked`. The allocation loop gets one round more than its tier has sets, and each round but
-- the last retires a set. The loop of `objects_if_complete` is over once it has more rounds than there
-- are Locations from `lo` to `hi`: its cursor rises in each. The reader of a fetch stream takes an item
-- in each round, and none from an empty buffer.
--
-- A Location is a position in one order of all u64 Locations, so the map of absent ranges is a list of
-- spans in the order of their starts. A group of the cache is the list of its Objects.
--
-- A sum that the code writes as a plain `+` on u64s gives `panicked` in Data/FetchObject and
-- Data/SubgroupObject where it overflows, as with overflow checks on.
--
-- Parameters. `String::from_utf8_lossy`, the test of `String::from_utf8` and the size of a pair in
-- memory are arguments of the definitions that use them. The cache of groups with its eviction is the
-- moka crate: `objects_if_complete` takes the group, or that there is none.
--
-- Not modelled: the texts of errors, Debug, Display and Hash; the transport and the sessions, which
-- are asynchronous I/O; the catalog, which is JSON by serde; the bodies of the control messages,
-- combined filters, track properties, the waiting of one task for the fill of another, and the
-- registry of track selections. Of a fetch stream, its header and the arrival of its
-- bytes are left out: a reader is run on what it has in its buffer.
pub mod Prelude
pub mod Wire
pub mod Filter
pub mod Data
pub mod Control
pub mod Relay
pub mod Ssts
pub mod Transport
pub mod Tests
