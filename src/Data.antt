-- ===== src/Data.antt =====
-- The data streams and datagrams of libs/moqtail-rs/src/model/data.
pub mod Constant
pub mod Subgroup
pub mod TrackName
pub mod Properties
pub mod FetchObject
pub mod Datagram
pub mod SubgroupObject
pub mod Object
pub mod TrackAlias
