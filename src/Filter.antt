-- ===== src/Filter.antt =====
-- The filters of libs/moqtail-rs/src/model/parameter: which Objects a request selects.
pub mod Location
pub mod Range
