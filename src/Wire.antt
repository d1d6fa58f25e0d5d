-- ===== src/Wire.antt =====
-- The wire format of libs/moqtail-rs/src/model: errors, the read buffer, and the encodings.
pub mod Outcome
pub mod Buffer
pub mod Varint
pub mod Pair
pub mod Tuple
pub mod Location
pub mod Grease
pub mod Phrase
