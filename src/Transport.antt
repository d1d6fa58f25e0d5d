-- ===== src/Transport.antt =====
-- The streams of libs/moqtail-rs/src/transport.
pub mod FetchStream
