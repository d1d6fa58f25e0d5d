-- ===== src/Ssts.antt =====
-- Track selection for switching sets: libs/moqtail-ssts.
pub mod Tier
pub mod Backpressure
pub mod Default
