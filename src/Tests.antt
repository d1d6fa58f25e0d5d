-- ===== src/Tests.antt =====
-- Runs of the theorems at concrete inputs.
mod Wire
mod Filter
mod Data
mod Relay
mod Ssts
mod TrackCache
mod Objects
