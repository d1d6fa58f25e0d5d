-- ===== src/Relay.antt =====
-- The relay of apps/relay/src/server.
pub mod SeenObjects
pub mod SwitchingSets
pub mod TrackCache
