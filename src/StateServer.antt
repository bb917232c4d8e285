-- ===== src/StateServer.antt =====
-- src/stateserver: the state server and its distributed objects.
pub mod Messages
pub mod Object
pub mod Entries
pub mod Location
pub mod Fields
pub mod Query
pub mod Zones
pub mod Dispatch
pub mod Server
pub mod Placement
mod Tests
