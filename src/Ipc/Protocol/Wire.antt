-- ===== src/Ipc/Protocol/Wire.antt =====
-- The byte format of the commands of nebulasd/src/nebulasd/ipc/protocol.py and of the Draft
-- commands of nebulasd/src/nebulasd/ipc/draft_protocol.py. WORK has a format of its own.
pub mod Reader
pub mod Trips
pub mod Fields
pub mod TargetFields
pub mod DraftRows
pub mod TargetTrips
pub mod RunTrips
pub mod Draft
pub mod DraftTrips
pub mod Payload
pub mod Decode
pub mod BodyTrips
pub mod DraftBodies
pub mod RoundTrip
pub mod Snapshot
