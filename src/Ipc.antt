-- ===== src/Ipc.antt =====
-- nebulasd/src/nebulasd/ipc: command payloads, command rings and change hints.
pub mod Ring
pub mod StateChangeRing
pub mod CommandArena
pub mod CommandRing
pub mod Protocol
pub mod DraftProtocol
mod Examples
