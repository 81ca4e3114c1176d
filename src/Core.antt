-- ===== src/Core.antt =====
-- nebulasd/src/nebulasd/core: numeric identities, fences and arena handles.
pub mod Ids
pub mod Handles
pub mod DraftContracts
mod Examples
