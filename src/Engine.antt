-- ===== src/Engine.antt =====
-- nebulasd/src/nebulasd/engine: admission of requests.
pub mod Admission
mod Examples
