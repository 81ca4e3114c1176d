-- ===== src/Scheduler.antt =====
-- nebulasd/src/nebulasd/scheduler: how a batch is chosen.
pub mod Batching
mod Examples
