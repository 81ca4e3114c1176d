-- ===== src/Kv.antt =====
-- nebulasd/src/nebulasd/kv: the HostKV arena, its allocator, pins and copy plans.
pub mod Arena
pub mod HostAllocator
pub mod Transfer
pub mod SharedPins
mod Examples
