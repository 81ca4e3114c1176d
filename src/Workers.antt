-- ===== src/Workers.antt =====
-- nebulasd/src/nebulasd/workers: the work a worker is sent, its banks of rows, and the records of
-- what it has done.
pub mod Work
pub mod Banks
pub mod Completion
mod Examples
