-- ===== src/Ipc/Protocol.antt =====
-- nebulasd/src/nebulasd/ipc/protocol.py: the rows of the commands, with the tests of their
-- constructors, and the tests on the rows of one command. The byte formats are left out, and a test
-- that a handle is a handle has no counterpart.
pub mod Rows
pub mod TargetRows
pub mod Keys
pub mod Commands
pub mod Cache
pub mod Wire
pub mod Destinations
mod Examples
