-- ===== src/Data.antt =====
-- nebulasd/src/nebulasd/data: the arenas of token ids and of proposals.
pub mod TokenArena
pub mod ProposalArena
mod Examples
