-- ===== src/Core/DraftContracts.antt =====
-- nebulasd/src/nebulasd/core/draft_contracts.py: the identity of a Draft snapshot in the HostKV
-- arena, the snapshot, and the tests of their constructors. The byte formats are in
-- Ipc/Protocol/Wire.
use nebula_sd.Common.{
  ℕ, ◌+◌, ◌-◌, ◌*◌, ◌/◌, not, ◌||◌, Result, ok, ◌>>◌, raise_if, value_error, ltb, ◌==◌,
}
use nebula_sd.Core.Ids.{u32, u64, validate}
use nebula_sd.Core.Handles.{ArenaHandle, is_empty}

unfoldable pub require_handle : ArenaHandle → Result ArenaHandle
unfolding is_empty
require_handle handle = do raise_if (is_empty handle) value_error; ok handle

pub record DraftHostAllocation : Type 0 where
  pub arena_id : ℕ
  pub arena_generation : ℕ
  pub layout_id : ℕ
  pub host_slot_generation : ℕ
  pub writer_lease_generation : ℕ
  pub offset_blocks : ℕ
  pub host_slot : ℕ
  pub capacity_blocks : ℕ
  pub block_size : ℕ

unfoldable pub checked_allocation : DraftHostAllocation → Result DraftHostAllocation
unfolding validate
checked_allocation r = do
  validate u32 r.arena_id
  validate u32 r.arena_generation
  validate u32 r.host_slot
  validate u32 r.capacity_blocks
  validate u64 r.layout_id
  validate u64 r.host_slot_generation
  validate u64 r.writer_lease_generation
  validate u64 r.offset_blocks
  validate u64 r.block_size
  raise_if (r.capacity_blocks == 0 || r.block_size == 0) value_error
  ok r

pub record DraftSnapshotIdentity : Type 0 where
  pub request_slot : ℕ
  pub request_epoch : ℕ
  pub round_id : ℕ
  pub op_seq : ℕ
  pub worker_id : ℕ
  pub worker_generation : ℕ
  pub owner_epoch : ℕ
  pub snapshot_version : ℕ
  pub logical_kv_len : ℕ
  pub valid_blocks : ℕ
  pub allocation : DraftHostAllocation

-- Blocks for so many tokens, rounded up.
unfoldable pub blocks_for : ℕ → ℕ → ℕ
blocks_for tokens block_size = (tokens + block_size - 1) / block_size

unfoldable pub checked_identity : DraftSnapshotIdentity → Result DraftSnapshotIdentity
unfolding validate blocks_for
checked_identity r = do
  validate u32 r.request_slot
  validate u32 r.worker_id
  validate u32 r.logical_kv_len
  validate u32 r.valid_blocks
  validate u64 r.request_epoch
  validate u64 r.round_id
  validate u64 r.op_seq
  validate u64 r.worker_generation
  validate u64 r.owner_epoch
  validate u64 r.snapshot_version
  raise_if (not (r.valid_blocks == blocks_for r.logical_kv_len r.allocation.block_size)) value_error
  raise_if (ltb r.allocation.capacity_blocks r.valid_blocks) value_error
  ok r

pub record DraftSnapshot : Type 0 where
  pub identity : DraftSnapshotIdentity
  pub prompt_handle : ArenaHandle
  pub generation_config_handle : ArenaHandle
  pub committed_output_handle : ArenaHandle
  pub proposal_handle : ArenaHandle
  pub prompt_count : ℕ
  pub committed_output_count : ℕ
  pub proposal_count : ℕ

unfoldable pub positive_count : ℕ → Result (Unit {0})
unfolding validate
positive_count n = do validate u32 n; raise_if (n == 0) value_error

unfoldable pub checked_snapshot : DraftSnapshot → Result DraftSnapshot
unfolding positive_count require_handle
checked_snapshot r = do
  positive_count r.prompt_count
  positive_count r.committed_output_count
  positive_count r.proposal_count
  require_handle r.prompt_handle
  require_handle r.generation_config_handle
  require_handle r.committed_output_handle
  require_handle r.proposal_handle
  raise_if
      (not (r.prompt_handle.length == r.prompt_count * 4)
        || not (r.committed_output_handle.length == r.committed_output_count * 4))
      value_error
  raise_if
      (not (
        r.identity.logical_kv_len
        == r.prompt_count + r.committed_output_count + r.proposal_count - 1))
      value_error
  ok r

-- The size of a snapshot's bytes: its header of four numbers, the identity and four handles.
abbrev pub identity_bytes : ℕ
identity_bytes = 64 + 56

abbrev pub snapshot_bytes : ℕ
snapshot_bytes = 16 + identity_bytes + 4 * 16

unfoldable pub require_snapshot_handle : ArenaHandle → Result ArenaHandle
unfolding require_handle
require_snapshot_handle handle = do
  require_handle handle
  raise_if (not (handle.length == snapshot_bytes)) value_error
  ok handle
