-- ===== src/Ipc/Protocol/TargetRows.antt =====
-- Rows of the commands for a Target worker, of nebulasd/src/nebulasd/ipc/protocol.py.
-- A HostKV handle is an arena handle in blocks.
use nebula_sd.Common.{ℕ, Result, ok, ◌>>◌, raise_if, value_error, ltb, ◌==◌}
use nebula_sd.Core.Ids.{u8, u32, u64, validate}
use nebula_sd.Core.Handles.{ArenaHandle}
use nebula_sd.Ipc.Protocol.Rows.{OwnedArenaHandle}

pub record TargetPrefillRequest : Type 0 where
  pub request_slot : ℕ
  pub request_epoch : ℕ
  pub round_id : ℕ
  pub run_seq : ℕ
  pub input_tokens_handle : ArenaHandle
  pub generation_config_handle : ArenaHandle
  pub scheduled_token_count : ℕ
  pub max_output_len : ℕ
  pub bank_id : ℕ
  pub bank_epoch : ℕ
  pub bank_offset_blocks : ℕ
  pub block_count : ℕ

unfoldable pub checked_prefill : TargetPrefillRequest → Result TargetPrefillRequest
unfolding validate
checked_prefill r = do
  validate u32 r.request_slot
  validate u64 r.request_epoch
  validate u64 r.round_id
  validate u64 r.run_seq
  validate u32 r.scheduled_token_count
  validate u32 r.max_output_len
  validate u8 r.bank_id
  validate u64 r.bank_epoch
  validate u32 r.bank_offset_blocks
  validate u32 r.block_count
  raise_if (r.block_count == 0) value_error
  raise_if (r.max_output_len == 0) value_error
  ok r

pub record BankAllocation : Type 0 where
  pub request_slot : ℕ
  pub request_epoch : ℕ
  pub bank_id : ℕ
  pub bank_epoch : ℕ
  pub offset_blocks : ℕ
  pub block_count : ℕ

unfoldable pub checked_bank : BankAllocation → Result BankAllocation
unfolding validate
checked_bank r = do
  validate u32 r.request_slot
  validate u64 r.request_epoch
  validate u8 r.bank_id
  validate u64 r.bank_epoch
  validate u32 r.offset_blocks
  validate u32 r.block_count
  ok r

pub record HostKvSource : Type 0 where
  pub request_slot : ℕ
  pub request_epoch : ℕ
  pub host_slot : ℕ
  pub host_slot_generation : ℕ
  pub source_host_version : ℕ

unfoldable pub checked_source : HostKvSource → Result HostKvSource
unfolding validate
checked_source r = do
  validate u32 r.request_slot
  validate u64 r.request_epoch
  validate u32 r.host_slot
  validate u64 r.host_slot_generation
  validate u64 r.source_host_version
  ok r

pub record RunTargetRequest : Type 0 where
  pub request_slot : ℕ
  pub request_epoch : ℕ
  pub round_id : ℕ
  pub run_seq : ℕ
  pub proposal_handle : ArenaHandle
  pub output_handle : ArenaHandle

unfoldable pub checked_run : RunTargetRequest → Result RunTargetRequest
unfolding validate
checked_run r = do
  validate u32 r.request_slot
  validate u64 r.request_epoch
  validate u64 r.round_id
  validate u64 r.run_seq
  ok r

pub record TargetVerifyRequest : Type 0 where
  pub request_slot : ℕ
  pub request_epoch : ℕ
  pub round_id : ℕ
  pub run_seq : ℕ
  pub proposal_handle : OwnedArenaHandle
  pub committed_output_handle : ArenaHandle
  pub committed_output_count : ℕ
  pub prompt_token_count : ℕ
  pub generation_config_handle : ArenaHandle
  pub bank_id : ℕ
  pub bank_epoch : ℕ
  pub bank_offset_blocks : ℕ
  pub block_count : ℕ

unfoldable pub checked_verify : TargetVerifyRequest → Result TargetVerifyRequest
unfolding validate
checked_verify r = do
  validate u32 r.request_slot
  validate u64 r.request_epoch
  validate u64 r.round_id
  validate u64 r.run_seq
  validate u32 r.committed_output_count
  validate u32 r.prompt_token_count
  validate u8 r.bank_id
  validate u64 r.bank_epoch
  validate u32 r.bank_offset_blocks
  validate u32 r.block_count
  raise_if (r.block_count == 0) value_error
  ok r

pub record TargetPrepareRequest : Type 0 where
  pub request_slot : ℕ
  pub request_epoch : ℕ
  pub round_id : ℕ
  pub op_seq : ℕ
  pub committed_output_handle : ArenaHandle
  pub committed_output_count : ℕ
  pub prompt_token_count : ℕ
  pub generation_config_handle : ArenaHandle
  pub hostkv_handle : ArenaHandle
  pub host_slot : ℕ
  pub host_slot_generation : ℕ
  pub host_writer_lease_generation : ℕ
  pub source_host_version : ℕ
  pub logical_kv_len : ℕ
  pub committed_blocks : ℕ
  pub valid_blocks : ℕ
  pub destination_bank_id : ℕ
  pub destination_bank_epoch : ℕ
  pub destination_bank_offset_blocks : ℕ
  pub destination_capacity_blocks : ℕ

unfoldable pub checked_prepare : TargetPrepareRequest → Result TargetPrepareRequest
unfolding validate
checked_prepare r = do
  validate u32 r.request_slot
  validate u64 r.request_epoch
  validate u64 r.round_id
  validate u64 r.op_seq
  validate u32 r.committed_output_count
  validate u32 r.prompt_token_count
  validate u32 r.host_slot
  validate u64 r.host_slot_generation
  validate u64 r.host_writer_lease_generation
  validate u64 r.source_host_version
  validate u32 r.logical_kv_len
  validate u32 r.committed_blocks
  validate u32 r.valid_blocks
  validate u8 r.destination_bank_id
  validate u64 r.destination_bank_epoch
  validate u32 r.destination_bank_offset_blocks
  validate u32 r.destination_capacity_blocks
  raise_if (r.destination_capacity_blocks == 0) value_error
  raise_if (ltb r.destination_capacity_blocks r.valid_blocks) value_error
  raise_if (ltb r.valid_blocks r.committed_blocks) value_error
  raise_if (ltb r.hostkv_handle.length r.committed_blocks) value_error
  ok r
