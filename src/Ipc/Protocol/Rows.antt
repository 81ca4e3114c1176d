-- ===== src/Ipc/Protocol/Rows.antt =====
-- Rows that name requests and their payloads, of nebulasd/src/nebulasd/ipc/protocol.py.
-- A HostKV handle is an arena handle in blocks.
use nebula_sd.Common.{ℕ, Result, ok, ◌>>◌}
use nebula_sd.Core.Ids.{u32, u64, validate}
use nebula_sd.Core.Handles.{ArenaHandle}

pub record RemovedRequest : Type 0 where
  pub request_slot : ℕ
  pub request_epoch : ℕ

unfoldable pub checked_removed : RemovedRequest → Result RemovedRequest
unfolding validate
checked_removed r = do validate u32 r.request_slot; validate u64 r.request_epoch; ok r

pub record OwnedArenaHandle : Type 0 where
  pub owner_worker_id : ℕ
  pub owner_generation : ℕ
  pub handle : ArenaHandle

unfoldable pub checked_owned : OwnedArenaHandle → Result OwnedArenaHandle
unfolding validate
checked_owned r = do validate u32 r.owner_worker_id; validate u64 r.owner_generation; ok r

pub record DraftNewRequestData : Type 0 where
  pub request_slot : ℕ
  pub request_epoch : ℕ
  pub round_id : ℕ
  pub op_seq : ℕ
  pub scheduled_token_count : ℕ
  pub input_tokens_handle : ArenaHandle
  pub initial_output_tokens_handle : ArenaHandle
  pub generation_config_handle : ArenaHandle
  pub initial_kv_handle : ArenaHandle

unfoldable pub checked_new : DraftNewRequestData → Result DraftNewRequestData
unfolding validate
checked_new r = do
  validate u32 r.request_slot
  validate u64 r.request_epoch
  validate u64 r.round_id
  validate u64 r.op_seq
  validate u32 r.scheduled_token_count
  ok r

pub record CachedRequestDelta : Type 0 where
  pub request_slot : ℕ
  pub request_epoch : ℕ
  pub round_id : ℕ
  pub op_seq : ℕ
  pub token_delta_handle : ArenaHandle
  pub proposal_handle : ArenaHandle
  pub hostkv_handle : ArenaHandle
  pub target_bank_mapping_handle : ArenaHandle
  pub scheduled_token_count : ℕ

unfoldable pub checked_delta : CachedRequestDelta → Result CachedRequestDelta
unfolding validate
checked_delta r = do
  validate u32 r.request_slot
  validate u64 r.request_epoch
  validate u64 r.round_id
  validate u64 r.op_seq
  validate u32 r.scheduled_token_count
  ok r
