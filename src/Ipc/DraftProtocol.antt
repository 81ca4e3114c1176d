-- ===== src/Ipc/DraftProtocol.antt =====
-- nebulasd/src/nebulasd/ipc/draft_protocol.py: the rows and commands by which a Draft worker
-- prepares and runs a batch, with the tests of their constructors, and the contract that a run
-- consumes the prepared batch. The byte formats are in Ipc/Protocol/Wire.
pub mod Contract
pub mod Examples
use nebula_sd.Common.{
  ℕ, ◌+◌, ◌-◌, ◌*◌, ◌/◌, Bool, not, ◌&&◌, ◌||◌, List, [], ◌∷◌, Option, none, some, Result, ok, err,
  ◌>>=◌, ◌>>◌, raise_if, value_error, runtime_error, ltb, leb, ◌==◌, any, length, sum_of,
  if◌then◌else◌,
}
use nebula_sd.Core.Ids.{u32, u64, validate, next, is_newer}
use nebula_sd.Core.Handles.{ArenaHandle}
use nebula_sd.Core.DraftContracts.{
  DraftSnapshotIdentity, require_handle, require_snapshot_handle, blocks_for,
}
use nebula_sd.Ipc.Protocol.Rows.{RemovedRequest, CachedRequestDelta, DraftNewRequestData}

-- `bank_id`
unfoldable pub bank_id : ℕ → Result (Unit {0})
unfolding validate
bank_id value = do validate u32 value; raise_if (ltb 1 value) value_error

pub record DraftPrepareRequest : Type 0 where
  pub source : DraftSnapshotIdentity
  pub snapshot_handle : ArenaHandle
  pub prepare_seq : ℕ
  pub next_round_id : ℕ
  pub next_owner_epoch : ℕ
  pub destination_offset_blocks : ℕ
  pub destination_capacity_blocks : ℕ
  pub growth_token_budget : ℕ

unfoldable pub checked_draft_prepare : DraftPrepareRequest → Result DraftPrepareRequest
unfolding require_snapshot_handle validate next blocks_for
checked_draft_prepare r = do
  require_snapshot_handle r.snapshot_handle
  validate u64 r.prepare_seq
  validate u64 r.next_round_id
  validate u64 r.next_owner_epoch
  validate u32 r.destination_offset_blocks
  validate u32 r.destination_capacity_blocks
  validate u32 r.growth_token_budget
  following_round ← next u64 r.source.round_id
  raise_if (not (r.next_round_id == following_round)) value_error
  following_epoch ← next u64 r.source.owner_epoch
  raise_if (not (r.next_owner_epoch == following_epoch)) value_error
  raise_if
      (ltb r.destination_capacity_blocks (
        blocks_for (r.source.logical_kv_len + r.growth_token_budget)
          r.source.allocation.block_size))
      value_error
  ok r

pub record DraftRunRequest : Type 0 where
  pub request_slot : ℕ
  pub request_epoch : ℕ
  pub round_id : ℕ
  pub run_seq : ℕ
  pub owner_epoch : ℕ
  pub snapshot_version : ℕ
  pub scheduled_token_count : ℕ
  pub token_delta_handle : ArenaHandle

unfoldable pub checked_draft_run : DraftRunRequest → Result DraftRunRequest
unfolding validate require_handle
checked_draft_run r = do
  validate u32 r.request_slot
  validate u32 r.scheduled_token_count
  validate u64 r.request_epoch
  validate u64 r.round_id
  validate u64 r.run_seq
  validate u64 r.owner_epoch
  validate u64 r.snapshot_version
  require_handle r.token_delta_handle
  raise_if (r.scheduled_token_count == 0) value_error
  ok r

unfoldable pub repeats : List ℕ → Bool
repeats [] = Bool.false
repeats (slot ∷ slots) = any (λ other. other == slot) slots || repeats slots

-- `validate_batch`, over the slots of the command's requests.
unfoldable pub validate_batch : ℕ → ℕ → ℕ → List ℕ → Result (Unit {0})
unfolding validate repeats
validate_batch worker_id worker_generation command_seq slots = do
  validate u32 worker_id
  validate u64 worker_generation
  validate u64 command_seq
  raise_if (length slots == 0) value_error
  raise_if (repeats slots) value_error

pub record PrepareDraftBankCommand : Type 0 where
  pub worker_id : ℕ
  pub worker_generation : ℕ
  pub command_seq : ℕ
  pub batch_seq : ℕ
  pub standby_bank_id : ℕ
  pub next_bank_epoch : ℕ
  pub requests : List DraftPrepareRequest

unfoldable pub prepare_slots : List DraftPrepareRequest → List ℕ
prepare_slots [] = []
prepare_slots (row ∷ rows) = row.source.request_slot ∷ prepare_slots rows

-- The loop of the constructor: the destinations lie one behind the other; the end is returned.
unfoldable pub contiguous : ℕ → List DraftPrepareRequest → Result ℕ
contiguous offset [] = ok offset
contiguous offset (row ∷ rows) = do
  raise_if (not (row.destination_offset_blocks == offset)) value_error
  contiguous (offset + row.destination_capacity_blocks) rows

unfoldable pub checked_prepare_draft : PrepareDraftBankCommand → Result PrepareDraftBankCommand
unfolding validate_batch prepare_slots validate bank_id contiguous
checked_prepare_draft c = do
  validate_batch c.worker_id c.worker_generation c.command_seq (prepare_slots c.requests)
  validate u64 c.batch_seq
  validate u64 c.next_bank_epoch
  bank_id c.standby_bank_id
  end ← contiguous 0 c.requests
  validate u32 end
  ok c

pub record RunDraftBatchCommand : Type 0 where
  pub worker_id : ℕ
  pub worker_generation : ℕ
  pub command_seq : ℕ
  pub expected_batch_seq : ℕ
  pub active_bank_id : ℕ
  pub active_bank_epoch : ℕ
  pub requests : List DraftRunRequest

unfoldable pub run_slots : List DraftRunRequest → List ℕ
run_slots [] = []
run_slots (row ∷ rows) = row.request_slot ∷ run_slots rows

unfoldable pub checked_run_draft : RunDraftBatchCommand → Result RunDraftBatchCommand
unfolding validate_batch run_slots validate bank_id
checked_run_draft c = do
  validate_batch c.worker_id c.worker_generation c.command_seq (run_slots c.requests)
  validate u64 c.expected_batch_seq
  validate u64 c.active_bank_epoch
  bank_id c.active_bank_id
  ok c

pub record DraftInitialBank : Type 0 where
  pub bank_id : ℕ
  pub bank_epoch : ℕ
  pub batch_seq : ℕ
  pub block_size : ℕ
  pub capacity_blocks : List ℕ

unfoldable pub positive_capacities : List ℕ → Result (Unit {0})
unfolding validate
positive_capacities [] = ok tt
positive_capacities (count ∷ counts) = do
  validate u32 count
  raise_if (count == 0) value_error
  positive_capacities counts

unfoldable pub checked_initial_bank : DraftInitialBank → Result DraftInitialBank
unfolding bank_id validate positive_capacities
checked_initial_bank b = do
  bank_id b.bank_id
  validate u64 b.bank_epoch
  validate u64 b.batch_seq
  validate u32 b.block_size
  raise_if (b.block_size == 0 || length b.capacity_blocks == 0) value_error
  positive_capacities b.capacity_blocks
  validate u32 (sum_of (λ n. n) b.capacity_blocks)
  ok b

-- The loop of `validate_requests`: a reservation covers the tokens and the proposal's growth.
unfoldable pub covers : ℕ → List DraftNewRequestData → List ℕ → Result (Unit {0})
covers block_size (request ∷ requests) (capacity ∷ capacities) =
    let tokens =
      (request.input_tokens_handle.length + request.initial_output_tokens_handle.length) / 4 in
    do
      raise_if
          (request.scheduled_token_count == 0
            || ltb (capacity * block_size) (tokens + request.scheduled_token_count - 1))
          value_error
      covers block_size requests capacities
covers block_size [] capacities = ok tt
covers block_size (request ∷ requests) [] = ok tt

unfoldable pub validate_requests :
    DraftInitialBank
    → List DraftNewRequestData
    → List CachedRequestDelta
    → List RemovedRequest
    → Result (Unit {0})
unfolding covers
validate_requests b new_requests deltas removed = do
  raise_if
      (not (length deltas == 0)
        || not (length removed == 0)
        || not (length new_requests == length b.capacity_blocks))
      value_error
  covers b.block_size new_requests b.capacity_blocks
