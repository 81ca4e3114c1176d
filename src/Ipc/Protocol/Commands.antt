-- ===== src/Ipc/Protocol/Commands.antt =====
-- The commands of nebulasd/src/nebulasd/ipc/protocol.py, with the tests of their constructors.
-- WORK, the sixth kind, stands in nebulasd/src/nebulasd/workers/work.py.
use nebula_sd.Common.{
  ℕ, ◌+◌, not, List, [], ◌∷◌, map, Option, none, some, Result, ok, ◌>>◌, raise_if, value_error,
  ◌==◌, any,
}
use nebula_sd.Core.Ids.{u8, u32, u64, validate}
use nebula_sd.Core.Handles.{is_empty}
use nebula_sd.Ipc.Protocol.Rows.{RemovedRequest, CachedRequestDelta, DraftNewRequestData}
use nebula_sd.Ipc.Protocol.TargetRows.{
  TargetPrefillRequest, TargetPrepareRequest, RunTargetRequest, TargetVerifyRequest,
}
use nebula_sd.Ipc.Protocol.Keys.{RequestKey, unique_keys, validate_request_lists}
use nebula_sd.Ipc.DraftProtocol.{
  DraftInitialBank, validate_requests, PrepareDraftBankCommand, RunDraftBatchCommand,
}

abbrev pub key_of_new : DraftNewRequestData → RequestKey
key_of_new row = record { slot = row.request_slot; epoch = row.request_epoch }

abbrev pub key_of_delta : CachedRequestDelta → RequestKey
key_of_delta row = record { slot = row.request_slot; epoch = row.request_epoch }

abbrev pub key_of_removed : RemovedRequest → RequestKey
key_of_removed row = record { slot = row.request_slot; epoch = row.request_epoch }

abbrev pub key_of_prefill : TargetPrefillRequest → RequestKey
key_of_prefill row = record { slot = row.request_slot; epoch = row.request_epoch }

abbrev pub key_of_prepare : TargetPrepareRequest → RequestKey
key_of_prepare row = record { slot = row.request_slot; epoch = row.request_epoch }

pub record DraftBatchCommand : Type 0 where
  pub worker_id : ℕ
  pub worker_generation : ℕ
  pub command_seq : ℕ
  pub new_requests : List DraftNewRequestData
  pub cached_request_deltas : List CachedRequestDelta
  pub removed_requests : List RemovedRequest
  pub bank : Option DraftInitialBank

-- `_validate_request_lists` on the lists of one command.
unfoldable pub validate_lists : DraftBatchCommand → Result (Unit {0})
validate_lists c =
    validate_request_lists (map key_of_new c.new_requests)
      (map key_of_delta c.cached_request_deltas) (map key_of_removed c.removed_requests)

unfoldable pub validate_bank : DraftBatchCommand → Result (Unit {0})
validate_bank c = elim c.bank [
  | none ↦ ok tt
  | some bank ↦ validate_requests bank c.new_requests c.cached_request_deltas c.removed_requests
]

unfoldable pub checked_draft_batch : DraftBatchCommand → Result DraftBatchCommand
unfolding validate validate_lists validate_bank is_empty
checked_draft_batch c = do
  validate u32 c.worker_id
  validate u64 c.worker_generation
  validate u64 c.command_seq
  validate_lists c
  validate_bank c
  raise_if
      (any (λ (row : DraftNewRequestData). is_empty row.initial_output_tokens_handle)
        c.new_requests)
      value_error
  ok c

pub record TargetPrefillBatchCommand : Type 0 where
  pub worker_id : ℕ
  pub target_generation : ℕ
  pub command_seq : ℕ
  pub batch_seq : ℕ
  pub bank_id : ℕ
  pub bank_epoch : ℕ
  pub requests : List TargetPrefillRequest

unfoldable pub same_prefill_bank : ℕ → ℕ → List TargetPrefillRequest → Result (Unit {0})
same_prefill_bank bank_id bank_epoch [] = ok tt
same_prefill_bank bank_id bank_epoch (row ∷ rows) = do
  raise_if (not (row.bank_id == bank_id)) value_error
  raise_if (not (row.bank_epoch == bank_epoch)) value_error
  same_prefill_bank bank_id bank_epoch rows

unfoldable pub checked_prefill_batch : TargetPrefillBatchCommand → Result TargetPrefillBatchCommand
unfolding validate unique_keys same_prefill_bank
checked_prefill_batch c = do
  validate u32 c.worker_id
  validate u64 c.target_generation
  validate u64 c.command_seq
  validate u64 c.batch_seq
  validate u8 c.bank_id
  validate u64 c.bank_epoch
  unique_keys [] (map key_of_prefill c.requests)
  same_prefill_bank c.bank_id c.bank_epoch c.requests
  ok c

pub record PrepareTargetBankCommand : Type 0 where
  pub worker_id : ℕ
  pub target_generation : ℕ
  pub command_seq : ℕ
  pub batch_seq : ℕ
  pub standby_bank_id : ℕ
  pub next_bank_epoch : ℕ
  pub requests : List TargetPrepareRequest

-- The loop of the constructor: the destinations lie in the bank, one behind the other.
unfoldable pub destinations : ℕ → ℕ → ℕ → List TargetPrepareRequest → Result (Unit {0})
destinations bank_id bank_epoch expected_offset [] = ok tt
destinations bank_id bank_epoch expected_offset (row ∷ rows) = do
  raise_if (not (row.destination_bank_id == bank_id)) value_error
  raise_if (not (row.destination_bank_epoch == bank_epoch)) value_error
  raise_if (not (row.destination_bank_offset_blocks == expected_offset)) value_error
  destinations bank_id bank_epoch (expected_offset + row.destination_capacity_blocks) rows

unfoldable pub checked_prepare_batch : PrepareTargetBankCommand → Result PrepareTargetBankCommand
unfolding validate unique_keys destinations
checked_prepare_batch c = do
  validate u32 c.worker_id
  validate u64 c.target_generation
  validate u64 c.command_seq
  validate u64 c.batch_seq
  validate u8 c.standby_bank_id
  validate u64 c.next_bank_epoch
  unique_keys [] (map key_of_prepare c.requests)
  destinations c.standby_bank_id c.next_bank_epoch 0 c.requests
  ok c

-- A row of a run: of the older form, or with everything a verification reads.
pub data RunRow : Type 0 where
  run_row : RunTargetRequest → RunRow
  verify_row : TargetVerifyRequest → RunRow

abbrev pub run_slot : RunRow → ℕ
run_slot (run_row row) = row.request_slot
run_slot (verify_row row) = row.request_slot

abbrev pub run_epoch : RunRow → ℕ
run_epoch (run_row row) = row.request_epoch
run_epoch (verify_row row) = row.request_epoch

abbrev pub key_of_run : RunRow → RequestKey
key_of_run row = record { slot = run_slot row; epoch = run_epoch row }

pub record RunTargetBatchCommand : Type 0 where
  pub worker_id : ℕ
  pub target_generation : ℕ
  pub command_seq : ℕ
  pub expected_batch_seq : ℕ
  pub active_bank_id : ℕ
  pub active_bank_epoch : ℕ
  pub standby_bank_epoch : ℕ
  pub requests : List RunRow

unfoldable pub checked_run_batch : RunTargetBatchCommand → Result RunTargetBatchCommand
unfolding validate unique_keys
checked_run_batch c = do
  validate u32 c.worker_id
  validate u64 c.target_generation
  validate u64 c.command_seq
  validate u64 c.expected_batch_seq
  validate u8 c.active_bank_id
  validate u64 c.active_bank_epoch
  validate u64 c.standby_bank_epoch
  unique_keys [] (map key_of_run c.requests)
  ok c

pub data HotCommand : Type 0 where
  prepare_draft : PrepareDraftBankCommand → HotCommand
  run_draft : RunDraftBatchCommand → HotCommand
  draft_batch : DraftBatchCommand → HotCommand
  prefill_batch : TargetPrefillBatchCommand → HotCommand
  prepare_batch : PrepareTargetBankCommand → HotCommand
  run_batch : RunTargetBatchCommand → HotCommand
