-- ===== src/Ipc/Protocol/Cache/Rows.antt =====
-- The entries of the worker's cache and how one row of a command changes them:
-- WorkerRequestCacheEntry and the methods `_apply_…` of nebulasd/src/nebulasd/ipc/protocol.py.
use nebula_sd.Common.{
  ℕ, Bool, not, Option, none, some, Result, ok, err, ◌>>=◌, ◌>>◌, raise_if, value_error, ◌==◌,
}
use nebula_sd.Common.Assoc.{Assoc, lookup, insert}
use nebula_sd.Core.Handles.{ArenaHandle, null}
use nebula_sd.Ipc.Protocol.Rows.{CachedRequestDelta, DraftNewRequestData}
use nebula_sd.Ipc.Protocol.TargetRows.{TargetPrefillRequest, TargetPrepareRequest}
use nebula_sd.Ipc.Protocol.Keys.{operation_is_newer}
use nebula_sd.Ipc.Protocol.Commands.{
  TargetPrefillBatchCommand, PrepareTargetBankCommand, RunTargetBatchCommand, RunRow, run_row,
  verify_row, run_slot, run_epoch,
}

pub record WorkerRequestCacheEntry : Type 0 where
  pub request_slot : ℕ
  pub request_epoch : ℕ
  pub last_round_id : ℕ
  pub last_op_seq : ℕ
  pub input_tokens_handle : ArenaHandle
  pub initial_output_tokens_handle : ArenaHandle
  pub generation_config_handle : ArenaHandle
  pub token_delta_handle : ArenaHandle
  pub proposal_handle : ArenaHandle
  pub hostkv_handle : ArenaHandle
  pub target_bank_mapping_handle : ArenaHandle
  pub prepared_batch_seq : Option ℕ
  pub prepared_bank_id : Option ℕ
  pub prepared_bank_epoch : Option ℕ

abbrev pub Entries : Type 0
Entries = Assoc WorkerRequestCacheEntry

-- The batch that a row is prepared for: the three keyword arguments.
pub record Prepared : Type 0 where
  pub batch_seq : Option ℕ
  pub bank_id : Option ℕ
  pub bank_epoch : Option ℕ

abbrev pub unprepared : Prepared
unprepared = record { batch_seq = none; bank_id = none; bank_epoch = none }

abbrev pub in_entries : ℕ → Entries → Bool
in_entries slot entries = elim (lookup slot entries) [ none ↦ Bool.false | some _ ↦ Bool.true ]

abbrev pub new_entry : DraftNewRequestData → Prepared → WorkerRequestCacheEntry
new_entry row prepared = record {
  request_slot = row.request_slot;
  request_epoch = row.request_epoch;
  last_round_id = row.round_id;
  last_op_seq = row.op_seq;
  input_tokens_handle = row.input_tokens_handle;
  initial_output_tokens_handle = row.initial_output_tokens_handle;
  generation_config_handle = row.generation_config_handle;
  token_delta_handle = null;
  proposal_handle = null;
  hostkv_handle = null;
  target_bank_mapping_handle = null;
  prepared_batch_seq = prepared.batch_seq;
  prepared_bank_id = prepared.bank_id;
  prepared_bank_epoch = prepared.bank_epoch;
}

unfoldable pub apply_new : Entries → DraftNewRequestData → Prepared → Result Entries
unfolding lookup insert
apply_new entries row prepared = do
  raise_if (in_entries row.request_slot entries) value_error
  ok (insert row.request_slot (new_entry row prepared) entries)

-- `a if a is not None else b`
abbrev pub or_else : Option ℕ → Option ℕ → Option ℕ
or_else none b = b
or_else (some a) b = some a

-- The tests that a row for a cached request passes: its epoch, then its round and sequence number.
unfoldable pub check_moves : WorkerRequestCacheEntry → ℕ → ℕ → ℕ → Result (Unit {0})
unfolding operation_is_newer
check_moves current request_epoch round_id op_seq = do
  raise_if (not (current.request_epoch == request_epoch)) value_error
  newer ← operation_is_newer round_id op_seq current.last_round_id current.last_op_seq
  raise_if (not newer) value_error

abbrev pub delta_entry :
    WorkerRequestCacheEntry → CachedRequestDelta → Prepared → WorkerRequestCacheEntry
delta_entry current row prepared = record current {
  request_slot = row.request_slot;
  request_epoch = row.request_epoch;
  last_round_id = row.round_id;
  last_op_seq = row.op_seq;
  token_delta_handle = row.token_delta_handle;
  proposal_handle = row.proposal_handle;
  hostkv_handle = row.hostkv_handle;
  target_bank_mapping_handle = row.target_bank_mapping_handle;
  prepared_batch_seq = or_else prepared.batch_seq current.prepared_batch_seq;
  prepared_bank_id = or_else prepared.bank_id current.prepared_bank_id;
  prepared_bank_epoch = or_else prepared.bank_epoch current.prepared_bank_epoch;
}

unfoldable pub apply_delta : Entries → CachedRequestDelta → Prepared → Result Entries
unfolding check_moves lookup insert
apply_delta entries row prepared = elim (lookup row.request_slot entries) [
  | none ↦ err value_error
  | some current ↦ do
    check_moves current row.request_epoch row.round_id row.op_seq
    ok (insert row.request_slot (delta_entry current row prepared) entries)
]

abbrev pub prefill_entry :
    TargetPrefillBatchCommand → TargetPrefillRequest → WorkerRequestCacheEntry
prefill_entry command row = record {
  request_slot = row.request_slot;
  request_epoch = row.request_epoch;
  last_round_id = row.round_id;
  last_op_seq = row.run_seq;
  input_tokens_handle = row.input_tokens_handle;
  initial_output_tokens_handle = null;
  generation_config_handle = row.generation_config_handle;
  token_delta_handle = null;
  proposal_handle = null;
  hostkv_handle = null;
  target_bank_mapping_handle = null;
  prepared_batch_seq = some command.batch_seq;
  prepared_bank_id = some command.bank_id;
  prepared_bank_epoch = some command.bank_epoch;
}

unfoldable pub apply_target_prefill :
    Entries → TargetPrefillBatchCommand → TargetPrefillRequest → Result Entries
unfolding lookup insert
apply_target_prefill entries command row = do
  raise_if (in_entries row.request_slot entries) value_error
  ok (insert row.request_slot (prefill_entry command row) entries)

-- A request that is new to this Target brings everything it is restored from.
abbrev pub first_arrival : PrepareTargetBankCommand → TargetPrepareRequest → WorkerRequestCacheEntry
first_arrival command row = record {
  request_slot = row.request_slot;
  request_epoch = row.request_epoch;
  last_round_id = row.round_id;
  last_op_seq = row.op_seq;
  input_tokens_handle = null;
  initial_output_tokens_handle = row.committed_output_handle;
  generation_config_handle = row.generation_config_handle;
  token_delta_handle = null;
  proposal_handle = null;
  hostkv_handle = row.hostkv_handle;
  target_bank_mapping_handle = null;
  prepared_batch_seq = some command.batch_seq;
  prepared_bank_id = some command.standby_bank_id;
  prepared_bank_epoch = some command.next_bank_epoch;
}

abbrev pub prepared_entry :
    WorkerRequestCacheEntry
    → PrepareTargetBankCommand
    → TargetPrepareRequest
    → WorkerRequestCacheEntry
prepared_entry current command row = record current {
  request_slot = row.request_slot;
  request_epoch = row.request_epoch;
  last_round_id = row.round_id;
  last_op_seq = row.op_seq;
  generation_config_handle = row.generation_config_handle;
  hostkv_handle = row.hostkv_handle;
  prepared_batch_seq = some command.batch_seq;
  prepared_bank_id = some command.standby_bank_id;
  prepared_bank_epoch = some command.next_bank_epoch;
}

unfoldable pub apply_target_prepare :
    Entries → PrepareTargetBankCommand → TargetPrepareRequest → Result Entries
unfolding check_moves lookup insert
apply_target_prepare entries command row = elim (lookup row.request_slot entries) [
  | none ↦ ok (insert row.request_slot (first_arrival command row) entries)
  | some current ↦ do
    check_moves current row.request_epoch row.round_id row.op_seq
    ok (insert row.request_slot (prepared_entry current command row) entries)
]

-- `optional == number`
abbrev pub equals : Option ℕ → ℕ → Bool
equals none n = Bool.false
equals (some m) n = m == n

abbrev pub run_round : RunRow → ℕ
run_round (run_row row) = row.round_id
run_round (verify_row row) = row.round_id

abbrev pub run_seq : RunRow → ℕ
run_seq (run_row row) = row.run_seq
run_seq (verify_row row) = row.run_seq

abbrev pub proposal_of : RunRow → ArenaHandle
proposal_of (run_row row) = row.proposal_handle
proposal_of (verify_row row) = row.proposal_handle.handle

abbrev pub run_entry : WorkerRequestCacheEntry → RunRow → WorkerRequestCacheEntry
run_entry current row = record current {
  request_slot = run_slot row;
  request_epoch = run_epoch row;
  last_round_id = run_round row;
  last_op_seq = run_seq row;
  proposal_handle = proposal_of row;
}

unfoldable pub apply_run : Entries → RunTargetBatchCommand → RunRow → Result Entries
unfolding operation_is_newer lookup insert
apply_run entries command row = elim (lookup (run_slot row) entries) [
  | none ↦ err value_error
  | some current ↦ do
    raise_if (not (current.request_epoch == run_epoch row)) value_error
    raise_if (not (equals current.prepared_batch_seq command.expected_batch_seq)) value_error
    raise_if (not (equals current.prepared_bank_id command.active_bank_id)) value_error
    raise_if (not (equals current.prepared_bank_epoch command.active_bank_epoch)) value_error
    newer ←
        operation_is_newer (run_round row) (run_seq row) current.last_round_id current.last_op_seq
    raise_if (not newer) value_error
    ok (insert (run_slot row) (run_entry current row) entries)
]
