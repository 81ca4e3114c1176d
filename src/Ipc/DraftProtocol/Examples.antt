-- ===== src/Ipc/DraftProtocol/Examples.antt =====
-- A Draft batch that is prepared and run.
use nebula_sd.Common.{ok, length, ◌≡◌, refl, true, [], ◌∷◌, some, err, value_error}
use nebula_sd.Ipc.Protocol.Wire.Reader.{Bytes}
use nebula_sd.Ipc.Protocol.Wire.Snapshot.{
  put_snapshot, snapshot_from_bytes, snapshot_from_bytes-put_snapshot,
}
use nebula_sd.Core.Ids.{validate, is_newer}
use nebula_sd.Core.Handles.{ArenaHandle}
use nebula_sd.Core.DraftContracts.{
  DraftHostAllocation, DraftSnapshotIdentity, DraftSnapshot, snapshot_bytes, checked_snapshot,
  checked_identity, checked_allocation, positive_count, require_handle,
}
use nebula_sd.Ipc.DraftProtocol.{
  DraftPrepareRequest, PrepareDraftBankCommand, RunDraftBatchCommand, checked_draft_prepare,
}
use nebula_sd.Ipc.DraftProtocol.Contract.{DraftPreparedContract, init, accept_run, same_bank}
use nebula_sd.Ipc.DraftProtocol.Contract.Members.{AreNext, accept_run-AreNext}
use nebula_sd.Ipc.DraftProtocol.Contract.Account.{
  Books, prepares, runs, discards, keep, IsBalanced, IsBalanced-keep,
}

abbrev allocation : DraftHostAllocation
allocation = record {
  arena_id = 1;
  arena_generation = 1;
  layout_id = 1;
  host_slot_generation = 1;
  writer_lease_generation = 1;
  offset_blocks = 0;
  host_slot = 3;
  capacity_blocks = 4;
  block_size = 16;
}

abbrev source : DraftSnapshotIdentity
source = record {
  request_slot = 3;
  request_epoch = 1;
  round_id = 1;
  op_seq = 5;
  worker_id = 1;
  worker_generation = 1;
  owner_epoch = 0;
  snapshot_version = 2;
  logical_kv_len = 20;
  valid_blocks = 2;
  allocation = allocation;
}

abbrev snapshot : ArenaHandle
snapshot = record { offset = 0; length = 200; generation = 1 }

abbrev member : DraftPrepareRequest
member = record {
  source = source;
  snapshot_handle = snapshot;
  prepare_seq = 6;
  next_round_id = 2;
  next_owner_epoch = 1;
  destination_offset_blocks = 0;
  destination_capacity_blocks = 3;
  growth_token_budget = 8;
}

abbrev pub prepare_draft_command : PrepareDraftBankCommand
prepare_draft_command = record {
  worker_id = 1;
  worker_generation = 1;
  command_seq = 7;
  batch_seq = 2;
  standby_bank_id = 1;
  next_bank_epoch = 4;
  requests = member ∷ [];
}

abbrev run_command : RunDraftBatchCommand
run_command = record {
  worker_id = 1;
  worker_generation = 1;
  command_seq = 8;
  expected_batch_seq = 2;
  active_bank_id = 1;
  active_bank_epoch = 4;
  requests =
      record {
        request_slot = 3;
        request_epoch = 1;
        round_id = 2;
        run_seq = 6;
        owner_epoch = 1;
        snapshot_version = 2;
        scheduled_token_count = 4;
        token_delta_handle = snapshot;
      }
      ∷ [];
}

abbrev contract : DraftPreparedContract
contract = record { pending = some prepare_draft_command }

accept_run-AreNext_example :
    (same_bank prepare_draft_command run_command ≡ true)
    × AreNext prepare_draft_command.requests run_command.requests
    × ((other : RunDraftBatchCommand) → accept_run init other ≡ err value_error)
unfolding accept_run checked_draft_prepare is_newer
accept_run-AreNext_example =
    accept_run-AreNext contract init prepare_draft_command run_command refl (refl, tt) refl

abbrev empty_books : Books
empty_books = record { contract = init; prepared = 0; run = 0; discarded = 0 }

IsBalanced-keep_example :
    IsBalanced
      (keep empty_books (prepares prepare_draft_command ∷ runs run_command ∷ discards 1 4 2 ∷ []))
IsBalanced-keep_example =
    IsBalanced-keep empty_books
      (prepares prepare_draft_command ∷ runs run_command ∷ discards 1 4 2 ∷ []) refl

abbrev prompt : ArenaHandle
prompt = record { offset = 0; length = 40; generation = 1 }

abbrev output : ArenaHandle
output = record { offset = 40; length = 16; generation = 1 }

abbrev whole_snapshot : DraftSnapshot
whole_snapshot = record {
  identity = source;
  prompt_handle = prompt;
  generation_config_handle = snapshot;
  committed_output_handle = output;
  proposal_handle = snapshot;
  prompt_count = 10;
  committed_output_count = 4;
  proposal_count = 7;
}

snapshot_from_bytes-put_snapshot_example :
    (raw : Bytes) × (put_snapshot whole_snapshot ≡ ok raw)
    × (length raw ≡ snapshot_bytes)
    × (snapshot_from_bytes raw ≡ ok whole_snapshot)
unfolding checked_snapshot checked_identity checked_allocation validate positive_count
    require_handle
snapshot_from_bytes-put_snapshot_example = snapshot_from_bytes-put_snapshot whole_snapshot (
  refl,
  (refl, refl),
  (refl, refl, refl),
  (refl, refl, refl),
  (refl, refl, refl),
  (refl, refl, refl),
)
