-- ===== src/Ipc/Protocol/Examples.antt =====
-- Concrete commands on a worker's cache, and their bytes.
use nebula_sd.Common.{
  ℕ, inl, ◌≡◌, ◌≢◌, refl, true, List, [], ◌∷◌, ◌++◌, ◌≤◌, ltb, if◌then◌else◌, none, ok, err,
  value_error, value_or,
}
use nebula_sd.Common.Assoc.{lookup}
use nebula_sd.Core.Ids.{u32, max_valid, validate, is_newer, distance}
use nebula_sd.Core.Handles.{ArenaHandle}
use nebula_sd.Ipc.Protocol.TargetRows.{TargetPrepareRequest, checked_prepare}
use nebula_sd.Ipc.Protocol.Commands.{
  prepare_batch, run_batch, run_row, PrepareTargetBankCommand, RunTargetBatchCommand,
  checked_prepare_batch,
}
use nebula_sd.Ipc.Protocol.Cache.{WorkerCommandCache, init, apply, tables_of}
use nebula_sd.Ipc.Protocol.Cache.Batches.{is_waiting, apply_prepare_batch, apply_run_batch}
use nebula_sd.Ipc.Protocol.Cache.Members.{IsComplete}
use nebula_sd.Ipc.Protocol.Cache.Reach.{IsWhole, Follows}
use nebula_sd.Ipc.Protocol.Cache.Calls.{Call, applies, discards, run, IsWhole-run, apply-Follows}
use nebula_sd.Ipc.Protocol.Cache.Fence.{apply_replayed}
use nebula_sd.Ipc.Protocol.Cache.OneRun.{apply_run_once}
use nebula_sd.Ipc.Protocol.Cache.Liveness.{apply_run-prepared}
use nebula_sd.Ipc.DraftProtocol.{checked_prepare_draft}
use nebula_sd.Ipc.DraftProtocol.Examples.{prepare_draft_command}
use nebula_sd.Ipc.Protocol.Destinations.{
  target_owners, target_blocks, draft_owners, draft_blocks, prepare-owners,
}
use nebula_sd.Ipc.Protocol.Wire.Reader.{Bytes}
use nebula_sd.Ipc.Protocol.Wire.Payload.{kind_of, encode_command_payload}
use nebula_sd.Ipc.Protocol.Wire.Decode.{decode_command_payload}
use nebula_sd.Ipc.Protocol.Wire.RoundTrip.{header_of, decode-encode}

abbrev tokens : ArenaHandle
tokens = record { offset = 64; length = 8; generation = 1 }

abbrev prepare_row : TargetPrepareRequest
prepare_row = record {
  request_slot = 5;
  request_epoch = 1;
  round_id = 2;
  op_seq = 3;
  committed_output_handle = tokens;
  committed_output_count = 2;
  prompt_token_count = 4;
  generation_config_handle = tokens;
  hostkv_handle = tokens;
  host_slot = 5;
  host_slot_generation = 1;
  host_writer_lease_generation = 1;
  source_host_version = 1;
  logical_kv_len = 20;
  committed_blocks = 2;
  valid_blocks = 2;
  destination_bank_id = 1;
  destination_bank_epoch = 1;
  destination_bank_offset_blocks = 0;
  destination_capacity_blocks = 3;
}

abbrev prepare_command : PrepareTargetBankCommand
prepare_command = record {
  worker_id = 1;
  target_generation = 1;
  command_seq = 1;
  batch_seq = 1;
  standby_bank_id = 1;
  next_bank_epoch = 1;
  requests = prepare_row ∷ [];
}

abbrev run_command : RunTargetBatchCommand
run_command = record {
  worker_id = 1;
  target_generation = 1;
  command_seq = 2;
  expected_batch_seq = 1;
  active_bank_id = 1;
  active_bank_epoch = 1;
  standby_bank_epoch = 0;
  requests =
      run_row (record {
        request_slot = 5;
        request_epoch = 1;
        round_id = 2;
        run_seq = 4;
        proposal_handle = tokens;
        output_handle = tokens;
      })
      ∷ [];
}

abbrev new_cache : WorkerCommandCache
new_cache = record {
  worker_id = 1;
  worker_generation = 1;
  draft_prepared = record { pending = none };
  last_command_seq = none;
  entries = [];
  prepared_batches = [];
}

new_cache-IsWhole : IsWhole (tables_of new_cache)
unfolding lookup
new_cache-IsWhole = (tt, λ bank_id batch there waits. absurd (cc))

abbrev prepared : List Call
prepared = applies (prepare_batch prepare_command) ∷ []

abbrev after_run : WorkerCommandCache
after_run = value_or new_cache (apply (run new_cache prepared) (run_batch run_command))

run_applied : apply (run new_cache prepared) (run_batch run_command) ≡ ok after_run
unfolding apply apply_prepare_batch apply_run_batch
run_applied = refl

IsWhole-run_example : IsWhole (tables_of (run new_cache prepared))
IsWhole-run_example = IsWhole-run new_cache prepared new_cache-IsWhole

apply-Follows_example :
    Follows (run new_cache prepared).entries after_run.entries
    × IsComplete after_run.entries after_run.prepared_batches
unfolding init
apply-Follows_example =
    apply-Follows 1 1 new_cache prepared (run_batch run_command) after_run refl run_applied

apply_replayed_example : apply after_run (run_batch run_command) ≡ err value_error
apply_replayed_example =
    apply_replayed (run new_cache prepared) after_run (run_batch run_command)
      (run_batch run_command) run_applied (inl refl)

apply_run_once_example :
    (is_waiting 1 (run new_cache prepared).prepared_batches ≡ true)
    × ((last : WorkerCommandCache)
        → apply (run after_run (discards 1 1 1 ∷ [])) (run_batch run_command) ≢ ok last)
apply_run_once_example =
    apply_run_once (run new_cache prepared) after_run run_command run_command (discards 1 1 1 ∷ [])
      run_applied (tt, tt) refl

decode-encode_example :
    (raw : Bytes) × (encode_command_payload (prepare_batch prepare_command) ≡ ok raw)
    × (decode_command_payload
          (kind_of (prepare_batch prepare_command))
          raw
          (header_of (prepare_batch prepare_command))
        ≡ ok (prepare_batch prepare_command))
    × ((byte : ℕ) (more : Bytes)
        → decode_command_payload
            (kind_of (prepare_batch prepare_command))
            (raw ++ (byte ∷ more))
            (header_of (prepare_batch prepare_command))
          ≡ err value_error)
unfolding checked_prepare_batch checked_prepare validate
decode-encode_example =
    decode-encode (prepare_batch prepare_command)
      (refl, ((refl, (refl, refl, refl), (refl, refl, refl), (refl, refl, refl)), tt), refl)

apply_run-prepared_example :
    (last : WorkerCommandCache) × (apply (run new_cache prepared) (run_batch run_command) ≡ ok last)
unfolding apply apply_prepare_batch checked_prepare_batch is_newer distance validate
apply_run-prepared_example =
    apply_run-prepared new_cache (run new_cache prepared) prepare_command run_command refl refl
      (refl, refl, refl, refl, refl) ((refl, refl, refl), tt) refl

prepare-owners_example :
    (target_owners 2 prepare_command.requests
      ≡ (if ltb 2 (target_blocks prepare_command.requests) then 1 else 0))
    × (draft_owners 2 prepare_draft_command.requests
        ≡ (if ltb 2 (draft_blocks prepare_draft_command.requests) then 1 else 0))
    × (draft_blocks prepare_draft_command.requests ≤ max_valid u32)
unfolding checked_prepare_batch checked_prepare_draft
prepare-owners_example = prepare-owners prepare_command prepare_draft_command 2 refl refl
