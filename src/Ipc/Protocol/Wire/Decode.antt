-- ===== src/Ipc/Protocol/Wire/Decode.antt =====
-- decode_command_payload of nebulasd/src/nebulasd/ipc/protocol.py, for every kind of command but
-- WORK, with decode_draft_command of nebulasd/src/nebulasd/ipc/draft_protocol.py.
use nebula_sd.Common.{
  ℕ, zero, suc, not, ◌||◌, none, some, Result, ok, err, raise_if, value_error, ltb, ◌==◌,
}
use nebula_sd.Ipc.DraftProtocol.{
  PrepareDraftBankCommand, RunDraftBatchCommand, checked_prepare_draft, checked_run_draft,
}
use nebula_sd.Ipc.Protocol.Commands.{
  HotCommand, prepare_draft, run_draft, draft_batch, prefill_batch, prepare_batch, run_batch,
  DraftBatchCommand, TargetPrefillBatchCommand, PrepareTargetBankCommand, RunTargetBatchCommand,
  checked_draft_batch, checked_prefill_batch, checked_prepare_batch, checked_run_batch,
}
use nebula_sd.Ipc.Protocol.Wire.Reader.{
  Bytes, Reader, ◌>>=◌, lift, get_u8, get_u32, get_u64, get_rows, finish,
}
use nebula_sd.Ipc.Protocol.Wire.Fields.{get_new, get_delta, get_removed}
use nebula_sd.Ipc.Protocol.Wire.TargetFields.{get_prefill, get_prepare}
use nebula_sd.Ipc.Protocol.Wire.Draft.{get_draft_prepare, get_draft_run, taken}
use nebula_sd.Ipc.Protocol.Wire.Payload.{
  CommandKind, draft_kind, prepare_kind, run_kind, prefill_kind, prepare_draft_kind, run_draft_kind,
  number_of, payload_magic, protocol_version, get_run_row, get_initial_bank,
}

-- The identity that the header gives: worker, generation and sequence number.
pub record Header : Type 0 where
  pub worker_id : ℕ
  pub worker_generation : ℕ
  pub command_seq : ℕ

unfoldable pub get_prepare_draft : Header → Reader PrepareDraftBankCommand
unfolding get_u8 get_u32 get_u64 get_rows get_draft_prepare checked_prepare_draft ◌>>=◌ lift
get_prepare_draft h = do
  batch ← get_u64
  bank ← get_u8
  epoch ← get_u64
  count ← get_u32
  rows ← get_rows get_draft_prepare count
  lift (
      checked_prepare_draft (record {
        worker_id = h.worker_id;
        worker_generation = h.worker_generation;
        command_seq = h.command_seq;
        batch_seq = batch;
        standby_bank_id = bank;
        next_bank_epoch = epoch;
        requests = rows;
      }))

unfoldable pub get_run_draft : Header → Reader RunDraftBatchCommand
unfolding get_u8 get_u32 get_u64 get_rows get_draft_run checked_run_draft ◌>>=◌ lift
get_run_draft h = do
  batch ← get_u64
  bank ← get_u8
  epoch ← get_u64
  count ← get_u32
  rows ← get_rows get_draft_run count
  lift (
      checked_run_draft (record {
        worker_id = h.worker_id;
        worker_generation = h.worker_generation;
        command_seq = h.command_seq;
        expected_batch_seq = batch;
        active_bank_id = bank;
        active_bank_epoch = epoch;
        requests = rows;
      }))

-- What follows the variant: `replace(command, bank=…)` builds the command again.
unfoldable pub get_bank : DraftBatchCommand → ℕ → Reader DraftBatchCommand
unfolding get_initial_bank checked_draft_batch ◌>>=◌ lift
get_bank command zero = lift (ok command)
get_bank command (suc zero) = do
  bank ← get_initial_bank
  lift (checked_draft_batch (record command { bank = some bank }))
get_bank command (suc (suc n)) = lift (err value_error)

unfoldable pub get_draft_batch : Header → Reader DraftBatchCommand
unfolding get_u8 get_u32 get_rows get_new get_delta get_removed checked_draft_batch get_bank ◌>>=◌
    lift
get_draft_batch h = do
  new_count ← get_u32
  delta_count ← get_u32
  removed_count ← get_u32
  new_requests ← get_rows get_new new_count
  deltas ← get_rows get_delta delta_count
  removed_requests ← get_rows get_removed removed_count
  command ← lift (
      checked_draft_batch (record {
        worker_id = h.worker_id;
        worker_generation = h.worker_generation;
        command_seq = h.command_seq;
        new_requests = new_requests;
        cached_request_deltas = deltas;
        removed_requests = removed_requests;
        bank = none;
      }))
  variant ← get_u8
  get_bank command variant

unfoldable pub get_prefill_batch : Header → Reader TargetPrefillBatchCommand
unfolding get_u8 get_u32 get_u64 get_rows get_prefill checked_prefill_batch ◌>>=◌ lift
get_prefill_batch h = do
  batch_seq ← get_u64
  bank_id ← get_u8
  bank_epoch ← get_u64
  request_count ← get_u32
  requests ← get_rows get_prefill request_count
  lift (
      checked_prefill_batch (record {
        worker_id = h.worker_id;
        target_generation = h.worker_generation;
        command_seq = h.command_seq;
        batch_seq = batch_seq;
        bank_id = bank_id;
        bank_epoch = bank_epoch;
        requests = requests;
      }))

unfoldable pub get_prepare_batch : Header → Reader PrepareTargetBankCommand
unfolding get_u8 get_u32 get_u64 get_rows get_prepare checked_prepare_batch ◌>>=◌ lift
get_prepare_batch h = do
  batch_seq ← get_u64
  standby_bank_id ← get_u8
  next_bank_epoch ← get_u64
  request_count ← get_u32
  requests ← get_rows get_prepare request_count
  lift (
      checked_prepare_batch (record {
        worker_id = h.worker_id;
        target_generation = h.worker_generation;
        command_seq = h.command_seq;
        batch_seq = batch_seq;
        standby_bank_id = standby_bank_id;
        next_bank_epoch = next_bank_epoch;
        requests = requests;
      }))

unfoldable pub get_run_batch : Header → Reader RunTargetBatchCommand
unfolding get_u8 get_u32 get_u64 get_rows get_run_row checked_run_batch ◌>>=◌ lift
get_run_batch h = do
  expected_batch_seq ← get_u64
  active_bank_id ← get_u8
  active_bank_epoch ← get_u64
  standby_bank_epoch ← get_u64
  request_count ← get_u32
  requests ← get_rows get_run_row request_count
  lift (
      checked_run_batch (record {
        worker_id = h.worker_id;
        target_generation = h.worker_generation;
        command_seq = h.command_seq;
        expected_batch_seq = expected_batch_seq;
        active_bank_id = active_bank_id;
        active_bank_epoch = active_bank_epoch;
        standby_bank_epoch = standby_bank_epoch;
        requests = requests;
      }))

unfoldable pub get_body : CommandKind → Header → Reader HotCommand
unfolding get_prepare_draft get_run_draft get_draft_batch get_prefill_batch get_prepare_batch
    get_run_batch ◌>>=◌ lift
get_body prepare_draft_kind h = do command ← get_prepare_draft h; lift (ok (prepare_draft command))
get_body run_draft_kind h = do command ← get_run_draft h; lift (ok (run_draft command))
get_body draft_kind h = do command ← get_draft_batch h; lift (ok (draft_batch command))
get_body prefill_kind h = do command ← get_prefill_batch h; lift (ok (prefill_batch command))
get_body prepare_kind h = do command ← get_prepare_batch h; lift (ok (prepare_batch command))
get_body run_kind h = do command ← get_run_batch h; lift (ok (run_batch command))

-- The tests of the three leading numbers; 7 is the number of WORK.
unfoldable pub check_magic : ℕ → Result (Unit {0})
check_magic magic = raise_if (not (magic == payload_magic)) value_error

unfoldable pub check_version : ℕ → Result (Unit {0})
check_version version = raise_if (not (version == protocol_version)) value_error

unfoldable pub check_kind : CommandKind → ℕ → Result (Unit {0})
check_kind expected encoded =
    raise_if (encoded == 0 || ltb 7 encoded || not (encoded == number_of expected)) value_error

unfoldable pub get_command : CommandKind → Header → Reader HotCommand
unfolding get_u32 get_body ◌>>=◌ lift
get_command kind h = do
  magic ← get_u32
  _ ← lift (check_magic magic)
  version ← get_u32
  _ ← lift (check_version version)
  encoded ← get_u32
  _ ← lift (check_kind kind encoded)
  get_body kind h

unfoldable pub get_payload : CommandKind → Header → Reader HotCommand
unfolding get_command finish ◌>>=◌ lift
get_payload kind h = do command ← get_command kind h; _ ← finish; lift (ok command)

unfoldable pub decode_command_payload : CommandKind → Bytes → Header → Result HotCommand
unfolding get_payload
decode_command_payload kind raw h = taken (get_payload kind h raw)
