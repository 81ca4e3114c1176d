-- ===== src/Ipc/Protocol/Wire/Payload.antt =====
-- encode_command_payload and decode_command_payload of nebulasd/src/nebulasd/ipc/protocol.py, with
-- the codecs of nebulasd/src/nebulasd/ipc/draft_protocol.py, for every kind of command but WORK:
-- the branch that leaves WORK to nebulasd/src/nebulasd/workers/work.py is not written out.
use nebula_sd.Common.{
  ℕ, zero, suc, [], ◌∷◌, Option, none, some, Result, ok, err, value_error, length,
}
use nebula_sd.Ipc.DraftProtocol.{
  DraftInitialBank, checked_initial_bank, PrepareDraftBankCommand, RunDraftBatchCommand,
}
use nebula_sd.Ipc.Protocol.Commands.{
  HotCommand, prepare_draft, run_draft, draft_batch, prefill_batch, prepare_batch, run_batch,
  DraftBatchCommand, TargetPrefillBatchCommand, PrepareTargetBankCommand, RunTargetBatchCommand,
  RunRow, run_row, verify_row,
}
use nebula_sd.Ipc.Protocol.Wire.Reader.{
  Bytes, Reader, ◌>>=◌, lift, before, join, pack, fixed, put_u8, put_u32, put_u64, get_u8, get_u32,
  get_u64, put_rows, get_rows,
}
use nebula_sd.Ipc.Protocol.Wire.Fields.{put_new, put_delta, put_removed}
use nebula_sd.Ipc.Protocol.Wire.TargetFields.{
  put_prefill, put_prepare, put_run, get_run, put_verify, get_verify,
}
use nebula_sd.Ipc.Protocol.Wire.Draft.{put_draft_prepare, put_draft_run}

-- The kinds of command but WORK.
pub data CommandKind : Type 0 where
  draft_kind prepare_kind run_kind prefill_kind prepare_draft_kind run_draft_kind : CommandKind

abbrev pub number_of : CommandKind → ℕ
number_of draft_kind = 1
number_of prepare_kind = 2
number_of run_kind = 3
number_of prefill_kind = 4
number_of prepare_draft_kind = 5
number_of run_draft_kind = 6

abbrev pub kind_of : HotCommand → CommandKind
kind_of (prepare_draft c) = prepare_draft_kind
kind_of (run_draft c) = run_draft_kind
kind_of (draft_batch c) = draft_kind
kind_of (prefill_batch c) = prefill_kind
kind_of (prepare_batch c) = prepare_kind
kind_of (run_batch c) = run_kind

abbrev pub payload_magic : ℕ
payload_magic = 1396982605

abbrev pub protocol_version : ℕ
protocol_version = 5

unfoldable pub put_run_row : RunRow → Result Bytes
unfolding before put_u8 put_run put_verify
put_run_row (verify_row row) = before (put_u8 1) (put_verify row)
put_run_row (run_row row) = before (put_u8 0) (put_run row)

-- The rest of a row behind its variant.
unfoldable pub get_variant : ℕ → Reader RunRow
unfolding get_run get_verify ◌>>=◌ lift
get_variant zero = do row ← get_run; lift (ok (run_row row))
get_variant (suc zero) = do row ← get_verify; lift (ok (verify_row row))
get_variant (suc (suc n)) = lift (err value_error)

unfoldable pub get_run_row : Reader RunRow
unfolding get_u8 get_variant ◌>>=◌
get_run_row = do variant ← get_u8; get_variant variant

-- `DraftInitialBank.to_bytes` and `read`
unfoldable pub put_initial_bank : DraftInitialBank → Result Bytes
unfolding join pack put_rows fixed
put_initial_bank b = join (
    pack 1 b.bank_id
    ∷ pack 8 b.bank_epoch
    ∷ pack 8 b.batch_seq
    ∷ pack 4 b.block_size
    ∷ pack 4 (length b.capacity_blocks)
    ∷ put_rows (fixed 4) b.capacity_blocks
    ∷ [])

unfoldable pub get_initial_bank : Reader DraftInitialBank
unfolding get_u8 get_u32 get_u64 get_rows checked_initial_bank ◌>>=◌ lift
get_initial_bank = do
  bank_id ← get_u8
  bank_epoch ← get_u64
  batch_seq ← get_u64
  block_size ← get_u32
  count ← get_u32
  capacity_blocks ← get_rows get_u32 count
  lift (
      checked_initial_bank (record {
        bank_id = bank_id;
        bank_epoch = bank_epoch;
        batch_seq = batch_seq;
        block_size = block_size;
        capacity_blocks = capacity_blocks;
      }))

-- `encode_draft_command`, for both kinds.
unfoldable pub put_prepare_draft : PrepareDraftBankCommand → Result Bytes
unfolding join pack put_rows put_draft_prepare
put_prepare_draft c = join (
    pack 8 c.batch_seq
    ∷ pack 1 c.standby_bank_id
    ∷ pack 8 c.next_bank_epoch
    ∷ pack 4 (length c.requests)
    ∷ put_rows put_draft_prepare c.requests
    ∷ [])

unfoldable pub put_run_draft : RunDraftBatchCommand → Result Bytes
unfolding join pack put_rows put_draft_run
put_run_draft c = join (
    pack 8 c.expected_batch_seq
    ∷ pack 1 c.active_bank_id
    ∷ pack 8 c.active_bank_epoch
    ∷ pack 4 (length c.requests)
    ∷ put_rows put_draft_run c.requests
    ∷ [])

unfoldable pub put_bank : Option DraftInitialBank → Result Bytes
unfolding put_u8 put_initial_bank before
put_bank none = put_u8 0
put_bank (some bank) = before (put_u8 1) (put_initial_bank bank)

unfoldable pub put_draft_batch : DraftBatchCommand → Result Bytes
unfolding join put_u32 put_rows put_new put_delta put_removed put_bank
put_draft_batch c = join (
    put_u32 (length c.new_requests)
    ∷ put_u32 (length c.cached_request_deltas)
    ∷ put_u32 (length c.removed_requests)
    ∷ put_rows put_new c.new_requests
    ∷ put_rows put_delta c.cached_request_deltas
    ∷ put_rows put_removed c.removed_requests
    ∷ put_bank c.bank
    ∷ [])

unfoldable pub put_prefill_batch : TargetPrefillBatchCommand → Result Bytes
unfolding join put_u8 put_u32 put_u64 put_rows put_prefill
put_prefill_batch c = join (
    put_u64 c.batch_seq
    ∷ put_u8 c.bank_id
    ∷ put_u64 c.bank_epoch
    ∷ put_u32 (length c.requests)
    ∷ put_rows put_prefill c.requests
    ∷ [])

unfoldable pub put_prepare_batch : PrepareTargetBankCommand → Result Bytes
unfolding join put_u8 put_u32 put_u64 put_rows put_prepare
put_prepare_batch c = join (
    put_u64 c.batch_seq
    ∷ put_u8 c.standby_bank_id
    ∷ put_u64 c.next_bank_epoch
    ∷ put_u32 (length c.requests)
    ∷ put_rows put_prepare c.requests
    ∷ [])

unfoldable pub put_run_batch : RunTargetBatchCommand → Result Bytes
unfolding join put_u8 put_u32 put_u64 put_rows put_run_row
put_run_batch c = join (
    put_u64 c.expected_batch_seq
    ∷ put_u8 c.active_bank_id
    ∷ put_u64 c.active_bank_epoch
    ∷ put_u64 c.standby_bank_epoch
    ∷ put_u32 (length c.requests)
    ∷ put_rows put_run_row c.requests
    ∷ [])

unfoldable pub put_body : HotCommand → Result Bytes
unfolding put_prepare_draft put_run_draft put_draft_batch put_prefill_batch put_prepare_batch
    put_run_batch
put_body (prepare_draft c) = put_prepare_draft c
put_body (run_draft c) = put_run_draft c
put_body (draft_batch c) = put_draft_batch c
put_body (prefill_batch c) = put_prefill_batch c
put_body (prepare_batch c) = put_prepare_batch c
put_body (run_batch c) = put_run_batch c

unfoldable pub encode_command_payload : HotCommand → Result Bytes
unfolding join put_u32 put_body
encode_command_payload command = join (
    put_u32 payload_magic
    ∷ put_u32 protocol_version
    ∷ put_u32 (number_of (kind_of command))
    ∷ put_body command
    ∷ [])
