-- ===== src/Ipc/Protocol/Wire/TargetFields.antt =====
-- Writing and reading the rows for a Target worker, of the commands of nebulasd/src/nebulasd/ipc/protocol.py.
use nebula_sd.Common.{[], ◌∷◌, Result}
use nebula_sd.Ipc.Protocol.TargetRows.{
  TargetPrefillRequest, checked_prefill, TargetPrepareRequest, checked_prepare, RunTargetRequest,
  checked_run, TargetVerifyRequest, checked_verify,
}
use nebula_sd.Ipc.Protocol.Wire.Reader.{
  Bytes, Reader, ◌>>=◌, lift, join, put_u8, put_u32, put_u64, put_handle, put_owned_handle, get_u8,
  get_u32, get_u64, get_handle, get_owned_handle,
}

unfoldable pub put_prefill : TargetPrefillRequest → Result Bytes
unfolding join put_u8 put_u32 put_u64 put_handle put_owned_handle
put_prefill r = join (
    put_u32 r.request_slot
    ∷ put_u64 r.request_epoch
    ∷ put_u64 r.round_id
    ∷ put_u64 r.run_seq
    ∷ put_handle r.input_tokens_handle
    ∷ put_handle r.generation_config_handle
    ∷ put_u32 r.scheduled_token_count
    ∷ put_u32 r.max_output_len
    ∷ put_u8 r.bank_id
    ∷ put_u64 r.bank_epoch
    ∷ put_u32 r.bank_offset_blocks
    ∷ put_u32 r.block_count
    ∷ [])

unfoldable pub get_prefill : Reader TargetPrefillRequest
unfolding get_u8 get_u32 get_u64 get_handle get_owned_handle checked_prefill ◌>>=◌ lift
get_prefill = do
  request_slot ← get_u32
  request_epoch ← get_u64
  round_id ← get_u64
  run_seq ← get_u64
  input_tokens_handle ← get_handle
  generation_config_handle ← get_handle
  scheduled_token_count ← get_u32
  max_output_len ← get_u32
  bank_id ← get_u8
  bank_epoch ← get_u64
  bank_offset_blocks ← get_u32
  block_count ← get_u32
  lift (
      checked_prefill (record {
        request_slot = request_slot;
        request_epoch = request_epoch;
        round_id = round_id;
        run_seq = run_seq;
        input_tokens_handle = input_tokens_handle;
        generation_config_handle = generation_config_handle;
        scheduled_token_count = scheduled_token_count;
        max_output_len = max_output_len;
        bank_id = bank_id;
        bank_epoch = bank_epoch;
        bank_offset_blocks = bank_offset_blocks;
        block_count = block_count;
      }))

unfoldable pub put_prepare : TargetPrepareRequest → Result Bytes
unfolding join put_u8 put_u32 put_u64 put_handle put_owned_handle
put_prepare r = join (
    put_u32 r.request_slot
    ∷ put_u64 r.request_epoch
    ∷ put_u64 r.round_id
    ∷ put_u64 r.op_seq
    ∷ put_handle r.committed_output_handle
    ∷ put_u32 r.committed_output_count
    ∷ put_u32 r.prompt_token_count
    ∷ put_handle r.generation_config_handle
    ∷ put_handle r.hostkv_handle
    ∷ put_u32 r.host_slot
    ∷ put_u64 r.host_slot_generation
    ∷ put_u64 r.host_writer_lease_generation
    ∷ put_u64 r.source_host_version
    ∷ put_u32 r.logical_kv_len
    ∷ put_u32 r.committed_blocks
    ∷ put_u32 r.valid_blocks
    ∷ put_u8 r.destination_bank_id
    ∷ put_u64 r.destination_bank_epoch
    ∷ put_u32 r.destination_bank_offset_blocks
    ∷ put_u32 r.destination_capacity_blocks
    ∷ [])

unfoldable pub get_prepare : Reader TargetPrepareRequest
unfolding get_u8 get_u32 get_u64 get_handle get_owned_handle checked_prepare ◌>>=◌ lift
get_prepare = do
  request_slot ← get_u32
  request_epoch ← get_u64
  round_id ← get_u64
  op_seq ← get_u64
  committed_output_handle ← get_handle
  committed_output_count ← get_u32
  prompt_token_count ← get_u32
  generation_config_handle ← get_handle
  hostkv_handle ← get_handle
  host_slot ← get_u32
  host_slot_generation ← get_u64
  host_writer_lease_generation ← get_u64
  source_host_version ← get_u64
  logical_kv_len ← get_u32
  committed_blocks ← get_u32
  valid_blocks ← get_u32
  destination_bank_id ← get_u8
  destination_bank_epoch ← get_u64
  destination_bank_offset_blocks ← get_u32
  destination_capacity_blocks ← get_u32
  lift (
      checked_prepare (record {
        request_slot = request_slot;
        request_epoch = request_epoch;
        round_id = round_id;
        op_seq = op_seq;
        committed_output_handle = committed_output_handle;
        committed_output_count = committed_output_count;
        prompt_token_count = prompt_token_count;
        generation_config_handle = generation_config_handle;
        hostkv_handle = hostkv_handle;
        host_slot = host_slot;
        host_slot_generation = host_slot_generation;
        host_writer_lease_generation = host_writer_lease_generation;
        source_host_version = source_host_version;
        logical_kv_len = logical_kv_len;
        committed_blocks = committed_blocks;
        valid_blocks = valid_blocks;
        destination_bank_id = destination_bank_id;
        destination_bank_epoch = destination_bank_epoch;
        destination_bank_offset_blocks = destination_bank_offset_blocks;
        destination_capacity_blocks = destination_capacity_blocks;
      }))

unfoldable pub put_run : RunTargetRequest → Result Bytes
unfolding join put_u8 put_u32 put_u64 put_handle put_owned_handle
put_run r = join (
    put_u32 r.request_slot
    ∷ put_u64 r.request_epoch
    ∷ put_u64 r.round_id
    ∷ put_u64 r.run_seq
    ∷ put_handle r.proposal_handle
    ∷ put_handle r.output_handle
    ∷ [])

unfoldable pub get_run : Reader RunTargetRequest
unfolding get_u8 get_u32 get_u64 get_handle get_owned_handle checked_run ◌>>=◌ lift
get_run = do
  request_slot ← get_u32
  request_epoch ← get_u64
  round_id ← get_u64
  run_seq ← get_u64
  proposal_handle ← get_handle
  output_handle ← get_handle
  lift (
      checked_run (record {
        request_slot = request_slot;
        request_epoch = request_epoch;
        round_id = round_id;
        run_seq = run_seq;
        proposal_handle = proposal_handle;
        output_handle = output_handle;
      }))

unfoldable pub put_verify : TargetVerifyRequest → Result Bytes
unfolding join put_u8 put_u32 put_u64 put_handle put_owned_handle
put_verify r = join (
    put_u32 r.request_slot
    ∷ put_u64 r.request_epoch
    ∷ put_u64 r.round_id
    ∷ put_u64 r.run_seq
    ∷ put_owned_handle r.proposal_handle
    ∷ put_handle r.committed_output_handle
    ∷ put_u32 r.committed_output_count
    ∷ put_u32 r.prompt_token_count
    ∷ put_handle r.generation_config_handle
    ∷ put_u8 r.bank_id
    ∷ put_u64 r.bank_epoch
    ∷ put_u32 r.bank_offset_blocks
    ∷ put_u32 r.block_count
    ∷ [])

unfoldable pub get_verify : Reader TargetVerifyRequest
unfolding get_u8 get_u32 get_u64 get_handle get_owned_handle checked_verify ◌>>=◌ lift
get_verify = do
  request_slot ← get_u32
  request_epoch ← get_u64
  round_id ← get_u64
  run_seq ← get_u64
  proposal_handle ← get_owned_handle
  committed_output_handle ← get_handle
  committed_output_count ← get_u32
  prompt_token_count ← get_u32
  generation_config_handle ← get_handle
  bank_id ← get_u8
  bank_epoch ← get_u64
  bank_offset_blocks ← get_u32
  block_count ← get_u32
  lift (
      checked_verify (record {
        request_slot = request_slot;
        request_epoch = request_epoch;
        round_id = round_id;
        run_seq = run_seq;
        proposal_handle = proposal_handle;
        committed_output_handle = committed_output_handle;
        committed_output_count = committed_output_count;
        prompt_token_count = prompt_token_count;
        generation_config_handle = generation_config_handle;
        bank_id = bank_id;
        bank_epoch = bank_epoch;
        bank_offset_blocks = bank_offset_blocks;
        block_count = block_count;
      }))
