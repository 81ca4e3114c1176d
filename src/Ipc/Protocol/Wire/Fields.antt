-- ===== src/Ipc/Protocol/Wire/Fields.antt =====
-- Writing and reading the rows for a Draft worker, allocations and sources, of the commands of nebulasd/src/nebulasd/ipc/protocol.py.
use nebula_sd.Common.{[], ◌∷◌, Result}
use nebula_sd.Ipc.Protocol.Rows.{
  DraftNewRequestData, checked_new, CachedRequestDelta, checked_delta, RemovedRequest,
  checked_removed,
}
use nebula_sd.Ipc.Protocol.TargetRows.{BankAllocation, checked_bank, HostKvSource, checked_source}
use nebula_sd.Ipc.Protocol.Wire.Reader.{
  Bytes, Reader, ◌>>=◌, lift, join, put_u8, put_u32, put_u64, put_handle, put_owned_handle, get_u8,
  get_u32, get_u64, get_handle, get_owned_handle,
}

unfoldable pub put_new : DraftNewRequestData → Result Bytes
unfolding join put_u8 put_u32 put_u64 put_handle put_owned_handle
put_new r = join (
    put_u32 r.request_slot
    ∷ put_u64 r.request_epoch
    ∷ put_u64 r.round_id
    ∷ put_u64 r.op_seq
    ∷ put_u32 r.scheduled_token_count
    ∷ put_handle r.input_tokens_handle
    ∷ put_handle r.initial_output_tokens_handle
    ∷ put_handle r.generation_config_handle
    ∷ put_handle r.initial_kv_handle
    ∷ [])

unfoldable pub get_new : Reader DraftNewRequestData
unfolding get_u8 get_u32 get_u64 get_handle get_owned_handle checked_new ◌>>=◌ lift
get_new = do
  request_slot ← get_u32
  request_epoch ← get_u64
  round_id ← get_u64
  op_seq ← get_u64
  scheduled_token_count ← get_u32
  input_tokens_handle ← get_handle
  initial_output_tokens_handle ← get_handle
  generation_config_handle ← get_handle
  initial_kv_handle ← get_handle
  lift (
      checked_new (record {
        request_slot = request_slot;
        request_epoch = request_epoch;
        round_id = round_id;
        op_seq = op_seq;
        scheduled_token_count = scheduled_token_count;
        input_tokens_handle = input_tokens_handle;
        initial_output_tokens_handle = initial_output_tokens_handle;
        generation_config_handle = generation_config_handle;
        initial_kv_handle = initial_kv_handle;
      }))

unfoldable pub put_delta : CachedRequestDelta → Result Bytes
unfolding join put_u8 put_u32 put_u64 put_handle put_owned_handle
put_delta r = join (
    put_u32 r.request_slot
    ∷ put_u64 r.request_epoch
    ∷ put_u64 r.round_id
    ∷ put_u64 r.op_seq
    ∷ put_handle r.token_delta_handle
    ∷ put_handle r.proposal_handle
    ∷ put_handle r.hostkv_handle
    ∷ put_handle r.target_bank_mapping_handle
    ∷ put_u32 r.scheduled_token_count
    ∷ [])

unfoldable pub get_delta : Reader CachedRequestDelta
unfolding get_u8 get_u32 get_u64 get_handle get_owned_handle checked_delta ◌>>=◌ lift
get_delta = do
  request_slot ← get_u32
  request_epoch ← get_u64
  round_id ← get_u64
  op_seq ← get_u64
  token_delta_handle ← get_handle
  proposal_handle ← get_handle
  hostkv_handle ← get_handle
  target_bank_mapping_handle ← get_handle
  scheduled_token_count ← get_u32
  lift (
      checked_delta (record {
        request_slot = request_slot;
        request_epoch = request_epoch;
        round_id = round_id;
        op_seq = op_seq;
        token_delta_handle = token_delta_handle;
        proposal_handle = proposal_handle;
        hostkv_handle = hostkv_handle;
        target_bank_mapping_handle = target_bank_mapping_handle;
        scheduled_token_count = scheduled_token_count;
      }))

unfoldable pub put_removed : RemovedRequest → Result Bytes
unfolding join put_u8 put_u32 put_u64 put_handle put_owned_handle
put_removed r = join (put_u32 r.request_slot ∷ put_u64 r.request_epoch ∷ [])

unfoldable pub get_removed : Reader RemovedRequest
unfolding get_u8 get_u32 get_u64 get_handle get_owned_handle checked_removed ◌>>=◌ lift
get_removed = do
  request_slot ← get_u32
  request_epoch ← get_u64
  lift (checked_removed (record { request_slot = request_slot; request_epoch = request_epoch }))

unfoldable pub put_bank : BankAllocation → Result Bytes
unfolding join put_u8 put_u32 put_u64 put_handle put_owned_handle
put_bank r = join (
    put_u32 r.request_slot
    ∷ put_u64 r.request_epoch
    ∷ put_u8 r.bank_id
    ∷ put_u64 r.bank_epoch
    ∷ put_u32 r.offset_blocks
    ∷ put_u32 r.block_count
    ∷ [])

unfoldable pub get_bank : Reader BankAllocation
unfolding get_u8 get_u32 get_u64 get_handle get_owned_handle checked_bank ◌>>=◌ lift
get_bank = do
  request_slot ← get_u32
  request_epoch ← get_u64
  bank_id ← get_u8
  bank_epoch ← get_u64
  offset_blocks ← get_u32
  block_count ← get_u32
  lift (
      checked_bank (record {
        request_slot = request_slot;
        request_epoch = request_epoch;
        bank_id = bank_id;
        bank_epoch = bank_epoch;
        offset_blocks = offset_blocks;
        block_count = block_count;
      }))

unfoldable pub put_source : HostKvSource → Result Bytes
unfolding join put_u8 put_u32 put_u64 put_handle put_owned_handle
put_source r = join (
    put_u32 r.request_slot
    ∷ put_u64 r.request_epoch
    ∷ put_u32 r.host_slot
    ∷ put_u64 r.host_slot_generation
    ∷ put_u64 r.source_host_version
    ∷ [])

unfoldable pub get_source : Reader HostKvSource
unfolding get_u8 get_u32 get_u64 get_handle get_owned_handle checked_source ◌>>=◌ lift
get_source = do
  request_slot ← get_u32
  request_epoch ← get_u64
  host_slot ← get_u32
  host_slot_generation ← get_u64
  source_host_version ← get_u64
  lift (
      checked_source (record {
        request_slot = request_slot;
        request_epoch = request_epoch;
        host_slot = host_slot;
        host_slot_generation = host_slot_generation;
        source_host_version = source_host_version;
      }))
