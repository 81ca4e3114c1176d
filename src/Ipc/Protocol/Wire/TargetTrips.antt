-- ===== src/Ipc/Protocol/Wire/TargetTrips.antt =====
-- The rows that prepare a Target batch, of nebulasd/src/nebulasd/ipc/protocol.py, are read as
-- written.
use nebula_sd.Common.{◌≡◌, ok, arith}
use nebula_sd.Core.Ids.{u8, u32, u64, validate}
use nebula_sd.Ipc.Protocol.TargetRows.{
  TargetPrefillRequest, checked_prefill, TargetPrepareRequest, checked_prepare,
}
use nebula_sd.Ipc.Protocol.Wire.Reader.{join}
use nebula_sd.Ipc.Protocol.Wire.TargetFields.{put_prefill, get_prefill, put_prepare, get_prepare}
use nebula_sd.Ipc.Protocol.Wire.Trips.{
  Trips, IsHandle, before-Trips, lift-Trips, u8-Trips, u32-Trips, u64-Trips, handle-Trips,
}

abbrev pub IsBuiltPrefill : TargetPrefillRequest → Type 0
IsBuiltPrefill r =
    (checked_prefill r ≡ ok r)
    × IsHandle r.input_tokens_handle
    × IsHandle r.generation_config_handle

prefill-fields :
    (r : TargetPrefillRequest)
    → checked_prefill r ≡ ok r
    → (validate u32 r.request_slot ≡ ok r.request_slot)
      × (validate u64 r.request_epoch ≡ ok r.request_epoch)
      × (validate u64 r.round_id ≡ ok r.round_id)
      × (validate u64 r.run_seq ≡ ok r.run_seq)
      × (validate u32 r.scheduled_token_count ≡ ok r.scheduled_token_count)
      × (validate u32 r.max_output_len ≡ ok r.max_output_len)
      × (validate u8 r.bank_id ≡ ok r.bank_id)
      × (validate u64 r.bank_epoch ≡ ok r.bank_epoch)
      × (validate u32 r.bank_offset_blocks ≡ ok r.bank_offset_blocks)
      × (validate u32 r.block_count ≡ ok r.block_count)
unfolding checked_prefill
prefill-fields r built = (
  ground arith,
  ground arith,
  ground arith,
  ground arith,
  ground arith,
  ground arith,
  ground arith,
  ground arith,
  ground arith,
  ground arith,
)

pub prefill-Trips :
    (r : TargetPrefillRequest) → IsBuiltPrefill r → Trips (put_prefill r) get_prefill r
unfolding put_prefill get_prefill join
prefill-Trips r built =
    let f = prefill-fields r built.0 in
    before-Trips _ (u32-Trips r.request_slot f.0) (
      before-Trips _ (u64-Trips r.request_epoch f.1) (
        before-Trips _ (u64-Trips r.round_id f.2) (
          before-Trips _ (u64-Trips r.run_seq f.3) (
            before-Trips _ (handle-Trips r.input_tokens_handle built.1) (
              before-Trips _ (handle-Trips r.generation_config_handle built.2) (
                before-Trips _ (u32-Trips r.scheduled_token_count f.4) (
                  before-Trips _ (u32-Trips r.max_output_len f.5) (
                    before-Trips _ (u8-Trips r.bank_id f.6) (
                      before-Trips _ (u64-Trips r.bank_epoch f.7) (
                        before-Trips _ (u32-Trips r.bank_offset_blocks f.8) (
                          before-Trips _ (u32-Trips r.block_count f.9)
                            (lift-Trips r (checked_prefill r) built.0))))))))))))

abbrev pub IsBuiltPrepare : TargetPrepareRequest → Type 0
IsBuiltPrepare r =
    (checked_prepare r ≡ ok r)
    × IsHandle r.committed_output_handle
    × IsHandle r.generation_config_handle
    × IsHandle r.hostkv_handle

prepare-fields :
    (r : TargetPrepareRequest)
    → checked_prepare r ≡ ok r
    → (validate u32 r.request_slot ≡ ok r.request_slot)
      × (validate u64 r.request_epoch ≡ ok r.request_epoch)
      × (validate u64 r.round_id ≡ ok r.round_id)
      × (validate u64 r.op_seq ≡ ok r.op_seq)
      × (validate u32 r.committed_output_count ≡ ok r.committed_output_count)
      × (validate u32 r.prompt_token_count ≡ ok r.prompt_token_count)
      × (validate u32 r.host_slot ≡ ok r.host_slot)
      × (validate u64 r.host_slot_generation ≡ ok r.host_slot_generation)
      × (validate u64 r.host_writer_lease_generation ≡ ok r.host_writer_lease_generation)
      × (validate u64 r.source_host_version ≡ ok r.source_host_version)
      × (validate u32 r.logical_kv_len ≡ ok r.logical_kv_len)
      × (validate u32 r.committed_blocks ≡ ok r.committed_blocks)
      × (validate u32 r.valid_blocks ≡ ok r.valid_blocks)
      × (validate u8 r.destination_bank_id ≡ ok r.destination_bank_id)
      × (validate u64 r.destination_bank_epoch ≡ ok r.destination_bank_epoch)
      × (validate u32 r.destination_bank_offset_blocks ≡ ok r.destination_bank_offset_blocks)
      × (validate u32 r.destination_capacity_blocks ≡ ok r.destination_capacity_blocks)
unfolding checked_prepare
prepare-fields r built = (
  ground arith,
  ground arith,
  ground arith,
  ground arith,
  ground arith,
  ground arith,
  ground arith,
  ground arith,
  ground arith,
  ground arith,
  ground arith,
  ground arith,
  ground arith,
  ground arith,
  ground arith,
  ground arith,
  ground arith,
)

pub prepare-Trips :
    (r : TargetPrepareRequest) → IsBuiltPrepare r → Trips (put_prepare r) get_prepare r
unfolding put_prepare get_prepare join
prepare-Trips r built =
    let f = prepare-fields r built.0 in
    before-Trips _ (u32-Trips r.request_slot f.0) (
      before-Trips _ (u64-Trips r.request_epoch f.1) (
        before-Trips _ (u64-Trips r.round_id f.2) (
          before-Trips _ (u64-Trips r.op_seq f.3) (
            before-Trips _ (handle-Trips r.committed_output_handle built.1) (
              before-Trips _ (u32-Trips r.committed_output_count f.4) (
                before-Trips _ (u32-Trips r.prompt_token_count f.5) (
                  before-Trips _ (handle-Trips r.generation_config_handle built.2) (
                    before-Trips _ (handle-Trips r.hostkv_handle built.3) (
                      before-Trips _ (u32-Trips r.host_slot f.6) (
                        before-Trips _ (u64-Trips r.host_slot_generation f.7) (
                          before-Trips _ (u64-Trips r.host_writer_lease_generation f.8) (
                            before-Trips _ (u64-Trips r.source_host_version f.9) (
                              before-Trips _ (u32-Trips r.logical_kv_len f.10) (
                                before-Trips _ (u32-Trips r.committed_blocks f.11) (
                                  before-Trips _ (u32-Trips r.valid_blocks f.12) (
                                    before-Trips _ (u8-Trips r.destination_bank_id f.13) (
                                      before-Trips _ (u64-Trips r.destination_bank_epoch f.14) (
                                        before-Trips _
                                          (u32-Trips r.destination_bank_offset_blocks f.15)
                                          (before-Trips _
                                            (u32-Trips r.destination_capacity_blocks f.16)
                                            (lift-Trips r (checked_prepare r)
                                              built.0))))))))))))))))))))
