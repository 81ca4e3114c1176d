-- ===== src/Ipc/Protocol/Wire/RunTrips.antt =====
-- The rows that run a Target batch, of nebulasd/src/nebulasd/ipc/protocol.py, are read as
-- written; so are allocations and sources.
use nebula_sd.Common.{◌≡◌, ok, arith}
use nebula_sd.Core.Ids.{u8, u32, u64, validate}
use nebula_sd.Ipc.Protocol.TargetRows.{
  BankAllocation, checked_bank, HostKvSource, checked_source, RunTargetRequest, checked_run,
  TargetVerifyRequest, checked_verify,
}
use nebula_sd.Ipc.Protocol.Wire.Reader.{join}
use nebula_sd.Ipc.Protocol.Wire.Fields.{put_bank, get_bank, put_source, get_source}
use nebula_sd.Ipc.Protocol.Wire.TargetFields.{put_run, get_run, put_verify, get_verify}
use nebula_sd.Ipc.Protocol.Wire.Trips.{
  Trips, IsHandle, IsOwned, before-Trips, lift-Trips, u8-Trips, u32-Trips, u64-Trips, handle-Trips,
  owned_handle-Trips,
}

abbrev pub IsBuiltBank : BankAllocation → Type 0
IsBuiltBank r = (checked_bank r ≡ ok r)

bank-fields :
    (r : BankAllocation)
    → checked_bank r ≡ ok r
    → (validate u32 r.request_slot ≡ ok r.request_slot)
      × (validate u64 r.request_epoch ≡ ok r.request_epoch)
      × (validate u8 r.bank_id ≡ ok r.bank_id)
      × (validate u64 r.bank_epoch ≡ ok r.bank_epoch)
      × (validate u32 r.offset_blocks ≡ ok r.offset_blocks)
      × (validate u32 r.block_count ≡ ok r.block_count)
unfolding checked_bank
bank-fields r built =
    (ground arith, ground arith, ground arith, ground arith, ground arith, ground arith)

pub bank-Trips : (r : BankAllocation) → IsBuiltBank r → Trips (put_bank r) get_bank r
unfolding put_bank get_bank join
bank-Trips r built =
    let f = bank-fields r built in
    before-Trips _ (u32-Trips r.request_slot f.0) (
      before-Trips _ (u64-Trips r.request_epoch f.1) (
        before-Trips _ (u8-Trips r.bank_id f.2) (
          before-Trips _ (u64-Trips r.bank_epoch f.3) (
            before-Trips _ (u32-Trips r.offset_blocks f.4) (
              before-Trips _ (u32-Trips r.block_count f.5)
                (lift-Trips r (checked_bank r) built))))))

abbrev pub IsBuiltSource : HostKvSource → Type 0
IsBuiltSource r = (checked_source r ≡ ok r)

source-fields :
    (r : HostKvSource)
    → checked_source r ≡ ok r
    → (validate u32 r.request_slot ≡ ok r.request_slot)
      × (validate u64 r.request_epoch ≡ ok r.request_epoch)
      × (validate u32 r.host_slot ≡ ok r.host_slot)
      × (validate u64 r.host_slot_generation ≡ ok r.host_slot_generation)
      × (validate u64 r.source_host_version ≡ ok r.source_host_version)
unfolding checked_source
source-fields r built = (ground arith, ground arith, ground arith, ground arith, ground arith)

pub source-Trips : (r : HostKvSource) → IsBuiltSource r → Trips (put_source r) get_source r
unfolding put_source get_source join
source-Trips r built =
    let f = source-fields r built in
    before-Trips _ (u32-Trips r.request_slot f.0) (
      before-Trips _ (u64-Trips r.request_epoch f.1) (
        before-Trips _ (u32-Trips r.host_slot f.2) (
          before-Trips _ (u64-Trips r.host_slot_generation f.3) (
            before-Trips _ (u64-Trips r.source_host_version f.4)
              (lift-Trips r (checked_source r) built)))))

abbrev pub IsBuiltRun : RunTargetRequest → Type 0
IsBuiltRun r = (checked_run r ≡ ok r) × IsHandle r.proposal_handle × IsHandle r.output_handle

run-fields :
    (r : RunTargetRequest)
    → checked_run r ≡ ok r
    → (validate u32 r.request_slot ≡ ok r.request_slot)
      × (validate u64 r.request_epoch ≡ ok r.request_epoch)
      × (validate u64 r.round_id ≡ ok r.round_id)
      × (validate u64 r.run_seq ≡ ok r.run_seq)
unfolding checked_run
run-fields r built = (ground arith, ground arith, ground arith, ground arith)

pub run-Trips : (r : RunTargetRequest) → IsBuiltRun r → Trips (put_run r) get_run r
unfolding put_run get_run join
run-Trips r built =
    let f = run-fields r built.0 in
    before-Trips _ (u32-Trips r.request_slot f.0) (
      before-Trips _ (u64-Trips r.request_epoch f.1) (
        before-Trips _ (u64-Trips r.round_id f.2) (
          before-Trips _ (u64-Trips r.run_seq f.3) (
            before-Trips _ (handle-Trips r.proposal_handle built.1) (
              before-Trips _ (handle-Trips r.output_handle built.2)
                (lift-Trips r (checked_run r) built.0))))))

abbrev pub IsBuiltVerify : TargetVerifyRequest → Type 0
IsBuiltVerify r =
    (checked_verify r ≡ ok r)
    × IsOwned r.proposal_handle
    × IsHandle r.committed_output_handle
    × IsHandle r.generation_config_handle

verify-fields :
    (r : TargetVerifyRequest)
    → checked_verify r ≡ ok r
    → (validate u32 r.request_slot ≡ ok r.request_slot)
      × (validate u64 r.request_epoch ≡ ok r.request_epoch)
      × (validate u64 r.round_id ≡ ok r.round_id)
      × (validate u64 r.run_seq ≡ ok r.run_seq)
      × (validate u32 r.committed_output_count ≡ ok r.committed_output_count)
      × (validate u32 r.prompt_token_count ≡ ok r.prompt_token_count)
      × (validate u8 r.bank_id ≡ ok r.bank_id)
      × (validate u64 r.bank_epoch ≡ ok r.bank_epoch)
      × (validate u32 r.bank_offset_blocks ≡ ok r.bank_offset_blocks)
      × (validate u32 r.block_count ≡ ok r.block_count)
unfolding checked_verify
verify-fields r built = (
  ground arith,
  ground arith,
  ground arith,
  ground arith,
  ground arith,
  ground arith,
  ground arith,
  ground arith,
  ground arith,
  ground arith,
)

pub verify-Trips : (r : TargetVerifyRequest) → IsBuiltVerify r → Trips (put_verify r) get_verify r
unfolding put_verify get_verify join
verify-Trips r built =
    let f = verify-fields r built.0 in
    before-Trips _ (u32-Trips r.request_slot f.0) (
      before-Trips _ (u64-Trips r.request_epoch f.1) (
        before-Trips _ (u64-Trips r.round_id f.2) (
          before-Trips _ (u64-Trips r.run_seq f.3) (
            before-Trips _ (owned_handle-Trips r.proposal_handle built.1) (
              before-Trips _ (handle-Trips r.committed_output_handle built.2) (
                before-Trips _ (u32-Trips r.committed_output_count f.4) (
                  before-Trips _ (u32-Trips r.prompt_token_count f.5) (
                    before-Trips _ (handle-Trips r.generation_config_handle built.3) (
                      before-Trips _ (u8-Trips r.bank_id f.6) (
                        before-Trips _ (u64-Trips r.bank_epoch f.7) (
                          before-Trips _ (u32-Trips r.bank_offset_blocks f.8) (
                            before-Trips _ (u32-Trips r.block_count f.9)
                              (lift-Trips r (checked_verify r) built.0)))))))))))))
