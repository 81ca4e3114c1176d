-- ===== src/Ipc/Protocol/Wire/DraftRows.antt =====
-- The rows for a Draft worker of nebulasd/src/nebulasd/ipc/protocol.py are read as written.
use nebula_sd.Common.{◌≡◌, ok, arith}
use nebula_sd.Core.Ids.{u32, u64, validate}
use nebula_sd.Ipc.Protocol.Rows.{
  DraftNewRequestData, checked_new, CachedRequestDelta, checked_delta, RemovedRequest,
  checked_removed,
}
use nebula_sd.Ipc.Protocol.Wire.Reader.{join}
use nebula_sd.Ipc.Protocol.Wire.Fields.{
  put_new, get_new, put_delta, get_delta, put_removed, get_removed,
}
use nebula_sd.Ipc.Protocol.Wire.Trips.{
  Trips, IsHandle, before-Trips, lift-Trips, u32-Trips, u64-Trips, handle-Trips,
}

abbrev pub IsBuiltNew : DraftNewRequestData → Type 0
IsBuiltNew r =
    (checked_new r ≡ ok r)
    × IsHandle r.input_tokens_handle
    × IsHandle r.initial_output_tokens_handle
    × IsHandle r.generation_config_handle
    × IsHandle r.initial_kv_handle

new-fields :
    (r : DraftNewRequestData)
    → checked_new r ≡ ok r
    → (validate u32 r.request_slot ≡ ok r.request_slot)
      × (validate u64 r.request_epoch ≡ ok r.request_epoch)
      × (validate u64 r.round_id ≡ ok r.round_id)
      × (validate u64 r.op_seq ≡ ok r.op_seq)
      × (validate u32 r.scheduled_token_count ≡ ok r.scheduled_token_count)
unfolding checked_new
new-fields r built = (ground arith, ground arith, ground arith, ground arith, ground arith)

pub new-Trips : (r : DraftNewRequestData) → IsBuiltNew r → Trips (put_new r) get_new r
unfolding put_new get_new join
new-Trips r built =
    let f = new-fields r built.0 in
    before-Trips _ (u32-Trips r.request_slot f.0) (
      before-Trips _ (u64-Trips r.request_epoch f.1) (
        before-Trips _ (u64-Trips r.round_id f.2) (
          before-Trips _ (u64-Trips r.op_seq f.3) (
            before-Trips _ (u32-Trips r.scheduled_token_count f.4) (
              before-Trips _ (handle-Trips r.input_tokens_handle built.1) (
                before-Trips _ (handle-Trips r.initial_output_tokens_handle built.2) (
                  before-Trips _ (handle-Trips r.generation_config_handle built.3) (
                    before-Trips _ (handle-Trips r.initial_kv_handle built.4)
                      (lift-Trips r (checked_new r) built.0)))))))))

abbrev pub IsBuiltDelta : CachedRequestDelta → Type 0
IsBuiltDelta r =
    (checked_delta r ≡ ok r)
    × IsHandle r.token_delta_handle
    × IsHandle r.proposal_handle
    × IsHandle r.hostkv_handle
    × IsHandle r.target_bank_mapping_handle

delta-fields :
    (r : CachedRequestDelta)
    → checked_delta r ≡ ok r
    → (validate u32 r.request_slot ≡ ok r.request_slot)
      × (validate u64 r.request_epoch ≡ ok r.request_epoch)
      × (validate u64 r.round_id ≡ ok r.round_id)
      × (validate u64 r.op_seq ≡ ok r.op_seq)
      × (validate u32 r.scheduled_token_count ≡ ok r.scheduled_token_count)
unfolding checked_delta
delta-fields r built = (ground arith, ground arith, ground arith, ground arith, ground arith)

pub delta-Trips : (r : CachedRequestDelta) → IsBuiltDelta r → Trips (put_delta r) get_delta r
unfolding put_delta get_delta join
delta-Trips r built =
    let f = delta-fields r built.0 in
    before-Trips _ (u32-Trips r.request_slot f.0) (
      before-Trips _ (u64-Trips r.request_epoch f.1) (
        before-Trips _ (u64-Trips r.round_id f.2) (
          before-Trips _ (u64-Trips r.op_seq f.3) (
            before-Trips _ (handle-Trips r.token_delta_handle built.1) (
              before-Trips _ (handle-Trips r.proposal_handle built.2) (
                before-Trips _ (handle-Trips r.hostkv_handle built.3) (
                  before-Trips _ (handle-Trips r.target_bank_mapping_handle built.4) (
                    before-Trips _ (u32-Trips r.scheduled_token_count f.4)
                      (lift-Trips r (checked_delta r) built.0)))))))))

abbrev pub IsBuiltRemoved : RemovedRequest → Type 0
IsBuiltRemoved r = (checked_removed r ≡ ok r)

removed-fields :
    (r : RemovedRequest)
    → checked_removed r ≡ ok r
    → (validate u32 r.request_slot ≡ ok r.request_slot)
      × (validate u64 r.request_epoch ≡ ok r.request_epoch)
unfolding checked_removed
removed-fields r built = (ground arith, ground arith)

pub removed-Trips : (r : RemovedRequest) → IsBuiltRemoved r → Trips (put_removed r) get_removed r
unfolding put_removed get_removed join
removed-Trips r built =
    let f = removed-fields r built in
    before-Trips _ (u32-Trips r.request_slot f.0)
      (before-Trips _ (u64-Trips r.request_epoch f.1) (lift-Trips r (checked_removed r) built))
