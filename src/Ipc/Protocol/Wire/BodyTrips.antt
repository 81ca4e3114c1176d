-- ===== src/Ipc/Protocol/Wire/BodyTrips.antt =====
-- What the Target commands of nebulasd/src/nebulasd/ipc/protocol.py hold behind their leading numbers is
-- read as written.
use nebula_sd.Common.{◌≡◌, refl, ok, arith, length}
use nebula_sd.Core.Ids.{u8, u64, validate}
use nebula_sd.Ipc.Protocol.Commands.{
  TargetPrefillBatchCommand, PrepareTargetBankCommand, RunTargetBatchCommand, RunRow, run_row,
  verify_row, checked_prefill_batch, checked_prepare_batch, checked_run_batch,
}
use nebula_sd.Ipc.Protocol.Wire.Reader.{join}
use nebula_sd.Ipc.Protocol.Wire.Trips.{
  IsCounted, Trips, All, before-Trips, last-Trips, lift-Trips, rows-Trips, u8-Trips, u32-Trips,
  u64-Trips,
}
use nebula_sd.Ipc.Protocol.Wire.TargetFields.{put_prefill, get_prefill, put_prepare, get_prepare}
use nebula_sd.Ipc.Protocol.Wire.TargetTrips.{
  IsBuiltPrefill, IsBuiltPrepare, prefill-Trips, prepare-Trips,
}
use nebula_sd.Ipc.Protocol.Wire.RunTrips.{IsBuiltRun, IsBuiltVerify, run-Trips, verify-Trips}
use nebula_sd.Ipc.Protocol.Wire.Payload.{
  put_run_row, get_run_row, get_variant, put_prefill_batch, put_prepare_batch, put_run_batch,
}
use nebula_sd.Ipc.Protocol.Wire.Decode.{get_prefill_batch, get_prepare_batch, get_run_batch}

abbrev pub IsBuiltRunRow : RunRow → Type 0
IsBuiltRunRow (run_row row) = IsBuiltRun row
IsBuiltRunRow (verify_row row) = IsBuiltVerify row

run_row-Trips : (row : RunRow) → IsBuiltRunRow row → Trips (put_run_row row) get_run_row row
unfolding put_run_row get_run_row get_variant
run_row-Trips (run_row row) built =
    before-Trips _ (u8-Trips 0 (ground (arith, validate)))
      (last-Trips (λ r. ok (run_row r)) (run_row row) (run-Trips row built) refl)
run_row-Trips (verify_row row) built =
    before-Trips _ (u8-Trips 1 (ground (arith, validate)))
      (last-Trips (λ r. ok (verify_row r)) (verify_row row) (verify-Trips row built) refl)

abbrev pub IsBuiltPrefillBatch : TargetPrefillBatchCommand → Type 0
IsBuiltPrefillBatch c =
    (checked_prefill_batch c ≡ ok c) × All IsBuiltPrefill c.requests × IsCounted c.requests

prefill_batch-fields :
    (c : TargetPrefillBatchCommand)
    → checked_prefill_batch c ≡ ok c
    → (validate u64 c.batch_seq ≡ ok c.batch_seq)
      × (validate u8 c.bank_id ≡ ok c.bank_id)
      × (validate u64 c.bank_epoch ≡ ok c.bank_epoch)
unfolding checked_prefill_batch
prefill_batch-fields c built = (ground arith, ground arith, ground arith)

pub prefill_batch-Trips :
    (c : TargetPrefillBatchCommand)
    → IsBuiltPrefillBatch c
    → Trips
        (put_prefill_batch c)
        (get_prefill_batch (record {
          worker_id = c.worker_id;
          worker_generation = c.target_generation;
          command_seq = c.command_seq;
        }))
        c
unfolding put_prefill_batch get_prefill_batch join
prefill_batch-Trips c (built, rows, counted) =
    let f = prefill_batch-fields c built in
    before-Trips _ (u64-Trips c.batch_seq f.0) (
      before-Trips _ (u8-Trips c.bank_id f.1) (
        before-Trips _ (u64-Trips c.bank_epoch f.2) (
          before-Trips _ (u32-Trips (length c.requests) counted) (
            before-Trips _
              (rows-Trips IsBuiltPrefill put_prefill get_prefill prefill-Trips c.requests rows)
              (lift-Trips c (checked_prefill_batch c) built)))))

abbrev pub IsBuiltPrepareBatch : PrepareTargetBankCommand → Type 0
IsBuiltPrepareBatch c =
    (checked_prepare_batch c ≡ ok c) × All IsBuiltPrepare c.requests × IsCounted c.requests

prepare_batch-fields :
    (c : PrepareTargetBankCommand)
    → checked_prepare_batch c ≡ ok c
    → (validate u64 c.batch_seq ≡ ok c.batch_seq)
      × (validate u8 c.standby_bank_id ≡ ok c.standby_bank_id)
      × (validate u64 c.next_bank_epoch ≡ ok c.next_bank_epoch)
unfolding checked_prepare_batch
prepare_batch-fields c built = (ground arith, ground arith, ground arith)

pub prepare_batch-Trips :
    (c : PrepareTargetBankCommand)
    → IsBuiltPrepareBatch c
    → Trips
        (put_prepare_batch c)
        (get_prepare_batch (record {
          worker_id = c.worker_id;
          worker_generation = c.target_generation;
          command_seq = c.command_seq;
        }))
        c
unfolding put_prepare_batch get_prepare_batch join
prepare_batch-Trips c (built, rows, counted) =
    let f = prepare_batch-fields c built in
    before-Trips _ (u64-Trips c.batch_seq f.0) (
      before-Trips _ (u8-Trips c.standby_bank_id f.1) (
        before-Trips _ (u64-Trips c.next_bank_epoch f.2) (
          before-Trips _ (u32-Trips (length c.requests) counted) (
            before-Trips _
              (rows-Trips IsBuiltPrepare put_prepare get_prepare prepare-Trips c.requests rows)
              (lift-Trips c (checked_prepare_batch c) built)))))

abbrev pub IsBuiltRunBatch : RunTargetBatchCommand → Type 0
IsBuiltRunBatch c =
    (checked_run_batch c ≡ ok c) × All IsBuiltRunRow c.requests × IsCounted c.requests

run_batch-fields :
    (c : RunTargetBatchCommand)
    → checked_run_batch c ≡ ok c
    → (validate u64 c.expected_batch_seq ≡ ok c.expected_batch_seq)
      × (validate u8 c.active_bank_id ≡ ok c.active_bank_id)
      × (validate u64 c.active_bank_epoch ≡ ok c.active_bank_epoch)
      × (validate u64 c.standby_bank_epoch ≡ ok c.standby_bank_epoch)
unfolding checked_run_batch
run_batch-fields c built = (ground arith, ground arith, ground arith, ground arith)

pub run_batch-Trips :
    (c : RunTargetBatchCommand)
    → IsBuiltRunBatch c
    → Trips
        (put_run_batch c)
        (get_run_batch (record {
          worker_id = c.worker_id;
          worker_generation = c.target_generation;
          command_seq = c.command_seq;
        }))
        c
unfolding put_run_batch get_run_batch join
run_batch-Trips c (built, rows, counted) =
    let f = run_batch-fields c built in
    before-Trips _ (u64-Trips c.expected_batch_seq f.0) (
      before-Trips _ (u8-Trips c.active_bank_id f.1) (
        before-Trips _ (u64-Trips c.active_bank_epoch f.2) (
          before-Trips _ (u64-Trips c.standby_bank_epoch f.3) (
            before-Trips _ (u32-Trips (length c.requests) counted) (
              before-Trips _
                (rows-Trips IsBuiltRunRow put_run_row get_run_row run_row-Trips c.requests rows)
                (lift-Trips c (checked_run_batch c) built))))))
