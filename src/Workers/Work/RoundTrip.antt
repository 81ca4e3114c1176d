-- ===== src/Workers/Work/RoundTrip.antt =====
-- Work of nebulasd/src/nebulasd/workers/work.py is decoded as it was encoded.
use mathlib.Core.List.{append-nil}
use nebula_sd.Common.{
  ℕ, ◌+◌, ◌*◌, ◌^◌, ◌≤◌, ◌<◌, ◌≡◌, refl, sym, ap, ◌∙◌, ok, arith, [], length, replicate,
}
use nebula_sd.Ipc.Protocol.Wire.Reader.{Bytes, join}
use nebula_sd.Ipc.Protocol.Wire.Trips.{
  Trips, All, before-Trips, lift-Trips, skip-Trips, rows-Trips, literal-Trips, pack-Trips, Sized,
  pack-Sized, before-Sized, nil-Sized, literal-Sized, rows-Sized,
}
use nebula_sd.Workers.Work.{
  WorkKind, target_prefill, draft_initial, target_verify, draft_decode, Work, checked_work,
  max_rows,
}
use nebula_sd.Workers.Work.Bytes.{
  work_version, work_magic, header_bytes, row_bytes, kind_number, kind_of, pad, put_row, get_row,
  to_bytes, check_abi, check_size, built, get_work, from_bytes,
}
use nebula_sd.Workers.Work.RowTrips.{
  FitsRow, row-Trips, row-Sized, u8_fits-Trips, u32_fits-Trips, u64_fits-Trips,
}

-- The numbers of the work fit their fields, and so do its rows.
abbrev pub Fits : Work → Type 0
Fits w =
    (w.worker_id < 256 ^ 4)
    × (w.worker_generation < 256 ^ 8)
    × (w.work_seq < 256 ^ 8)
    × (w.bank_epoch < 256 ^ 8)
    × (w.completion_offset < 256 ^ 8)
    × (w.result_bytes < 256 ^ 4)
    × All FitsRow w.rows

kind_lem : (k : WorkKind) → (kind_number k < 256 ^ 2) × (kind_of (kind_number k) ≡ ok k)
unfolding kind_of
kind_lem target_prefill = (omega arith, refl)
kind_lem draft_initial = (omega arith, refl)
kind_lem target_verify = (omega arith, refl)
kind_lem draft_decode = (omega arith, refl)

checked_work-fields :
    (w : Work)
    → checked_work w ≡ ok w
    → (w.bank_id < 256 ^ 1) × (0 < length w.rows) × (length w.rows ≤ max_rows)
unfolding checked_work
checked_work-fields w passed = (ground arith, ground arith, ground arith)

abi_lem : check_abi work_magic work_version row_bytes ≡ ok tt
unfolding check_abi
abi_lem = refl

check_size_lem :
    (w : Work)
    → checked_work w ≡ ok w
    → check_size (header_bytes + length w.rows * row_bytes) (length w.rows) ≡ ok tt
unfolding check_size
check_size_lem w passed = let f = checked_work-fields w passed in ground (arith, f)

built_lem :
    (w : Work)
    → checked_work w ≡ ok w
    → built (kind_number w.operation) (λ operation. record w { operation = operation }) ≡ ok w
unfolding built
built_lem w passed = let k = (kind_lem w.operation).1 in ground (arith, k, passed)

work-Trips :
    (w : Work)
    → checked_work w ≡ ok w
    → Fits w
    → Trips (to_bytes w) (get_work (header_bytes + length w.rows * row_bytes)) w
unfolding to_bytes get_work join pad
work-Trips w passed fits =
    let f = checked_work-fields w passed in
    let count_fits : length w.rows < 256 ^ 4 = omega (arith, f.2) in
    before-Trips _ (literal-Trips work_magic) (
      before-Trips _ (pack-Trips 2 work_version (omega arith)) (
        before-Trips _ (pack-Trips 2 (kind_number w.operation) (kind_lem w.operation).0) (
          before-Trips _ (u32_fits-Trips w.worker_id fits.0) (
            before-Trips _ (u64_fits-Trips w.worker_generation fits.1) (
              before-Trips _ (u64_fits-Trips w.work_seq fits.2) (
                before-Trips _ (u8_fits-Trips w.bank_id (checked_work-fields w passed).0) (
                  before-Trips _ (literal-Trips (replicate 7 0)) (
                    before-Trips _ (u64_fits-Trips w.bank_epoch fits.3) (
                      before-Trips _ (u64_fits-Trips w.completion_offset fits.4) (
                        before-Trips _ (u32_fits-Trips w.result_bytes fits.5) (
                          before-Trips _ (u32_fits-Trips (length w.rows) count_fits) (
                            before-Trips _ (u32_fits-Trips row_bytes (omega arith)) (
                              skip-Trips (check_abi work_magic work_version row_bytes) _ abi_lem (
                                skip-Trips
                                  (check_size (header_bytes + length w.rows * row_bytes)
                                    (length w.rows))
                                  _ (check_size_lem w passed)
                                  (before-Trips _
                                    (rows-Trips FitsRow put_row get_row row-Trips w.rows fits.6)
                                    (lift-Trips w _ (built_lem w passed)))))))))))))))))

work-Sized : (w : Work) → Sized (header_bytes + length w.rows * row_bytes) (to_bytes w)
unfolding to_bytes join pad
work-Sized w bytes written =
    let sum =
      before-Sized (literal-Sized work_magic)
        (before-Sized (pack-Sized 2 work_version) (
          before-Sized (pack-Sized 2 (kind_number w.operation)) (
            before-Sized (pack-Sized 4 w.worker_id) (
              before-Sized (pack-Sized 8 w.worker_generation) (
                before-Sized (pack-Sized 8 w.work_seq) (
                  before-Sized (pack-Sized 1 w.bank_id) (
                    before-Sized (literal-Sized (replicate 7 0)) (
                      before-Sized (pack-Sized 8 w.bank_epoch) (
                        before-Sized (pack-Sized 8 w.completion_offset) (
                          before-Sized (pack-Sized 4 w.result_bytes) (
                            before-Sized (pack-Sized 4 (length w.rows)) (
                              before-Sized (pack-Sized 4 row_bytes) (
                                before-Sized (rows-Sized row_bytes put_row row-Sized w.rows)
                                  nil-Sized)))))))))))))
        bytes written in
    omega (arith, sum)

from_bytes_lem :
    (raw : Bytes) (count : ℕ) (w : Work)
    → length raw ≡ header_bytes + count * row_bytes
    → get_work (header_bytes + count * row_bytes) raw ≡ ok (w, [])
    → from_bytes raw ≡ ok w
unfolding from_bytes
from_bytes_lem raw count w size read = ground (arith, size, read)

-- Work that passes its constructor's tests, with numbers that fit their fields, handles that their
-- constructor built, and no owner epoch or layout id of 2 ^ 64 - 1, the mark of an absent one, is
-- encoded, and the bytes are decoded to the same work.
pub from_bytes-to_bytes :
    (w : Work)
    → checked_work w ≡ ok w
    → Fits w
    → (raw : Bytes) × (to_bytes w ≡ ok raw) × (from_bytes raw ≡ ok w)
from_bytes-to_bytes w passed fits =
    let trip = work-Trips w passed fits in
    let size = work-Sized w trip.bytes trip.is_written in
    let reader = get_work (header_bytes + length w.rows * row_bytes) in
    let whole : reader trip.bytes ≡ ok (w, []) =
      ap reader (sym (append-nil trip.bytes)) ∙ trip.is_read [] in
    (trip.bytes, trip.is_written, from_bytes_lem trip.bytes (length w.rows) w size whole)
