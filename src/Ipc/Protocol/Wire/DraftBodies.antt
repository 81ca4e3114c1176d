-- ===== src/Ipc/Protocol/Wire/DraftBodies.antt =====
-- What the Draft commands of nebulasd/src/nebulasd/ipc/protocol.py hold behind their leading numbers is
-- read as written.
use nebula_sd.Common.{
  ℕ, ◌≡◌, refl, ok, arith, List, [], ◌∷◌, length, Option, none, some, Result-cases, inl, inr,
}
use nebula_sd.Core.Ids.{u8, u32, u64, validate}
use nebula_sd.Ipc.DraftProtocol.{
  DraftInitialBank, checked_initial_bank, PrepareDraftBankCommand, RunDraftBatchCommand,
  checked_prepare_draft, checked_run_draft, prepare_slots, run_slots, bank_id, positive_capacities,
  validate_batch,
}
use nebula_sd.Ipc.Protocol.Commands.{
  DraftBatchCommand, checked_draft_batch, validate_lists, validate_bank,
}
use nebula_sd.Ipc.Protocol.Wire.Reader.{◌>>=◌, join, fixed, get_u8, get_u32}
use nebula_sd.Ipc.Protocol.Wire.Trips.{
  IsCounted, Trips, All, before-Trips, behind-Trips, end-Trips, last-Trips, lift-Trips, skip-Trips,
  rows-Trips, u8-Trips, u32-Trips, u8_packed-Trips, u32_packed-Trips, u64_packed-Trips,
  number-Trips,
}
use nebula_sd.Ipc.Protocol.Wire.Fields.{
  put_new, get_new, put_delta, get_delta, put_removed, get_removed,
}
use nebula_sd.Ipc.Protocol.Wire.DraftRows.{
  IsBuiltNew, IsBuiltDelta, IsBuiltRemoved, new-Trips, delta-Trips, removed-Trips,
}
use nebula_sd.Ipc.Protocol.Wire.Draft.{
  put_draft_prepare, get_draft_prepare, put_draft_run, get_draft_run,
}
use nebula_sd.Ipc.Protocol.Wire.DraftTrips.{
  IsBuiltDraftPrepare, IsBuiltDraftRun, draft_prepare-Trips, draft_run-Trips,
}
use nebula_sd.Ipc.Protocol.Wire.Payload.{
  put_initial_bank, get_initial_bank, put_prepare_draft, put_run_draft, put_bank, put_draft_batch,
}
use nebula_sd.Ipc.Protocol.Wire.Decode.{get_prepare_draft, get_run_draft, get_bank, get_draft_batch}

abbrev pub IsBuiltPrepareDraft : PrepareDraftBankCommand → Type 0
IsBuiltPrepareDraft c =
    (checked_prepare_draft c ≡ ok c) × All IsBuiltDraftPrepare c.requests × IsCounted c.requests

prepare_draft-fields :
    (c : PrepareDraftBankCommand)
    → checked_prepare_draft c ≡ ok c
    → (validate u64 c.batch_seq ≡ ok c.batch_seq)
      × (validate u8 c.standby_bank_id ≡ ok c.standby_bank_id)
      × (validate u64 c.next_bank_epoch ≡ ok c.next_bank_epoch)
unfolding checked_prepare_draft
prepare_draft-fields c built =
    elim (Result-cases
      (validate_batch c.worker_id c.worker_generation c.command_seq (prepare_slots c.requests))) [
        | inr (_, failed) ↦ absurd (ground (arith, failed))
        | inl (tt, whole) ↦
            (ground (arith, whole), ground (arith, whole, bank_id), ground (arith, whole))
      ]

pub prepare_draft-Trips :
    (c : PrepareDraftBankCommand)
    → IsBuiltPrepareDraft c
    → Trips
        (put_prepare_draft c)
        (get_prepare_draft (record {
          worker_id = c.worker_id;
          worker_generation = c.worker_generation;
          command_seq = c.command_seq;
        }))
        c
unfolding put_prepare_draft get_prepare_draft join
prepare_draft-Trips c (built, rows, counted) =
    let f = prepare_draft-fields c built in
    before-Trips _ (u64_packed-Trips c.batch_seq f.0) (
      before-Trips _ (u8_packed-Trips c.standby_bank_id f.1) (
        before-Trips _ (u64_packed-Trips c.next_bank_epoch f.2) (
          before-Trips _ (u32_packed-Trips (length c.requests) counted) (
            before-Trips _
              (rows-Trips IsBuiltDraftPrepare put_draft_prepare get_draft_prepare
                draft_prepare-Trips c.requests rows)
              (lift-Trips c (checked_prepare_draft c) built)))))

abbrev pub IsBuiltRunDraft : RunDraftBatchCommand → Type 0
IsBuiltRunDraft c =
    (checked_run_draft c ≡ ok c) × All IsBuiltDraftRun c.requests × IsCounted c.requests

run_draft-fields :
    (c : RunDraftBatchCommand)
    → checked_run_draft c ≡ ok c
    → (validate u64 c.expected_batch_seq ≡ ok c.expected_batch_seq)
      × (validate u8 c.active_bank_id ≡ ok c.active_bank_id)
      × (validate u64 c.active_bank_epoch ≡ ok c.active_bank_epoch)
unfolding checked_run_draft
run_draft-fields c built =
    elim (Result-cases
      (validate_batch c.worker_id c.worker_generation c.command_seq (run_slots c.requests))) [
        | inr (_, failed) ↦ absurd (ground (arith, failed))
        | inl (tt, whole) ↦
            (ground (arith, whole), ground (arith, whole, bank_id), ground (arith, whole))
      ]

pub run_draft-Trips :
    (c : RunDraftBatchCommand)
    → IsBuiltRunDraft c
    → Trips
        (put_run_draft c)
        (get_run_draft (record {
          worker_id = c.worker_id;
          worker_generation = c.worker_generation;
          command_seq = c.command_seq;
        }))
        c
unfolding put_run_draft get_run_draft join
run_draft-Trips c (built, rows, counted) =
    let f = run_draft-fields c built in
    before-Trips _ (u64_packed-Trips c.expected_batch_seq f.0) (
      before-Trips _ (u8_packed-Trips c.active_bank_id f.1) (
        before-Trips _ (u64_packed-Trips c.active_bank_epoch f.2) (
          before-Trips _ (u32_packed-Trips (length c.requests) counted) (
            before-Trips _
              (rows-Trips IsBuiltDraftRun put_draft_run get_draft_run draft_run-Trips c.requests
                rows)
              (lift-Trips c (checked_run_draft c) built)))))

abbrev pub IsNumber : ℕ → Type 0
IsNumber n = validate u32 n ≡ ok n

positive_capacities-All :
    (counts : List ℕ) → positive_capacities counts ≡ ok tt → All IsNumber counts
unfolding positive_capacities
positive_capacities-All [] h = tt
positive_capacities-All (count ∷ counts) h =
    let rest : positive_capacities counts ≡ ok tt = ground arith in
    (ground arith, positive_capacities-All counts rest)

abbrev pub IsBuiltInitialBank : DraftInitialBank → Type 0
IsBuiltInitialBank b = (checked_initial_bank b ≡ ok b) × IsCounted b.capacity_blocks

initial_bank-fields :
    (b : DraftInitialBank)
    → checked_initial_bank b ≡ ok b
    → (validate u8 b.bank_id ≡ ok b.bank_id)
      × (validate u64 b.bank_epoch ≡ ok b.bank_epoch)
      × (validate u64 b.batch_seq ≡ ok b.batch_seq)
      × (validate u32 b.block_size ≡ ok b.block_size)
      × All IsNumber b.capacity_blocks
unfolding checked_initial_bank
initial_bank-fields b built = elim (Result-cases (positive_capacities b.capacity_blocks)) [
  | inr (_, failed) ↦ absurd (ground (arith, failed))
  | inl (tt, positive) ↦ (
    ground arith,
    ground arith,
    ground arith,
    ground arith,
    positive_capacities-All b.capacity_blocks positive,
  )
]

initial_bank-Trips :
    (b : DraftInitialBank) → IsBuiltInitialBank b → Trips (put_initial_bank b) get_initial_bank b
unfolding put_initial_bank get_initial_bank join
initial_bank-Trips b (built, counted) =
    let f = initial_bank-fields b built in
    before-Trips _ (u8_packed-Trips b.bank_id f.0) (
      before-Trips _ (u64_packed-Trips b.bank_epoch f.1) (
        before-Trips _ (u64_packed-Trips b.batch_seq f.2) (
          before-Trips _ (u32_packed-Trips b.block_size f.3) (
            before-Trips _ (u32_packed-Trips (length b.capacity_blocks) counted) (
              before-Trips _
                (rows-Trips IsNumber (fixed 4) get_u32 number-Trips b.capacity_blocks f.4)
                (lift-Trips b (checked_initial_bank b) built))))))

abbrev pub IsBuiltBank : Option DraftInitialBank → Type 0
IsBuiltBank none = Unit {0}
IsBuiltBank (some bank) = IsBuiltInitialBank bank

abbrev pub IsBuiltDraftBatch : DraftBatchCommand → Type 0
IsBuiltDraftBatch c =
    (checked_draft_batch c ≡ ok c)
    × All IsBuiltNew c.new_requests
    × All IsBuiltDelta c.cached_request_deltas
    × All IsBuiltRemoved c.removed_requests
    × IsCounted c.new_requests
    × IsCounted c.cached_request_deltas
    × IsCounted c.removed_requests
    × IsBuiltBank c.bank

-- A command with a bank passes the tests without it too.
without_bank_lem :
    (c : DraftBatchCommand)
    → checked_draft_batch c ≡ ok c
    → checked_draft_batch (record c { bank = none }) ≡ ok (record c { bank = none })
unfolding checked_draft_batch validate_bank validate_lists
without_bank_lem c built = elim (Result-cases (validate_lists c)) [
  | inr (_, failed) ↦ absurd (ground (arith, failed))
  | inl (tt, listed) ↦ elim (Result-cases (validate_bank c)) [
    | inr (_, failed) ↦ absurd (ground (arith, listed, failed))
    | inl (tt, banked) ↦ ground (arith, listed, banked)
  ]
]

bank-Trips :
    (c : DraftBatchCommand) (bank : Option DraftInitialBank)
    → checked_draft_batch (record c { bank = bank }) ≡ ok (record c { bank = bank })
    → IsBuiltBank bank
    → Trips
        (put_bank bank)
        (get_u8 >>= λ variant. get_bank (record c { bank = none }) variant)
        (record c { bank = bank })
unfolding put_bank get_bank
bank-Trips c none built bank = behind-Trips _ (u8-Trips 0 (ground (arith, validate))) (λ rest. refl)
bank-Trips c (some b) built bank = before-Trips _ (u8-Trips 1 (ground (arith, validate))) (
    last-Trips (λ r. checked_draft_batch (record c { bank = some r })) (record c { bank = some b })
      (initial_bank-Trips b bank) built)

pub draft_batch-Trips :
    (c : DraftBatchCommand)
    → IsBuiltDraftBatch c
    → Trips
        (put_draft_batch c)
        (get_draft_batch (record {
          worker_id = c.worker_id;
          worker_generation = c.worker_generation;
          command_seq = c.command_seq;
        }))
        c
unfolding put_draft_batch get_draft_batch join
draft_batch-Trips c (built, news, deltas, removals, new_count, delta_count, removed_count, bank) =
    before-Trips _ (u32-Trips (length c.new_requests) new_count) (
      before-Trips _ (u32-Trips (length c.cached_request_deltas) delta_count) (
        before-Trips _ (u32-Trips (length c.removed_requests) removed_count) (
          before-Trips _ (rows-Trips IsBuiltNew put_new get_new new-Trips c.new_requests news) (
            before-Trips _
              (rows-Trips IsBuiltDelta put_delta get_delta delta-Trips c.cached_request_deltas
                deltas)
              (before-Trips _
                (rows-Trips IsBuiltRemoved put_removed get_removed removed-Trips c.removed_requests
                  removals)
                (skip-Trips (checked_draft_batch (record c { bank = none })) _
                  (without_bank_lem c built) (end-Trips (bank-Trips c c.bank built bank))))))))
