-- ===== src/Ipc/Protocol/Destinations.antt =====
-- The destinations of the two commands that prepare a bank, of nebulasd/src/nebulasd/ipc/protocol.py
-- and nebulasd/src/nebulasd/ipc/draft_protocol.py, share no block and leave none out.
use nebula_sd.Common.{
  ℕ, ◌+◌, ◌≤◌, ◌≡◌, ok, List, [], ◌∷◌, arith, ltb, leb, ◌&&◌, if◌then◌else◌, sum_of, map,
  Result-cases, inl, inr,
}
use nebula_sd.Core.Ids.{u32, validate, max_valid}
use nebula_sd.Ipc.Protocol.TargetRows.{TargetPrepareRequest}
use nebula_sd.Ipc.Protocol.Keys.{unique_keys}
use nebula_sd.Ipc.Protocol.Commands.{
  PrepareTargetBankCommand, destinations, checked_prepare_batch, key_of_prepare,
}
use nebula_sd.Ipc.DraftProtocol.{
  DraftPrepareRequest, PrepareDraftBankCommand, contiguous, checked_prepare_draft, validate_batch,
  prepare_slots, bank_id,
}

-- Whether a range of so many blocks holds a block.
abbrev pub within : ℕ → ℕ → ℕ → ℕ
within block offset blocks = if leb offset block && ltb block (offset + blocks) then 1 else 0

-- How many of the requests have the block.
abbrev pub target_owners : ℕ → List TargetPrepareRequest → ℕ
target_owners block = sum_of (λ (r : TargetPrepareRequest).
    within block r.destination_bank_offset_blocks r.destination_capacity_blocks)

abbrev pub target_blocks : List TargetPrepareRequest → ℕ
target_blocks = sum_of (λ (r : TargetPrepareRequest). r.destination_capacity_blocks)

abbrev pub draft_owners : ℕ → List DraftPrepareRequest → ℕ
draft_owners block = sum_of (λ (r : DraftPrepareRequest).
    within block r.destination_offset_blocks r.destination_capacity_blocks)

abbrev pub draft_blocks : List DraftPrepareRequest → ℕ
draft_blocks = sum_of (λ (r : DraftPrepareRequest). r.destination_capacity_blocks)

destinations-owners :
    (bank_id bank_epoch start block : ℕ) (rows : List TargetPrepareRequest)
    → destinations bank_id bank_epoch start rows ≡ ok tt
    → target_owners block rows ≡ within block start (target_blocks rows)
unfolding destinations
destinations-owners bank_id bank_epoch start block [] h = ground arith
destinations-owners bank_id bank_epoch start block (row ∷ rows) h =
    let at : row.destination_bank_offset_blocks ≡ start = ground arith in
    let rest : destinations bank_id bank_epoch (start + row.destination_capacity_blocks) rows
        ≡ ok tt =
      ground arith in
    let later =
      destinations-owners bank_id bank_epoch (start + row.destination_capacity_blocks) block rows
        rest in
    ground (arith, at, later)

contiguous-owners :
    (start block end : ℕ) (rows : List DraftPrepareRequest)
    → contiguous start rows ≡ ok end
    → (draft_owners block rows ≡ within block start (draft_blocks rows))
      × (end ≡ start + draft_blocks rows)
unfolding contiguous
contiguous-owners start block end [] h = (ground arith, ground arith)
contiguous-owners start block end (row ∷ rows) h =
    let at : row.destination_offset_blocks ≡ start = ground arith in
    let rest : contiguous (start + row.destination_capacity_blocks) rows ≡ ok end = ground arith in
    let later = contiguous-owners (start + row.destination_capacity_blocks) block end rows rest in
    (ground (arith, at, later.0), omega (arith, later.1))

-- What the tests of the two constructors say of the destinations.
checked_prepare_batch-destinations :
    (c : PrepareTargetBankCommand)
    → checked_prepare_batch c ≡ ok c
    → destinations c.standby_bank_id c.next_bank_epoch 0 c.requests ≡ ok tt
unfolding checked_prepare_batch
checked_prepare_batch-destinations c built =
    elim (Result-cases (unique_keys [] (map key_of_prepare c.requests))) [
      | inr (_, failed) ↦ absurd (ground (arith, failed))
      | inl (tt, found) ↦
          elim (Result-cases (destinations c.standby_bank_id c.next_bank_epoch 0 c.requests)) [
            | inr (_, failed) ↦ absurd (ground (arith, found, failed))
            | inl (tt, lie) ↦ lie
          ]
    ]

checked_prepare_draft-contiguous :
    (c : PrepareDraftBankCommand)
    → checked_prepare_draft c ≡ ok c
    → (end : ℕ) × (contiguous 0 c.requests ≡ ok end) × (end ≤ max_valid u32)
unfolding checked_prepare_draft validate bank_id
checked_prepare_draft-contiguous c built =
    elim (Result-cases
      (validate_batch c.worker_id c.worker_generation c.command_seq (prepare_slots c.requests))) [
        | inr (_, failed) ↦ absurd (ground (arith, failed))
        | inl (tt, sent) ↦ elim (Result-cases (contiguous 0 c.requests)) [
          | inr (_, failed) ↦ absurd (ground (arith, sent, failed))
          | inl (end, lie) ↦ (end, lie, ground (arith, sent, lie))
        ]
      ]

-- In a command that prepares a Target bank and passes its constructor's tests, each block below the
-- sum of the capacities is in the destination of one request, and any other block in none. The same
-- holds of a command that prepares a Draft bank, and there the sum is a valid number of 32 bits.
pub prepare-owners :
    (target : PrepareTargetBankCommand) (draft : PrepareDraftBankCommand) (block : ℕ)
    → checked_prepare_batch target ≡ ok target
    → checked_prepare_draft draft ≡ ok draft
    → (target_owners block target.requests
        ≡ (if ltb block (target_blocks target.requests) then 1 else 0))
      × (draft_owners block draft.requests
          ≡ (if ltb block (draft_blocks draft.requests) then 1 else 0))
      × (draft_blocks draft.requests ≤ max_valid u32)
prepare-owners target draft block target_built draft_built =
    let (end, lie, low) = checked_prepare_draft-contiguous draft draft_built in
    let placed = checked_prepare_batch-destinations target target_built in
    let owned =
      destinations-owners target.standby_bank_id target.next_bank_epoch 0 block target.requests
        placed in
    let (drafted, at_end) = contiguous-owners 0 block end draft.requests lie in
    (ground (arith, owned), ground (arith, drafted), omega (arith, at_end, low))
