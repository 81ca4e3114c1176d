-- ===== src/Ipc/DraftProtocol/Contract/Account.antt =====
-- Every prepared Draft batch is waiting, run once or discarded.
use nebula_sd.Common.{
  ℕ, ◌+◌, ◌≡◌, List, [], ◌∷◌, none, some, ok, err, arith, if◌then◌else◌, Option-cases, Result-cases,
  inl, inr,
}
use nebula_sd.Ipc.DraftProtocol.{PrepareDraftBankCommand, RunDraftBatchCommand}
use nebula_sd.Ipc.DraftProtocol.Contract.{
  DraftPreparedContract, accept_prepare, accept_run, discard, validate_prepared_run,
}

abbrev pub waiting : DraftPreparedContract → ℕ
waiting c = elim c.pending [ none ↦ 0 | some _ ↦ 1 ]

pub data Call : Type 0 where
  prepares : PrepareDraftBankCommand → Call
  runs : RunDraftBatchCommand → Call
  discards : ℕ → ℕ → ℕ → Call

-- The contract with the number of prepared, of run and of discarded batches.
pub record Books : Type 0 where
  pub contract : DraftPreparedContract
  pub prepared : ℕ
  pub run : ℕ
  pub discarded : ℕ

abbrev pub step : Books → Call → Books
step b (prepares command) = elim (accept_prepare b.contract command) [
  | ok c ↦ record b { contract = c; prepared = b.prepared + 1 }
  | err e ↦ b
]
step b (runs command) = elim (accept_run b.contract command) [
  | ok c ↦ record b { contract = c; run = b.run + 1 }
  | err e ↦ b
]
step b (discards bank_id bank_epoch batch_seq) =
    let result = discard b.contract bank_id bank_epoch batch_seq in
    record b {
      contract = result.1;
      discarded = (if result.0 then b.discarded + 1 else b.discarded);
    }

abbrev pub keep : Books → List Call → Books
keep b [] = b
keep b (call ∷ calls) = keep (step b call) calls

accept_prepare-waiting :
    (c : DraftPreparedContract) (command : PrepareDraftBankCommand) (c' : DraftPreparedContract)
    → accept_prepare c command ≡ ok c'
    → (waiting c ≡ 0) × (waiting c' ≡ 1)
unfolding accept_prepare
accept_prepare-waiting c command c' h = (ground arith, ground arith)

accept_run-waiting :
    (c : DraftPreparedContract) (command : RunDraftBatchCommand) (c' : DraftPreparedContract)
    → accept_run c command ≡ ok c'
    → (waiting c ≡ 1) × (waiting c' ≡ 0)
unfolding accept_run
accept_run-waiting c command c' h = elim (Option-cases c.pending) [
  | inl nothing ↦ absurd (ground (arith, nothing))
  | inr (p, there) ↦ elim (Result-cases (validate_prepared_run p command)) [
    | inr (_, failed) ↦ absurd (ground (arith, there, failed))
    | inl (_, passed) ↦ (ground (arith, there), ground (arith, there, passed))
  ]
]

discard-waiting :
    (c : DraftPreparedContract) (bank_id bank_epoch batch_seq : ℕ)
    → waiting c
      ≡ waiting (discard c bank_id bank_epoch batch_seq).1
        + (if (discard c bank_id bank_epoch batch_seq).0 then 1 else 0)
unfolding discard
discard-waiting c bank_id bank_epoch batch_seq = ground arith

abbrev pub IsBalanced : Books → Type 0
IsBalanced b = b.prepared ≡ b.run + b.discarded + waiting b.contract

IsBalanced-step : (b : Books) (call : Call) → IsBalanced b → IsBalanced (step b call)
IsBalanced-step b (prepares command) h = elim (Result-cases (accept_prepare b.contract command)) [
  | inr (_, failed) ↦ ground (arith, failed, h)
  | inl (c', accepted) ↦
      let w = accept_prepare-waiting b.contract command c' accepted in
      ground (arith, accepted, h, w)
]
IsBalanced-step b (runs command) h = elim (Result-cases (accept_run b.contract command)) [
  | inr (_, failed) ↦ ground (arith, failed, h)
  | inl (c', accepted) ↦
      let w = accept_run-waiting b.contract command c' accepted in ground (arith, accepted, h, w)
]
IsBalanced-step b (discards bank_id bank_epoch batch_seq) h =
    let w = discard-waiting b.contract bank_id bank_epoch batch_seq in ground (arith, w, h)

-- Through any calls of accept and discard, those that are refused included, the contract's books
-- stay balanced: the prepared batches are those that were run, those that were discarded and the
-- one that waits, if any.
pub IsBalanced-keep : (b : Books) (calls : List Call) → IsBalanced b → IsBalanced (keep b calls)
IsBalanced-keep b [] h = h
IsBalanced-keep b (call ∷ calls) h = IsBalanced-keep (step b call) calls (IsBalanced-step b call h)
