-- ===== src/Ipc/Protocol/Cache/Advance.antt =====
-- How the entries of the worker's cache of nebulasd/src/nebulasd/ipc/protocol.py move: a row
-- keeps the epoch of a cached request, and its operations only go forward.
use nebula_sd.Common.{
  ℕ, ◌≡◌, ap, ◌∙◌, refl, sym, subst, true, false, List, [], ◌∷◌, some, ok, Result, arith, inl, inr,
  Result-cases, Option-cases, Bool-cases, ◌==◌,
}
use nebula_sd.Common.Assoc.{lookup, insert, lookup-insert, lookup-insert_self}
use nebula_sd.Ipc.Protocol.Rows.{CachedRequestDelta, DraftNewRequestData}
use nebula_sd.Ipc.Protocol.TargetRows.{TargetPrefillRequest, TargetPrepareRequest}
use nebula_sd.Ipc.Protocol.Keys.{operation_is_newer}
use nebula_sd.Ipc.Protocol.Commands.{
  TargetPrefillBatchCommand, PrepareTargetBankCommand, RunTargetBatchCommand, RunRow, run_slot,
  run_epoch,
}
use nebula_sd.Ipc.Protocol.Cache.Rows.{
  WorkerRequestCacheEntry, Entries, Prepared, apply_new, apply_delta, apply_target_prefill,
  apply_target_prepare, apply_run, check_moves, new_entry, delta_entry, prefill_entry,
  first_arrival, prepared_entry, run_entry, run_round, run_seq,
}
use nebula_sd.Ipc.Protocol.Cache.Batches.{each}

-- From one operation to another by steps, each of which is newer by the fences of the protocol.
pub data Later : ℕ → ℕ → ℕ → ℕ → Type 0 where
  stays : {round op : ℕ} → Later round op round op
  moves :
      {round op round' op' round'' op'' : ℕ}
      → Later round op round' op'
      → operation_is_newer round'' op'' round' op' ≡ ok true
      → Later round op round'' op''

Later-trans :
    {round op round' op' round'' op'' : ℕ}
    → Later round op round' op'
    → Later round' op' round'' op''
    → Later round op round'' op''
Later-trans before stays = before
Later-trans before (moves after newer) = moves (Later-trans before after) newer

-- The same request, as it was or later.
abbrev pub IsLater : WorkerRequestCacheEntry → WorkerRequestCacheEntry → Type 0
IsLater e e' =
    (e'.request_epoch ≡ e.request_epoch)
    × Later e.last_round_id e.last_op_seq e'.last_round_id e'.last_op_seq

-- Each cached request is still cached, as it was or later.
abbrev pub Keeps : Entries → Entries → Type 0
Keeps before after =
    (slot : ℕ) (e : WorkerRequestCacheEntry)
    → lookup slot before ≡ some e
    → (e' : WorkerRequestCacheEntry) × (lookup slot after ≡ some e') × IsLater e e'

pub Keeps-refl : (entries : Entries) → Keeps entries entries
Keeps-refl entries slot e there = (e, there, (refl, stays))

pub Keeps-trans : (a b c : Entries) → Keeps a b → Keeps b c → Keeps a c
Keeps-trans a b c first second slot e there =
    let m = first slot e there in
    let l = second slot m.0 m.1 in (l.0, l.1, (l.2.0 ∙ m.2.0, Later-trans m.2.1 l.2.1))

insert-Keeps :
    (slot : ℕ) (new : WorkerRequestCacheEntry) (entries : Entries)
    → ((e : WorkerRequestCacheEntry) → lookup slot entries ≡ some e → IsLater e new)
    → Keeps entries (insert slot new entries)
insert-Keeps slot new entries later asked e there = elim (Bool-cases (slot == asked)) [
  | inl same ↦
      let at : slot ≡ asked = ground (arith, same) in
      (
        new,
        ground (arith, same, lookup-insert slot asked new entries),
        later e (ap (λ k. lookup k entries) at ∙ there),
      )
  | inr other ↦
      (e, ground (arith, other, there, lookup-insert slot asked new entries), (refl, stays))
]

-- One row sets one entry, under its slot and with its epoch; a request that was cached there goes
-- on from where it was.
abbrev pub Sets : Entries → Entries → ℕ → ℕ → Type 0
Sets before after slot epoch =
    (new : WorkerRequestCacheEntry) × (after ≡ insert slot new before)
    × (new.request_epoch ≡ epoch)
    × ((e : WorkerRequestCacheEntry) → lookup slot before ≡ some e → IsLater e new)

pub Sets-Keeps :
    (before after : Entries) (slot epoch : ℕ) → Sets before after slot epoch → Keeps before after
Sets-Keeps before after slot epoch sets =
    subst (Keeps before) (sym sets.1) (insert-Keeps slot sets.0 before sets.3)

pub Sets-lookup :
    (before after : Entries) (slot epoch : ℕ)
    → Sets before after slot epoch
    → (e : WorkerRequestCacheEntry) × (lookup slot after ≡ some e) × (e.request_epoch ≡ epoch)
Sets-lookup before after slot epoch sets =
    (sets.0, ap (lookup slot) sets.1 ∙ lookup-insert_self slot sets.0 before, sets.2)

of_cached :
    (slot : ℕ) (entries : Entries) (current new : WorkerRequestCacheEntry)
    → lookup slot entries ≡ some current
    → IsLater current new
    → (e : WorkerRequestCacheEntry) → lookup slot entries ≡ some e
    → IsLater e new
of_cached slot entries current new there later e there' =
    let same : current ≡ e = cc in subst (λ x. IsLater x new) same later

pub check_moves-IsLater :
    (current new : WorkerRequestCacheEntry) (epoch round op : ℕ)
    → check_moves current epoch round op ≡ ok tt
    → new.request_epoch ≡ epoch
    → new.last_round_id ≡ round
    → new.last_op_seq ≡ op
    → IsLater current new
unfolding check_moves
check_moves-IsLater current new epoch round op h at_epoch at_round at_op =
    elim (Result-cases (operation_is_newer round op current.last_round_id current.last_op_seq)) [
      | inr (_, failed) ↦ absurd (ground (arith, failed))
      | inl (false, older) ↦ absurd (ground (arith, older))
      | inl (true, newer) ↦
          let same : current.request_epoch ≡ epoch = ground (arith, newer) in
          (at_epoch ∙ sym same, moves stays (rw (at_round, at_op) newer))
    ]

pub apply_new-Sets :
    (entries entries' : Entries) (row : DraftNewRequestData) (prepared : Prepared)
    → apply_new entries row prepared ≡ ok entries'
    → Sets entries entries' row.request_slot row.request_epoch
unfolding apply_new
apply_new-Sets entries entries' row prepared h =
    elim (Option-cases (lookup row.request_slot entries)) [
      | inr (e, there) ↦ absurd (ground (arith, there))
      | inl fresh ↦ (new_entry row prepared, ground (arith, fresh), refl, λ e there. absurd (cc))
    ]

pub apply_delta-Sets :
    (entries entries' : Entries) (row : CachedRequestDelta) (prepared : Prepared)
    → apply_delta entries row prepared ≡ ok entries'
    → Sets entries entries' row.request_slot row.request_epoch
unfolding apply_delta
apply_delta-Sets entries entries' row prepared h =
    elim (Option-cases (lookup row.request_slot entries)) [
      | inl fresh ↦ absurd (ground (arith, fresh))
      | inr (e, there) ↦
          elim (Result-cases (check_moves e row.request_epoch row.round_id row.op_seq)) [
            | inr (_, failed) ↦ absurd (ground (arith, there, failed))
            | inl (tt, forward) ↦
                let new = delta_entry e row prepared in
                let later =
                  check_moves-IsLater e new row.request_epoch row.round_id row.op_seq forward refl
                    refl refl in
                (
                  new,
                  ground (arith, there, forward),
                  refl,
                  of_cached row.request_slot entries e new there later,
                )
          ]
    ]

pub apply_target_prefill-Sets :
    (entries entries' : Entries) (command : TargetPrefillBatchCommand) (row : TargetPrefillRequest)
    → apply_target_prefill entries command row ≡ ok entries'
    → Sets entries entries' row.request_slot row.request_epoch
unfolding apply_target_prefill
apply_target_prefill-Sets entries entries' command row h =
    elim (Option-cases (lookup row.request_slot entries)) [
      | inr (e, there) ↦ absurd (ground (arith, there))
      | inl fresh ↦ (prefill_entry command row, ground (arith, fresh), refl, λ e there. absurd (cc))
    ]

pub apply_target_prepare-Sets :
    (entries entries' : Entries) (command : PrepareTargetBankCommand) (row : TargetPrepareRequest)
    → apply_target_prepare entries command row ≡ ok entries'
    → Sets entries entries' row.request_slot row.request_epoch
unfolding apply_target_prepare
apply_target_prepare-Sets entries entries' command row h =
    elim (Option-cases (lookup row.request_slot entries)) [
      | inl fresh ↦ (first_arrival command row, ground (arith, fresh), refl, λ e there. absurd (cc))
      | inr (e, there) ↦
          elim (Result-cases (check_moves e row.request_epoch row.round_id row.op_seq)) [
            | inr (_, failed) ↦ absurd (ground (arith, there, failed))
            | inl (tt, forward) ↦
                let new = prepared_entry e command row in
                let later =
                  check_moves-IsLater e new row.request_epoch row.round_id row.op_seq forward refl
                    refl refl in
                (
                  new,
                  ground (arith, there, forward),
                  refl,
                  of_cached row.request_slot entries e new there later,
                )
          ]
    ]

pub apply_run-Sets :
    (entries entries' : Entries) (command : RunTargetBatchCommand) (row : RunRow)
    → apply_run entries command row ≡ ok entries'
    → Sets entries entries' (run_slot row) (run_epoch row)
unfolding apply_run
apply_run-Sets entries entries' command row h =
    elim (Option-cases (lookup (run_slot row) entries)) [
      | inl fresh ↦ absurd (ground (arith, fresh))
      | inr (e, there) ↦
          elim (Result-cases
            (operation_is_newer (run_round row) (run_seq row) e.last_round_id e.last_op_seq)) [
              | inr (_, failed) ↦ absurd (ground (arith, there, failed))
              | inl (false, older) ↦ absurd (ground (arith, there, older))
              | inl (true, newer) ↦
                  let new = run_entry e row in
                  let same : e.request_epoch ≡ run_epoch row = ground (arith, there, newer) in
                  (
                    new,
                    ground (arith, there, newer),
                    refl,
                    of_cached (run_slot row) entries e new there (sym same, moves stays newer),
                  )
            ]
    ]

-- The rows of one command, one after the other: what each of them keeps, all of them keep.
pub each-preserves {ℓ κ} :
    {Row : Type ℓ} (Property : Entries → Type κ) (change : Entries → Row → Result Entries)
    → ((before after : Entries) (row : Row)
        → change before row ≡ ok after
        → Property before
        → Property after)
    → (entries entries' : Entries) (rows : List Row) → each change entries rows ≡ ok entries'
    → Property entries
    → Property entries'
unfolding each
each-preserves Property change kept entries entries' [] h start =
    let same : entries ≡ entries' = ground arith in subst Property same start
each-preserves Property change kept entries entries' (row ∷ rows) h start =
    elim (Result-cases (change entries row)) [
      | inr (_, failed) ↦ absurd (ground (arith, failed))
      | inl (next, changed) ↦
          each-preserves Property change kept next entries' rows (ground (arith, changed))
            (kept entries next row changed start)
    ]

pub each-Keeps {ℓ} :
    {Row : Type ℓ} (change : Entries → Row → Result Entries)
    → ((before after : Entries) (row : Row) → change before row ≡ ok after → Keeps before after)
    → (entries entries' : Entries) (rows : List Row) → each change entries rows ≡ ok entries'
    → Keeps entries entries'
each-Keeps change kept entries entries' rows h =
    each-preserves (Keeps entries) change
      (λ before after row changed so_far.
        Keeps-trans entries before after so_far (kept before after row changed))
      entries entries' rows h (Keeps-refl entries)
