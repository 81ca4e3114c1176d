-- ===== src/Ipc/Protocol/Cache/Reach.antt =====
-- The commands on a worker's cache of nebulasd/src/nebulasd/ipc/protocol.py keep the members of the
-- batches that wait, and move each request forward.
use nebula_sd.Common.{
  ℕ, ◌≡◌, ap, ◌∙◌, sym, subst, true, false, List, map, some, ok, Result, arith, inl, inr,
  Result-cases, Option-cases, Bool-cases, ◌==◌,
}
use nebula_sd.Common.Assoc.{
  lookup, insert, remove, Distinct, Distinct-insert, Distinct-remove, lookup-remove_ne,
  lookup-remove_self,
}
use nebula_sd.Ipc.Protocol.Rows.{RemovedRequest}
use nebula_sd.Ipc.Protocol.Commands.{
  DraftBatchCommand, TargetPrefillBatchCommand, PrepareTargetBankCommand, RunTargetBatchCommand,
  validate_lists, key_of_prefill, key_of_prepare, run_slot, run_epoch,
}
use nebula_sd.Ipc.Protocol.Cache.Rows.{
  WorkerRequestCacheEntry, Entries, unprepared, apply_new, apply_delta, apply_target_prefill,
  apply_target_prepare, apply_run,
}
use nebula_sd.Ipc.Protocol.Cache.Batches.{
  PreparedBatchState, Batches, Tables, each, checked_state, mark_consumed, remove_entry,
  check_removed, check_prepared, apply_draft_batch, apply_prefill_batch, apply_prepare_batch,
  apply_run_batch,
}
use nebula_sd.Ipc.Protocol.Cache.Advance.{
  Keeps, Keeps-refl, Keeps-trans, Sets, Sets-Keeps, IsLater, each-preserves, apply_new-Sets,
  apply_delta-Sets, apply_target_prefill-Sets, apply_target_prepare-Sets, apply_run-Sets,
}
use nebula_sd.Ipc.Protocol.Cache.Members.{
  AllCached, IsComplete, Keeps-IsComplete, insert-IsComplete, remove_entry-IsComplete,
  prepare-AllCached, checked_state_lem, mark_consumed-consumed,
}

-- Each slot has one entry, and the waiting batches have all their members.
abbrev pub IsWhole : Tables → Type 0
IsWhole t = Distinct t.entries × IsComplete t.entries t.batches

-- Each request that is in both is as it was or later.
abbrev pub Follows : Entries → Entries → Type 0
Follows before after =
    (slot : ℕ) (e e' : WorkerRequestCacheEntry)
    → lookup slot before ≡ some e
    → lookup slot after ≡ some e'
    → IsLater e e'

-- One row: one key a slot still, and nothing lost.
abbrev Moves : Entries → Entries → Type 0
Moves before after = (Distinct before → Distinct after) × Keeps before after

Sets-Moves :
    (before after : Entries) (slot epoch : ℕ) → Sets before after slot epoch → Moves before after
Sets-Moves before after slot epoch sets = (
  λ one. subst Distinct (sym sets.1) (Distinct-insert slot sets.0 before one),
  Sets-Keeps before after slot epoch sets,
)

each-Moves {ℓ} :
    {Row : Type ℓ} (change : Entries → Row → Result Entries)
    → ((before after : Entries) (row : Row) → change before row ≡ ok after → Moves before after)
    → (entries entries' : Entries) (rows : List Row) → each change entries rows ≡ ok entries'
    → Moves entries entries'
each-Moves change kept entries entries' rows h =
    each-preserves (Moves entries) change
      (λ before after row changed so_far.
        let k = kept before after row changed in
        (λ one. k.0 (so_far.0 one), Keeps-trans entries before after so_far.1 k.1))
      entries entries' rows h (λ one. one, Keeps-refl entries)

pub Keeps-Follows : (before after : Entries) → Keeps before after → Follows before after
Keeps-Follows before after kept slot e e' there there' =
    let k = kept slot e there in let same : k.0 ≡ e' = cc in subst (IsLater e) same k.2

-- What a branch of `apply` does to a sound pair of dicts.
abbrev pub Advances : Tables → Tables → Type 0
Advances t t' = IsWhole t' × Follows t.entries t'.entries

remove_entry-Follows :
    (batches : Batches) (start entries entries' : Entries) (row : RemovedRequest)
    → remove_entry batches entries row ≡ ok entries'
    → Distinct entries
    → Follows start entries
    → Distinct entries' × Follows start entries'
unfolding remove_entry
remove_entry-Follows batches start entries entries' row h one so_far =
    elim (Result-cases (check_removed (lookup row.request_slot entries) row.request_epoch)) [
      | inr (_, failed) ↦ absurd (ground (arith, failed))
      | inl (tt, passed) ↦
          let at : remove row.request_slot entries ≡ entries' = ground (arith, passed) in
          (
            subst Distinct at (Distinct-remove row.request_slot entries one),
            λ slot e e' there there'. elim (Bool-cases (row.request_slot == slot)) [
              | inl same ↦
                  let gone = lookup-remove_self row.request_slot entries one in
                  let key : row.request_slot ≡ slot = ground (arith, same) in
                  let at_key = ap (λ k. lookup k (remove row.request_slot entries)) key in
                  let at_table = ap (lookup slot) at in absurd (cc)
              | inr other ↦
                  let apart =
                    lookup-remove_ne row.request_slot slot entries
                      (λ same. ground (arith, other, same)) in
                  let at_table = ap (lookup slot) at in
                  so_far slot e e' there (sym apart ∙ (at_table ∙ there'))
            ],
          )
    ]

removals_lem :
    (batches : Batches) (start entries entries' : Entries) (rows : List RemovedRequest)
    → each (remove_entry batches) entries rows ≡ ok entries'
    → Distinct entries × IsComplete entries batches × Follows start entries
    → Distinct entries' × IsComplete entries' batches × Follows start entries'
removals_lem batches start entries entries' rows h now =
    each-preserves (λ es. Distinct es × IsComplete es batches × Follows start es)
      (remove_entry batches)
      (λ before after row changed held.
        let f = remove_entry-Follows batches start before after row changed held.0 held.2 in
        (f.0, remove_entry-IsComplete batches before after row changed held.1, f.1))
      entries entries' rows h now

pub apply_draft_batch-Advances :
    (t t' : Tables) (command : DraftBatchCommand)
    → apply_draft_batch t command ≡ ok t'
    → IsWhole t
    → Advances t t'
unfolding apply_draft_batch
apply_draft_batch-Advances t t' command h sound = elim (Result-cases (validate_lists command)) [
  | inr (_, failed) ↦ absurd (ground (arith, failed))
  | inl (tt, listed) ↦
      elim (Result-cases
        (each (λ entries row. apply_new entries row unprepared) t.entries command.new_requests)) [
          | inr (_, failed) ↦ absurd (ground (arith, listed, failed))
          | inl (added, adds) ↦
              elim (Result-cases (
                each (λ entries row. apply_delta entries row unprepared) added
                  command.cached_request_deltas)) [
                    | inr (_, failed) ↦ absurd (ground (arith, listed, adds, failed))
                    | inl (changed, changes) ↦
                        elim (Result-cases
                          (each (remove_entry t.batches) changed command.removed_requests)) [
                            | inr (_, failed) ↦
                                absurd (ground (arith, listed, adds, changes, failed))
                            | inl (left, leaves) ↦
                                let at : record t { entries = left } ≡ t' =
                                  ground (arith, listed, adds, changes, leaves) in
                                let new =
                                  each-Moves (λ entries row. apply_new entries row unprepared)
                                    (λ b a row done.
                                      Sets-Moves b a row.request_slot row.request_epoch
                                        (apply_new-Sets b a row unprepared done))
                                    t.entries added command.new_requests adds in
                                let moved =
                                  each-Moves (λ entries row. apply_delta entries row unprepared)
                                    (λ b a row done.
                                      Sets-Moves b a row.request_slot row.request_epoch
                                        (apply_delta-Sets b a row unprepared done))
                                    added changed command.cached_request_deltas changes in
                                let kept = Keeps-trans t.entries added changed new.1 moved.1 in
                                let f =
                                  removals_lem t.batches t.entries changed left
                                    command.removed_requests leaves
                                    (
                                      moved.0 (new.0 sound.0),
                                      Keeps-IsComplete t.entries changed t.batches kept sound.1,
                                      Keeps-Follows t.entries changed kept,
                                    ) in
                                subst (Advances t) at ((f.0, f.1), f.2)
                          ]
                  ]
        ]
]

-- The branches that put a batch in a bank, once the rows have moved.
settled_lem :
    (t : Tables) (entries : Entries) (bank_id : ℕ) (batch : PreparedBatchState)
    → IsWhole t
    → Moves t.entries entries
    → (batch.consumed ≡ false → AllCached entries batch.ordered_request_keys)
    → Advances t (record { entries = entries; batches = insert bank_id batch t.batches })
settled_lem t entries bank_id batch sound moved members = (
  (
    moved.0 sound.0,
    insert-IsComplete entries t.batches bank_id batch members
        (Keeps-IsComplete t.entries entries t.batches moved.1 sound.1),
  ),
  Keeps-Follows t.entries entries moved.1,
)

pub apply_prefill_batch-Advances :
    (t t' : Tables) (command : TargetPrefillBatchCommand)
    → apply_prefill_batch t command ≡ ok t'
    → IsWhole t
    → Advances t t'
unfolding apply_prefill_batch
apply_prefill_batch-Advances t t' command h sound =
    let wanted : PreparedBatchState = record {
      batch_seq = command.batch_seq;
      bank_id = command.bank_id;
      bank_epoch = command.bank_epoch;
      ordered_request_keys = map key_of_prefill command.requests;
      consumed = true;
    } in
    elim (Result-cases
      (each (λ entries row. apply_target_prefill entries command row) t.entries command.requests)) [
        | inr (_, failed) ↦ absurd (ground (arith, failed))
        | inl (entries, changes) ↦ elim (Result-cases (checked_state wanted)) [
          | inr (_, failed) ↦ absurd (ground (arith, changes, failed))
          | inl (batch, built) ↦
              let at : record {
                entries = entries;
                batches = insert command.bank_id batch t.batches;
              }
                  ≡ t' =
                ground (arith, changes, built) in
              let ran : batch.consumed ≡ true =
                ap (λ (b : PreparedBatchState). b.consumed)
                  (checked_state_lem wanted batch built) in
              let moved =
                each-Moves (λ entries row. apply_target_prefill entries command row)
                  (λ b a row done.
                    Sets-Moves b a row.request_slot row.request_epoch
                      (apply_target_prefill-Sets b a command row done))
                  t.entries entries command.requests changes in
              subst (Advances t) at
                (settled_lem t entries command.bank_id batch sound moved (λ waits. absurd (cc)))
        ]
      ]

pub apply_prepare_batch-Advances :
    (t t' : Tables) (command : PrepareTargetBankCommand)
    → apply_prepare_batch t command ≡ ok t'
    → IsWhole t
    → Advances t t'
unfolding apply_prepare_batch
apply_prepare_batch-Advances t t' command h sound =
    let wanted : PreparedBatchState = record {
      batch_seq = command.batch_seq;
      bank_id = command.standby_bank_id;
      bank_epoch = command.next_bank_epoch;
      ordered_request_keys = map key_of_prepare command.requests;
      consumed = false;
    } in
    elim (Result-cases
      (each (λ entries row. apply_target_prepare entries command row) t.entries command.requests)) [
        | inr (_, failed) ↦ absurd (ground (arith, failed))
        | inl (entries, changes) ↦ elim (Result-cases (checked_state wanted)) [
          | inr (_, failed) ↦ absurd (ground (arith, changes, failed))
          | inl (batch, built) ↦
              let at : record {
                entries = entries;
                batches = insert command.standby_bank_id batch t.batches;
              }
                  ≡ t' =
                ground (arith, changes, built) in
              let keys : map key_of_prepare command.requests ≡ batch.ordered_request_keys =
                ap (λ (b : PreparedBatchState). b.ordered_request_keys)
                  (sym (checked_state_lem wanted batch built)) in
              let members = prepare-AllCached command t.entries entries command.requests changes in
              let moved =
                each-Moves (λ entries row. apply_target_prepare entries command row)
                  (λ b a row done.
                    Sets-Moves b a row.request_slot row.request_epoch
                      (apply_target_prepare-Sets b a command row done))
                  t.entries entries command.requests changes in
              subst (Advances t) at (
                settled_lem t entries command.standby_bank_id batch sound moved
                  (λ waits. subst (AllCached entries) keys members))
        ]
      ]

pub apply_run_batch-Advances :
    (t t' : Tables) (command : RunTargetBatchCommand)
    → apply_run_batch t command ≡ ok t'
    → IsWhole t
    → Advances t t'
unfolding apply_run_batch
apply_run_batch-Advances t t' command h sound =
    elim (Option-cases (lookup command.active_bank_id t.batches)) [
      | inl nothing ↦ absurd (ground (arith, nothing))
      | inr (batch, there) ↦ elim (Result-cases (check_prepared batch command)) [
        | inr (_, failed) ↦ absurd (ground (arith, there, failed))
        | inl (tt, passed) ↦
            elim (Result-cases
              (each (λ entries row. apply_run entries command row) t.entries command.requests)) [
                | inr (_, failed) ↦ absurd (ground (arith, there, passed, failed))
                | inl (entries, changes) ↦ elim (Result-cases (mark_consumed batch)) [
                  | inr (_, failed) ↦ absurd (ground (arith, there, passed, changes, failed))
                  | inl (marked, built) ↦
                      let at : record {
                        entries = entries;
                        batches = insert command.active_bank_id marked t.batches;
                      }
                          ≡ t' =
                        ground (arith, there, passed, changes, built) in
                      let ran = mark_consumed-consumed batch marked built in
                      let moved =
                        each-Moves (λ entries row. apply_run entries command row)
                          (λ b a row done.
                            Sets-Moves b a (run_slot row) (run_epoch row)
                              (apply_run-Sets b a command row done))
                          t.entries entries command.requests changes in
                      subst (Advances t) at (
                        settled_lem t entries command.active_bank_id marked sound moved
                          (λ waits. absurd (cc)))
                ]
              ]
      ]
    ]
