-- ===== src/Ipc/Protocol/Cache/OneRun.antt =====
-- A prepared Target batch runs at most once in nebulasd/src/nebulasd/ipc/protocol.py.
use nebula_sd.Common.{
  ℕ, ◌≡◌, ◌≢◌, ap, sym, subst, true, false, List, [], ◌∷◌, ok, arith, inl, inr, Result-cases,
  Option-cases, Bool-cases, ◌==◌, value_or_lem, map,
}
use nebula_sd.Common.Assoc.{lookup, insert, lookup-insert, lookup-insert_self}
use nebula_sd.Ipc.DraftProtocol.Contract.{accept_prepare, accept_run}
use nebula_sd.Ipc.Protocol.Commands.{
  HotCommand, prepare_draft, run_draft, draft_batch, prefill_batch, prepare_batch, run_batch,
  RunTargetBatchCommand, DraftBatchCommand, TargetPrefillBatchCommand, PrepareTargetBankCommand,
  validate_lists, key_of_prefill, key_of_prepare,
}
use nebula_sd.Ipc.Protocol.Cache.Rows.{
  unprepared, apply_new, apply_delta, apply_target_prefill, apply_target_prepare, apply_run,
}
use nebula_sd.Ipc.Protocol.Cache.Batches.{
  PreparedBatchState, Batches, Tables, each, remove_entry, is_waiting, check_prepared,
  checked_state, mark_consumed, apply_draft_batch, apply_prefill_batch, apply_prepare_batch,
  apply_run_batch,
}
use nebula_sd.Ipc.Protocol.Cache.{
  WorkerCommandCache, apply, tables_of, dispatch, discard_prepared, discard_draft_prepare,
}
use nebula_sd.Ipc.Protocol.Cache.Members.{checked_state_lem, mark_consumed-consumed}
use nebula_sd.Ipc.Protocol.Cache.Calls.{
  Call, applies, discards, discards_draft, step, run, apply-dispatch, apply_draft-tables,
  apply_tables-tables,
}

-- In the bank no batch waits to run.
abbrev Settled : ℕ → Batches → Type 0
Settled bank_id batches = is_waiting bank_id batches ≡ false

insert-Settled :
    (bank_id at : ℕ) (batch : PreparedBatchState) (batches : Batches)
    → (at ≡ bank_id → batch.consumed ≡ true)
    → Settled bank_id batches
    → Settled bank_id (insert at batch batches)
unfolding is_waiting
insert-Settled bank_id at batch batches ran settled = elim (Bool-cases (at == bank_id)) [
  | inl same ↦
      let key : at ≡ bank_id = ground (arith, same) in
      ground (arith, same, ran key, lookup-insert at bank_id batch batches)
  | inr other ↦ ground (arith, other, settled, lookup-insert at bank_id batch batches)
]

-- What the branches do to the batches.
draft_batch-batches :
    (t t' : Tables) (c : DraftBatchCommand) → apply_draft_batch t c ≡ ok t' → t'.batches ≡ t.batches
unfolding apply_draft_batch
draft_batch-batches t t' c h = elim (Result-cases (validate_lists c)) [
  | inr (_, failed) ↦ absurd (ground (arith, failed))
  | inl (tt, listed) ↦
      elim (Result-cases
        (each (λ entries row. apply_new entries row unprepared) t.entries c.new_requests)) [
          | inr (_, failed) ↦ absurd (ground (arith, listed, failed))
          | inl (added, adds) ↦
              elim (Result-cases (
                each (λ entries row. apply_delta entries row unprepared) added
                  c.cached_request_deltas)) [
                    | inr (_, failed) ↦ absurd (ground (arith, listed, adds, failed))
                    | inl (changed, changes) ↦
                        elim (Result-cases
                          (each (remove_entry t.batches) changed c.removed_requests)) [
                            | inr (_, failed) ↦
                                absurd (ground (arith, listed, adds, changes, failed))
                            | inl (left, leaves) ↦ ground (arith, listed, adds, changes, leaves)
                          ]
                  ]
        ]
]

prefill_batch-batches :
    (t t' : Tables) (c : TargetPrefillBatchCommand)
    → apply_prefill_batch t c ≡ ok t'
    → (batch : PreparedBatchState) × (t'.batches ≡ insert c.bank_id batch t.batches)
      × (batch.consumed ≡ true)
unfolding apply_prefill_batch
prefill_batch-batches t t' c h =
    let wanted : PreparedBatchState = record {
      batch_seq = c.batch_seq;
      bank_id = c.bank_id;
      bank_epoch = c.bank_epoch;
      ordered_request_keys = map key_of_prefill c.requests;
      consumed = true;
    } in
    elim (Result-cases
      (each (λ entries row. apply_target_prefill entries c row) t.entries c.requests)) [
        | inr (_, failed) ↦ absurd (ground (arith, failed))
        | inl (entries, changes) ↦ elim (Result-cases (checked_state wanted)) [
          | inr (_, failed) ↦ absurd (ground (arith, changes, failed))
          | inl (batch, built) ↦ (
            batch,
            ground (arith, changes, built),
            ap (λ (b : PreparedBatchState). b.consumed) (checked_state_lem wanted batch built),
          )
        ]
      ]

prepare_batch-batches :
    (t t' : Tables) (c : PrepareTargetBankCommand)
    → apply_prepare_batch t c ≡ ok t'
    → (batch : PreparedBatchState) × (t'.batches ≡ insert c.standby_bank_id batch t.batches)
unfolding apply_prepare_batch
prepare_batch-batches t t' c h =
    let wanted : PreparedBatchState = record {
      batch_seq = c.batch_seq;
      bank_id = c.standby_bank_id;
      bank_epoch = c.next_bank_epoch;
      ordered_request_keys = map key_of_prepare c.requests;
      consumed = false;
    } in
    elim (Result-cases
      (each (λ entries row. apply_target_prepare entries c row) t.entries c.requests)) [
        | inr (_, failed) ↦ absurd (ground (arith, failed))
        | inl (entries, changes) ↦ elim (Result-cases (checked_state wanted)) [
          | inr (_, failed) ↦ absurd (ground (arith, changes, failed))
          | inl (batch, built) ↦ (batch, ground (arith, changes, built))
        ]
      ]

run_batch-batches :
    (t t' : Tables) (c : RunTargetBatchCommand)
    → apply_run_batch t c ≡ ok t'
    → (is_waiting c.active_bank_id t.batches ≡ true)
      × (batch : PreparedBatchState) × (t'.batches ≡ insert c.active_bank_id batch t.batches)
      × (batch.consumed ≡ true)
unfolding apply_run_batch check_prepared is_waiting
run_batch-batches t t' c h = elim (Option-cases (lookup c.active_bank_id t.batches)) [
  | inl nothing ↦ absurd (ground (arith, nothing))
  | inr (batch, there) ↦ elim (Result-cases (check_prepared batch c)) [
    | inr (_, failed) ↦ absurd (ground (arith, there, failed))
    | inl (tt, passed) ↦
        elim (Result-cases (each (λ entries row. apply_run entries c row) t.entries c.requests)) [
          | inr (_, failed) ↦ absurd (ground (arith, there, passed, failed))
          | inl (entries, changes) ↦ elim (Result-cases (mark_consumed batch)) [
            | inr (_, failed) ↦ absurd (ground (arith, there, passed, changes, failed))
            | inl (marked, built) ↦ (
              ground (arith, there, passed),
              marked,
              ground (arith, there, passed, changes, built),
              mark_consumed-consumed batch marked built,
            )
          ]
        ]
  ]
]

-- A call that does not prepare a batch in the bank.
abbrev pub Spares : ℕ → Call → Type 0
Spares bank_id (applies (prepare_batch c)) = c.standby_bank_id ≢ bank_id
Spares bank_id (applies (prepare_draft c)) = Unit {0}
Spares bank_id (applies (run_draft c)) = Unit {0}
Spares bank_id (applies (draft_batch c)) = Unit {0}
Spares bank_id (applies (prefill_batch c)) = Unit {0}
Spares bank_id (applies (run_batch c)) = Unit {0}
Spares bank_id (discards b e s) = Unit {0}
Spares bank_id (discards_draft b e s) = Unit {0}

abbrev pub AllSpare : ℕ → List Call → Type 0
AllSpare bank_id [] = Unit {0}
AllSpare bank_id (call ∷ calls) = Spares bank_id call × AllSpare bank_id calls

dispatch-Settled :
    (bank_id : ℕ) (cache cache' : WorkerCommandCache) (command : HotCommand)
    → dispatch cache command ≡ ok cache'
    → Spares bank_id (applies command)
    → Settled bank_id cache.prepared_batches
    → Settled bank_id cache'.prepared_batches
unfolding dispatch
dispatch-Settled bank_id cache cache' (prepare_draft c) h spares settled =
    subst (λ (t : Tables). Settled bank_id t.batches)
      (apply_draft-tables cache cache' (accept_prepare cache.draft_prepared c) c.command_seq h)
      settled
dispatch-Settled bank_id cache cache' (run_draft c) h spares settled =
    subst (λ (t : Tables). Settled bank_id t.batches)
      (apply_draft-tables cache cache' (accept_run cache.draft_prepared c) c.command_seq h) settled
dispatch-Settled bank_id cache cache' (draft_batch c) h spares settled =
    let e =
      draft_batch-batches (tables_of cache) (tables_of cache') c (
        apply_tables-tables cache cache' (apply_draft_batch (tables_of cache) c) c.command_seq h) in
    subst (Settled bank_id) (sym e) settled
dispatch-Settled bank_id cache cache' (prefill_batch c) h spares settled =
    let e = prefill_batch-batches (tables_of cache) (tables_of cache') c (
      apply_tables-tables cache cache' (apply_prefill_batch (tables_of cache) c) c.command_seq h) in
    subst (Settled bank_id) (sym e.1)
      (insert-Settled bank_id c.bank_id e.0 cache.prepared_batches (λ at. e.2) settled)
dispatch-Settled bank_id cache cache' (prepare_batch c) h spares settled =
    let e = prepare_batch-batches (tables_of cache) (tables_of cache') c (
      apply_tables-tables cache cache' (apply_prepare_batch (tables_of cache) c) c.command_seq h) in
    subst (Settled bank_id) (sym e.1) (
      insert-Settled bank_id c.standby_bank_id e.0 cache.prepared_batches (λ at. absurd (spares at))
        settled)
dispatch-Settled bank_id cache cache' (run_batch c) h spares settled =
    let e =
      run_batch-batches (tables_of cache) (tables_of cache') c
        (apply_tables-tables cache cache' (apply_run_batch (tables_of cache) c) c.command_seq h) in
    subst (Settled bank_id) (sym e.2)
      (insert-Settled bank_id c.active_bank_id e.1 cache.prepared_batches (λ at. e.3) settled)

discard_prepared-Settled :
    (bank_id : ℕ) (cache cache' : WorkerCommandCache) (at bank_epoch batch_seq : ℕ)
    → discard_prepared cache at bank_epoch batch_seq ≡ ok cache'
    → Settled bank_id cache.prepared_batches
    → Settled bank_id cache'.prepared_batches
unfolding discard_prepared
discard_prepared-Settled bank_id cache cache' at bank_epoch batch_seq h settled =
    elim (Option-cases (lookup at cache.prepared_batches)) [
      | inl nothing ↦ absurd (ground (arith, nothing))
      | inr (batch, there) ↦ elim (Result-cases (mark_consumed batch)) [
        | inr (_, failed) ↦ absurd (ground (arith, there, failed))
        | inl (marked, built) ↦
            let after : insert at marked cache.prepared_batches ≡ cache'.prepared_batches =
              ground (arith, there, built) in
            subst (Settled bank_id) after (
              insert-Settled bank_id at marked cache.prepared_batches
                (λ same. mark_consumed-consumed batch marked built) settled)
      ]
    ]

run-Settled :
    (bank_id : ℕ) (cache : WorkerCommandCache) (calls : List Call)
    → AllSpare bank_id calls
    → Settled bank_id cache.prepared_batches
    → Settled bank_id (run cache calls).prepared_batches
unfolding discard_draft_prepare
run-Settled bank_id cache [] spare settled = settled
run-Settled bank_id cache (applies command ∷ calls) spare settled =
    run-Settled bank_id (step cache (applies command)) calls spare.1 (
      value_or_lem (λ (c : WorkerCommandCache). Settled bank_id c.prepared_batches) cache
        (apply cache command) settled
        (λ next applied.
          dispatch-Settled bank_id cache next command (apply-dispatch cache next command applied).1
            spare.0 settled))
run-Settled bank_id cache (discards b e s ∷ calls) spare settled =
    run-Settled bank_id (step cache (discards b e s)) calls spare.1 (
      value_or_lem (λ (c : WorkerCommandCache). Settled bank_id c.prepared_batches) cache
        (discard_prepared cache b e s) settled
        (λ next done. discard_prepared-Settled bank_id cache next b e s done settled))
run-Settled bank_id cache (discards_draft b e s ∷ calls) spare settled =
    run-Settled bank_id (step cache (discards_draft b e s)) calls spare.1 settled

dispatch_run-waiting :
    (cache cache' : WorkerCommandCache) (c : RunTargetBatchCommand)
    → dispatch cache (run_batch c) ≡ ok cache'
    → (is_waiting c.active_bank_id cache.prepared_batches ≡ true)
      × Settled c.active_bank_id cache'.prepared_batches
unfolding dispatch is_waiting
dispatch_run-waiting cache cache' c h =
    let e =
      run_batch-batches (tables_of cache) (tables_of cache') c
        (apply_tables-tables cache cache' (apply_run_batch (tables_of cache) c) c.command_seq h) in
    let found = lookup-insert_self c.active_bank_id e.1 cache.prepared_batches in
    (e.0, ground (arith, e.2, e.3, found))

-- A RUN_TARGET_BATCH that is applied found a batch waiting in its bank; after it and any calls
-- that prepare nothing in that bank, those that raise included, no run of the bank is applied.
pub apply_run_once :
    (cache cache' : WorkerCommandCache) (first second : RunTargetBatchCommand) (calls : List Call)
    → apply cache (run_batch first) ≡ ok cache'
    → AllSpare first.active_bank_id calls
    → second.active_bank_id ≡ first.active_bank_id
    → (is_waiting first.active_bank_id cache.prepared_batches ≡ true)
      × ((last : WorkerCommandCache) → apply (run cache' calls) (run_batch second) ≢ ok last)
apply_run_once cache cache' first second calls applied spare same =
    let d =
      dispatch_run-waiting cache cache' first
        (apply-dispatch cache cache' (run_batch first) applied).1 in
    let settled = run-Settled first.active_bank_id cache' calls spare d.1 in
    (
      d.0,
      λ last again.
          let w =
            dispatch_run-waiting (run cache' calls) last second
              (apply-dispatch (run cache' calls) last (run_batch second) again).1 in
          absurd (cc),
    )
