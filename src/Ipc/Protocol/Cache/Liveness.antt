-- ===== src/Ipc/Protocol/Cache/Liveness.antt =====
-- The run of a batch that was just prepared is applied, in nebulasd/src/nebulasd/ipc/protocol.py.
use nebula_sd.Common.{
  ℕ, ◌≡◌, ap, ◌∙◌, true, false, [], map, some, ok, arith, inl, inr, Result-cases,
}
use nebula_sd.Common.Assoc.{lookup, insert, lookup-insert_self}
use nebula_sd.Core.Ids.{u64, is_newer}
use nebula_sd.Ipc.Protocol.Keys.{unique_keys}
use nebula_sd.Ipc.Protocol.Commands.{
  PrepareTargetBankCommand, RunTargetBatchCommand, prepare_batch, run_batch, key_of_prepare,
  checked_prepare_batch,
}
use nebula_sd.Ipc.Protocol.Cache.Rows.{apply_target_prepare}
use nebula_sd.Ipc.Protocol.Cache.Batches.{
  PreparedBatchState, Tables, each, checked_state, check_prepared, apply_prepare_batch,
  apply_run_batch,
}
use nebula_sd.Ipc.Protocol.Cache.{
  WorkerCommandCache, apply, apply_tables, tables_of, follows, validate_command, dispatch,
}
use nebula_sd.Ipc.Protocol.Cache.Progress.{
  Unique, unique_keys-Unique, AllPrepared, prepare_rows_lem, AreRunsOf, IsSameBatch, run_rows_lem,
  same_keys_lem, mark_consumed_lem,
}
use nebula_sd.Ipc.Protocol.Cache.Members.{checked_state_lem}
use nebula_sd.Ipc.Protocol.Cache.Calls.{apply-dispatch}

abbrev waiting_batch : PrepareTargetBankCommand → PreparedBatchState
waiting_batch c = record {
  batch_seq = c.batch_seq;
  bank_id = c.standby_bank_id;
  bank_epoch = c.next_bank_epoch;
  ordered_request_keys = map key_of_prepare c.requests;
  consumed = false;
}

prepare_batch_lem :
    (t t' : Tables) (c : PrepareTargetBankCommand)
    → apply_prepare_batch t c ≡ ok t'
    → (each (λ es row. apply_target_prepare es c row) t.entries c.requests ≡ ok t'.entries)
      × (lookup c.standby_bank_id t'.batches ≡ some (waiting_batch c))
      × (checked_state (waiting_batch c) ≡ ok (waiting_batch c))
unfolding apply_prepare_batch
prepare_batch_lem t t' c h =
    elim (Result-cases
      (each (λ entries row. apply_target_prepare entries c row) t.entries c.requests)) [
        | inr (_, failed) ↦ absurd (ground (arith, failed))
        | inl (entries, changes) ↦ elim (Result-cases (checked_state (waiting_batch c))) [
          | inr (_, failed) ↦ absurd (ground (arith, changes, failed))
          | inl (batch, passed) ↦
              let same = checked_state_lem (waiting_batch c) batch passed in
              let entries_at : entries ≡ t'.entries = ground (arith, changes, passed) in
              let batches_at : t'.batches ≡ insert c.standby_bank_id batch t.batches =
                ground (arith, changes, passed) in
              (
                changes ∙ ap ok entries_at,
                ap (lookup c.standby_bank_id) batches_at
                    ∙ (lookup-insert_self c.standby_bank_id batch t.batches ∙ ap some same),
                passed ∙ ap ok same,
              )
        ]
      ]

run_batch_lem :
    (t : Tables) (prepare : PrepareTargetBankCommand) (run : RunTargetBatchCommand)
    → lookup prepare.standby_bank_id t.batches ≡ some (waiting_batch prepare)
    → checked_state (waiting_batch prepare) ≡ ok (waiting_batch prepare)
    → IsSameBatch prepare run
    → AreRunsOf prepare.requests run.requests
    → Unique (map key_of_prepare prepare.requests)
    → AllPrepared prepare t.entries prepare.requests
    → (t' : Tables) × (apply_run_batch t run ≡ ok t')
unfolding apply_run_batch check_prepared
run_batch_lem t prepare run there passed same matching unique h =
    let keys = same_keys_lem prepare.requests run.requests matching in
    let rows =
      run_rows_lem prepare run t.entries prepare.requests run.requests same matching unique h in
    let marked = mark_consumed_lem (waiting_batch prepare) passed in
    let found : lookup run.active_bank_id t.batches ≡ some (waiting_batch prepare) =
      ap (λ b. lookup b t.batches) same.3 ∙ there in
    let checked : check_prepared (waiting_batch prepare) run ≡ ok tt = ground (arith, keys, same) in
    (
      record {
        entries = rows.0;
        batches =
            insert run.active_bank_id (record (waiting_batch prepare) { consumed = true })
              t.batches;
      },
      ground (arith, found, checked, rows.1, marked),
    )

checked_prepare_batch-Unique :
    (c : PrepareTargetBankCommand)
    → checked_prepare_batch c ≡ ok c
    → Unique (map key_of_prepare c.requests)
unfolding checked_prepare_batch
checked_prepare_batch-Unique c passed =
    elim (Result-cases (unique_keys [] (map key_of_prepare c.requests))) [
      | inr (_, failed) ↦ absurd (ground (arith, failed))
      | inl (keys, found) ↦ (unique_keys-Unique [] (map key_of_prepare c.requests) keys found).1
    ]

-- What stays and what moves on in the cache when a prepare command is applied.
dispatch_prepare_lem :
    (cache cache' : WorkerCommandCache) (c : PrepareTargetBankCommand)
    → dispatch cache (prepare_batch c) ≡ ok cache'
    → (apply_prepare_batch (tables_of cache) c ≡ ok (tables_of cache'))
      × (cache'.worker_id ≡ cache.worker_id)
      × (cache'.worker_generation ≡ cache.worker_generation)
      × (cache'.last_command_seq ≡ some c.command_seq)
unfolding dispatch apply_tables
dispatch_prepare_lem cache cache' c h =
    elim (Result-cases (apply_prepare_batch (tables_of cache) c)) [
      | inr (_, failed) ↦ absurd (ground (arith, failed))
      | inl (tables, passed) ↦
          let at : tables ≡ tables_of cache' = ground (arith, passed) in
          (
            passed ∙ ap ok at,
            ground (arith, passed),
            ground (arith, passed),
            ground (arith, passed),
          )
    ]

validate_command_lem :
    (cache : WorkerCommandCache) (c : PrepareTargetBankCommand)
    → validate_command cache (prepare_batch c) ≡ ok tt
    → (c.worker_id ≡ cache.worker_id) × (c.target_generation ≡ cache.worker_generation)
unfolding validate_command
validate_command_lem cache c h = (ground arith, ground arith)

validate_run_lem :
    (cache : WorkerCommandCache) (c : RunTargetBatchCommand) (last : ℕ)
    → c.worker_id ≡ cache.worker_id
    → c.target_generation ≡ cache.worker_generation
    → cache.last_command_seq ≡ some last
    → is_newer u64 c.command_seq last ≡ ok true
    → validate_command cache (run_batch c) ≡ ok tt
unfolding validate_command follows
validate_run_lem cache c last worker generation before newer =
    ground (arith, worker, generation, before, newer)

dispatch_run_lem :
    (cache : WorkerCommandCache) (c : RunTargetBatchCommand) (tables : Tables)
    → apply_run_batch (tables_of cache) c ≡ ok tables
    → (last : WorkerCommandCache) × (dispatch cache (run_batch c) ≡ ok last)
unfolding dispatch apply_tables
dispatch_run_lem cache c tables h = (
  record cache {
    entries = tables.entries;
    prepared_batches = tables.batches;
    last_command_seq = some c.command_seq;
  },
  ap (λ r. apply_tables cache r c.command_seq) h,
)

-- A prepare command that passes its constructor's tests is applied to a worker's cache; then a run
-- of the same batch is applied next: one for the same worker, generation, batch, bank and bank
-- epoch, with a newer command number, that names the same requests in order, each with a newer
-- operation.
pub apply_run-prepared :
    (cache cache' : WorkerCommandCache) (prepare : PrepareTargetBankCommand)
    (run : RunTargetBatchCommand)
    → checked_prepare_batch prepare ≡ ok prepare
    → apply cache (prepare_batch prepare) ≡ ok cache'
    → IsSameBatch prepare run
    → AreRunsOf prepare.requests run.requests
    → is_newer u64 run.command_seq prepare.command_seq ≡ ok true
    → (last : WorkerCommandCache) × (apply cache' (run_batch run) ≡ ok last)
unfolding apply
apply_run-prepared cache cache' prepare run built applied same matching newer =
    let a = apply-dispatch cache cache' (prepare_batch prepare) applied in
    let d = dispatch_prepare_lem cache cache' prepare a.1 in
    let v = validate_command_lem cache prepare a.0 in
    let p = prepare_batch_lem (tables_of cache) (tables_of cache') prepare d.0 in
    let unique = checked_prepare_batch-Unique prepare built in
    let rows = prepare_rows_lem prepare cache.entries cache'.entries prepare.requests p.0 unique in
    let r = run_batch_lem (tables_of cache') prepare run p.1 p.2 same matching unique rows in
    let worker : run.worker_id ≡ cache'.worker_id = cc in
    let generation : run.target_generation ≡ cache'.worker_generation = cc in
    let valid = validate_run_lem cache' run prepare.command_seq worker generation d.3 newer in
    let done = dispatch_run_lem cache' run r.0 r.1 in (done.0, ground (arith, valid, done.1))
