-- ===== src/Ipc/Protocol/Cache/Progress.antt =====
-- What a prepare command leaves of its rows in the worker's cache of
-- nebulasd/src/nebulasd/ipc/protocol.py, and that the rows of its run pass.
use nebula_sd.Common.{
  ℕ, ◌≡◌, ◌≢◌, ap, ◌∙◌, refl, sym, true, false, List, [], ◌∷◌, map, some, ok, arith, inl, inr,
  Result-cases, Option-cases,
}
use nebula_sd.Common.Assoc.{lookup, insert, lookup-insert, lookup-insert_self}
use nebula_sd.Ipc.Protocol.TargetRows.{TargetPrepareRequest}
use nebula_sd.Ipc.Protocol.Keys.{RequestKey, has_slot, unique_keys, operation_is_newer}
use nebula_sd.Ipc.Protocol.Commands.{
  PrepareTargetBankCommand, RunTargetBatchCommand, RunRow, run_slot, run_epoch, key_of_prepare,
  key_of_run,
}
use nebula_sd.Ipc.Protocol.Cache.Rows.{
  WorkerRequestCacheEntry, Entries, check_moves, first_arrival, prepared_entry, run_entry,
  run_round, run_seq, apply_target_prepare, apply_run,
}
use nebula_sd.Ipc.Protocol.Cache.Batches.{
  PreparedBatchState, each, check_keys, checked_state, mark_consumed, same_keys,
}

-- A slot that no key names, and keys that each name a slot of their own.
abbrev pub Absent : ℕ → List RequestKey → Type 0
Absent slot [] = Unit {0}
Absent slot (key ∷ keys) = (key.slot ≢ slot) × Absent slot keys

abbrev pub Unique : List RequestKey → Type 0
Unique [] = Unit {0}
Unique (key ∷ keys) = Absent key.slot keys × Unique keys

abbrev pub AllAbsent : List RequestKey → List RequestKey → Type 0
AllAbsent [] keys = Unit {0}
AllAbsent (s ∷ seen) keys = Absent s.slot keys × AllAbsent seen keys

more_lem :
    (k : RequestKey) (seen keys : List RequestKey)
    → has_slot k seen ≡ false
    → AllAbsent seen keys
    → AllAbsent seen (k ∷ keys)
unfolding has_slot
more_lem k [] keys fresh absent = tt
more_lem k (s ∷ seen) keys fresh absent =
    let rest : has_slot k seen ≡ false = ground arith in
    ((λ same. ground (arith, same, fresh), absent.0), more_lem k seen keys rest absent.1)

none_lem : (seen : List RequestKey) → AllAbsent seen []
none_lem [] = tt
none_lem (s ∷ seen) = (tt, none_lem seen)

pub unique_keys-Unique :
    (seen rows keys : List RequestKey)
    → unique_keys seen rows ≡ ok keys
    → AllAbsent seen rows × Unique rows
unfolding unique_keys
unique_keys-Unique seen [] keys h = (none_lem seen, tt)
unique_keys-Unique seen (k ∷ rows) keys h =
    let fresh : has_slot k seen ≡ false = ground arith in
    let rest : unique_keys (k ∷ seen) rows ≡ ok keys = ground arith in
    let later = unique_keys-Unique (k ∷ seen) rows keys rest in
    (more_lem k seen rows fresh later.0.1, (later.0.0, later.1))

-- An entry as the prepare command leaves it.
abbrev pub IsPrepared :
    PrepareTargetBankCommand → TargetPrepareRequest → WorkerRequestCacheEntry → Type 0
IsPrepared command row e =
    (e.request_epoch ≡ row.request_epoch)
    × (e.last_round_id ≡ row.round_id)
    × (e.last_op_seq ≡ row.op_seq)
    × (e.prepared_batch_seq ≡ some command.batch_seq)
    × (e.prepared_bank_id ≡ some command.standby_bank_id)
    × (e.prepared_bank_epoch ≡ some command.next_bank_epoch)

abbrev pub HasPrepared : PrepareTargetBankCommand → Entries → TargetPrepareRequest → Type 0
HasPrepared command entries row =
    (e : WorkerRequestCacheEntry) × (lookup row.request_slot entries ≡ some e)
    × IsPrepared command row e

abbrev pub AllPrepared : PrepareTargetBankCommand → Entries → List TargetPrepareRequest → Type 0
AllPrepared command entries [] = Unit {0}
AllPrepared command entries (row ∷ rows) =
    HasPrepared command entries row × AllPrepared command entries rows

-- A row sets one slot and no other.
prepare_row_lem :
    (command : PrepareTargetBankCommand) (entries next : Entries) (row : TargetPrepareRequest)
    → apply_target_prepare entries command row ≡ ok next
    → (new : WorkerRequestCacheEntry) × (next ≡ insert row.request_slot new entries)
      × IsPrepared command row new
unfolding apply_target_prepare
prepare_row_lem command entries next row h = elim (Option-cases (lookup row.request_slot entries)) [
  | inl fresh ↦
      (first_arrival command row, ground (arith, fresh), (refl, refl, refl, refl, refl, refl))
  | inr (e, there) ↦ elim (Result-cases (check_moves e row.request_epoch row.round_id row.op_seq)) [
    | inr (_, failed) ↦ absurd (ground (arith, there, failed))
    | inl (tt, forward) ↦ (
      prepared_entry e command row,
      ground (arith, there, forward),
      (refl, refl, refl, refl, refl, refl),
    )
  ]
]

lookup-insert_ne :
    (slot asked : ℕ) (e : WorkerRequestCacheEntry) (entries : Entries)
    → slot ≢ asked
    → lookup asked (insert slot e entries) ≡ lookup asked entries
lookup-insert_ne slot asked e entries apart = ground (arith, lookup-insert slot asked e entries)

prepare_rows_others :
    (command : PrepareTargetBankCommand) (entries next : Entries) (rows : List TargetPrepareRequest)
    (slot : ℕ)
    → each (λ es row. apply_target_prepare es command row) entries rows ≡ ok next
    → Absent slot (map key_of_prepare rows)
    → lookup slot next ≡ lookup slot entries
unfolding each
prepare_rows_others command entries next [] slot h absent =
    let same : entries ≡ next = ground arith in ap (lookup slot) (sym same)
prepare_rows_others command entries next (row ∷ rows) slot h absent =
    elim (Result-cases (apply_target_prepare entries command row)) [
      | inr (_, failed) ↦ absurd (ground (arith, failed))
      | inl (middle, changed) ↦
          let set = prepare_row_lem command entries middle row changed in
          prepare_rows_others command middle next rows slot (ground (arith, changed)) absent.1
          ∙ (ap (lookup slot) set.1 ∙ lookup-insert_ne row.request_slot slot set.0 entries absent.0)
    ]

pub prepare_rows_lem :
    (command : PrepareTargetBankCommand) (entries next : Entries) (rows : List TargetPrepareRequest)
    → each (λ es row. apply_target_prepare es command row) entries rows ≡ ok next
    → Unique (map key_of_prepare rows)
    → AllPrepared command next rows
unfolding each
prepare_rows_lem command entries next [] h unique = tt
prepare_rows_lem command entries next (row ∷ rows) h unique =
    elim (Result-cases (apply_target_prepare entries command row)) [
      | inr (_, failed) ↦ absurd (ground (arith, failed))
      | inl (middle, changed) ↦
          let set = prepare_row_lem command entries middle row changed in
          let rest : each (λ es r. apply_target_prepare es command r) middle rows ≡ ok next =
            ground (arith, changed) in
          let there =
            prepare_rows_others command middle next rows row.request_slot rest unique.0
            ∙ (ap (lookup row.request_slot) set.1
                ∙ lookup-insert_self row.request_slot set.0 entries) in
          ((set.0, there, set.2), prepare_rows_lem command middle next rows rest unique.1)
    ]

-- Side by side: the run names the same requests with newer operations.
abbrev pub IsRunOf : TargetPrepareRequest → RunRow → Type 0
IsRunOf row run =
    (run_slot run ≡ row.request_slot)
    × (run_epoch run ≡ row.request_epoch)
    × (operation_is_newer (run_round run) (run_seq run) row.round_id row.op_seq ≡ ok true)

abbrev pub AreRunsOf : List TargetPrepareRequest → List RunRow → Type 0
AreRunsOf [] [] = Unit {0}
AreRunsOf (row ∷ rows) (run ∷ runs) = IsRunOf row run × AreRunsOf rows runs
AreRunsOf [] (run ∷ runs) = ⊥
AreRunsOf (row ∷ rows) [] = ⊥

-- The two commands are about the same batch.
abbrev pub IsSameBatch : PrepareTargetBankCommand → RunTargetBatchCommand → Type 0
IsSameBatch prepare run =
    (run.worker_id ≡ prepare.worker_id)
    × (run.target_generation ≡ prepare.target_generation)
    × (run.expected_batch_seq ≡ prepare.batch_seq)
    × (run.active_bank_id ≡ prepare.standby_bank_id)
    × (run.active_bank_epoch ≡ prepare.next_bank_epoch)

run_row_lem :
    (prepare : PrepareTargetBankCommand) (run : RunTargetBatchCommand) (entries : Entries)
    (row : TargetPrepareRequest) (request : RunRow)
    → IsSameBatch prepare run
    → IsRunOf row request
    → HasPrepared prepare entries row
    → (new : WorkerRequestCacheEntry) × (apply_run entries run request
        ≡ ok (insert row.request_slot new entries))
unfolding apply_run
run_row_lem prepare run entries row request (w, g, b, k, e) (slot, epoch, newer)
      (current, there, p) =
    let found : lookup (run_slot request) entries ≡ some current =
      ap (λ s. lookup s entries) slot ∙ there in
    let forward : operation_is_newer (run_round request) (run_seq request) current.last_round_id
          current.last_op_seq
        ≡ ok true =
      rw (p.1, p.2) newer in
    (run_entry current request, ground (arith, found, forward, slot, epoch, b, k, e, p))

AllPrepared-insert :
    (prepare : PrepareTargetBankCommand) (entries : Entries) (slot : ℕ)
    (new : WorkerRequestCacheEntry) (rows : List TargetPrepareRequest)
    → Absent slot (map key_of_prepare rows)
    → AllPrepared prepare entries rows
    → AllPrepared prepare (insert slot new entries) rows
AllPrepared-insert prepare entries slot new [] absent h = tt
AllPrepared-insert prepare entries slot new (row ∷ rows) absent h = (
  (
    h.0.0,
    lookup-insert_ne slot row.request_slot new entries (λ same. absent.0 (sym same)) ∙ h.0.1,
    h.0.2,
  ),
  AllPrepared-insert prepare entries slot new rows absent.1 h.1,
)

pub run_rows_lem :
    (prepare : PrepareTargetBankCommand) (run : RunTargetBatchCommand) (entries : Entries)
    (rows : List TargetPrepareRequest) (runs : List RunRow)
    → IsSameBatch prepare run
    → AreRunsOf rows runs
    → Unique (map key_of_prepare rows)
    → AllPrepared prepare entries rows
    → (entries' : Entries) × (each (λ es r. apply_run es run r) entries runs ≡ ok entries')
unfolding each
run_rows_lem prepare run entries [] [] same matching unique h = (entries, refl)
run_rows_lem prepare run entries [] (request ∷ runs) same matching unique h = absurd matching
run_rows_lem prepare run entries (row ∷ rows) [] same matching unique h = absurd matching
run_rows_lem prepare run entries (row ∷ rows) (request ∷ runs) same matching unique h =
    let first = run_row_lem prepare run entries row request same matching.0 h.0 in
    let next = insert row.request_slot first.0 entries in
    let left = AllPrepared-insert prepare entries row.request_slot first.0 rows unique.0 h.1 in
    let rest = run_rows_lem prepare run next rows runs same matching.1 unique.1 left in
    (rest.0, ground (arith, first.1, rest.1))

pub same_keys_lem :
    (rows : List TargetPrepareRequest) (runs : List RunRow)
    → AreRunsOf rows runs
    → same_keys (map key_of_run runs) (map key_of_prepare rows) ≡ true
unfolding same_keys
same_keys_lem [] [] matching = refl
same_keys_lem [] (request ∷ runs) matching = absurd matching
same_keys_lem (row ∷ rows) [] matching = absurd matching
same_keys_lem (row ∷ rows) (request ∷ runs) matching =
    ground (arith, matching.0.0, matching.0.1, same_keys_lem rows runs matching.1)

pub mark_consumed_lem :
    (b : PreparedBatchState)
    → checked_state b ≡ ok b
    → mark_consumed b ≡ ok (record b { consumed = true })
unfolding mark_consumed checked_state
mark_consumed_lem b passed = elim (Result-cases (check_keys [] b.ordered_request_keys)) [
  | inr (_, failed) ↦ absurd (ground (arith, failed))
  | inl (tt, distinct) ↦ ground (arith, distinct)
]
