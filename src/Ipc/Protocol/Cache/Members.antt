-- ===== src/Ipc/Protocol/Cache/Members.antt =====
-- The members of a prepared batch that has not run stay in the worker's cache of
-- nebulasd/src/nebulasd/ipc/protocol.py.
use nebula_sd.Common.{
  ℕ, ◌≡◌, ap, ◌∙◌, subst, true, false, List, [], ◌∷◌, map, some, ok, arith, inl, inr, Result-cases,
  Bool-cases, ◌==◌,
}
use nebula_sd.Common.Assoc.{lookup, insert, remove, lookup-insert, lookup-remove_ne}
use nebula_sd.Ipc.Protocol.Rows.{RemovedRequest}
use nebula_sd.Ipc.Protocol.TargetRows.{TargetPrepareRequest}
use nebula_sd.Ipc.Protocol.Keys.{RequestKey, has_key}
use nebula_sd.Ipc.Protocol.Commands.{PrepareTargetBankCommand, key_of_prepare, key_of_removed}
use nebula_sd.Ipc.Protocol.Cache.Rows.{WorkerRequestCacheEntry, Entries, apply_target_prepare}
use nebula_sd.Ipc.Protocol.Cache.Batches.{
  PreparedBatchState, Batches, each, checked_state, check_keys, mark_consumed, holds_back,
  remove_entry, check_removed,
}
use nebula_sd.Ipc.Protocol.Cache.Advance.{
  Keeps, Sets-lookup, apply_target_prepare-Sets, each-Keeps, Sets-Keeps,
}

-- A request is in the cache, with its epoch.
abbrev pub Cached : Entries → RequestKey → Type 0
Cached entries key =
    (e : WorkerRequestCacheEntry) × (lookup key.slot entries ≡ some e)
    × (e.request_epoch ≡ key.epoch)

abbrev pub AllCached : Entries → List RequestKey → Type 0
AllCached entries [] = Unit {0}
AllCached entries (key ∷ keys) = Cached entries key × AllCached entries keys

-- So are all the members of the batches that have not run.
abbrev pub IsComplete : Entries → Batches → Type 0
IsComplete entries batches =
    (bank_id : ℕ) (batch : PreparedBatchState)
    → lookup bank_id batches ≡ some batch
    → batch.consumed ≡ false
    → AllCached entries batch.ordered_request_keys

Keeps-AllCached :
    (before after : Entries) (keys : List RequestKey)
    → Keeps before after
    → AllCached before keys
    → AllCached after keys
Keeps-AllCached before after [] kept h = tt
Keeps-AllCached before after (key ∷ keys) kept h =
    let k = kept key.slot h.0.0 h.0.1 in
    ((k.0, k.1, k.2.0 ∙ h.0.2), Keeps-AllCached before after keys kept h.1)

pub Keeps-IsComplete :
    (before after : Entries) (batches : Batches)
    → Keeps before after
    → IsComplete before batches
    → IsComplete after batches
Keeps-IsComplete before after batches kept h bank_id batch there waits =
    Keeps-AllCached before after batch.ordered_request_keys kept (h bank_id batch there waits)

-- A batch is put in a bank: its members are cached, or it has run.
pub insert-IsComplete :
    (entries : Entries) (batches : Batches) (bank_id : ℕ) (batch : PreparedBatchState)
    → (batch.consumed ≡ false → AllCached entries batch.ordered_request_keys)
    → IsComplete entries batches
    → IsComplete entries (insert bank_id batch batches)
insert-IsComplete entries batches bank_id batch mine h asked batch' there waits =
    elim (Bool-cases (bank_id == asked)) [
      | inl same ↦
          let at : batch ≡ batch' =
            ground (arith, same, there, lookup-insert bank_id asked batch batches) in
          subst (λ b. AllCached entries b.ordered_request_keys) at
            (mine (ap (λ (b : PreparedBatchState). b.consumed) at ∙ waits))
      | inr other ↦
          h asked batch' (ground (arith, other, there, lookup-insert bank_id asked batch batches))
            waits
    ]

pub checked_state_lem : (b m : PreparedBatchState) → checked_state b ≡ ok m → m ≡ b
unfolding checked_state
checked_state_lem b m h = elim (Result-cases (check_keys [] b.ordered_request_keys)) [
  | inr (_, failed) ↦ absurd (ground (arith, failed))
  | inl (tt, passed) ↦ ground (arith, passed)
]

pub mark_consumed-consumed : (b m : PreparedBatchState) → mark_consumed b ≡ ok m → m.consumed ≡ true
unfolding mark_consumed
mark_consumed-consumed b m h =
    ap (λ (k : PreparedBatchState). k.consumed)
      (checked_state_lem (record b { consumed = true }) m h)

-- After the rows of a prepare command its requests are cached.
pub prepare-AllCached :
    (command : PrepareTargetBankCommand) (entries entries' : Entries)
    (rows : List TargetPrepareRequest)
    → each (λ es row. apply_target_prepare es command row) entries rows ≡ ok entries'
    → AllCached entries' (map key_of_prepare rows)
unfolding each
prepare-AllCached command entries entries' [] h = tt
prepare-AllCached command entries entries' (row ∷ rows) h =
    elim (Result-cases (apply_target_prepare entries command row)) [
      | inr (_, failed) ↦ absurd (ground (arith, failed))
      | inl (next, changed) ↦
          let rest : each (λ es r. apply_target_prepare es command r) next rows ≡ ok entries' =
            ground (arith, changed) in
          let sets = apply_target_prepare-Sets entries next command row changed in
          let mine = Sets-lookup entries next row.request_slot row.request_epoch sets in
          let kept =
            each-Keeps (λ es r. apply_target_prepare es command r)
              (λ b a r done.
                Sets-Keeps b a r.request_slot r.request_epoch
                  (apply_target_prepare-Sets b a command r done))
              next entries' rows rest in
          (
            (Keeps-AllCached next entries' (key_of_prepare row ∷ []) kept (mine, tt)).0,
            prepare-AllCached command next entries' rows rest,
          )
    ]

holds_back-lookup :
    (key : RequestKey) (batches : Batches) (bank_id : ℕ) (batch : PreparedBatchState)
    → holds_back key batches ≡ false
    → lookup bank_id batches ≡ some batch
    → batch.consumed ≡ false
    → has_key key batch.ordered_request_keys ≡ false
unfolding holds_back lookup
holds_back-lookup key [] bank_id batch free there waits = absurd (cc)
holds_back-lookup key ((j, b) ∷ batches) bank_id batch free there waits =
    let rest : holds_back key batches ≡ false = ground (arith) in
    elim (Bool-cases (j == bank_id)) [
      | inl same ↦
          let at : b ≡ batch = ground (arith, same, there) in ground (arith, at, waits, free)
      | inr other ↦
          holds_back-lookup key batches bank_id batch rest (ground (arith, other, there)) waits
    ]

remove-AllCached :
    (entries : Entries) (row : RemovedRequest) (keys : List RequestKey)
    → check_removed (lookup row.request_slot entries) row.request_epoch ≡ ok tt
    → has_key (key_of_removed row) keys ≡ false
    → AllCached entries keys
    → AllCached (remove row.request_slot entries) keys
unfolding has_key check_removed
remove-AllCached entries row [] passed free h = tt
remove-AllCached entries row (key ∷ keys) passed free h =
    let rest : has_key (key_of_removed row) keys ≡ false = ground (arith) in
    let later = remove-AllCached entries row keys passed rest h.1 in
    elim (Bool-cases (row.request_slot == key.slot)) [
      | inl same ↦
          let at : row.request_slot ≡ key.slot = ground (arith, same) in
          let there : lookup row.request_slot entries ≡ some h.0.0 =
            ap (λ k. lookup k entries) at ∙ h.0.1 in
          let epoch : h.0.0.request_epoch ≡ row.request_epoch = ground (arith, there, passed) in
          absurd (ground (arith, at, epoch, h.0.2, free))
      | inr other ↦ (
        (
          h.0.0,
          lookup-remove_ne row.request_slot key.slot entries (λ same. ground (arith, other, same))
              ∙ h.0.1,
          h.0.2,
        ),
        later,
      )
    ]

-- A request that is removed belongs to no batch that waits.
pub remove_entry-IsComplete :
    (batches : Batches) (entries entries' : Entries) (row : RemovedRequest)
    → remove_entry batches entries row ≡ ok entries'
    → IsComplete entries batches
    → IsComplete entries' batches
unfolding remove_entry
remove_entry-IsComplete batches entries entries' row h complete bank_id batch there waits =
    elim (Result-cases (check_removed (lookup row.request_slot entries) row.request_epoch)) [
      | inr (_, failed) ↦ absurd (ground (arith, failed))
      | inl (tt, passed) ↦
          let free : holds_back (key_of_removed row) batches ≡ false = ground (arith, passed) in
          let at : remove row.request_slot entries ≡ entries' = ground (arith, passed, free) in
          subst (λ es. AllCached es batch.ordered_request_keys) at
            (remove-AllCached entries row batch.ordered_request_keys passed
              (holds_back-lookup (key_of_removed row) batches bank_id batch free there waits)
              (complete bank_id batch there waits))
    ]
