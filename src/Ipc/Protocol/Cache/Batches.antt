-- ===== src/Ipc/Protocol/Cache/Batches.antt =====
-- The prepared batches of the worker's cache and the branches of WorkerCommandCache.apply that
-- change both dicts, of nebulasd/src/nebulasd/ipc/protocol.py.
use nebula_sd.Common.{
  ℕ, Bool, not, ◌&&◌, ◌||◌, List, [], ◌∷◌, map, Option, none, some, Result, ok, err, ◌>>=◌, ◌>>◌,
  raise_if, value_error, ◌==◌,
}
use nebula_sd.Common.Assoc.{Assoc, lookup, insert, remove}
use nebula_sd.Core.Ids.{u8, u32, u64, validate}
use nebula_sd.Ipc.Protocol.Rows.{RemovedRequest}
use nebula_sd.Ipc.Protocol.Keys.{RequestKey, has_key, has_slot}
use nebula_sd.Ipc.Protocol.Commands.{
  DraftBatchCommand, TargetPrefillBatchCommand, PrepareTargetBankCommand, RunTargetBatchCommand,
  validate_lists, key_of_prefill, key_of_prepare, key_of_run, key_of_removed,
}
use nebula_sd.Ipc.Protocol.Cache.Rows.{
  WorkerRequestCacheEntry, Entries, unprepared, apply_new, apply_delta, apply_target_prefill,
  apply_target_prepare, apply_run,
}

pub record PreparedBatchState : Type 0 where
  pub batch_seq : ℕ
  pub bank_id : ℕ
  pub bank_epoch : ℕ
  pub ordered_request_keys : List RequestKey
  pub consumed : Bool

-- The loop of the constructor, with the slots seen so far.
unfoldable pub check_keys : List RequestKey → List RequestKey → Result (Unit {0})
unfolding validate has_slot
check_keys seen [] = ok tt
check_keys seen (key ∷ keys) = do
  validate u32 key.slot
  validate u64 key.epoch
  raise_if (has_slot key seen) value_error
  check_keys (key ∷ seen) keys

unfoldable pub checked_state : PreparedBatchState → Result PreparedBatchState
unfolding validate check_keys
checked_state b = do
  validate u64 b.batch_seq
  validate u8 b.bank_id
  validate u64 b.bank_epoch
  check_keys [] b.ordered_request_keys
  ok b

unfoldable pub mark_consumed : PreparedBatchState → Result PreparedBatchState
unfolding checked_state
mark_consumed b = checked_state (record b { consumed = Bool.true })

abbrev pub Batches : Type 0
Batches = Assoc PreparedBatchState

-- The copies of both dicts that `apply` works on.
pub record Tables : Type 0 where
  pub entries : Entries
  pub batches : Batches

-- `for row in rows: …`, on the entries.
unfoldable pub each {ℓ} :
    {Row : Type ℓ} → (Entries → Row → Result Entries) → Entries → List Row → Result Entries
each change entries [] = ok entries
each change entries (row ∷ rows) = do next ← change entries row; each change next rows

-- The loop of `_remove`: an unconsumed batch among these holds the request.
unfoldable pub holds_back : RequestKey → Batches → Bool
unfolding has_key
holds_back key [] = Bool.false
holds_back key ((bank_id, batch) ∷ batches) =
    has_key key batch.ordered_request_keys && not batch.consumed || holds_back key batches

-- `_remove` names the epoch of the cached request, if there is one.
unfoldable pub check_removed : Option WorkerRequestCacheEntry → ℕ → Result (Unit {0})
check_removed none request_epoch = ok tt
check_removed (some current) request_epoch =
    raise_if (not (current.request_epoch == request_epoch)) value_error

unfoldable pub remove_entry : Batches → Entries → RemovedRequest → Result Entries
unfolding check_removed holds_back lookup remove
remove_entry batches entries row = do
  check_removed (lookup row.request_slot entries) row.request_epoch
  raise_if (holds_back (key_of_removed row) batches) value_error
  ok (remove row.request_slot entries)

unfoldable pub apply_draft_batch : Tables → DraftBatchCommand → Result Tables
unfolding validate_lists each apply_new apply_delta remove_entry
apply_draft_batch t command = do
  validate_lists command
  added ← each (λ entries row. apply_new entries row unprepared) t.entries command.new_requests
  changed ←
      each (λ entries row. apply_delta entries row unprepared) added command.cached_request_deltas
  left ← each (remove_entry t.batches) changed command.removed_requests
  ok (record t { entries = left })

-- `current_batch is not None and not current_batch.consumed`
unfoldable pub is_waiting : ℕ → Batches → Bool
unfolding lookup
is_waiting bank_id batches = elim (lookup bank_id batches) [
  | none ↦ Bool.false
  | some batch ↦ not batch.consumed
]

unfoldable pub apply_prefill_batch : Tables → TargetPrefillBatchCommand → Result Tables
unfolding is_waiting each apply_target_prefill checked_state insert
apply_prefill_batch t command = do
  raise_if (is_waiting command.bank_id t.batches) value_error
  entries ←
      each (λ entries row. apply_target_prefill entries command row) t.entries command.requests
  batch ← checked_state (record {
    batch_seq = command.batch_seq;
    bank_id = command.bank_id;
    bank_epoch = command.bank_epoch;
    ordered_request_keys = map key_of_prefill command.requests;
    consumed = Bool.true;
  })
  ok (record { entries = entries; batches = insert command.bank_id batch t.batches })

unfoldable pub apply_prepare_batch : Tables → PrepareTargetBankCommand → Result Tables
unfolding is_waiting each apply_target_prepare checked_state insert
apply_prepare_batch t command = do
  raise_if (is_waiting command.standby_bank_id t.batches) value_error
  entries ←
      each (λ entries row. apply_target_prepare entries command row) t.entries command.requests
  batch ← checked_state (record {
    batch_seq = command.batch_seq;
    bank_id = command.standby_bank_id;
    bank_epoch = command.next_bank_epoch;
    ordered_request_keys = map key_of_prepare command.requests;
    consumed = Bool.false;
  })
  ok (record { entries = entries; batches = insert command.standby_bank_id batch t.batches })

unfoldable pub same_keys : List RequestKey → List RequestKey → Bool
same_keys [] [] = Bool.true
same_keys (a ∷ left) (b ∷ right) = a.slot == b.slot && a.epoch == b.epoch && same_keys left right
same_keys [] (b ∷ right) = Bool.false
same_keys (a ∷ left) [] = Bool.false

-- The tests of the last branch on the batch that stands in the active bank.
unfoldable pub check_prepared : PreparedBatchState → RunTargetBatchCommand → Result (Unit {0})
unfolding same_keys
check_prepared batch command = do
  raise_if (not (batch.batch_seq == command.expected_batch_seq)) value_error
  raise_if (not (batch.bank_epoch == command.active_bank_epoch)) value_error
  raise_if batch.consumed value_error
  raise_if (not (same_keys (map key_of_run command.requests) batch.ordered_request_keys))
      value_error

unfoldable pub apply_run_batch : Tables → RunTargetBatchCommand → Result Tables
unfolding check_prepared each apply_run mark_consumed lookup insert
apply_run_batch t command = elim (lookup command.active_bank_id t.batches) [
  | none ↦ err value_error
  | some batch ↦ do
    check_prepared batch command
    entries ← each (λ entries row. apply_run entries command row) t.entries command.requests
    marked ← mark_consumed batch
    ok (record { entries = entries; batches = insert command.active_bank_id marked t.batches })
]
