-- ===== src/Ipc/Protocol/Cache.antt =====
-- nebulasd/src/nebulasd/ipc/protocol.py: WorkerRequestCacheEntry, PreparedBatchState and
-- WorkerCommandCache. A call works on copies of the dicts and assigns them after its last test, so
-- a call that raises leaves the cache as it was. WORK commands do not reach this cache.
pub mod Rows
pub mod Batches
pub mod Reach
pub mod Calls
pub mod Fence
pub mod OneRun
pub mod Progress
pub mod Liveness
pub mod Members
pub mod Advance
use nebula_sd.Common.{
  ℕ, Bool, not, ◌&&◌, ◌||◌, List, [], ◌∷◌, map, Option, none, some, Result, ok, err, ◌>>=◌, ◌>>◌,
  raise_if, value_error, ◌==◌,
}
use nebula_sd.Common.Assoc.{Assoc, lookup, insert}
use nebula_sd.Core.Ids.{u32, u64, validate, is_newer}
use nebula_sd.Ipc.Protocol.Commands.{
  HotCommand, prepare_draft, run_draft, draft_batch, prefill_batch, prepare_batch, run_batch,
}
use nebula_sd.Ipc.DraftProtocol.Contract.{
  DraftPreparedContract, accept_prepare, accept_run, discard,
}
use nebula_sd.Ipc.Protocol.Cache.Rows.{WorkerRequestCacheEntry}
use nebula_sd.Ipc.Protocol.Cache.Batches.{
  PreparedBatchState, mark_consumed, Tables, apply_draft_batch, apply_prefill_batch,
  apply_prepare_batch, apply_run_batch,
}

pub record WorkerCommandCache : Type 0 where
  pub worker_id : ℕ
  pub worker_generation : ℕ
  pub draft_prepared : DraftPreparedContract
  pub last_command_seq : Option ℕ
  pub entries : Assoc WorkerRequestCacheEntry
  pub prepared_batches : Assoc PreparedBatchState

unfoldable pub init : ℕ → ℕ → Result WorkerCommandCache
unfolding validate
init worker_id worker_generation = do
  validate u32 worker_id
  validate u64 worker_generation
  ok (record {
    worker_id = worker_id;
    worker_generation = worker_generation;
    draft_prepared = record { pending = none };
    last_command_seq = none;
    entries = [];
    prepared_batches = [];
  })

abbrev pub worker_of : HotCommand → ℕ
worker_of (prepare_draft c) = c.worker_id
worker_of (run_draft c) = c.worker_id
worker_of (draft_batch c) = c.worker_id
worker_of (prefill_batch c) = c.worker_id
worker_of (prepare_batch c) = c.worker_id
worker_of (run_batch c) = c.worker_id

-- A Draft command names a worker generation, a Target command a target generation.
abbrev pub generation_of : HotCommand → ℕ
generation_of (prepare_draft c) = c.worker_generation
generation_of (run_draft c) = c.worker_generation
generation_of (draft_batch c) = c.worker_generation
generation_of (prefill_batch c) = c.target_generation
generation_of (prepare_batch c) = c.target_generation
generation_of (run_batch c) = c.target_generation

abbrev pub seq_of : HotCommand → ℕ
seq_of (prepare_draft c) = c.command_seq
seq_of (run_draft c) = c.command_seq
seq_of (draft_batch c) = c.command_seq
seq_of (prefill_batch c) = c.command_seq
seq_of (prepare_batch c) = c.command_seq
seq_of (run_batch c) = c.command_seq

-- The last test of `_validate_command`.
unfoldable pub follows : Option ℕ → ℕ → Result (Unit {0})
unfolding is_newer
follows none seq = ok tt
follows (some last) seq = do newer ← is_newer u64 seq last; raise_if (not newer) value_error

unfoldable pub validate_command : WorkerCommandCache → HotCommand → Result (Unit {0})
unfolding follows
validate_command cache command = do
  raise_if (not (worker_of command == cache.worker_id)) value_error
  raise_if (not (generation_of command == cache.worker_generation)) value_error
  follows cache.last_command_seq (seq_of command)

-- The two branches of `apply` on commands of the Draft contract.
unfoldable pub apply_draft :
    WorkerCommandCache → Result DraftPreparedContract → ℕ → Result WorkerCommandCache
apply_draft cache accepted command_seq = do
  contract ← accepted
  ok (record cache { draft_prepared = contract; last_command_seq = some command_seq })

-- The other branches: both dicts are replaced at the end.
unfoldable pub apply_tables : WorkerCommandCache → Result Tables → ℕ → Result WorkerCommandCache
apply_tables cache next command_seq = do
  tables ← next
  ok (record cache {
    entries = tables.entries;
    prepared_batches = tables.batches;
    last_command_seq = some command_seq;
  })

abbrev pub tables_of : WorkerCommandCache → Tables
tables_of cache = record { entries = cache.entries; batches = cache.prepared_batches }

unfoldable pub dispatch : WorkerCommandCache → HotCommand → Result WorkerCommandCache
unfolding apply_draft apply_tables
dispatch cache (prepare_draft c) =
    apply_draft cache (accept_prepare cache.draft_prepared c) c.command_seq
dispatch cache (run_draft c) = apply_draft cache (accept_run cache.draft_prepared c) c.command_seq
dispatch cache (draft_batch c) =
    apply_tables cache (apply_draft_batch (tables_of cache) c) c.command_seq
dispatch cache (prefill_batch c) =
    apply_tables cache (apply_prefill_batch (tables_of cache) c) c.command_seq
dispatch cache (prepare_batch c) =
    apply_tables cache (apply_prepare_batch (tables_of cache) c) c.command_seq
dispatch cache (run_batch c) =
    apply_tables cache (apply_run_batch (tables_of cache) c) c.command_seq

unfoldable pub apply : WorkerCommandCache → HotCommand → Result WorkerCommandCache
unfolding validate_command dispatch
apply cache command = do validate_command cache command; dispatch cache command

unfoldable pub get : WorkerCommandCache → ℕ → Result (Option WorkerRequestCacheEntry)
unfolding validate lookup
get cache request_slot = do validate u32 request_slot; ok (lookup request_slot cache.entries)

unfoldable pub discard_draft_prepare : WorkerCommandCache → ℕ → ℕ → ℕ → Bool × WorkerCommandCache
unfolding discard
discard_draft_prepare cache bank_id bank_epoch batch_seq =
    let result = discard cache.draft_prepared bank_id bank_epoch batch_seq in
    (result.0, record cache { draft_prepared = result.1 })

unfoldable pub discard_prepared : WorkerCommandCache → ℕ → ℕ → ℕ → Result WorkerCommandCache
unfolding mark_consumed lookup
discard_prepared cache bank_id bank_epoch batch_seq = elim (lookup bank_id cache.prepared_batches) [
  | none ↦ err value_error
  | some batch ↦ do
    raise_if
        (not (batch.bank_epoch == bank_epoch && batch.batch_seq == batch_seq) || batch.consumed)
        value_error
    marked ← mark_consumed batch
    ok (record cache { prepared_batches = insert bank_id marked cache.prepared_batches })
]
