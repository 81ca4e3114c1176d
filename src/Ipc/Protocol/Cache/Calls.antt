-- ===== src/Ipc/Protocol/Cache/Calls.antt =====
-- Calls on a worker's cache of nebulasd/src/nebulasd/ipc/protocol.py, one after the other.
use nebula_sd.Common.{
  ℕ, ◌≡◌, subst, List, [], ◌∷◌, ok, err, Result, arith, inl, inr, Result-cases, Option-cases,
  value_or, value_or_lem,
}
use mathlib.Core.Path.{ap₂}
use nebula_sd.Common.Assoc.{lookup, insert}
use nebula_sd.Ipc.DraftProtocol.Contract.{DraftPreparedContract, accept_prepare, accept_run}
use nebula_sd.Ipc.Protocol.Commands.{
  HotCommand, prepare_draft, run_draft, draft_batch, prefill_batch, prepare_batch, run_batch,
}
use nebula_sd.Ipc.Protocol.Cache.Batches.{
  Tables, mark_consumed, apply_draft_batch, apply_prefill_batch, apply_prepare_batch,
  apply_run_batch,
}
use nebula_sd.Ipc.Protocol.Cache.{
  WorkerCommandCache, init, apply, apply_draft, apply_tables, tables_of, validate_command, dispatch,
  discard_prepared, discard_draft_prepare,
}
use nebula_sd.Ipc.Protocol.Cache.Advance.{Keeps-refl}
use nebula_sd.Ipc.Protocol.Cache.Members.{IsComplete, insert-IsComplete, mark_consumed-consumed}
use nebula_sd.Ipc.Protocol.Cache.Reach.{
  IsWhole, Follows, Advances, Keeps-Follows, apply_draft_batch-Advances,
  apply_prefill_batch-Advances, apply_prepare_batch-Advances, apply_run_batch-Advances,
}

pub data Call : Type 0 where
  applies : HotCommand → Call
  discards : ℕ → ℕ → ℕ → Call
  discards_draft : ℕ → ℕ → ℕ → Call

-- A call that raises leaves the cache.
abbrev pub step : WorkerCommandCache → Call → WorkerCommandCache
step cache (applies command) = value_or cache (apply cache command)
step cache (discards bank_id bank_epoch batch_seq) =
    value_or cache (discard_prepared cache bank_id bank_epoch batch_seq)
step cache (discards_draft bank_id bank_epoch batch_seq) =
    (discard_draft_prepare cache bank_id bank_epoch batch_seq).1

abbrev pub run : WorkerCommandCache → List Call → WorkerCommandCache
run cache [] = cache
run cache (call ∷ calls) = run (step cache call) calls

pub apply-dispatch :
    (cache cache' : WorkerCommandCache) (command : HotCommand)
    → apply cache command ≡ ok cache'
    → (validate_command cache command ≡ ok tt) × (dispatch cache command ≡ ok cache')
unfolding apply
apply-dispatch cache cache' command h = elim (Result-cases (validate_command cache command)) [
  | inr (_, failed) ↦ absurd (ground (arith, failed))
  | inl (tt, passed) ↦ (passed, ground (arith, passed))
]

pub apply_draft-tables :
    (cache cache' : WorkerCommandCache) (accepted : Result DraftPreparedContract) (seq : ℕ)
    → apply_draft cache accepted seq ≡ ok cache'
    → tables_of cache ≡ tables_of cache'
unfolding apply_draft
apply_draft-tables cache cache' (err x) seq h = absurd (ground arith)
apply_draft-tables cache cache' (ok contract) seq h = ground arith

pub apply_tables-tables :
    (cache cache' : WorkerCommandCache) (next : Result Tables) (seq : ℕ)
    → apply_tables cache next seq ≡ ok cache'
    → next ≡ ok (tables_of cache')
unfolding apply_tables
apply_tables-tables cache cache' (err x) seq h = absurd (ground arith)
apply_tables-tables cache cache' (ok tables) seq h = ground arith

dispatch-Advances :
    (cache cache' : WorkerCommandCache) (command : HotCommand)
    → dispatch cache command ≡ ok cache'
    → IsWhole (tables_of cache)
    → Advances (tables_of cache) (tables_of cache')
unfolding dispatch
dispatch-Advances cache cache' (prepare_draft c) h sound =
    subst (Advances (tables_of cache))
      (apply_draft-tables cache cache' (accept_prepare cache.draft_prepared c) c.command_seq h)
      (sound, Keeps-Follows cache.entries cache.entries (Keeps-refl cache.entries))
dispatch-Advances cache cache' (run_draft c) h sound =
    subst (Advances (tables_of cache))
      (apply_draft-tables cache cache' (accept_run cache.draft_prepared c) c.command_seq h)
      (sound, Keeps-Follows cache.entries cache.entries (Keeps-refl cache.entries))
dispatch-Advances cache cache' (draft_batch c) h sound =
    apply_draft_batch-Advances (tables_of cache) (tables_of cache') c
      (apply_tables-tables cache cache' (apply_draft_batch (tables_of cache) c) c.command_seq h)
      sound
dispatch-Advances cache cache' (prefill_batch c) h sound =
    apply_prefill_batch-Advances (tables_of cache) (tables_of cache') c
      (apply_tables-tables cache cache' (apply_prefill_batch (tables_of cache) c) c.command_seq h)
      sound
dispatch-Advances cache cache' (prepare_batch c) h sound =
    apply_prepare_batch-Advances (tables_of cache) (tables_of cache') c
      (apply_tables-tables cache cache' (apply_prepare_batch (tables_of cache) c) c.command_seq h)
      sound
dispatch-Advances cache cache' (run_batch c) h sound =
    apply_run_batch-Advances (tables_of cache) (tables_of cache') c
      (apply_tables-tables cache cache' (apply_run_batch (tables_of cache) c) c.command_seq h) sound

pub discard_prepared-IsWhole :
    (cache cache' : WorkerCommandCache) (bank_id bank_epoch batch_seq : ℕ)
    → discard_prepared cache bank_id bank_epoch batch_seq ≡ ok cache'
    → IsWhole (tables_of cache)
    → IsWhole (tables_of cache')
unfolding discard_prepared
discard_prepared-IsWhole cache cache' bank_id bank_epoch batch_seq h sound =
    elim (Option-cases (lookup bank_id cache.prepared_batches)) [
      | inl nothing ↦ absurd (ground (arith, nothing))
      | inr (batch, there) ↦ elim (Result-cases (mark_consumed batch)) [
        | inr (_, failed) ↦ absurd (ground (arith, there, failed))
        | inl (marked, built) ↦
            let at : record cache {
              prepared_batches = insert bank_id marked cache.prepared_batches;
            }
                ≡ cache' =
              ground (arith, there, built) in
            let ran = mark_consumed-consumed batch marked built in
            subst (λ c. IsWhole (tables_of c)) at
              (
                sound.0,
                insert-IsComplete cache.entries cache.prepared_batches bank_id marked
                    (λ waits. absurd (cc)) sound.1,
              )
      ]
    ]

apply-Advances :
    (cache cache' : WorkerCommandCache) (command : HotCommand)
    → apply cache command ≡ ok cache'
    → IsWhole (tables_of cache)
    → Advances (tables_of cache) (tables_of cache')
apply-Advances cache cache' command h sound =
    dispatch-Advances cache cache' command (apply-dispatch cache cache' command h).1 sound

IsWhole-step :
    (cache : WorkerCommandCache) (call : Call)
    → IsWhole (tables_of cache)
    → IsWhole (tables_of (step cache call))
unfolding discard_draft_prepare
IsWhole-step cache (applies command) sound =
    value_or_lem (λ c. IsWhole (tables_of c)) cache (apply cache command) sound
      (λ next applied. (apply-Advances cache next command applied sound).0)
IsWhole-step cache (discards bank_id bank_epoch batch_seq) sound =
    value_or_lem (λ c. IsWhole (tables_of c)) cache
      (discard_prepared cache bank_id bank_epoch batch_seq) sound
      (λ next discarded.
        discard_prepared-IsWhole cache next bank_id bank_epoch batch_seq discarded sound)
IsWhole-step cache (discards_draft bank_id bank_epoch batch_seq) sound = sound

-- After any calls of apply, discard_prepared and discard_draft_prepare on a worker's cache, those
-- that raise included: if at first each slot has at most one entry and the members of every batch
-- that waits to run are cached with their epochs, this holds at the end. So no removal, and no row
-- of another command, takes a member from a batch that waits.
pub IsWhole-run :
    (cache : WorkerCommandCache) (calls : List Call)
    → IsWhole (tables_of cache)
    → IsWhole (tables_of (run cache calls))
IsWhole-run cache [] sound = sound
IsWhole-run cache (call ∷ calls) sound =
    IsWhole-run (step cache call) calls (IsWhole-step cache call sound)

init-IsWhole :
    (worker_id worker_generation : ℕ) (cache : WorkerCommandCache)
    → init worker_id worker_generation ≡ ok cache
    → IsWhole (tables_of cache)
unfolding init lookup
init-IsWhole worker_id worker_generation cache h =
    let entries : [] ≡ cache.entries = ground arith in
    let batches : [] ≡ cache.prepared_batches = ground arith in
    subst (λ t. IsWhole t)
      (ap₂ (λ es bs. let t : Tables = record { entries = es; batches = bs } in t) entries batches)
      (tt, λ bank_id batch there waits. absurd (cc))

-- A command that is applied to the cache of a worker, after any calls from its start, leaves each
-- request that stays in the cache with its epoch and with an operation that is as it was or that
-- follows from it by steps each of which is newer; a request of a waiting batch does stay.
pub apply-Follows :
    (worker_id worker_generation : ℕ) (start : WorkerCommandCache) (calls : List Call)
    (command : HotCommand) (cache' : WorkerCommandCache)
    → init worker_id worker_generation ≡ ok start
    → apply (run start calls) command ≡ ok cache'
    → Follows (run start calls).entries cache'.entries
      × IsComplete cache'.entries cache'.prepared_batches
apply-Follows worker_id worker_generation start calls command cache' started applied =
    let sound = IsWhole-run start calls (init-IsWhole worker_id worker_generation start started) in
    let a = apply-Advances (run start calls) cache' command applied sound in (a.1, a.0.1)
