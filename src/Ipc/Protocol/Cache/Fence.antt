-- ===== src/Ipc/Protocol/Cache/Fence.antt =====
-- The sequence numbers of the commands that a worker's cache of nebulasd/src/nebulasd/ipc/protocol.py
-- is given.
use nebula_sd.Common.{
  ℕ, ◌≡◌, ◌≢◌, ◌⊎◌, sym, subst, true, some, ok, err, value_error, arith, inl, inr, Result-cases,
}
use nebula_sd.Core.Ids.{u64, is_newer, distance, validate}
use nebula_sd.Ipc.DraftProtocol.Contract.{accept_prepare, accept_run}
use nebula_sd.Ipc.Protocol.Commands.{
  HotCommand, prepare_draft, run_draft, draft_batch, prefill_batch, prepare_batch, run_batch,
}
use nebula_sd.Ipc.Protocol.Cache.Batches.{
  apply_draft_batch, apply_prefill_batch, apply_prepare_batch, apply_run_batch,
}
use nebula_sd.Ipc.Protocol.Cache.{
  WorkerCommandCache, apply, follows, apply_draft, apply_tables, tables_of, validate_command,
  seq_of, dispatch,
}
use nebula_sd.Ipc.Protocol.Cache.Calls.{apply-dispatch}

follows_cases :
    (last seq : ℕ) → is_newer u64 seq last ≢ ok true → follows (some last) seq ≡ err value_error
unfolding follows is_newer distance validate
follows_cases last seq older = ground arith

dispatch-last_command_seq :
    (cache cache' : WorkerCommandCache) (command : HotCommand)
    → dispatch cache command ≡ ok cache'
    → cache'.last_command_seq ≡ some (seq_of command)
unfolding dispatch apply_draft apply_tables
dispatch-last_command_seq cache cache' (prepare_draft c) h =
    elim (Result-cases (accept_prepare cache.draft_prepared c)) [
      | inr (_, failed) ↦ absurd (ground (arith, failed))
      | inl (_, passed) ↦ ground (arith, passed)
    ]
dispatch-last_command_seq cache cache' (run_draft c) h =
    elim (Result-cases (accept_run cache.draft_prepared c)) [
      | inr (_, failed) ↦ absurd (ground (arith, failed))
      | inl (_, passed) ↦ ground (arith, passed)
    ]
dispatch-last_command_seq cache cache' (draft_batch c) h =
    elim (Result-cases (apply_draft_batch (tables_of cache) c)) [
      | inr (_, failed) ↦ absurd (ground (arith, failed))
      | inl (_, passed) ↦ ground (arith, passed)
    ]
dispatch-last_command_seq cache cache' (prefill_batch c) h =
    elim (Result-cases (apply_prefill_batch (tables_of cache) c)) [
      | inr (_, failed) ↦ absurd (ground (arith, failed))
      | inl (_, passed) ↦ ground (arith, passed)
    ]
dispatch-last_command_seq cache cache' (prepare_batch c) h =
    elim (Result-cases (apply_prepare_batch (tables_of cache) c)) [
      | inr (_, failed) ↦ absurd (ground (arith, failed))
      | inl (_, passed) ↦ ground (arith, passed)
    ]
dispatch-last_command_seq cache cache' (run_batch c) h =
    elim (Result-cases (apply_run_batch (tables_of cache) c)) [
      | inr (_, failed) ↦ absurd (ground (arith, failed))
      | inl (_, passed) ↦ ground (arith, passed)
    ]

is_newer_same : (seq : ℕ) → is_newer u64 seq seq ≢ ok true
unfolding is_newer distance validate
is_newer_same seq newer = ground arith

apply_older :
    (cache cache' : WorkerCommandCache) (command other : HotCommand)
    → apply cache command ≡ ok cache'
    → is_newer u64 (seq_of other) (seq_of command) ≢ ok true
    → apply cache' other ≡ err value_error
unfolding apply validate_command
apply_older cache cache' command other applied older =
    let last =
      dispatch-last_command_seq cache cache' command
        (apply-dispatch cache cache' command applied).1 in
    let refused = follows_cases (seq_of command) (seq_of other) older in
    ground (arith, last, refused)

-- After a command that was applied, a command of whatever kind is refused if its sequence number is
-- the same, as that of the same command is, or is not newer.
pub apply_replayed :
    (cache cache' : WorkerCommandCache) (command other : HotCommand)
    → apply cache command ≡ ok cache'
    → (seq_of other ≡ seq_of command) ⊎ (is_newer u64 (seq_of other) (seq_of command) ≢ ok true)
    → apply cache' other ≡ err value_error
apply_replayed cache cache' command other applied (inl same) =
    apply_older cache cache' command other applied (
      subst (λ seq. is_newer u64 seq (seq_of command) ≢ ok true) (sym same)
        (is_newer_same (seq_of command)))
apply_replayed cache cache' command other applied (inr older) =
    apply_older cache cache' command other applied older
