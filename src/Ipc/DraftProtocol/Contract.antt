-- ===== src/Ipc/DraftProtocol/Contract.antt =====
-- The contract of nebulasd/src/nebulasd/ipc/draft_protocol.py that at most one Draft batch is
-- prepared, and that exactly its run consumes it.
pub mod Members
pub mod Account
use nebula_sd.Common.{
  ℕ, Bool, not, ◌&&◌, List, [], ◌∷◌, Option, none, some, Result, ok, err, ◌>>=◌, ◌>>◌, raise_if,
  value_error, ◌==◌, length, if◌then◌else◌,
}
use nebula_sd.Core.Ids.{u64, is_newer}
use nebula_sd.Ipc.DraftProtocol.{
  DraftPrepareRequest, DraftRunRequest, PrepareDraftBankCommand, RunDraftBatchCommand,
}

-- The test of one member's fence in the loop of `validate_prepared_run`.
unfoldable pub same_member : DraftPrepareRequest → DraftRunRequest → Bool
same_member p r =
    p.source.request_slot == r.request_slot
    && p.source.request_epoch == r.request_epoch
    && p.next_round_id == r.round_id
    && p.next_owner_epoch == r.owner_epoch
    && p.source.snapshot_version == r.snapshot_version

-- The loop of `validate_prepared_run`, over the requests of both commands side by side.
unfoldable pub validate_members :
    List DraftPrepareRequest → List DraftRunRequest → Result (Unit {0})
unfolding same_member is_newer
validate_members (p ∷ ps) (r ∷ rs) = do
  raise_if (not (same_member p r)) value_error
  newer ← is_newer u64 r.run_seq p.source.op_seq
  raise_if (not newer) value_error
  validate_members ps rs
validate_members [] rs = ok tt
validate_members (p ∷ ps) [] = ok tt

unfoldable pub same_bank : PrepareDraftBankCommand → RunDraftBatchCommand → Bool
same_bank prepare run =
    prepare.worker_id == run.worker_id
    && prepare.worker_generation == run.worker_generation
    && prepare.batch_seq == run.expected_batch_seq
    && prepare.standby_bank_id == run.active_bank_id
    && prepare.next_bank_epoch == run.active_bank_epoch

unfoldable pub validate_prepared_run :
    PrepareDraftBankCommand → RunDraftBatchCommand → Result (Unit {0})
unfolding same_bank validate_members
validate_prepared_run prepare run = do
  raise_if (not (same_bank prepare run)) value_error
  raise_if (not (length prepare.requests == length run.requests)) value_error
  validate_members prepare.requests run.requests

-- `DraftPreparedContract`
pub record DraftPreparedContract : Type 0 where
  pub pending : Option PrepareDraftBankCommand

abbrev pub init : DraftPreparedContract
init = record { pending = none }

unfoldable pub discard : DraftPreparedContract → ℕ → ℕ → ℕ → Bool × DraftPreparedContract
discard c bank_id bank_epoch batch_seq = elim c.pending [
  | none ↦ (Bool.false, c)
  | some command ↦
      if command.standby_bank_id == bank_id
        && command.next_bank_epoch == bank_epoch
        && command.batch_seq == batch_seq
      then (Bool.true, init)
      else (Bool.false, c)
]

-- `accept`, of a command that prepares and of one that runs.
unfoldable pub accept_prepare :
    DraftPreparedContract → PrepareDraftBankCommand → Result DraftPreparedContract
accept_prepare c command = elim c.pending [
  | none ↦ ok (record { pending = some command })
  | some _ ↦ err value_error
]

unfoldable pub accept_run :
    DraftPreparedContract → RunDraftBatchCommand → Result DraftPreparedContract
unfolding validate_prepared_run
accept_run c command = elim c.pending [
  | none ↦ err value_error
  | some prepare ↦ do validate_prepared_run prepare command; ok init
]
