-- ===== src/Workers/Work.antt =====
-- nebulasd/src/nebulasd/workers/work.py: what one piece of work names, and the tests of its
-- constructor. The byte format is in Workers/Work/Bytes.
pub mod Bytes
pub mod RowTrips
pub mod RoundTrip
mod Examples
use nebula_sd.Common.{
  ℕ, ◌+◌, Bool, not, ◌&&◌, ◌||◌, List, [], ◌∷◌, Option, none, some, Result, ok, ◌>>◌, raise_if,
  value_error, ltb, ◌==◌, length, any, if◌then◌else◌,
}
use nebula_sd.Core.Handles.{ArenaHandle}

pub data WorkKind : Type 0 where
  target_prefill draft_initial target_verify draft_decode : WorkKind

pub data Selector : Type 0 where
  target_host draft_host proposal delta classified target_decision : Selector

pub data Outcome : Type 0 where
  executed skipped_finished skipped_shutdown : Outcome

pub record TableDependency : Type 0 where
  pub kind : ℕ
  pub slot : ℕ
  pub request_epoch : ℕ
  pub expected_ticket : ℕ
  pub selector : Selector

pub record RowWork : Type 0 where
  pub slot : ℕ
  pub epoch : ℕ
  pub round_id : ℕ
  pub run_seq : ℕ
  pub destination_offset : ℕ
  pub capacity_blocks : ℕ
  pub host_offset : ℕ
  pub host_capacity : ℕ
  pub host_arena : ℕ
  pub host_generation : ℕ
  pub host_slot : ℕ
  pub writer_generation : ℕ
  pub prompt : ArenaHandle
  pub config : ArenaHandle
  pub output : ArenaHandle
  pub token_budget : ℕ
  pub max_new_tokens : ℕ
  pub prompt_count : ℕ
  pub source : Option TableDependency
  pub predecessor : Option TableDependency
  pub classified : Option TableDependency
  pub owner_epoch : Option ℕ
  pub layout_id : Option ℕ

pub record Work : Type 0 where
  pub worker_id : ℕ
  pub worker_generation : ℕ
  pub work_seq : ℕ
  pub operation : WorkKind
  pub bank_id : ℕ
  pub bank_epoch : ℕ
  pub completion_offset : ℕ
  pub result_bytes : ℕ
  pub rows : List RowWork

abbrev pub max_rows : ℕ
max_rows = 256

-- `operation in (DRAFT_INITIAL, DRAFT_DECODE)`
unfoldable pub is_draft : WorkKind → Bool
is_draft draft_initial = Bool.true
is_draft draft_decode = Bool.true
is_draft target = Bool.false

unfoldable pub is_initial : WorkKind → Bool
is_initial draft_initial = Bool.true
is_initial operation = Bool.false

unfoldable pub is_prefill : WorkKind → Bool
is_prefill target_prefill = Bool.true
is_prefill operation = Bool.false

-- `operation in (TARGET_VERIFY, DRAFT_DECODE)`
unfoldable pub is_continuation : WorkKind → Bool
is_continuation target_verify = Bool.true
is_continuation draft_decode = Bool.true
is_continuation operation = Bool.false

unfoldable pub is_delta : Selector → Bool
is_delta delta = Bool.true
is_delta selector = Bool.false

unfoldable pub is_decision : Selector → Bool
is_decision classified = Bool.true
is_decision target_decision = Bool.true
is_decision selector = Bool.false

unfoldable pub is_draft_host : Selector → Bool
is_draft_host draft_host = Bool.true
is_draft_host selector = Bool.false

unfoldable pub is_none {ℓ} : {A : Type ℓ} → Option A → Bool
is_none none = Bool.true
is_none (some a) = Bool.false

-- A dependency is absent or passes a test.
unfoldable pub absent_or {ℓ} : {A : Type ℓ} → (A → Bool) → Option A → Bool
absent_or test none = Bool.true
absent_or test (some a) = test a

-- A dependency is there and passes a test.
unfoldable pub present_and {ℓ} : {A : Type ℓ} → (A → Bool) → Option A → Bool
present_and test none = Bool.false
present_and test (some a) = test a

-- The tests on a row of draft work.
unfoldable pub check_draft : WorkKind → RowWork → Result (Unit {0})
check_draft operation r = do
  raise_if (is_none r.owner_epoch || is_none r.layout_id || is_none r.predecessor) value_error
  raise_if
      (not (present_and (λ (d : TableDependency). is_delta d.selector) r.predecessor)
        || not (present_and (λ (d : TableDependency). is_decision d.selector) r.classified))
      value_error
  raise_if (not (absent_or (λ (d : TableDependency). is_draft_host d.selector) r.source))
      value_error
  raise_if (is_initial operation && not (is_none r.source)) value_error

-- `(d.slot, d.request_epoch) != (r.slot, r.epoch)` for no dependency.
unfoldable pub same_request : RowWork → Option TableDependency → Bool
same_request r =
    absent_or (λ (d : TableDependency). (d.slot == r.slot) && (d.request_epoch == r.epoch))

-- One turn of the loop over the rows; `first` is where the ranges before this row end.
unfoldable pub check_row : WorkKind → ℕ → RowWork → Result (Unit {0})
check_row operation first r = do
  raise_if (not (r.destination_offset == first) || (r.capacity_blocks == 0)) value_error
  (if is_draft operation then check_draft operation r else ok tt)
  raise_if (ltb r.host_capacity r.capacity_blocks) value_error
  raise_if
      (not (same_request r r.source && same_request r r.predecessor && same_request r r.classified))
      value_error
  raise_if (not (is_prefill operation) && is_none r.classified) value_error
  raise_if (is_continuation operation && is_none r.source) value_error

unfoldable pub check_rows : WorkKind → ℕ → List RowWork → Result (Unit {0})
check_rows operation first [] = ok tt
check_rows operation first (r ∷ rs) = do
  check_row operation first r
  check_rows operation (first + r.capacity_blocks) rs

-- `len({r.slot for r in rows}) == len(rows)`
unfoldable pub distinct_slots : List RowWork → Bool
distinct_slots [] = Bool.true
distinct_slots (r ∷ rs) = not (any (λ (s : RowWork). s.slot == r.slot) rs) && distinct_slots rs

-- `Work.__post_init__`.
unfoldable pub checked_work : Work → Result Work
checked_work w = do
  raise_if (ltb 1 w.bank_id || (length w.rows == 0) || ltb max_rows (length w.rows)) value_error
  raise_if (not (distinct_slots w.rows)) value_error
  check_rows w.operation 0 w.rows
  raise_if (w.result_bytes == 0) value_error
  ok w
