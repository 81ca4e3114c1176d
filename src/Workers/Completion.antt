-- ===== src/Workers/Completion.antt =====
-- nebulasd/src/nebulasd/workers/completion.py: the completions of a cohort, each in a range that the
-- engine reserves and one worker writes once. The segment is a byte list; the first word of a range
-- is its flag, which `sd_load` and `sd_store` read and write as eight little-endian bytes.
pub mod Ranges
use nebula_sd.Common.{
  ℕ, zero, suc, ◌+◌, ◌*◌, ◌/◌, ◌%◌, ◌^◌, Bool, not, ◌||◌, List, [], ◌∷◌, ◌++◌, Option, none, some,
  Result, ok, err, ◌>>=◌, ◌>>◌, raise_if, value_error, runtime_error, struct_error, ltb, leb, ◌==◌,
  length, sum_of, if◌then◌else◌, replicate, any,
}
use nebula_sd.Common.Bytes.{slice, splice}
use nebula_sd.Common.Words.{to_bytes, from_bytes}
use nebula_sd.Workers.Work.{Outcome, executed, skipped_finished, skipped_shutdown}

-- The sizes of `_HEADER` and `_MEMBER`.
abbrev pub header_size : ℕ
header_size = 40

abbrev pub member_size : ℕ
member_size = 24

-- The next multiple of eight, `(n + 7) & ~7`.
unfoldable pub completion_bytes : ℕ → ℕ
completion_bytes count = (8 + header_size + count * member_size + 7) / 8 * 8

unfoldable pub cohort_completion_budget : List ℕ → ℕ
cohort_completion_budget max_new_tokens =
    sum_of (λ n. (2 * n + 4) * completion_bytes 1) max_new_tokens

pub record MemberCompletion : Type 0 where
  pub slot : ℕ
  pub epoch : ℕ
  pub round_id : ℕ
  pub outcome : Outcome

pub record WorkCompletion : Type 0 where
  pub worker_generation : ℕ
  pub work_seq : ℕ
  pub bank_epoch : ℕ
  pub physical_done_ns : ℕ
  pub bank_id : ℕ
  pub members : List MemberCompletion

pub record CompletionArena : Type 0 where
  pub bytes : List ℕ
  pub next_offset : ℕ

unfoldable pub init : ℕ → CompletionArena
init capacity = record { bytes = replicate capacity 0; next_offset = 0 }

-- No offset is the answer when the range does not fit.
unfoldable pub reserve : CompletionArena → ℕ → Option ℕ × CompletionArena
reserve a count =
    if (count == 0) || ltb (length a.bytes) (a.next_offset + completion_bytes count)
    then (none, a)
    else (some a.next_offset, record a { next_offset = a.next_offset + completion_bytes count })

-- `_check`
unfoldable pub check_range : CompletionArena → ℕ → ℕ → Result (Unit {0})
check_range a offset size =
    raise_if (not (offset % 8 == 0) || ltb (length a.bytes) (offset + size)) value_error

unfoldable pub flag : CompletionArena → ℕ → ℕ
flag a offset = from_bytes (slice offset 8 a.bytes)

unfoldable pub outcome_number : Outcome → ℕ
outcome_number executed = 1
outcome_number skipped_finished = 2
outcome_number skipped_shutdown = 3

-- A number packed into its width raises when it does not fit.
unfoldable pub pack : ℕ → ℕ → Result (List ℕ)
pack width n = do raise_if (leb (256 ^ width) n) struct_error; ok (to_bytes width n)

unfoldable pub pack_member : MemberCompletion → Result (List ℕ)
pack_member m = do
  slot ← pack 4 m.slot
  epoch ← pack 8 m.epoch
  round_id ← pack 8 m.round_id
  outcome ← pack 4 (outcome_number m.outcome)
  ok (slot ++ epoch ++ round_id ++ outcome)

unfoldable pub pack_members : List MemberCompletion → Result (List ℕ)
pack_members [] = ok []
pack_members (m ∷ ms) = do raw ← pack_member m; rest ← pack_members ms; ok (raw ++ rest)

unfoldable pub pack_header : WorkCompletion → Result (List ℕ)
pack_header r = do
  generation ← pack 8 r.worker_generation
  seq ← pack 8 r.work_seq
  epoch ← pack 8 r.bank_epoch
  done ← pack 8 r.physical_done_ns
  bank ← pack 4 r.bank_id
  count ← pack 4 (length r.members)
  ok (generation ++ seq ++ epoch ++ done ++ bank ++ count)

unfoldable pub publish : CompletionArena → ℕ → WorkCompletion → Result CompletionArena
publish a offset r = do
  check_range a offset (completion_bytes (length r.members))
  raise_if (not (flag a offset == 0)) runtime_error
  header ← pack_header r
  members ← pack_members r.members
  let written = splice (offset + 8) (header ++ members) a.bytes
  ok (record a { bytes = splice offset (to_bytes 8 1) written })

unfoldable pub word : CompletionArena → ℕ → ℕ → ℕ
word a at width = from_bytes (slice at width a.bytes)

unfoldable pub outcome_of : ℕ → Result Outcome
outcome_of n =
    if n == 1
    then ok executed
    else if n == 2
    then ok skipped_finished
    else if n == 3
    then ok skipped_shutdown
    else err value_error

unfoldable pub read_members : CompletionArena → ℕ → ℕ → Result (List MemberCompletion)
read_members a at zero = ok []
read_members a at (suc n) = do
  outcome ← outcome_of (word a (at + 20) 4)
  rest ← read_members a (at + member_size) n
  ok (
      (record {
        slot = word a at 4;
        epoch = word a (at + 4) 8;
        round_id = word a (at + 12) 8;
        outcome = outcome;
      })
      ∷ rest)

unfoldable pub read : CompletionArena → ℕ → Result (Option WorkCompletion)
read a offset = do
  check_range a offset (8 + header_size)
  if flag a offset == 0 then ok none else (do
    let count = word a (offset + 8 + 36) 4
    check_range a offset (completion_bytes count)
    members ← read_members a (offset + 8 + header_size) count
    ok (
        some (record {
          worker_generation = word a (offset + 8) 8;
          work_seq = word a (offset + 8 + 8) 8;
          bank_epoch = word a (offset + 8 + 16) 8;
          physical_done_ns = word a (offset + 8 + 24) 8;
          bank_id = word a (offset + 8 + 32) 4;
          members = members;
        })))
