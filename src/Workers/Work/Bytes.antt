-- ===== src/Workers/Work/Bytes.antt =====
-- The byte format of nebulasd/src/nebulasd/workers/work.py. Each row starts where the one before it
-- ends, and so do the fields of a row, so that `unpack_from` at their offsets is the reading of one
-- field after the other.
use nebula_sd.Common.{
  ℕ, zero, suc, ◌+◌, ◌*◌, ◌^◌, ◌-◌, Bool, not, ◌&&◌, ◌||◌, [], ◌∷◌, Option, none, some, Result, ok,
  err, raise_if, value_error, ltb, ◌==◌, length, replicate, if◌then◌else◌,
}
use nebula_sd.Core.Handles.{ArenaHandle}
use nebula_sd.Ipc.Protocol.Wire.Reader.{
  Bytes, Reader, ◌>>=◌, lift, join, pack, put_rows, raw_bytes, get_number, get_u8, get_u32, get_u64,
  get_handle, get_rows,
}
use nebula_sd.Ipc.Protocol.Wire.Draft.{taken}
use nebula_sd.Workers.Work.{
  WorkKind, target_prefill, draft_initial, target_verify, draft_decode, Selector, target_host,
  draft_host, proposal, delta, classified, target_decision, TableDependency, RowWork, Work,
  max_rows, checked_work,
}

abbrev pub work_version : ℕ
work_version = 4

-- `b'SDWO'`
abbrev pub work_magic : Bytes
work_magic = 83 ∷ 68 ∷ 87 ∷ 79 ∷ []

abbrev pub header_bytes : ℕ
header_bytes = 64

abbrev pub row_bytes : ℕ
row_bytes = 124 + 12 + 3 * 32 + 16

abbrev pub kind_number : WorkKind → ℕ
kind_number target_prefill = 1
kind_number draft_initial = 2
kind_number target_verify = 3
kind_number draft_decode = 4

-- `WorkKind(op)`
unfoldable pub kind_of : ℕ → Result WorkKind
kind_of zero = err value_error
kind_of (suc zero) = ok target_prefill
kind_of (suc (suc zero)) = ok draft_initial
kind_of (suc (suc (suc zero))) = ok target_verify
kind_of (suc (suc (suc (suc zero)))) = ok draft_decode
kind_of (suc (suc (suc (suc (suc n))))) = err value_error

abbrev pub selector_number : Selector → ℕ
selector_number target_host = 1
selector_number draft_host = 2
selector_number proposal = 3
selector_number delta = 4
selector_number classified = 5
selector_number target_decision = 6

unfoldable pub selector_of : ℕ → Result Selector
selector_of zero = err value_error
selector_of (suc zero) = ok target_host
selector_of (suc (suc zero)) = ok draft_host
selector_of (suc (suc (suc zero))) = ok proposal
selector_of (suc (suc (suc (suc zero)))) = ok delta
selector_of (suc (suc (suc (suc (suc zero))))) = ok classified
selector_of (suc (suc (suc (suc (suc (suc zero)))))) = ok target_decision
selector_of (suc (suc (suc (suc (suc (suc (suc n))))))) = err value_error

-- Bytes that `struct` writes between fields.
unfoldable pub pad : ℕ → Result Bytes
pad n = ok (replicate n 0)

unfoldable pub put_dependency : Option TableDependency → Result Bytes
unfolding pad join pack
put_dependency none = pad 32
put_dependency (some d) = join (
    pack 4 d.kind
    ∷ pack 4 d.slot
    ∷ pack 8 d.request_epoch
    ∷ pack 8 d.expected_ticket
    ∷ pack 4 (selector_number d.selector)
    ∷ pad 4
    ∷ [])

unfoldable pub dependency_of : ℕ → ℕ → ℕ → ℕ → ℕ → Result (Option TableDependency)
unfolding selector_of
dependency_of kind slot epoch ticket number =
    if kind == 0 && slot == 0 && epoch == 0 && ticket == 0 && number == 0
    then ok none
    else elim (selector_of number) [
      | err x ↦ err x
      | ok selector ↦ ok (
          some (record {
            kind = kind;
            slot = slot;
            request_epoch = epoch;
            expected_ticket = ticket;
            selector = selector;
          }))
    ]

unfoldable pub get_dependency : Reader (Option TableDependency)
unfolding get_u32 get_u64 raw_bytes dependency_of ◌>>=◌ lift
get_dependency = do
  kind ← get_u32
  slot ← get_u32
  epoch ← get_u64
  ticket ← get_u64
  number ← get_u32
  _ ← raw_bytes 4
  lift (dependency_of kind slot epoch ticket number)

-- An absent number is written as the largest one.
unfoldable pub put_optional : Option ℕ → Result Bytes
unfolding pack
put_optional none = pack 8 (2 ^ 64 - 1)
put_optional (some n) = pack 8 n

unfoldable pub get_optional : Reader (Option ℕ)
unfolding get_u64 ◌>>=◌ lift
get_optional = do n ← get_u64; lift (ok (if n == 2 ^ 64 - 1 then none else some n))

unfoldable pub put_raw_handle : ArenaHandle → Result Bytes
unfolding join pack
put_raw_handle h = join (pack 8 h.offset ∷ pack 4 h.length ∷ pack 4 h.generation ∷ [])

unfoldable pub put_row : RowWork → Result Bytes
unfolding join pack put_raw_handle put_dependency put_optional
put_row r = join (
    pack 4 r.slot
    ∷ pack 8 r.epoch
    ∷ pack 8 r.round_id
    ∷ pack 8 r.run_seq
    ∷ pack 4 r.destination_offset
    ∷ pack 4 r.capacity_blocks
    ∷ pack 8 r.host_offset
    ∷ pack 8 r.host_capacity
    ∷ pack 4 r.host_arena
    ∷ pack 8 r.host_generation
    ∷ pack 4 r.host_slot
    ∷ pack 8 r.writer_generation
    ∷ put_raw_handle r.prompt
    ∷ put_raw_handle r.config
    ∷ put_raw_handle r.output
    ∷ pack 4 r.token_budget
    ∷ pack 4 r.max_new_tokens
    ∷ pack 4 r.prompt_count
    ∷ put_dependency r.source
    ∷ put_dependency r.predecessor
    ∷ put_dependency r.classified
    ∷ put_optional r.owner_epoch
    ∷ put_optional r.layout_id
    ∷ [])

unfoldable pub get_row : Reader RowWork
unfolding get_u32 get_u64 get_handle get_dependency get_optional ◌>>=◌ lift
get_row = do
  slot ← get_u32
  epoch ← get_u64
  round_id ← get_u64
  run_seq ← get_u64
  destination_offset ← get_u32
  capacity_blocks ← get_u32
  host_offset ← get_u64
  host_capacity ← get_u64
  host_arena ← get_u32
  host_generation ← get_u64
  host_slot ← get_u32
  writer_generation ← get_u64
  prompt ← get_handle
  config ← get_handle
  output ← get_handle
  token_budget ← get_u32
  max_new_tokens ← get_u32
  prompt_count ← get_u32
  source ← get_dependency
  predecessor ← get_dependency
  decision ← get_dependency
  owner_epoch ← get_optional
  layout_id ← get_optional
  lift (
      ok (record {
        slot = slot;
        epoch = epoch;
        round_id = round_id;
        run_seq = run_seq;
        destination_offset = destination_offset;
        capacity_blocks = capacity_blocks;
        host_offset = host_offset;
        host_capacity = host_capacity;
        host_arena = host_arena;
        host_generation = host_generation;
        host_slot = host_slot;
        writer_generation = writer_generation;
        prompt = prompt;
        config = config;
        output = output;
        token_budget = token_budget;
        max_new_tokens = max_new_tokens;
        prompt_count = prompt_count;
        source = source;
        predecessor = predecessor;
        classified = decision;
        owner_epoch = owner_epoch;
        layout_id = layout_id;
      }))

unfoldable pub to_bytes : Work → Result Bytes
unfolding join pack pad put_rows put_row
to_bytes w = join (
    ok work_magic
    ∷ pack 2 work_version
    ∷ pack 2 (kind_number w.operation)
    ∷ pack 4 w.worker_id
    ∷ pack 8 w.worker_generation
    ∷ pack 8 w.work_seq
    ∷ pack 1 w.bank_id
    ∷ pad 7
    ∷ pack 8 w.bank_epoch
    ∷ pack 8 w.completion_offset
    ∷ pack 4 w.result_bytes
    ∷ pack 4 (length w.rows)
    ∷ pack 4 row_bytes
    ∷ put_rows put_row w.rows
    ∷ [])

unfoldable pub same_bytes : Bytes → Bytes → Bool
same_bytes [] [] = Bool.true
same_bytes (a ∷ left) (b ∷ right) = a == b && same_bytes left right
same_bytes [] (b ∷ right) = Bool.false
same_bytes (a ∷ left) [] = Bool.false

unfoldable pub check_abi : Bytes → ℕ → ℕ → Result (Unit {0})
unfolding same_bytes
check_abi magic version stride =
    raise_if
      (not (same_bytes magic work_magic)
        || not (version == work_version)
        || not (stride == row_bytes))
      value_error

unfoldable pub check_size : ℕ → ℕ → Result (Unit {0})
check_size size count =
    raise_if (count == 0 || ltb max_rows count || not (size == header_bytes + count * row_bytes))
      value_error

-- `cls(wid, gen, seq, WorkKind(op), …)`
unfoldable pub built : ℕ → (WorkKind → Work) → Result Work
unfolding kind_of checked_work
built number work = elim (kind_of number) [
  | err x ↦ err x
  | ok operation ↦ checked_work (work operation)
]

-- The fields behind the test that the header is there, of so many bytes in all.
unfoldable pub get_work : ℕ → Reader Work
unfolding raw_bytes get_number get_u8 get_u32 get_u64 get_rows get_row ◌>>=◌ lift
get_work size = do
  magic ← raw_bytes 4
  version ← get_number 2
  number ← get_number 2
  worker_id ← get_u32
  worker_generation ← get_u64
  work_seq ← get_u64
  bank_id ← get_u8
  _ ← raw_bytes 7
  bank_epoch ← get_u64
  completion_offset ← get_u64
  result_bytes ← get_u32
  count ← get_u32
  stride ← get_u32
  _ ← lift (check_abi magic version stride)
  _ ← lift (check_size size count)
  rows ← get_rows get_row count
  lift (
      built number (λ operation. record {
        worker_id = worker_id;
        worker_generation = worker_generation;
        work_seq = work_seq;
        operation = operation;
        bank_id = bank_id;
        bank_epoch = bank_epoch;
        completion_offset = completion_offset;
        result_bytes = result_bytes;
        rows = rows;
      }))

unfoldable pub from_bytes : Bytes → Result Work
from_bytes raw =
    if ltb (length raw) header_bytes then err value_error else taken (get_work (length raw) raw)
