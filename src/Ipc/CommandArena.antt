-- ===== src/Ipc/CommandArena.antt =====
-- nebulasd/src/nebulasd/ipc/command_arena.py: command payloads in a circular byte buffer, given back
-- in the order of their command sequences.
pub mod Layout
pub mod Release
pub mod Freed
pub mod Payloads
pub mod Calls
use nebula_sd.Common.{
  ℕ, ◌+◌, ◌-◌, ◌%◌, Bool, true, false, not, ◌&&◌, ◌||◌, List, [], ◌∷◌, ◌++◌, Option, none, some,
  Result, ok, err, ◌>>=◌, ◌>>◌, raise_if, value_error, backpressure, ltb, leb, ◌==◌, length,
  replicate, if◌then◌else◌,
}
use nebula_sd.Common.Bytes.{slice, splice}
use nebula_sd.Core.Ids.{u32, u64, validate, is_newer, is_newer_or_equal}
use nebula_sd.Core.Handles.{ArenaHandle, arena_handle, within}

pub record Allocation : Type 0 where
  pub command_seq : ℕ
  pub offset : ℕ
  pub size : ℕ

unfoldable pub end : Allocation → ℕ
end a = a.offset + a.size

-- The deque `_allocations` is the list, oldest first.
pub record CommandArena : Type 0 where
  pub bytes : List ℕ
  pub generation : ℕ
  pub head : ℕ
  pub tail : ℕ
  pub allocations : List Allocation

unfoldable pub init : ℕ → ℕ → Result CommandArena
unfolding validate
init capacity_bytes generation = do
  validate u32 capacity_bytes
  validate u32 generation
  raise_if (capacity_bytes == 0) value_error
  ok (record {
    bytes = replicate capacity_bytes 0;
    generation = generation;
    head = 0;
    tail = 0;
    allocations = [];
  })

abbrev pub capacity_bytes : CommandArena → ℕ
capacity_bytes a = length a.bytes

-- `self._allocations[-1]`
unfoldable pub last_allocation : List Allocation → Option Allocation
last_allocation [] = none
last_allocation (x ∷ []) = some x
last_allocation (x ∷ y ∷ xs) = last_allocation (y ∷ xs)

-- What follows the first test of `_reserve`, over the capacity and the two cursors: the offset, and
-- the new head.
unfoldable pub reserve_between : ℕ → ℕ → ℕ → ℕ → Result (ℕ × ℕ)
reserve_between capacity head tail size =
    if head == tail
    then err backpressure
    else if leb tail head
    then (if leb size (capacity - head)
        then ok (head, (head + size) % capacity)
        else if leb size tail
        then ok (0, size)
        else err backpressure)
    else (if leb size (tail - head) then ok (head, head + size) else err backpressure)

-- `_reserve`: the offset, the new head and the new tail.
unfoldable pub reserve : CommandArena → ℕ → Result (ℕ × ℕ × ℕ)
unfolding reserve_between
reserve a size = elim a.allocations [
  | [] ↦ ok (0, size % capacity_bytes a, 0)
  | x ∷ xs ↦ do
    place ← reserve_between (capacity_bytes a) a.head a.tail size
    ok (place.0, place.1, a.tail)
]

-- The test that a new sequence is newer than the last one.
unfoldable pub in_sequence : CommandArena → ℕ → Result (Unit {0})
in_sequence a command_seq = elim (last_allocation a.allocations) [
  | none ↦ ok tt
  | some x ↦ do newer ← is_newer u64 command_seq x.command_seq; raise_if (not newer) value_error
]

unfoldable pub allocate : CommandArena → ℕ → List ℕ → Result (ArenaHandle × CommandArena)
allocate a command_seq payload = do
  validate u64 command_seq
  validate u32 (length payload)
  raise_if (length payload == 0) value_error
  raise_if (ltb (capacity_bytes a) (length payload)) backpressure
  in_sequence a command_seq
  place ← reserve a (length payload)
  handle ← arena_handle place.0 (length payload) a.generation
  let entry : Allocation = record {
    command_seq = command_seq;
    offset = place.0;
    size = length payload;
  }
  ok (
    handle,
    record a {
      bytes = splice place.0 payload a.bytes;
      head = place.1;
      tail = place.2;
      allocations = a.allocations ++ entry ∷ [];
    },
  )

unfoldable pub read : CommandArena → ArenaHandle → Result (List ℕ)
unfolding within
read a h = do
  raise_if (not (h.generation == a.generation)) value_error
  inside ← within h (capacity_bytes a)
  raise_if (not inside) value_error
  ok (slice h.offset h.length a.bytes)

-- The loop of `release_through`: the allocations that stay, and the tail.
unfoldable pub release_loop : ℕ → ℕ → List Allocation → ℕ → Result (List Allocation × ℕ)
release_loop capacity seq [] tail = ok ([], tail)
release_loop capacity seq (x ∷ xs) tail =
    let rest = release_loop capacity seq xs (end x % capacity) in
    elim (x.command_seq == seq) [
      | true ↦ rest
      | false ↦ do
        newer ← is_newer_or_equal u64 seq x.command_seq
        if newer then rest else ok (x ∷ xs, tail)
    ]

-- An empty arena starts over at 0.
unfoldable pub settle : CommandArena → List Allocation → ℕ → ℕ → CommandArena
settle a [] head tail = record a { allocations = []; head = 0; tail = 0 }
settle a (x ∷ xs) head tail = record a { allocations = x ∷ xs; head = head; tail = tail }

unfoldable pub release_through : CommandArena → ℕ → Result CommandArena
release_through a consumer_seq = do
  validate u64 consumer_seq
  left ← release_loop (capacity_bytes a) consumer_seq a.allocations a.tail
  ok (settle a left.0 a.head left.1)

unfoldable pub without_last : List Allocation → List Allocation
without_last [] = []
without_last (x ∷ []) = []
without_last (x ∷ y ∷ xs) = x ∷ without_last (y ∷ xs)

-- `self._allocations[-1].end % capacity` of a list that may be empty.
unfoldable pub head_after : ℕ → List Allocation → ℕ
unfolding last_allocation end
head_after capacity xs = elim (last_allocation xs) [ none ↦ 0 | some x ↦ end x % capacity ]

unfoldable pub discard_last : CommandArena → ℕ → Result CommandArena
discard_last a command_seq = do
  validate u64 command_seq
  raise_if
      (elim (last_allocation a.allocations) [
        | none ↦ true
        | some x ↦ not (x.command_seq == command_seq)
      ])
      value_error
  let left : List Allocation = without_last a.allocations
  ok (settle a left (head_after (capacity_bytes a) left) a.tail)
