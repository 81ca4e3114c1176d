-- ===== src/Kv/HostAllocator.antt =====
-- nebulasd/src/nebulasd/kv/host_allocator.py: first-fit allocation of HostKV blocks, pins, and
-- recycling with coalescing. Every method runs under one lock, so a call is one step.
pub mod Ranges
pub mod Changes
pub mod Sound
pub mod Calls
pub mod Partition
pub mod Pins
pub mod Stale
use nebula_sd.Common.{
  ℕ, ◌+◌, ◌-◌, Bool, true, false, not, ◌&&◌, ◌||◌, List, [], ◌∷◌, ◌++◌, Option, none, some, Result,
  ok, err, ◌>>=◌, ◌>>◌, raise_if, value_error, capacity_error, runtime_error, ltb, leb, ◌==◌,
  if◌then◌else◌, length,
}
use nebula_sd.Common.Assoc.{Assoc, lookup, insert, remove}
use nebula_sd.Common.Sorting.{sorted}
use nebula_sd.Core.Ids.{u64, next, validate}
use nebula_sd.Core.Handles.{ArenaHandle}
use nebula_sd.Kv.Arena.{HostKvExtent, ArenaDescriptor, make_extent}
use mathlib.Core.List.{reverse}

pub record Allocation : Type 0 where
  pub extent : HostKvExtent
  pub readers : ℕ
  pub writing : Bool

pub record HostKvAllocator : Type 0 where
  pub arena : ArenaDescriptor
  pub free : List (ℕ × ℕ)
  pub allocations : Assoc Allocation
  pub generations : Assoc ℕ

unfoldable pub init : ArenaDescriptor → HostKvAllocator
init d = record { arena = d; free = (0, d.total_blocks) ∷ []; allocations = []; generations = [] }

-- The dataclass `==` of two extents.
unfoldable pub same_extent : HostKvExtent → HostKvExtent → Bool
same_extent a b =
    a.request_slot == b.request_slot
    && a.request_epoch == b.request_epoch
    && a.host_slot == b.host_slot
    && a.host_slot_generation == b.host_slot_generation
    && a.writer_lease_generation == b.writer_lease_generation
    && a.arena.offset == b.arena.offset
    && a.arena.length == b.arena.length
    && a.arena.generation == b.arena.generation
    && a.capacity_blocks == b.capacity_blocks
    && a.committed_blocks == b.committed_blocks
    && a.kv_version == b.kv_version

-- The loop of `allocate`: the offset of the first free range that is large enough, and what becomes
-- of the free list.
unfoldable pub first_fit : ℕ → List (ℕ × ℕ) → Option (ℕ × List (ℕ × ℕ))
first_fit capacity [] = none
first_fit capacity ((offset, available) ∷ rest) =
    let later = first_fit capacity rest in
    if ltb available capacity
    then elim later [ none ↦ none | some (at, rest') ↦ some (at, (offset, available) ∷ rest') ]
    else some (
      offset,
      (if ltb capacity available then (offset + capacity, available - capacity) ∷ rest else rest),
    )

-- `self._generations.get(request_slot, 1)`
unfoldable pub generation_of : HostKvAllocator → ℕ → ℕ
generation_of a slot = elim (lookup slot a.generations) [ none ↦ 1 | some g ↦ g ]

place :
    HostKvAllocator
    → ℕ
    → ℕ
    → ℕ
    → Option (ℕ × List (ℕ × ℕ))
    → Result (HostKvExtent × HostKvAllocator)
place a slot epoch capacity none = err capacity_error
place a slot epoch capacity (some (offset, free)) = do
  extent ←
      make_extent a.arena slot epoch slot (generation_of a slot) (generation_of a slot) offset
        capacity
  let entry : Allocation = record { extent = extent; readers = 0; writing = false }
  ok (extent, record a { free = free; allocations = insert slot entry a.allocations })

unfoldable pub allocate : HostKvAllocator → ℕ → ℕ → ℕ → Result (HostKvExtent × HostKvAllocator)
unfolding place
allocate a slot epoch capacity = elim (lookup slot a.allocations) [
  | some _ ↦ err value_error
  | none ↦
      if capacity == 0
      then err value_error
      else place a slot epoch capacity (first_fit capacity a.free)
]

-- `require`, with the whole allocation that the callers go on to read.
unfoldable pub require : HostKvAllocator → ℕ → ℕ → Result Allocation
require a slot epoch = elim (lookup slot a.allocations) [
  | none ↦ err value_error
  | some entry ↦ if entry.extent.request_epoch == epoch then ok entry else err value_error
]

unfoldable pub pin_entry : Bool → Allocation → Allocation
pin_entry true entry = record entry { writing = true }
pin_entry false entry = record entry { readers = entry.readers + 1 }

-- `false` says that a live pin conflicts.
unfoldable pub pin : HostKvAllocator → HostKvExtent → Bool → Result (Bool × HostKvAllocator)
pin a extent write = do
  entry ← require a extent.request_slot extent.request_epoch
  raise_if (not (same_extent entry.extent extent)) value_error
  ok (
      if entry.writing || (write && not (entry.readers == 0)) then (false, a) else (
        true,
        record a { allocations = insert extent.request_slot (pin_entry write entry) a.allocations },
      ))

unfoldable pub unpin_entry : Bool → Allocation → Allocation
unpin_entry true entry = record entry { writing = false }
unpin_entry false entry = record entry { readers = entry.readers - 1 }

unfoldable pub unpin : HostKvAllocator → HostKvExtent → Bool → Result HostKvAllocator
unpin a extent write = do
  entry ← require a extent.request_slot extent.request_epoch
  raise_if (not (same_extent entry.extent extent)) value_error
  raise_if (if write then not entry.writing else entry.readers == 0) value_error
  ok (record a { allocations = insert extent.request_slot (unpin_entry write entry) a.allocations })

-- Pairs in Python's order.
unfoldable pub le_range : ℕ × ℕ → ℕ × ℕ → Bool
le_range (o, l) (p, m) = ltb o p || (o == p && leb l m)

-- The loop that builds `merged`, its last range first.
unfoldable pub coalesce : List (ℕ × ℕ) → List (ℕ × ℕ) → List (ℕ × ℕ)
coalesce merged [] = reverse merged
coalesce [] (range ∷ rest) = coalesce (range ∷ []) rest
coalesce ((previous, size) ∷ merged) ((offset, length) ∷ rest) =
    coalesce
      (if previous + size == offset
        then (previous, size + length) ∷ merged
        else (offset, length) ∷ (previous, size) ∷ merged)
      rest

unfoldable pub recycle : HostKvAllocator → ℕ → ℕ → Bool → Result HostKvAllocator
recycle a slot epoch quiescent = do
  entry ← require a slot epoch
  raise_if (not quiescent || entry.writing || not (entry.readers == 0)) runtime_error
  generation ← next u64 entry.extent.host_slot_generation
  validate u64 generation
  ok (record a {
    generations = insert slot generation a.generations;
    allocations = remove slot a.allocations;
    free = coalesce [] (
        sorted le_range (a.free ++ (entry.extent.arena.offset, entry.extent.capacity_blocks) ∷ []));
  })

unfoldable pub allocated_count : HostKvAllocator → ℕ
allocated_count a = length a.allocations
