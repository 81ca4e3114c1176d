-- ===== src/Kv/HostAllocator/Changes.antt =====
-- How the calls that succeed change the allocator.
use nebula_sd.Common.{
  ℕ, ◌≡◌, Bool, false, List, [], ◌∷◌, ◌++◌, none, some, ok, arith, Option-cases, Result-cases,
  >>=-ok, inl, inr,
}
use nebula_sd.Common.Assoc.{lookup, insert, remove, lookup-insert_self}
use nebula_sd.Common.Sorting.{sorted}
use nebula_sd.Core.Ids.{u64, next, validate}
use nebula_sd.Kv.Arena.{HostKvExtent, validate_extent}
use nebula_sd.Kv.HostAllocator.Ranges.{Made, make_extent-Made, make_extent-valid}
use nebula_sd.Kv.HostAllocator.{
  Allocation, HostKvAllocator, first_fit, place, allocate, require, recycle, coalesce, le_range,
  generation_of,
}

-- How a successful `allocate` changed the state.
pub record Allocated (a : HostKvAllocator) (slot epoch capacity : ℕ) (e : HostKvExtent)
    (a' : HostKvAllocator) : Type 0 where
  pub was_absent : lookup slot a.allocations ≡ none
  pub made : Made e slot epoch (generation_of a slot) e.arena.offset capacity
  pub valid : validate_extent a.arena e ≡ ok tt
  pub fitted : first_fit capacity a.free ≡ some (e.arena.offset, a'.free)
  pub same_arena : a'.arena ≡ a.arena
  pub same_generations : a'.generations ≡ a.generations
  pub added :
      a'.allocations
      ≡ insert slot (record { extent = e; readers = 0; writing = false }) a.allocations

allocated :
    (a : HostKvAllocator) (slot epoch capacity offset : ℕ) (free : List (ℕ × ℕ)) (e : HostKvExtent)
    (a' : HostKvAllocator)
    → lookup slot a.allocations ≡ none
    → first_fit capacity a.free ≡ some (offset, free)
    → place a slot epoch capacity (some (offset, free)) ≡ ok (e, a')
    → Allocated a slot epoch capacity e a'
unfolding place
allocated a slot epoch capacity offset free e a' absent fit h =
    let (x, made, same) = >>=-ok _ _ h in
    ground (
      arith,
      make_extent-Made a.arena slot epoch slot (generation_of a slot) (generation_of a slot) offset
          capacity x made,
      make_extent-valid a.arena slot epoch slot (generation_of a slot) (generation_of a slot) offset
          capacity x made,
    )

pub allocate-Allocated :
    (a : HostKvAllocator) (slot epoch capacity : ℕ) (e : HostKvExtent) (a' : HostKvAllocator)
    → allocate a slot epoch capacity ≡ ok (e, a')
    → Allocated a slot epoch capacity e a'
unfolding allocate
allocate-Allocated a slot epoch capacity e a' h = elim (Option-cases (first_fit capacity a.free)) [
  | inl missing ↦ absurd (ground (arith, missing))
  | inr ((offset, free), fit) ↦
      ground (arith, fit, allocated a slot epoch capacity offset free e a')
]

-- How a successful `recycle` changed the state.
pub record Recycled (a : HostKvAllocator) (slot epoch : ℕ) (entry : Allocation)
    (a' : HostKvAllocator) : Type 0 where
  pub was_live : lookup slot a.allocations ≡ some entry
  pub same_epoch : entry.extent.request_epoch ≡ epoch
  pub idle : (entry.writing ≡ false) × (entry.readers ≡ 0)
  pub advanced : next u64 entry.extent.host_slot_generation ≡ ok (generation_of a' slot)
  pub same_arena : a'.arena ≡ a.arena
  pub removed : a'.allocations ≡ remove slot a.allocations
  pub returned :
      a'.free
      ≡ coalesce [] (
          sorted le_range
            (a.free ++ (entry.extent.arena.offset, entry.extent.capacity_blocks) ∷ []))

recycled :
    (a : HostKvAllocator) (slot epoch : ℕ) (quiescent : Bool) (a' : HostKvAllocator)
    (entry : Allocation) (g : ℕ)
    → lookup slot a.allocations ≡ some entry
    → next u64 entry.extent.host_slot_generation ≡ ok g
    → recycle a slot epoch quiescent ≡ ok a'
    → Recycled a slot epoch entry a'
unfolding recycle require validate generation_of
recycled a slot epoch quiescent a' entry g live advanced h =
    ground (arith, lookup-insert_self slot g a.generations)

pub recycle-Recycled :
    (a : HostKvAllocator) (slot epoch : ℕ) (quiescent : Bool) (a' : HostKvAllocator)
    → recycle a slot epoch quiescent ≡ ok a'
    → (entry : Allocation) × Recycled a slot epoch entry a'
unfolding recycle require
recycle-Recycled a slot epoch quiescent a' h = elim (Option-cases (lookup slot a.allocations)) [
  | inl missing ↦ absurd (ground (arith, missing))
  | inr (entry, live) ↦ elim (Result-cases (next u64 entry.extent.host_slot_generation)) [
    | inl (g, advanced) ↦ (entry, recycled a slot epoch quiescent a' entry g live advanced h)
    | inr (x, failed) ↦ absurd (ground (arith, live, failed))
  ]
]
