-- ===== src/Kv/HostAllocator/Sound.antt =====
-- What holds of the allocator between calls, and that each call keeps it.
use native.Mathlib.Decide.{ℕ_discrete}
use nebula_sd.Common.{
  ℕ, ◌+◌, ◌≡◌, ap, ◌∙◌, true, false, [], ◌∷◌, ◌++◌, some, ok, arith, ltb, if◌then◌else◌, sum_of,
  sum_of-append,
}
use nebula_sd.Common.Assoc.{
  lookup, insert, Distinct, Distinct-insert, Distinct-remove, sum_of-insert_new, sum_of-remove,
  sum_of-insert_same, lookup-insert, lookup-remove_ne, lookup-remove_self,
}
use nebula_sd.Common.Sorting.{sorted, sum_of-sorted}
use nebula_sd.Kv.Arena.{HostKvExtent, ArenaDescriptor, validate_extent}
use nebula_sd.Kv.HostAllocator.Ranges.{covers, held, covers-first_fit, covers-coalesce}
use nebula_sd.Kv.HostAllocator.Changes.{Allocated, Recycled}
use nebula_sd.Kv.HostAllocator.{Allocation, HostKvAllocator, init, le_range}

-- How many free ranges and live allocations hold a block.
abbrev pub owners : HostKvAllocator → ℕ → ℕ
owners a b = sum_of (covers b) a.free + sum_of (held b) a.allocations

pub record IsSound (a : HostKvAllocator) : Type 0 where
  pub partition : (b : ℕ) → owners a b ≡ (if ltb b a.arena.total_blocks then 1 else 0)
  pub distinct : Distinct a.allocations
  pub keyed :
      (slot : ℕ) (x : Allocation)
      → lookup slot a.allocations ≡ some x
      → x.extent.request_slot ≡ slot
  pub exclusive :
      (slot : ℕ) (x : Allocation)
      → lookup slot a.allocations ≡ some x
      → x.writing ≡ true
      → x.readers ≡ 0
  pub valid :
      (slot : ℕ) (x : Allocation)
      → lookup slot a.allocations ≡ some x
      → validate_extent a.arena x.extent ≡ ok tt

pub init-IsSound : (d : ArenaDescriptor) → IsSound (init d)
unfolding init lookup
init-IsSound d = record {
  partition = λ b. ground arith;
  distinct = tt;
  keyed = λ slot x h. absurd (cc);
  exclusive = λ slot x h w. absurd (cc);
  valid = λ slot x h. absurd (cc);
}

-- Taking a range out of the free list for a new entry, and giving one back, change no block's owners.
allocate-owners :
    (a : HostKvAllocator) (slot epoch capacity : ℕ) (e : HostKvExtent) (a' : HostKvAllocator)
    → Allocated a slot epoch capacity e a'
    → (b : ℕ) → owners a' b ≡ owners a b
allocate-owners a slot epoch capacity e a' al b = rw al.added (
    omega (
      arith,
      sum_of-insert_new (held b) slot entry a.allocations al.was_absent,
      covers-first_fit b capacity a.free e.arena.offset a'.free al.fitted,
      ap (λ n. covers b (e.arena.offset, n)) al.made.capacity_made,
    ))
  where
    entry : Allocation
    entry = record { extent = e; readers = 0; writing = false }

recycle-owners :
    (a : HostKvAllocator) (slot epoch : ℕ) (entry : Allocation) (a' : HostKvAllocator)
    → Recycled a slot epoch entry a'
    → (b : ℕ) → owners a' b ≡ owners a b
recycle-owners a slot epoch entry a' re b =
    rw (re.removed, re.returned)
      (omega (
        arith,
        covers-coalesce b [] (sorted le_range (a.free ++ range ∷ [])),
        sum_of-sorted le_range (covers b) (a.free ++ range ∷ []),
        sum_of-append (covers b) a.free (range ∷ []),
        sum_of-remove (held b) slot entry a.allocations re.was_live,
      ))
  where
    range : ℕ × ℕ
    range = (entry.extent.arena.offset, entry.extent.capacity_blocks)

module _ (a : HostKvAllocator) (sound : IsSound a) where
  pub allocate-IsSound :
      (slot epoch capacity : ℕ) (e : HostKvExtent) (a' : HostKvAllocator)
      → Allocated a slot epoch capacity e a'
      → IsSound a'
  allocate-IsSound slot epoch capacity e a' al = record {
    partition =
        λ b. rw al.same_arena (allocate-owners a slot epoch capacity e a' al b ∙ sound.partition b);
    distinct = rw al.added (Distinct-insert slot _ a.allocations sound.distinct);
    keyed = λ s x h. ground (arith, lookup-insert slot s entry a.allocations, sound.keyed s x);
    exclusive =
        λ s x h w. ground (arith, lookup-insert slot s entry a.allocations, sound.exclusive s x);
    valid = λ s x h.
        rw al.same_arena
          (ground (arith, lookup-insert slot s entry a.allocations, sound.valid s x, al.valid));
  }
    where
      entry : Allocation
      entry = record { extent = e; readers = 0; writing = false }

  pub recycle-IsSound :
      (slot epoch : ℕ) (entry : Allocation) (a' : HostKvAllocator)
      → Recycled a slot epoch entry a'
      → IsSound a'
  recycle-IsSound slot epoch entry a' re = record {
    partition =
        λ b. rw re.same_arena (recycle-owners a slot epoch entry a' re b ∙ sound.partition b);
    distinct = rw re.removed (Distinct-remove slot a.allocations sound.distinct);
    keyed = λ s x h. sound.keyed s x (kept s x h);
    exclusive = λ s x h w. sound.exclusive s x (kept s x h) w;
    valid = λ s x h. rw re.same_arena (sound.valid s x (kept s x h));
  }
    where
      kept :
          (s : ℕ) (x : Allocation)
          → lookup s a'.allocations ≡ some x
          → lookup s a.allocations ≡ some x
      kept s x h = elim (ℕ_discrete slot s) [
        | yes same ↦ absurd (ground (arith, lookup-remove_self slot a.allocations sound.distinct))
        | no ne ↦ ground (arith, lookup-remove_ne slot s a.allocations ne)
      ]

  -- Writing back an entry that keeps its extent.
  pub rewrite-IsSound :
      (slot : ℕ) (x y : Allocation)
      → lookup slot a.allocations ≡ some x
      → y.extent ≡ x.extent
      → (y.writing ≡ true → y.readers ≡ 0)
      → IsSound (record a { allocations = insert slot y a.allocations })
  rewrite-IsSound slot x y live same excl = record {
    partition = λ b.
        rw (sum_of-insert_same (held b) slot x y a.allocations live (rw same)) (sound.partition b);
    distinct = Distinct-insert slot y a.allocations sound.distinct;
    keyed = λ s z h.
        ground
          (arith, lookup-insert slot s y a.allocations, sound.keyed s z, sound.keyed slot x live);
    exclusive =
        λ s z h w. ground (arith, lookup-insert slot s y a.allocations, sound.exclusive s z);
    valid = λ s z h. ground (
      arith,
      lookup-insert slot s y a.allocations,
      sound.valid s z,
      ap (validate_extent a.arena) same,
      sound.valid slot x live,
    );
  }
