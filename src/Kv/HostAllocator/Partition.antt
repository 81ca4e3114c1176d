-- ===== src/Kv/HostAllocator/Partition.antt =====
-- Every block of the arena is free once or allocated once, and live extents keep apart.
use nebula_sd.Common.{
  ℕ, ◌+◌, ◌≤◌, ◌<◌, ◌≡◌, ◌≢◌, List, ok, some, arith, ltb, ◌⊎◌, if◌then◌else◌, Bool, true, false, ap,
  ◌∙◌,
}
use nebula_sd.Common.Assoc.{lookup, remove, lookup-remove_ne, sum_of-remove}
use nebula_sd.Kv.Arena.{
  HostKvExtent, HostKvWriteLease, HostKvArena, ArenaDescriptor, validate_extent, read_kv, write_kv,
}
use nebula_sd.Kv.Arena.Facts.{IsArena, leased, write_kv-checked}
use nebula_sd.Kv.Arena.ReadWrite.{Apart, read_kv-write_kv_ne}
use nebula_sd.Kv.HostAllocator.Ranges.{covers, held}
use nebula_sd.Kv.HostAllocator.Sound.{IsSound, owners}
use nebula_sd.Kv.HostAllocator.Calls.{Call, run, run-init-IsSound, arena-run-init}
use nebula_sd.Kv.HostAllocator.{Allocation, HostKvAllocator, init}

-- After any calls on a new allocator a block of the arena is held by exactly one free range or live
-- allocation, and any other block by none.
pub owners-run :
    (d : ArenaDescriptor) (cs : List Call) (b : ℕ)
    → owners (run (init d) cs) b ≡ (if ltb b d.total_blocks then 1 else 0)
owners-run d cs b =
    (run-init-IsSound d cs).partition b
    ∙ ap (λ (e : ArenaDescriptor). if ltb b e.total_blocks then 1 else 0) (arena-run-init d cs)

-- After any calls on a new allocator an allocation that is pinned for writing has no readers.
pub writing-readers :
    (d : ArenaDescriptor) (cs : List Call) (slot : ℕ) (x : Allocation)
    → lookup slot (run (init d) cs).allocations ≡ some x
    → x.writing ≡ true
    → x.readers ≡ 0
writing-readers d cs = (run-init-IsSound d cs).exclusive

-- Two entries of different slots hold no block together.
held_once :
    (a : HostKvAllocator) (i j : ℕ) (x y : Allocation)
    → IsSound a
    → lookup i a.allocations ≡ some x
    → lookup j a.allocations ≡ some y
    → i ≢ j
    → (b : ℕ) → held b (i, x) + held b (j, y) ≤ 1
held_once a i j x y s hx hy ne b = omega (
  arith,
  sum_of-remove (held b) i x a.allocations hx,
  sum_of-remove (held b) j y (remove i a.allocations) (lookup-remove_ne i j a.allocations ne ∙ hy),
  at_most_one (ltb b a.arena.total_blocks),
  s.partition b,
)
  where
    at_most_one : (t : Bool) → (if t then 1 else 0) ≤ 1
    at_most_one true = omega arith
    at_most_one false = omega arith

apart_of_covers :
    (o c p m : ℕ) (b n b' n' : ℕ)
    → b + n ≤ c
    → b' + n' ≤ m
    → 0 < n
    → 0 < n'
    → ((k : ℕ) → covers k (o, c) + covers k (p, m) ≤ 1)
    → ((o + b + n ≤ p + b') ⊎ (p + b' + n' ≤ o + b))
apart_of_covers o c p m b n b' n' h h' pos pos' once = ground (arith, once (o + b), once (p + b'))

-- Reads are isolated: after any calls on a new allocator, a write that succeeds through an extent
-- with the blocks of one live allocation leaves what is read at any non-empty range of an extent
-- with the blocks of another slot's live allocation.
pub read_kv_isolated :
    (d : ArenaDescriptor) (cs : List Call) (i j : ℕ) (x y : Allocation) (h : HostKvArena)
    (e f : HostKvExtent) (b n : ℕ) (l : HostKvWriteLease) (k v : List ℕ) (f' : HostKvExtent)
    (h' : HostKvArena)
    → lookup i (run (init d) cs).allocations ≡ some x
    → lookup j (run (init d) cs).allocations ≡ some y
    → i ≢ j
    → IsArena h
    → e.arena ≡ x.extent.arena
    → e.capacity_blocks ≡ x.extent.capacity_blocks
    → f.arena ≡ y.extent.arena
    → f.capacity_blocks ≡ y.extent.capacity_blocks
    → validate_extent h.descriptor e ≡ ok tt
    → 0 < n
    → b + n ≤ e.capacity_blocks
    → 0 < l.dirty_block_count
    → write_kv h f l k v ≡ (ok f', h')
    → read_kv h' e b n ≡ read_kv h e b n
read_kv_isolated d cs i j x y h e f b n l k v f' h' hx hy ne ia ea ec fa fc valid pos fit pos' w =
    read_kv-write_kv_ne h e b n f l k v f' h' ia valid fit apart w
  where
    fit' : l.dirty_begin_block + l.dirty_block_count ≤ f.capacity_blocks
    fit' = (leased h.descriptor f l k v (write_kv-checked h f l k v f' h' w).0).inside

    apart : Apart e b n f l.dirty_begin_block l.dirty_block_count
    apart =
        rw (ea, fa)
          (apart_of_covers x.extent.arena.offset x.extent.capacity_blocks y.extent.arena.offset
            y.extent.capacity_blocks b n l.dirty_begin_block l.dirty_block_count (omega (arith, ec))
            (omega (arith, fc, fit')) pos pos'
            (held_once (run (init d) cs) i j x y (run-init-IsSound d cs) hx hy ne))
