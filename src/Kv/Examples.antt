-- ===== src/Kv/Examples.antt =====
-- Concrete runs of the HostKV arena, its allocator and its copy plans.
use nebula_sd.Common.{
  ℕ, ◌≡◌, refl, inr, true, false, List, [], ◌∷◌, some, ok, err, Exception, replicate, arith,
  value_error,
}
use nebula_sd.Common.Assoc.{lookup, insert, remove}
use nebula_sd.Common.Sorting.{sorted}
use nebula_sd.Core.Ids.{validate, next}
use nebula_sd.Kv.Arena.{
  HostKvExtent, HostKvWriteLease, ArenaDescriptor, HostKvArena, checked_descriptor, checked_extent,
  next_version, validate_extent, validate_write_lease, make_extent, read_kv, write_check, write_kv,
  store_planes,
}
use nebula_sd.Kv.Arena.Facts.{IsArena}
use nebula_sd.Kv.Arena.ReadWrite.{read_kv-write_kv, read_kv-write_kv_ne, write_kv_twice}
use nebula_sd.Kv.HostAllocator.{
  Allocation, HostKvAllocator, init, allocate, recycle, pin, unpin, require, first_fit,
  generation_of, same_extent, pin_entry, coalesce, le_range,
}
use nebula_sd.Kv.HostAllocator.Sound.{owners}
use nebula_sd.Kv.HostAllocator.Calls.{Call, allocates, pins, recycles, run}
use nebula_sd.Kv.HostAllocator.Partition.{owners-run, writing-readers, read_kv_isolated}
use nebula_sd.Kv.HostAllocator.Pins.{unpin-pin}
use nebula_sd.Kv.HostAllocator.Stale.{pin_recycled}
use nebula_sd.Kv.Transfer.{
  CopyRegion, CopyPlan, h2d, is_direction, is_h2d, checked_plan, PlanChunk, plan_chunks,
}
use nebula_sd.Kv.Transfer.Chunks.{AllChunks, regions_of, plan_chunks-regions}

-- Eight blocks of two bytes.
abbrev small_arena : ArenaDescriptor
small_arena = record {
  total_bytes = 32;
  block_bytes = 2;
  total_blocks = 8;
  k_plane_offset = 0;
  v_plane_offset = 16;
  plane_bytes = 16;
  descriptor_generation = 1;
}

abbrev segment : HostKvArena
segment = record { descriptor = small_arena; buf = replicate 32 0 }

segment-IsArena : IsArena segment
unfolding checked_descriptor
segment-IsArena = record { checked = refl; mapped = omega arith }

abbrev extent_at : ℕ → ℕ → ℕ → ℕ → HostKvExtent
extent_at slot epoch offset capacity = record {
  request_slot = slot;
  request_epoch = epoch;
  host_slot = slot;
  host_slot_generation = 1;
  writer_lease_generation = 1;
  arena = record { offset = offset; length = capacity; generation = 1 };
  capacity_blocks = capacity;
  committed_blocks = 0;
  kv_version = 0;
}

abbrev first_extent : HostKvExtent
first_extent = extent_at 0 5 0 3

abbrev second_extent : HostKvExtent
second_extent = extent_at 1 6 3 2

abbrev quiet : HostKvExtent → Allocation
quiet e = record { extent = e; readers = 0; writing = false }

abbrev two_requests : List Call
two_requests = allocates 0 5 3 ∷ allocates 1 6 2 ∷ []

-- One block of the second extent, from its first block.
abbrev lease : HostKvWriteLease
lease = record {
  request_slot = 1;
  request_epoch = 6;
  host_slot = 1;
  host_slot_generation = 1;
  writer_lease_generation = 1;
  expected_version = 0;
  dirty_begin_block = 0;
  dirty_block_count = 1;
}

abbrev written_extent : HostKvExtent
written_extent = record second_extent { committed_blocks = 1; kv_version = 1 }

abbrev written_segment : HostKvArena
written_segment = store_planes segment second_extent 0 (1 ∷ 2 ∷ []) (3 ∷ 4 ∷ [])

write_second :
    write_kv segment second_extent lease (1 ∷ 2 ∷ []) (3 ∷ 4 ∷ [])
    ≡ (ok written_extent, written_segment)
unfolding write_kv write_check validate_extent validate_write_lease next_version checked_extent next
    validate
write_second = refl

owners-run_example :
    owners (run (init small_arena) (allocates 0 5 3 ∷ allocates 1 6 2 ∷ recycles 0 5 true ∷ [])) 2
    ≡ 1
owners-run_example =
    owners-run small_arena (allocates 0 5 3 ∷ allocates 1 6 2 ∷ recycles 0 5 true ∷ []) 2

find_first : lookup 0 (run (init small_arena) two_requests).allocations ≡ some (quiet first_extent)
unfolding run init allocate first_fit generation_of make_extent lookup insert
find_first = refl

find_second :
    lookup 1 (run (init small_arena) two_requests).allocations ≡ some (quiet second_extent)
unfolding run init allocate first_fit generation_of make_extent lookup insert
find_second = refl

read_kv_isolated_example :
    read_kv written_segment first_extent 0 3 ≡ read_kv segment first_extent 0 3
unfolding validate_extent
read_kv_isolated_example =
    read_kv_isolated small_arena two_requests 0 1 (quiet first_extent) (quiet second_extent) segment
      first_extent second_extent 0 3 lease (1 ∷ 2 ∷ []) (3 ∷ 4 ∷ []) written_extent written_segment
      find_first find_second (λ e. omega arith) segment-IsArena refl refl refl refl refl
      (omega arith) (omega arith) (omega arith) write_second

read_kv-write_kv_example : read_kv written_segment written_extent 0 1 ≡ ok (1 ∷ 2 ∷ [], 3 ∷ 4 ∷ [])
read_kv-write_kv_example =
    read_kv-write_kv segment second_extent lease (1 ∷ 2 ∷ []) (3 ∷ 4 ∷ []) written_extent
      written_segment segment-IsArena write_second

read_kv-write_kv_ne_example :
    read_kv written_segment second_extent 1 1 ≡ read_kv segment second_extent 1 1
unfolding validate_extent
read_kv-write_kv_ne_example =
    read_kv-write_kv_ne segment second_extent 1 1 second_extent lease (1 ∷ 2 ∷ []) (3 ∷ 4 ∷ [])
      written_extent written_segment segment-IsArena refl (omega arith) (inr (omega arith))
      write_second

write_kv_twice_example :
    (x : Exception) × (write_kv written_segment written_extent lease (9 ∷ 9 ∷ []) (9 ∷ 9 ∷ [])
      ≡ (err x, written_segment))
write_kv_twice_example =
    write_kv_twice segment second_extent lease (1 ∷ 2 ∷ []) (3 ∷ 4 ∷ []) written_extent
      written_segment (omega arith) write_second (9 ∷ 9 ∷ []) (9 ∷ 9 ∷ [])

abbrev writer_pinned : List Call
writer_pinned = allocates 0 5 3 ∷ pins first_extent true ∷ []

writing-readers_example : (record (quiet first_extent) { writing = true }).readers ≡ 0
unfolding run init allocate first_fit generation_of make_extent lookup insert pin require
    same_extent pin_entry
writing-readers_example =
    writing-readers small_arena writer_pinned 0 (record (quiet first_extent) { writing = true })
      refl refl

abbrev one_request : HostKvAllocator
one_request = run (init small_arena) (allocates 0 5 3 ∷ [])

abbrev after_recycle : HostKvAllocator
after_recycle = record {
  arena = small_arena;
  free = (0, 8) ∷ [];
  allocations = [];
  generations = (0, 2) ∷ [];
}

abbrev renewed : HostKvExtent
renewed = record (extent_at 0 7 0 3) { host_slot_generation = 2; writer_lease_generation = 2 }

-- The slot is allocated again, and another one after it.
abbrev later_calls : List Call
later_calls = allocates 0 7 3 ∷ pins renewed false ∷ allocates 1 2 2 ∷ []

pin_recycled_example : pin (run after_recycle later_calls) first_extent false ≡ err value_error
unfolding run init allocate first_fit generation_of make_extent lookup insert remove recycle require
    coalesce sorted le_range next validate
pin_recycled_example =
    pin_recycled small_arena (allocates 0 5 3 ∷ []) 0 5 true (quiet first_extent) after_recycle
      later_calls false refl refl (omega arith)

unpin-pin_example :
    (a' a'' : HostKvAllocator) × (pin one_request first_extent true ≡ ok (true, a'))
    × (unpin a' first_extent true ≡ ok a'')
    × (lookup 0 a''.allocations ≡ some (quiet first_extent))
unfolding run init allocate first_fit generation_of make_extent lookup insert
unpin-pin_example = unpin-pin one_request (quiet first_extent) true refl refl

abbrev region : ℕ → ℕ → CopyRegion
region first count = record {
  extent = first_extent;
  gpu_begin_block = first;
  host_begin_block = 0;
  block_count = count;
}

abbrev import_plan : CopyPlan ℕ
import_plan = record {
  direction = h2d;
  regions = region 0 1 ∷ region 1 1 ∷ region 2 3 ∷ [];
  dependencies = 7 ∷ [];
  round_ids = 4 ∷ 4 ∷ 5 ∷ [];
}

plan_chunks-regions_example :
    (cs : List (PlanChunk ℕ)) × (plan_chunks import_plan 2 8 ≡ ok cs)
    × AllChunks import_plan 2 8 cs
    × (regions_of cs ≡ region 0 1 ∷ region 1 1 ∷ region 2 3 ∷ [])
unfolding checked_plan is_direction is_h2d
plan_chunks-regions_example =
    plan_chunks-regions import_plan 2 8 refl refl (omega arith) (omega arith)
