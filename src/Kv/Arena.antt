-- ===== src/Kv/Arena.antt =====
-- nebulasd/src/nebulasd/kv/arena.py: extents, write leases and the two payload planes.
-- The shared-memory buffer is the list of its bytes; views are the ranges they select.
-- Creating, mapping and unlinking the segment is left out.
pub mod Facts
pub mod ReadWrite
use nebula_sd.Common.{
  ℕ, ◌+◌, ◌*◌, max, Bool, not, ◌&&◌, ◌||◌, List, Result, ok, err, ◌>>=◌, ◌>>◌, raise_if,
  value_error, capacity_error, ltb, leb, ◌==◌, length, take, drop, if◌then◌else◌,
}
use nebula_sd.Common.Bytes.{slice, splice}
use nebula_sd.Core.Ids.{u32, u64, validate, next}
use nebula_sd.Core.Handles.{ArenaHandle, arena_handle, within}

pub record HostKvExtent : Type 0 where
  pub request_slot : ℕ
  pub request_epoch : ℕ
  pub host_slot : ℕ
  pub host_slot_generation : ℕ
  pub writer_lease_generation : ℕ
  pub arena : ArenaHandle
  pub capacity_blocks : ℕ
  pub committed_blocks : ℕ
  pub kv_version : ℕ

-- `HostKVExtent.__post_init__`, run whenever an extent is built.
unfoldable pub checked_extent : HostKvExtent → Result HostKvExtent
unfolding validate
checked_extent e = do
  validate u32 e.request_slot
  validate u64 e.request_epoch
  validate u32 e.host_slot
  validate u64 e.host_slot_generation
  validate u64 e.writer_lease_generation
  validate u64 e.kv_version
  raise_if (e.capacity_blocks == 0) capacity_error
  raise_if (ltb e.capacity_blocks e.committed_blocks) capacity_error
  ok e

unfoldable pub next_version : HostKvExtent → ℕ → Result HostKvExtent
unfolding next checked_extent
next_version e committed_blocks = do
  raise_if (ltb e.capacity_blocks committed_blocks) capacity_error
  version ← next u64 e.kv_version
  checked_extent (record e { committed_blocks = committed_blocks; kv_version = version })

pub record HostKvWriteLease : Type 0 where
  pub request_slot : ℕ
  pub request_epoch : ℕ
  pub host_slot : ℕ
  pub host_slot_generation : ℕ
  pub writer_lease_generation : ℕ
  pub expected_version : ℕ
  pub dirty_begin_block : ℕ
  pub dirty_block_count : ℕ

-- `HostKVWriteLease.__post_init__`.
unfoldable pub checked_lease : HostKvWriteLease → Result HostKvWriteLease
unfolding validate
checked_lease l = do
  validate u32 l.request_slot
  validate u64 l.request_epoch
  validate u32 l.host_slot
  validate u64 l.host_slot_generation
  validate u64 l.writer_lease_generation
  validate u64 l.expected_version
  ok l

unfoldable pub for_extent : HostKvExtent → ℕ → ℕ → Result HostKvWriteLease
unfolding checked_lease
for_extent e dirty_begin_block dirty_block_count = checked_lease (record {
  request_slot = e.request_slot;
  request_epoch = e.request_epoch;
  host_slot = e.host_slot;
  host_slot_generation = e.host_slot_generation;
  writer_lease_generation = e.writer_lease_generation;
  expected_version = e.kv_version;
  dirty_begin_block = dirty_begin_block;
  dirty_block_count = dirty_block_count;
})

-- The numeric fields of the descriptor; names, dtype and block shape are not modelled.
pub record ArenaDescriptor : Type 0 where
  pub total_bytes : ℕ
  pub block_bytes : ℕ
  pub total_blocks : ℕ
  pub k_plane_offset : ℕ
  pub v_plane_offset : ℕ
  pub plane_bytes : ℕ
  pub descriptor_generation : ℕ

-- `SharedHostKVArenaDescriptor.__post_init__`.
unfoldable pub checked_descriptor : ArenaDescriptor → Result ArenaDescriptor
checked_descriptor d = do
  raise_if (d.total_bytes == 0) value_error
  raise_if (d.block_bytes == 0) value_error
  raise_if (d.total_blocks == 0) value_error
  raise_if (d.plane_bytes == 0) value_error
  raise_if (d.descriptor_generation == 0) value_error
  raise_if (not (d.k_plane_offset == 0)) value_error
  raise_if (not (d.plane_bytes == d.total_blocks * d.block_bytes)) value_error
  raise_if (not (d.v_plane_offset == d.plane_bytes)) value_error
  raise_if (not (d.v_plane_offset + d.plane_bytes == d.total_bytes)) value_error
  ok d

pub record HostKvArena : Type 0 where
  pub descriptor : ArenaDescriptor
  pub buf : List ℕ

-- `_validate_extent`
unfoldable pub validate_extent : ArenaDescriptor → HostKvExtent → Result (Unit {0})
unfolding within
validate_extent d e = do
  raise_if (not (e.arena.generation == d.descriptor_generation)) value_error
  raise_if (not (e.arena.length == e.capacity_blocks)) capacity_error
  fits ← within e.arena d.total_blocks
  raise_if (not fits) capacity_error

unfoldable pub make_extent : ArenaDescriptor → ℕ → ℕ → ℕ → ℕ → ℕ → ℕ → ℕ → Result HostKvExtent
unfolding arena_handle checked_extent validate_extent
make_extent d slot epoch host_slot generation lease_generation offset_blocks capacity_blocks = do
  handle ← arena_handle offset_blocks capacity_blocks d.descriptor_generation
  extent ← checked_extent (record {
    request_slot = slot;
    request_epoch = epoch;
    host_slot = host_slot;
    host_slot_generation = generation;
    writer_lease_generation = lease_generation;
    arena = handle;
    capacity_blocks = capacity_blocks;
    committed_blocks = 0;
    kv_version = 0;
  })
  validate_extent d extent
  ok extent

-- `_validate_write_lease`
unfoldable pub validate_write_lease :
    ArenaDescriptor → HostKvExtent → HostKvWriteLease → Result (Unit {0})
unfolding validate_extent
validate_write_lease d e l = do
  validate_extent d e
  raise_if
      (not (l.request_slot == e.request_slot)
        || not (l.request_epoch == e.request_epoch)
        || not (l.host_slot == e.host_slot)
        || not (l.host_slot_generation == e.host_slot_generation)
        || not (l.writer_lease_generation == e.writer_lease_generation))
      value_error
  raise_if (not (l.expected_version == e.kv_version)) value_error
  raise_if (ltb e.committed_blocks l.dirty_begin_block) capacity_error
  raise_if (ltb e.capacity_blocks (l.dirty_begin_block + l.dirty_block_count)) capacity_error

-- `rel_begin` of `_slot_view`: where a block range starts in either plane.
unfoldable pub rel_begin : ArenaDescriptor → HostKvExtent → ℕ → ℕ
rel_begin d e begin_block = (e.arena.offset + begin_block) * d.block_bytes

-- The bytes that the two views of `_slot_view` select.
unfoldable pub slot_view : HostKvArena → HostKvExtent → ℕ → ℕ → List ℕ × List ℕ
unfolding rel_begin
slot_view a e begin_block block_count =
    let at = rel_begin a.descriptor e begin_block in
    let nbytes = block_count * a.descriptor.block_bytes in
    (
      slice (a.descriptor.k_plane_offset + at) nbytes a.buf,
      slice (a.descriptor.v_plane_offset + at) nbytes a.buf,
    )

-- `read_kv`: the view, copied out.
unfoldable pub read_kv : HostKvArena → HostKvExtent → ℕ → ℕ → Result (List ℕ × List ℕ)
unfolding slot_view
read_kv a e begin_block block_count = do
  validate_extent a.descriptor e
  raise_if (ltb e.capacity_blocks (begin_block + block_count)) capacity_error
  ok (slot_view a e begin_block block_count)

-- `view.k[:] = k_payload` and `view.v[:] = v_payload`
unfoldable pub store_planes : HostKvArena → HostKvExtent → ℕ → List ℕ → List ℕ → HostKvArena
unfolding rel_begin
store_planes a e begin_block k_payload v_payload =
    let at = rel_begin a.descriptor e begin_block in
    record a {
      buf =
          splice (a.descriptor.v_plane_offset + at) v_payload
            (splice (a.descriptor.k_plane_offset + at) k_payload a.buf);
    }

-- The tests at the head of `write_kv`, in their order.
unfoldable pub write_check :
    ArenaDescriptor → HostKvExtent → HostKvWriteLease → List ℕ → List ℕ → Result (Unit {0})
unfolding validate_write_lease
write_check d e l k_payload v_payload = do
  raise_if (not (length k_payload == length v_payload)) value_error
  raise_if (not (length k_payload == l.dirty_block_count * d.block_bytes)) value_error
  validate_write_lease d e l

-- The payload is written before the new version is made, and stays written if that fails.
unfoldable pub write_kv :
    HostKvArena
    → HostKvExtent
    → HostKvWriteLease
    → List ℕ
    → List ℕ
    → Result HostKvExtent × HostKvArena
write_kv a e l k_payload v_payload = elim (write_check a.descriptor e l k_payload v_payload) [
  | err x ↦ (err x, a)
  | ok _ ↦ if l.dirty_block_count == 0 then (ok e, a) else (
    next_version e (max e.committed_blocks (l.dirty_begin_block + l.dirty_block_count)),
    store_planes a e l.dirty_begin_block k_payload v_payload,
  )
]
