-- ===== src/Ipc/Protocol/Wire/Draft.antt =====
-- The bytes of the rows of nebulasd/src/nebulasd/ipc/draft_protocol.py and of the snapshot identity
-- of nebulasd/src/nebulasd/core/draft_contracts.py. `struct.unpack` of a fixed format is the reading
-- of its fields in order.
use nebula_sd.Common.{[], ◌∷◌, Result, ok, err, value_error, length, ◌==◌, if◌then◌else◌}
use nebula_sd.Core.Handles.{ArenaHandle}
use nebula_sd.Core.DraftContracts.{
  DraftHostAllocation, DraftSnapshotIdentity, checked_allocation, checked_identity, require_handle,
  identity_bytes,
}
use nebula_sd.Ipc.DraftProtocol.{
  DraftPrepareRequest, DraftRunRequest, checked_draft_prepare, checked_draft_run,
}
use nebula_sd.Ipc.Protocol.Wire.Reader.{
  Bytes, Reader, ◌>>=◌, lift, join, pack, fixed, raw_bytes, get_u32, get_u64, get_handle,
}

-- `pack_handle`
unfoldable pub pack_handle : ArenaHandle → Result Bytes
unfolding require_handle join pack
pack_handle h = elim (require_handle h) [
  | err x ↦ err x
  | ok _ ↦ join (pack 8 h.offset ∷ pack 4 h.length ∷ pack 4 h.generation ∷ [])
]

-- The value of a reader that has run, whatever it left.
abbrev pub taken {ℓ} : {A : Type ℓ} → Result (A × Bytes) → Result A
taken (ok (a, rest)) = ok a
taken (err x) = err x

unfoldable pub put_allocation : DraftHostAllocation → Result Bytes
unfolding join pack
put_allocation r = join (
    pack 4 r.arena_id
    ∷ pack 4 r.arena_generation
    ∷ pack 8 r.layout_id
    ∷ pack 8 r.host_slot_generation
    ∷ pack 8 r.writer_lease_generation
    ∷ pack 8 r.offset_blocks
    ∷ pack 4 r.host_slot
    ∷ pack 4 r.capacity_blocks
    ∷ pack 8 r.block_size
    ∷ [])

unfoldable pub get_allocation : Reader DraftHostAllocation
unfolding checked_allocation ◌>>=◌ lift get_u32 get_u64
get_allocation = do
  arena_id ← get_u32
  arena_generation ← get_u32
  layout_id ← get_u64
  host_slot_generation ← get_u64
  writer_lease_generation ← get_u64
  offset_blocks ← get_u64
  host_slot ← get_u32
  capacity_blocks ← get_u32
  block_size ← get_u64
  lift (
      checked_allocation (record {
        arena_id = arena_id;
        arena_generation = arena_generation;
        layout_id = layout_id;
        host_slot_generation = host_slot_generation;
        writer_lease_generation = writer_lease_generation;
        offset_blocks = offset_blocks;
        host_slot = host_slot;
        capacity_blocks = capacity_blocks;
        block_size = block_size;
      }))

unfoldable pub put_identity : DraftSnapshotIdentity → Result Bytes
unfolding join pack put_allocation
put_identity r = join (
    pack 4 r.request_slot
    ∷ pack 8 r.request_epoch
    ∷ pack 8 r.round_id
    ∷ pack 8 r.op_seq
    ∷ pack 4 r.worker_id
    ∷ pack 8 r.worker_generation
    ∷ pack 8 r.owner_epoch
    ∷ pack 8 r.snapshot_version
    ∷ pack 4 r.logical_kv_len
    ∷ pack 4 r.valid_blocks
    ∷ put_allocation r.allocation
    ∷ [])

unfoldable pub get_identity : Reader DraftSnapshotIdentity
unfolding checked_identity ◌>>=◌ lift get_u32 get_u64 get_allocation
get_identity = do
  request_slot ← get_u32
  request_epoch ← get_u64
  round_id ← get_u64
  op_seq ← get_u64
  worker_id ← get_u32
  worker_generation ← get_u64
  owner_epoch ← get_u64
  snapshot_version ← get_u64
  logical_kv_len ← get_u32
  valid_blocks ← get_u32
  allocation ← get_allocation
  lift (
      checked_identity (record {
        request_slot = request_slot;
        request_epoch = request_epoch;
        round_id = round_id;
        op_seq = op_seq;
        worker_id = worker_id;
        worker_generation = worker_generation;
        owner_epoch = owner_epoch;
        snapshot_version = snapshot_version;
        logical_kv_len = logical_kv_len;
        valid_blocks = valid_blocks;
        allocation = allocation;
      }))

-- `from_bytes`, on the bytes of exactly one identity.
unfoldable pub identity_from_bytes : Bytes → Result DraftSnapshotIdentity
unfolding get_identity
identity_from_bytes raw =
    if length raw == identity_bytes then taken (get_identity raw) else err value_error

unfoldable pub get_source : Reader DraftSnapshotIdentity
unfolding raw_bytes identity_from_bytes ◌>>=◌ lift
get_source = do raw ← raw_bytes identity_bytes; lift (identity_from_bytes raw)

unfoldable pub put_draft_prepare : DraftPrepareRequest → Result Bytes
unfolding join pack fixed pack_handle put_identity
put_draft_prepare r = join (
    put_identity r.source
    ∷ pack_handle r.snapshot_handle
    ∷ pack 8 r.prepare_seq
    ∷ pack 8 r.next_round_id
    ∷ pack 8 r.next_owner_epoch
    ∷ pack 4 r.destination_offset_blocks
    ∷ pack 4 r.destination_capacity_blocks
    ∷ fixed 4 r.growth_token_budget
    ∷ [])

unfoldable pub get_draft_prepare : Reader DraftPrepareRequest
unfolding checked_draft_prepare ◌>>=◌ lift get_u32 get_u64 get_handle get_source
get_draft_prepare = do
  source ← get_source
  snapshot_handle ← get_handle
  prepare_seq ← get_u64
  next_round_id ← get_u64
  next_owner_epoch ← get_u64
  destination_offset_blocks ← get_u32
  destination_capacity_blocks ← get_u32
  growth_token_budget ← get_u32
  lift (
      checked_draft_prepare (record {
        source = source;
        snapshot_handle = snapshot_handle;
        prepare_seq = prepare_seq;
        next_round_id = next_round_id;
        next_owner_epoch = next_owner_epoch;
        destination_offset_blocks = destination_offset_blocks;
        destination_capacity_blocks = destination_capacity_blocks;
        growth_token_budget = growth_token_budget;
      }))

unfoldable pub put_draft_run : DraftRunRequest → Result Bytes
unfolding join pack pack_handle
put_draft_run r = join (
    pack 4 r.request_slot
    ∷ pack 8 r.request_epoch
    ∷ pack 8 r.round_id
    ∷ pack 8 r.run_seq
    ∷ pack 8 r.owner_epoch
    ∷ pack 8 r.snapshot_version
    ∷ pack 4 r.scheduled_token_count
    ∷ pack_handle r.token_delta_handle
    ∷ [])

unfoldable pub get_draft_run : Reader DraftRunRequest
unfolding checked_draft_run ◌>>=◌ lift get_u32 get_u64 get_handle
get_draft_run = do
  request_slot ← get_u32
  request_epoch ← get_u64
  round_id ← get_u64
  run_seq ← get_u64
  owner_epoch ← get_u64
  snapshot_version ← get_u64
  scheduled_token_count ← get_u32
  token_delta_handle ← get_handle
  lift (
      checked_draft_run (record {
        request_slot = request_slot;
        request_epoch = request_epoch;
        round_id = round_id;
        run_seq = run_seq;
        owner_epoch = owner_epoch;
        snapshot_version = snapshot_version;
        scheduled_token_count = scheduled_token_count;
        token_delta_handle = token_delta_handle;
      }))
