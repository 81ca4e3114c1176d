-- ===== src/Ipc/Protocol/Wire/DraftTrips.antt =====
-- The rows of nebulasd/src/nebulasd/ipc/draft_protocol.py are read as written.
use mathlib.Core.List.{append-nil}
use nebula_sd.Common.{◌≡◌, ok, arith, [], ◌∷◌}
use nebula_sd.Core.Ids.{u32, u64, validate}
use nebula_sd.Core.Handles.{ArenaHandle, arena_handle}
use nebula_sd.Core.DraftContracts.{
  DraftHostAllocation, DraftSnapshotIdentity, checked_allocation, checked_identity, require_handle,
  identity_bytes,
}
use nebula_sd.Ipc.DraftProtocol.{
  DraftPrepareRequest, DraftRunRequest, checked_draft_prepare, checked_draft_run,
}
use nebula_sd.Ipc.Protocol.Wire.Reader.{join, pack, get_handle}
use nebula_sd.Ipc.Protocol.Wire.Draft.{
  pack_handle, put_allocation, get_allocation, put_identity, get_identity, identity_from_bytes,
  get_source, put_draft_prepare, get_draft_prepare, put_draft_run, get_draft_run,
}
use nebula_sd.Ipc.Protocol.Wire.Trips.{
  Trips, IsHandle, before-Trips, lift-Trips, Sized, before-Sized, nil-Sized, pack-Sized, raw-Trips,
  u32_packed-Trips, u64_packed-Trips, number-Trips,
}

-- A handle that is not empty.
abbrev pub IsPacked : ArenaHandle → Type 0
IsPacked h = IsHandle h × (require_handle h ≡ ok h)

pub pack_handle-Trips : (h : ArenaHandle) → IsPacked h → Trips (pack_handle h) get_handle h
unfolding get_handle join pack_handle pack
pack_handle-Trips h ((offset, len, generation), full) =
    let trip : Trips (join (pack 8 h.offset ∷ pack 4 h.length ∷ pack 4 h.generation ∷ []))
        get_handle h =
      before-Trips _ (u64_packed-Trips h.offset offset) (
        before-Trips _ (u32_packed-Trips h.length len) (
          before-Trips _ (u32_packed-Trips h.generation generation) (
            lift-Trips h (arena_handle h.offset h.length h.generation)
              (ground (arith, offset, len, generation))))) in
    record {
      bytes = trip.bytes;
      is_written = rw (full, pack_handle) trip.is_written;
      is_read = trip.is_read;
    }

prepare_cases :
    (r : DraftPrepareRequest)
    → checked_draft_prepare r ≡ ok r
    → (validate u64 r.prepare_seq ≡ ok r.prepare_seq)
      × (validate u64 r.next_round_id ≡ ok r.next_round_id)
      × (validate u64 r.next_owner_epoch ≡ ok r.next_owner_epoch)
      × (validate u32 r.destination_offset_blocks ≡ ok r.destination_offset_blocks)
      × (validate u32 r.destination_capacity_blocks ≡ ok r.destination_capacity_blocks)
      × (validate u32 r.growth_token_budget ≡ ok r.growth_token_budget)
unfolding checked_draft_prepare
prepare_cases r built =
    (ground arith, ground arith, ground arith, ground arith, ground arith, ground arith)

abbrev pub IsBuiltAllocation : DraftHostAllocation → Type 0
IsBuiltAllocation r = (checked_allocation r ≡ ok r)

allocation-fields :
    (r : DraftHostAllocation)
    → checked_allocation r ≡ ok r
    → (validate u32 r.arena_id ≡ ok r.arena_id)
      × (validate u32 r.arena_generation ≡ ok r.arena_generation)
      × (validate u64 r.layout_id ≡ ok r.layout_id)
      × (validate u64 r.host_slot_generation ≡ ok r.host_slot_generation)
      × (validate u64 r.writer_lease_generation ≡ ok r.writer_lease_generation)
      × (validate u64 r.offset_blocks ≡ ok r.offset_blocks)
      × (validate u32 r.host_slot ≡ ok r.host_slot)
      × (validate u32 r.capacity_blocks ≡ ok r.capacity_blocks)
      × (validate u64 r.block_size ≡ ok r.block_size)
unfolding checked_allocation
allocation-fields r built = (
  ground arith,
  ground arith,
  ground arith,
  ground arith,
  ground arith,
  ground arith,
  ground arith,
  ground arith,
  ground arith,
)

pub allocation-Trips :
    (r : DraftHostAllocation) → IsBuiltAllocation r → Trips (put_allocation r) get_allocation r
unfolding put_allocation get_allocation join
allocation-Trips r built =
    let f = allocation-fields r built in
    before-Trips _ (u32_packed-Trips r.arena_id f.0) (
      before-Trips _ (u32_packed-Trips r.arena_generation f.1) (
        before-Trips _ (u64_packed-Trips r.layout_id f.2) (
          before-Trips _ (u64_packed-Trips r.host_slot_generation f.3) (
            before-Trips _ (u64_packed-Trips r.writer_lease_generation f.4) (
              before-Trips _ (u64_packed-Trips r.offset_blocks f.5) (
                before-Trips _ (u32_packed-Trips r.host_slot f.6) (
                  before-Trips _ (u32_packed-Trips r.capacity_blocks f.7) (
                    before-Trips _ (u64_packed-Trips r.block_size f.8)
                      (lift-Trips r (checked_allocation r) built)))))))))

allocation-Sized : (r : DraftHostAllocation) → Sized 56 (put_allocation r)
unfolding put_allocation join
allocation-Sized r = before-Sized (pack-Sized 4 r.arena_id) (
    before-Sized (pack-Sized 4 r.arena_generation) (
      before-Sized (pack-Sized 8 r.layout_id) (
        before-Sized (pack-Sized 8 r.host_slot_generation) (
          before-Sized (pack-Sized 8 r.writer_lease_generation) (
            before-Sized (pack-Sized 8 r.offset_blocks) (
              before-Sized (pack-Sized 4 r.host_slot) (
                before-Sized (pack-Sized 4 r.capacity_blocks)
                  (before-Sized (pack-Sized 8 r.block_size) nil-Sized))))))))

abbrev pub IsBuiltIdentity : DraftSnapshotIdentity → Type 0
IsBuiltIdentity r = (checked_identity r ≡ ok r) × IsBuiltAllocation r.allocation

identity-fields :
    (r : DraftSnapshotIdentity)
    → checked_identity r ≡ ok r
    → (validate u32 r.request_slot ≡ ok r.request_slot)
      × (validate u64 r.request_epoch ≡ ok r.request_epoch)
      × (validate u64 r.round_id ≡ ok r.round_id)
      × (validate u64 r.op_seq ≡ ok r.op_seq)
      × (validate u32 r.worker_id ≡ ok r.worker_id)
      × (validate u64 r.worker_generation ≡ ok r.worker_generation)
      × (validate u64 r.owner_epoch ≡ ok r.owner_epoch)
      × (validate u64 r.snapshot_version ≡ ok r.snapshot_version)
      × (validate u32 r.logical_kv_len ≡ ok r.logical_kv_len)
      × (validate u32 r.valid_blocks ≡ ok r.valid_blocks)
unfolding checked_identity
identity-fields r built = (
  ground arith,
  ground arith,
  ground arith,
  ground arith,
  ground arith,
  ground arith,
  ground arith,
  ground arith,
  ground arith,
  ground arith,
)

pub identity-Trips :
    (r : DraftSnapshotIdentity) → IsBuiltIdentity r → Trips (put_identity r) get_identity r
unfolding put_identity get_identity join
identity-Trips r built =
    let f = identity-fields r built.0 in
    before-Trips _ (u32_packed-Trips r.request_slot f.0) (
      before-Trips _ (u64_packed-Trips r.request_epoch f.1) (
        before-Trips _ (u64_packed-Trips r.round_id f.2) (
          before-Trips _ (u64_packed-Trips r.op_seq f.3) (
            before-Trips _ (u32_packed-Trips r.worker_id f.4) (
              before-Trips _ (u64_packed-Trips r.worker_generation f.5) (
                before-Trips _ (u64_packed-Trips r.owner_epoch f.6) (
                  before-Trips _ (u64_packed-Trips r.snapshot_version f.7) (
                    before-Trips _ (u32_packed-Trips r.logical_kv_len f.8) (
                      before-Trips _ (u32_packed-Trips r.valid_blocks f.9) (
                        before-Trips _ (allocation-Trips r.allocation built.1)
                          (lift-Trips r (checked_identity r) built.0)))))))))))

pub identity-Sized : (r : DraftSnapshotIdentity) → Sized 120 (put_identity r)
unfolding put_identity join
identity-Sized r = before-Sized (pack-Sized 4 r.request_slot) (
    before-Sized (pack-Sized 8 r.request_epoch) (
      before-Sized (pack-Sized 8 r.round_id) (
        before-Sized (pack-Sized 8 r.op_seq) (
          before-Sized (pack-Sized 4 r.worker_id) (
            before-Sized (pack-Sized 8 r.worker_generation) (
              before-Sized (pack-Sized 8 r.owner_epoch) (
                before-Sized (pack-Sized 8 r.snapshot_version) (
                  before-Sized (pack-Sized 4 r.logical_kv_len) (
                    before-Sized (pack-Sized 4 r.valid_blocks)
                      (before-Sized (allocation-Sized r.allocation) nil-Sized))))))))))

pub source-Trips :
    (r : DraftSnapshotIdentity) → IsBuiltIdentity r → Trips (put_identity r) get_source r
unfolding get_source identity_from_bytes
source-Trips r built =
    let trip = identity-Trips r built in
    let size = identity-Sized r trip.bytes trip.is_written in
    let parsed : get_identity trip.bytes ≡ ok (r, []) =
      rw (append-nil trip.bytes) at (trip.is_read []) in
    raw-Trips identity_bytes identity_from_bytes r trip size (ground (arith, size, parsed))

abbrev pub IsBuiltDraftPrepare : DraftPrepareRequest → Type 0
IsBuiltDraftPrepare r =
    (checked_draft_prepare r ≡ ok r) × IsBuiltIdentity r.source × IsPacked r.snapshot_handle

draft_prepare-fields :
    (r : DraftPrepareRequest)
    → checked_draft_prepare r ≡ ok r
    → (validate u64 r.prepare_seq ≡ ok r.prepare_seq)
      × (validate u64 r.next_round_id ≡ ok r.next_round_id)
      × (validate u64 r.next_owner_epoch ≡ ok r.next_owner_epoch)
      × (validate u32 r.destination_offset_blocks ≡ ok r.destination_offset_blocks)
      × (validate u32 r.destination_capacity_blocks ≡ ok r.destination_capacity_blocks)
      × (validate u32 r.growth_token_budget ≡ ok r.growth_token_budget)
unfolding checked_draft_prepare
draft_prepare-fields r built = prepare_cases r built

pub draft_prepare-Trips :
    (r : DraftPrepareRequest)
    → IsBuiltDraftPrepare r
    → Trips (put_draft_prepare r) get_draft_prepare r
unfolding put_draft_prepare get_draft_prepare join
draft_prepare-Trips r built =
    let f = draft_prepare-fields r built.0 in
    before-Trips _ (source-Trips r.source built.1) (
      before-Trips _ (pack_handle-Trips r.snapshot_handle built.2) (
        before-Trips _ (u64_packed-Trips r.prepare_seq f.0) (
          before-Trips _ (u64_packed-Trips r.next_round_id f.1) (
            before-Trips _ (u64_packed-Trips r.next_owner_epoch f.2) (
              before-Trips _ (u32_packed-Trips r.destination_offset_blocks f.3) (
                before-Trips _ (u32_packed-Trips r.destination_capacity_blocks f.4) (
                  before-Trips _ (number-Trips r.growth_token_budget f.5)
                    (lift-Trips r (checked_draft_prepare r) built.0))))))))

abbrev pub IsBuiltDraftRun : DraftRunRequest → Type 0
IsBuiltDraftRun r = (checked_draft_run r ≡ ok r) × IsPacked r.token_delta_handle

draft_run-fields :
    (r : DraftRunRequest)
    → checked_draft_run r ≡ ok r
    → (validate u32 r.request_slot ≡ ok r.request_slot)
      × (validate u64 r.request_epoch ≡ ok r.request_epoch)
      × (validate u64 r.round_id ≡ ok r.round_id)
      × (validate u64 r.run_seq ≡ ok r.run_seq)
      × (validate u64 r.owner_epoch ≡ ok r.owner_epoch)
      × (validate u64 r.snapshot_version ≡ ok r.snapshot_version)
      × (validate u32 r.scheduled_token_count ≡ ok r.scheduled_token_count)
unfolding checked_draft_run
draft_run-fields r built = (
  ground arith,
  ground arith,
  ground arith,
  ground arith,
  ground arith,
  ground arith,
  ground arith,
)

pub draft_run-Trips :
    (r : DraftRunRequest) → IsBuiltDraftRun r → Trips (put_draft_run r) get_draft_run r
unfolding put_draft_run get_draft_run join
draft_run-Trips r built =
    let f = draft_run-fields r built.0 in
    before-Trips _ (u32_packed-Trips r.request_slot f.0) (
      before-Trips _ (u64_packed-Trips r.request_epoch f.1) (
        before-Trips _ (u64_packed-Trips r.round_id f.2) (
          before-Trips _ (u64_packed-Trips r.run_seq f.3) (
            before-Trips _ (u64_packed-Trips r.owner_epoch f.4) (
              before-Trips _ (u64_packed-Trips r.snapshot_version f.5) (
                before-Trips _ (u32_packed-Trips r.scheduled_token_count f.6) (
                  before-Trips _ (pack_handle-Trips r.token_delta_handle built.1)
                    (lift-Trips r (checked_draft_run r) built.0))))))))
