-- ===== src/Ipc/Protocol/Wire/Snapshot.antt =====
-- The bytes of a Draft snapshot of nebulasd/src/nebulasd/core/draft_contracts.py.
use mathlib.Core.List.{append-nil}
use nebula_sd.Common.{
  ℕ, ◌≡◌, refl, not, [], ◌∷◌, Result, ok, err, raise_if, value_error, arith, length, ◌==◌,
  if◌then◌else◌,
}
use nebula_sd.Core.Ids.{u32, validate}
use nebula_sd.Core.Handles.{ArenaHandle}
use nebula_sd.Core.DraftContracts.{
  DraftSnapshot, checked_snapshot, positive_count, require_handle, snapshot_bytes,
}
use nebula_sd.Ipc.Protocol.Wire.Reader.{
  Bytes, Reader, ◌>>=◌, ◌>>◌, lift, join, pack, get_u32, get_handle,
}
use nebula_sd.Ipc.Protocol.Wire.Draft.{pack_handle, put_identity, get_source, taken}
use nebula_sd.Ipc.Protocol.Wire.Trips.{
  Trips, IsHandle, before-Trips, lift-Trips, skip-Trips, u32_packed-Trips, Sized, pack-Sized,
  before-Sized, nil-Sized,
}
use nebula_sd.Ipc.Protocol.Wire.DraftTrips.{
  IsBuiltIdentity, pack_handle-Trips, source-Trips, identity-Sized,
}

abbrev pub snapshot_version : ℕ
snapshot_version = 1

-- `to_bytes`
unfoldable pub put_snapshot : DraftSnapshot → Result Bytes
unfolding join pack pack_handle put_identity
put_snapshot s = join (
    pack 4 snapshot_version
    ∷ pack 4 s.prompt_count
    ∷ pack 4 s.committed_output_count
    ∷ pack 4 s.proposal_count
    ∷ put_identity s.identity
    ∷ pack_handle s.prompt_handle
    ∷ pack_handle s.generation_config_handle
    ∷ pack_handle s.committed_output_handle
    ∷ pack_handle s.proposal_handle
    ∷ [])

unfoldable pub check_version : ℕ → Result (Unit {0})
check_version version = raise_if (not (version == snapshot_version)) value_error

-- What stands behind the header.
unfoldable pub get_parts : ℕ → ℕ → ℕ → Reader DraftSnapshot
unfolding checked_snapshot ◌>>=◌ lift get_handle get_source
get_parts prompt_count committed_output_count proposal_count = do
  identity ← get_source
  prompt_handle ← get_handle
  generation_config_handle ← get_handle
  committed_output_handle ← get_handle
  proposal_handle ← get_handle
  lift (
      checked_snapshot (record {
        identity = identity;
        prompt_handle = prompt_handle;
        generation_config_handle = generation_config_handle;
        committed_output_handle = committed_output_handle;
        proposal_handle = proposal_handle;
        prompt_count = prompt_count;
        committed_output_count = committed_output_count;
        proposal_count = proposal_count;
      }))

unfoldable pub get_snapshot : Reader DraftSnapshot
unfolding check_version ◌>>=◌ ◌>>◌ lift get_u32 get_parts
get_snapshot = do
  version ← get_u32
  prompt_count ← get_u32
  committed_output_count ← get_u32
  proposal_count ← get_u32
  lift (check_version version)
  get_parts prompt_count committed_output_count proposal_count

-- `from_bytes`
unfoldable pub snapshot_from_bytes : Bytes → Result DraftSnapshot
unfolding get_snapshot
snapshot_from_bytes raw =
    if length raw == snapshot_bytes then taken (get_snapshot raw) else err value_error

-- A snapshot as its constructors leave it.
abbrev pub IsBuiltSnapshot : DraftSnapshot → Type 0
IsBuiltSnapshot s =
    (checked_snapshot s ≡ ok s)
    × IsBuiltIdentity s.identity
    × IsHandle s.prompt_handle
    × IsHandle s.generation_config_handle
    × IsHandle s.committed_output_handle
    × IsHandle s.proposal_handle

counts-checked :
    (s : DraftSnapshot)
    → checked_snapshot s ≡ ok s
    → (validate u32 s.prompt_count ≡ ok s.prompt_count)
      × (validate u32 s.committed_output_count ≡ ok s.committed_output_count)
      × (validate u32 s.proposal_count ≡ ok s.proposal_count)
unfolding checked_snapshot positive_count
counts-checked s passed = (ground arith, ground arith, ground arith)

handles-checked :
    (s : DraftSnapshot)
    → checked_snapshot s ≡ ok s
    → (require_handle s.prompt_handle ≡ ok s.prompt_handle)
      × (require_handle s.generation_config_handle ≡ ok s.generation_config_handle)
      × (require_handle s.committed_output_handle ≡ ok s.committed_output_handle)
      × (require_handle s.proposal_handle ≡ ok s.proposal_handle)
unfolding checked_snapshot positive_count require_handle
handles-checked s passed = (ground arith, ground arith, ground arith, ground arith)

parts-Trips :
    (s : DraftSnapshot)
    → IsBuiltSnapshot s
    → Trips
        (join (
          put_identity s.identity
          ∷ pack_handle s.prompt_handle
          ∷ pack_handle s.generation_config_handle
          ∷ pack_handle s.committed_output_handle
          ∷ pack_handle s.proposal_handle
          ∷ []))
        (get_parts s.prompt_count s.committed_output_count s.proposal_count)
        s
unfolding get_parts join
parts-Trips s (passed, identity, prompt, config, output, proposal) =
    let h = handles-checked s passed in
    before-Trips _ (source-Trips s.identity identity) (
      before-Trips _ (pack_handle-Trips s.prompt_handle (prompt, h.0)) (
        before-Trips _ (pack_handle-Trips s.generation_config_handle (config, h.1)) (
          before-Trips _ (pack_handle-Trips s.committed_output_handle (output, h.2)) (
            before-Trips _ (pack_handle-Trips s.proposal_handle (proposal, h.3))
              (lift-Trips s (checked_snapshot s) passed)))))

snapshot-Trips : (s : DraftSnapshot) → IsBuiltSnapshot s → Trips (put_snapshot s) get_snapshot s
unfolding put_snapshot get_snapshot join check_version ◌>>◌
snapshot-Trips s built =
    let n = counts-checked s built.0 in
    before-Trips _ (u32_packed-Trips snapshot_version (ground (arith, validate))) (
      before-Trips _ (u32_packed-Trips s.prompt_count n.0) (
        before-Trips _ (u32_packed-Trips s.committed_output_count n.1) (
          before-Trips _ (u32_packed-Trips s.proposal_count n.2) (
            skip-Trips (check_version snapshot_version)
              (λ _. get_parts s.prompt_count s.committed_output_count s.proposal_count) refl
              (parts-Trips s built)))))

packed-Sized : (h : ArenaHandle) → require_handle h ≡ ok h → Sized 16 (pack_handle h)
unfolding pack_handle join
packed-Sized h full =
    let sized =
      before-Sized (pack-Sized 8 h.offset) (
        before-Sized (pack-Sized 4 h.length)
          (before-Sized (pack-Sized 4 h.generation) nil-Sized)) in
    λ bytes written. sized bytes (rw (full, pack_handle) at written)

snapshot-Sized : (s : DraftSnapshot) → IsBuiltSnapshot s → Sized snapshot_bytes (put_snapshot s)
unfolding put_snapshot join
snapshot-Sized s built =
    let h = handles-checked s built.0 in
    before-Sized (pack-Sized 4 snapshot_version) (
      before-Sized (pack-Sized 4 s.prompt_count) (
        before-Sized (pack-Sized 4 s.committed_output_count) (
          before-Sized (pack-Sized 4 s.proposal_count) (
            before-Sized (identity-Sized s.identity) (
              before-Sized (packed-Sized s.prompt_handle h.0) (
                before-Sized (packed-Sized s.generation_config_handle h.1) (
                  before-Sized (packed-Sized s.committed_output_handle h.2)
                    (before-Sized (packed-Sized s.proposal_handle h.3) nil-Sized))))))))

-- A Draft snapshot as its constructors leave it is written, in as many bytes as a handle to a
-- snapshot must name, and those bytes are read as the same snapshot.
pub snapshot_from_bytes-put_snapshot :
    (s : DraftSnapshot)
    → IsBuiltSnapshot s
    → (raw : Bytes) × (put_snapshot s ≡ ok raw)
      × (length raw ≡ snapshot_bytes)
      × (snapshot_from_bytes raw ≡ ok s)
unfolding snapshot_from_bytes
snapshot_from_bytes-put_snapshot s built =
    let trip = snapshot-Trips s built in
    let size = snapshot-Sized s built trip.bytes trip.is_written in
    let parsed : get_snapshot trip.bytes ≡ ok (s, []) =
      rw (append-nil trip.bytes) at (trip.is_read []) in
    (trip.bytes, trip.is_written, size, ground (arith, size, parsed))
