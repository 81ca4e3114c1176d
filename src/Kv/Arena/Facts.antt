-- ===== src/Kv/Arena/Facts.antt =====
-- What the checks of the arena guarantee, and how a write that succeeds has ended.
use native.Mathlib.Decide.{ℕ_discrete as dec_eq}
use native.Mathlib.Nat.{mul-le-mul_right}
use nebula_sd.Common.{
  ℕ, ◌+◌, ◌*◌, ◌≤◌, ◌≡◌, ◌≢◌, List, Result, ok, arith, length, ◌⊎◌, inl, inr, ◌==◌, ◌∙◌,
  Result-cases, max, if◌then◌else◌,
}
use nebula_sd.Common.Bytes.{
  slice, splice, length-splice, slice-splice_self, slice-splice_before, slice-splice_after,
}
use nebula_sd.Core.Ids.{next, u64}
use nebula_sd.Kv.Arena.{
  HostKvExtent, HostKvWriteLease, ArenaDescriptor, HostKvArena, checked_descriptor, checked_extent,
  next_version, validate_extent, store_planes, write_check, write_kv,
}

-- The descriptor passed its own checks, and the segment is at least as large as it says.
pub record IsArena (a : HostKvArena) : Type 0 where
  pub checked : checked_descriptor a.descriptor ≡ ok a.descriptor
  pub mapped : a.descriptor.total_bytes ≤ length a.buf

pub record Planes (d : ArenaDescriptor) : Type 0 where
  pub k_first : d.k_plane_offset ≡ 0
  pub v_second : d.v_plane_offset ≡ d.total_blocks * d.block_bytes
  pub fit : d.v_plane_offset + d.total_blocks * d.block_bytes ≡ d.total_bytes

pub planes : (d : ArenaDescriptor) → checked_descriptor d ≡ ok d → Planes d
unfolding checked_descriptor
planes d h = ground arith

pub record Fits (d : ArenaDescriptor) (e : HostKvExtent) : Type 0 where
  pub generation : e.arena.generation ≡ d.descriptor_generation
  pub handle : e.arena.length ≡ e.capacity_blocks
  pub inside : e.arena.offset + e.capacity_blocks ≤ d.total_blocks

pub fits : (d : ArenaDescriptor) (e : HostKvExtent) → validate_extent d e ≡ ok tt → Fits d e
unfolding validate_extent
fits d e h = ground arith

pub record Leased (d : ArenaDescriptor) (e : HostKvExtent) (l : HostKvWriteLease) (k v : List ℕ)
    : Type 0 where
  pub extent : validate_extent d e ≡ ok tt
  pub same_length : length k ≡ length v
  pub filled : length k ≡ l.dirty_block_count * d.block_bytes
  pub version : l.expected_version ≡ e.kv_version
  pub inside : l.dirty_begin_block + l.dirty_block_count ≤ e.capacity_blocks

pub leased :
    (d : ArenaDescriptor) (e : HostKvExtent) (l : HostKvWriteLease) (k v : List ℕ)
    → write_check d e l k v ≡ ok tt
    → Leased d e l k v
unfolding write_check
leased d e l k v h = ground arith

pub record Stepped (e e' : HostKvExtent) : Type 0 where
  pub arena : e'.arena ≡ e.arena
  pub capacity : e'.capacity_blocks ≡ e.capacity_blocks
  pub stepped : next u64 e.kv_version ≡ ok e'.kv_version

pub next_version-Stepped :
    (e : HostKvExtent) (n : ℕ) (e' : HostKvExtent) → next_version e n ≡ ok e' → Stepped e e'
unfolding next_version checked_extent
next_version-Stepped e n e' h = ground arith

-- One plane behind the other: both payloads are read back.
pub both_planes :
    (at plane : ℕ) (ks vs xs : List ℕ)
    → length ks ≡ length vs
    → at + length ks ≤ plane
    → plane + plane ≤ length xs
    → (slice at (length ks) (splice (plane + at) vs (splice at ks xs)) ≡ ks)
      × (slice (plane + at) (length ks) (splice (plane + at) vs (splice at ks xs)) ≡ vs)
both_planes at plane ks vs xs same fit room = (
  slice-splice_before at (length ks) (plane + at) vs (splice at ks xs) (omega arith)
      ∙ slice-splice_self at ks xs (omega arith),
  rw same
      (slice-splice_self (plane + at) vs (splice at ks xs) (omega (arith, length-splice at ks xs))),
)

-- A range that lies apart from the written one keeps both its payloads.
pub apart_planes :
    (at n i plane : ℕ) (ks vs xs : List ℕ)
    → length ks ≡ length vs
    → at + n ≤ plane
    → i + length ks ≤ plane
    → ((at + n ≤ i) ⊎ (i + length ks ≤ at))
    → (slice at n (splice (plane + i) vs (splice i ks xs)) ≡ slice at n xs)
      × (slice (plane + at) n (splice (plane + i) vs (splice i ks xs)) ≡ slice (plane + at) n xs)
apart_planes at n i plane ks vs xs same fit fit' (inl before) = (
  slice-splice_before at n (plane + i) vs (splice i ks xs) (omega arith)
      ∙ slice-splice_before at n i ks xs before,
  slice-splice_before (plane + at) n (plane + i) vs (splice i ks xs) (omega arith)
      ∙ slice-splice_after (plane + at) n i ks xs (omega arith),
)
apart_planes at n i plane ks vs xs same fit fit' (inr behind) = (
  slice-splice_before at n (plane + i) vs (splice i ks xs) (omega arith)
      ∙ slice-splice_after at n i ks xs behind,
  slice-splice_after (plane + at) n (plane + i) vs (splice i ks xs) (omega arith)
      ∙ slice-splice_after (plane + at) n i ks xs (omega arith),
)

pub mul_range : (o b n t w : ℕ) → o + (b + n) ≤ t → (o + b) * w + n * w ≤ t * w
mul_range o b n t w h = omega (arith, mul-le-mul_right w h)

-- How a write that succeeds ended: nothing to write, or both payloads stored.
pub data Wrote (a : HostKvArena) (e : HostKvExtent) (l : HostKvWriteLease) (k v : List ℕ)
    (e' : HostKvExtent) (a' : HostKvArena) : Type 0 where
  nothing : l.dirty_block_count ≡ 0 → e' ≡ e → a' ≡ a → Wrote a e l k v e' a'
  stored :
      l.dirty_block_count ≢ 0
      → Stepped e e'
      → a' ≡ store_planes a e l.dirty_begin_block k v
      → Wrote a e l k v e' a'

pub write_kv-checked :
    (a : HostKvArena) (e : HostKvExtent) (l : HostKvWriteLease) (k v : List ℕ) (e' : HostKvExtent)
    (a' : HostKvArena)
    → write_kv a e l k v ≡ (ok e', a')
    → (write_check a.descriptor e l k v ≡ ok tt) × Wrote a e l k v e' a'
unfolding write_kv
write_kv-checked a e l k v e' a' h = elim (Result-cases (write_check a.descriptor e l k v)) [
  | inr (x, failed) ↦ absurd (cc (rw (failed, write_kv) at h))
  | inl (_, passed) ↦ (passed, go (dec_eq l.dirty_block_count 0) (rw (passed, write_kv) at h))
]
  where
    result : Result HostKvExtent × HostKvArena
    result = (
      next_version e (max e.committed_blocks (l.dirty_begin_block + l.dirty_block_count)),
      store_planes a e l.dirty_begin_block k v,
    )

    go :
        Dec (l.dirty_block_count ≡ 0)
        → (if l.dirty_block_count == 0 then (ok e, a) else result) ≡ (ok e', a')
        → Wrote a e l k v e' a'
    go (yes z) w = nothing z (ground arith) (ground arith)
    go (no nz) w =
        stored nz
          (next_version-Stepped e
            (max e.committed_blocks (l.dirty_begin_block + l.dirty_block_count)) e' (ground arith))
          (ground arith)
