-- ===== src/Kv/Arena/ReadWrite.antt =====
-- What a write through a lease leaves for readers of the same and of other extents.
use native.Mathlib.Nat.{zero-add, zero-mul, mul-le-mul_right}
use nebula_sd.Common.{
  ℕ, ◌+◌, ◌*◌, ◌≤◌, ◌<◌, ◌≡◌, ◌≢◌, List, ok, err, arith, length, refl, ◌⊎◌, ap, inl, inr, ◌∙◌, [],
  ◌∷◌, sym, Result-cases, Exception,
}
use nebula_sd.Common.Bytes.{slice, splice}
use nebula_sd.Core.Ids.{u64}
use nebula_sd.Core.Ids.Order.{next-ne}
use nebula_sd.Kv.Arena.{
  HostKvExtent, HostKvWriteLease, ArenaDescriptor, HostKvArena, validate_extent, rel_begin,
  slot_view, read_kv, store_planes, write_check, write_kv,
}
use nebula_sd.Kv.Arena.Facts.{
  IsArena, Planes, planes, Fits, fits, Leased, leased, Stepped, Wrote, nothing, stored, both_planes,
  apart_planes, mul_range, write_kv-checked,
}

read_kv-ok :
    (a : HostKvArena) (e : HostKvExtent) (b n : ℕ)
    → validate_extent a.descriptor e ≡ ok tt
    → b + n ≤ e.capacity_blocks
    → read_kv a e b n ≡ ok (slot_view a e b n)
unfolding read_kv
read_kv-ok a e b n valid inside = rw valid (ground arith)

validate_extent-Stepped :
    (d : ArenaDescriptor) (e e' : HostKvExtent)
    → Stepped e e'
    → validate_extent d e ≡ ok tt
    → validate_extent d e' ≡ ok tt
unfolding validate_extent
validate_extent-Stepped d e e' s h = ground arith

-- The bytes of a block range inside an extent lie inside the plane.
range-Fits :
    (d : ArenaDescriptor) (e : HostKvExtent) (b n : ℕ)
    → Fits d e
    → b + n ≤ e.capacity_blocks
    → rel_begin d e b + n * d.block_bytes ≤ d.total_blocks * d.block_bytes
unfolding rel_begin
range-Fits d e b n f inside =
    mul_range e.arena.offset b n d.total_blocks d.block_bytes (omega (arith, f.inside))

slot_view-store_planes :
    (a : HostKvArena) (e : HostKvExtent) (b n : ℕ) (k v : List ℕ)
    → Planes a.descriptor
    → a.descriptor.total_bytes ≤ length a.buf
    → Fits a.descriptor e
    → b + n ≤ e.capacity_blocks
    → length k ≡ length v
    → length k ≡ n * a.descriptor.block_bytes
    → slot_view (store_planes a e b k v) e b n ≡ (k, v)
unfolding slot_view store_planes
slot_view-store_planes a e b n k v p mapped f inside same filled =
    rw (p.k_first, p.v_second, ← filled, zero-add) (λ i. (both.0 i, both.1 i))
  where
    open a use {descriptor}

    both :
        let at = rel_begin descriptor e b in
        let plane = descriptor.total_blocks * descriptor.block_bytes in
        let buf = splice (plane + at) v (splice at k a.buf) in
        (slice at (length k) buf ≡ k) × (slice (plane + at) (length k) buf ≡ v)
    both =
        both_planes _ _ k v a.buf same (omega (arith, filled, range-Fits descriptor e b n f inside))
          (omega (arith, p.v_second, p.fit, mapped))

slot_view-Stepped :
    (a : HostKvArena) (e e' : HostKvExtent) (b n : ℕ)
    → Stepped e e'
    → slot_view a e' b n ≡ slot_view a e b n
unfolding slot_view rel_begin
slot_view-Stepped a e e' b n s = rw s.arena refl

descriptor-store_planes :
    (a : HostKvArena) (e : HostKvExtent) (b : ℕ) (k v : List ℕ)
    → (store_planes a e b k v).descriptor ≡ a.descriptor
unfolding store_planes
descriptor-store_planes a e b k v = refl

empty_of_length : (k : List ℕ) → length k ≡ 0 → [] ≡ k
empty_of_length [] h = refl
empty_of_length (x ∷ k) h = absurd (omega arith)

slot_view-none :
    (a : HostKvArena) (e : HostKvExtent) (b n : ℕ) (k v : List ℕ)
    → n ≡ 0
    → length k ≡ n * a.descriptor.block_bytes
    → length k ≡ length v
    → slot_view a e b n ≡ (k, v)
unfolding slot_view slice
slot_view-none a e b n k v z filled same =
    rw (z, zero-mul) (λ i. (empty_of_length k none i, empty_of_length v (sym same ∙ none) i))
  where
    none : length k ≡ 0
    none = filled ∙ rw (z, zero-mul)

-- A write that succeeds is read back from the extent it returns, at the leased range.
pub read_kv-write_kv :
    (a : HostKvArena) (e : HostKvExtent) (l : HostKvWriteLease) (k v : List ℕ) (e' : HostKvExtent)
    (a' : HostKvArena)
    → IsArena a
    → write_kv a e l k v ≡ (ok e', a')
    → read_kv a' e' l.dirty_begin_block l.dirty_block_count ≡ ok (k, v)
read_kv-write_kv a e l k v e' a' ia h = finish (write_kv-checked a e l k v e' a' h).1
  where
    lease : Leased a.descriptor e l k v
    lease = leased a.descriptor e l k v (write_kv-checked a e l k v e' a' h).0

    finish :
        Wrote a e l k v e' a' → read_kv a' e' l.dirty_begin_block l.dirty_block_count ≡ ok (k, v)
    finish (nothing z same_extent same_arena) =
        rw (same_extent, same_arena)
          (read_kv-ok a e _ _ lease.extent lease.inside
            ∙ ap ok (slot_view-none a e _ _ k v z lease.filled lease.same_length))
    finish (stored nz s made) = rw made (
        read_kv-ok _ e' _ _
          (rw descriptor-store_planes (validate_extent-Stepped a.descriptor e e' s lease.extent))
          (rw s.capacity lease.inside)
        ∙ ap ok (
            slot_view-Stepped _ e e' _ _ s
            ∙ slot_view-store_planes a e _ _ k v (planes a.descriptor ia.checked) ia.mapped
                (fits a.descriptor e lease.extent) lease.inside lease.same_length lease.filled))

-- Two block ranges of extents of one arena that share no block.
abbrev pub Apart : HostKvExtent → ℕ → ℕ → HostKvExtent → ℕ → ℕ → Type 0
Apart e b n f c m =
    (e.arena.offset + b + n ≤ f.arena.offset + c) ⊎ (f.arena.offset + c + m ≤ e.arena.offset + b)

range-Apart :
    (d : ArenaDescriptor) (e : HostKvExtent) (b n : ℕ) (f : HostKvExtent) (c m : ℕ)
    → Apart e b n f c m
    → (rel_begin d e b + n * d.block_bytes ≤ rel_begin d f c)
      ⊎ (rel_begin d f c + m * d.block_bytes ≤ rel_begin d e b)
unfolding rel_begin
range-Apart d e b n f c m (inl h) = inl (omega (arith, mul-le-mul_right d.block_bytes h))
range-Apart d e b n f c m (inr h) = inr (omega (arith, mul-le-mul_right d.block_bytes h))

slot_view-store_planes_ne :
    (a : HostKvArena) (e : HostKvExtent) (b n : ℕ) (f : HostKvExtent) (c m : ℕ) (k v : List ℕ)
    → Planes a.descriptor
    → Fits a.descriptor e
    → Fits a.descriptor f
    → b + n ≤ e.capacity_blocks
    → c + m ≤ f.capacity_blocks
    → length k ≡ length v
    → length k ≡ m * a.descriptor.block_bytes
    → Apart e b n f c m
    → slot_view (store_planes a f c k v) e b n ≡ slot_view a e b n
unfolding slot_view store_planes
slot_view-store_planes_ne a e b n f c m k v p fe ff inside inside' same filled apart =
    rw (p.k_first, p.v_second, zero-add, zero-add) (λ i. (both.0 i, both.1 i))
  where
    open a use {descriptor}

    both :
        let at = rel_begin descriptor e b in
        let i = rel_begin descriptor f c in
        let plane = descriptor.total_blocks * descriptor.block_bytes in
        let n' = n * descriptor.block_bytes in
        let buf = splice (plane + i) v (splice i k a.buf) in
        (slice at n' buf ≡ slice at n' a.buf)
        × (slice (plane + at) n' buf ≡ slice (plane + at) n' a.buf)
    both =
        apart_planes _ _ _ _ k v a.buf same (range-Fits descriptor e b n fe inside)
          (omega (arith, filled, range-Fits descriptor f c m ff inside'))
          (rw filled (range-Apart descriptor e b n f c m apart))

-- A write that succeeds leaves what any valid extent reads at a range apart from the leased one.
pub read_kv-write_kv_ne :
    (a : HostKvArena) (e : HostKvExtent) (b n : ℕ) (f : HostKvExtent) (l : HostKvWriteLease)
    (k v : List ℕ) (f' : HostKvExtent) (a' : HostKvArena)
    → IsArena a
    → validate_extent a.descriptor e ≡ ok tt
    → b + n ≤ e.capacity_blocks
    → Apart e b n f l.dirty_begin_block l.dirty_block_count
    → write_kv a f l k v ≡ (ok f', a')
    → read_kv a' e b n ≡ read_kv a e b n
read_kv-write_kv_ne a e b n f l k v f' a' ia valid inside apart h =
    finish (write_kv-checked a f l k v f' a' h).1
  where
    lease : Leased a.descriptor f l k v
    lease = leased a.descriptor f l k v (write_kv-checked a f l k v f' a' h).0

    finish : Wrote a f l k v f' a' → read_kv a' e b n ≡ read_kv a e b n
    finish (nothing z same_extent same_arena) = rw same_arena
    finish (stored nz s made) = rw made (
        read_kv-ok _ e b n (rw descriptor-store_planes valid) inside
        ∙ ap ok (
            slot_view-store_planes_ne a e b n f _ _ k v (planes a.descriptor ia.checked)
              (fits a.descriptor e valid) (fits a.descriptor f lease.extent) inside lease.inside
              lease.same_length lease.filled apart)
        ∙ sym (read_kv-ok a e b n valid inside))

-- A lease under which blocks were written is refused with the extent that the write returned: the
-- second write raises and leaves the arena as it was.
pub write_kv_twice :
    (a : HostKvArena) (e : HostKvExtent) (l : HostKvWriteLease) (k v : List ℕ) (e' : HostKvExtent)
    (a' : HostKvArena)
    → 0 < l.dirty_block_count
    → write_kv a e l k v ≡ (ok e', a')
    → (j w : List ℕ) → (x : Exception) × (write_kv a' e' l j w ≡ (err x, a'))
unfolding write_kv
write_kv_twice a e l k v e' a' pos h j w =
    elim (Result-cases (write_check a'.descriptor e' l j w)) [
      | inr (x, failed) ↦ (x, rw (failed, write_kv))
      | inl (_, passed) ↦ absurd (
          newer (write_kv-checked a e l k v e' a' h).1
            (leased a'.descriptor e' l j w passed).version)
    ]
  where
    version : l.expected_version ≡ e.kv_version
    version = (leased a.descriptor e l k v (write_kv-checked a e l k v e' a' h).0).version

    newer : Wrote a e l k v e' a' → l.expected_version ≢ e'.kv_version
    newer (nothing z _ _) _ = absurd (omega arith)
    newer (stored _ s _) same =
        next-ne u64 e.kv_version e'.kv_version (omega arith) s.stepped (sym same ∙ version)
