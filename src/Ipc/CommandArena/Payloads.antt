-- ===== src/Ipc/CommandArena/Payloads.antt =====
-- What the command arena keeps between calls, and what its readers get.
use nebula_sd.Common.{
  ℕ, ◌+◌, ◌-◌, ◌%◌, ◌^◌, ◌≤◌, ◌<◌, ◌≡◌, refl, sym, ap, ◌∙◌, ◌⊎◌, inl, inr, List, [], ◌∷◌, ◌++◌, ok,
  arith, length, Result-cases,
}
use nebula_sd.Common.Bytes.{
  slice, splice, length-splice, slice-splice_self, slice-splice_before, slice-splice_after,
}
use nebula_sd.Core.Handles.{ArenaHandle, arena_handle, end_offset}
use nebula_sd.Ipc.CommandArena.Layout.{Placed, straight, Clear, Reserved, reserve_between-Reserved}
use nebula_sd.Ipc.CommandArena.{
  Allocation, end, CommandArena, capacity_bytes, reserve_between, reserve, in_sequence, allocate,
  read,
}

-- Nothing is live, or the live payloads lie between the cursors.
pub record IsSound (a : CommandArena) : Type 0 where
  pub layout : (a.allocations ≡ []) ⊎ Placed (capacity_bytes a) a.head a.tail a.allocations
  pub sized : 0 < capacity_bytes a
  pub addressable : capacity_bytes a < 2 ^ 32 - 1

-- The live payloads read as they did.
abbrev pub SameBytes : List ℕ → List ℕ → List Allocation → Type 0
SameBytes bs cs [] = Unit {0}
SameBytes bs cs (x ∷ xs) =
    (slice x.offset x.size cs ≡ slice x.offset x.size bs) × SameBytes bs cs xs

splice-SameBytes :
    (o : ℕ) (payload bs : List ℕ) (xs : List Allocation)
    → Clear o (length payload) xs
    → SameBytes bs (splice o payload bs) xs
unfolding end
splice-SameBytes o payload bs [] h = tt
splice-SameBytes o payload bs (x ∷ xs) h = (untouched h.0, splice-SameBytes o payload bs xs h.1)
  where
    untouched :
        (x.offset + x.size ≤ o) ⊎ (o + length payload ≤ x.offset)
        → slice x.offset x.size (splice o payload bs) ≡ slice x.offset x.size bs
    untouched (inl before) = slice-splice_before x.offset x.size o payload bs before
    untouched (inr behind) = slice-splice_after x.offset x.size o payload bs behind

reserve_first : (c size : ℕ) → 0 < size → size ≤ c → Reserved c 0 size [] 0 (size % c)
reserve_first c size pos fits = record {
  inside = omega arith;
  clear = tt;
  placed = λ seq. straight size (refl, pos, omega arith) pos fits refl;
}

reserve-Reserved :
    (a : CommandArena) (xs : List Allocation) (size o head tail : ℕ)
    → a.allocations ≡ xs
    → (xs ≡ []) ⊎ Placed (capacity_bytes a) a.head a.tail xs
    → 0 < size
    → size ≤ capacity_bytes a
    → reserve a size ≡ ok (o, head, tail)
    → Reserved (capacity_bytes a) tail size xs o head
unfolding reserve
reserve-Reserved a [] size o head tail e p pos fits h =
    let r : (o ≡ 0) × (head ≡ size % capacity_bytes a) × (tail ≡ 0) = ground (arith, e) in
    rw (r.0, r.1, r.2) (reserve_first (capacity_bytes a) size pos fits)
reserve-Reserved a (x ∷ xs) size o head tail e (inl none_left) pos fits h = absurd (cc)
reserve-Reserved a (x ∷ xs) size o head tail e (inr p) pos fits h =
    elim (Result-cases (reserve_between (capacity_bytes a) a.head a.tail size)) [
      | inr (_, failed) ↦ absurd (ground (arith, e, failed))
      | inl ((o', head'), done) ↦
          let r : (o ≡ o') × (head ≡ head') × (tail ≡ a.tail) = ground (arith, e, done) in
          rw (r.0, r.1, r.2)
            (reserve_between-Reserved (capacity_bytes a) a.head a.tail size (x ∷ xs) o' head' pos p
              done)
    ]

-- How an allocation that succeeds ended.
record Allocated (a : CommandArena) (seq : ℕ) (payload : List ℕ) (h : ArenaHandle)
    (a' : CommandArena) : Type 0 where
  filled : 0 < length payload
  fits : length payload ≤ capacity_bytes a
  reserved : reserve a (length payload) ≡ ok (h.offset, a'.head, a'.tail)
  sized : h.length ≡ length payload
  current : h.generation ≡ a.generation
  same_generation : a'.generation ≡ a.generation
  written : a'.bytes ≡ splice h.offset payload a.bytes
  added :
      a'.allocations
      ≡ a.allocations
        ++ (record { command_seq = seq; offset = h.offset; size = length payload }) ∷ []

allocate-Allocated :
    (a : CommandArena) (seq : ℕ) (payload : List ℕ) (h : ArenaHandle) (a' : CommandArena)
    → allocate a seq payload ≡ ok (h, a')
    → Allocated a seq payload h a'
unfolding allocate arena_handle
allocate-Allocated a seq payload h a' done = elim (Result-cases (in_sequence a seq)) [
  | inr (_, stale) ↦ absurd (ground (arith, stale))
  | inl (_, newer) ↦ elim (Result-cases (reserve a (length payload))) [
    | inr (_, failed) ↦ absurd (ground (arith, newer, failed))
    | inl ((o, head, tail), made) ↦ ground (arith, newer, made)
  ]
]

arena_handle_read :
    (a : CommandArena) (h : ArenaHandle)
    → h.generation ≡ a.generation
    → h.offset + h.length ≤ capacity_bytes a
    → capacity_bytes a < 2 ^ 32 - 1
    → read a h ≡ ok (slice h.offset h.length a.bytes)
unfolding read end_offset
arena_handle_read a h current inside small = ground arith

-- A payload that is allocated is read back through its handle; it lies clear of every live payload,
-- and those read as before; the arena stays sound.
pub read-allocate :
    (a : CommandArena) (seq : ℕ) (payload : List ℕ) (h : ArenaHandle) (a' : CommandArena)
    → IsSound a
    → allocate a seq payload ≡ ok (h, a')
    → (read a' h ≡ ok payload)
      × Clear h.offset h.length a.allocations
      × SameBytes a.bytes a'.bytes a.allocations
      × IsSound a'
read-allocate a seq payload h a' s done = (
  arena_handle_read a' h (al.current ∙ sym al.same_generation)
        (omega (arith, same_size, r.inside, al.sized)) (omega (arith, same_size, s.addressable))
      ∙ ap ok (rw (al.sized, al.written) (slice-splice_self h.offset payload a.bytes r.inside)),
  rw al.sized r.clear,
  rw al.written (splice-SameBytes h.offset payload a.bytes a.allocations r.clear),
  record {
    layout = inr (rw (same_size, al.added) (r.placed seq));
    sized = omega (arith, same_size, s.sized);
    addressable = omega (arith, same_size, s.addressable);
  },
)
  where
    al : Allocated a seq payload h a'
    al = allocate-Allocated a seq payload h a' done

    r : Reserved (capacity_bytes a) a'.tail (length payload) a.allocations h.offset a'.head
    r =
        reserve-Reserved a a.allocations (length payload) h.offset a'.head a'.tail refl s.layout
          al.filled al.fits al.reserved

    same_size : capacity_bytes a' ≡ capacity_bytes a
    same_size = ap length al.written ∙ length-splice h.offset payload a.bytes
