-- ===== src/Kv/HostAllocator/Ranges.antt =====
-- How often the free list and the allocations cover a block.
use mathlib.Core.List.{reverse, reverse-cons}
use nebula_sd.Common.{
  ℕ, ◌+◌, ◌-◌, ◌≡◌, refl, ◌&&◌, List, [], ◌∷◌, some, arith, ltb, leb, if◌then◌else◌, sum_of,
  sum_of-append, ok, ◌∙◌, ap, ==_iff, ◌==◌, Bool-cases, Option-cases, inl, inr, ◌≤◌,
}
use nebula_sd.Kv.Arena.{HostKvExtent, ArenaDescriptor, make_extent, validate_extent}
use nebula_sd.Kv.HostAllocator.{Allocation, first_fit, coalesce}

abbrev pub covers : ℕ → ℕ × ℕ → ℕ
covers b (offset, length) = if leb offset b && ltb b (offset + length) then 1 else 0

abbrev pub held : ℕ → ℕ × Allocation → ℕ
held b (slot, entry) = covers b (entry.extent.arena.offset, entry.extent.capacity_blocks)

covers_split : (b o n m : ℕ) → covers b (o, n + m) ≡ covers b (o, n) + covers b (o + n, m)
covers_split b o n m = ground arith

covers_rest : (b o n c : ℕ) → c ≤ n → covers b (o, n) ≡ covers b (o, c) + covers b (o + c, n - c)
covers_rest b o n c h = ground arith

covers_all : (b o n c : ℕ) → c ≤ n → n ≤ c → covers b (o, n) ≡ covers b (o, c)
covers_all b o n c h k = ground arith

pub covers-first_fit :
    (b capacity : ℕ) (xs : List (ℕ × ℕ)) (offset : ℕ) (ys : List (ℕ × ℕ))
    → first_fit capacity xs ≡ some (offset, ys)
    → sum_of (covers b) xs ≡ covers b (offset, capacity) + sum_of (covers b) ys
unfolding first_fit
covers-first_fit b c [] offset ys h = absurd (cc)
covers-first_fit b c ((o, n) ∷ rest) offset ys h = elim (Option-cases (first_fit c rest)) [
  | inl missing ↦ ground (arith, missing, covers_rest b o n c, covers_all b o n c)
  | inr ((at, zs), found) ↦
      ground (
        arith,
        found,
        covers-first_fit b c rest at zs found,
        covers_rest b o n c,
        covers_all b o n c,
      )
]

sum_of-reverse {ℓ} : {A : Type ℓ} (f : A → ℕ) (xs : List A) → sum_of f (reverse xs) ≡ sum_of f xs
sum_of-reverse f [] = refl
sum_of-reverse f (x ∷ xs) =
    rw reverse-cons (omega (arith, sum_of-append f (reverse xs) (x ∷ []), sum_of-reverse f xs))

pub covers-coalesce :
    (b : ℕ) (merged xs : List (ℕ × ℕ))
    → sum_of (covers b) (coalesce merged xs) ≡ sum_of (covers b) merged + sum_of (covers b) xs
unfolding coalesce
covers-coalesce b merged [] = sum_of-reverse (covers b) merged ∙ omega arith
covers-coalesce b [] (r ∷ rest) = covers-coalesce b (r ∷ []) rest ∙ omega arith
covers-coalesce b ((p, n) ∷ merged) ((o, m) ∷ rest) = elim (Bool-cases (p + n == o)) [
  | inl meet ↦ rw meet (
      covers-coalesce b ((p, n + m) ∷ merged) rest
      ∙ omega (arith, covers_split b p n m, ap (λ x. covers b (x, m)) ((==_iff (p + n) o).0 meet)))
  | inr apart ↦ rw apart (covers-coalesce b ((o, m) ∷ (p, n) ∷ merged) rest ∙ omega arith)
]

pub record Made (e : HostKvExtent) (slot epoch generation offset capacity : ℕ) : Type 0 where
  pub slot_made : e.request_slot ≡ slot
  pub epoch_made : e.request_epoch ≡ epoch
  pub generation_made : e.host_slot_generation ≡ generation
  pub offset_made : e.arena.offset ≡ offset
  pub capacity_made : e.capacity_blocks ≡ capacity

pub make_extent-Made :
    (d : ArenaDescriptor) (slot epoch host_slot g w offset capacity : ℕ) (e : HostKvExtent)
    → make_extent d slot epoch host_slot g w offset capacity ≡ ok e
    → Made e slot epoch g offset capacity
unfolding make_extent
make_extent-Made d slot epoch host_slot g w offset capacity e h = ground arith

pub make_extent-valid :
    (d : ArenaDescriptor) (slot epoch host_slot g w offset capacity : ℕ) (e : HostKvExtent)
    → make_extent d slot epoch host_slot g w offset capacity ≡ ok e
    → validate_extent d e ≡ ok tt
unfolding make_extent
make_extent-valid d slot epoch host_slot g w offset capacity e h = ground arith
