-- ===== src/Ipc/Ring/Queue.antt =====
-- A ring stands for the queue of its items, oldest first.
use native.Mathlib.Decide.{dec_lt}
use native.Mathlib.Nat.{mod-eq_of_lt, mod-add-mod, mod-lt, add_assoc, add-zero}
use nebula_sd.Common.{
  ℕ, zero, suc, ◌+◌, ◌-◌, ◌%◌, ◌≤◌, ◌<◌, ◌≡◌, ◌≢◌, refl, sym, ap, ◌⊎◌, inl, inr, ◌∙◌, List, [], ◌∷◌,
  ◌++◌, none, some, arith, length, get_elem?, set, length-append, length-set, length-replicate,
  get_elem?-set_self, get_elem?-set_ne,
}
use nebula_sd.Ipc.Ring.{Ring, empty, capacity, store, first, advance}

pub record Holds {ℓ} {A : Type ℓ} (r : Ring A) (q : List A) : Type ℓ where
  pub counted : length q ≡ r.size
  pub bounded : r.size ≤ capacity r
  pub head_in : r.head < capacity r
  pub tail_at : r.tail ≡ (r.head + r.size) % capacity r
  pub items :
      (i : ℕ) (a : A)
      → get_elem? q i ≡ some a
      → get_elem? r.entries ((r.head + i) % capacity r) ≡ some (some a)

-- Positions a ring's length apart are the same, closer ones differ.
wrap_low : (c h i : ℕ) → h + i < c → (h + i) % c ≡ h + i
wrap_low c h i lt = mod-eq_of_lt lt

wrap_high : (c h i : ℕ) → c ≤ h + i → h + i < c + c → (h + i) % c ≡ h + i - c
wrap_high c h i ge lt = grind arith

wrap_ne : (c h i n : ℕ) → h < c → i < n → n < c → (h + n) % c ≢ (h + i) % c
wrap_ne c h i n hh hi hn e = elim (dec_lt (h + n) c) [
  | yes low ↦ absurd (omega (arith, wrap_low c h n low, wrap_low c h i (omega arith), e))
  | no high ↦ elim (dec_lt (h + i) c) [
    | yes low ↦
        absurd (omega (arith, wrap_high c h n (omega arith) (omega arith), wrap_low c h i low, e))
    | no high' ↦ absurd (
        omega (
          arith,
          wrap_high c h n (omega arith) (omega arith),
          wrap_high c h i (omega arith) (omega arith),
          e,
        ))
  ]
]

wrap_zero : (c h : ℕ) → h < c → h ≡ (h + 0) % c
wrap_zero c h lt = rw add-zero (sym (mod-eq_of_lt lt))

-- One step of a cursor, and then i more.
wrap_step : (c h i : ℕ) → ((h + 1) % c + i) % c ≡ (h + suc i) % c
wrap_step c h i =
    mod-add-mod (h + 1) c i ∙ (let e : h + 1 + i ≡ h + suc i = omega arith in ap (λ x. x % c) e)

get-lt {ℓ} : {A : Type ℓ} (q : List A) (i : ℕ) (a : A) → get_elem? q i ≡ some a → i < length q
get-lt [] i a h = absurd (cc)
get-lt (x ∷ q) zero a h = omega arith
get-lt (x ∷ q) (suc i) a h = omega (arith, get-lt q i a h)

get-append_last {ℓ} :
    {A : Type ℓ} (q : List A) (a b : A) (i : ℕ)
    → get_elem? (q ++ a ∷ []) i ≡ some b
    → (get_elem? q i ≡ some b) ⊎ ((i ≡ length q) × (a ≡ b))
get-append_last [] a b zero h = inr (refl, cc)
get-append_last [] a b (suc i) h = absurd (cc)
get-append_last (x ∷ q) a b zero h = inl h
get-append_last (x ∷ q) a b (suc i) h = elim (get-append_last q a b i h) [
  | inl g ↦ inl g
  | inr (e, same) ↦ inr (ap suc e, same)
]

module _ {ℓ} {A : Type ℓ} where
  pub empty-Holds : (c : ℕ) → 0 < c → Holds (empty {A = A} c) []
  unfolding empty
  empty-Holds c pos = record {
    counted = refl;
    bounded = omega arith;
    head_in = rw length-replicate pos;
    tail_at = rw length-replicate (sym (mod-eq_of_lt pos));
    items = λ i a h. absurd (cc);
  }

  -- A store appends, where there is room.
  pub store-Holds :
      (r : Ring A) (q : List A) (a : A)
      → Holds r q
      → r.size < capacity r
      → Holds (store r a) (q ++ a ∷ [])
  unfolding store
  store-Holds r q a h room = record {
    counted = omega (arith, length-append q (a ∷ []), h.counted);
    bounded = rw length-set (omega arith);
    head_in = rw length-set h.head_in;
    tail_at =
        rw (length-set, h.tail_at)
          (mod-add-mod (r.head + r.size) (capacity r) 1
            ∙ ap (λ x. x % capacity r) (add_assoc r.head r.size 1));
    items = λ i b g. rw length-set (placed i b (get-append_last q a b i g));
  }
    where
      placed :
          (i : ℕ) (b : A)
          → ((get_elem? q i ≡ some b) ⊎ ((i ≡ length q) × (a ≡ b)))
          → get_elem? (set r.entries r.tail (some a)) ((r.head + i) % capacity r) ≡ some (some b)
      placed i b (inl g) =
          get_elem?-set_ne r.entries r.tail _ (some a) (λ e.
            wrap_ne (capacity r) r.head i r.size h.head_in
              (omega (arith, get-lt q i b g, h.counted)) room (sym h.tail_at ∙ e))
          ∙ h.items i b g
      placed i b (inr (e, same)) =
          rw (e, h.counted, ← h.tail_at, ← same)
            (get_elem?-set_self r.entries r.tail (some a)
              (rw h.tail_at (mod-lt (r.head + r.size) (omega (arith, h.head_in)))))

  -- The first item is the oldest, and clearing its cell drops it.
  pub first-Holds : (r : Ring A) (a : A) (q : List A) → Holds r (a ∷ q) → first r ≡ some a
  unfolding first
  first-Holds r a q h = rw (at_head, first)
    where
      at_head : get_elem? r.entries r.head ≡ some (some a)
      at_head =
          ap (get_elem? r.entries) (wrap_zero (capacity r) r.head h.head_in) ∙ h.items 0 a refl

  pub advance-Holds : (r : Ring A) (a : A) (q : List A) → Holds r (a ∷ q) → Holds (advance r) q
  unfolding advance
  advance-Holds r a q h = record {
    counted = omega (arith, h.counted);
    bounded = rw length-set (omega (arith, h.bounded));
    head_in = rw length-set (mod-lt (r.head + 1) (omega (arith, h.head_in)));
    tail_at = rw length-set (
        h.tail_at
        ∙ ap (λ n. (r.head + n) % capacity r) size_suc
        ∙ sym (wrap_step (capacity r) r.head (r.size - 1)));
    items = λ i b g.
        rw (length-set, wrap_step)
          (get_elem?-set_ne r.entries r.head _ none (λ e.
              wrap_ne (capacity r) r.head 0 (suc i) h.head_in (omega arith)
                (omega (arith, get-lt q i b g, h.counted, h.bounded))
                (sym e ∙ wrap_zero (capacity r) r.head h.head_in))
            ∙ h.items (suc i) b g);
  }
    where
      size_suc : r.size ≡ suc (r.size - 1)
      size_suc = omega (arith, h.counted)
