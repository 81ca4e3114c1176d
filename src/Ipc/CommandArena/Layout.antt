-- ===== src/Ipc/CommandArena/Layout.antt =====
-- Where the live payloads of the command arena lie.
use native.Mathlib.Nat.{mod-eq_of_lt, mod_self}
use native.Mathlib.Decide.{dec_lt, ℕ_discrete}
use mathlib.Core.List.{append_assoc}
use nebula_sd.Common.{
  ℕ, ◌+◌, ◌-◌, ◌%◌, ◌≤◌, ◌<◌, ◌≡◌, refl, sym, subst, ◌∙◌, ◌⊎◌, inl, inr, List, [], ◌∷◌, ◌++◌, ok,
  arith,
}
use nebula_sd.Ipc.CommandArena.{Allocation, end, reserve_between}

-- Non-empty allocations one behind the other, from s up to e.
abbrev pub Contiguous : ℕ → List Allocation → ℕ → Type 0
Contiguous s [] e = s ≡ e
Contiguous s (x ∷ xs) e = (x.offset ≡ s) × (0 < x.size) × Contiguous (s + x.size) xs e

-- The live allocations run from the tail to the head, or from the tail towards the end of the buffer
-- and then from its start to the head.
pub data Placed (capacity head tail : ℕ) (xs : List Allocation) : Type 0 where
  straight :
      (e : ℕ)
      → Contiguous tail xs e
      → tail < e
      → e ≤ capacity
      → head ≡ e % capacity
      → Placed capacity head tail xs
  wrapped :
      (high low : List Allocation) (e : ℕ)
      → xs ≡ high ++ low
      → Contiguous tail high e
      → e ≤ capacity
      → tail < capacity
      → Contiguous 0 low head
      → 0 < head
      → head ≤ tail
      → Placed capacity head tail xs

pub Contiguous-le : (s : ℕ) (xs : List Allocation) (e : ℕ) → Contiguous s xs e → s ≤ e
Contiguous-le s [] e h = omega arith
Contiguous-le s (x ∷ xs) e h = omega (arith, Contiguous-le (s + x.size) xs e h.2)

pub Contiguous-append :
    (s : ℕ) (xs : List Allocation) (m : ℕ) (ys : List Allocation) (e : ℕ)
    → Contiguous s xs m
    → Contiguous m ys e
    → Contiguous s (xs ++ ys) e
Contiguous-append s [] m ys e h k = rw h k
Contiguous-append s (x ∷ xs) m ys e h k = (h.0, h.1, Contiguous-append (s + x.size) xs m ys e h.2 k)

Contiguous-last :
    (s : ℕ) (xs : List Allocation) (m : ℕ) (x : Allocation)
    → Contiguous s xs m
    → x.offset ≡ m
    → 0 < x.size
    → Contiguous s (xs ++ x ∷ []) (m + x.size)
Contiguous-last s xs m x h at pos = Contiguous-append s xs m (x ∷ []) (m + x.size) h (at, pos, refl)

-- A range that none of the allocations touches.
abbrev pub Clear : ℕ → ℕ → List Allocation → Type 0
Clear o n [] = Unit {0}
Clear o n (x ∷ xs) = ((end x ≤ o) ⊎ (o + n ≤ x.offset)) × Clear o n xs

Clear-append :
    (o n : ℕ) (xs ys : List Allocation) → Clear o n xs → Clear o n ys → Clear o n (xs ++ ys)
Clear-append o n [] ys h k = k
Clear-append o n (x ∷ xs) ys h k = (h.0, Clear-append o n xs ys h.1 k)

Clear-behind : (o n s : ℕ) (xs : List Allocation) (e : ℕ) → Contiguous s xs e → e ≤ o → Clear o n xs
unfolding end
Clear-behind o n s [] e h le = tt
Clear-behind o n s (x ∷ xs) e h le = (
  inl (omega (arith, Contiguous-le (s + x.size) xs e h.2, h.0)),
  Clear-behind o n (s + x.size) xs e h.2 le,
)

Clear-before :
    (o n s : ℕ) (xs : List Allocation) (e : ℕ) → Contiguous s xs e → o + n ≤ s → Clear o n xs
unfolding end
Clear-before o n s [] e h le = tt
Clear-before o n s (x ∷ xs) e h le =
    (inr (omega (arith, h.0)), Clear-before o n (s + x.size) xs e h.2 (omega arith))

abbrev entry : ℕ → ℕ → ℕ → Allocation
entry seq o n = record { command_seq = seq; offset = o; size = n }

-- What a reservation among live allocations gives.
pub record Reserved (capacity tail size : ℕ) (xs : List Allocation) (o head : ℕ) : Type 0 where
  pub inside : o + size ≤ capacity
  pub clear : Clear o size xs
  pub placed : (seq : ℕ) → Placed capacity head tail (xs ++ entry seq o size ∷ [])

module _ (c tail n : ℕ) (xs : List Allocation) (pos : 0 < n) where
  reserve_behind :
      (e : ℕ) → Contiguous tail xs e → tail < e → e + n ≤ c → Reserved c tail n xs e ((e + n) % c)
  reserve_behind e run lt fits = record {
    inside = fits;
    clear = Clear-behind e n tail xs e run (omega arith);
    placed = λ seq.
        straight (e + n) (Contiguous-last tail xs e (entry seq e n) run refl pos) (omega arith) fits
          refl;
  }

  reserve_around :
      (e : ℕ) → Contiguous tail xs e → tail < e → e ≤ c → n ≤ tail → Reserved c tail n xs 0 n
  reserve_around e run lt le fits = record {
    inside = omega arith;
    clear = Clear-before 0 n tail xs e run (omega arith);
    placed = λ seq.
        wrapped xs (entry seq 0 n ∷ []) e refl run le (omega arith) (refl, pos, omega arith) pos
          fits;
  }

  reserve_gap :
      (head e : ℕ) (high low : List Allocation)
      → xs ≡ high ++ low
      → Contiguous tail high e
      → e ≤ c
      → tail < c
      → Contiguous 0 low head
      → head + n ≤ tail
      → Reserved c tail n xs head (head + n)
  reserve_gap head e high low split run le lt run' fits = record {
    inside = omega arith;
    clear = subst (Clear head n) (sym split) (
        Clear-append head n high low (Clear-before head n tail high e run fits)
          (Clear-behind head n 0 low head run' (omega arith)));
    placed = λ seq.
        wrapped high (low ++ entry seq head n ∷ []) e (rw (split, append_assoc)) run le lt
          (Contiguous-last 0 low head (entry seq head n) run' refl pos) (omega arith) fits;
  }

pub reserve_between-Reserved :
    (capacity head tail size : ℕ) (xs : List Allocation) (o head' : ℕ)
    → 0 < size
    → Placed capacity head tail xs
    → reserve_between capacity head tail size ≡ ok (o, head')
    → Reserved capacity tail size xs o head'
unfolding reserve_between
reserve_between-Reserved c head tail n xs o head' pos (straight e run lt le at) h =
    elim (ℕ_discrete e c) [
      | yes full ↦
          let start : head ≡ 0 = rw (at, full) (mod_self c) in
          let r : (n ≤ tail) × (o ≡ 0) × (head' ≡ n) = ground (arith, start) in
          rw (r.1, r.2) (reserve_around c tail n xs pos e run lt le r.0)
      | no room ↦
          let here : head ≡ e = at ∙ mod-eq_of_lt (omega arith) in
          elim (dec_lt (c - e) n) [
            | no fits ↦
                let r : (o ≡ e) × (head' ≡ (e + n) % c) = ground (arith, here) in
                rw (r.0, r.1) (reserve_behind c tail n xs pos e run lt (omega arith))
            | yes wraps ↦
                let r : (n ≤ tail) × (o ≡ 0) × (head' ≡ n) = ground (arith, here) in
                rw (r.1, r.2) (reserve_around c tail n xs pos e run lt le r.0)
          ]
    ]
reserve_between-Reserved c head tail n xs o head' pos
      (wrapped high low e split run le lt run' pos' le') h =
    let r : (head + n ≤ tail) × (o ≡ head) × (head' ≡ head + n) = ground arith in
    rw (r.1, r.2) (reserve_gap c tail n xs pos head e high low split run le lt run' r.0)
