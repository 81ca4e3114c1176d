-- ===== src/Ipc/CommandArena/Release.antt =====
-- Giving back the oldest payloads, or the last one, keeps the layout.
use native.Mathlib.Nat.{mod-eq_of_lt, mod_self}
use native.Mathlib.Decide.{dec_lt}
use mathlib.Core.Path.{subst₂}
use mathlib.Core.List.{append-nil}
use nebula_sd.Common.{
  ℕ, ◌+◌, ◌%◌, ◌≤◌, ◌<◌, ◌≡◌, refl, sym, ap, ◌∙◌, ◌⊎◌, inl, inr, Bool, true, false, List, [], ◌∷◌,
  ◌++◌, ok, arith, subst, ◌==◌, Bool-cases, Result-cases, if◌then◌else◌,
}
use nebula_sd.Core.Ids.{u64, is_newer_or_equal}
use nebula_sd.Ipc.CommandArena.Layout.{Contiguous, Contiguous-le, Placed, straight, wrapped}
use nebula_sd.Ipc.CommandArena.{Allocation, end, release_loop, without_last, head_after}

module _ (c head : ℕ) where
  -- The oldest allocation stood before the wrap.
  rest_high :
      (tail : ℕ) (z : Allocation) (high low : List Allocation) (e : ℕ)
      → Contiguous tail (z ∷ high) e
      → e ≤ c
      → tail < c
      → Contiguous 0 low head
      → 0 < head
      → head ≤ tail
      → Placed c head (end z % c) (high ++ low)
  unfolding end
  rest_high tail z high low e run le lt run' pos le' = elim (dec_lt (z.offset + z.size) c) [
    | yes below ↦ rw (mod-eq_of_lt below) (
        wrapped high low e refl (subst (λ t. Contiguous (t + z.size) high e) (sym run.0) run.2) le
          below run' pos (omega (arith, run.0)))
    | no full ↦ at_end high run full
  ]
    where
      at_end :
          (high : List Allocation)
          → Contiguous tail (z ∷ high) e
          → ¬ (z.offset + z.size < c)
          → Placed c head ((z.offset + z.size) % c) (high ++ low)
      at_end [] run full =
          let e' : z.offset + z.size ≡ c = omega (arith, run.0, run.2) in
          rw (e', mod_self)
            (straight head run' pos (omega arith) (sym (mod-eq_of_lt (omega arith))))
      at_end (w ∷ high) run full =
          absurd
            (omega (arith, run.0, run.2.1, Contiguous-le (tail + z.size + w.size) high e run.2.2))

  -- The oldest allocation stood behind the wrap.
  rest_low :
      (tail : ℕ) (x y : Allocation) (ys : List Allocation)
      → tail < c
      → Contiguous 0 (x ∷ y ∷ ys) head
      → head ≤ tail
      → Placed c head (end x % c) (y ∷ ys)
  unfolding end
  rest_low tail x y ys lt run le =
      let far : x.size + y.size ≤ head =
        omega (arith, Contiguous-le (0 + x.size + y.size) ys head run.2.2) in
      let below : x.offset + x.size < c = omega (arith, run.0, run.2.1, far) in
      rw (mod-eq_of_lt below) (
        straight head (subst (λ t. Contiguous (t + x.size) (y ∷ ys) head) (sym run.0) run.2)
          (omega (arith, run.0, run.2.1, far)) (omega arith) (sym (mod-eq_of_lt (omega arith))))

  rest_straight :
      (tail : ℕ) (x y : Allocation) (ys : List Allocation) (e : ℕ)
      → Contiguous tail (x ∷ y ∷ ys) e
      → e ≤ c
      → head ≡ e % c
      → Placed c head (end x % c) (y ∷ ys)
  unfolding end
  rest_straight tail x y ys e run le at =
      let far : tail + x.size + y.size ≤ e = Contiguous-le (tail + x.size + y.size) ys e run.2.2 in
      let below : x.offset + x.size < c = omega (arith, run.0, run.2.1, far) in
      rw (mod-eq_of_lt below) (
        straight e (subst (λ t. Contiguous (t + x.size) (y ∷ ys) e) (sym run.0) run.2)
          (omega (arith, run.0, run.2.1, far)) le at)

-- Without its oldest allocation the arena is empty, or placed from that one's end.
pub Placed-rest :
    (c head tail : ℕ) (x : Allocation) (xs : List Allocation)
    → Placed c head tail (x ∷ xs)
    → (xs ≡ []) ⊎ Placed c head (end x % c) xs
Placed-rest c head tail x [] p = inl refl
Placed-rest c head tail x (y ∷ ys) (straight e run lt le at) =
    inr (rest_straight c head tail x y ys e run le at)
Placed-rest c head tail x (y ∷ ys) (wrapped [] low e split run le lt run' pos le') =
    inr (rest_low c head tail x y ys lt (subst (λ l. Contiguous 0 l head) (sym split) run') le')
Placed-rest c head tail x (y ∷ ys) (wrapped (z ∷ high) low e split run le lt run' pos le') = inr (
    subst₂ (λ z l. Placed c head (end z % c) l) (sym same_head) (sym same_rest)
      (rest_high c head tail z high low e run le lt run' pos le'))
  where
    same_head : x ≡ z
    same_head = cc

    same_rest : (y ∷ ys) ≡ (high ++ low)
    same_rest = cc

by_answer :
    (c head seq : ℕ) (x : Allocation) (xs : List Allocation) (tail : ℕ) (left : List Allocation)
    (tail' : ℕ)
    → Placed c head tail (x ∷ xs)
    → (release_loop c seq xs (end x % c) ≡ ok (left, tail')
        → (left ≡ []) ⊎ Placed c head tail' left)
    → (newer : Bool)
    → (if newer then release_loop c seq xs (end x % c) else ok (x ∷ xs, tail)) ≡ ok (left, tail')
    → (left ≡ []) ⊎ Placed c head tail' left
by_answer c head seq x xs tail left tail' p later true g = later g
by_answer c head seq x xs tail left tail' p later false g =
    let same_left : x ∷ xs ≡ left = cc in
    let same_tail : tail ≡ tail' = cc in
    inr (subst₂ (λ t l. Placed c head t l) same_tail same_left p)

-- The allocations that `release_through` leaves are none, or placed from the tail that it sets.
pub release_loop-Placed :
    (c head seq : ℕ) (xs : List Allocation) (tail : ℕ) (left : List Allocation) (tail' : ℕ)
    → (xs ≡ []) ⊎ Placed c head tail xs
    → release_loop c seq xs tail ≡ ok (left, tail')
    → (left ≡ []) ⊎ Placed c head tail' left
unfolding release_loop
release_loop-Placed c head seq [] tail left tail' p h = inl (ground arith)
release_loop-Placed c head seq (x ∷ xs) tail left tail' (inl none_left) h = absurd (cc)
release_loop-Placed c head seq (x ∷ xs) tail left tail' (inr p) h =
    let later =
      release_loop-Placed c head seq xs (end x % c) left tail' (Placed-rest c head tail x xs p) in
    elim (Bool-cases (x.command_seq == seq)) [
      | inl same ↦ later (rw (same, release_loop) at h)
      | inr other ↦ elim (Result-cases (is_newer_or_equal u64 seq x.command_seq)) [
        | inl (newer, answer) ↦
            by_answer c head seq x xs tail left tail' p later newer
              (rw (other, answer, release_loop) at h)
        | inr (_, failed) ↦ absurd (cc (rw (other, failed, release_loop) at h))
      ]
    ]

Contiguous-without_last :
    (s : ℕ) (x : Allocation) (xs : List Allocation) (e : ℕ)
    → Contiguous s (x ∷ xs) e
    → (m : ℕ) × Contiguous s (without_last (x ∷ xs)) m × (m < e)
unfolding without_last
Contiguous-without_last s x [] e h = (s, refl, omega (arith, h.1, h.2))
Contiguous-without_last s x (y ∷ ys) e h =
    let (m, run, lt) = Contiguous-without_last (s + x.size) y ys e h.2 in (m, (h.0, h.1, run), lt)

Contiguous-last_end :
    (c s : ℕ) (x : Allocation) (xs : List Allocation) (e : ℕ)
    → Contiguous s (x ∷ xs) e
    → head_after c (x ∷ xs) ≡ e % c
unfolding head_after
Contiguous-last_end c s x [] e h = ap (λ n. n % c) (omega (arith, h.0, h.2))
Contiguous-last_end c s x (y ∷ ys) e h = Contiguous-last_end c (s + x.size) y ys e h.2

without_last-append :
    (xs : List Allocation) (y : Allocation) (ys : List Allocation)
    → without_last (xs ++ y ∷ ys) ≡ xs ++ without_last (y ∷ ys)
unfolding without_last
without_last-append [] y ys = refl
without_last-append (x ∷ []) y ys = refl
without_last-append (x ∷ w ∷ xs) y ys = ap (◌∷◌ x) (without_last-append (w ∷ xs) y ys)

head_after-append :
    (c : ℕ) (xs : List Allocation) (y : Allocation) (ys : List Allocation)
    → head_after c (xs ++ y ∷ ys) ≡ head_after c (y ∷ ys)
unfolding head_after
head_after-append c [] y ys = refl
head_after-append c (x ∷ []) y ys = refl
head_after-append c (x ∷ w ∷ xs) y ys = head_after-append c (w ∷ xs) y ys

-- A run that ends inside the buffer is a layout.
straight_run :
    (c tail : ℕ) (l : List Allocation) (m : ℕ)
    → Contiguous tail l m
    → m ≤ c
    → (l ≡ []) ⊎ Placed c (head_after c l) tail l
straight_run c tail [] m run le = inl refl
straight_run c tail (x ∷ xs) m run le = inr (
    straight m run (omega (arith, run.1, Contiguous-le (tail + x.size) xs m run.2)) le
      (Contiguous-last_end c tail x xs m run))

wrapped_run :
    (c tail : ℕ) (high l : List Allocation) (e m : ℕ)
    → Contiguous tail high e
    → e ≤ c
    → tail < c
    → Contiguous 0 l m
    → m ≤ tail
    → (high ++ l ≡ []) ⊎ Placed c (head_after c (high ++ l)) tail (high ++ l)
wrapped_run c tail high [] e m run le lt run' le' =
    rw append-nil (straight_run c tail high e run le)
wrapped_run c tail high (x ∷ xs) e m run le lt run' le' =
    let at : head_after c (high ++ x ∷ xs) ≡ m =
      head_after-append c high x xs
      ∙ Contiguous-last_end c 0 x xs m run'
      ∙ mod-eq_of_lt (omega arith) in
    inr (
      rw at (
        wrapped high (x ∷ xs) e refl run le lt run'
          (omega (arith, run'.1, Contiguous-le (0 + x.size) xs m run'.2)) le'))

-- Without its last allocation the arena is empty, or placed up to that of the one before.
pub Placed-without_last :
    (c head tail : ℕ) (xs : List Allocation)
    → Placed c head tail xs
    → (without_last xs ≡ []) ⊎ Placed c (head_after c (without_last xs)) tail (without_last xs)
Placed-without_last c head tail [] p = inl (unfold without_last in refl)
Placed-without_last c head tail (x ∷ xs) (straight e run lt le at) =
    let (m, run', lt') = Contiguous-without_last tail x xs e run in
    straight_run c tail (without_last (x ∷ xs)) m run' (omega arith)
Placed-without_last c head tail (x ∷ xs) (wrapped high [] e split run le lt run' pos le') =
    absurd (omega arith)
Placed-without_last c head tail (x ∷ xs) (wrapped high (z ∷ low) e split run le lt run' pos le') =
    let (m, run'', lt') = Contiguous-without_last 0 z low head run' in
    rw (split, without_last-append)
      (wrapped_run c tail high (without_last (z ∷ low)) e m run le lt run'' (omega arith))
