-- ===== src/Common/Bytes.antt =====
-- Ranges of a byte buffer: `buf[at : at + n]`, and its assignment.
use nebula_sd.Common.Lists.{length, take, drop, length-take, length-drop}
use Prim.Native.Nat.{ℕ, zero, suc, ◌+◌, ◌≤◌}
use mathlib.Core.Path.{◌≡◌, refl, ap}
use mathlib.Core.List.{List, [], ◌∷◌, ◌++◌}
use native.Mathlib.Omega.{arith}

module _ {ℓ} {A : Type ℓ} where
  unfoldable pub slice : ℕ → ℕ → List A → List A
  slice at n xs = take n (drop at xs)

  -- Assignment of a range that lies inside the buffer; past its end the buffer keeps its length.
  unfoldable pub splice : ℕ → List A → List A → List A
  splice at vs [] = []
  splice zero [] (x ∷ xs) = x ∷ xs
  splice zero (v ∷ vs) (x ∷ xs) = v ∷ splice zero vs xs
  splice (suc at) vs (x ∷ xs) = x ∷ splice at vs xs

  pub length-splice : (at : ℕ) (vs xs : List A) → length (splice at vs xs) ≡ length xs
  unfolding splice
  length-splice at vs [] = refl
  length-splice zero [] (x ∷ xs) = refl
  length-splice zero (v ∷ vs) (x ∷ xs) = ap suc (length-splice zero vs xs)
  length-splice (suc at) vs (x ∷ xs) = ap suc (length-splice at vs xs)

  pub length-slice : (at n : ℕ) (xs : List A) → at + n ≤ length xs → length (slice at n xs) ≡ n
  unfolding slice
  length-slice at n xs h = omega (arith, length-take n (drop at xs), length-drop at xs)

  take_nil : (n : ℕ) → take n (let e : List A = [] in e) ≡ []
  take_nil zero = refl
  take_nil (suc n) = refl

  drop_nil : (n : ℕ) → drop n (let e : List A = [] in e) ≡ []
  drop_nil zero = refl
  drop_nil (suc n) = refl

  -- What was written is read back.
  pub slice-splice_self :
      (at : ℕ) (vs xs : List A)
      → at + length vs ≤ length xs
      → slice at (length vs) (splice at vs xs) ≡ vs
  unfolding slice splice
  slice-splice_self zero [] xs h = refl
  slice-splice_self (suc at) [] xs h = refl
  slice-splice_self zero (v ∷ vs) [] h = absurd (omega arith)
  slice-splice_self zero (v ∷ vs) (x ∷ xs) h =
      ap (◌∷◌ v) (slice-splice_self zero vs xs (omega arith))
  slice-splice_self (suc at) (v ∷ vs) [] h = absurd (omega arith)
  slice-splice_self (suc at) (v ∷ vs) (x ∷ xs) h = slice-splice_self at (v ∷ vs) xs (omega arith)

  -- A range before the written one keeps its bytes.
  pub slice-splice_before :
      (at n i : ℕ) (vs xs : List A) → at + n ≤ i → slice at n (splice i vs xs) ≡ slice at n xs
  unfolding slice splice
  slice-splice_before at n i vs [] h = refl
  slice-splice_before at zero i vs (x ∷ xs) h = refl
  slice-splice_before zero (suc n) zero vs (x ∷ xs) h = absurd (omega arith)
  slice-splice_before zero (suc n) (suc i) vs (x ∷ xs) h =
      ap (◌∷◌ x) (slice-splice_before zero n i vs xs (omega arith))
  slice-splice_before (suc at) (suc n) zero vs (x ∷ xs) h = absurd (omega arith)
  slice-splice_before (suc at) (suc n) (suc i) vs (x ∷ xs) h =
      slice-splice_before at (suc n) i vs xs (omega arith)

  -- A range behind the written one keeps its bytes.
  pub slice-splice_after :
      (at n i : ℕ) (vs xs : List A)
      → i + length vs ≤ at
      → slice at n (splice i vs xs) ≡ slice at n xs
  unfolding slice splice
  slice-splice_after at n i vs [] h = refl
  slice-splice_after at n zero [] (x ∷ xs) h = refl
  slice-splice_after zero n zero (v ∷ vs) (x ∷ xs) h = absurd (omega arith)
  slice-splice_after (suc at) n zero (v ∷ vs) (x ∷ xs) h =
      slice-splice_after at n zero vs xs (omega arith)
  slice-splice_after zero n (suc i) vs (x ∷ xs) h = absurd (omega arith)
  slice-splice_after (suc at) n (suc i) vs (x ∷ xs) h =
      slice-splice_after at n i vs xs (omega arith)

  -- Two writes, one right behind the other.
  pub splice-append :
      (at : ℕ) (us vs xs : List A)
      → splice at (us ++ vs) xs ≡ splice (at + length us) vs (splice at us xs)
  unfolding splice
  splice-append at [] [] [] = refl
  splice-append at us vs [] = refl
  splice-append zero [] vs (x ∷ xs) = refl
  splice-append zero (u ∷ us) vs (x ∷ xs) =
      let shift : 0 + suc (length us) ≡ suc (0 + length us) = omega arith in
      rw shift (ap (◌∷◌ u) (splice-append zero us vs xs))
  splice-append (suc at) us vs (x ∷ xs) =
      let shift : suc at + length us ≡ suc (at + length us) = omega arith in
      rw shift (ap (◌∷◌ x) (splice-append at us vs xs))
