-- ===== src/Common/Words.antt =====
-- Little-endian numbers of a fixed width in a byte buffer, and runs of 4-byte words.
use native.Mathlib.Nat.{pow-suc}
use nebula_sd.Common.Lists.{length}
use nebula_sd.Common.Bytes.{
  slice, splice, length-splice, slice-splice_self, slice-splice_before, slice-splice_after,
}
use Prim.Native.Nat.{ℕ, zero, suc, ◌+◌, ◌*◌, ◌/◌, ◌%◌, ◌^◌, ◌≤◌, ◌<◌}
use mathlib.Core.Path.{◌≡◌, refl, sym, ap, ap₂, ◌∙◌}
use mathlib.Core.Logic.{◌⊎◌, inl, inr}
use mathlib.Core.List.{List, [], ◌∷◌, ◌++◌}
use native.Mathlib.Omega.{arith}

-- `n.to_bytes(w, "little")`
unfoldable pub to_bytes : ℕ → ℕ → List ℕ
to_bytes zero n = []
to_bytes (suc w) n = n % 256 ∷ to_bytes w (n / 256)

-- `int.from_bytes(raw, "little")`
unfoldable pub from_bytes : List ℕ → ℕ
from_bytes [] = 0
from_bytes (b ∷ bs) = b + 256 * from_bytes bs

pub length-to_bytes : (w n : ℕ) → length (to_bytes w n) ≡ w
unfolding to_bytes
length-to_bytes zero n = refl
length-to_bytes (suc w) n = ap suc (length-to_bytes w (n / 256))

pub from_bytes-to_bytes : (w n : ℕ) → n < 256 ^ w → from_bytes (to_bytes w n) ≡ n
unfolding to_bytes from_bytes
from_bytes-to_bytes zero n h = omega arith
from_bytes-to_bytes (suc w) n h =
    let h' : n < 256 ^ w * 256 = rw pow-suc at h in
    omega (arith, from_bytes-to_bytes w (n / 256) (omega arith))

-- One 4-byte store for each word.
unfoldable pub store_words : ℕ → List ℕ → List ℕ → List ℕ
store_words start [] buf = buf
store_words start (t ∷ ts) buf = store_words (start + 4) ts (splice start (to_bytes 4 t) buf)

-- `unpack_from(f"<{n}I", buf, start)`
unfoldable pub load_words : ℕ → ℕ → List ℕ → List ℕ
load_words zero start buf = []
load_words (suc n) start buf = from_bytes (slice start 4 buf) ∷ load_words n (start + 4) buf

pub length-store_words :
    (start : ℕ) (ts buf : List ℕ) → length (store_words start ts buf) ≡ length buf
unfolding store_words
length-store_words start [] buf = refl
length-store_words start (t ∷ ts) buf =
    length-store_words (start + 4) ts (splice start (to_bytes 4 t) buf)
    ∙ length-splice start (to_bytes 4 t) buf

pub slice-store_words :
    (at n start : ℕ) (ts buf : List ℕ)
    → (at + n ≤ start) ⊎ (start + 4 * length ts ≤ at)
    → slice at n (store_words start ts buf) ≡ slice at n buf
unfolding store_words
slice-store_words at n start [] buf h = refl
slice-store_words at n start (t ∷ ts) buf (inl before) =
    slice-store_words at n (start + 4) ts (splice start (to_bytes 4 t) buf) (inl (omega arith))
    ∙ slice-splice_before at n start (to_bytes 4 t) buf before
slice-store_words at n start (t ∷ ts) buf (inr behind) =
    slice-store_words at n (start + 4) ts (splice start (to_bytes 4 t) buf) (inr (omega arith))
    ∙ slice-splice_after at n start (to_bytes 4 t) buf (omega (arith, length-to_bytes 4 t))

-- A run apart from what is stored reads as before.
pub load_words-store_words_ne :
    (n at start : ℕ) (ts buf : List ℕ)
    → (at + 4 * n ≤ start) ⊎ (start + 4 * length ts ≤ at)
    → load_words n at (store_words start ts buf) ≡ load_words n at buf
unfolding load_words
load_words-store_words_ne zero at start ts buf h = refl
load_words-store_words_ne (suc n) at start ts buf (inl before) =
    ap₂ (λ b bs. from_bytes b ∷ bs) (slice-store_words at 4 start ts buf (inl (omega arith)))
      (load_words-store_words_ne n (at + 4) start ts buf (inl (omega arith)))
load_words-store_words_ne (suc n) at start ts buf (inr behind) =
    ap₂ (λ b bs. from_bytes b ∷ bs) (slice-store_words at 4 start ts buf (inr behind))
      (load_words-store_words_ne n (at + 4) start ts buf (inr (omega arith)))

abbrev pub AreWords : List ℕ → Type 0
AreWords [] = Unit {0}
AreWords (t ∷ ts) = (t < 2 ^ 32) × AreWords ts

-- Words that fit are read back.
pub load_words-store_words :
    (start : ℕ) (ts buf : List ℕ)
    → AreWords ts
    → start + 4 * length ts ≤ length buf
    → load_words (length ts) start (store_words start ts buf) ≡ ts
unfolding load_words store_words slice to_bytes
load_words-store_words start [] buf w h = refl
load_words-store_words start (t ∷ ts) buf w h =
    ap₂ ◌∷◌ (ap from_bytes word ∙ from_bytes-to_bytes 4 t (omega (arith, w.0))) (
      load_words-store_words (start + 4) ts (splice start (to_bytes 4 t) buf) w.1
        (omega (arith, length-splice start (to_bytes 4 t) buf)))
  where
    word :
        slice start 4 (store_words (start + 4) ts (splice start (to_bytes 4 t) buf)) ≡ to_bytes 4 t
    word =
        slice-store_words start 4 (start + 4) ts (splice start (to_bytes 4 t) buf)
          (inl (omega arith))
        ∙ slice-splice_self start (to_bytes 4 t) buf (omega (arith, length-to_bytes 4 t))

-- A run is read in two parts.
pub load_words-add :
    (n m start : ℕ) (buf : List ℕ)
    → load_words (n + m) start buf ≡ load_words n start buf ++ load_words m (start + 4 * n) buf
unfolding load_words
load_words-add zero m start buf =
    let e : start + 4 * 0 ≡ start = omega arith in
    let z : 0 + m ≡ m = omega arith in
    ap (λ k. load_words k start buf) z ∙ ap (λ k. load_words m k buf) (sym e)
load_words-add (suc n) m start buf =
    let e : start + 4 + 4 * n ≡ start + 4 * suc n = omega arith in
    let z : suc n + m ≡ suc (n + m) = omega arith in
    ap (λ k. load_words k start buf) z
    ∙ ap (◌∷◌ (from_bytes (slice start 4 buf))) (
        load_words-add n m (start + 4) buf
        ∙ ap (λ k. load_words n (start + 4) buf ++ load_words m k buf) e)

pub length-load_words : (n start : ℕ) (buf : List ℕ) → length (load_words n start buf) ≡ n
unfolding load_words
length-load_words zero start buf = refl
length-load_words (suc n) start buf = ap suc (length-load_words n (start + 4) buf)
