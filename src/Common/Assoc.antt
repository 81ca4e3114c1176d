-- ===== src/Common/Assoc.antt =====
-- A Python dict with numbers for keys: an association list in insertion order.
use nebula_sd.Common.Tests.{◌==◌, if◌then◌else◌}
use nebula_sd.Common.Lists.{sum_of}
use Prim.Native.Nat.{ℕ, ◌+◌}
use mathlib.Core.Path.{◌≡◌, refl}
use mathlib.Core.Logic.{◌≢◌}
use mathlib.Core.List.{List, [], ◌∷◌}
use mathlib.Core.Option.{Option, none, some}
use native.Mathlib.Omega.{arith}

abbrev pub Assoc {ℓ} : Type ℓ → Type ℓ
Assoc V = List (ℕ × V)

module _ {ℓ} {V : Type ℓ} where
  -- `d.get(k)`
  unfoldable pub lookup : ℕ → Assoc V → Option V
  lookup k [] = none
  lookup k ((j, v) ∷ m) = if j == k then some v else lookup k m

  -- `d[k] = v`: a new key goes to the end.
  unfoldable pub insert : ℕ → V → Assoc V → Assoc V
  insert k v [] = (k, v) ∷ []
  insert k v ((j, w) ∷ m) = if j == k then (k, v) ∷ m else (j, w) ∷ insert k v m

  -- `del d[k]`
  unfoldable pub remove : ℕ → Assoc V → Assoc V
  remove k [] = []
  remove k ((j, w) ∷ m) = if j == k then m else (j, w) ∷ remove k m

  pub lookup-insert :
      (new asked : ℕ) (value : V) (table : Assoc V)
      → lookup asked (insert new value table)
        ≡ (if new == asked then some value else lookup asked table)
  unfolding insert lookup
  lookup-insert new asked value [] = refl
  lookup-insert new asked value ((key, held) ∷ rest) =
      ground (arith, lookup-insert new asked value rest)

  pub lookup-insert_self : (k : ℕ) (v : V) (m : Assoc V) → lookup k (insert k v m) ≡ some v
  lookup-insert_self k v m = ground (arith, lookup-insert k k v m)

  pub lookup-remove_ne : (k j : ℕ) (m : Assoc V) → k ≢ j → lookup j (remove k m) ≡ lookup j m
  unfolding lookup remove
  lookup-remove_ne k j [] h = refl
  lookup-remove_ne k j ((i, w) ∷ m) h = ground (arith, lookup-remove_ne k j m h)

  -- No key stands twice.
  abbrev pub Absent : ℕ → Assoc V → Type 0
  Absent k [] = Unit {0}
  Absent k ((j, v) ∷ m) = (j ≢ k) × Absent k m

  abbrev pub Distinct : Assoc V → Type 0
  Distinct [] = Unit {0}
  Distinct ((j, v) ∷ m) = Absent j m × Distinct m

  pub lookup-Absent : (k : ℕ) (m : Assoc V) → Absent k m → lookup k m ≡ none
  unfolding lookup
  lookup-Absent k [] h = refl
  lookup-Absent k ((j, v) ∷ m) h = ground (arith, h.0, lookup-Absent k m h.1)

  Absent-insert : (k j : ℕ) (v : V) (m : Assoc V) → Absent k m → j ≢ k → Absent k (insert j v m)
  unfolding insert
  Absent-insert k j v [] h ne = (ne, tt)
  Absent-insert k j v ((i, w) ∷ m) h ne = ground (arith, h.0, ne, Absent-insert k j v m h.1 ne)

  pub Distinct-insert : (k : ℕ) (v : V) (m : Assoc V) → Distinct m → Distinct (insert k v m)
  unfolding insert
  Distinct-insert k v [] h = (tt, tt)
  Distinct-insert k v ((i, w) ∷ m) h =
      ground (arith, Distinct-insert k v m h.1, Absent-insert i k v m h.0)

  Absent-remove : (k j : ℕ) (m : Assoc V) → Absent k m → Absent k (remove j m)
  unfolding remove
  Absent-remove k j [] h = tt
  Absent-remove k j ((i, w) ∷ m) h = ground (arith, h.0, Absent-remove k j m h.1)

  pub Distinct-remove : (k : ℕ) (m : Assoc V) → Distinct m → Distinct (remove k m)
  unfolding remove
  Distinct-remove k [] h = tt
  Distinct-remove k ((i, w) ∷ m) h =
      ground (arith, Distinct-remove k m h.1, Absent-remove i k m h.0)

  pub lookup-remove_self : (k : ℕ) (m : Assoc V) → Distinct m → lookup k (remove k m) ≡ none
  unfolding lookup remove
  lookup-remove_self k [] h = refl
  lookup-remove_self k ((i, w) ∷ m) h =
      ground (arith, lookup-remove_self k m h.1, lookup-Absent i m h.0)

  -- A sum over the entries, when one is added or taken away.
  pub sum_of-insert_new :
      (f : ℕ × V → ℕ) (k : ℕ) (v : V) (m : Assoc V)
      → lookup k m ≡ none
      → sum_of f (insert k v m) ≡ f (k, v) + sum_of f m
  unfolding lookup insert
  sum_of-insert_new f k v [] h = refl
  sum_of-insert_new f k v ((i, w) ∷ m) h = ground (arith, sum_of-insert_new f k v m)

  pub sum_of-remove :
      (f : ℕ × V → ℕ) (k : ℕ) (v : V) (m : Assoc V)
      → lookup k m ≡ some v
      → sum_of f m ≡ f (k, v) + sum_of f (remove k m)
  unfolding lookup remove
  sum_of-remove f k v [] h = absurd (cc)
  sum_of-remove f k v ((i, w) ∷ m) h = ground (arith, sum_of-remove f k v m)

  -- Replacing a value by one of the same measure.
  pub sum_of-insert_same :
      (f : ℕ × V → ℕ) (k : ℕ) (v w : V) (m : Assoc V)
      → lookup k m ≡ some v
      → f (k, w) ≡ f (k, v)
      → sum_of f (insert k w m) ≡ sum_of f m
  unfolding lookup insert
  sum_of-insert_same f k v w [] h e = absurd (cc)
  sum_of-insert_same f k v w ((i, u) ∷ m) h e = ground (arith, e, sum_of-insert_same f k v w m)
