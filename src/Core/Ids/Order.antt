-- ===== src/Core/Ids/Order.antt =====
-- Sequence numbers that wrap: which of two is newer.
use native.Mathlib.Decide.{dec_lt}
use native.Mathlib.Nat.{pow-suc, mod-eq_of_lt, mod_self, mod-lt}
use nebula_sd.Common.{
  ℕ, zero, suc, ◌+◌, ◌-◌, ◌/◌, ◌%◌, ◌^◌, ◌≤◌, ◌<◌, ◌≡◌, ◌≢◌, ◌∙◌, Bool, true, not, ok, arith, leb,
  ltb, ap, ◌&&◌,
}
use nebula_sd.Core.Ids.{UIntDomain, max_value, validate, next, is_newer}

pow_pos : (k : ℕ) → 0 < 2 ^ k
pow_pos zero = omega arith
pow_pos (suc k) = rw pow-suc (omega (arith, pow_pos k))

-- The modulus of the arithmetic, 2 ^ bits - 1, is odd.
max_value_odd : (d : UIntDomain) → 0 < d.bits → max_value d % 2 ≡ 1
unfolding max_value
max_value_odd d h = go d.bits h
  where
    go : (b : ℕ) → 0 < b → (2 ^ b - 1) % 2 ≡ 1
    go zero h = elim h [ ]
    go (suc k) h = rw pow-suc (omega (arith, pow_pos k))

-- The gap of two valid numbers, without the remainder.
gap : ℕ → ℕ → ℕ → ℕ
gap m a b = (a + m - b) % m

gap_above : (m a b : ℕ) → a < m → b ≤ a → gap m a b ≡ a - b
unfolding gap
gap_above m a b ha le = let e : a + m - b ≡ (a - b) + m = omega arith in rw e (grind arith)

gap_below : (m a b : ℕ) → b < m → a < b → gap m a b ≡ a + m - b
unfolding gap
gap_below m a b hb lt = mod-eq_of_lt (omega arith)

-- Of two different numbers exactly one gap is at most half of an odd modulus.
gaps_opposite :
    (m a b : ℕ)
    → m % 2 ≡ 1
    → a < m
    → b < m
    → a ≢ b
    → (ltb 0 (gap m b a) && leb (gap m b a) (m / 2))
      ≡ not (ltb 0 (gap m a b) && leb (gap m a b) (m / 2))
gaps_opposite m a b odd ha hb ne = elim (dec_lt a b) [
  | yes lt ↦ ground (arith, gap_below m a b hb lt, gap_above m b a hb (omega arith))
  | no ge ↦ ground (arith, gap_below m b a ha (omega arith), gap_above m a b ha (omega arith))
]

validate_ok : (d : UIntDomain) (a : ℕ) → a < max_value d → validate d a ≡ ok a
unfolding validate
validate_ok d a h = ground arith

is_newer_lem :
    (d : UIntDomain) (a b : ℕ)
    → a < max_value d
    → b < max_value d
    → is_newer d a b
      ≡ ok (ltb 0 (gap (max_value d) a b) && leb (gap (max_value d) a b) (max_value d / 2))
unfolding is_newer gap
is_newer_lem d a b ha hb = rw (validate_ok d a ha, validate_ok d b hb)

-- Of two different numbers below `max_value` exactly one is newer than the other, in a domain of at
-- least one bit.
pub is_newer_opposite :
    (d : UIntDomain) (a b : ℕ)
    → 0 < d.bits
    → a < max_value d
    → b < max_value d
    → a ≢ b
    → (x : Bool) × (is_newer d a b ≡ ok x) × (is_newer d b a ≡ ok (not x))
is_newer_opposite d a b bits ha hb ne = (
  _,
  is_newer_lem d a b ha hb,
  is_newer_lem d b a hb ha
      ∙ ap ok (gaps_opposite (max_value d) a b (max_value_odd d bits) ha hb ne),
)

max_value_ge : (d : UIntDomain) → 2 ≤ d.bits → 3 ≤ max_value d
unfolding max_value
max_value_ge d h = go d.bits h
  where
    go : (b : ℕ) → 2 ≤ b → 3 ≤ 2 ^ b - 1
    go zero h = absurd (omega arith)
    go (suc zero) h = absurd (omega arith)
    go (suc (suc k)) h = rw (pow-suc, pow-suc) (omega (arith, pow_pos k))

gap-next : (m a : ℕ) → 3 ≤ m → a < m → gap m ((a + 1) % m) a ≡ 1
gap-next m a hm ha = elim (dec_lt (a + 1) m) [
  | yes lt ↦ rw (mod-eq_of_lt lt) (gap_above m (a + 1) a lt (omega arith) ∙ omega arith)
  | no ge ↦
      let e : a + 1 ≡ m = omega arith in
      rw (e, mod_self) (gap_below m 0 a ha (omega arith) ∙ omega arith)
]

-- In a domain of at least two bits the successor of a number below `max_value` exists, is below it
-- too, differs from the number and is newer.
pub next-is_newer :
    (d : UIntDomain) (a : ℕ)
    → 2 ≤ d.bits
    → a < max_value d
    → (b : ℕ) × (next d a ≡ ok b) × (b < max_value d) × (b ≢ a) × (is_newer d b a ≡ ok true)
unfolding next
next-is_newer d a bits ha = (
  (a + 1) % max_value d,
  rw (validate_ok d a ha),
  below,
  differs,
  is_newer_lem d _ a below ha ∙ ap ok (ground (arith, step, big)),
)
  where
    big : 3 ≤ max_value d
    big = max_value_ge d bits

    below : (a + 1) % max_value d < max_value d
    below = mod-lt (a + 1) (omega (arith, big))

    step : gap (max_value d) ((a + 1) % max_value d) a ≡ 1
    step = gap-next (max_value d) a big ha

    differs : (a + 1) % max_value d ≢ a
    differs = λ e. omega (
      arith,
      step,
      gap_above (max_value d) a a ha (omega arith),
      ap (λ x. gap (max_value d) x a) e,
    )

validate-lt : (d : UIntDomain) (a : ℕ) → 2 ≤ d.bits → validate d a ≡ ok a → a < max_value d
unfolding validate
validate-lt d a bits h = ground (arith, max_value_ge d bits)

next-valid : (d : UIntDomain) (a b : ℕ) → next d a ≡ ok b → validate d a ≡ ok a
unfolding next validate
next-valid d a b h = ground arith

-- A successor that is returned differs from its argument.
pub next-ne : (d : UIntDomain) (a b : ℕ) → 2 ≤ d.bits → next d a ≡ ok b → b ≢ a
next-ne d a b bits h =
    let (c, made, _, differs, _) =
      next-is_newer d a bits (validate-lt d a bits (next-valid d a b h)) in
    λ e. differs (cc (h, made, e))
