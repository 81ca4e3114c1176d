-- ===== src/Core/Examples.antt =====
-- Concrete sequence numbers.
use nebula_sd.Common.{ℕ, ◌<◌, ◌≡◌, ◌≢◌, Bool, true, not, ok, arith}
use nebula_sd.Core.Ids.{u8, max_value, next, is_newer}
use nebula_sd.Core.Ids.Order.{is_newer_opposite, next-is_newer}

is_newer_opposite_example :
    (x : Bool) × (is_newer u8 3 250 ≡ ok x) × (is_newer u8 250 3 ≡ ok (not x))
unfolding max_value
is_newer_opposite_example =
    is_newer_opposite u8 3 250 (omega arith) (omega arith) (omega arith) (λ e. omega arith)

next-is_newer_example :
    (b : ℕ) × (next u8 254 ≡ ok b) × (b < max_value u8) × (b ≢ 254) × (is_newer u8 b 254 ≡ ok true)
unfolding max_value
next-is_newer_example = next-is_newer u8 254 (omega arith) (omega arith)
