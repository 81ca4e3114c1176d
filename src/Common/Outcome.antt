-- ===== src/Common/Outcome.antt =====
-- What a Python call ends in: a value, or an exception named by its class.
use mathlib.Core.Path.{◌≡◌, refl}
use mathlib.Core.Logic.{◌⊎◌, inl, inr}
use mathlib.Core.Bool.{Bool, true, false}

pub data Exception : Type 0 where
  value_error runtime_error index_error key_error overflow_error struct_error : Exception
  capacity_error backpressure stale_generation : Exception
  token_arena_error proposal_arena_error : Exception
  admission_rejected admission_capacity_error : Exception

pub data Result {ℓ} (A : Type ℓ) : Type ℓ where
  ok : A → Result A
  err : Exception → Result A

-- A call, and what is done with its value; an exception passes through.
infixl 5 ◌>>=◌ ◌>>◌
abbrev pub ◌>>=◌ {ℓ κ} :
    {Value : Type ℓ} {Next : Type κ} → Result Value → (Value → Result Next) → Result Next
err raised >>= continue = err raised
ok value >>= continue = continue value

abbrev pub ◌>>◌ {ℓ κ} : {Value : Type ℓ} {Next : Type κ} → Result Value → Result Next → Result Next
call >> after = call >>= λ _. after

-- `if test: raise e`
abbrev pub raise_if : Bool → Exception → Result (Unit {0})
raise_if true e = err e
raise_if false e = ok tt

-- The value of a result, with one to fall back on.
abbrev pub value_or {ℓ} : {A : Type ℓ} → A → Result A → A
value_or d (ok a) = a
value_or d (err e) = d

pub Result-cases {ℓ} :
    {A : Type ℓ} (r : Result A) → ((a : A) × (r ≡ ok a)) ⊎ ((x : Exception) × (r ≡ err x))
Result-cases (ok a) = inl (a, refl)
Result-cases (err x) = inr (x, refl)

-- A chain ended in a value because its first call did.
pub >>=-ok {ℓ κ} :
    {Value : Type ℓ} {Next : Type κ} {last : Next} (call : Result Value)
    (continue : Value → Result Next)
    → (call >>= continue) ≡ ok last
    → (value : Value) × (call ≡ ok value) × (continue value ≡ ok last)
>>=-ok (err raised) continue ended = cc
>>=-ok (ok value) continue ended = (value, refl, ended)

-- What holds of the value to fall back on and of every value, holds of the value in use.
pub value_or_lem {ℓ κ} :
    {A : Type ℓ} (P : A → Type κ) (d : A) (r : Result A)
    → P d
    → ((a : A) → r ≡ ok a → P a)
    → P (value_or d r)
value_or_lem P d (ok a) start next = next a refl
value_or_lem P d (err x) start next = start
