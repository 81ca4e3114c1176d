-- ===== src/Scheduler/Examples.antt =====
-- A concrete batch.
use nebula_sd.Common.{ℕ, ◌≡◌, [], ◌∷◌}
use nebula_sd.Scheduler.Batching.{fit, fit_loop}
use nebula_sd.Scheduler.Batching.Fit.{fit-append, WithinLimits}

-- A candidate is its cost, and takes two blocks; the second is too large.
fit-append_example :
    WithinLimits (λ (c : ℕ). c) (λ (c : ℕ). 2) 3 10 8 (4 ∷ 5 ∷ [])
    × (fit (λ (c : ℕ). c) (λ (c : ℕ). 2) 3 10 8 (4 ∷ 20 ∷ 5 ∷ 1 ∷ []) ≡ 4 ∷ 5 ∷ 1 ∷ [])
unfolding fit fit_loop
fit-append_example = fit-append (λ (c : ℕ). c) (λ (c : ℕ). 2) 3 10 8 (4 ∷ 20 ∷ 5 ∷ []) 1
