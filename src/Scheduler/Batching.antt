-- ===== src/Scheduler/Batching.antt =====
-- nebulasd/src/nebulasd/scheduler/batching.py: the batching window, and the choice of a batch.
-- A candidate is any type with a number of blocks; the cost function is the caller's.
pub mod Fit
use nebula_sd.Common.{
  ℕ, ◌+◌, ◌-◌, Bool, ◌&&◌, ◌||◌, List, [], ◌∷◌, ◌++◌, leb, length, if◌then◌else◌,
}

pub record BatchWindow : Type 0 where
  pub delay_ns : ℕ

-- `now_ns - oldest_ready_ns >= delay_ns`, with no number below 0: the delay is compared after it is
-- moved to the other side.
unfoldable pub allow : BatchWindow → ℕ → ℕ → Bool → Bool
allow w now_ns oldest_ready_ns full = full || leb (oldest_ready_ns + w.delay_ns) now_ns

module _ {A : Type 0} (token_cost capacity_blocks : A → ℕ)
    (max_rows max_tokens max_blocks : ℕ) where
  -- The loop of `fit`, with what is chosen so far and its totals.
  unfoldable pub fit_loop : List A → List A → ℕ → ℕ → List A
  fit_loop [] chosen tokens blocks = chosen
  fit_loop (r ∷ rest) chosen tokens blocks =
      let fits =
        leb (tokens + token_cost r) max_tokens && leb (blocks + capacity_blocks r) max_blocks in
      let next =
        fit_loop rest (if fits then chosen ++ r ∷ [] else chosen)
          (if fits then tokens + token_cost r else tokens)
          (if fits then blocks + capacity_blocks r else blocks) in
      if leb max_rows (length chosen) then chosen else next

  unfoldable pub fit : List A → List A
  fit candidates = fit_loop candidates [] 0 0
