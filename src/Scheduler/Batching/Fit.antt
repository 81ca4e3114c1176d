-- ===== src/Scheduler/Batching/Fit.antt =====
-- Which candidates `fit` of nebulasd/src/nebulasd/scheduler/batching.py takes.
use nebula_sd.Common.{
  ℕ, ◌+◌, ◌≤◌, ◌≡◌, refl, inl, inr, Bool, true, false, ◌&&◌, List, [], ◌∷◌, ◌++◌, leb, length,
  length-append, sum_of, sum_of-append, if◌then◌else◌, arith, Bool-cases,
}
use nebula_sd.Scheduler.Batching.{fit_loop, fit}

module _ {A : Type 0} (token_cost capacity_blocks : A → ℕ)
    (max_rows max_tokens max_blocks : ℕ) where
  -- A candidate still fits beside what is chosen.
  abbrev pub fits_beside : List A → A → Bool
  fits_beside chosen r =
      leb (length chosen + 1) max_rows
      && (leb (sum_of token_cost chosen + token_cost r) max_tokens
          && leb (sum_of capacity_blocks chosen + capacity_blocks r) max_blocks)

  -- What is chosen, and the totals that belong to it.
  record Chosen (chosen : List A) (tokens blocks : ℕ) : Type 0 where
    tokens_sum : tokens ≡ sum_of token_cost chosen
    blocks_sum : blocks ≡ sum_of capacity_blocks chosen
    rows_bound : length chosen ≤ max_rows
    tokens_bound : tokens ≤ max_tokens
    blocks_bound : blocks ≤ max_blocks

  abbrev pub run : List A → List A → ℕ → ℕ → List A
  run = fit_loop token_cost capacity_blocks max_rows max_tokens max_blocks

  abbrev pub WithinLimits : List A → Type 0
  WithinLimits chosen =
      (length chosen ≤ max_rows)
      × (sum_of token_cost chosen ≤ max_tokens)
      × (sum_of capacity_blocks chosen ≤ max_blocks)

  -- The loop stays within the limits, and one more candidate is taken exactly if it fits.
  fit_loop-append :
      (rest : List A) (r : A) (chosen : List A) (tokens blocks : ℕ)
      → Chosen chosen tokens blocks
      → WithinLimits (run rest chosen tokens blocks)
        × (run (rest ++ r ∷ []) chosen tokens blocks ≡ (
            if fits_beside (run rest chosen tokens blocks) r
            then run rest chosen tokens blocks ++ r ∷ []
            else run rest chosen tokens blocks))
  unfolding fit_loop
  fit_loop-append [] r chosen tokens blocks c =
      let (ts, bs, rb, tb, bb) : (tokens ≡ sum_of token_cost chosen)
          × (blocks ≡ sum_of capacity_blocks chosen)
          × (length chosen ≤ max_rows)
          × (tokens ≤ max_tokens)
          × (blocks ≤ max_blocks) =
        (c.tokens_sum, c.blocks_sum, c.rows_bound, c.tokens_bound, c.blocks_bound) in
      (ground arith, ground arith)
  fit_loop-append (x ∷ rest) r chosen tokens blocks c =
      elim (Bool-cases (leb max_rows (length chosen))) [
        | inl full ↦
            let refused : fits_beside chosen r ≡ false = ground (arith, full) in
            rw (full) (kept c, rw refused refl)
        | inr room ↦
            elim (Bool-cases (
              leb (tokens + token_cost x) max_tokens
              && leb (blocks + capacity_blocks x) max_blocks)) [
                | inl taken ↦
                    rw (room, taken)
                      (fit_loop-append rest r (chosen ++ x ∷ []) (tokens + token_cost x)
                        (blocks + capacity_blocks x) (taken_lem c room taken))
                | inr passed ↦ rw (room, passed) (fit_loop-append rest r chosen tokens blocks c)
              ]
      ]
    where
      kept : Chosen chosen tokens blocks → WithinLimits chosen
      kept d = (
        d.rows_bound,
        omega (arith, d.tokens_sum, d.tokens_bound),
        omega (arith, d.blocks_sum, d.blocks_bound),
      )

      taken_lem :
          Chosen chosen tokens blocks
          → leb max_rows (length chosen) ≡ false
          → (leb (tokens + token_cost x) max_tokens && leb (blocks + capacity_blocks x) max_blocks)
            ≡ true
          → Chosen (chosen ++ x ∷ []) (tokens + token_cost x) (blocks + capacity_blocks x)
      taken_lem d room taken = record {
        tokens_sum = omega (arith, d.tokens_sum, sum_of-append token_cost chosen (x ∷ []));
        blocks_sum = omega (arith, d.blocks_sum, sum_of-append capacity_blocks chosen (x ∷ []));
        rows_bound = ground (arith, room, length-append chosen (x ∷ []));
        tokens_bound = ground (arith, taken);
        blocks_bound = ground (arith, taken);
      }

-- For any candidates, cost and block functions and limits: what `fit` chooses keeps the limits on
-- rows, tokens and blocks; and one more candidate at the end is chosen, behind all the others,
-- exactly if it fits beside them, so an earlier choice never depends on a later candidate and a
-- candidate that does not fit hides none behind it.
pub fit-append :
    {A : Type 0} (token_cost capacity_blocks : A → ℕ) (max_rows max_tokens max_blocks : ℕ)
    (candidates : List A) (r : A)
    → let chosen = fit token_cost capacity_blocks max_rows max_tokens max_blocks candidates in
      WithinLimits token_cost capacity_blocks max_rows max_tokens max_blocks chosen
      × (fit token_cost capacity_blocks max_rows max_tokens max_blocks (candidates ++ r ∷ []) ≡ (
          if fits_beside token_cost capacity_blocks max_rows max_tokens max_blocks chosen r
          then chosen ++ r ∷ []
          else chosen))
unfolding fit
fit-append token_cost capacity_blocks max_rows max_tokens max_blocks candidates r =
    fit_loop-append token_cost capacity_blocks max_rows max_tokens max_blocks candidates r [] 0 0
      (record {
        tokens_sum = refl;
        blocks_sum = refl;
        rows_bound = omega arith;
        tokens_bound = omega arith;
        blocks_bound = omega arith;
      })
