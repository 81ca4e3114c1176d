-- ===== src/Engine/Admission/Budget.antt =====
-- Requests admitted by nebulasd/src/nebulasd/engine/admission.py stay within every capacity.
use nebula_sd.Common.{
  ℕ, ◌+◌, ◌≤◌, ◌≡◌, refl, List, [], ◌∷◌, Option, none, some, Result, ok, ◌>>=◌, arith, inl, inr, ap,
  sum_of, Result-cases,
}
use nebula_sd.Engine.Admission.{
  AdmissionCost, RequestConfig, SessionBudget, cost_of, within, within_optional, check, commit,
}

-- A request as admission sees it.
pub record Request : Type 0 where
  pub prompt_count : ℕ
  pub config : RequestConfig
  pub host_blocks : ℕ

-- The requests of a session, each checked and then committed.
unfoldable pub admit_all : SessionBudget → List Request → Result SessionBudget
admit_all b [] = ok b
admit_all b (r ∷ rs) = do
  cost ← check b r.prompt_count r.config r.host_blocks
  admit_all (commit b cost) rs

abbrev pub OptionalBound : ℕ → Option ℕ → Type 0
OptionalBound used none = Unit {0}
OptionalBound used (some capacity) = used ≤ capacity

pub record IsWithin (b : SessionBudget) : Type 0 where
  pub engine_tokens : b.used.engine_tokens ≤ b.limits.engine_tokens
  pub config_bytes : b.used.config_bytes ≤ b.limits.config_bytes
  pub proposals : b.used.proposals ≤ b.limits.proposals
  pub host_blocks : b.used.host_blocks ≤ b.limits.host_blocks
  pub snapshots : b.used.snapshots ≤ b.limits.snapshots
  pub draft_host_blocks : b.used.draft_host_blocks ≤ b.limits.draft_host_blocks
  pub completions : OptionalBound b.used.completions b.limits.completions

check-IsWithin :
    (b : SessionBudget) (r : Request) (cost : AdmissionCost)
    → check b r.prompt_count r.config r.host_blocks ≡ ok cost
    → (cost ≡ cost_of b r.prompt_count r.config r.host_blocks) × IsWithin (commit b cost)
unfolding check within within_optional commit
check-IsWithin b r cost h = go b.limits.completions refl
  where
    go :
        (o : Option ℕ)
        → b.limits.completions ≡ o
        → (cost ≡ cost_of b r.prompt_count r.config r.host_blocks) × IsWithin (commit b cost)
    go none e = ground (arith, e)
    go (some capacity) e = ground (arith, e)

-- From a budget within its limits, requests that are all admitted leave it within its limits, and
-- the host blocks in use have grown by exactly what the requests asked for.
pub admit_all-IsWithin :
    (rs : List Request) (b c : SessionBudget)
    → IsWithin b
    → admit_all b rs ≡ ok c
    → IsWithin c
      × (c.used.host_blocks ≡ b.used.host_blocks + sum_of (λ (r : Request). r.host_blocks) rs)
unfolding admit_all cost_of commit
admit_all-IsWithin [] b c i h =
    let same : c ≡ b = ground arith in (rw same i, rw same (omega arith))
admit_all-IsWithin (r ∷ rs) b c i h =
    elim (Result-cases (check b r.prompt_count r.config r.host_blocks)) [
      | inr (_, failed) ↦ absurd (ground (arith, failed))
      | inl (cost, done) ↦
          let here = check-IsWithin b r cost done in
          let after : admit_all (commit b cost) rs ≡ ok c = ground (arith, done) in
          let rest = admit_all-IsWithin rs (commit b cost) c here.1 after in
          let blocks : cost.host_blocks ≡ r.host_blocks =
            ap (λ (k : AdmissionCost). k.host_blocks) here.0 in
          (rest.0, omega (arith, rest.1, blocks))
    ]
