-- ===== src/Engine/Admission.antt =====
-- nebulasd/src/nebulasd/engine/admission.py: the budget of a cohort, worst case by worst case.
-- Of the resources only the capacities count: they are the record of limits, with the smallest of
-- the proposal arenas and of the snapshot arenas taken, and no limit for absent completions.
pub mod Budget
use nebula_sd.Common.{
  ℕ, ◌+◌, ◌*◌, Bool, List, [], ◌∷◌, Option, none, some, Result, ok, ◌>>=◌, ◌>>◌, raise_if,
  admission_capacity_error, ltb, if◌then◌else◌,
}
use nebula_sd.Workers.Completion.{cohort_completion_budget}
use nebula_sd.Core.DraftContracts.{snapshot_bytes}

pub record AdmissionCost : Type 0 where
  pub engine_tokens : ℕ
  pub config_bytes : ℕ
  pub proposals : ℕ
  pub host_blocks : ℕ
  pub snapshots : ℕ
  pub draft_host_blocks : ℕ
  pub completions : ℕ

-- What `check` reads of a generation configuration.
pub record RequestConfig : Type 0 where
  pub max_new_tokens : ℕ
  pub proposal_depth : ℕ
  pub stop_token_count : ℕ

-- The capacities in the order of the source's `limits`.
pub record Limits : Type 0 where
  pub engine_tokens : ℕ
  pub config_bytes : ℕ
  pub proposals : ℕ
  pub host_blocks : ℕ
  pub snapshots : ℕ
  pub draft_host_blocks : ℕ
  pub completions : Option ℕ

pub record SessionBudget : Type 0 where
  pub limits : Limits
  pub draft_banked : Bool
  pub used : AdmissionCost

unfoldable pub init : Limits → Bool → SessionBudget
init limits draft_banked = record {
  limits = limits;
  draft_banked = draft_banked;
  used = record {
    engine_tokens = 0;
    config_bytes = 0;
    proposals = 0;
    host_blocks = 0;
    snapshots = 0;
    draft_host_blocks = 0;
    completions = 0;
  };
}

-- The first half of `check`: the worst case of one request.
unfoldable pub cost_of : SessionBudget → ℕ → RequestConfig → ℕ → AdmissionCost
cost_of b prompt_count config host_blocks = record {
  engine_tokens = 4 * (prompt_count + config.max_new_tokens);
  config_bytes = 16 + 4 * config.stop_token_count;
  proposals = (config.max_new_tokens + 1) * (8 + 4 * config.proposal_depth);
  host_blocks = host_blocks;
  snapshots = if b.draft_banked then (config.max_new_tokens + 1) * snapshot_bytes else 0;
  draft_host_blocks = if b.draft_banked then host_blocks else 0;
  completions = cohort_completion_budget (config.max_new_tokens ∷ []);
}

-- One turn of the loop over `limits`.
unfoldable pub within : ℕ → ℕ → ℕ → Result (Unit {0})
within used cost capacity = raise_if (ltb capacity (used + cost)) admission_capacity_error

unfoldable pub within_optional : ℕ → ℕ → Option ℕ → Result (Unit {0})
unfolding within
within_optional used cost none = ok tt
within_optional used cost (some capacity) = within used cost capacity

unfoldable pub check : SessionBudget → ℕ → RequestConfig → ℕ → Result AdmissionCost
unfolding within within_optional
check b prompt_count config host_blocks = do
  let cost : AdmissionCost = cost_of b prompt_count config host_blocks
  within b.used.engine_tokens cost.engine_tokens b.limits.engine_tokens
  within b.used.config_bytes cost.config_bytes b.limits.config_bytes
  within b.used.proposals cost.proposals b.limits.proposals
  within b.used.host_blocks cost.host_blocks b.limits.host_blocks
  within b.used.snapshots cost.snapshots b.limits.snapshots
  within b.used.draft_host_blocks cost.draft_host_blocks b.limits.draft_host_blocks
  within_optional b.used.completions cost.completions b.limits.completions
  ok cost

unfoldable pub commit : SessionBudget → AdmissionCost → SessionBudget
commit b cost = record b {
  used = record {
    engine_tokens = b.used.engine_tokens + cost.engine_tokens;
    config_bytes = b.used.config_bytes + cost.config_bytes;
    proposals = b.used.proposals + cost.proposals;
    host_blocks = b.used.host_blocks + cost.host_blocks;
    snapshots = b.used.snapshots + cost.snapshots;
    draft_host_blocks = b.used.draft_host_blocks + cost.draft_host_blocks;
    completions = b.used.completions + cost.completions;
  };
}
