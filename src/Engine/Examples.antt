-- ===== src/Engine/Examples.antt =====
-- A concrete session with two requests.
use nebula_sd.Common.{◌+◌, ◌≡◌, refl, false, [], ◌∷◌, none, arith}
use nebula_sd.Engine.Admission.{Limits, SessionBudget, init, cost_of, check, commit}
use nebula_sd.Engine.Admission.Budget.{Request, admit_all, IsWithin, admit_all-IsWithin}
use nebula_sd.Workers.Completion.{cohort_completion_budget, completion_bytes}

abbrev limits : Limits
limits = record {
  engine_tokens = 200;
  config_bytes = 64;
  proposals = 400;
  host_blocks = 10;
  snapshots = 0;
  draft_host_blocks = 0;
  completions = none;
}

abbrev short_request : Request
short_request = record {
  prompt_count = 6;
  config = record { max_new_tokens = 4; proposal_depth = 2; stop_token_count = 1 };
  host_blocks = 3;
}

abbrev spent : SessionBudget
spent = record {
  limits = limits;
  draft_banked = false;
  used = record {
    engine_tokens = 80;
    config_bytes = 40;
    proposals = 160;
    host_blocks = 6;
    snapshots = 0;
    draft_host_blocks = 0;
    completions = 1728;
  };
}

admit_all-IsWithin_example : IsWithin spent × (6 ≡ 0 + (3 + (3 + 0)))
unfolding init admit_all check commit cost_of cohort_completion_budget completion_bytes
admit_all-IsWithin_example =
    admit_all-IsWithin (short_request ∷ short_request ∷ []) (init limits false) spent
      (record {
        engine_tokens = omega arith;
        config_bytes = omega arith;
        proposals = omega arith;
        host_blocks = omega arith;
        snapshots = omega arith;
        draft_host_blocks = omega arith;
        completions = tt;
      })
      refl
