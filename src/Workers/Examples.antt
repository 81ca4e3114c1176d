-- ===== src/Workers/Examples.antt =====
-- Concrete work, the banks it is given, and its completion.
use nebula_sd.Common.{
  ℕ, ◌+◌, ◌*◌, ◌%◌, ◌≤◌, ◌<◌, ◌≡◌, refl, [], ◌∷◌, none, some, ok, err, runtime_error, length,
  replicate, value_or,
}
use nebula_sd.Common.Bytes.{slice, splice}
use nebula_sd.Common.Words.{to_bytes, from_bytes}
use nebula_sd.Common.Sorting.{sorted}
use nebula_sd.Core.Handles.{null}
use nebula_sd.Workers.Work.{
  Work, RowWork, target_prefill, checked_work, check_rows, check_row, distinct_slots, is_draft,
  is_prefill, is_continuation, same_request, absent_or, is_none, executed,
}
use nebula_sd.Workers.Banks.{
  Banks, Layout, filling, init, allocate, get_bank, set_bank, is_owned, range_from, fresh_bank,
}
use nebula_sd.Workers.Banks.Rows.{
  owners, Consecutive, run, step, allocate_call, owners-run_banks, checked_work-allocate_layout,
}
use nebula_sd.Workers.Completion.{
  CompletionArena, WorkCompletion, reserve, publish, check_range, completion_bytes, flag,
  pack_header, pack_members, pack_member, pack, outcome_number,
}
use nebula_sd.Workers.Completion.Ranges.{reserve-check_range, publish_twice}

abbrev prefill_row : ℕ → ℕ → ℕ → RowWork
prefill_row slot offset blocks = record {
  slot = slot;
  epoch = 1;
  round_id = 0;
  run_seq = 1;
  destination_offset = offset;
  capacity_blocks = blocks;
  host_offset = 0;
  host_capacity = blocks;
  host_arena = 1;
  host_generation = 1;
  host_slot = slot;
  writer_generation = 1;
  prompt = null;
  config = null;
  output = null;
  token_budget = 8;
  max_new_tokens = 8;
  prompt_count = 4;
  source = none;
  predecessor = none;
  classified = none;
  owner_epoch = none;
  layout_id = none;
}

abbrev prefill : Work
prefill = record {
  worker_id = 0;
  worker_generation = 1;
  work_seq = 1;
  operation = target_prefill;
  bank_id = 1;
  bank_epoch = 1;
  completion_offset = 0;
  result_bytes = 64;
  rows = prefill_row 4 0 3 ∷ prefill_row 6 3 2 ∷ [];
}

abbrev fresh : Banks
fresh = record {
  blocks_per_bank = 8;
  capacity_rows = 3;
  free_rows = 0 ∷ 1 ∷ 2 ∷ [];
  first = fresh_bank;
  second = fresh_bank;
}

abbrev layout : Layout
layout = record {
  bank_id = 1;
  bank_epoch = 1;
  rows = 0 ∷ 1 ∷ [];
  offsets = 8 ∷ 11 ∷ [];
  capacities = 3 ∷ 2 ∷ [];
}

abbrev taken : Banks
taken = record fresh {
  free_rows = 2 ∷ [];
  second = record { epoch = 1; phase = filling; layout = some layout; observation_seq = 1 };
}

owners-run_banks_example : (1 < 3 → owners taken 1 ≡ 1) × (3 ≤ 1 → owners taken 1 ≡ 0)
unfolding init run step range_from allocate get_bank set_bank is_owned sorted
owners-run_banks_example = owners-run_banks 8 3 fresh taken (allocate_call prefill ∷ []) 1 refl refl

checked_work-allocate_layout_example :
    (length layout.rows ≡ length prefill.rows)
    × (last : ℕ) × Consecutive (1 * 8) (8 ∷ 11 ∷ []) (3 ∷ 2 ∷ []) last
    × (last ≤ (1 + 1) * 8)
unfolding checked_work check_rows check_row distinct_slots is_draft is_prefill is_continuation
    same_request absent_or is_none allocate get_bank set_bank is_owned sorted
checked_work-allocate_layout_example =
    checked_work-allocate_layout fresh prefill layout taken refl refl

abbrev completions : CompletionArena
completions = record { bytes = replicate 80 0; next_offset = 0 }

abbrev reserved : CompletionArena
reserved = record completions { next_offset = 72 }

reserve-check_range_example :
    (completions.next_offset ≡ completions.next_offset)
    × (reserved.next_offset ≡ 0 + completion_bytes 1)
    × (reserved.next_offset % 8 ≡ 0)
    × (reserved.next_offset ≤ length reserved.bytes)
    × (48 + 1 * 24 ≤ completion_bytes 1)
    × (check_range reserved 0 (completion_bytes 1) ≡ ok tt)
unfolding reserve completion_bytes
reserve-check_range_example = reserve-check_range completions reserved 1 0 refl refl

abbrev done : WorkCompletion
done = record {
  worker_generation = 1;
  work_seq = 1;
  bank_epoch = 1;
  physical_done_ns = 5;
  bank_id = 1;
  members = (record { slot = 4; epoch = 1; round_id = 0; outcome = executed }) ∷ [];
}

abbrev published : CompletionArena
published = value_or completions (publish completions 0 done)

publish_twice_example : publish published 0 done ≡ err runtime_error
unfolding publish check_range completion_bytes flag pack_header pack_members pack_member pack
    outcome_number slice splice to_bytes from_bytes
publish_twice_example = publish_twice completions published 0 done done refl refl
