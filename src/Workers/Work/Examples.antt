-- ===== src/Workers/Work/Examples.antt =====
-- One piece of work of a Target worker, and its bytes.
use nebula_sd.Common.{◌≡◌, refl, [], ◌∷◌, none, some, ok, arith}
use nebula_sd.Core.Ids.{validate}
use nebula_sd.Core.Handles.{ArenaHandle}
use nebula_sd.Ipc.Protocol.Wire.Reader.{Bytes}
use nebula_sd.Workers.Work.{
  Work, TableDependency, Selector, WorkKind, checked_work, distinct_slots, check_rows, check_row,
  is_draft, same_request, absent_or, is_prefill, is_none, is_continuation,
}
use nebula_sd.Workers.Work.Bytes.{to_bytes, from_bytes}
use nebula_sd.Workers.Work.RoundTrip.{from_bytes-to_bytes}

abbrev tokens : ArenaHandle
tokens = record { offset = 64; length = 8; generation = 1 }

abbrev dependency : Selector → TableDependency
dependency selector = record {
  kind = 2;
  slot = 5;
  request_epoch = 1;
  expected_ticket = 7;
  selector = selector;
}

abbrev verify : Work
verify = record {
  worker_id = 1;
  worker_generation = 1;
  work_seq = 3;
  operation = WorkKind.target_verify;
  bank_id = 1;
  bank_epoch = 2;
  completion_offset = 128;
  result_bytes = 64;
  rows =
      record {
        slot = 5;
        epoch = 1;
        round_id = 2;
        run_seq = 3;
        destination_offset = 0;
        capacity_blocks = 2;
        host_offset = 4;
        host_capacity = 4;
        host_arena = 1;
        host_generation = 1;
        host_slot = 5;
        writer_generation = 1;
        prompt = tokens;
        config = tokens;
        output = tokens;
        token_budget = 8;
        max_new_tokens = 32;
        prompt_count = 2;
        source = some (dependency Selector.target_host);
        predecessor = none;
        classified = some (dependency Selector.classified);
        owner_epoch = none;
        layout_id = none;
      }
      ∷ [];
}

from_bytes-to_bytes_example :
    (raw : Bytes) × (to_bytes verify ≡ ok raw) × (from_bytes raw ≡ ok verify)
unfolding checked_work validate distinct_slots check_rows check_row is_draft same_request absent_or
    is_prefill is_none is_continuation
from_bytes-to_bytes_example = from_bytes-to_bytes verify refl (
  omega arith,
  omega arith,
  omega arith,
  omega arith,
  omega arith,
  omega arith,
  (
    (
      (
        omega arith,
        omega arith,
        omega arith,
        omega arith,
        omega arith,
        omega arith,
        omega arith,
        omega arith,
        omega arith,
        omega arith,
        omega arith,
        omega arith,
      ),
      (refl, refl, refl),
      (refl, refl, refl),
      (refl, refl, refl),
      (omega arith, omega arith, omega arith),
      (omega arith, omega arith, omega arith, omega arith),
      tt,
      (omega arith, omega arith, omega arith, omega arith),
      tt,
      tt,
    ),
    tt,
  ),
)
