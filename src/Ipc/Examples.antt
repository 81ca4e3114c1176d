-- ===== src/Ipc/Examples.antt =====
-- Concrete runs of the command arena, the command ring and the ring of change hints.
use nebula_sd.Common.{
  ℕ, ◌+◌, ◌≤◌, ◌<◌, ◌≡◌, refl, true, false, List, [], ◌∷◌, none, some, ok, arith, value_or,
}
use nebula_sd.Common.Bytes.{slice, splice}
use nebula_sd.Core.Ids.{validate, is_newer, is_newer_or_equal}
use nebula_sd.Core.Handles.{ArenaHandle, null, arena_handle}
use nebula_sd.Ipc.Protocol.Keys.{
  RequestKey, validate_request_lists, unique_keys, has_key, has_slot, share_key, share_slot,
}
use nebula_sd.Ipc.Protocol.Keys.Once.{rows_with, validate_request_lists-rows_with}
use nebula_sd.Ipc.Ring.{empty, store}
use nebula_sd.Ipc.Ring.Queue.{Holds, empty-Holds, store-Holds}
use nebula_sd.Ipc.StateChangeRing.{StateChangeEntry, StateChangeRing, push, drain}
use nebula_sd.Ipc.StateChangeRing.Fifo.{push-Holds, drain-Holds}
use nebula_sd.Ipc.CommandArena.{
  CommandArena, init, allocate, read, in_sequence, last_allocation, reserve, release_through,
  release_loop, end, settle,
}
use nebula_sd.Ipc.CommandArena.Layout.{Clear}
use nebula_sd.Ipc.CommandArena.Payloads.{IsSound, SameBytes, read-allocate}
use nebula_sd.Ipc.CommandArena.Calls.{Call, allocates, releases, run, IsSound-run}
use nebula_sd.Ipc.CommandRing
use nebula_sd.Ipc.CommandRing.{CommandHeader, CommandRing, increases, publish, consume}
use nebula_sd.Ipc.CommandRing.Payload.{Leaves}
use nebula_sd.Ipc.CommandRing.Delivery.{publish-Holds, consume-Holds}
use nebula_sd.Ipc.CommandRing.Order
use nebula_sd.Ipc.CommandRing.Order.{publishes, consumes, closes, no_log, IsFifo, init-run-IsFifo}

abbrev new_arena : CommandArena
new_arena =
    value_or (record { bytes = []; generation = 0; head = 0; tail = 0; allocations = [] })
      (init 8 1)

-- Six bytes are taken and the first four given back: the next payload goes around the end.
abbrev calls : List Call
calls = allocates 1 (1 ∷ 1 ∷ 1 ∷ 1 ∷ []) ∷ allocates 2 (2 ∷ 2 ∷ []) ∷ releases 1 ∷ []

abbrev used_arena : CommandArena
used_arena = run new_arena calls

IsSound-run_example : IsSound used_arena
unfolding init
IsSound-run_example = IsSound-run 8 1 new_arena calls refl

abbrev wrapped : ArenaHandle × CommandArena
wrapped = value_or (null, used_arena) (allocate used_arena 3 (7 ∷ 8 ∷ 9 ∷ []))

read-allocate_example :
    (read wrapped.1 wrapped.0 ≡ ok (7 ∷ 8 ∷ 9 ∷ []))
    × Clear wrapped.0.offset wrapped.0.length used_arena.allocations
    × SameBytes used_arena.bytes wrapped.1.bytes used_arena.allocations
    × IsSound wrapped.1
unfolding run init allocate in_sequence last_allocation is_newer reserve arena_handle
    release_through release_loop is_newer_or_equal end settle splice
read-allocate_example =
    read-allocate used_arena 3 (7 ∷ 8 ∷ 9 ∷ []) wrapped.0 wrapped.1 IsSound-run_example refl

abbrev hint : ℕ → StateChangeEntry
hint row = record { block_kind = 1; row = row; publish_seq = 1 }

two_cells : Holds (store (store (empty 2) (hint 4)) (hint 5)) (hint 4 ∷ hint 5 ∷ [])
unfolding store empty
two_cells =
    store-Holds (store (empty 2) (hint 4)) (hint 4 ∷ []) (hint 5)
      (store-Holds (empty 2) [] (hint 4) (empty-Holds 2 (omega arith)) (omega arith)) (omega arith)

abbrev hints : StateChangeRing
hints = record { ring = store (store (empty 2) (hint 4)) (hint 5); overflowed = false }

push-Holds_example :
    ((push hints (hint 6)).0.accepted ≡ false)
    × Holds (push hints (hint 6)).1.ring (hint 4 ∷ hint 5 ∷ [])
    × ((push hints (hint 6)).1.overflowed ≡ true)
    × ((push hints (hint 6)).0.overflowed ≡ (push hints (hint 6)).1.overflowed)
unfolding store empty
push-Holds_example = push-Holds hints (hint 4 ∷ hint 5 ∷ []) (hint 6) two_cells

drain-Holds_example :
    (r' : StateChangeRing) × (drain hints (some 1)
      ≡ (ok (record { entries = hint 4 ∷ []; overflowed = false }), r'))
    × Holds r'.ring (hint 5 ∷ [])
    × (r'.overflowed ≡ false)
unfolding store empty
drain-Holds_example = drain-Holds hints (hint 4 ∷ hint 5 ∷ []) (some 1) two_cells

abbrev command : ℕ → CommandHeader
command seq = record {
  command_seq = seq;
  worker_generation = 3;
  command_kind = 1;
  payload_offset = 4;
  payload_length = 2;
  flags = 0;
}

one_cell : Holds (store (empty 2) (command 2)) (command 2 ∷ [])
unfolding empty
one_cell = store-Holds (empty 2) [] (command 2) (empty-Holds 2 (omega arith)) (omega arith)

abbrev commands : CommandRing
commands = record {
  ring = store (empty 2) (command 2);
  last_produced = some 2;
  last_consumed = some 1;
  producer_closed = false;
}

abbrev more_commands : CommandRing
more_commands = record commands { ring = store commands.ring (command 3); last_produced = some 3 }

publish-Holds_example :
    (commands.producer_closed ≡ false)
    × (1 < 2)
    × (increases commands.last_produced 3 ≡ ok tt)
    × Holds more_commands.ring (command 2 ∷ command 3 ∷ [])
    × (more_commands.last_produced ≡ some 3)
    × (more_commands.last_consumed ≡ commands.last_consumed)
unfolding publish increases is_newer store empty
publish-Holds_example =
    publish-Holds commands (command 2 ∷ []) (command 3) more_commands one_cell refl

used_arena-IsSound : IsSound used_arena
unfolding init
used_arena-IsSound = IsSound-run 8 1 new_arena calls refl

consume-Holds_example :
    let after = consume commands 3 used_arena in
    Holds after.1.ring []
    × (after.1.last_consumed ≡ some 2)
    × (after.0 ≡ ok (some (record { header = command 2; payload = 2 ∷ 2 ∷ [] })))
    × Leaves true 2 used_arena after.2
    × IsSound after.2
unfolding run init allocate in_sequence last_allocation is_newer reserve arena_handle
    release_through release_loop is_newer_or_equal end settle splice slice validate
consume-Holds_example =
    consume-Holds commands (command 2) [] used_arena one_cell refl refl (refl, refl, refl, refl)
      used_arena-IsSound (refl, tt)

abbrev fresh_ring : CommandRing
fresh_ring = record {
  ring = empty 2;
  last_produced = none;
  last_consumed = none;
  producer_closed = false;
}

-- The first consume names the generation of a worker that is gone.
abbrev ring_calls : List Order.Call
ring_calls =
    publishes (command 2)
    ∷ publishes (command 3)
    ∷ consumes 4 used_arena
    ∷ consumes 3 used_arena
    ∷ closes
    ∷ []

init-run-IsFifo_example :
    IsFifo
      (Order.run (fresh_ring, no_log) ring_calls).0
      (Order.run (fresh_ring, no_log) ring_calls).1
unfolding CommandRing.init empty
init-run-IsFifo_example = init-run-IsFifo 2 fresh_ring ring_calls refl

abbrev request : ℕ → RequestKey
request slot = record { slot = slot; epoch = 1 }

validate_request_lists-rows_with_example :
    rows_with 4 (request 4 ∷ request 5 ∷ [])
      + rows_with 4 (request 6 ∷ [])
      + rows_with 4 (request 7 ∷ [])
    ≤ 1
unfolding validate_request_lists unique_keys has_key has_slot share_key share_slot
validate_request_lists-rows_with_example =
    validate_request_lists-rows_with (request 4 ∷ request 5 ∷ []) (request 6 ∷ []) (request 7 ∷ [])
      4 refl
