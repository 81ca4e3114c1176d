-- ===== src/Ipc/CommandRing.antt =====
-- nebulasd/src/nebulasd/ipc/command_ring.py: the ring of command headers, with one producer and one
-- consumer. The header is that of ipc/protocol.py.
pub mod Payload
pub mod Delivery
pub mod Taking
pub mod Order
use nebula_sd.Common.{
  ℕ, Bool, true, false, not, List, Option, none, some, Result, ok, err, ◌>>=◌, ◌>>◌, raise_if,
  value_error, runtime_error, backpressure, stale_generation, ◌==◌, ltb, if◌then◌else◌,
}
use nebula_sd.Core.Ids.{u32, u64, validate, is_newer}
use nebula_sd.Core.Handles.{ArenaHandle, arena_handle}
use nebula_sd.Ipc.Ring
use nebula_sd.Ipc.Ring.{Ring, is_full, store, first, advance}
use nebula_sd.Ipc.CommandArena
use nebula_sd.Ipc.CommandArena.{CommandArena}

-- The kind is the number of a `CommandKind`.
pub record CommandHeader : Type 0 where
  pub command_seq : ℕ
  pub worker_generation : ℕ
  pub command_kind : ℕ
  pub payload_offset : ℕ
  pub payload_length : ℕ
  pub flags : ℕ

pub record CommandEnvelope : Type 0 where
  pub header : CommandHeader
  pub payload : List ℕ

pub record CommandRing : Type 0 where
  pub ring : Ring CommandHeader
  pub last_produced : Option ℕ
  pub last_consumed : Option ℕ
  pub producer_closed : Bool

unfoldable pub init : ℕ → Result CommandRing
init capacity = do
  raise_if (capacity == 0) value_error
  ok (record {
    ring = Ring.empty capacity;
    last_produced = none;
    last_consumed = none;
    producer_closed = false;
  })

unfoldable pub can_push : CommandRing → Bool
can_push r = ltb r.ring.size (Ring.capacity r.ring)

-- `last is not None and not COMMAND_SEQ.is_newer(seq, last)` raises.
unfoldable pub increases : Option ℕ → ℕ → Result (Unit {0})
increases none seq = ok tt
increases (some last) seq = do newer ← is_newer u64 seq last; raise_if (not newer) value_error

unfoldable pub publish : CommandRing → CommandHeader → Result CommandRing
publish r header = do
  raise_if r.producer_closed runtime_error
  raise_if (is_full r.ring) backpressure
  increases r.last_produced header.command_seq
  ok (record r { ring = store r.ring header; last_produced = some header.command_seq })

-- The tests of `consume` on the header at the head.
unfoldable pub consume_check : CommandRing → ℕ → CommandHeader → Result (Unit {0})
consume_check r expected_worker_generation header = do
  raise_if (not (header.worker_generation == expected_worker_generation)) stale_generation
  increases r.last_consumed header.command_seq

-- `arena.read(header_payload_handle(header, arena_generation=arena.generation))`
unfoldable pub read_payload : CommandArena → CommandHeader → Result (List ℕ)
read_payload arena header = do
  handle ← arena_handle header.payload_offset header.payload_length arena.generation
  CommandArena.read arena handle

-- What follows the removal of the header: the payload is read, and its space given back.
unfoldable pub take_payload : CommandArena → CommandHeader → Result CommandEnvelope × CommandArena
take_payload arena header = elim (read_payload arena header) [
  | err x ↦ (err x, arena)
  | ok bytes ↦ elim (CommandArena.release_through arena header.command_seq) [
    | err x ↦ (err x, arena)
    | ok arena' ↦ (ok (record { header = header; payload = bytes }), arena')
  ]
]

removed : CommandRing → CommandHeader → CommandRing
removed r header = record r { ring = advance r.ring; last_consumed = some header.command_seq }

lift_payload :
    CommandRing
    → Result CommandEnvelope × CommandArena
    → Result (Option CommandEnvelope) × CommandRing × CommandArena
lift_payload r (err x, arena) = (err x, r, arena)
lift_payload r (ok envelope, arena) = (ok (some envelope), r, arena)

pub consume_head :
    CommandRing
    → ℕ
    → CommandArena
    → Option CommandHeader
    → Result (Option CommandEnvelope) × CommandRing × CommandArena
consume_head r generation arena none = (err runtime_error, r, arena)
consume_head r generation arena (some header) = elim (consume_check r generation header) [
  | err x ↦ (err x, r, arena)
  | ok _ ↦ lift_payload (removed r header) (take_payload arena header)
]

-- The header leaves the ring before its payload is read, and stays out if that raises.
unfoldable pub consume :
    CommandRing → ℕ → CommandArena → Result (Option CommandEnvelope) × CommandRing × CommandArena
unfolding consume_head lift_payload removed
consume r expected_worker_generation arena = elim (validate u64 expected_worker_generation) [
  | err x ↦ (err x, r, arena)
  | ok _ ↦
      if r.ring.size == 0
      then (ok none, r, arena)
      else consume_head r expected_worker_generation arena (first r.ring)
]

unfoldable pub close_producer : CommandRing → CommandRing
close_producer r = record r { producer_closed = true }
