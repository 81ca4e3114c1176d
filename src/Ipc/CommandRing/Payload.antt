-- ===== src/Ipc/CommandRing/Payload.antt =====
-- The payload of a command as the consumer of nebulasd/src/nebulasd/ipc/command_ring.py reads it.
use nebula_sd.Common.{
  ℕ, ◌+◌, ◌-◌, ◌^◌, ◌<◌, ◌≡◌, Bool, true, false, Option, some, Result, ok, err, value_error, arith,
  leb, if◌then◌else◌,
}
use nebula_sd.Common.Bytes.{slice}
use nebula_sd.Core.Ids.{u32, u64, validate}
use nebula_sd.Core.Handles.{arena_handle, within, end_offset}
use nebula_sd.Ipc.CommandArena.{CommandArena, capacity_bytes, read}
use nebula_sd.Ipc.CommandArena.Freed.{Freed}
use nebula_sd.Ipc.CommandRing.{CommandHeader, CommandEnvelope, read_payload}

-- The end of the range that a header names.
abbrev pub payload_end : CommandHeader → ℕ
payload_end h = h.payload_offset + h.payload_length

-- The numbers of the header fit their fields.
abbrev pub IsHeader : CommandHeader → CommandArena → Type 0
IsHeader h arena =
    (validate u64 h.command_seq ≡ ok h.command_seq)
    × (validate u64 h.payload_offset ≡ ok h.payload_offset)
    × (validate u32 h.payload_length ≡ ok h.payload_length)
    × (validate u32 arena.generation ≡ ok arena.generation)

pub read_payload_lem :
    (arena : CommandArena) (h : CommandHeader)
    → IsHeader h arena
    → capacity_bytes arena < 2 ^ 32 - 1
    → read_payload arena h ≡ (
        if leb (payload_end h) (capacity_bytes arena)
        then ok (slice h.payload_offset h.payload_length arena.bytes)
        else err value_error)
unfolding read_payload arena_handle read within end_offset
read_payload_lem arena h header small = ground (arith, header)

-- What becomes of the payloads that are live.
abbrev pub Leaves : Bool → ℕ → CommandArena → CommandArena → Type 0
Leaves true seq arena arena' =
    (arena'.bytes ≡ arena.bytes) × Freed seq arena.allocations arena'.allocations
Leaves false seq arena arena' = arena' ≡ arena

-- What a consumer gets of a header: its payload, if the arena has such a range.
abbrev pub delivered : CommandHeader → CommandArena → Bool → Result (Option CommandEnvelope)
delivered h arena true =
    ok (some (record { header = h; payload = slice h.payload_offset h.payload_length arena.bytes }))
delivered h arena false = err value_error
