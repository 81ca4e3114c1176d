-- ===== src/Ipc/Protocol/Wire/RoundTrip.antt =====
-- A command of nebulasd/src/nebulasd/ipc/protocol.py is decoded as it was encoded, and bytes behind
-- it are refused.
use mathlib.Core.List.{append-nil}
use nebula_sd.Common.{ℕ, ◌≡◌, refl, ap, ◌∙◌, sym, ok, err, arith, [], ◌∷◌, ◌++◌, value_error}
use nebula_sd.Core.Ids.{u32, validate}
use nebula_sd.Ipc.Protocol.Commands.{
  HotCommand, prepare_draft, run_draft, draft_batch, prefill_batch, prepare_batch, run_batch,
}
use nebula_sd.Ipc.Protocol.Cache.{worker_of, generation_of, seq_of}
use nebula_sd.Ipc.Protocol.Wire.Reader.{Bytes, Reader, ◌>>=◌, lift, join, finish, bound}
use nebula_sd.Ipc.Protocol.Wire.Trips.{
  Trips, before-Trips, last-Trips, skip-Trips, end-Trips, u32-Trips,
}
use nebula_sd.Ipc.Protocol.Wire.Draft.{taken}
use nebula_sd.Ipc.Protocol.Wire.Payload.{
  number_of, kind_of, payload_magic, protocol_version, put_body, encode_command_payload,
}
use nebula_sd.Ipc.Protocol.Wire.Decode.{
  Header, get_body, check_magic, check_version, check_kind, get_command, get_payload,
  decode_command_payload,
}
use nebula_sd.Ipc.Protocol.Wire.BodyTrips.{
  IsBuiltPrefillBatch, IsBuiltPrepareBatch, IsBuiltRunBatch, prefill_batch-Trips,
  prepare_batch-Trips, run_batch-Trips,
}
use nebula_sd.Ipc.Protocol.Wire.DraftBodies.{
  IsBuiltPrepareDraft, IsBuiltRunDraft, IsBuiltDraftBatch, prepare_draft-Trips, run_draft-Trips,
  draft_batch-Trips,
}

-- A command that its constructor and those of its rows built, with fewer rows than the largest
-- count.
abbrev pub IsBuilt : HotCommand → Type 0
IsBuilt (prepare_draft c) = IsBuiltPrepareDraft c
IsBuilt (run_draft c) = IsBuiltRunDraft c
IsBuilt (draft_batch c) = IsBuiltDraftBatch c
IsBuilt (prefill_batch c) = IsBuiltPrefillBatch c
IsBuilt (prepare_batch c) = IsBuiltPrepareBatch c
IsBuilt (run_batch c) = IsBuiltRunBatch c

abbrev pub header_of : HotCommand → Header
header_of command = record {
  worker_id = worker_of command;
  worker_generation = generation_of command;
  command_seq = seq_of command;
}

body-Trips :
    (command : HotCommand)
    → IsBuilt command
    → Trips (put_body command) (get_body (kind_of command) (header_of command)) command
unfolding put_body get_body
body-Trips (prepare_draft c) built =
    last-Trips (λ r. ok (prepare_draft r)) (prepare_draft c) (prepare_draft-Trips c built) refl
body-Trips (run_draft c) built =
    last-Trips (λ r. ok (run_draft r)) (run_draft c) (run_draft-Trips c built) refl
body-Trips (draft_batch c) built =
    last-Trips (λ r. ok (draft_batch r)) (draft_batch c) (draft_batch-Trips c built) refl
body-Trips (prefill_batch c) built =
    last-Trips (λ r. ok (prefill_batch r)) (prefill_batch c) (prefill_batch-Trips c built) refl
body-Trips (prepare_batch c) built =
    last-Trips (λ r. ok (prepare_batch r)) (prepare_batch c) (prepare_batch-Trips c built) refl
body-Trips (run_batch c) built =
    last-Trips (λ r. ok (run_batch r)) (run_batch c) (run_batch-Trips c built) refl

number_of-u32 :
    (command : HotCommand)
    → (validate u32 (number_of (kind_of command)) ≡ ok (number_of (kind_of command)))
      × (check_kind (kind_of command) (number_of (kind_of command)) ≡ ok tt)
unfolding validate check_kind
number_of-u32 (prepare_draft c) = (refl, refl)
number_of-u32 (run_draft c) = (refl, refl)
number_of-u32 (draft_batch c) = (refl, refl)
number_of-u32 (prefill_batch c) = (refl, refl)
number_of-u32 (prepare_batch c) = (refl, refl)
number_of-u32 (run_batch c) = (refl, refl)

magic_lem : check_magic payload_magic ≡ ok tt
unfolding check_magic
magic_lem = refl

version_lem : check_version protocol_version ≡ ok tt
unfolding check_version
version_lem = refl

command-Trips :
    (command : HotCommand)
    → IsBuilt command
    → Trips
        (encode_command_payload command)
        (get_command (kind_of command) (header_of command))
        command
unfolding encode_command_payload get_command join
command-Trips command built =
    let kind = number_of-u32 command in
    before-Trips _ (u32-Trips payload_magic (ground (arith, validate))) (
      skip-Trips (check_magic payload_magic) _ magic_lem (
        before-Trips _ (u32-Trips protocol_version (ground (arith, validate))) (
          skip-Trips (check_version protocol_version) _ version_lem (
            before-Trips _ (u32-Trips (number_of (kind_of command)) kind.0) (
              skip-Trips (check_kind (kind_of command) (number_of (kind_of command))) _ kind.1
                (end-Trips (body-Trips command built)))))))

-- What is done behind the command.
abbrev finished : HotCommand → Reader HotCommand
finished command = finish >>= λ _. lift (ok command)

trailing_lem :
    (command : HotCommand) (byte : ℕ) (more : Bytes)
    → finished command (byte ∷ more) ≡ err value_error
unfolding finish ◌>>=◌
trailing_lem command byte more = ground arith

-- A command whose constructor and those of its rows and handles pass, and whose lists are shorter
-- than the largest count, is encoded; under its kind and the identity of its header the bytes are
-- decoded to the same command, and with any more bytes behind them they are refused.
pub decode-encode :
    (command : HotCommand)
    → IsBuilt command
    → (raw : Bytes) × (encode_command_payload command ≡ ok raw)
      × (decode_command_payload (kind_of command) raw (header_of command) ≡ ok command)
      × ((byte : ℕ) (more : Bytes)
          → decode_command_payload (kind_of command) (raw ++ (byte ∷ more)) (header_of command)
            ≡ err value_error)
unfolding decode_command_payload get_payload
decode-encode command built =
    let trip = command-Trips command built in
    let reader = get_command (kind_of command) (header_of command) in
    let whole : reader trip.bytes ≡ ok (command, []) =
      ap reader (sym (append-nil trip.bytes)) ∙ trip.is_read [] in
    (
      trip.bytes,
      trip.is_written,
      ap (λ r. taken (bound r finished)) whole,
      λ byte more.
          ap (λ r. taken (bound r finished)) (trip.is_read (byte ∷ more))
          ∙ ap taken (trailing_lem command byte more),
    )
