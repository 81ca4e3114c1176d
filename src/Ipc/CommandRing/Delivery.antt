-- ===== src/Ipc/CommandRing/Delivery.antt =====
-- Publish and consume of nebulasd/src/nebulasd/ipc/command_ring.py on the queue that the ring stands
-- for.
use nebula_sd.Common.{
  ℕ, ◌<◌, ◌≡◌, refl, sym, ap, subst, ◌∙◌, Bool, true, false, List, [], ◌∷◌, ◌++◌, Option, none,
  some, Result, ok, err, value_error, arith, length, leb, ◌==◌, if◌then◌else◌, Result-cases, inl,
  inr,
}
use nebula_sd.Common.Bytes.{slice}
use nebula_sd.Core.Ids.{u64, validate, is_newer}
use nebula_sd.Ipc.Ring.{capacity, store}
use nebula_sd.Ipc.Ring.Queue.{Holds, store-Holds, first-Holds, advance-Holds}
use nebula_sd.Ipc.CommandArena.{CommandArena, capacity_bytes}
use nebula_sd.Ipc.CommandArena.Payloads.{IsSound}
use nebula_sd.Ipc.CommandArena.Calls.{release_through-IsSound}
use nebula_sd.Ipc.CommandArena.Freed.{AreValid, release_through-Freed}
use nebula_sd.Ipc.CommandRing.Payload.{payload_end, IsHeader, read_payload_lem, Leaves, delivered}
use nebula_sd.Ipc.CommandRing.{
  CommandHeader, CommandEnvelope, CommandRing, increases, publish, consume_check, read_payload,
  take_payload, removed, lift_payload, consume_head, consume,
}

-- A publish that succeeds found the producer open, room for one more header and a sequence number
-- newer than the last; the header is then the youngest of the queue.
pub publish-Holds :
    (r : CommandRing) (q : List CommandHeader) (h : CommandHeader) (r' : CommandRing)
    → Holds r.ring q
    → publish r h ≡ ok r'
    → (r.producer_closed ≡ false)
      × (length q < capacity r.ring)
      × (increases r.last_produced h.command_seq ≡ ok tt)
      × Holds r'.ring (q ++ h ∷ [])
      × (r'.last_produced ≡ some h.command_seq)
      × (r'.last_consumed ≡ r.last_consumed)
unfolding publish
publish-Holds r q h r' holds done = elim (Result-cases (increases r.last_produced h.command_seq)) [
  | inr (_, stale) ↦ absurd (ground (arith, stale))
  | inl (_, newer) ↦
      let f : (r.producer_closed ≡ false)
          × (r.ring.size < capacity r.ring)
          × (r' ≡ record r { ring = store r.ring h; last_produced = some h.command_seq }) =
        ground (arith, newer, holds.bounded) in
      (
        f.0,
        omega (arith, f.1, holds.counted),
        newer,
        subst (λ (s : CommandRing). Holds s.ring (q ++ h ∷ [])) (sym f.2)
            (store-Holds r.ring q h holds f.1),
        ap (λ (s : CommandRing). s.last_produced) f.2,
        ap (λ (s : CommandRing). s.last_consumed) f.2,
      )
]

-- A consumer's call on an empty queue.
pub consume-empty :
    (r : CommandRing) (generation : ℕ) (arena : CommandArena)
    → Holds r.ring []
    → validate u64 generation ≡ ok generation
    → consume r generation arena ≡ (ok none, r, arena)
unfolding consume
consume-empty r generation arena holds valid =
    let none_left : (r.ring.size == 0) ≡ true = ground (arith, holds.counted) in
    rw (valid, consume, none_left)

pub consume-cons :
    (r : CommandRing) (h : CommandHeader) (q : List CommandHeader) (generation : ℕ)
    (arena : CommandArena)
    → Holds r.ring (h ∷ q)
    → validate u64 generation ≡ ok generation
    → consume r generation arena ≡ consume_head r generation arena (some h)
unfolding consume
consume-cons r h q generation arena holds valid =
    let some_left : (r.ring.size == 0) ≡ false = ground (arith, holds.counted) in
    rw (valid, consume, some_left, first-Holds r.ring h q holds)

-- The command is the first one, or newer than the last.
abbrev pub Follows : Option ℕ → ℕ → Type 0
Follows none seq = Unit {0}
Follows (some last) seq = is_newer u64 seq last ≡ ok true

increases_lem : (last : Option ℕ) (seq : ℕ) → Follows last seq → increases last seq ≡ ok tt
unfolding increases
increases_lem none seq newer = refl
increases_lem (some last) seq newer = rw newer refl

consume_check_passed :
    (r : CommandRing) (generation : ℕ) (h : CommandHeader)
    → h.worker_generation ≡ generation
    → Follows r.last_consumed h.command_seq
    → consume_check r generation h ≡ ok tt
unfolding consume_check
consume_check_passed r generation h same newer =
    let passed = increases_lem r.last_consumed h.command_seq newer in ground (arith, same, passed)

-- A call that passes the tests, by whether the arena has the range.
abbrev Consumed :
    CommandRing
    → CommandHeader
    → List CommandHeader
    → CommandArena
    → Bool
    → Result (Option CommandEnvelope) × CommandRing × CommandArena
    → Type 0
Consumed r h q arena inside after =
    Holds after.1.ring q
    × (after.1.last_consumed ≡ some h.command_seq)
    × (after.0 ≡ delivered h arena inside)
    × Leaves inside h.command_seq arena after.2
    × IsSound after.2

module _ (r : CommandRing) (h : CommandHeader) (q : List CommandHeader) (arena : CommandArena)
    (holds : Holds r.ring (h ∷ q)) (sound : IsSound arena) (lives : AreValid arena.allocations)
    (valid : validate u64 h.command_seq ≡ ok h.command_seq) where
  lift_payload-inside :
      read_payload arena h ≡ ok (slice h.payload_offset h.payload_length arena.bytes)
      → Consumed r h q arena true (lift_payload (removed r h) (take_payload arena h))
  unfolding take_payload lift_payload removed
  lift_payload-inside got =
      let (arena', done, same_bytes, _, f) =
        release_through-Freed arena h.command_seq valid lives in
      let taken : take_payload arena h ≡ (
        ok (record { header = h; payload = slice h.payload_offset h.payload_length arena.bytes }),
        arena',
      ) =
        ground (arith, got, done) in
      subst (λ p. Consumed r h q arena true (lift_payload (removed r h) p)) (sym taken)
        (
          advance-Holds r.ring h q holds,
          refl,
          refl,
          (same_bytes, f),
          release_through-IsSound arena h.command_seq arena' sound done,
        )

  lift_payload-outside :
      read_payload arena h ≡ err value_error
      → Consumed r h q arena false (lift_payload (removed r h) (take_payload arena h))
  unfolding take_payload lift_payload removed
  lift_payload-outside failed =
      let taken : take_payload arena h ≡ (err value_error, arena) = ground (arith, failed) in
      subst (λ p. Consumed r h q arena false (lift_payload (removed r h) p)) (sym taken)
        (advance-Holds r.ring h q holds, refl, refl, refl, sound)

  lift_payload-Consumed :
      (inside : Bool)
      → read_payload arena h ≡ (
          if inside
          then ok (slice h.payload_offset h.payload_length arena.bytes)
          else err value_error)
      → Consumed r h q arena inside (lift_payload (removed r h) (take_payload arena h))
  lift_payload-Consumed true got = lift_payload-inside got
  lift_payload-Consumed false failed = lift_payload-outside failed

-- The oldest header of the queue, of the consumer's generation and newer than the last, leaves the
-- ring, and the call takes no other. If the arena has the range that the header names, the call
-- returns the header with exactly those bytes; of the live payloads the oldest, those of commands up
-- to this one, are given back and no other, and the bytes stay. If it does not, the call raises
-- ValueError and the arena is as it was. The arena stays sound.
pub consume-Holds :
    (r : CommandRing) (h : CommandHeader) (q : List CommandHeader) (arena : CommandArena)
    → Holds r.ring (h ∷ q)
    → validate u64 h.worker_generation ≡ ok h.worker_generation
    → Follows r.last_consumed h.command_seq
    → IsHeader h arena
    → IsSound arena
    → AreValid arena.allocations
    → let after = consume r h.worker_generation arena in
      let inside = leb (payload_end h) (capacity_bytes arena) in
      Holds after.1.ring q
      × (after.1.last_consumed ≡ some h.command_seq)
      × (after.0 ≡ delivered h arena inside)
      × Leaves inside h.command_seq arena after.2
      × IsSound after.2
unfolding consume_head
consume-Holds r h q arena holds generation newer header sound lives =
    let inside = leb (payload_end h) (capacity_bytes arena) in
    let passed = consume_check_passed r h.worker_generation h refl newer in
    let call : consume r h.worker_generation arena
        ≡ lift_payload (removed r h) (take_payload arena h) =
      consume-cons r h q h.worker_generation arena holds generation ∙ rw (passed, consume_head) in
    subst (Consumed r h q arena inside) (sym call) (
      lift_payload-Consumed r h q arena holds sound lives header.0 inside
        (read_payload_lem arena h header sound.addressable))
