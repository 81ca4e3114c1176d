-- ===== src/Ipc/CommandRing/Taking.antt =====
-- One consume of nebulasd/src/nebulasd/ipc/command_ring.py: it takes the oldest header or leaves the
-- ring as it was.
use nebula_sd.Common.{
  ℕ, ◌≡◌, refl, ap, ◌⊎◌, inl, inr, List, [], ◌∷◌, Option, none, some, Result, ok, err, arith,
  Result-cases,
}
use nebula_sd.Core.Ids.{u64, validate, is_newer}
use nebula_sd.Ipc.Ring.Queue.{Holds, advance-Holds}
use nebula_sd.Ipc.CommandArena.{CommandArena, release_through}
use nebula_sd.Ipc.CommandRing.{
  CommandHeader, CommandEnvelope, CommandRing, increases, consume_check, read_payload, take_payload,
  removed, lift_payload, consume_head, consume,
}
use nebula_sd.Ipc.CommandRing.Delivery.{Follows, consume-empty, consume-cons}

-- The header that a call returned.
abbrev pub header_in : Result (Option CommandEnvelope) → Option CommandHeader
header_in (ok none) = none
header_in (ok (some e)) = some e.header
header_in (err x) = none

-- The oldest header is taken.
pub record Takes (r : CommandRing) (q : List CommandHeader) (generation : ℕ)
    (after : Result (Option CommandEnvelope) × CommandRing × CommandArena) : Type 0 where
  pub head : CommandHeader
  pub rest : List CommandHeader
  pub oldest : q ≡ head ∷ rest
  pub meant : head.worker_generation ≡ generation
  pub newer : Follows r.last_consumed head.command_seq
  pub holds : Holds after.1.ring rest
  pub marked : after.1.last_consumed ≡ some head.command_seq
  pub seen : (header_in after.0 ≡ none) ⊎ (header_in after.0 ≡ some head)

abbrev pub Stays :
    CommandRing → Result (Option CommandEnvelope) × CommandRing × CommandArena → Type 0
Stays r after = (after.1 ≡ r) × (header_in after.0 ≡ none)

Follows-increases : (last : Option ℕ) (seq : ℕ) → increases last seq ≡ ok tt → Follows last seq
unfolding increases
Follows-increases none seq h = tt
Follows-increases (some last) seq h = elim (Result-cases (is_newer u64 seq last)) [
  | inl (newer, answer) ↦ ground (arith, answer)
  | inr (_, failed) ↦ absurd (ground (arith, failed))
]

consume_check-cases :
    (r : CommandRing) (generation : ℕ) (h : CommandHeader)
    → consume_check r generation h ≡ ok tt
    → (h.worker_generation ≡ generation) × (increases r.last_consumed h.command_seq ≡ ok tt)
unfolding consume_check
consume_check-cases r generation h passed = (ground arith, ground arith)

take_payload-header :
    (r : CommandRing) (arena : CommandArena) (h : CommandHeader)
    → (header_in (lift_payload r (take_payload arena h)).0 ≡ none)
      ⊎ (header_in (lift_payload r (take_payload arena h)).0 ≡ some h)
unfolding take_payload lift_payload
take_payload-header r arena h = elim (Result-cases (read_payload arena h)) [
  | inr (_, failed) ↦ inl (ground (arith, failed))
  | inl (bytes, got) ↦ elim (Result-cases (release_through arena h.command_seq)) [
    | inr (_, failed) ↦ inl (ground (arith, got, failed))
    | inl (arena', done) ↦ inr (ground (arith, got, done))
  ]
]

lift_payload-ring :
    (r : CommandRing) (p : Result CommandEnvelope × CommandArena) → (lift_payload r p).1 ≡ r
unfolding lift_payload
lift_payload-ring r (ok e, arena) = refl
lift_payload-ring r (err x, arena) = refl

consume_head_lem :
    (r : CommandRing) (h : CommandHeader) (q : List CommandHeader) (generation : ℕ)
    (arena : CommandArena)
    → Holds r.ring (h ∷ q)
    → Stays r (consume_head r generation arena (some h))
      ⊎ Takes r (h ∷ q) generation (consume_head r generation arena (some h))
unfolding consume_head removed
consume_head_lem r h q generation arena holds = elim (Result-cases (consume_check r generation h)) [
  | inr (_, failed) ↦ inl (rw (failed, consume_head) (refl, refl))
  | inl (tt, passed) ↦
      let (meant, newer) = consume_check-cases r generation h passed in
      let ring = lift_payload-ring (removed r h) (take_payload arena h) in
      inr (
        rw (passed, consume_head)
          (record {
            head = h;
            rest = q;
            oldest = refl;
            meant = meant;
            newer = Follows-increases r.last_consumed h.command_seq newer;
            holds = rw ring (advance-Holds r.ring h q holds);
            marked = ap (λ (s : CommandRing). s.last_consumed) ring;
            seen = take_payload-header (removed r h) arena h;
          }))
]

validate_same : (n value : ℕ) → validate u64 n ≡ ok value → validate u64 n ≡ ok n
unfolding validate
validate_same n value valid = ground arith

consume_valid :
    (r : CommandRing) (q : List CommandHeader) (generation : ℕ) (arena : CommandArena)
    → Holds r.ring q
    → validate u64 generation ≡ ok generation
    → Stays r (consume r generation arena) ⊎ Takes r q generation (consume r generation arena)
consume_valid r [] generation arena holds valid =
    inl (rw (consume-empty r generation arena holds valid) (refl, refl))
consume_valid r (h ∷ q) generation arena holds valid =
    rw (consume-cons r h q generation arena holds valid)
      (consume_head_lem r h q generation arena holds)

pub consume_lem :
    (r : CommandRing) (q : List CommandHeader) (generation : ℕ) (arena : CommandArena)
    → Holds r.ring q
    → Stays r (consume r generation arena) ⊎ Takes r q generation (consume r generation arena)
unfolding consume
consume_lem r q generation arena holds = elim (Result-cases (validate u64 generation)) [
  | inr (_, failed) ↦ inl (rw (failed, consume) (refl, refl))
  | inl (value, valid) ↦
      consume_valid r q generation arena holds (validate_same generation value valid)
]
