-- ===== src/Ipc/CommandArena/Calls.antt =====
-- The layout of the command arena after any calls.
use nebula_sd.Common.{
  ℕ, ◌-◌, ◌^◌, ◌<◌, ◌≡◌, refl, sym, ap, ◌∙◌, ◌⊎◌, inl, inr, List, [], ◌∷◌, Result, ok, err, arith,
  subst, length, length-replicate, replicate, Result-cases,
}
use nebula_sd.Ipc.CommandArena.Layout.{Placed}
use nebula_sd.Ipc.CommandArena.Release.{release_loop-Placed, Placed-without_last}
use nebula_sd.Ipc.CommandArena.Payloads.{IsSound, read-allocate}
use nebula_sd.Ipc.CommandArena.{
  Allocation, CommandArena, init, capacity_bytes, allocate, release_loop, settle, release_through,
  without_last, head_after, discard_last,
}

settle-IsSound :
    (a : CommandArena) (left : List Allocation) (head tail : ℕ)
    → IsSound a
    → (left ≡ []) ⊎ Placed (capacity_bytes a) head tail left
    → IsSound (settle a left head tail)
unfolding settle
settle-IsSound a [] head tail s p = record {
  layout = inl refl;
  sized = s.sized;
  addressable = s.addressable;
}
settle-IsSound a (x ∷ xs) head tail s p = record {
  layout = p;
  sized = s.sized;
  addressable = s.addressable;
}

pub release_through-IsSound :
    (a : CommandArena) (seq : ℕ) (a' : CommandArena)
    → IsSound a
    → release_through a seq ≡ ok a'
    → IsSound a'
unfolding release_through
release_through-IsSound a seq a' s done =
    elim (Result-cases (release_loop (capacity_bytes a) seq a.allocations a.tail)) [
      | inr (_, failed) ↦ absurd (ground (arith, failed))
      | inl ((left, tail), made) ↦
          let e : a' ≡ settle a left a.head tail = ground (arith, made) in
          subst IsSound (sym e) (
            settle-IsSound a left a.head tail s (
              release_loop-Placed (capacity_bytes a) a.head seq a.allocations a.tail left tail
                s.layout made))
    ]

discard_last-IsSound :
    (a : CommandArena) (seq : ℕ) (a' : CommandArena)
    → IsSound a
    → discard_last a seq ≡ ok a'
    → IsSound a'
unfolding discard_last
discard_last-IsSound a seq a' s done =
    let e : a'
        ≡ settle a (without_last a.allocations)
            (head_after (capacity_bytes a) (without_last a.allocations)) a.tail =
      ground arith in
    subst IsSound (sym e)
      (settle-IsSound a (without_last a.allocations) _ a.tail s (left a.allocations s.layout))
  where
    left :
        (xs : List Allocation)
        → (xs ≡ []) ⊎ Placed (capacity_bytes a) a.head a.tail xs
        → (without_last xs ≡ [])
          ⊎ Placed
              (capacity_bytes a)
              (head_after (capacity_bytes a) (without_last xs))
              a.tail
              (without_last xs)
    left [] p = inl (unfold without_last in refl)
    left (x ∷ xs) (inl none_left) = absurd (cc)
    left (x ∷ xs) (inr p) = Placed-without_last (capacity_bytes a) a.head a.tail (x ∷ xs) p

init-IsSound : (c g : ℕ) (a : CommandArena) → init c g ≡ ok a → IsSound a
unfolding init
init-IsSound c g a h =
    let r : (0 < c) × (c < 2 ^ 32 - 1) × (a.bytes ≡ replicate c 0) × (a.allocations ≡ []) =
      ground arith in
    let size : capacity_bytes a ≡ c = ap length r.2 ∙ length-replicate c 0 in
    record { layout = inl r.3; sized = rw size r.0; addressable = rw size r.1 }

pub data Call : Type 0 where
  allocates : ℕ → List ℕ → Call
  releases discards : ℕ → Call

-- A call that raises leaves the arena as it was.
abbrev after {ℓ} : {A : Type ℓ} → (A → CommandArena) → CommandArena → Result A → CommandArena
after state a (ok r) = state r
after state a (err x) = a

pub step : CommandArena → Call → CommandArena
step a (allocates seq payload) = after (λ r. r.1) a (allocate a seq payload)
step a (releases seq) = after (λ r. r) a (release_through a seq)
step a (discards seq) = after (λ r. r) a (discard_last a seq)

unfoldable pub run : CommandArena → List Call → CommandArena
unfolding step
run a [] = a
run a (c ∷ cs) = run (step a c) cs

step-IsSound : (a : CommandArena) (c : Call) → IsSound a → IsSound (step a c)
unfolding step
step-IsSound a (allocates seq payload) s = elim (Result-cases (allocate a seq payload)) [
  | inl ((h, a'), done) ↦ rw done (read-allocate a seq payload h a' s done).3
  | inr (_, failed) ↦ rw failed s
]
step-IsSound a (releases seq) s = elim (Result-cases (release_through a seq)) [
  | inl (a', done) ↦ rw done (release_through-IsSound a seq a' s done)
  | inr (_, failed) ↦ rw failed s
]
step-IsSound a (discards seq) s = elim (Result-cases (discard_last a seq)) [
  | inl (a', done) ↦ rw done (discard_last-IsSound a seq a' s done)
  | inr (_, failed) ↦ rw failed s
]

run-IsSound : (a : CommandArena) (cs : List Call) → IsSound a → IsSound (run a cs)
unfolding run
run-IsSound a [] s = s
run-IsSound a (c ∷ cs) s = run-IsSound (step a c) cs (step-IsSound a c s)

-- After any calls on a new arena, those that raise included, no payload is live or the live payloads
-- lie without overlap between the tail and the head, around the end of the buffer or not.
pub IsSound-run :
    (c g : ℕ) (a : CommandArena) (cs : List Call) → init c g ≡ ok a → IsSound (run a cs)
IsSound-run c g a cs h = run-IsSound a cs (init-IsSound c g a h)
