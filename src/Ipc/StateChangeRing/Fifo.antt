-- ===== src/Ipc/StateChangeRing/Fifo.antt =====
-- The ring of change hints is a bounded queue that reports what it dropped.
use nebula_sd.Common.{
  ℕ, zero, suc, ◌≤◌, ◌≡◌, refl, sym, ap, subst, min, ◌∙◌, true, false, List, [], ◌∷◌, ◌++◌, Option,
  none, some, ok, arith, length, ltb→lt, Bool-cases, inl, inr, take, drop, ltb, if◌then◌else◌,
}
use native.Mathlib.Decide.{dec_lt}
use mathlib.Core.List.{append_assoc, append-nil}
use nebula_sd.Ipc.Ring.{Ring, is_full, capacity, advance}
use nebula_sd.Ipc.Ring.Queue.{Holds, store-Holds, first-Holds, advance-Holds}
use nebula_sd.Ipc.StateChangeRing.{
  StateChangeEntry, StateChangeRing, push, drain_loop, drain_limit, drain_end, drain,
}

-- A push on a ring that holds the queue q: with room it is accepted, and the ring holds q with the
-- hint at its end, with the overflow flag as it was; with none it is refused, the queue stays, and
-- the flag is set.
pub push-Holds :
    (r : StateChangeRing) (q : List StateChangeEntry) (e : StateChangeEntry)
    → Holds r.ring q
    → ((push r e).0.accepted ≡ ltb (length q) (capacity r.ring))
      × Holds (push r e).1.ring (if ltb (length q) (capacity r.ring) then q ++ e ∷ [] else q)
      × ((push r e).1.overflowed
          ≡ (if ltb (length q) (capacity r.ring) then r.overflowed else true))
      × ((push r e).0.overflowed ≡ (push r e).1.overflowed)
unfolding push
push-Holds r q e h = elim (Bool-cases (is_full r.ring)) [
  | inl full ↦
      let none_left : ltb (length q) (capacity r.ring) ≡ false = ground (arith, h.counted) in
      rw (full, none_left) (refl, h, refl, refl)
  | inr open_cell ↦
      let room : ltb (length q) (capacity r.ring) ≡ true = ground (arith, h.counted, h.bounded) in
      rw (open_cell, room)
        (refl, store-Holds r.ring q e h (omega (arith, h.counted, ltb→lt _ _ room)), refl, refl)
]

drain_loop-Holds :
    (n : ℕ) (drained : List StateChangeEntry) (ring : Ring StateChangeEntry)
    (q : List StateChangeEntry)
    → n ≤ length q
    → Holds ring q
    → (ring' : Ring StateChangeEntry) × (drain_loop n drained ring
        ≡ (ok (drained ++ take n q), ring'))
      × Holds ring' (drop n q)
unfolding drain_loop
drain_loop-Holds zero drained ring q le h = (ring, rw append-nil, h)
drain_loop-Holds (suc n) drained ring [] le h = absurd (omega arith)
drain_loop-Holds (suc n) drained ring (x ∷ q) le h =
    let (ring', done, holds) =
      drain_loop-Holds n (drained ++ x ∷ []) (advance ring) q (omega arith)
        (advance-Holds ring x q h) in
    (ring', rw (first-Holds ring x q h, drain_loop) (done ∙ rw append_assoc), holds)

drain_limit-le :
    (r : StateChangeRing) (q : List StateChangeEntry) (limit : Option ℕ)
    → length q ≡ r.ring.size
    → drain_limit r limit ≤ length q
unfolding drain_limit
drain_limit-le r q none e = omega arith
drain_limit-le r q (some n) e = omega arith

-- The oldest of a queue, as many as are asked for or all of them, and what lies behind those.
abbrev pub oldest {ℓ} : {A : Type ℓ} → Option ℕ → List A → List A
oldest none q = q
oldest (some n) q = take n q

abbrev pub others {ℓ} : {A : Type ℓ} → Option ℕ → List A → List A
others none q = []
others (some n) q = drop n q

take_over : (n : ℕ) (q : List StateChangeEntry) → length q ≤ n → take n q ≡ q
take_over zero [] le = refl
take_over (suc n) [] le = refl
take_over zero (x ∷ q) le = absurd (omega arith)
take_over (suc n) (x ∷ q) le = ap (◌∷◌ x) (take_over n q (omega arith))

drop_over : (n : ℕ) (q : List StateChangeEntry) → length q ≤ n → drop n q ≡ []
drop_over zero [] le = refl
drop_over (suc n) [] le = refl
drop_over zero (x ∷ q) le = absurd (omega arith)
drop_over (suc n) (x ∷ q) le = drop_over n q (omega arith)

drain_limit-oldest :
    (r : StateChangeRing) (q : List StateChangeEntry) (limit : Option ℕ)
    → length q ≡ r.ring.size
    → (take (drain_limit r limit) q ≡ oldest limit q)
      × (drop (drain_limit r limit) q ≡ others limit q)
unfolding drain_limit
drain_limit-oldest r q none e =
    let all : length q ≤ r.ring.size = omega (arith, e) in
    (take_over r.ring.size q all, drop_over r.ring.size q all)
drain_limit-oldest r q (some n) e = elim (dec_lt n r.ring.size) [
  | yes fewer ↦
      let at : min r.ring.size n ≡ n = omega (arith, fewer) in
      (ap (λ k. take k q) at, ap (λ k. drop k q) at)
  | no more ↦
      let at : min r.ring.size n ≡ r.ring.size = omega (arith, more) in
      let all : length q ≤ r.ring.size = omega (arith, e) in
      let over : length q ≤ n = omega (arith, e, more) in
      (
        ap (λ k. take k q) at ∙ take_over r.ring.size q all ∙ sym (take_over n q over),
        ap (λ k. drop k q) at ∙ drop_over r.ring.size q all ∙ sym (drop_over n q over),
      )
]

-- A drain of a ring that holds the queue q does not raise. With no limit it returns the whole queue,
-- and the ring is left empty; with a limit of n it returns the n oldest hints, or all if there are
-- fewer, and the ring holds the others in their order. The overflow flag is returned, and is clear
-- after it.
pub drain-Holds :
    (r : StateChangeRing) (q : List StateChangeEntry) (limit : Option ℕ)
    → Holds r.ring q
    → (r' : StateChangeRing) × (drain r limit
        ≡ (ok (record { entries = oldest limit q; overflowed = r.overflowed }), r'))
      × Holds r'.ring (others limit q)
      × (r'.overflowed ≡ false)
unfolding drain
drain-Holds r q limit h =
    let (ring', done, holds) =
      drain_loop-Holds (drain_limit r limit) [] r.ring q (drain_limit-le r q limit h.counted) h in
    let (given, left) = drain_limit-oldest r q limit h.counted in
    (
      record { ring = ring'; overflowed = false },
      rw (done, drain_end, sym given),
      subst (Holds ring') left holds,
      refl,
    )
