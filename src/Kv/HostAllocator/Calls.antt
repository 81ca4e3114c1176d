-- ===== src/Kv/HostAllocator/Calls.antt =====
-- Any sequence of calls on the allocator, those that raise included.
use nebula_sd.Common.{
  ℕ, ◌≡◌, Bool, true, List, [], ◌∷◌, some, Result, ok, err, arith, Option-cases, Result-cases, inl,
  inr, ◌⊎◌, false, refl, subst, sym, ◌∙◌,
}
use nebula_sd.Common.Assoc.{lookup, insert}
use nebula_sd.Kv.Arena.{HostKvExtent, ArenaDescriptor}
use nebula_sd.Kv.HostAllocator.Changes.{allocate-Allocated, recycle-Recycled}
use nebula_sd.Kv.HostAllocator.Sound.{
  IsSound, init-IsSound, allocate-IsSound, recycle-IsSound, rewrite-IsSound,
}
use nebula_sd.Kv.HostAllocator.{
  Allocation, HostKvAllocator, init, allocate, require, pin_entry, pin, unpin_entry, unpin, recycle,
}

pub data Call : Type 0 where
  allocates : ℕ → ℕ → ℕ → Call
  pins unpins : HostKvExtent → Bool → Call
  recycles : ℕ → ℕ → Bool → Call

-- A call that raises leaves the allocator as it was.
abbrev after {ℓ} :
    {A : Type ℓ} → (A → HostKvAllocator) → HostKvAllocator → Result A → HostKvAllocator
after state a (ok r) = state r
after state a (err x) = a

unfoldable pub step : HostKvAllocator → Call → HostKvAllocator
step a (allocates slot epoch capacity) = after (λ r. r.1) a (allocate a slot epoch capacity)
step a (pins extent write) = after (λ r. r.1) a (pin a extent write)
step a (unpins extent write) = after (λ r. r) a (unpin a extent write)
step a (recycles slot epoch quiescent) = after (λ r. r) a (recycle a slot epoch quiescent)

unfoldable pub run : HostKvAllocator → List Call → HostKvAllocator
unfolding step
run a [] = a
run a (c ∷ cs) = run (step a c) cs

-- A pin or unpin that succeeds leaves the allocator, or writes back the entry it found.
pub data Rewrote (a : HostKvAllocator) (a' : HostKvAllocator) : Type 0 where
  same : a' ≡ a → Rewrote a a'
  wrote :
      (slot : ℕ) (x y : Allocation)
      → lookup slot a.allocations ≡ some x
      → y.extent ≡ x.extent
      → (y.writing ≡ true → y.readers ≡ 0)
      → a' ≡ record a { allocations = insert slot y a.allocations }
      → Rewrote a a'

abbrev with_entry : HostKvAllocator → HostKvExtent → Allocation → HostKvAllocator
with_entry a e y = record a { allocations = insert e.request_slot y a.allocations }

pin_entry-extent : (w : Bool) (x : Allocation) → (pin_entry w x).extent ≡ x.extent
unfolding pin_entry
pin_entry-extent true x = refl
pin_entry-extent false x = refl

pin_entry_exclusive :
    (w : Bool) (x : Allocation)
    → x.writing ≡ false
    → (w ≡ true → x.readers ≡ 0)
    → (pin_entry w x).writing ≡ true
    → (pin_entry w x).readers ≡ 0
unfolding pin_entry
pin_entry_exclusive true x free quiet h = quiet refl
pin_entry_exclusive false x free quiet h = absurd (cc)

unpin_entry-extent : (w : Bool) (x : Allocation) → (unpin_entry w x).extent ≡ x.extent
unfolding unpin_entry
unpin_entry-extent true x = refl
unpin_entry-extent false x = refl

unpin_entry_exclusive :
    (w : Bool) (x : Allocation)
    → (x.writing ≡ true → x.readers ≡ 0)
    → (unpin_entry w x).writing ≡ true
    → (unpin_entry w x).readers ≡ 0
unfolding unpin_entry
unpin_entry_exclusive true x excl h = absurd (cc)
unpin_entry_exclusive false x excl h = omega (arith, excl h)

-- What a pin that succeeds did, once the entry is known.
pin_found :
    (a : HostKvAllocator) (e : HostKvExtent) (write r : Bool) (a' : HostKvAllocator)
    (x : Allocation)
    → lookup e.request_slot a.allocations ≡ some x
    → pin a e write ≡ ok (r, a')
    → (a' ≡ a)
      ⊎ ((x.writing ≡ false)
          × (write ≡ true → x.readers ≡ 0)
          × (a' ≡ with_entry a e (pin_entry write x)))
unfolding pin require
pin_found a e true r a' x live h = ground arith
pin_found a e false r a' x live h = ground arith

pub pin-Rewrote :
    (a : HostKvAllocator) (e : HostKvExtent) (write r : Bool) (a' : HostKvAllocator)
    → pin a e write ≡ ok (r, a')
    → Rewrote a a'
unfolding pin require
pin-Rewrote a e write r a' h = elim (Option-cases (lookup e.request_slot a.allocations)) [
  | inl missing ↦ absurd (ground (arith, missing))
  | inr (x, live) ↦ go x live (pin_found a e write r a' x live h)
]
  where
    go :
        (x : Allocation)
        → lookup e.request_slot a.allocations ≡ some x
        → ((a' ≡ a)
            ⊎ ((x.writing ≡ false)
                × (write ≡ true → x.readers ≡ 0)
                × (a' ≡ with_entry a e (pin_entry write x))))
        → Rewrote a a'
    go x live (inl unchanged) = same unchanged
    go x live (inr (free, quiet, made)) =
        wrote e.request_slot x (pin_entry write x) live (pin_entry-extent write x)
          (pin_entry_exclusive write x free quiet) made

unpin_found :
    (a : HostKvAllocator) (e : HostKvExtent) (write : Bool) (a' : HostKvAllocator) (x : Allocation)
    → lookup e.request_slot a.allocations ≡ some x
    → unpin a e write ≡ ok a'
    → a' ≡ with_entry a e (unpin_entry write x)
unfolding unpin require
unpin_found a e true a' x live h = ground arith
unpin_found a e false a' x live h = ground arith

module _ (a : HostKvAllocator) (sound : IsSound a) where
  pub unpin-Rewrote :
      (e : HostKvExtent) (write : Bool) (a' : HostKvAllocator)
      → unpin a e write ≡ ok a'
      → Rewrote a a'
  unfolding unpin require
  unpin-Rewrote e write a' h = elim (Option-cases (lookup e.request_slot a.allocations)) [
    | inl missing ↦ absurd (ground (arith, missing))
    | inr (x, live) ↦
        wrote e.request_slot x (unpin_entry write x) live (unpin_entry-extent write x)
          (unpin_entry_exclusive write x (sound.exclusive e.request_slot x live))
          (unpin_found a e write a' x live h)
  ]

  Rewrote-IsSound : (a' : HostKvAllocator) → Rewrote a a' → IsSound a'
  Rewrote-IsSound a' (same e) = subst IsSound (sym e) sound
  Rewrote-IsSound a' (wrote slot x y live kept excl e) =
      subst IsSound (sym e) (rewrite-IsSound a sound slot x y live kept excl)

  pub step-IsSound : (c : Call) → IsSound (step a c)
  unfolding step
  step-IsSound (allocates slot epoch capacity) =
      elim (Result-cases (allocate a slot epoch capacity)) [
        | inl ((e, a'), done) ↦ rw done (
            allocate-IsSound a sound slot epoch capacity e a'
              (allocate-Allocated a slot epoch capacity e a' done))
        | inr (x, failed) ↦ rw failed sound
      ]
  step-IsSound (pins e write) = elim (Result-cases (pin a e write)) [
    | inl ((r, a'), done) ↦ rw done (Rewrote-IsSound a' (pin-Rewrote a e write r a' done))
    | inr (x, failed) ↦ rw failed sound
  ]
  step-IsSound (unpins e write) = elim (Result-cases (unpin a e write)) [
    | inl (a', done) ↦ rw done (Rewrote-IsSound a' (unpin-Rewrote e write a' done))
    | inr (x, failed) ↦ rw failed sound
  ]
  step-IsSound (recycles slot epoch quiescent) =
      elim (Result-cases (recycle a slot epoch quiescent)) [
        | inl (a', done) ↦
            let (entry, re) = recycle-Recycled a slot epoch quiescent a' done in
            rw done (recycle-IsSound a sound slot epoch entry a' re)
        | inr (x, failed) ↦ rw failed sound
      ]

Rewrote-arena : (a a' : HostKvAllocator) → Rewrote a a' → a'.arena ≡ a.arena
Rewrote-arena a a' (same e) = rw e
Rewrote-arena a a' (wrote slot x y live kept excl e) = rw e

step-arena : (a : HostKvAllocator) → IsSound a → (c : Call) → (step a c).arena ≡ a.arena
unfolding step
step-arena a s (allocates slot epoch capacity) =
    elim (Result-cases (allocate a slot epoch capacity)) [
      | inl ((e, a'), done) ↦
          rw done (allocate-Allocated a slot epoch capacity e a' done).same_arena
      | inr (x, failed) ↦ rw failed
    ]
step-arena a s (pins e write) = elim (Result-cases (pin a e write)) [
  | inl ((r, a'), done) ↦ rw done (Rewrote-arena a a' (pin-Rewrote a e write r a' done))
  | inr (x, failed) ↦ rw failed
]
step-arena a s (unpins e write) = elim (Result-cases (unpin a e write)) [
  | inl (a', done) ↦ rw done (Rewrote-arena a a' (unpin-Rewrote a s e write a' done))
  | inr (x, failed) ↦ rw failed
]
step-arena a s (recycles slot epoch quiescent) =
    elim (Result-cases (recycle a slot epoch quiescent)) [
      | inl (a', done) ↦ rw done (recycle-Recycled a slot epoch quiescent a' done).1.same_arena
      | inr (x, failed) ↦ rw failed
    ]

run-arena : (a : HostKvAllocator) (cs : List Call) → IsSound a → (run a cs).arena ≡ a.arena
unfolding run
run-arena a [] s = refl
run-arena a (c ∷ cs) s = run-arena (step a c) cs (step-IsSound a s c) ∙ step-arena a s c

run-IsSound : (a : HostKvAllocator) (cs : List Call) → IsSound a → IsSound (run a cs)
unfolding run
run-IsSound a [] s = s
run-IsSound a (c ∷ cs) s = run-IsSound (step a c) cs (step-IsSound a s c)

pub run-init-IsSound : (d : ArenaDescriptor) (cs : List Call) → IsSound (run (init d) cs)
run-init-IsSound d cs = run-IsSound (init d) cs (init-IsSound d)

pub arena-run-init : (d : ArenaDescriptor) (cs : List Call) → (run (init d) cs).arena ≡ d
arena-run-init d cs = run-arena (init d) cs (init-IsSound d) ∙ unfold init in refl
