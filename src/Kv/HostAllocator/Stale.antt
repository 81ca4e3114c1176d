-- ===== src/Kv/HostAllocator/Stale.antt =====
-- The extents of recycled allocations of nebulasd/src/nebulasd/kv/host_allocator.py.
use native.Mathlib.Decide.{ℕ_discrete}
use native.Mathlib.Nat.{add-zero}
use nebula_sd.Common.{
  ℕ, ◌+◌, ◌-◌, ◌%◌, ◌^◌, ◌≤◌, ◌<◌, ◌≡◌, ◌≢◌, refl, sym, ap, subst, ◌∙◌, Bool, List, [], ◌∷◌, ok,
  err, none, some, arith, value_error, length, Option-cases, Result-cases, inl, inr, ◌==◌,
  if◌then◌else◌, false,
}
use nebula_sd.Common.Assoc.{lookup, lookup-insert, lookup-remove_ne, lookup-remove_self}
use nebula_sd.Core.Ids.{u64, next, validate}
use nebula_sd.Kv.Arena.{HostKvExtent, ArenaDescriptor}
use nebula_sd.Kv.HostAllocator.Changes.{Allocated, Recycled, recycle-Recycled, allocate-Allocated}
use nebula_sd.Kv.HostAllocator.Sound.{IsSound, recycle-IsSound}
use nebula_sd.Kv.HostAllocator.Calls.{
  Call, allocates, pins, unpins, recycles, Rewrote, same, wrote, step, run, pin-Rewrote,
  unpin-Rewrote, step-IsSound, run-init-IsSound,
}
use nebula_sd.Kv.HostAllocator.{
  Allocation, HostKvAllocator, init, generation_of, allocate, require, same_extent, pin, unpin,
  recycle,
}

-- The generations of a slot are counted modulo this.
abbrev generations_before_reuse : ℕ
generations_before_reuse = 2 ^ 64 - 1

-- The slot's generation is so many steps behind that of the old extent, and so is its live allocation.
record Behind (old slot steps : ℕ) (a : HostKvAllocator) : Type 0 where
  counted : generation_of a slot ≡ (old + steps) % generations_before_reuse
  current :
      (x : Allocation)
      → lookup slot a.allocations ≡ some x
      → x.extent.host_slot_generation ≡ generation_of a slot

next-count :
    (g g' : ℕ)
    → next u64 g ≡ ok g'
    → (g < generations_before_reuse) × (g' ≡ (g + 1) % generations_before_reuse)
unfolding next validate
next-count g g' h = (ground arith, ground arith)

add_step :
    (old steps : ℕ)
    → ((old + steps) % generations_before_reuse + 1) % generations_before_reuse
      ≡ (old + (steps + 1)) % generations_before_reuse
add_step old steps = omega arith

away :
    (old steps : ℕ)
    → old < generations_before_reuse
    → 0 < steps
    → steps < generations_before_reuse
    → (old + steps) % generations_before_reuse ≢ old
away old steps valid pos few e = omega (arith, e)

generation_of-recycle_ne :
    (a : HostKvAllocator) (slot epoch : ℕ) (quiescent : Bool) (a' : HostKvAllocator) (other : ℕ)
    → slot ≢ other
    → recycle a slot epoch quiescent ≡ ok a'
    → generation_of a' other ≡ generation_of a other
unfolding recycle require validate generation_of
generation_of-recycle_ne a slot epoch quiescent a' other ne h =
    elim (Option-cases (lookup slot a.allocations)) [
      | inl missing ↦ absurd (ground (arith, missing))
      | inr (entry, live) ↦ elim (Result-cases (next u64 entry.extent.host_slot_generation)) [
        | inr (x, failed) ↦ absurd (ground (arith, live, failed))
        | inl (g, advanced) ↦
            ground (arith, live, advanced, lookup-insert slot other g a.generations)
      ]
    ]

generation_of_same :
    (a a' : HostKvAllocator) (slot : ℕ)
    → a'.generations ≡ a.generations
    → generation_of a' slot ≡ generation_of a slot
unfolding generation_of
generation_of_same a a' slot kept = rw kept refl

-- Recycling the slot moves its generation on.
Recycled-Behind :
    (old slot steps : ℕ) (a : HostKvAllocator) (epoch : ℕ) (entry : Allocation)
    (a' : HostKvAllocator)
    → IsSound a
    → Recycled a slot epoch entry a'
    → entry.extent.host_slot_generation ≡ (old + steps) % generations_before_reuse
    → Behind old slot (steps + 1) a'
Recycled-Behind old slot steps a epoch entry a' sound re at = record {
  counted =
      (next-count entry.extent.host_slot_generation (generation_of a' slot) re.advanced).1
      ∙ rw at (add_step old steps);
  current = λ x live. absurd (cc (live, gone));
}
  where
    gone : lookup slot a'.allocations ≡ none
    gone = rw re.removed (lookup-remove_self slot a.allocations sound.distinct)

unmoved :
    {old slot steps : ℕ} (a : HostKvAllocator)
    → Behind old slot steps a
    → (bound : ℕ) → (more : ℕ) × (more ≤ bound) × Behind old slot (steps + more) a
unmoved a b bound = (0, omega arith, rw add-zero b)

module _ (old slot steps : ℕ) (a : HostKvAllocator) (sound : IsSound a)
    (b : Behind old slot steps a) where
  allocate-Behind :
      (other epoch capacity : ℕ) (e : HostKvExtent) (a' : HostKvAllocator)
      → Allocated a other epoch capacity e a'
      → Behind old slot steps a'
  allocate-Behind other epoch capacity e a' al = record {
    counted = kept ∙ b.counted;
    current = λ x live. elim (ℕ_discrete other slot) [
      | yes here ↦ ground (arith, here, kept, al.made.generation_made, live, found)
      | no away ↦ ground (arith, away, kept, b.current x, live, found)
    ];
  }
    where
      kept : generation_of a' slot ≡ generation_of a slot
      kept = generation_of_same a a' slot al.same_generations

      found : lookup slot a'.allocations ≡ (
          if other == slot
          then some (record { extent = e; readers = 0; writing = false })
          else lookup slot a.allocations)
      found = rw al.added (lookup-insert other slot _ a.allocations)

  Rewrote-Behind : (a' : HostKvAllocator) → Rewrote a a' → Behind old slot steps a'
  Rewrote-Behind a' (same e) = subst (Behind old slot steps) (sym e) b
  Rewrote-Behind a' (wrote at x y live kept_extent excl e) = record {
    counted = kept ∙ b.counted;
    current = λ z found. elim (ℕ_discrete at slot) [
      | yes here ↦ ground (arith, here, kept, kept_extent, live, b.current x, found, held)
      | no away ↦ ground (arith, away, kept, b.current z, found, held)
    ];
  }
    where
      kept : generation_of a' slot ≡ generation_of a slot
      kept = generation_of_same a a' slot (rw e refl)

      held : lookup slot a'.allocations ≡ (if at == slot then some y else lookup slot a.allocations)
      held = rw e (lookup-insert at slot y a.allocations)

  recycle-Behind :
      (other epoch : ℕ) (quiescent : Bool) (a' : HostKvAllocator)
      → recycle a other epoch quiescent ≡ ok a'
      → (more : ℕ) × (more ≤ 1) × Behind old slot (steps + more) a'
  recycle-Behind other epoch quiescent a' done =
      let (entry, re) = recycle-Recycled a other epoch quiescent a' done in
      elim (ℕ_discrete other slot) [
        | yes here ↦ (
          1,
          omega arith,
          Recycled-Behind old slot steps a epoch entry a' sound
              (subst (λ k. Recycled a k epoch entry a') here re)
              (b.current entry (subst (λ k. lookup k a.allocations ≡ some entry) here re.was_live)
                ∙ b.counted),
        )
        | no away ↦ (0, omega arith, rw add-zero (elsewhere entry re away))
      ]
    where
      elsewhere :
          (entry : Allocation)
          → Recycled a other epoch entry a'
          → other ≢ slot
          → Behind old slot steps a'
      elsewhere entry re away =
          let kept = generation_of-recycle_ne a other epoch quiescent a' slot away done in
          let found : lookup slot a'.allocations ≡ lookup slot a.allocations =
            rw re.removed (lookup-remove_ne other slot a.allocations away) in
          record {
            counted = kept ∙ b.counted;
            current = λ x live. b.current x (sym found ∙ live) ∙ sym kept;
          }

  -- A call moves the generation on at most once.
  step-Behind : (c : Call) → (more : ℕ) × (more ≤ 1) × Behind old slot (steps + more) (step a c)
  unfolding step
  step-Behind (allocates other epoch capacity) =
      elim (Result-cases (allocate a other epoch capacity)) [
        | inl ((e, a'), done) ↦ rw done (
            unmoved a'
              (allocate-Behind other epoch capacity e a'
                (allocate-Allocated a other epoch capacity e a' done))
              1)
        | inr (_, failed) ↦ rw failed (unmoved a b 1)
      ]
  step-Behind (pins e write) = elim (Result-cases (pin a e write)) [
    | inl ((r, a'), done) ↦
        rw done (unmoved a' (Rewrote-Behind a' (pin-Rewrote a e write r a' done)) 1)
    | inr (_, failed) ↦ rw failed (unmoved a b 1)
  ]
  step-Behind (unpins e write) = elim (Result-cases (unpin a e write)) [
    | inl (a', done) ↦
        rw done (unmoved a' (Rewrote-Behind a' (unpin-Rewrote a sound e write a' done)) 1)
    | inr (_, failed) ↦ rw failed (unmoved a b 1)
  ]
  step-Behind (recycles other epoch quiescent) =
      elim (Result-cases (recycle a other epoch quiescent)) [
        | inl (a', done) ↦ rw done (recycle-Behind other epoch quiescent a' done)
        | inr (_, failed) ↦ rw failed (unmoved a b 1)
      ]

run-Behind :
    (old slot steps : ℕ) (a : HostKvAllocator) (cs : List Call)
    → IsSound a
    → Behind old slot steps a
    → (more : ℕ) × (more ≤ length cs) × Behind old slot (steps + more) (run a cs)
unfolding run
run-Behind old slot steps a [] sound b = unmoved a b 0
run-Behind old slot steps a (c ∷ cs) sound b =
    let (once, le, b') = step-Behind old slot steps a sound b c in
    let (later, le', b'') =
      run-Behind old slot (steps + once) (step a c) cs (step-IsSound a sound c) b' in
    (
      once + later,
      omega (arith, le, le'),
      subst (λ n. Behind old slot n (run (step a c) cs)) (omega arith) b'',
    )

-- An extent of another generation than the live allocation's, or of a slot with none, is refused.
pin_other_generation :
    (a : HostKvAllocator) (e : HostKvExtent) (write : Bool)
    → ((x : Allocation)
        → lookup e.request_slot a.allocations ≡ some x
        → x.extent.host_slot_generation ≢ e.host_slot_generation)
    → pin a e write ≡ err value_error
unfolding pin require same_extent
pin_other_generation a e write ne = elim (Option-cases (lookup e.request_slot a.allocations)) [
  | inl missing ↦ ground (arith, missing)
  | inr (x, live) ↦ let differs = ne x live in ground (arith, live, differs)
]

-- After any calls on a new allocator a live allocation is recycled. From then on, through fewer than
-- 2 ^ 64 - 2 further calls of allocate, pin, unpin and recycle, those that raise and those that
-- allocate the slot again included, a pin of its extent is refused.
pub pin_recycled :
    (d : ArenaDescriptor) (cs : List Call) (slot epoch : ℕ) (quiescent : Bool) (old : Allocation)
    (a' : HostKvAllocator) (later : List Call) (write : Bool)
    → lookup slot (run (init d) cs).allocations ≡ some old
    → recycle (run (init d) cs) slot epoch quiescent ≡ ok a'
    → length later < 2 ^ 64 - 2
    → pin (run a' later) old.extent write ≡ err value_error
pin_recycled d cs slot epoch quiescent old a' later write live done few =
    let a = run (init d) cs in
    let sound = run-init-IsSound d cs in
    let (entry, re) = recycle-Recycled a slot epoch quiescent a' done in
    let same_entry : entry ≡ old = cc (re.was_live, live) in
    let generation = old.extent.host_slot_generation in
    let valid : generation < generations_before_reuse =
      rw (sym same_entry) (next-count entry.extent.host_slot_generation _ re.advanced).0 in
    let first =
      Recycled-Behind generation slot 0 a epoch entry a' sound re (
        ap (λ (x : Allocation). x.extent.host_slot_generation) same_entry
        ∙ ground (arith, valid)) in
    let (more, le, b) =
      run-Behind generation slot 1 a' later (recycle-IsSound a sound slot epoch entry a' re)
        first in
    pin_other_generation (run a' later) old.extent write (λ x found e.
      away generation (1 + more) valid (omega arith) (omega (arith, le, few))
        (sym b.counted ∙ sym (b.current x (rw (sound.keyed slot old live) at found)) ∙ e))
