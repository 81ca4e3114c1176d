-- ===== src/Kv/SharedPins/Exclusion.antt =====
-- The pins of nebulasd/src/nebulasd/kv/shared_pins.py exclude each other, whatever the order in
-- which the workers move.
use nebula_sd.Common.{
  ℕ, zero, suc, ◌+◌, ◌-◌, ◌≤◌, ◌<◌, ◌≡◌, refl, sym, ap, Bool, true, false, List, [], ◌∷◌, ok, arith,
  ◌⊎◌, inl, inr, length, sum_of, Bool-cases, ◌==◌,
}
use nebula_sd.Kv.SharedPins.{
  write_bit, Worker, idle, pinning, pin_loaded, holding, unpinning, unpin_loaded, Pins, refused,
  not_held, pinned_word, released_word, cas, act, turn, start, run,
}

-- Whether a worker has a pin to read, or to write.
abbrev pub reads : Worker → ℕ
reads (holding false) = 1
reads (unpinning false) = 1
reads (unpin_loaded false current) = 1
reads worker = 0

abbrev pub writes : Worker → ℕ
writes (holding true) = 1
writes (unpinning true) = 1
writes (unpin_loaded true current) = 1
writes worker = 0

-- The word counts the readers where nobody writes, and is the mark of the one writer where there
-- is one, with no reader.
abbrev pub Counts : ℕ → ℕ → ℕ → Type 0
Counts word readers writers =
    ((writers ≡ 0) × (word ≡ readers)) ⊎ ((writers ≡ 1) × (readers ≡ 0) × (word ≡ write_bit))

-- What a worker loaded passed its test.
abbrev Loaded : Worker → Type 0
Loaded (pin_loaded true current) = current ≡ 0
Loaded (pin_loaded false current) = current < write_bit
Loaded (unpin_loaded true current) = current ≡ write_bit
Loaded (unpin_loaded false current) = (0 < current) × (current < write_bit)
Loaded worker = Unit {0}

-- One move, beside so many other readers and writers: it does not raise.
act_lem :
    (write : Bool) (word : ℕ) (worker : Worker) (readers writers : ℕ)
    → readers + writers + 1 < write_bit
    → Loaded worker
    → Counts word (readers + reads worker) (writers + writes worker)
    → (word' : ℕ) × (worker' : Worker) × (act write word worker ≡ ok (word', worker'))
      × Loaded worker'
      × Counts word' (readers + reads worker') (writers + writes worker')
unfolding act refused not_held pinned_word released_word cas
act_lem write word idle readers writers few loaded counts = (word, pinning write, refl, tt, counts)
act_lem write word (pinning true) readers writers few loaded counts =
    elim (Bool-cases (refused true word)) [
      | inl closed ↦ (word, idle, ground (arith, closed), tt, counts)
      | inr free ↦ (word, pin_loaded true word, ground (arith, free), ground (arith, free), counts)
    ]
act_lem write word (pinning false) readers writers few loaded counts =
    elim (Bool-cases (refused false word)) [
      | inl closed ↦ (word, idle, ground (arith, closed), tt, counts)
      | inr free ↦ (word, pin_loaded false word, ground (arith, free), ground (arith, free), counts)
    ]
act_lem write word (pin_loaded true current) readers writers few loaded counts =
    elim (Bool-cases (word == current)) [
      | inl same ↦ (
        write_bit,
        holding true,
        ground (arith, same),
        tt,
        ground (arith, same, counts, loaded, few),
      )
      | inr other ↦ (word, pinning true, ground (arith, other), tt, counts)
    ]
act_lem write word (pin_loaded false current) readers writers few loaded counts =
    elim (Bool-cases (word == current)) [
      | inl same ↦ (
        current + 1,
        holding false,
        ground (arith, same),
        tt,
        ground (arith, same, counts, loaded, few),
      )
      | inr other ↦ (word, pinning false, ground (arith, other), tt, counts)
    ]
act_lem write word (holding true) readers writers few loaded counts =
    (word, unpinning true, refl, tt, counts)
act_lem write word (holding false) readers writers few loaded counts =
    (word, unpinning false, refl, tt, counts)
act_lem write word (unpinning true) readers writers few loaded counts =
    let held : not_held true word ≡ false = ground (arith, counts, few) in
    (word, unpin_loaded true word, ground (arith, held), ground (arith, held), counts)
act_lem write word (unpinning false) readers writers few loaded counts =
    let held : not_held false word ≡ false = ground (arith, counts, few) in
    (word, unpin_loaded false word, ground (arith, held), ground (arith, held), counts)
act_lem write word (unpin_loaded true current) readers writers few loaded counts =
    elim (Bool-cases (word == current)) [
      | inl same ↦ (0, idle, ground (arith, same), tt, ground (arith, same, counts, loaded, few))
      | inr other ↦ (word, unpinning true, ground (arith, other), tt, counts)
    ]
act_lem write word (unpin_loaded false current) readers writers few loaded counts =
    elim (Bool-cases (word == current)) [
      | inl same ↦
          (current - 1, idle, ground (arith, same), tt, ground (arith, same, counts, loaded, few))
      | inr other ↦ (word, unpinning false, ground (arith, other), tt, counts)
    ]

abbrev AllLoaded : List Worker → Type 0
AllLoaded [] = Unit {0}
AllLoaded (worker ∷ workers) = Loaded worker × AllLoaded workers

one_lem : (worker : Worker) → reads worker + writes worker ≤ 1
one_lem idle = omega arith
one_lem (pinning write) = omega arith
one_lem (pin_loaded write current) = omega arith
one_lem (holding true) = omega arith
one_lem (holding false) = omega arith
one_lem (unpinning true) = omega arith
one_lem (unpinning false) = omega arith
one_lem (unpin_loaded true current) = omega arith
one_lem (unpin_loaded false current) = omega arith

few_lem : (workers : List Worker) → sum_of reads workers + sum_of writes workers ≤ length workers
few_lem [] = omega arith
few_lem (worker ∷ workers) = omega (arith, one_lem worker, few_lem workers)

-- Some workers, beside other readers and writers.
abbrev IsPinned : ℕ → ℕ → ℕ → List Worker → Type 0
IsPinned word readers writers workers =
    AllLoaded workers
    × Counts word (readers + sum_of reads workers) (writers + sum_of writes workers)

same_lem : (word r w r' w' : ℕ) → r ≡ r' → w ≡ w' → Counts word r w → Counts word r' w'
same_lem word r w r' w' at_r at_w counts = rw (sym at_r, sym at_w) counts

turn_lem :
    (i : ℕ) (write : Bool) (word : ℕ) (workers : List Worker) (readers writers : ℕ)
    → readers + writers + length workers < write_bit
    → IsPinned word readers writers workers
    → (next : Pins) × (turn i write word workers ≡ ok next)
      × (length next.workers ≡ length workers)
      × IsPinned next.word readers writers next.workers
unfolding turn
turn_lem i write word [] readers writers few pinned =
    (record { word = word; workers = [] }, refl, refl, pinned)
turn_lem zero write word (worker ∷ workers) readers writers few pinned =
    let beside = few_lem workers in
    let moved =
      act_lem write word worker (readers + sum_of reads workers) (writers + sum_of writes workers)
        (omega (arith, few, beside)) pinned.0.0
        (same_lem word _ _ _ _ (omega arith) (omega arith) pinned.1) in
    (
      record { word = moved.0; workers = moved.1 ∷ workers },
      ground (arith, moved.2),
      refl,
      ((moved.3, pinned.0.1), same_lem moved.0 _ _ _ _ (omega arith) (omega arith) moved.4),
    )
turn_lem (suc i) write word (worker ∷ workers) readers writers few pinned =
    let moved =
      turn_lem i write word workers (readers + reads worker) (writers + writes worker)
        (omega (arith, one_lem worker, few))
        (pinned.0.1, same_lem word _ _ _ _ (omega arith) (omega arith) pinned.1) in
    (
      record { word = moved.0.word; workers = worker ∷ moved.0.workers },
      ground (arith, moved.1),
      omega (arith, moved.2),
      (
        (pinned.0.0, moved.3.0),
        same_lem moved.0.word _ _ _ _ (omega arith) (omega arith) moved.3.1,
      ),
    )

run_lem :
    (pins : Pins) (schedule : List (ℕ × Bool))
    → length pins.workers < write_bit
    → IsPinned pins.word 0 0 pins.workers
    → (last : Pins) × (run pins schedule ≡ ok last) × IsPinned last.word 0 0 last.workers
unfolding run
run_lem pins [] few pinned = (pins, refl, pinned)
run_lem pins ((i, write) ∷ schedule) few pinned =
    let moved = turn_lem i write pins.word pins.workers 0 0 (omega (arith, few)) pinned in
    let rest = run_lem moved.0 schedule (omega (arith, moved.2, few)) moved.3 in
    (rest.0, ground (arith, moved.1, rest.1), rest.2)

start_lem : (n : ℕ) → (length (start n).workers ≡ n) × IsPinned 0 0 0 (start n).workers
unfolding start
start_lem zero = (refl, (tt, inl (refl, refl)))
start_lem (suc n) =
    let rest = start_lem n in
    (ap suc rest.0, ((tt, rest.1.0), same_lem 0 _ _ _ _ (omega arith) (omega arith) rest.1.1))

-- Fewer than 2^63 workers share the pins of one allocation that nobody holds. Whatever the order
-- of their loads and swaps, no release raises, and at the end either nobody writes and the shared
-- word is the number of those that read, or one worker writes, nobody reads, and the word is the
-- mark of a writer.
pub run-Counts :
    (workers : ℕ) (schedule : List (ℕ × Bool))
    → workers < write_bit
    → (last : Pins) × (run (start workers) schedule ≡ ok last)
      × Counts last.word (sum_of reads last.workers) (sum_of writes last.workers)
unfolding start
run-Counts workers schedule few =
    let s = start_lem workers in
    let r = run_lem (start workers) schedule (omega (arith, s.0, few)) s.1 in
    (r.0, r.1, same_lem r.0.word _ _ _ _ (omega arith) (omega arith) r.2.1)
