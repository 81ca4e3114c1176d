-- ===== src/Kv/SharedPins.antt =====
-- nebulasd/src/nebulasd/kv/shared_pins.py: pins that processes take on one HostKV allocation by
-- comparing and swapping a shared word. A load and a compare-and-swap of the native library are
-- atomic, and between any two of them the other processes may move: a worker is represented by the
-- point in its call at which it stands, and a schedule names who moves next. The reading of the
-- allocation row before a pin, and the hint after a release, are left out.
pub mod Exclusion
mod Examples
use nebula_sd.Common.{
  ℕ, zero, suc, ◌+◌, ◌-◌, ◌^◌, Bool, not, ◌&&◌, ◌||◌, List, [], ◌∷◌, Result, ok, err, ◌>>=◌,
  value_error, leb, ◌==◌, if◌then◌else◌, replicate,
}

-- `WRITE`
abbrev pub write_bit : ℕ
write_bit = 2 ^ 63

-- `current & WRITE`, of a word of 64 bits.
abbrev pub is_written : ℕ → Bool
is_written current = leb write_bit current

-- Where a worker stands: outside, before a load, before a compare-and-swap with what it loaded, or
-- holding its pin; the argument says whether it writes.
pub data Worker : Type 0 where
  idle : Worker
  pinning : Bool → Worker
  pin_loaded : Bool → ℕ → Worker
  holding : Bool → Worker
  unpinning : Bool → Worker
  unpin_loaded : Bool → ℕ → Worker

-- The test of `pin_prepared` that returns False.
unfoldable pub refused : Bool → ℕ → Bool
refused write current = is_written current || (write && not (current == 0))

unfoldable pub pinned_word : Bool → ℕ → ℕ
pinned_word write current = if write then write_bit else current + 1

-- The test of `release_pinned` that raises.
unfoldable pub not_held : Bool → ℕ → Bool
not_held write current =
    if write then not (current == write_bit) else current == 0 || is_written current

unfoldable pub released_word : Bool → ℕ → ℕ
released_word write current = if write then 0 else current - 1

-- `sd_cas`: the word after it, and whether it was swapped.
unfoldable pub cas : ℕ → ℕ → ℕ → ℕ × Bool
cas word expected new = if word == expected then (new, Bool.true) else (word, Bool.false)

-- One move of a worker. An idle one starts to pin, to write or to read as it is told.
unfoldable pub act : Bool → ℕ → Worker → Result (ℕ × Worker)
unfolding refused pinned_word not_held released_word cas
act write word idle = ok (word, pinning write)
act write word (pinning mine) =
    if refused mine word then ok (word, idle) else ok (word, pin_loaded mine word)
act write word (pin_loaded mine current) =
    let swap = cas word current (pinned_word mine current) in
    ok (swap.0, if swap.1 then holding mine else pinning mine)
act write word (holding mine) = ok (word, unpinning mine)
act write word (unpinning mine) =
    if not_held mine word then err value_error else ok (word, unpin_loaded mine word)
act write word (unpin_loaded mine current) =
    let swap = cas word current (released_word mine current) in
    ok (swap.0, if swap.1 then idle else unpinning mine)

-- The word and the workers.
pub record Pins : Type 0 where
  pub word : ℕ
  pub workers : List Worker

-- The move of one worker; a number past the last of them moves none.
unfoldable pub turn : ℕ → Bool → ℕ → List Worker → Result Pins
unfolding act
turn i write word [] = ok (record { word = word; workers = [] })
turn zero write word (worker ∷ workers) = do
  moved ← act write word worker
  ok (record { word = moved.0; workers = moved.1 ∷ workers })
turn (suc i) write word (worker ∷ workers) = do
  moved ← turn i write word workers
  ok (record moved { workers = worker ∷ moved.workers })

-- The pins of an allocation that nobody holds.
unfoldable pub start : ℕ → Pins
start workers = record { word = 0; workers = replicate workers idle }

unfoldable pub run : Pins → List (ℕ × Bool) → Result Pins
unfolding turn
run pins [] = ok pins
run pins ((i, write) ∷ schedule) = do next ← turn i write pins.word pins.workers; run next schedule
