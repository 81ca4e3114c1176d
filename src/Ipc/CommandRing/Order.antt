-- ===== src/Ipc/CommandRing/Order.antt =====
-- What a consumer of nebulasd/src/nebulasd/ipc/command_ring.py is given over many calls.
use nebula_sd.Common.{
  ℕ, ◌<◌, ◌≡◌, refl, sym, ap, subst, ◌∙◌, ◌⊎◌, inl, inr, List, [], ◌∷◌, ◌++◌, Option, none, some,
  Result, ok, err, arith, Result-cases,
}
use nebula_sd.Ipc.Ring
use nebula_sd.Ipc.Ring.Queue.{Holds, empty-Holds}
use nebula_sd.Ipc.CommandArena.{CommandArena}
use nebula_sd.Ipc.CommandRing.{
  CommandHeader, CommandEnvelope, CommandRing, init, publish, consume, close_producer,
}
use nebula_sd.Ipc.CommandRing.Delivery.{Follows, publish-Holds}
use nebula_sd.Ipc.CommandRing.Taking.{header_in, Takes, Stays, consume_lem}

-- What is seen of the calls: the headers whose publish succeeded, oldest first, and those that a
-- consume returned, each with the generation that the consumer named, newest first.
pub record Log : Type 0 where
  pub accepted : List CommandHeader
  pub returned : List (ℕ × CommandHeader)

pub data Call : Type 0 where
  publishes : CommandHeader → Call
  consumes : ℕ → CommandArena → Call
  closes : Call

abbrev noted : ℕ → Option CommandHeader → Log → Log
noted generation none log = log
noted generation (some h) log = record log { returned = (generation, h) ∷ log.returned }

abbrev published : CommandRing → CommandHeader → Log → Result CommandRing → CommandRing × Log
published r h log (ok r') = (r', record log { accepted = log.accepted ++ h ∷ [] })
published r h log (err x) = (r, log)

abbrev pub step : CommandRing × Log → Call → CommandRing × Log
step (r, log) (publishes h) = published r h log (publish r h)
step (r, log) (consumes generation arena) =
    let after = consume r generation arena in (after.1, noted generation (header_in after.0) log)
step (r, log) closes = (close_producer r, log)

-- Calls one after the other; a consume may find the arena in any state.
abbrev pub run : CommandRing × Log → List Call → CommandRing × Log
run s [] = s
run s (c ∷ cs) = run (step s c) cs

-- Headers newest first, put back in front of a queue.
abbrev pub behind : List CommandHeader → List CommandHeader → List CommandHeader
behind [] q = q
behind (h ∷ taken) q = behind taken (h ∷ q)

abbrev pub newest : List CommandHeader → Option ℕ
newest [] = none
newest (h ∷ taken) = some h.command_seq

-- Each header is newer than the one taken before it.
abbrev pub Rises : List CommandHeader → Type 0
Rises [] = Unit {0}
Rises (h ∷ taken) = Follows (newest taken) h.command_seq × Rises taken

-- What was returned is among what was taken, in the same order and no header twice, and each was
-- meant for the generation that the consumer named.
pub data Among : List (ℕ × CommandHeader) → List CommandHeader → Type 0 where
  at_start : Among [] []
  skips :
      (h : CommandHeader) (given : List (ℕ × CommandHeader)) (taken : List CommandHeader)
      → Among given taken
      → Among given (h ∷ taken)
  gives :
      (h : CommandHeader) (given : List (ℕ × CommandHeader)) (taken : List CommandHeader)
      → Among given taken
      → Among ((h.worker_generation, h) ∷ given) (h ∷ taken)

pub record IsFifo (r : CommandRing) (log : Log) : Type 0 where
  pub taken : List CommandHeader
  pub waiting : List CommandHeader
  pub holds : Holds r.ring waiting
  pub split : log.accepted ≡ behind taken waiting
  pub rises : Rises taken
  pub last : r.last_consumed ≡ newest taken
  pub given : Among log.returned taken

behind-append :
    (taken q : List CommandHeader) (h : CommandHeader)
    → behind taken (q ++ h ∷ []) ≡ behind taken q ++ h ∷ []
behind-append [] q h = refl
behind-append (x ∷ taken) q h = behind-append taken (x ∷ q) h

publish-IsFifo :
    (r : CommandRing) (log : Log) (h : CommandHeader) (r' : CommandRing)
    → IsFifo r log
    → publish r h ≡ ok r'
    → IsFifo r' (record log { accepted = log.accepted ++ h ∷ [] })
publish-IsFifo r log h r' f done =
    let p = publish-Holds r f.waiting h r' f.holds done in
    record {
      taken = f.taken;
      waiting = f.waiting ++ h ∷ [];
      holds = p.3;
      split = ap (λ hs. hs ++ h ∷ []) f.split ∙ sym (behind-append f.taken f.waiting h);
      rises = f.rises;
      last = p.5 ∙ f.last;
      given = f.given;
    }

-- A header that was taken is noted if the call returned it.
noted-Among :
    (generation : ℕ) (h : CommandHeader) (seen : Option CommandHeader) (log : Log)
    (taken : List CommandHeader)
    → Among log.returned taken
    → h.worker_generation ≡ generation
    → (seen ≡ none) ⊎ (seen ≡ some h)
    → Among (noted generation seen log).returned (h ∷ taken)
noted-Among generation h seen log taken among meant (inl nothing) =
    rw nothing (skips h log.returned taken among)
noted-Among generation h seen log taken among meant (inr it) =
    rw (it, sym meant) (gives h log.returned taken among)

noted-accepted :
    (generation : ℕ) (seen : Option CommandHeader) (log : Log)
    → (noted generation seen log).accepted ≡ log.accepted
noted-accepted generation none log = refl
noted-accepted generation (some h) log = refl

consume-IsFifo :
    (r : CommandRing) (log : Log) (generation : ℕ)
    (after : Result (Option CommandEnvelope) × CommandRing × CommandArena)
    → (f : IsFifo r log) → Stays r after ⊎ Takes r f.waiting generation after
    → IsFifo after.1 (noted generation (header_in after.0) log)
consume-IsFifo r log generation after f (inl (same, nothing)) = rw (same, nothing) f
consume-IsFifo r log generation after f (inr t) = record {
  taken = t.head ∷ f.taken;
  waiting = t.rest;
  holds = t.holds;
  split =
      noted-accepted generation (header_in after.0) log ∙ f.split ∙ ap (behind f.taken) t.oldest;
  rises = (subst (λ last. Follows last t.head.command_seq) f.last t.newer, f.rises);
  last = t.marked;
  given = noted-Among generation t.head (header_in after.0) log f.taken f.given t.meant t.seen;
}

step-IsFifo :
    (r : CommandRing) (log : Log) (c : Call)
    → IsFifo r log
    → IsFifo (step (r, log) c).0 (step (r, log) c).1
unfolding close_producer
step-IsFifo r log (publishes h) f = elim (Result-cases (publish r h)) [
  | inl (r', done) ↦ rw done (publish-IsFifo r log h r' f done)
  | inr (_, failed) ↦ rw failed f
]
step-IsFifo r log (consumes generation arena) f =
    consume-IsFifo r log generation (consume r generation arena) f
      (consume_lem r f.waiting generation arena f.holds)
step-IsFifo r log closes f = record {
  taken = f.taken;
  waiting = f.waiting;
  holds = f.holds;
  split = f.split;
  rises = f.rises;
  last = f.last;
  given = f.given;
}

run-IsFifo :
    (r : CommandRing) (log : Log) (cs : List Call)
    → IsFifo r log
    → IsFifo (run (r, log) cs).0 (run (r, log) cs).1
run-IsFifo r log [] f = f
run-IsFifo r log (c ∷ cs) f =
    let (r', log') = step (r, log) c in run-IsFifo r' log' cs (step-IsFifo r log c f)

abbrev pub no_log : Log
no_log = record { accepted = []; returned = [] }

init-IsFifo : (capacity : ℕ) (r : CommandRing) → init capacity ≡ ok r → IsFifo r no_log
unfolding init
init-IsFifo capacity r made =
    let (pos, ring, none_yet) : (0 < capacity)
        × (r.ring ≡ Ring.empty capacity)
        × (r.last_consumed ≡ none) =
      ground arith in
    record {
      taken = [];
      waiting = [];
      holds = rw ring (empty-Holds capacity pos);
      split = refl;
      rises = tt;
      last = none_yet;
      given = at_start;
    }

-- After any publish, consume and close calls on a new command ring, those that raise included and
-- whatever arena a consume is given: the headers whose publish succeeded are, in their order, those
-- that were taken and then those that wait in the ring. Each taken header has a newer sequence than
-- the one taken before it. What consume returned is among what was taken, in that order and none
-- twice, and each returned header is of the generation that its call named.
pub init-run-IsFifo :
    (capacity : ℕ) (r : CommandRing) (cs : List Call)
    → init capacity ≡ ok r
    → IsFifo (run (r, no_log) cs).0 (run (r, no_log) cs).1
init-run-IsFifo capacity r cs made = run-IsFifo r no_log cs (init-IsFifo capacity r made)
