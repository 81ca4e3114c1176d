-- ===== src/Kv/SharedPins/Examples.antt =====
-- Three workers at the pins of one allocation.
use nebula_sd.Common.{ℕ, ◌≡◌, Bool, true, false, List, [], ◌∷◌, ok, arith, sum_of}
use nebula_sd.Kv.SharedPins.{Pins, start, run}
use nebula_sd.Kv.SharedPins.Exclusion.{Counts, reads, writes, run-Counts}

-- Two readers pin, one gives its pin back, and a writer is kept out.
abbrev schedule : List (ℕ × Bool)
schedule =
    (0, false)
    ∷ (1, false)
    ∷ (0, false)
    ∷ (1, false)
    ∷ (0, false)
    ∷ (1, false)
    ∷ (1, false)
    ∷ (1, false)
    ∷ (0, false)
    ∷ (2, true)
    ∷ (2, true)
    ∷ []

run-Counts_example :
    (last : Pins) × (run (start 3) schedule ≡ ok last)
    × Counts last.word (sum_of reads last.workers) (sum_of writes last.workers)
run-Counts_example = run-Counts 3 schedule (omega arith)
