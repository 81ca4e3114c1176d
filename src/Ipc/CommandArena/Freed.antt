-- ===== src/Ipc/CommandArena/Freed.antt =====
-- Which payloads `release_through` of nebulasd/src/nebulasd/ipc/command_arena.py gives back.
use nebula_sd.Common.{
  ℕ, ◌≡◌, refl, ap, ◌%◌, Bool, true, false, ◌||◌, List, [], ◌∷◌, ◌++◌, ok, arith, ◌==◌, value_or,
  Result-cases, Bool-cases, inl, inr,
}
use nebula_sd.Core.Ids.{u64, validate, distance, is_newer, is_newer_or_equal}
use nebula_sd.Ipc.CommandArena.{
  Allocation, CommandArena, capacity_bytes, end, release_loop, settle, release_through,
}

-- The payload's command is the consumed one, or the consumed one is newer.
abbrev pub is_past : ℕ → Allocation → Bool
is_past seq x = x.command_seq == seq || value_or false (is_newer u64 seq x.command_seq)

abbrev pub AllPast : ℕ → List Allocation → Type 0
AllPast seq [] = Unit {0}
AllPast seq (x ∷ xs) = (is_past seq x ≡ true) × AllPast seq xs

-- The oldest payload is still to be consumed.
abbrev pub Awaits : ℕ → List Allocation → Type 0
Awaits seq [] = Unit {0}
Awaits seq (x ∷ xs) = is_past seq x ≡ false

-- Of the live payloads the oldest are given back, those of commands up to the consumed one, and no
-- other.
pub record Freed (seq : ℕ) (live left : List Allocation) : Type 0 where
  pub freed : List Allocation
  pub split : live ≡ freed ++ left
  pub past : AllPast seq freed
  pub awaits : Awaits seq left

-- The command sequences are those that `allocate` lets in.
abbrev pub AreValid : List Allocation → Type 0
AreValid [] = Unit {0}
AreValid (x ∷ xs) = (validate u64 x.command_seq ≡ ok x.command_seq) × AreValid xs

is_newer_total :
    (a b : ℕ)
    → validate u64 a ≡ ok a
    → validate u64 b ≡ ok b
    → (newer : Bool) × (is_newer u64 a b ≡ ok newer)
unfolding is_newer distance
is_newer_total a b va vb = elim (Result-cases (is_newer u64 a b)) [
  | inl (newer, answer) ↦ (newer, answer)
  | inr (_, failed) ↦ absurd (ground (arith, failed))
]

release_loop-Freed :
    (capacity seq : ℕ) (live : List Allocation) (tail : ℕ)
    → validate u64 seq ≡ ok seq
    → AreValid live
    → (left : List Allocation) × (tail' : ℕ) × (release_loop capacity seq live tail
        ≡ ok (left, tail'))
      × Freed seq live left
unfolding release_loop is_newer_or_equal
release_loop-Freed capacity seq [] tail valid lives =
    ([], tail, refl, record { freed = []; split = refl; past = tt; awaits = tt })
release_loop-Freed capacity seq (x ∷ xs) tail valid lives =
    let (newer, answer) = is_newer_total seq x.command_seq valid lives.0 in
    let (left, tail', done, f) =
      release_loop-Freed capacity seq xs (end x % capacity) valid lives.1 in
    elim (Bool-cases (is_past seq x)) [
      | inl past ↦ (
        left,
        tail',
        ground (arith, past, answer, done),
        record {
          freed = x ∷ f.freed;
          split = ap (◌∷◌ x) f.split;
          past = (past, f.past);
          awaits = f.awaits;
        },
      )
      | inr waits ↦ (
        x ∷ xs,
        tail,
        ground (arith, waits, answer),
        record { freed = []; split = refl; past = tt; awaits = waits },
      )
    ]

settle-Freed :
    (seq : ℕ) (a : CommandArena) (left : List Allocation) (tail : ℕ)
    → Freed seq a.allocations left
    → ((settle a left a.head tail).bytes ≡ a.bytes)
      × ((settle a left a.head tail).generation ≡ a.generation)
      × Freed seq a.allocations (settle a left a.head tail).allocations
unfolding settle
settle-Freed seq a [] tail f = (refl, refl, f)
settle-Freed seq a (x ∷ xs) tail f = (refl, refl, f)

pub release_through-Freed :
    (a : CommandArena) (seq : ℕ)
    → validate u64 seq ≡ ok seq
    → AreValid a.allocations
    → (a' : CommandArena) × (release_through a seq ≡ ok a')
      × (a'.bytes ≡ a.bytes)
      × (a'.generation ≡ a.generation)
      × Freed seq a.allocations a'.allocations
unfolding release_through
release_through-Freed a seq valid lives =
    let (left, tail', done, f) =
      release_loop-Freed (capacity_bytes a) seq a.allocations a.tail valid lives in
    let kept = settle-Freed seq a left tail' f in
    (settle a left a.head tail', rw (valid, done) refl, kept.0, kept.1, kept.2)
