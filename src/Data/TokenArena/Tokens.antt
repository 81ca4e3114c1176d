-- ===== src/Data/TokenArena/Tokens.antt =====
-- The tokens that reads of nebulasd/src/nebulasd/data/token_arena.py and of
-- nebulasd/src/nebulasd/data/shared_arenas.py return after a write.
use nebula_sd.Common.{
  ℕ, ◌+◌, ◌-◌, ◌*◌, ◌/◌, ◌%◌, ◌^◌, ◌≤◌, ◌<◌, ◌≡◌, refl, sym, ap, ◌∙◌, ◌⊎◌, inl, inr, List, [], ◌∷◌,
  ◌++◌, ok, length, arith, Result-cases,
}
use mathlib.Core.Path.{ap₂}
use nebula_sd.Common.Words.{
  store_words, load_words, length-store_words, load_words-store_words, load_words-store_words_ne,
  load_words-add, AreWords,
}
use nebula_sd.Core.Ids.{validate, max_value, modulus, is_valid}
use nebula_sd.Core.Handles.{ArenaHandle, arena_handle, within, end_offset}
use nebula_sd.Data.TokenArena.{
  TokenArena, capacity_bytes, checked_tokens, append_batch, write_tokens, validate_handle,
  read_tokens, SharedTokenArena, validate_shared, read_shared, fit_words, append_reserved,
}

pub checked_tokens-eq-ok : (ts us : List ℕ) → checked_tokens ts ≡ ok us → (us ≡ ts) × AreWords ts
unfolding checked_tokens validate modulus max_value is_valid
checked_tokens-eq-ok [] us h = (ground arith, tt)
checked_tokens-eq-ok (t ∷ ts) us h = elim (Result-cases (checked_tokens ts)) [
  | inr (_, failed) ↦ absurd (ground (arith, failed))
  | inl (vs, done) ↦
      let rest : (vs ≡ ts) × AreWords ts = checked_tokens-eq-ok ts vs done in
      let here : (us ≡ t ∷ vs) × (t < 2 ^ 32) = ground (arith, done) in
      (here.0 ∙ ap (◌∷◌ t) rest.0, (here.1, rest.1))
]

pub write_tokens-eq-ok :
    (a : TokenArena) (ts : List ℕ) (h : ArenaHandle) (b : TokenArena)
    → write_tokens a ts ≡ ok (h, b)
    → AreWords ts
      × (b ≡ append_batch a ts)
      × (h.offset ≡ a.head)
      × (h.length ≡ length ts * 4)
      × (h.generation ≡ a.generation)
      × (a.head + length ts * 4 ≤ capacity_bytes a)
unfolding write_tokens arena_handle validate
write_tokens-eq-ok a ts h b e = elim (Result-cases (checked_tokens ts)) [
  | inr (_, failed) ↦ absurd (ground (arith, failed))
  | inl (us, done) ↦
      let same : (us ≡ ts) × AreWords ts = checked_tokens-eq-ok ts us done in
      let all_tests : (b ≡ append_batch a us)
          × (h.offset ≡ a.head)
          × (h.length ≡ length us * 4)
          × (h.generation ≡ a.generation)
          × (a.head + length us * 4 ≤ capacity_bytes a) =
        ground (arith, done) in
      let moved : (b ≡ append_batch a ts)
          × (h.offset ≡ a.head)
          × (h.length ≡ length ts * 4)
          × (h.generation ≡ a.generation)
          × (a.head + length ts * 4 ≤ capacity_bytes a) =
        rw same.0 at all_tests in
      (same.1, moved.0, moved.1, moved.2, moved.3, moved.4)
]

-- A read passes its tests at a live, whole number of words inside a small arena.
read_tokens-ok :
    (a : TokenArena) (h : ArenaHandle) (n : ℕ)
    → h.generation ≡ a.generation
    → h.length ≡ n * 4
    → h.offset + h.length ≤ capacity_bytes a
    → capacity_bytes a < 2 ^ 64 - 1
    → read_tokens a h ≡ ok (load_words n h.offset a.bytes)
unfolding read_tokens validate_handle within
read_tokens-ok a h n current words inside small =
    let e : h.length / 4 ≡ n = omega arith in
    let m : h.length % 4 ≡ 0 = omega arith in
    let passes : read_tokens a h ≡ ok (load_words (h.length / 4) h.offset a.bytes) =
      ground (arith, m) in
    passes ∙ ap (λ k. ok (load_words k h.offset a.bytes)) e

-- A read depends on the generation, the size and the words of its range.
read_tokens-same :
    (a b : TokenArena) (g : ArenaHandle)
    → b.generation ≡ a.generation
    → capacity_bytes b ≡ capacity_bytes a
    → load_words (g.length / 4) g.offset b.bytes ≡ load_words (g.length / 4) g.offset a.bytes
    → read_tokens b g ≡ read_tokens a g
unfolding read_tokens validate_handle
read_tokens-same a b g current sized words = rw (current, sized, words) refl

append_batch-read :
    (a : TokenArena) (ts : List ℕ) (g : ArenaHandle)
    → g.offset + g.length ≤ a.head
    → read_tokens (append_batch a ts) g ≡ read_tokens a g
unfolding append_batch
append_batch-read a ts g below =
    read_tokens-same a (append_batch a ts) g refl (length-store_words a.head ts a.bytes)
      (load_words-store_words_ne (g.length / 4) g.offset a.head ts a.bytes (inl (omega arith)))

-- The tokens of a write that succeeds are read back through its handle, and a handle of any range
-- below the head reads exactly as before, in an arena of fewer than 2^64 - 1 bytes.
pub read_tokens-write_tokens :
    (a : TokenArena) (ts : List ℕ) (h : ArenaHandle) (b : TokenArena)
    → capacity_bytes a < 2 ^ 64 - 1
    → write_tokens a ts ≡ ok (h, b)
    → (read_tokens b h ≡ ok ts)
      × ((g : ArenaHandle) → g.offset + g.length ≤ a.head → read_tokens b g ≡ read_tokens a g)
unfolding append_batch
read_tokens-write_tokens a ts h b small e =
    let (words, written, offset, sized, current, fits) = write_tokens-eq-ok a ts h b e in
    let cap : capacity_bytes b ≡ capacity_bytes a =
      ap capacity_bytes written ∙ length-store_words a.head ts a.bytes in
    let back : load_words (length ts) h.offset b.bytes ≡ ts =
      rw (offset, written) (load_words-store_words a.head ts a.bytes words (omega arith)) in
    (
      read_tokens-ok b h (length ts) (current ∙ sym (ap (λ (x : TokenArena). x.generation) written))
            sized (omega (arith, offset, sized, cap, fits)) (omega (arith, cap))
          ∙ ap ok back,
      λ g below. rw written (append_batch-read a ts g below),
    )

-- How an append to a reserved range ended.
record Appended (s : SharedTokenArena) (r : ArenaHandle) (count : ℕ) (ts : List ℕ) (h : ArenaHandle)
    (t : SharedTokenArena) : Type 0 where
  offset : h.offset ≡ r.offset
  sized : h.length ≡ (count + length ts) * 4
  current : h.generation ≡ s.arena.generation
  published : r.offset + r.length ≤ s.published
  inside : r.offset + r.length ≤ capacity_bytes s.arena
  reserved : (count + length ts) * 4 ≤ r.length
  kept : (t.published ≡ s.published) × (t.arena.generation ≡ s.arena.generation)
  written : t.arena.bytes ≡ store_words (r.offset + count * 4) ts s.arena.bytes
  words : AreWords ts
  live : r.generation ≡ s.arena.generation

fit_words-AreWords : (ts : List ℕ) (u : Unit {0}) → fit_words ts ≡ ok u → AreWords ts
unfolding fit_words
fit_words-AreWords [] u h = tt
fit_words-AreWords (t ∷ ts) u h = elim (Result-cases (fit_words ts)) [
  | inr (_, failed) ↦ absurd (ground (arith, failed))
  | inl (v, done) ↦ (ground (arith, done), fit_words-AreWords ts v done)
]

append_reserved-Appended :
    (s : SharedTokenArena) (r : ArenaHandle) (count : ℕ) (ts : List ℕ) (h : ArenaHandle)
    (t : SharedTokenArena)
    → append_reserved s r count ts ≡ ok (h, t)
    → Appended s r count ts h t
unfolding append_reserved arena_handle validate_shared validate_handle within end_offset
append_reserved-Appended s r count ts h t e = elim (Result-cases (fit_words ts)) [
  | inr (_, failed) ↦ absurd (ground (arith, failed))
  | inl (u, done) ↦ let words = fit_words-AreWords ts u done in ground (arith, done, words)
]

-- A shared read passes its tests at a published, whole number of words.
read_shared-ok :
    (s : SharedTokenArena) (h : ArenaHandle) (n : ℕ)
    → h.generation ≡ s.arena.generation
    → h.length ≡ n * 4
    → h.offset + h.length ≤ capacity_bytes s.arena
    → h.offset + h.length ≤ s.published
    → capacity_bytes s.arena < 2 ^ 64 - 1
    → read_shared s h ≡ ok (load_words n h.offset s.arena.bytes)
unfolding read_shared validate_shared validate_handle within end_offset
read_shared-ok s h n current words inside published small =
    let e : h.length / 4 ≡ n = omega arith in
    let m : h.length % 4 ≡ 0 = omega arith in
    let passes : read_shared s h ≡ ok (load_words (h.length / 4) h.offset s.arena.bytes) =
      ground (arith, m) in
    passes ∙ ap (λ k. ok (load_words k h.offset s.arena.bytes)) e

read_shared-same :
    (s t : SharedTokenArena) (g : ArenaHandle)
    → t.arena.generation ≡ s.arena.generation
    → t.published ≡ s.published
    → capacity_bytes t.arena ≡ capacity_bytes s.arena
    → load_words (g.length / 4) g.offset t.arena.bytes
      ≡ load_words (g.length / 4) g.offset s.arena.bytes
    → read_shared t g ≡ read_shared s g
unfolding read_shared validate_shared validate_handle
read_shared-same s t g current published sized words = rw (current, published, sized, words) refl

-- Tokens appended to a reservation, in an arena of fewer than 2^64 - 1 bytes: the returned handle
-- reads as the first `count` tokens that the reservation held followed by the appended ones, and a
-- handle of any range apart from the words written reads exactly as before.
pub read_shared-append_reserved :
    (s : SharedTokenArena) (r : ArenaHandle) (count : ℕ) (ts held : List ℕ) (h : ArenaHandle)
    (t : SharedTokenArena)
    → capacity_bytes s.arena < 2 ^ 64 - 1
    → read_shared s (record r { length = count * 4 }) ≡ ok held
    → append_reserved s r count ts ≡ ok (h, t)
    → (read_shared t h ≡ ok (held ++ ts))
      × ((g : ArenaHandle)
          → (g.offset + g.length ≤ r.offset + count * 4)
            ⊎ (r.offset + (count + length ts) * 4 ≤ g.offset)
          → read_shared t g ≡ read_shared s g)
read_shared-append_reserved s r count ts held h t small old e = (
  read_shared-ok t h (count + length ts) (ended.current ∙ sym ended.kept.1) ended.sized
        (omega (arith, cap, ended.offset, ended.sized, ended.inside, ended.reserved))
        (omega (arith, ended.kept.0, ended.offset, ended.sized, ended.published, ended.reserved))
        (omega (arith, cap))
      ∙ ap ok both,
  λ g apart. read_shared-same s t g ended.kept.1 ended.kept.0 cap (
      rw ended.written
        (load_words-store_words_ne (g.length / 4) g.offset start ts s.arena.bytes (clear g apart))),
)
  where
    ended : Appended s r count ts h t
    ended = append_reserved-Appended s r count ts h t e

    start : ℕ
    start = r.offset + count * 4

    cap : capacity_bytes t.arena ≡ capacity_bytes s.arena
    cap = ap length ended.written ∙ length-store_words start ts s.arena.bytes

    clear :
        (g : ArenaHandle)
        → (g.offset + g.length ≤ r.offset + count * 4)
          ⊎ (r.offset + (count + length ts) * 4 ≤ g.offset)
        → (g.offset + 4 * (g.length / 4) ≤ start) ⊎ (start + 4 * length ts ≤ g.offset)
    clear g (inl before) = inl (omega arith)
    clear g (inr behind) = inr (omega arith)

    prefix : load_words count r.offset s.arena.bytes ≡ held
    prefix =
        let again : read_shared s (record r { length = count * 4 })
            ≡ ok (load_words count r.offset s.arena.bytes) =
          read_shared-ok s (record r { length = count * 4 }) count ended.live refl
            (omega (arith, ended.inside, ended.reserved))
            (omega (arith, ended.published, ended.reserved)) small in
        cc

    both : load_words (count + length ts) h.offset t.arena.bytes ≡ held ++ ts
    both =
        rw (ended.offset, ended.written)
          (load_words-add count (length ts) r.offset (store_words start ts s.arena.bytes)
            ∙ ap₂ ◌++◌
                (load_words-store_words_ne count r.offset start ts s.arena.bytes (inl (omega arith))
                  ∙ prefix)
                (ap (λ k. load_words (length ts) k (store_words start ts s.arena.bytes)) behind
                  ∙ load_words-store_words start ts s.arena.bytes ended.words
                      (omega (arith, ended.inside, ended.reserved))))
      where
        behind : r.offset + 4 * count ≡ start
        behind = omega arith
