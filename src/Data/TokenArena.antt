-- ===== src/Data/TokenArena.antt =====
-- nebulasd/src/nebulasd/data/token_arena.py, and `_SharedPayload` and `SharedTokenArena` of
-- nebulasd/src/nebulasd/data/shared_arenas.py: append-only arenas of 4-byte token ids.
-- The mapped segment is the byte list; its first word, read by `sd_load` and written by `sd_store`,
-- is the field `published`.
pub mod Tokens
use nebula_sd.Common.{
  ℕ, ◌+◌, ◌*◌, ◌/◌, ◌%◌, ◌^◌, Bool, not, List, [], ◌∷◌, ◌++◌, Result, ok, err, ◌>>=◌, ◌>>◌,
  raise_if, value_error, runtime_error, overflow_error, token_arena_error, ltb, leb, ◌==◌, length,
  replicate, sum_of, if◌then◌else◌, map,
}
use nebula_sd.Common.Words.{store_words, load_words}
use nebula_sd.Core.Ids.{u32, validate, next}
use nebula_sd.Core.Handles.{ArenaHandle, arena_handle, within}

pub record TokenArena : Type 0 where
  pub bytes : List ℕ
  pub generation : ℕ
  pub head : ℕ

abbrev pub capacity_bytes : TokenArena → ℕ
capacity_bytes a = length a.bytes

unfoldable pub init : ℕ → ℕ → Result TokenArena
unfolding validate
init capacity_bytes generation = do
  validate u32 capacity_bytes
  validate u32 generation
  raise_if (capacity_bytes == 0) value_error
  ok (record { bytes = replicate capacity_bytes 0; generation = generation; head = 0 })

-- `tuple(_token(token) for token in token_ids)`
unfoldable pub checked_tokens : List ℕ → Result (List ℕ)
checked_tokens [] = ok []
checked_tokens (t ∷ ts) = do token ← validate u32 t; rest ← checked_tokens ts; ok (token ∷ rest)

-- One batch, written at the head.
unfoldable pub append_batch : TokenArena → List ℕ → TokenArena
append_batch a tokens = record a {
  bytes = store_words a.head tokens a.bytes;
  head = a.head + length tokens * 4;
}

unfoldable pub write_tokens : TokenArena → List ℕ → Result (ArenaHandle × TokenArena)
write_tokens a token_ids = do
  tokens ← checked_tokens token_ids
  validate u32 (length tokens * 4)
  raise_if (ltb (capacity_bytes a) (a.head + length tokens * 4)) token_arena_error
  handle ← arena_handle a.head (length tokens * 4) a.generation
  ok (handle, append_batch a tokens)

-- The tests of `write_token_batches` on every batch, before anything is written.
unfoldable pub checked_batches : List (List ℕ) → Result (List (List ℕ))
checked_batches [] = ok []
checked_batches (b ∷ bs) = do batch ← checked_tokens b; rest ← checked_batches bs; ok (batch ∷ rest)

unfoldable pub checked_lengths : List (List ℕ) → Result (Unit {0})
checked_lengths [] = ok tt
checked_lengths (b ∷ bs) = do validate u32 (length b * 4); checked_lengths bs

unfoldable pub append_batches : TokenArena → List (List ℕ) → Result (List ArenaHandle × TokenArena)
append_batches a [] = ok ([], a)
append_batches a (b ∷ bs) = do
  handle ← arena_handle a.head (length b * 4) a.generation
  rest ← append_batches (append_batch a b) bs
  ok (handle ∷ rest.0, rest.1)

unfoldable pub write_token_batches :
    TokenArena → List (List ℕ) → Result (List ArenaHandle × TokenArena)
write_token_batches a batches = do
  normalized ← checked_batches batches
  checked_lengths normalized
  raise_if (ltb (capacity_bytes a) (a.head + sum_of (λ (b : List ℕ). length b * 4) normalized))
      token_arena_error
  append_batches a normalized

-- `_validate_handle`
unfoldable pub validate_handle : TokenArena → ArenaHandle → Result (Unit {0})
unfolding within
validate_handle a h = do
  raise_if (not (h.generation == a.generation)) token_arena_error
  inside ← within h (capacity_bytes a)
  raise_if (not inside) token_arena_error

unfoldable pub read_tokens : TokenArena → ArenaHandle → Result (List ℕ)
read_tokens a h = do
  validate_handle a h
  raise_if (not (h.length % 4 == 0)) token_arena_error
  ok (load_words (h.length / 4) h.offset a.bytes)

unfoldable pub reset_quiescent : TokenArena → Result TokenArena
reset_quiescent a = do
  generation ← next u32 a.generation
  ok (record a { head = 0; generation = generation })

pub record SharedTokenArena : Type 0 where
  pub arena : TokenArena
  pub published : ℕ
  pub writer : Bool

-- `_before_write`
unfoldable pub before_write : SharedTokenArena → Result (Unit {0})
before_write s = raise_if (not s.writer) runtime_error

-- `_commit`
unfoldable pub commit : SharedTokenArena → TokenArena → SharedTokenArena
commit s a = record s { arena = a; published = a.head }

-- `_SharedPayload._validate_handle`
unfoldable pub validate_shared : SharedTokenArena → ArenaHandle → Result (Unit {0})
unfolding validate_handle
validate_shared s h = do
  validate_handle s.arena h
  raise_if (ltb s.published (h.offset + h.length)) value_error

unfoldable pub read_shared : SharedTokenArena → ArenaHandle → Result (List ℕ)
read_shared s h = do
  validate_shared s h
  raise_if (not (h.length % 4 == 0)) token_arena_error
  ok (load_words (h.length / 4) h.offset s.arena.bytes)

unfoldable pub write_shared :
    SharedTokenArena → List (List ℕ) → Result (List ArenaHandle × SharedTokenArena)
write_shared s batches = do
  before_write s
  written ← write_token_batches s.arena batches
  ok (written.0, commit s written.1)

-- `t.to_bytes(4, "little")` raises for a token of more than four bytes.
unfoldable pub fit_words : List ℕ → Result (Unit {0})
fit_words [] = ok tt
fit_words (t ∷ ts) = do raise_if (leb (2 ^ 32) t) overflow_error; fit_words ts

-- `append_reserved`: the tokens go behind the first `count` of the reserved range.
unfoldable pub append_reserved :
    SharedTokenArena → ArenaHandle → ℕ → List ℕ → Result (ArenaHandle × SharedTokenArena)
append_reserved s reservation count tokens = do
  validate_shared s reservation
  raise_if (ltb reservation.length ((count + length tokens) * 4)) value_error
  fit_words tokens
  handle ← arena_handle reservation.offset ((count + length tokens) * 4) reservation.generation
  ok (
    handle,
    record s {
      arena = record s.arena {
        bytes = store_words (reservation.offset + count * 4) tokens s.arena.bytes;
      };
    },
  )

-- `append_output` is the owner's form of the same.
unfoldable pub append_output :
    SharedTokenArena → ArenaHandle → ℕ → List ℕ → Result (ArenaHandle × SharedTokenArena)
append_output s reservation count tokens = do
  before_write s
  append_reserved s reservation count tokens

unfoldable pub recycle_quiescent : SharedTokenArena → ℕ → Result SharedTokenArena
recycle_quiescent s stride = do
  validate u32 (s.arena.generation + stride)
  let a : TokenArena = record s.arena { generation = s.arena.generation + stride; head = 0 }
  ok (if s.writer then commit s a else record s { arena = a })
