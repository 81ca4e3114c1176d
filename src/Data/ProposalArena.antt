-- ===== src/Data/ProposalArena.antt =====
-- nebulasd/src/nebulasd/data/proposal_arena.py: draft proposals in a byte arena, released in the
-- order they were written. `ProposalKind` is the enumeration of nebulasd/src/nebulasd/core/enums.py
-- by its numbers; the set of live handles is a list.
pub mod Proposals
use nebula_sd.Common.{
  ℕ, ◌+◌, ◌*◌, ◌^◌, Bool, not, ◌&&◌, ◌||◌, List, [], ◌∷◌, ◌++◌, Result, ok, err, ◌>>=◌, ◌>>◌,
  raise_if, value_error, index_error, key_error, struct_error, proposal_arena_error, ltb, leb, ◌==◌,
  length, replicate, sum_of, any, if◌then◌else◌, map,
}
use nebula_sd.Common.Bytes.{slice, splice}
use nebula_sd.Common.Words.{to_bytes, from_bytes, store_words, load_words}
use nebula_sd.Core.Ids.{u32, validate, next}
use nebula_sd.Core.Handles.{ArenaHandle, arena_handle, within}

-- `enum_type(value)`: LINEAR = 1, DFLASH_BLOCK = 2, TREE = 3.
unfoldable pub validate_kind : ℕ → Result ℕ
validate_kind kind = do raise_if ((kind == 0) || ltb 3 kind) value_error; ok kind

pub record ProposalPayload : Type 0 where
  pub kind : ℕ
  pub draft_token_ids : List ℕ

-- `_token` on each of the tokens.
unfoldable pub draft_tokens : List ℕ → Result (List ℕ)
unfolding validate
draft_tokens [] = ok []
draft_tokens (t ∷ ts) = do token ← validate u32 t; rest ← draft_tokens ts; ok (token ∷ rest)

-- The constructor with the checks of `__post_init__`.
unfoldable pub proposal_payload : ℕ → List ℕ → Result ProposalPayload
proposal_payload kind draft_token_ids = do
  kind ← validate_kind kind
  tokens ← draft_tokens draft_token_ids
  ok (record { kind = kind; draft_token_ids = tokens })

pub record Allocation : Type 0 where
  pub offset : ℕ
  pub size : ℕ
  pub generation : ℕ

unfoldable pub end : Allocation → ℕ
end a = a.offset + a.size

pub record ProposalArena : Type 0 where
  pub bytes : List ℕ
  pub generation : ℕ
  pub head : ℕ
  pub tail : ℕ
  pub allocations : List Allocation
  pub live_handles : List ArenaHandle

abbrev pub capacity_bytes : ProposalArena → ℕ
capacity_bytes a = length a.bytes

unfoldable pub init : ℕ → ℕ → Result ProposalArena
unfolding validate
init capacity_bytes generation = do
  validate u32 capacity_bytes
  validate u32 generation
  raise_if (capacity_bytes == 0) value_error
  ok (record {
    bytes = replicate capacity_bytes 0;
    generation = generation;
    head = 0;
    tail = 0;
    allocations = [];
    live_handles = [];
  })

-- `token.to_bytes(4, "little")` of every token.
unfoldable pub token_bytes : List ℕ → List ℕ
unfolding to_bytes
token_bytes [] = []
token_bytes (t ∷ ts) = to_bytes 4 t ++ token_bytes ts

-- `_encode_payload`; packing the two words of the header raises for a number that needs more than
-- four bytes.
unfoldable pub encode_payload : ProposalPayload → Result (List ℕ)
unfolding to_bytes token_bytes
encode_payload p = do
  raise_if (leb (2 ^ 32) p.kind || leb (2 ^ 32) (length p.draft_token_ids)) struct_error
  ok (to_bytes 4 p.kind ++ (to_bytes 4 (length p.draft_token_ids) ++ token_bytes p.draft_token_ids))

unfoldable pub encode_payloads : List ProposalPayload → Result (List (List ℕ))
encode_payloads [] = ok []
encode_payloads (p ∷ ps) = do raw ← encode_payload p; raws ← encode_payloads ps; ok (raw ∷ raws)

-- `_prefix_offsets`
unfoldable pub prefix_offsets : ℕ → List ℕ → List ℕ
prefix_offsets start [] = []
prefix_offsets start (l ∷ ls) = start ∷ prefix_offsets (start + l) ls

-- `_reserve_many`; the answer is the offsets and the new head.
unfoldable pub reserve_many : ProposalArena → List ℕ → Result (List ℕ × ℕ)
unfolding prefix_offsets
reserve_many a lengths = do
  raise_if (any (λ l. l == 0) lengths) proposal_arena_error
  let total = sum_of (λ l. l) lengths
  raise_if (ltb (capacity_bytes a) (a.head + total)) proposal_arena_error
  ok (prefix_offsets a.head lengths, a.head + total)

-- One payload put at its offset.
unfoldable pub place : ProposalArena → ℕ → List ℕ → Result (ArenaHandle × ProposalArena)
place a offset raw = do
  handle ← arena_handle offset (length raw) a.generation
  ok (
    handle,
    record a {
      bytes = splice offset raw a.bytes;
      allocations =
          a.allocations
          ++ (record { offset = offset; size = length raw; generation = a.generation }) ∷ [];
      live_handles = handle ∷ a.live_handles;
    },
  )

-- `zip(offsets, raws, strict=True)`
unfoldable pub place_all :
    ProposalArena → List ℕ → List (List ℕ) → Result (List ArenaHandle × ProposalArena)
place_all a [] [] = ok ([], a)
place_all a (o ∷ os) (raw ∷ raws) = do
  placed ← place a o raw
  rest ← place_all placed.1 os raws
  ok (placed.0 ∷ rest.0, rest.1)
place_all a os raws = err value_error

unfoldable pub write_proposals :
    ProposalArena → List ProposalPayload → Result (List ArenaHandle × ProposalArena)
write_proposals a payloads = if length payloads == 0 then ok ([], a) else (do
  raws ← encode_payloads payloads
  raise_if (any (λ (raw : List ℕ). ltb (capacity_bytes a) (length raw)) raws) proposal_arena_error
  reserved ← reserve_many a (map length raws)
  place_all (record a { head = reserved.1 }) reserved.0 raws)

-- `_matches`
unfoldable pub matches : ArenaHandle → Allocation → Bool
matches h a = (h.offset == a.offset) && (h.length == a.size) && (h.generation == a.generation)

-- `_validate_handle`
unfoldable pub validate_handle : ProposalArena → ArenaHandle → Result (Unit {0})
unfolding within
validate_handle a h = do
  raise_if (not (h.generation == a.generation)) proposal_arena_error
  inside ← within h (capacity_bytes a)
  raise_if (not inside) proposal_arena_error

unfoldable pub same_handle : ArenaHandle → ArenaHandle → Bool
same_handle g h = (g.offset == h.offset) && (g.length == h.length) && (g.generation == h.generation)

unfoldable pub remove_handle : ArenaHandle → List ArenaHandle → List ArenaHandle
unfolding same_handle
remove_handle h [] = []
remove_handle h (g ∷ gs) = if same_handle g h then remove_handle h gs else g ∷ remove_handle h gs

-- The tests of `release_many`, the handles against the oldest allocations.
unfoldable pub in_order : ProposalArena → List ArenaHandle → List Allocation → Result (Unit {0})
unfolding validate_handle matches
in_order a [] xs = ok tt
in_order a (h ∷ hs) [] = ok tt
in_order a (h ∷ hs) (x ∷ xs) = do
  validate_handle a h
  raise_if (not (matches h x)) proposal_arena_error
  in_order a hs xs

-- `set.remove` raises for a handle that is not there.
unfoldable pub release_loop : ProposalArena → List ArenaHandle → Result ProposalArena
release_loop a [] = ok a
release_loop a (h ∷ hs) = elim a.allocations [
  | [] ↦ err index_error
  | x ∷ xs ↦
      if any (λ g. same_handle g h) a.live_handles
      then release_loop
          (record a {
            allocations = xs;
            live_handles = remove_handle h a.live_handles;
            tail = end x;
          })
          hs
      else err key_error
]

unfoldable pub settle : ProposalArena → ProposalArena
settle a = elim a.allocations [ [] ↦ record a { tail = a.head } | x ∷ xs ↦ a ]

unfoldable pub release_many : ProposalArena → List ArenaHandle → Result ProposalArena
release_many a handles = if length handles == 0 then ok a else (do
  raise_if (ltb (length a.allocations) (length handles)) proposal_arena_error
  in_order a handles a.allocations
  released ← release_loop a handles
  ok (settle released))

unfoldable pub reset_quiescent : ProposalArena → Result ProposalArena
reset_quiescent a = do
  raise_if (not (length a.allocations == 0)) proposal_arena_error
  generation ← next u32 a.generation
  ok (record a { head = 0; tail = 0; live_handles = []; generation = generation })

unfoldable pub read_proposal : ProposalArena → ArenaHandle → Result ProposalPayload
read_proposal a h = do
  validate_handle a h
  raise_if (not (any (λ g. same_handle g h) a.live_handles)) proposal_arena_error
  raise_if (ltb h.length 8) proposal_arena_error
  let kind = from_bytes (slice h.offset 4 a.bytes)
  let count = from_bytes (slice (h.offset + 4) 4 a.bytes)
  raise_if (not (h.length == 8 + count * 4)) proposal_arena_error
  kind ← validate_kind kind
  proposal_payload kind (load_words count (h.offset + 8) a.bytes)
