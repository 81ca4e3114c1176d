-- ===== src/Data/Examples.antt =====
-- Concrete writes to the arenas of tokens and of proposals.
use nebula_sd.Common.{◌+◌, ◌≤◌, ◌≡◌, refl, ◌⊎◌, true, [], ◌∷◌, ◌++◌, ok, arith, replicate}
use nebula_sd.Common.Bytes.{splice, slice}
use nebula_sd.Common.Words.{store_words, load_words, to_bytes, from_bytes}
use nebula_sd.Core.Handles.{ArenaHandle, arena_handle}
use nebula_sd.Data.TokenArena.{
  TokenArena, checked_tokens, append_batch, write_tokens, read_tokens, SharedTokenArena,
  append_reserved, read_shared, validate_shared, fit_words,
}
use nebula_sd.Data.TokenArena.Tokens.{read_tokens-write_tokens, read_shared-append_reserved}
use nebula_sd.Data.ProposalArena.{
  ProposalPayload, ProposalArena, proposal_payload, validate_kind, draft_tokens, encode_payload,
  encode_payloads, reserve_many, place, place_all, write_proposals, read_proposal, token_bytes,
}
use nebula_sd.Data.ProposalArena.Proposals.{read_proposal-write_proposals}

abbrev tokens : TokenArena
tokens = record { bytes = replicate 16 0; generation = 1; head = 4 }

abbrev two_tokens : ArenaHandle
two_tokens = record { offset = 4; length = 8; generation = 1 }

read_tokens-write_tokens_example :
    (read_tokens (append_batch tokens (300 ∷ 7 ∷ [])) two_tokens ≡ ok (300 ∷ 7 ∷ []))
    × ((g : ArenaHandle)
        → g.offset + g.length ≤ 4
        → read_tokens (append_batch tokens (300 ∷ 7 ∷ [])) g ≡ read_tokens tokens g)
unfolding write_tokens checked_tokens arena_handle
read_tokens-write_tokens_example =
    read_tokens-write_tokens tokens (300 ∷ 7 ∷ []) two_tokens (append_batch tokens (300 ∷ 7 ∷ []))
      (omega arith) refl

abbrev shared : SharedTokenArena
shared = record { arena = record tokens { head = 16 }; published = 16; writer = true }

-- Three tokens' room, of which none is used.
abbrev reservation : ArenaHandle
reservation = record { offset = 4; length = 12; generation = 1 }

abbrev extended : SharedTokenArena
extended = record shared {
  arena = record shared.arena { bytes = store_words 8 (9 ∷ []) shared.arena.bytes };
}

read_shared-append_reserved_example :
    (read_shared extended (record reservation { length = 8 }) ≡ ok (0 ∷ 9 ∷ []))
    × ((g : ArenaHandle)
        → (g.offset + g.length ≤ 8) ⊎ (12 ≤ g.offset)
        → read_shared extended g ≡ read_shared shared g)
unfolding append_reserved read_shared validate_shared fit_words arena_handle load_words slice
    from_bytes
read_shared-append_reserved_example =
    read_shared-append_reserved shared reservation 1 (9 ∷ []) (0 ∷ [])
      (record reservation { length = 8 }) extended (omega arith) refl refl

abbrev proposals : ProposalArena
proposals = record {
  bytes = replicate 32 0;
  generation = 1;
  head = 4;
  tail = 0;
  allocations = [];
  live_handles = [];
}

abbrev linear : ProposalPayload
linear = record { kind = 1; draft_token_ids = 300 ∷ 7 ∷ [] }

abbrev linear_handle : ArenaHandle
linear_handle = record { offset = 4; length = 16; generation = 1 }

abbrev with_linear : ProposalArena
with_linear = record proposals {
  bytes = splice 4 (to_bytes 4 1 ++ (to_bytes 4 2 ++ token_bytes (300 ∷ 7 ∷ []))) (replicate 32 0);
  head = 20;
  allocations = (record { offset = 4; size = 16; generation = 1 }) ∷ [];
  live_handles = linear_handle ∷ [];
}

read_proposal-write_proposals_example :
    (read_proposal with_linear linear_handle ≡ ok linear)
    × ((g : ArenaHandle) (q : ProposalPayload)
        → g.offset + g.length ≤ 4
        → read_proposal proposals g ≡ ok q
        → read_proposal with_linear g ≡ ok q)
unfolding proposal_payload validate_kind draft_tokens write_proposals encode_payloads encode_payload
    reserve_many place_all place arena_handle to_bytes token_bytes
read_proposal-write_proposals_example =
    read_proposal-write_proposals proposals linear linear_handle with_linear refl (omega arith) refl
