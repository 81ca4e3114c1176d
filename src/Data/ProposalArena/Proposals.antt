-- ===== src/Data/ProposalArena/Proposals.antt =====
-- The proposals that reads of nebulasd/src/nebulasd/data/proposal_arena.py return after a write.
use nebula_sd.Common.{
  ℕ, zero, suc, ◌+◌, ◌-◌, ◌*◌, ◌^◌, ◌≤◌, ◌<◌, ◌≡◌, refl, sym, ap, ◌∙◌, inl, inr, List, [], ◌∷◌,
  ◌++◌, length, length-append, ok, any, arith, Result-cases, Bool-cases, true,
}
use mathlib.Core.Path.{ap₂}
use nebula_sd.Common.Bytes.{
  slice, splice, length-splice, slice-splice_self, slice-splice_before, splice-append,
}
use nebula_sd.Common.Words.{
  to_bytes, from_bytes, length-to_bytes, from_bytes-to_bytes, store_words, load_words,
  length-store_words, slice-store_words, load_words-store_words, AreWords,
}
use nebula_sd.Core.Ids.{validate, is_valid, modulus}
use nebula_sd.Core.Handles.{ArenaHandle, arena_handle, within, end_offset}
use nebula_sd.Data.ProposalArena.{
  ProposalPayload, validate_kind, draft_tokens, proposal_payload, ProposalArena, capacity_bytes,
  token_bytes, encode_payload, encode_payloads, reserve_many, place, place_all, write_proposals,
  validate_handle, same_handle, read_proposal, prefix_offsets,
}

splice-token_bytes :
    (at : ℕ) (ts buf : List ℕ) → splice at (token_bytes ts) buf ≡ store_words at ts buf
unfolding token_bytes store_words splice
splice-token_bytes at [] [] = refl
splice-token_bytes zero [] (x ∷ buf) = refl
splice-token_bytes (suc at) [] (x ∷ buf) = ap (◌∷◌ x) (splice-token_bytes at [] buf)
splice-token_bytes at (t ∷ ts) buf =
    splice-append at (to_bytes 4 t) (token_bytes ts) buf
    ∙ ap (λ k. splice (at + k) (token_bytes ts) (splice at (to_bytes 4 t) buf))
        (length-to_bytes 4 t)
    ∙ splice-token_bytes (at + 4) ts (splice at (to_bytes 4 t) buf)

length-token_bytes : (ts : List ℕ) → length (token_bytes ts) ≡ length ts * 4
unfolding token_bytes
length-token_bytes [] = omega arith
length-token_bytes (t ∷ ts) = omega (
  arith,
  length-append (to_bytes 4 t) (token_bytes ts),
  length-to_bytes 4 t,
  length-token_bytes ts,
)

draft_tokens-eq-ok : (ts us : List ℕ) → draft_tokens ts ≡ ok us → (us ≡ ts) × AreWords ts
unfolding draft_tokens validate modulus is_valid
draft_tokens-eq-ok [] us h = (ground arith, tt)
draft_tokens-eq-ok (t ∷ ts) us h = elim (Result-cases (draft_tokens ts)) [
  | inr (_, failed) ↦ absurd (ground (arith, failed))
  | inl (vs, done) ↦
      let rest : (vs ≡ ts) × AreWords ts = draft_tokens-eq-ok ts vs done in
      let here : (us ≡ t ∷ vs) × (t < 2 ^ 32) = ground (arith, done) in
      (here.0 ∙ ap (◌∷◌ t) rest.0, (here.1, rest.1))
]

-- The buffer after a payload is written at an offset: the kind, the count and the tokens.
written : ℕ → ProposalPayload → List ℕ → List ℕ
written o p buf =
    store_words (o + 4 + 4) p.draft_token_ids
      (splice (o + 4) (to_bytes 4 (length p.draft_token_ids)) (splice o (to_bytes 4 p.kind) buf))

splice-encoded :
    (o : ℕ) (p : ProposalPayload) (buf : List ℕ)
    → splice o
        (to_bytes 4 p.kind
          ++ (to_bytes 4 (length p.draft_token_ids) ++ token_bytes p.draft_token_ids))
        buf
      ≡ written o p buf
unfolding written
splice-encoded o p buf =
    splice-append o (to_bytes 4 p.kind)
      (to_bytes 4 (length p.draft_token_ids) ++ token_bytes p.draft_token_ids) buf
    ∙ ap
        (λ k.
          splice (o + k) (to_bytes 4 (length p.draft_token_ids) ++ token_bytes p.draft_token_ids)
            (splice o (to_bytes 4 p.kind) buf))
        (length-to_bytes 4 p.kind)
    ∙ splice-append (o + 4) (to_bytes 4 (length p.draft_token_ids)) (token_bytes p.draft_token_ids)
        (splice o (to_bytes 4 p.kind) buf)
    ∙ ap
        (λ k. splice (o + 4 + k) (token_bytes p.draft_token_ids) (
          splice (o + 4) (to_bytes 4 (length p.draft_token_ids))
            (splice o (to_bytes 4 p.kind) buf)))
        (length-to_bytes 4 (length p.draft_token_ids))
    ∙ splice-token_bytes (o + 4 + 4) p.draft_token_ids
        (splice (o + 4) (to_bytes 4 (length p.draft_token_ids)) (splice o (to_bytes 4 p.kind) buf))

-- How a write of one payload ended.
record Written (a : ProposalArena) (p : ProposalPayload) (h : ArenaHandle) (b : ProposalArena)
    : Type 0 where
  offset : h.offset ≡ a.head
  sized : h.length ≡ 8 + length p.draft_token_ids * 4
  current : (h.generation ≡ a.generation) × (b.generation ≡ a.generation)
  fits : a.head + (8 + length p.draft_token_ids * 4) ≤ capacity_bytes a
  bytes : b.bytes ≡ written a.head p a.bytes
  live : b.live_handles ≡ h ∷ a.live_handles
  small : (p.kind < 2 ^ 32) × (length p.draft_token_ids < 2 ^ 32)

write_proposals-Written :
    (a : ProposalArena) (p : ProposalPayload) (h : ArenaHandle) (b : ProposalArena)
    → write_proposals a (p ∷ []) ≡ ok (h ∷ [], b)
    → Written a p h b
unfolding write_proposals encode_payloads encode_payload reserve_many place_all place arena_handle
    prefix_offsets
write_proposals-Written a p h b e =
    let raw : List ℕ =
      to_bytes 4 p.kind
      ++ (to_bytes 4 (length p.draft_token_ids) ++ token_bytes p.draft_token_ids) in
    let size : length raw ≡ 8 + length p.draft_token_ids * 4 = omega (
      arith,
      length-append (to_bytes 4 p.kind)
          (to_bytes 4 (length p.draft_token_ids) ++ token_bytes p.draft_token_ids),
      length-append (to_bytes 4 (length p.draft_token_ids)) (token_bytes p.draft_token_ids),
      length-to_bytes 4 p.kind,
      length-to_bytes 4 (length p.draft_token_ids),
      length-token_bytes p.draft_token_ids,
    ) in
    let put = splice-encoded a.head p a.bytes in ground (arith, size, put)

length-written :
    (o : ℕ) (p : ProposalPayload) (buf : List ℕ) → length (written o p buf) ≡ length buf
unfolding written
length-written o p buf =
    length-store_words (o + 4 + 4) p.draft_token_ids
      (splice (o + 4) (to_bytes 4 (length p.draft_token_ids)) (splice o (to_bytes 4 p.kind) buf))
    ∙ length-splice (o + 4) (to_bytes 4 (length p.draft_token_ids))
        (splice o (to_bytes 4 p.kind) buf)
    ∙ length-splice o (to_bytes 4 p.kind) buf

slice-word :
    (o n : ℕ) (buf : List ℕ)
    → o + 4 ≤ length buf
    → slice o 4 (splice o (to_bytes 4 n) buf) ≡ to_bytes 4 n
slice-word o n buf fits =
    ap (λ k. slice o k (splice o (to_bytes 4 n) buf)) (sym (length-to_bytes 4 n))
    ∙ slice-splice_self o (to_bytes 4 n) buf (omega (arith, length-to_bytes 4 n))

-- The three parts of a payload that was written.
written-parts :
    (o : ℕ) (p : ProposalPayload) (buf : List ℕ)
    → o + (8 + length p.draft_token_ids * 4) ≤ length buf
    → p.kind < 2 ^ 32
    → length p.draft_token_ids < 2 ^ 32
    → AreWords p.draft_token_ids
    → (from_bytes (slice o 4 (written o p buf)) ≡ p.kind)
      × (from_bytes (slice (o + 4) 4 (written o p buf)) ≡ length p.draft_token_ids)
      × (load_words (length p.draft_token_ids) (o + 8) (written o p buf) ≡ p.draft_token_ids)
unfolding written
written-parts o p buf fits kind_small count_small words = (
  ap from_bytes (
        slice-store_words o 4 (o + 4 + 4) p.draft_token_ids two (inl (omega arith))
        ∙ slice-splice_before o 4 (o + 4) (to_bytes 4 (length p.draft_token_ids)) one (omega arith)
        ∙ slice-word o p.kind buf (omega arith))
      ∙ from_bytes-to_bytes 4 p.kind (omega arith),
  ap from_bytes (
        slice-store_words (o + 4) 4 (o + 4 + 4) p.draft_token_ids two (inl (omega arith))
        ∙ slice-word (o + 4) (length p.draft_token_ids) one (omega (arith, size_one)))
      ∙ from_bytes-to_bytes 4 (length p.draft_token_ids) (omega arith),
  ap (λ k. load_words (length p.draft_token_ids) k (written o p buf)) behind
      ∙ load_words-store_words (o + 4 + 4) p.draft_token_ids two words (omega (arith, size_two)),
)
  where
    one : List ℕ
    one = splice o (to_bytes 4 p.kind) buf

    two : List ℕ
    two = splice (o + 4) (to_bytes 4 (length p.draft_token_ids)) one

    size_one : length one ≡ length buf
    size_one = length-splice o (to_bytes 4 p.kind) buf

    size_two : length two ≡ length buf
    size_two = length-splice (o + 4) (to_bytes 4 (length p.draft_token_ids)) one ∙ size_one

    behind : o + 8 ≡ o + 4 + 4
    behind = omega arith

-- A range below what is written keeps its bytes.
slice-written :
    (at n o : ℕ) (p : ProposalPayload) (buf : List ℕ)
    → at + n ≤ o
    → slice at n (written o p buf) ≡ slice at n buf
unfolding written
slice-written at n o p buf below =
    let one = splice o (to_bytes 4 p.kind) buf in
    let two = splice (o + 4) (to_bytes 4 (length p.draft_token_ids)) one in
    slice-store_words at n (o + 4 + 4) p.draft_token_ids two (inl (omega arith))
    ∙ slice-splice_before at n (o + 4) (to_bytes 4 (length p.draft_token_ids)) one (omega arith)
    ∙ slice-splice_before at n o (to_bytes 4 p.kind) buf below

load_words-written :
    (n at o : ℕ) (p : ProposalPayload) (buf : List ℕ)
    → at + 4 * n ≤ o
    → load_words n at (written o p buf) ≡ load_words n at buf
unfolding load_words
load_words-written zero at o p buf below = refl
load_words-written (suc n) at o p buf below =
    ap₂ (λ b bs. from_bytes b ∷ bs) (slice-written at 4 o p buf (omega arith))
      (load_words-written n (at + 4) o p buf (omega arith))

proposal_payload-words :
    (p : ProposalPayload)
    → proposal_payload p.kind p.draft_token_ids ≡ ok p
    → AreWords p.draft_token_ids × (validate_kind p.kind ≡ ok p.kind)
unfolding proposal_payload validate_kind
proposal_payload-words p h = elim (Result-cases (draft_tokens p.draft_token_ids)) [
  | inr (_, failed) ↦ absurd (ground (arith, failed))
  | inl (us, done) ↦
      let words : AreWords p.draft_token_ids = (draft_tokens-eq-ok p.draft_token_ids us done).1 in
      let kind : validate_kind p.kind ≡ ok p.kind = ground (arith, done) in (words, kind)
]

-- The words that a read of a handle takes, when its tests pass.
record Words (b : ProposalArena) (h : ArenaHandle) (kind : ℕ) (ts : List ℕ) : Type 0 where
  current : h.generation ≡ b.generation
  inside : h.offset + h.length ≤ capacity_bytes b
  live : any (λ g. same_handle g h) b.live_handles ≡ true
  sized : h.length ≡ 8 + length ts * 4
  kind_word : from_bytes (slice h.offset 4 b.bytes) ≡ kind
  count_word : from_bytes (slice (h.offset + 4) 4 b.bytes) ≡ length ts
  token_words : load_words (length ts) (h.offset + 8) b.bytes ≡ ts

Words-read_proposal :
    (b : ProposalArena) (h : ArenaHandle) (kind : ℕ) (ts : List ℕ)
    → Words b h kind ts
    → capacity_bytes b < 2 ^ 64 - 1
    → validate_kind kind ≡ ok kind
    → read_proposal b h ≡ proposal_payload kind ts
unfolding read_proposal validate_handle within end_offset
Words-read_proposal b h kind ts w small known =
    rw (w.live, w.kind_word, w.count_word, w.token_words, known)
      (ground (arith, w.current, w.inside, w.sized))

same_handle_refl : (h : ArenaHandle) → same_handle h h ≡ true
unfolding same_handle
same_handle_refl h = ground arith

write_proposals-read_new :
    (a : ProposalArena) (p : ProposalPayload) (h : ArenaHandle) (b : ProposalArena)
    → proposal_payload p.kind p.draft_token_ids ≡ ok p
    → capacity_bytes a < 2 ^ 64 - 1
    → Written a p h b
    → read_proposal b h ≡ ok p
write_proposals-read_new a p h b valid small w =
    let payload = proposal_payload-words p valid in
    let size : capacity_bytes b ≡ capacity_bytes a =
      ap length w.bytes ∙ length-written a.head p a.bytes in
    let parts = written-parts a.head p a.bytes w.fits w.small.0 w.small.1 payload.0 in
    let words : Words b h p.kind p.draft_token_ids = record {
      current = w.current.0 ∙ sym w.current.1;
      inside = omega (arith, w.offset, w.sized, w.fits, size);
      live = rw w.live (rw (same_handle_refl h) refl);
      sized = w.sized;
      kind_word = rw (w.offset, w.bytes) parts.0;
      count_word = rw (w.offset, w.bytes) parts.1;
      token_words = rw (w.offset, w.bytes) parts.2;
    } in
    Words-read_proposal b h p.kind p.draft_token_ids words (omega (arith, size)) payload.1 ∙ valid

-- What a read that succeeds has tested.
read_proposal-tests :
    (a : ProposalArena) (g : ArenaHandle) (q : ProposalPayload)
    → read_proposal a g ≡ ok q
    → (any (λ x. same_handle x g) a.live_handles ≡ true)
      × (g.length ≡ 8 + from_bytes (slice (g.offset + 4) 4 a.bytes) * 4)
unfolding read_proposal
read_proposal-tests a g q h = elim (Result-cases (validate_handle a g)) [
  | inr (_, failed) ↦ absurd (ground (arith, failed))
  | inl (u, done) ↦ ground (arith, done)
]

-- A read depends on the generation, the size, the live handles and the words of its range.
read_proposal-same :
    (a b : ProposalArena) (g : ArenaHandle)
    → b.generation ≡ a.generation
    → capacity_bytes b ≡ capacity_bytes a
    → any (λ x. same_handle x g) b.live_handles ≡ any (λ x. same_handle x g) a.live_handles
    → slice g.offset 4 b.bytes ≡ slice g.offset 4 a.bytes
    → slice (g.offset + 4) 4 b.bytes ≡ slice (g.offset + 4) 4 a.bytes
    → load_words (from_bytes (slice (g.offset + 4) 4 a.bytes)) (g.offset + 8) b.bytes
      ≡ load_words (from_bytes (slice (g.offset + 4) 4 a.bytes)) (g.offset + 8) a.bytes
    → read_proposal b g ≡ read_proposal a g
unfolding read_proposal validate_handle
read_proposal-same a b g current size live kind_word count_word token_words =
    rw (current, size, live, kind_word, count_word, token_words) refl

write_proposals-read_old :
    (a : ProposalArena) (p : ProposalPayload) (h : ArenaHandle) (b : ProposalArena)
    (g : ArenaHandle) (q : ProposalPayload)
    → Written a p h b
    → g.offset + g.length ≤ a.head
    → read_proposal a g ≡ ok q
    → read_proposal b g ≡ ok q
write_proposals-read_old a p h b g q w below old =
    let tests = read_proposal-tests a g q old in
    let count = from_bytes (slice (g.offset + 4) 4 a.bytes) in
    let still : any (λ x. same_handle x g) (h ∷ a.live_handles) ≡ true =
      elim (Bool-cases (same_handle h g)) [
        | inl found ↦ rw found refl
        | inr other ↦ rw other tests.0
      ] in
    read_proposal-same a b g w.current.1 (ap length w.bytes ∙ length-written a.head p a.bytes)
      (rw w.live (still ∙ sym tests.0))
      (rw w.bytes (slice-written g.offset 4 a.head p a.bytes (omega (arith, tests))))
      (rw w.bytes (slice-written (g.offset + 4) 4 a.head p a.bytes (omega (arith, tests))))
      (rw w.bytes (load_words-written count (g.offset + 8) a.head p a.bytes (omega (arith, tests))))
    ∙ old

-- A payload that passes its constructor's tests and is written, in an arena of fewer than 2^64 - 1
-- bytes, is read back through its handle, and a handle below the arena's head that reads a proposal
-- still reads the same one.
pub read_proposal-write_proposals :
    (a : ProposalArena) (p : ProposalPayload) (h : ArenaHandle) (b : ProposalArena)
    → proposal_payload p.kind p.draft_token_ids ≡ ok p
    → capacity_bytes a < 2 ^ 64 - 1
    → write_proposals a (p ∷ []) ≡ ok (h ∷ [], b)
    → (read_proposal b h ≡ ok p)
      × ((g : ArenaHandle) (q : ProposalPayload)
          → g.offset + g.length ≤ a.head
          → read_proposal a g ≡ ok q
          → read_proposal b g ≡ ok q)
read_proposal-write_proposals a p h b valid small e =
    let w = write_proposals-Written a p h b e in
    (
      write_proposals-read_new a p h b valid small w,
      λ g q below old. write_proposals-read_old a p h b g q w below old,
    )
