-- ===== src/Workers/Completion/Ranges.antt =====
-- The ranges of nebulasd/src/nebulasd/workers/completion.py, and the single write of each.
use nebula_sd.Common.{
  ℕ, ◌+◌, ◌*◌, ◌%◌, ◌≤◌, ◌≡◌, refl, ap, ◌∙◌, sym, inl, inr, List, ◌++◌, some, ok, err,
  runtime_error, length, arith, Result-cases,
}
use nebula_sd.Common.Bytes.{slice, splice, length-splice, slice-splice_self}
use nebula_sd.Common.Words.{to_bytes, from_bytes, length-to_bytes, from_bytes-to_bytes}
use nebula_sd.Workers.Completion.{
  WorkCompletion, CompletionArena, completion_bytes, reserve, check_range, flag, publish,
  pack_header, pack_members,
}

-- A range that is reserved, from an aligned cursor: it starts at the cursor, which moves to the
-- range's end inside the segment and stays aligned, so ranges reserved one after another are
-- disjoint; it holds the flag, the header and `count` members; and it passes the range check.
pub reserve-check_range :
    (a b : CompletionArena) (count o : ℕ)
    → a.next_offset % 8 ≡ 0
    → reserve a count ≡ (some o, b)
    → (o ≡ a.next_offset)
      × (b.next_offset ≡ o + completion_bytes count)
      × (b.next_offset % 8 ≡ 0)
      × (b.next_offset ≤ length b.bytes)
      × (48 + count * 24 ≤ completion_bytes count)
      × (check_range b o (completion_bytes count) ≡ ok tt)
unfolding reserve check_range completion_bytes
reserve-check_range a b count o aligned h = ground arith

publish-flag :
    (a b : CompletionArena) (o : ℕ) (r : WorkCompletion) → publish a o r ≡ ok b → flag b o ≡ 1
unfolding publish flag check_range completion_bytes
publish-flag a b o r h = elim (Result-cases (pack_header r)) [
  | inr (_, failed) ↦ absurd (ground (arith, failed))
  | inl (header, packed) ↦ elim (Result-cases (pack_members r.members)) [
    | inr (_, failed) ↦ absurd (ground (arith, packed, failed))
    | inl (members, all) ↦
        let body : List ℕ = splice (o + 8) (header ++ members) a.bytes in
        let stored : b.bytes ≡ splice o (to_bytes 8 1) body = ground (arith, packed, all) in
        let room : o + 8 ≤ length a.bytes = ground (arith, packed, all) in
        let same : length body ≡ length a.bytes =
          length-splice (o + 8) (header ++ members) a.bytes in
        rw stored (
          ap (λ k. from_bytes (slice o k (splice o (to_bytes 8 1) body)))
            (sym (length-to_bytes 8 1))
          ∙ ap from_bytes (
              slice-splice_self o (to_bytes 8 1) body
                (omega (arith, length-to_bytes 8 1, room, same)))
          ∙ from_bytes-to_bytes 8 1 (omega arith))
  ]
]

-- A completion is published at most once: after a publication that succeeds, every publication at
-- the same offset that fits the segment is refused.
pub publish_twice :
    (a b : CompletionArena) (o : ℕ) (r s : WorkCompletion)
    → publish a o r ≡ ok b
    → check_range b o (completion_bytes (length s.members)) ≡ ok tt
    → publish b o s ≡ err runtime_error
unfolding publish
publish_twice a b o r s h fits = rw (fits, publish-flag a b o r h) refl
