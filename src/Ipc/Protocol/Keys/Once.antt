-- ===== src/Ipc/Protocol/Keys/Once.antt =====
-- No request is named twice by a command that passes the tests of
-- nebulasd/src/nebulasd/ipc/protocol.py.
use nebula_sd.Common.{
  ℕ, ◌+◌, ◌≤◌, ◌≡◌, false, List, [], ◌∷◌, ◌++◌, ok, ◌==◌, if◌then◌else◌, sum_of, sum_of-append,
  arith, Result-cases, inl, inr, refl,
}
use nebula_sd.Ipc.Protocol.Keys.{
  RequestKey, has_slot, unique_keys, share_slot, validate_request_lists,
}

-- How many rows name a slot.
abbrev pub rows_with : ℕ → List RequestKey → ℕ
rows_with slot = sum_of (λ (k : RequestKey). if k.slot == slot then 1 else 0)

has_slot-rows_with :
    (slot : ℕ) (k : RequestKey) (keys : List RequestKey)
    → k.slot ≡ slot
    → has_slot k keys ≡ false
    → rows_with slot keys ≡ 0
unfolding has_slot
has_slot-rows_with slot k [] e h = refl
has_slot-rows_with slot k (x ∷ keys) e h =
    let rest : has_slot k keys ≡ false = ground (arith) in
    ground (arith, has_slot-rows_with slot k keys e rest)

unique_keys-rows_with :
    (slot : ℕ) (seen rows keys : List RequestKey)
    → rows_with slot seen ≤ 1
    → unique_keys seen rows ≡ ok keys
    → (rows_with slot keys ≡ rows_with slot seen + rows_with slot rows) × (rows_with slot keys ≤ 1)
unfolding unique_keys
unique_keys-rows_with slot seen [] keys once h = ground arith
unique_keys-rows_with slot seen (k ∷ rows) keys once h =
    let fresh : has_slot k seen ≡ false = ground arith in
    let rest : unique_keys (k ∷ seen) rows ≡ ok keys = ground arith in
    let absent = has_slot-rows_with slot k seen in
    let still : rows_with slot (k ∷ seen) ≤ 1 = ground (arith, absent, fresh) in
    let counted = unique_keys-rows_with slot (k ∷ seen) rows keys still rest in
    (omega (arith, counted), counted.1)

share_slot-rows_with :
    (slot : ℕ) (keys others : List RequestKey)
    → share_slot keys others ≡ false
    → rows_with slot others ≤ 1
    → rows_with slot keys ≤ 1
    → rows_with slot keys + rows_with slot others ≤ 1
unfolding share_slot
share_slot-rows_with slot [] others h once mine = omega arith
share_slot-rows_with slot (k ∷ keys) others h once mine =
    let apart : has_slot k others ≡ false = ground arith in
    let rest : share_slot keys others ≡ false = ground arith in
    let absent = has_slot-rows_with slot k others in
    let later = share_slot-rows_with slot keys others rest once (ground (arith, mine)) in
    ground (arith, absent, apart, later)

-- A command whose lists of new, changed and removed requests pass the test names each slot in at
-- most one row of at most one of the lists.
pub validate_request_lists-rows_with :
    (new_requests deltas removed_requests : List RequestKey) (slot : ℕ)
    → validate_request_lists new_requests deltas removed_requests ≡ ok tt
    → rows_with slot new_requests + rows_with slot deltas + rows_with slot removed_requests ≤ 1
unfolding validate_request_lists
validate_request_lists-rows_with new_requests deltas removed_requests slot h =
    elim (Result-cases (unique_keys [] new_requests)) [
      | inr (_, failed) ↦ absurd (ground (arith, failed))
      | inl (ns, some_new) ↦ elim (Result-cases (unique_keys [] deltas)) [
        | inr (_, failed) ↦ absurd (ground (arith, some_new, failed))
        | inl (ds, some_deltas) ↦ elim (Result-cases (unique_keys [] removed_requests)) [
          | inr (_, failed) ↦ absurd (ground (arith, some_new, some_deltas, failed))
          | inl (rs, some_removed) ↦
              let first : share_slot ns ds ≡ false =
                ground (arith, some_new, some_deltas, some_removed) in
              let second : share_slot (ns ++ ds) rs ≡ false =
                ground (arith, some_new, some_deltas, some_removed) in
              let n = unique_keys-rows_with slot [] new_requests ns (omega arith) some_new in
              let d = unique_keys-rows_with slot [] deltas ds (omega arith) some_deltas in
              let r =
                unique_keys-rows_with slot [] removed_requests rs (omega arith) some_removed in
              let one = share_slot-rows_with slot ns ds first d.1 n.1 in
              let joined =
                sum_of-append (λ (k : RequestKey). if k.slot == slot then 1 else 0) ns ds in
              let all_three =
                share_slot-rows_with slot (ns ++ ds) rs second r.1 (omega (arith, one, joined)) in
              omega (arith, all_three, joined, n, d, r)
        ]
      ]
    ]
