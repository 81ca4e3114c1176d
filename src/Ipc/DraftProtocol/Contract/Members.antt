-- ===== src/Ipc/DraftProtocol/Contract/Members.antt =====
-- What a Draft run that is accepted promises of its members.
use nebula_sd.Common.{
  ◌≡◌, sym, ap, ◌∙◌, true, false, List, [], ◌∷◌, some, ok, err, value_error, arith, length,
  Result-cases, inl, inr, Bool-cases,
}
use nebula_sd.Core.Ids.{u64, next, is_newer}
use nebula_sd.Ipc.DraftProtocol.{
  DraftPrepareRequest, DraftRunRequest, PrepareDraftBankCommand, RunDraftBatchCommand,
  checked_draft_prepare,
}
use nebula_sd.Ipc.DraftProtocol.Contract.{
  DraftPreparedContract, init, accept_run, validate_prepared_run, validate_members, same_member,
  same_bank,
}

-- Side by side, each member of the run is that of the prepared batch, one round and one owner
-- later than the snapshot it names, with a newer sequence number.
abbrev pub IsNext : DraftPrepareRequest → DraftRunRequest → Type 0
IsNext p r =
    (r.request_slot ≡ p.source.request_slot)
    × (r.request_epoch ≡ p.source.request_epoch)
    × (next u64 p.source.round_id ≡ ok r.round_id)
    × (next u64 p.source.owner_epoch ≡ ok r.owner_epoch)
    × (r.snapshot_version ≡ p.source.snapshot_version)
    × (is_newer u64 r.run_seq p.source.op_seq ≡ ok true)

abbrev pub AreNext : List DraftPrepareRequest → List DraftRunRequest → Type 0
AreNext [] [] = Unit {0}
AreNext (p ∷ ps) (r ∷ rs) = IsNext p r × AreNext ps rs
AreNext [] (r ∷ rs) = ⊥
AreNext (p ∷ ps) [] = ⊥

abbrev pub AreBuilt : List DraftPrepareRequest → Type 0
AreBuilt [] = Unit {0}
AreBuilt (p ∷ ps) = (checked_draft_prepare p ≡ ok p) × AreBuilt ps

checked_draft_prepare-next :
    (p : DraftPrepareRequest)
    → checked_draft_prepare p ≡ ok p
    → (next u64 p.source.round_id ≡ ok p.next_round_id)
      × (next u64 p.source.owner_epoch ≡ ok p.next_owner_epoch)
unfolding checked_draft_prepare
checked_draft_prepare-next p built = elim (Result-cases (next u64 p.source.round_id)) [
  | inr (_, failed) ↦ absurd (ground (arith, failed))
  | inl (round, following_round) ↦ elim (Result-cases (next u64 p.source.owner_epoch)) [
    | inr (_, failed) ↦ absurd (ground (arith, following_round, failed))
    | inl (epoch, following_epoch) ↦
        let r : p.next_round_id ≡ round = ground (arith, following_round, following_epoch) in
        let e : p.next_owner_epoch ≡ epoch = ground (arith, following_round, following_epoch) in
        (cc, cc)
  ]
]

same_member-fields :
    (p : DraftPrepareRequest) (r : DraftRunRequest)
    → same_member p r ≡ true
    → (p.source.request_slot ≡ r.request_slot)
      × (p.source.request_epoch ≡ r.request_epoch)
      × (p.next_round_id ≡ r.round_id)
      × (p.next_owner_epoch ≡ r.owner_epoch)
      × (p.source.snapshot_version ≡ r.snapshot_version)
unfolding same_member
same_member-fields p r h = (ground arith, ground arith, ground arith, ground arith, ground arith)

validate_members-AreNext :
    (ps : List DraftPrepareRequest) (rs : List DraftRunRequest)
    → AreBuilt ps
    → length ps ≡ length rs
    → validate_members ps rs ≡ ok tt
    → AreNext ps rs
unfolding validate_members
validate_members-AreNext [] [] built same h = tt
validate_members-AreNext [] (r ∷ rs) built same h = absurd (omega arith)
validate_members-AreNext (p ∷ ps) [] built same h = absurd (omega arith)
validate_members-AreNext (p ∷ ps) (r ∷ rs) built same h =
    elim (Result-cases (is_newer u64 r.run_seq p.source.op_seq)) [
      | inr (_, failed) ↦ absurd (ground (arith, failed))
      | inl (false, older) ↦ absurd (ground (arith, older))
      | inl (true, newer) ↦
          let fence : same_member p r ≡ true = ground (arith, newer) in
          let rest : validate_members ps rs ≡ ok tt = ground (arith, newer) in
          let f = same_member-fields p r fence in
          let n = checked_draft_prepare-next p built.0 in
          (
            (sym f.0, sym f.1, n.0 ∙ ap ok f.2, n.1 ∙ ap ok f.3, sym f.4, newer),
            validate_members-AreNext ps rs built.1 (omega (arith, same)) rest,
          )
    ]

-- A Draft run that the contract accepts found a prepared batch of the same worker, batch, bank and
-- bank epoch; if the requests of that batch pass their constructor's tests, the requests of the run
-- are, in order, the same members one round and one owner after the named snapshot with a newer
-- sequence number; nothing is prepared any more, so the same or any other run is refused.
pub accept_run-AreNext :
    (c c' : DraftPreparedContract) (prepare : PrepareDraftBankCommand) (run : RunDraftBatchCommand)
    → c.pending ≡ some prepare
    → AreBuilt prepare.requests
    → accept_run c run ≡ ok c'
    → (same_bank prepare run ≡ true)
      × AreNext prepare.requests run.requests
      × ((other : RunDraftBatchCommand) → accept_run c' other ≡ err value_error)
unfolding accept_run validate_prepared_run
accept_run-AreNext c c' prepare run waiting built h = elim (Bool-cases (same_bank prepare run)) [
  | inr wrong ↦ absurd (ground (arith, waiting, wrong))
  | inl fence ↦ elim (Result-cases (validate_members prepare.requests run.requests)) [
    | inr (_, failed) ↦ absurd (ground (arith, waiting, fence, failed))
    | inl (tt, members) ↦
        let same : length prepare.requests ≡ length run.requests =
          ground (arith, waiting, fence, members) in
        let over : c' ≡ init = ground (arith, waiting, fence, members) in
        (
          fence,
          validate_members-AreNext prepare.requests run.requests built same members,
          λ other. ap (λ (k : DraftPreparedContract). accept_run k other) over,
        )
  ]
]
