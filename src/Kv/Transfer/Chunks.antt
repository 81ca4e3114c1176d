-- ===== src/Kv/Transfer/Chunks.antt =====
-- What the chunks of a copy plan hold together, of nebulasd/src/nebulasd/kv/transfer.py.
use nebula_sd.Common.{
  ℕ, suc, ◌+◌, ◌≤◌, ◌<◌, ◌≡◌, refl, sym, ap, ◌∙◌, ◌⊎◌, inl, inr, true, not, ◌&&◌, List, [], ◌∷◌,
  ◌++◌, length, length-append, sum_of, sum_of-append, some, get_elem?, ok, ltb, ◌==◌, if◌then◌else◌,
  arith, Bool-cases, zero,
}
use native.Mathlib.Decide.{dec_lt}
use mathlib.Core.List.{append_assoc, append-nil}
use nebula_sd.Kv.Transfer.{
  CopyRegion, is_direction, is_h2d, CopyPlan, checked_plan, PlanChunk, region_bytes, Pending, flush,
  with_round, add_region, chunk_loop, plan_chunks,
}

-- The regions of all chunks, in order.
abbrev pub regions_of : {D : Type 0} → List (PlanChunk D) → List CopyRegion
regions_of [] = []
regions_of (c ∷ cs) = c.plan.regions ++ regions_of cs

-- A chunk copies in its plan's direction exactly the bytes it names, and keeps the budget or holds
-- a single region that alone exceeds it.
pub record IsChunk {D : Type 0} (plan : CopyPlan D) (block_bytes budget_bytes : ℕ) (c : PlanChunk D)
    : Type 0 where
  pub same_direction : c.plan.direction ≡ plan.direction
  pub filled : 0 < length c.plan.regions
  pub counted : c.bytes ≡ sum_of (λ r. region_bytes r block_bytes) c.plan.regions
  pub bounded : (c.bytes ≤ budget_bytes) ⊎ (length c.plan.regions ≡ 1)
  pub marked : c.oversized ≡ ltb budget_bytes c.bytes

abbrev pub AllChunks : {D : Type 0} → CopyPlan D → ℕ → ℕ → List (PlanChunk D) → Type 0
AllChunks plan block_bytes budget_bytes [] = Unit {0}
AllChunks plan block_bytes budget_bytes (c ∷ cs) =
    IsChunk plan block_bytes budget_bytes c × AllChunks plan block_bytes budget_bytes cs

-- What holds before each turn of the loop.
record IsPending {D : Type 0} (plan : CopyPlan D) (block_bytes budget_bytes : ℕ) (p : Pending D)
    : Type 0 where
  counted : p.total ≡ sum_of (λ r. region_bytes r block_bytes) p.regions
  bounded : (p.total ≤ budget_bytes) ⊎ (length p.regions ≡ 1)
  rounds : (0 < length plan.round_ids) → length p.round_ids ≡ length p.regions
  chunks : AllChunks plan block_bytes budget_bytes p.chunks

AllChunks-append :
    {D : Type 0} (plan : CopyPlan D) (block_bytes budget_bytes : ℕ) (cs : List (PlanChunk D))
    (c : PlanChunk D)
    → AllChunks plan block_bytes budget_bytes cs
    → IsChunk plan block_bytes budget_bytes c
    → AllChunks plan block_bytes budget_bytes (cs ++ c ∷ [])
AllChunks-append plan block_bytes budget_bytes [] c all here = (here, tt)
AllChunks-append plan block_bytes budget_bytes (x ∷ cs) c all here =
    (all.0, AllChunks-append plan block_bytes budget_bytes cs c all.1 here)

regions_of-append :
    {D : Type 0} (cs : List (PlanChunk D)) (c : PlanChunk D)
    → regions_of (cs ++ c ∷ []) ≡ regions_of cs ++ c.plan.regions
regions_of-append [] c = append-nil c.plan.regions
regions_of-append (x ∷ cs) c =
    ap (◌++◌ x.plan.regions) (regions_of-append cs c)
    ∙ sym (append_assoc x.plan.regions (regions_of cs) c.plan.regions)

-- The state a call of `flush` leaves.
record Flushed {D : Type 0} (plan : CopyPlan D) (block_bytes budget_bytes : ℕ) (p q : Pending D)
    : Type 0 where
  pending : IsPending plan block_bytes budget_bytes q
  emptied : q.regions ≡ []
  kept : regions_of q.chunks ≡ regions_of p.chunks ++ p.regions

-- The chunk that a call of `flush` adds.
chunk_of : {D : Type 0} → CopyPlan D → ℕ → Pending D → PlanChunk D
chunk_of plan budget_bytes p = record {
  plan = record {
    direction = plan.direction;
    regions = p.regions;
    dependencies = p.dependencies;
    round_ids = if length plan.round_ids == 0 then [] else p.round_ids;
  };
  bytes = p.total;
  oversized = ltb budget_bytes p.total;
}

emptied_by : {D : Type 0} → CopyPlan D → ℕ → Pending D → Pending D
emptied_by plan budget_bytes p = record {
  chunks = p.chunks ++ chunk_of plan budget_bytes p ∷ [];
  regions = [];
  round_ids = [];
  total = 0;
  dependencies = [];
}

flush-emptied_by :
    {D : Type 0} (plan : CopyPlan D) (block_bytes budget_bytes : ℕ) (p : Pending D)
    → is_direction plan.direction ≡ true
    → 0 < length p.regions
    → IsPending plan block_bytes budget_bytes p
    → flush plan budget_bytes p ≡ ok (emptied_by plan budget_bytes p)
unfolding flush checked_plan emptied_by chunk_of
flush-emptied_by plan block_bytes budget_bytes p known filled i =
    let rounds = i.rounds in ground (arith, rounds, known)

emptied_by-Flushed :
    {D : Type 0} (plan : CopyPlan D) (block_bytes budget_bytes : ℕ) (p : Pending D)
    → 0 < length p.regions
    → IsPending plan block_bytes budget_bytes p
    → Flushed plan block_bytes budget_bytes p (emptied_by plan budget_bytes p)
unfolding emptied_by chunk_of
emptied_by-Flushed plan block_bytes budget_bytes p filled i = record {
  pending = record {
    counted = refl;
    bounded = inl (omega arith);
    rounds = λ some_rounds. refl;
    chunks =
        AllChunks-append plan block_bytes budget_bytes p.chunks (chunk_of plan budget_bytes p)
          i.chunks
          (record {
            same_direction = refl;
            filled = filled;
            counted = i.counted;
            bounded = i.bounded;
            marked = refl;
          });
  };
  emptied = refl;
  kept = regions_of-append p.chunks (chunk_of plan budget_bytes p);
}

flush-Flushed :
    {D : Type 0} (plan : CopyPlan D) (block_bytes budget_bytes : ℕ) (p : Pending D)
    → is_direction plan.direction ≡ true
    → IsPending plan block_bytes budget_bytes p
    → (q : Pending D) × (flush plan budget_bytes p ≡ ok q)
      × Flushed plan block_bytes budget_bytes p q
unfolding flush
flush-Flushed {D} plan block_bytes budget_bytes p known i = go p.regions refl
  where
    go :
        (rs : List CopyRegion)
        → p.regions ≡ rs
        → (q : Pending D) × (flush plan budget_bytes p ≡ ok q)
          × Flushed plan block_bytes budget_bytes p q
    go [] none_left =
        let unchanged : flush plan budget_bytes p ≡ ok p = ground (arith, none_left) in
        (
          p,
          unchanged,
          record {
            pending = i;
            emptied = none_left;
            kept = rw none_left (sym (append-nil (regions_of p.chunks)));
          },
        )
    go (r ∷ rs) filled =
        let many : 0 < length p.regions = rw filled (omega arith) in
        (
          emptied_by plan budget_bytes p,
          flush-emptied_by plan block_bytes budget_bytes p known many i,
          emptied_by-Flushed plan block_bytes budget_bytes p many i,
        )

-- A region put at the end of what is pending.
added : {D : Type 0} → ℕ → CopyRegion → List ℕ → Pending D → Pending D
added block_bytes r ids p = record p {
  regions = p.regions ++ r ∷ [];
  round_ids = ids;
  total = p.total + region_bytes r block_bytes;
}

added-IsPending :
    {D : Type 0} (plan : CopyPlan D) (block_bytes budget_bytes : ℕ) (r : CopyRegion) (ids : List ℕ)
    (p : Pending D)
    → IsPending plan block_bytes budget_bytes p
    → (p.regions ≡ []) ⊎ (p.total + region_bytes r block_bytes ≤ budget_bytes)
    → (0 < length plan.round_ids → length ids ≡ suc (length p.round_ids))
    → IsPending plan block_bytes budget_bytes (added block_bytes r ids p)
unfolding added
added-IsPending plan block_bytes budget_bytes r ids p i fits longer = record {
  counted =
      omega (arith, i.counted, sum_of-append (λ x. region_bytes x block_bytes) p.regions (r ∷ []));
  bounded = elim fits [ inl first ↦ inr (rw first refl) | inr below ↦ inl below ];
  rounds = λ some_rounds.
      omega (arith, longer some_rounds, i.rounds some_rounds, length-append p.regions (r ∷ []));
  chunks = i.chunks;
}

get_elem?-some : (xs : List ℕ) (i : ℕ) → i < length xs → (a : ℕ) × (get_elem? xs i ≡ some a)
get_elem?-some [] i h = absurd (omega arith)
get_elem?-some (x ∷ xs) zero h = (x, refl)
get_elem?-some (x ∷ xs) (suc i) h = get_elem?-some xs i (omega arith)

with_round-longer :
    {D : Type 0} (plan : CopyPlan D) (index : ℕ) (ids : List ℕ)
    → (0 < length plan.round_ids → index < length plan.round_ids)
    → (js : List ℕ) × (with_round plan index ids ≡ ok js)
      × (0 < length plan.round_ids → length js ≡ suc (length ids))
unfolding with_round
with_round-longer plan index ids inside = go plan.round_ids refl
  where
    go :
        (rounds : List ℕ)
        → plan.round_ids ≡ rounds
        → (js : List ℕ) × (with_round plan index ids ≡ ok js)
          × (0 < length plan.round_ids → length js ≡ suc (length ids))
    go [] e =
        let same : with_round plan index ids ≡ ok ids = ground (arith, e) in
        (ids, same, λ some_rounds. absurd (ground (arith, e)))
    go (x ∷ xs) e =
        let many : 0 < length plan.round_ids = rw e (omega arith) in
        let (id, found) = get_elem?-some plan.round_ids index (inside many) in
        let longer : with_round plan index ids ≡ ok (ids ++ id ∷ []) = ground (arith, e, found) in
        (ids ++ id ∷ [], longer, λ some_rounds. omega (arith, length-append ids (id ∷ [])))

-- What a step of the loop keeps: the regions seen so far, in order.
abbrev seen : {D : Type 0} → Pending D → List CopyRegion
seen p = regions_of p.chunks ++ p.regions

Flushed-seen :
    {D : Type 0} (plan : CopyPlan D) (block_bytes budget_bytes : ℕ) (p q : Pending D)
    → Flushed plan block_bytes budget_bytes p q
    → seen q ≡ seen p
Flushed-seen plan block_bytes budget_bytes p q f =
    rw f.emptied (append-nil (regions_of q.chunks) ∙ f.kept)

-- Before a region is added: what is pending is cut off when the region does not fit.
make_room :
    {D : Type 0} (plan : CopyPlan D) (block_bytes budget_bytes size : ℕ) (p : Pending D)
    → is_direction plan.direction ≡ true
    → IsPending plan block_bytes budget_bytes p
    → (q : Pending D) × ((if not (length p.regions == 0) && ltb budget_bytes (p.total + size)
          then flush plan budget_bytes p
          else ok p)
        ≡ ok q)
      × IsPending plan block_bytes budget_bytes q
      × (seen q ≡ seen p)
      × ((q.regions ≡ []) ⊎ (q.total + size ≤ budget_bytes))
make_room {D} plan block_bytes budget_bytes size p known i =
    go p.regions refl (dec_lt budget_bytes (p.total + size))
  where
    Room : Type 0
    Room =
        (q : Pending D) × ((if not (length p.regions == 0) && ltb budget_bytes (p.total + size)
            then flush plan budget_bytes p
            else ok p)
          ≡ ok q)
        × IsPending plan block_bytes budget_bytes q
        × (seen q ≡ seen p)
        × ((q.regions ≡ []) ⊎ (q.total + size ≤ budget_bytes))

    go : (rs : List CopyRegion) → p.regions ≡ rs → Dec (budget_bytes < p.total + size) → Room
    go [] none_left d = (p, ground (arith, none_left), i, refl, inl none_left)
    go (r ∷ rs) filled (no fits) = (p, ground (arith, filled), i, refl, inr (omega arith))
    go (r ∷ rs) filled (yes over) =
        let (q, flushed, f) = flush-Flushed plan block_bytes budget_bytes p known i in
        (
          q,
          ground (arith, filled, flushed),
          f.pending,
          Flushed-seen plan block_bytes budget_bytes p q f,
          inl f.emptied,
        )

-- After a region is added: one that alone exceeds the budget is cut off at once.
cut_off :
    {D : Type 0} (plan : CopyPlan D) (block_bytes budget_bytes size : ℕ) (p : Pending D)
    → is_direction plan.direction ≡ true
    → IsPending plan block_bytes budget_bytes p
    → (q : Pending D) × ((if ltb budget_bytes size then flush plan budget_bytes p else ok p) ≡ ok q)
      × IsPending plan block_bytes budget_bytes q
      × (seen q ≡ seen p)
cut_off plan block_bytes budget_bytes size p known i = elim (Bool-cases (ltb budget_bytes size)) [
  | inl over ↦
      let (q, flushed, f) = flush-Flushed plan block_bytes budget_bytes p known i in
      (q, rw over flushed, f.pending, Flushed-seen plan block_bytes budget_bytes p q f)
  | inr under ↦ (p, rw under refl, i, refl)
]

add_region-seen :
    {D : Type 0} (plan : CopyPlan D) (block_bytes budget_bytes index : ℕ) (r : CopyRegion)
    (p : Pending D)
    → is_direction plan.direction ≡ true
    → (0 < length plan.round_ids → index < length plan.round_ids)
    → IsPending plan block_bytes budget_bytes p
    → (q : Pending D) × (add_region plan block_bytes budget_bytes index r p ≡ ok q)
      × IsPending plan block_bytes budget_bytes q
      × (seen q ≡ seen p ++ r ∷ [])
unfolding add_region added
add_region-seen plan block_bytes budget_bytes index r p known inside i =
    let size = region_bytes r block_bytes in
    let (m, made, mi, mseen, room) = make_room plan block_bytes budget_bytes size p known i in
    let (js, longer, count) = with_round-longer plan index m.round_ids inside in
    let mr = added block_bytes r js m in
    let (q, cut, qi, qseen) =
      cut_off plan block_bytes budget_bytes size mr known
        (added-IsPending plan block_bytes budget_bytes r js m mi room count) in
    (
      q,
      rw (made, longer) cut,
      qi,
      qseen
          ∙ sym (append_assoc (regions_of m.chunks) m.regions (r ∷ []))
          ∙ ap (λ k. k ++ r ∷ []) mseen,
    )

chunk_loop-seen :
    {D : Type 0} (plan : CopyPlan D) (block_bytes budget_bytes index : ℕ) (rest : List CopyRegion)
    (p : Pending D)
    → is_direction plan.direction ≡ true
    → (0 < length plan.round_ids → index + length rest ≤ length plan.round_ids)
    → IsPending plan block_bytes budget_bytes p
    → (cs : List (PlanChunk D)) × (chunk_loop plan block_bytes budget_bytes index rest p ≡ ok cs)
      × AllChunks plan block_bytes budget_bytes cs
      × (regions_of cs ≡ seen p ++ rest)
unfolding chunk_loop
chunk_loop-seen plan block_bytes budget_bytes index [] p known inside i =
    let (q, done, f) = flush-Flushed plan block_bytes budget_bytes p known i in
    (q.chunks, rw done refl, f.pending.chunks, f.kept ∙ sym (append-nil (seen p)))
chunk_loop-seen plan block_bytes budget_bytes index (r ∷ rs) p known inside i =
    let (q, done, qi, qseen) =
      add_region-seen plan block_bytes budget_bytes index r p known
        (λ some_rounds. omega (arith, inside some_rounds)) i in
    let (cs, finished, all, same) =
      chunk_loop-seen plan block_bytes budget_bytes (suc index) rs q known
        (λ some_rounds. omega (arith, inside some_rounds)) qi in
    (cs, rw done finished, all, same ∙ ap (λ k. k ++ rs) qseen ∙ append_assoc (seen p) (r ∷ []) rs)

checked_plan-tests :
    {D : Type 0} (plan : CopyPlan D)
    → checked_plan plan ≡ ok plan
    → (is_direction plan.direction ≡ true)
      × (0 < length plan.round_ids → length plan.regions ≡ length plan.round_ids)
unfolding checked_plan
checked_plan-tests plan h = (ground arith, λ some_rounds. ground arith)

-- A host-to-device plan that its constructor accepts, with a positive block size and a positive
-- budget, is cut into chunks without an error. The regions of the chunks, in order, are those of
-- the plan. Each chunk copies in the plan's direction, is not empty, names the bytes of its
-- regions, and keeps the budget or holds a single region; it is marked as oversized exactly if it
-- exceeds the budget.
pub plan_chunks-regions :
    {D : Type 0} (plan : CopyPlan D) (block_bytes budget_bytes : ℕ)
    → checked_plan plan ≡ ok plan
    → is_h2d plan.direction ≡ true
    → 0 < block_bytes
    → 0 < budget_bytes
    → (cs : List (PlanChunk D)) × (plan_chunks plan block_bytes budget_bytes ≡ ok cs)
      × AllChunks plan block_bytes budget_bytes cs
      × (regions_of cs ≡ plan.regions)
unfolding plan_chunks
plan_chunks-regions {D} plan block_bytes budget_bytes valid h2d_plan blocks budget =
    let tests = checked_plan-tests plan valid in
    let start : Pending D = record {
      chunks = [];
      regions = [];
      round_ids = [];
      total = 0;
      dependencies = plan.dependencies;
    } in
    let sound : IsPending plan block_bytes budget_bytes start = record {
      counted = refl;
      bounded = inl (omega arith);
      rounds = λ some_rounds. refl;
      chunks = tt;
    } in
    let (cs, done, all, same) =
      chunk_loop-seen plan block_bytes budget_bytes 0 plan.regions start tests.0
        (λ some_rounds. omega (arith, tests.1 some_rounds)) sound in
    let path : plan_chunks plan block_bytes budget_bytes
        ≡ chunk_loop plan block_bytes budget_bytes 0 plan.regions start =
      ground (arith, h2d_plan) in
    (cs, path ∙ done, all, same)
