-- ===== src/Kv/Transfer.antt =====
-- nebulasd/src/nebulasd/kv/transfer.py: copy regions, copy plans, and the chunks a plan is cut into.
-- A dependency is an object the code only passes on: its type is a parameter.
pub mod Chunks
use nebula_sd.Common.{
  ℕ, suc, ◌+◌, ◌*◌, Bool, not, ◌&&◌, ◌||◌, List, [], ◌∷◌, ◌++◌, Result, ok, err, ◌>>=◌, ◌>>◌,
  raise_if, value_error, index_error, ltb, leb, ◌==◌, length, sum_of, Option, none, some, get_elem?,
  if◌then◌else◌,
}
use nebula_sd.Kv.Arena.{HostKvExtent}

pub record CopyRegion : Type 0 where
  pub extent : HostKvExtent
  pub gpu_begin_block : ℕ
  pub host_begin_block : ℕ
  pub block_count : ℕ

-- `CopyRegion.__post_init__`; no number is negative here.
unfoldable pub checked_region : CopyRegion → Result CopyRegion
checked_region r = do
  raise_if (ltb r.extent.capacity_blocks (r.host_begin_block + r.block_count)) value_error
  ok r

-- The direction is a string of which the code knows two.
pub data Direction : Type 0 where
  d2h h2d unknown : Direction

unfoldable pub is_direction : Direction → Bool
is_direction unknown = Bool.false
is_direction direction = Bool.true

unfoldable pub is_h2d : Direction → Bool
is_h2d h2d = Bool.true
is_h2d direction = Bool.false

pub record CopyPlan (D : Type 0) : Type 0 where
  pub direction : Direction
  pub regions : List CopyRegion
  pub dependencies : List D
  pub round_ids : List ℕ

-- `CopyPlan.__post_init__`.
unfoldable pub checked_plan : {D : Type 0} → CopyPlan D → Result (CopyPlan D)
checked_plan p = do
  raise_if (not (is_direction p.direction) || (length p.regions == 0)) value_error
  raise_if (not (length p.round_ids == 0) && not (length p.round_ids == length p.regions))
      value_error
  ok p

pub record PlanChunk (D : Type 0) : Type 0 where
  pub plan : CopyPlan D
  pub bytes : ℕ
  pub oversized : Bool

unfoldable pub region_bytes : CopyRegion → ℕ → ℕ
region_bytes region block_bytes = region.block_count * block_bytes * 2

-- The variables that `flush` and the loop share.
pub record Pending (D : Type 0) : Type 0 where
  pub chunks : List (PlanChunk D)
  pub regions : List CopyRegion
  pub round_ids : List ℕ
  pub total : ℕ
  pub dependencies : List D

unfoldable pub flush : {D : Type 0} → CopyPlan D → ℕ → Pending D → Result (Pending D)
flush plan budget_bytes p = if length p.regions == 0 then ok p else (do
  chunk_plan ← checked_plan (record {
    direction = plan.direction;
    regions = p.regions;
    dependencies = p.dependencies;
    round_ids = if length plan.round_ids == 0 then [] else p.round_ids;
  })
  ok (record {
    chunks =
        p.chunks
        ++ (record { plan = chunk_plan; bytes = p.total; oversized = ltb budget_bytes p.total })
          ∷ [];
    regions = [];
    round_ids = [];
    total = 0;
    dependencies = [];
  }))

-- `round_ids.append(plan.round_ids[index])`, when the plan has rounds.
unfoldable pub with_round : {D : Type 0} → CopyPlan D → ℕ → List ℕ → Result (List ℕ)
with_round plan index round_ids =
    if length plan.round_ids == 0 then ok round_ids else elim (get_elem? plan.round_ids index) [
      | some id ↦ ok (round_ids ++ id ∷ [])
      | none ↦ err index_error
    ]

-- One turn of the loop.
unfoldable pub add_region :
    {D : Type 0} → CopyPlan D → ℕ → ℕ → ℕ → CopyRegion → Pending D → Result (Pending D)
add_region {D} plan block_bytes budget_bytes index region p = do
  let size = region_bytes region block_bytes
  p ←
      (if not (length p.regions == 0) && ltb budget_bytes (p.total + size)
        then flush plan budget_bytes p
        else ok p)
  round_ids ← with_round plan index p.round_ids
  let added : Pending D = record p {
    regions = p.regions ++ region ∷ [];
    round_ids = round_ids;
    total = p.total + size;
  }
  if ltb budget_bytes size then flush plan budget_bytes added else ok added

unfoldable pub chunk_loop :
    {D : Type 0}
    → CopyPlan D
    → ℕ
    → ℕ
    → ℕ
    → List CopyRegion
    → Pending D
    → Result (List (PlanChunk D))
chunk_loop plan block_bytes budget_bytes index [] p = do
  flushed ← flush plan budget_bytes p
  ok flushed.chunks
chunk_loop plan block_bytes budget_bytes index (region ∷ rest) p = do
  next ← add_region plan block_bytes budget_bytes index region p
  chunk_loop plan block_bytes budget_bytes (suc index) rest next

-- `_plan_chunks`.
unfoldable pub plan_chunks : {D : Type 0} → CopyPlan D → ℕ → ℕ → Result (List (PlanChunk D))
plan_chunks plan block_bytes budget_bytes =
    if not (is_h2d plan.direction) || (budget_bytes == 0) || (block_bytes == 0)
    then ok (
        (record {
          plan = plan;
          bytes = sum_of (λ r. region_bytes r block_bytes) plan.regions;
          oversized = Bool.false;
        })
        ∷ [])
    else chunk_loop plan block_bytes budget_bytes 0 plan.regions (record {
      chunks = [];
      regions = [];
      round_ids = [];
      total = 0;
      dependencies = plan.dependencies;
    })
