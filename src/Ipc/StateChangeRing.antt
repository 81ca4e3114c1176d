-- ===== src/Ipc/StateChangeRing.antt =====
-- nebulasd/src/nebulasd/ipc/state_change_ring.py: change hints with a sticky overflow flag. Both
-- methods run under one lock, so a call is one step.
pub mod Fifo
use nebula_sd.Common.{
  ℕ, zero, suc, ◌+◌, Bool, true, false, ◌||◌, List, [], ◌∷◌, ◌++◌, Option, none, some, Result, ok,
  err, ◌>>=◌, ◌>>◌, runtime_error, value_error, raise_if, ltb, ◌==◌, min, if◌then◌else◌,
}
use nebula_sd.Core.Ids.{u32, u64, validate}
use nebula_sd.Ipc.Ring
use nebula_sd.Ipc.Ring.{Ring, is_full, store, first, advance}

-- A hint names a block kind by its number.
pub record StateChangeEntry : Type 0 where
  pub block_kind : ℕ
  pub row : ℕ
  pub publish_seq : ℕ

-- `StateChangeEntry.__post_init__`: the kinds of `StateChangeBlockKind` are 1 to 17.
unfoldable pub checked_entry : StateChangeEntry → Result StateChangeEntry
unfolding validate
checked_entry e = do
  raise_if (e.block_kind == 0 || ltb 17 e.block_kind) value_error
  validate u32 e.row
  validate u64 e.publish_seq
  ok e

pub record PublishResult : Type 0 where
  pub accepted : Bool
  pub overflowed : Bool

pub record Batch : Type 0 where
  pub entries : List StateChangeEntry
  pub overflowed : Bool

pub record StateChangeRing : Type 0 where
  pub ring : Ring StateChangeEntry
  pub overflowed : Bool

unfoldable pub init : ℕ → Result StateChangeRing
init capacity = do
  raise_if (capacity == 0) value_error
  ok (record { ring = Ring.empty capacity; overflowed = false })

unfoldable pub push : StateChangeRing → StateChangeEntry → PublishResult × StateChangeRing
push r entry =
    if is_full r.ring
    then (record { accepted = false; overflowed = true }, record r { overflowed = true })
    else (
      record { accepted = true; overflowed = r.overflowed },
      record r { ring = store r.ring entry },
    )

-- The loop of `drain`, over the rounds that are left.
unfoldable pub drain_loop :
    ℕ
    → List StateChangeEntry
    → Ring StateChangeEntry
    → Result (List StateChangeEntry) × Ring StateChangeEntry
drain_loop zero drained ring = (ok drained, ring)
drain_loop (suc n) drained ring = elim (first ring) [
  | none ↦ (err runtime_error, ring)
  | some entry ↦ drain_loop n (drained ++ entry ∷ []) (advance ring)
]

-- `limit` of `drain`
unfoldable pub drain_limit : StateChangeRing → Option ℕ → ℕ
drain_limit r none = r.ring.size
drain_limit r (some max_entries) = min r.ring.size max_entries

drain_end :
    StateChangeRing
    → Result (List StateChangeEntry) × Ring StateChangeEntry
    → Result Batch × StateChangeRing
drain_end r (err x, ring) = (err x, record r { ring = ring })
drain_end r (ok drained, ring) = (
  ok (record { entries = drained; overflowed = r.overflowed }),
  record { ring = ring; overflowed = false },
)

unfoldable pub drain : StateChangeRing → Option ℕ → Result Batch × StateChangeRing
unfolding drain_end
drain r max_entries = drain_end r (drain_loop (drain_limit r max_entries) [] r.ring)

unfoldable pub has_pending : StateChangeRing → Bool
has_pending r = ltb 0 r.ring.size || r.overflowed
