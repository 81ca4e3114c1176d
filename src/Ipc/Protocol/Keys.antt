-- ===== src/Ipc/Protocol/Keys.antt =====
-- The tests on the requests that one command names, of nebulasd/src/nebulasd/ipc/protocol.py.
-- A row is represented by its key, the slot and the epoch.
pub mod Once
use nebula_sd.Common.{
  ℕ, Bool, ◌&&◌, List, [], ◌∷◌, ◌++◌, Result, ok, ◌>>=◌, ◌>>◌, raise_if, value_error, ◌==◌, any,
  if◌then◌else◌,
}
use nebula_sd.Core.Ids.{u64, is_newer}

pub record RequestKey : Type 0 where
  pub slot : ℕ
  pub epoch : ℕ

unfoldable pub has_key : RequestKey → List RequestKey → Bool
has_key k keys = any (λ (x : RequestKey). (x.slot == k.slot) && (x.epoch == k.epoch)) keys

unfoldable pub has_slot : RequestKey → List RequestKey → Bool
has_slot k keys = any (λ (x : RequestKey). x.slot == k.slot) keys

-- `_unique_keys`, over the keys seen so far.
unfoldable pub unique_keys : List RequestKey → List RequestKey → Result (List RequestKey)
unfolding has_key has_slot
unique_keys seen [] = ok seen
unique_keys seen (k ∷ rows) = do
  raise_if (has_key k seen) value_error
  raise_if (has_slot k seen) value_error
  unique_keys (k ∷ seen) rows

unfoldable pub share_key : List RequestKey → List RequestKey → Bool
unfolding has_key
share_key keys others = any (λ (k : RequestKey). has_key k others) keys

unfoldable pub share_slot : List RequestKey → List RequestKey → Bool
unfolding has_slot
share_slot keys others = any (λ (k : RequestKey). has_slot k others) keys

-- `_validate_request_lists`
unfoldable pub validate_request_lists :
    List RequestKey → List RequestKey → List RequestKey → Result (Unit {0})
unfolding unique_keys share_key share_slot
validate_request_lists new_requests deltas removed_requests = do
  new_keys ← unique_keys [] new_requests
  delta_keys ← unique_keys [] deltas
  removed_keys ← unique_keys [] removed_requests
  raise_if (share_key new_keys delta_keys) value_error
  raise_if (share_slot new_keys delta_keys) value_error
  raise_if (share_key (new_keys ++ delta_keys) removed_keys) value_error
  raise_if (share_slot (new_keys ++ delta_keys) removed_keys) value_error

-- `_operation_is_newer`
unfoldable pub operation_is_newer : ℕ → ℕ → ℕ → ℕ → Result Bool
unfolding is_newer
operation_is_newer round_id op_seq previous_round_id previous_op_seq = do
  newer_round ← is_newer u64 round_id previous_round_id
  if newer_round
      then ok Bool.true
      else if round_id == previous_round_id
      then is_newer u64 op_seq previous_op_seq
      else ok Bool.false
