-- ===== src/Core/Ids.antt =====
-- nebulasd/src/nebulasd/core/ids.py: unsigned domains with an all-ones sentinel, and fences.
-- Values are natural numbers, so the tests for bool, for another type and for a negative value
-- have no counterpart; every other test of the source is here.
pub mod Order
use nebula_sd.Common.{
  ℕ, ◌+◌, ◌-◌, ◌/◌, ◌%◌, ◌^◌, Bool, not, ◌&&◌, ◌||◌, Result, ◌>>=◌, ◌>>◌, ok, value_error, raise_if,
  ltb, leb, ◌==◌,
}

pub record UIntDomain : Type 0 where
  pub bits : ℕ

unfoldable pub modulus : UIntDomain → ℕ
modulus d = 2 ^ d.bits

unfoldable pub max_value : UIntDomain → ℕ
unfolding modulus
max_value d = modulus d - 1

unfoldable pub max_valid : UIntDomain → ℕ
unfolding max_value
max_valid d = max_value d - 1

unfoldable pub half_range : UIntDomain → ℕ
unfolding max_value
half_range d = max_value d / 2

unfoldable pub is_valid : UIntDomain → ℕ → Bool
unfolding max_valid
is_valid d value = leb value (max_valid d)

unfoldable pub validate : UIntDomain → ℕ → Result ℕ
unfolding max_valid
validate d value = do raise_if (ltb (max_valid d) value) value_error; ok value

unfoldable pub next : UIntDomain → ℕ → Result ℕ
unfolding validate max_value
next d value = do validate d value; ok ((value + 1) % max_value d)

-- Python's `(newer - older) % max_value`: `older` is below `max_value`, so adding it first keeps
-- the difference from stopping at 0.
unfoldable pub distance : UIntDomain → ℕ → ℕ → Result ℕ
unfolding validate max_value
distance d newer older = do
  validate d newer
  validate d older
  ok ((newer + max_value d - older) % max_value d)

unfoldable pub is_newer : UIntDomain → ℕ → ℕ → Result Bool
unfolding distance half_range
is_newer d candidate baseline = do
  gap ← distance d candidate baseline
  ok (ltb 0 gap && leb gap (half_range d))

unfoldable pub is_newer_or_equal : UIntDomain → ℕ → ℕ → Result Bool
unfolding is_newer
is_newer_or_equal d candidate baseline = elim (candidate == baseline) [
  | Bool.true ↦ ok Bool.true
  | Bool.false ↦ is_newer d candidate baseline
]

abbrev pub u8 : UIntDomain
u8 = record { bits = 8 }

abbrev pub u32 : UIntDomain
u32 = record { bits = 32 }

abbrev pub u64 : UIntDomain
u64 = record { bits = 64 }

pub record RequestFence : Type 0 where
  pub request_slot : ℕ
  pub request_epoch : ℕ

pub record OperationFence : Type 0 where
  pub request : RequestFence
  pub round_id : ℕ
  pub op_seq : ℕ
  pub worker_id : ℕ
  pub worker_generation : ℕ

unfoldable pub matches : RequestFence → RequestFence → Bool
matches a b = a.request_slot == b.request_slot && a.request_epoch == b.request_epoch

unfoldable pub applies_to : OperationFence → OperationFence → Bool
unfolding matches
applies_to fence intent =
    matches fence.request intent.request
    && fence.round_id == intent.round_id
    && fence.op_seq == intent.op_seq
    && fence.worker_id == intent.worker_id
    && fence.worker_generation == intent.worker_generation

unfoldable pub is_stale_request_fact : RequestFence → RequestFence → Bool
is_stale_request_fact current fact =
    current.request_slot == fact.request_slot && not (current.request_epoch == fact.request_epoch)
