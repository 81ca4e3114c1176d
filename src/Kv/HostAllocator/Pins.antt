-- ===== src/Kv/HostAllocator/Pins.antt =====
-- When nebulasd/src/nebulasd/kv/host_allocator.py grants a pin, and what its release restores.
use nebula_sd.Common.{
  ℕ, ◌≡◌, ok, some, arith, Bool, true, false, refl, ◌∙◌, ◌||◌, ◌&&◌, not, ◌==◌, if◌then◌else◌, ap,
}
use nebula_sd.Common.Assoc.{lookup, insert, lookup-insert_self}
use nebula_sd.Kv.Arena.{HostKvExtent}
use nebula_sd.Kv.HostAllocator.{
  Allocation, HostKvAllocator, require, same_extent, pin_entry, pin, unpin_entry, unpin,
}

same_extent_of_eq : (e f : HostKvExtent) → e ≡ f → same_extent e f ≡ true
unfolding same_extent
same_extent_of_eq e f h = ground arith

require_found :
    (a : HostKvAllocator) (x : Allocation) (slot epoch : ℕ)
    → lookup slot a.allocations ≡ some x
    → x.extent.request_epoch ≡ epoch
    → require a slot epoch ≡ ok x
unfolding require
require_found a x slot epoch live same = ground arith

abbrev with_entry : HostKvAllocator → ℕ → Allocation → HostKvAllocator
with_entry a slot y = record a { allocations = insert slot y a.allocations }

pin_free :
    (a : HostKvAllocator) (x : Allocation) (write : Bool)
    → lookup x.extent.request_slot a.allocations ≡ some x
    → (x.writing || (write && not (x.readers == 0))) ≡ false
    → pin a x.extent write ≡ ok (true, with_entry a x.extent.request_slot (pin_entry write x))
unfolding pin
pin_free a x write live free =
    rw (require_found a x _ _ live refl, same_extent_of_eq x.extent x.extent refl, free)

unpin_held :
    (a : HostKvAllocator) (x : Allocation) (e : HostKvExtent) (write : Bool)
    → lookup e.request_slot a.allocations ≡ some x
    → x.extent ≡ e
    → (if write then not x.writing else x.readers == 0) ≡ false
    → unpin a e write ≡ ok (with_entry a e.request_slot (unpin_entry write x))
unfolding unpin
unpin_held a x e write live same held = rw (
  require_found a x e.request_slot e.request_epoch live
      (ap (λ (f : HostKvExtent). f.request_epoch) same),
  same_extent_of_eq x.extent e same,
  held,
)

pin_entry_held :
    (x : Allocation) (write : Bool)
    → (if write then not (pin_entry write x).writing else (pin_entry write x).readers == 0) ≡ false
unfolding pin_entry
pin_entry_held x true = refl
pin_entry_held x false = ground arith

unpin_entry-pin_entry :
    (x : Allocation) (write : Bool)
    → (x.writing || (write && not (x.readers == 0))) ≡ false
    → unpin_entry write (pin_entry write x) ≡ x
unfolding pin_entry unpin_entry
unpin_entry-pin_entry x true free = ground arith
unpin_entry-pin_entry x false free = ground arith

pin_entry-extent : (x : Allocation) (write : Bool) → (pin_entry write x).extent ≡ x.extent
unfolding pin_entry
pin_entry-extent x true = refl
pin_entry-extent x false = refl

-- The extent of a live allocation with no writer, and with no reader where a writer asks, is pinned;
-- the pin can be released, and that restores the allocation.
pub unpin-pin :
    (a : HostKvAllocator) (x : Allocation) (write : Bool)
    → lookup x.extent.request_slot a.allocations ≡ some x
    → (x.writing || (write && not (x.readers == 0))) ≡ false
    → (a' a'' : HostKvAllocator) × (pin a x.extent write ≡ ok (true, a'))
      × (unpin a' x.extent write ≡ ok a'')
      × (lookup x.extent.request_slot a''.allocations ≡ some x)
unpin-pin a x write live free = (
  with_entry a slot y,
  with_entry (with_entry a slot y) slot (unpin_entry write y),
  pin_free a x write live free,
  unpin_held (with_entry a slot y) y x.extent write (lookup-insert_self slot y a.allocations)
      (pin_entry-extent x write) (pin_entry_held x write),
  lookup-insert_self slot (unpin_entry write y) _ ∙ ap some (unpin_entry-pin_entry x write free),
)
  where
    slot : ℕ
    slot = x.extent.request_slot

    y : Allocation
    y = pin_entry write x
