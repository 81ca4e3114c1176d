-- ===== src/Ipc/Ring.antt =====
-- The cells, cursors and count that `CommandRing` (ipc/command_ring.py) and `StateChangeRing`
-- (ipc/state_change_ring.py) keep alike, and the queue that they stand for.
pub mod Queue
use nebula_sd.Common.{
  ℕ, ◌+◌, ◌-◌, ◌%◌, Bool, List, Option, none, some, length, get_elem?, set, replicate, ◌==◌,
}

pub record Ring {ℓ} (A : Type ℓ) : Type ℓ where
  pub entries : List (Option A)
  pub head : ℕ
  pub tail : ℕ
  pub size : ℕ

module _ {ℓ} {A : Type ℓ} where
  unfoldable pub empty : ℕ → Ring A
  empty capacity = record { entries = replicate capacity none; head = 0; tail = 0; size = 0 }

  abbrev pub capacity : Ring A → ℕ
  capacity r = length r.entries

  abbrev pub is_full : Ring A → Bool
  is_full r = r.size == capacity r

  -- The four lines that write a cell.
  unfoldable pub store : Ring A → A → Ring A
  store r a = record r {
    entries = set r.entries r.tail (some a);
    tail = (r.tail + 1) % capacity r;
    size = r.size + 1;
  }

  -- `self._entries[self._head]`, where no cell and an empty cell are alike.
  unfoldable pub first : Ring A → Option A
  first r = elim (get_elem? r.entries r.head) [ none ↦ none | some cell ↦ cell ]

  -- The three lines that clear it.
  unfoldable pub advance : Ring A → Ring A
  advance r = record r {
    entries = set r.entries r.head none;
    head = (r.head + 1) % capacity r;
    size = r.size - 1;
  }
