-- ===== src/Workers/Banks.antt =====
-- nebulasd/src/nebulasd/workers/banks.py: the physical rows of a worker and its two banks.
-- The set of free rows is a list without repetitions. A layout is an object that `allocate` made,
-- and release compares identities: two of a bank differ in the epoch, which only advances.
pub mod Rows
use nebula_sd.Common.{
  ℕ, zero, suc, ◌+◌, ◌*◌, min, List, map, length, take, drop, Option, none, some, Bool, not, ◌&&◌,
  Result, ok, err, ◌>>=◌, ◌>>◌, raise_if, value_error, runtime_error, index_error, ltb, leb, ◌==◌,
  sum_of, if◌then◌else◌, ◌++◌, [], ◌∷◌,
}
use nebula_sd.Common.Sorting.{sorted}
use nebula_sd.Workers.Work.{Work, RowWork}

pub data Phase : Type 0 where
  free filling ready computing exporting : Phase

pub record Layout : Type 0 where
  pub bank_id : ℕ
  pub bank_epoch : ℕ
  pub rows : List ℕ
  pub offsets : List ℕ
  pub capacities : List ℕ

-- The fields `current` and `pending` belong to the bank's user and are not touched here.
pub record Bank : Type 0 where
  pub epoch : ℕ
  pub phase : Phase
  pub layout : Option Layout
  pub observation_seq : ℕ

pub record Banks : Type 0 where
  pub blocks_per_bank : ℕ
  pub capacity_rows : ℕ
  pub free_rows : List ℕ
  pub first : Bank
  pub second : Bank

abbrev pub fresh_bank : Bank
fresh_bank = record { epoch = 0; phase = free; layout = none; observation_seq = 0 }

-- `range(n)`, counted from `start`.
unfoldable pub range_from : ℕ → ℕ → List ℕ
range_from start zero = []
range_from start (suc n) = start ∷ range_from (suc start) n

unfoldable pub init : ℕ → ℕ → Result Banks
init blocks_per_bank capacity_rows = do
  raise_if (min blocks_per_bank capacity_rows == 0) value_error
  ok (record {
    blocks_per_bank = blocks_per_bank;
    capacity_rows = capacity_rows;
    free_rows = range_from 0 capacity_rows;
    first = fresh_bank;
    second = fresh_bank;
  })

-- `self.banks[bank_id]`
unfoldable pub get_bank : Banks → ℕ → Result Bank
get_bank b bank_id =
    if bank_id == 0 then ok b.first else if bank_id == 1 then ok b.second else err index_error

unfoldable pub set_bank : Banks → ℕ → Bank → Banks
set_bank b bank_id bank =
    if bank_id == 0 then (record b { first = bank }) else (record b { second = bank })

unfoldable pub is_owned : Option Layout → Bool
is_owned none = Bool.false
is_owned (some l) = Bool.true

-- No layout is the answer when there are too few free rows.
unfoldable pub allocate : Banks → Work → Result (Option Layout × Banks)
allocate b work = do
  bank ← get_bank b work.bank_id
  raise_if (is_owned bank.layout) runtime_error
  raise_if (ltb b.blocks_per_bank (sum_of (λ (r : RowWork). r.capacity_blocks) work.rows))
      value_error
  if ltb (length b.free_rows) (length work.rows) then ok (none, b) else (do
    raise_if (leb work.bank_epoch bank.epoch) value_error
    let layout : Layout = record {
      bank_id = work.bank_id;
      bank_epoch = work.bank_epoch;
      rows = take (length work.rows) (sorted leb b.free_rows);
      offsets =
          map (λ (r : RowWork). work.bank_id * b.blocks_per_bank + r.destination_offset) work.rows;
      capacities = map (λ (r : RowWork). r.capacity_blocks) work.rows;
    }
    ok (
      some layout,
      set_bank (record b { free_rows = drop (length work.rows) (sorted leb b.free_rows) })
          work.bank_id
          (record bank {
            layout = some layout;
            epoch = work.bank_epoch;
            phase = filling;
            observation_seq = bank.observation_seq + 1;
          }),
    ))

-- `bank.layout is layout`
unfoldable pub is_layout : Option Layout → Layout → Bool
is_layout none layout = Bool.false
is_layout (some owned) layout =
    (owned.bank_id == layout.bank_id) && (owned.bank_epoch == layout.bank_epoch)

-- The rows of the layout the bank owns.
unfoldable pub rows_of : Option Layout → List ℕ
rows_of none = []
rows_of (some layout) = layout.rows

unfoldable pub release : Banks → Layout → Result Banks
release b layout = do
  bank ← get_bank b layout.bank_id
  raise_if (not (is_layout bank.layout layout)) runtime_error
  ok (
      set_bank (record b { free_rows = rows_of bank.layout ++ b.free_rows }) layout.bank_id
        (record bank { layout = none; phase = free; observation_seq = bank.observation_seq + 1 }))
