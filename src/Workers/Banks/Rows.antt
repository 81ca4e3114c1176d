-- ===== src/Workers/Banks/Rows.antt =====
-- Who owns a row of nebulasd/src/nebulasd/workers/banks.py, and where a layout's blocks lie.
use nebula_sd.Common.{
  ℕ, zero, suc, ◌+◌, ◌*◌, ◌≤◌, ◌<◌, ◌≡◌, refl, ap, subst, ◌∙◌, ◌⊎◌, inl, inr, List, [], ◌∷◌, map,
  length, length-take, take, drop, Option, some, Result, ok, ◌>>=◌, leb, ◌==◌, sum_of,
  sum_of-append, if◌then◌else◌, arith, Result-cases,
}
use nebula_sd.Common.Sorting.{sorted, sum_of-sorted}
use nebula_sd.Workers.Work.{Work, WorkKind, RowWork, checked_work, check_rows, check_row}
use nebula_sd.Workers.Banks.{
  Layout, Banks, range_from, init, get_bank, set_bank, is_owned, allocate, is_layout, rows_of,
  release,
}

-- How often a row stands in a list.
abbrev pub copies_in : ℕ → List ℕ → ℕ
copies_in x = sum_of (λ y. if x == y then 1 else 0)

-- How often a row is free or belongs to a layout.
abbrev pub owners : Banks → ℕ → ℕ
owners b x =
    copies_in x b.free_rows
    + copies_in x (rows_of b.first.layout)
    + copies_in x (rows_of b.second.layout)

sum_of-take-drop :
    (f : ℕ → ℕ) (n : ℕ) (xs : List ℕ) → sum_of f (take n xs) + sum_of f (drop n xs) ≡ sum_of f xs
sum_of-take-drop f zero xs = omega arith
sum_of-take-drop f (suc n) [] = omega arith
sum_of-take-drop f (suc n) (x ∷ xs) = omega (arith, sum_of-take-drop f n xs)

pub data Call : Type 0 where
  allocate_call : Work → Call
  release_call : Layout → Call

unfoldable pub step : Banks → Call → Result Banks
step b (allocate_call work) = do r ← allocate b work; ok r.1
step b (release_call layout) = release b layout

unfoldable pub run : Banks → List Call → Result Banks
unfolding step
run b [] = ok b
run b (c ∷ cs) = do next ← step b c; run next cs

split_rows :
    (x n : ℕ) (xs : List ℕ)
    → copies_in x (take n (sorted leb xs)) + copies_in x (drop n (sorted leb xs)) ≡ copies_in x xs
split_rows x n xs =
    sum_of-take-drop (λ y. if x == y then 1 else 0) n (sorted leb xs)
    ∙ sum_of-sorted leb (λ y. if x == y then 1 else 0) xs

pub allocate-owners :
    (b : Banks) (work : Work) (l : Option Layout) (c : Banks) (x : ℕ)
    → allocate b work ≡ ok (l, c)
    → owners c x ≡ owners b x
unfolding allocate get_bank set_bank is_owned rows_of
allocate-owners b work l c x h =
    let split = split_rows x (length work.rows) b.free_rows in ground (arith, split)

pub release-owners :
    (b : Banks) (layout : Layout) (c : Banks) (x : ℕ)
    → release b layout ≡ ok c
    → owners c x ≡ owners b x
unfolding release get_bank set_bank is_layout rows_of
release-owners b layout c x h =
    let one = sum_of-append (λ y. if x == y then 1 else 0) (rows_of b.first.layout) b.free_rows in
    let two = sum_of-append (λ y. if x == y then 1 else 0) (rows_of b.second.layout) b.free_rows in
    ground (arith, one, two)

run-owners :
    (calls : List Call) (b c : Banks) (x : ℕ) → run b calls ≡ ok c → owners c x ≡ owners b x
unfolding run step
run-owners [] b c x h = ground arith
run-owners (allocate_call work ∷ calls) b c x h = elim (Result-cases (allocate b work)) [
  | inr (_, failed) ↦ absurd (ground (arith, failed))
  | inl ((l, d), done) ↦
      let rest : run d calls ≡ ok c = ground (arith, done) in
      run-owners calls d c x rest ∙ allocate-owners b work l d x done
]
run-owners (release_call layout ∷ calls) b c x h = elim (Result-cases (release b layout)) [
  | inr (_, failed) ↦ absurd (ground (arith, failed))
  | inl (d, done) ↦
      let rest : run d calls ≡ ok c = ground (arith, done) in
      run-owners calls d c x rest ∙ release-owners b layout d x done
]

copies_in-range_from :
    (x start n : ℕ)
    → (start ≤ x → x < start + n → copies_in x (range_from start n) ≡ 1)
      × ((x < start) ⊎ (start + n ≤ x) → copies_in x (range_from start n) ≡ 0)
unfolding range_from
copies_in-range_from x start zero = (λ low high. absurd (omega arith), λ apart. omega arith)
copies_in-range_from x start (suc n) =
    let rest = copies_in-range_from x (suc start) n in
    (λ low high. ground (arith, rest), λ apart. ground (arith, rest))

-- After any calls of `allocate` and `release` that succeed, from a fresh allocator, each row below
-- the row count is free or belongs to the layout of one bank, and to no second place; no other row
-- exists.
pub owners-run_banks :
    (blocks_per_bank capacity_rows : ℕ) (b c : Banks) (calls : List Call) (x : ℕ)
    → init blocks_per_bank capacity_rows ≡ ok b
    → run b calls ≡ ok c
    → (x < capacity_rows → owners c x ≡ 1) × (capacity_rows ≤ x → owners c x ≡ 0)
unfolding init rows_of
owners-run_banks blocks_per_bank capacity_rows b c calls x made done =
    let kept : owners c x ≡ owners b x = run-owners calls b c x done in
    let fresh : owners b x ≡ copies_in x (range_from 0 capacity_rows) = ground arith in
    let counted = copies_in-range_from x 0 capacity_rows in
    (
      λ inside. kept ∙ fresh ∙ counted.0 (omega arith) (omega arith),
      λ outside. kept ∙ fresh ∙ counted.1 (inr (omega arith)),
    )

-- Block ranges one behind the other, from `first` to `last`, none of them empty.
abbrev pub Consecutive : ℕ → List ℕ → List ℕ → ℕ → Type 0
Consecutive first [] [] last = first ≡ last
Consecutive first (o ∷ os) (c ∷ cs) last =
    (o ≡ first) × (0 < c) × Consecutive (first + c) os cs last
Consecutive first os cs last = ⊥

check_row-range :
    (operation : WorkKind) (first : ℕ) (r : RowWork) (u : Unit {0})
    → check_row operation first r ≡ ok u
    → (r.destination_offset ≡ first) × (0 < r.capacity_blocks)
unfolding check_row
check_row-range operation first r u h = ground arith

check_rows-Consecutive :
    (operation : WorkKind) (base first : ℕ) (rows : List RowWork)
    → check_rows operation first rows ≡ ok tt
    → Consecutive
        (base + first)
        (map (λ (r : RowWork). base + r.destination_offset) rows)
        (map (λ (r : RowWork). r.capacity_blocks) rows)
        (base + first + sum_of (λ (r : RowWork). r.capacity_blocks) rows)
unfolding check_rows
check_rows-Consecutive operation base first [] h = omega arith
check_rows-Consecutive operation base first (r ∷ rs) h =
    elim (Result-cases (check_row operation first r)) [
      | inr (_, failed) ↦ absurd (ground (arith, failed))
      | inl (u, done) ↦
          let here = check_row-range operation first r u done in
          let after : check_rows operation (first + r.capacity_blocks) rs ≡ ok tt =
            ground (arith, done) in
          let rest = check_rows-Consecutive operation base (first + r.capacity_blocks) rs after in
          let start : base + (first + r.capacity_blocks) ≡ base + first + r.capacity_blocks =
            omega arith in
          let finish : base
                + (first + r.capacity_blocks)
                + sum_of (λ (x : RowWork). x.capacity_blocks) rs
              ≡ base
                + first
                + (r.capacity_blocks + sum_of (λ (x : RowWork). x.capacity_blocks) rs) =
            omega arith in
          (
            omega (arith, here),
            here.1,
            subst
                (λ k.
                  Consecutive k (map (λ (x : RowWork). base + x.destination_offset) rs)
                    (map (λ (x : RowWork). x.capacity_blocks) rs)
                    (base
                      + first
                      + (r.capacity_blocks + sum_of (λ (x : RowWork). x.capacity_blocks) rs)))
                start
                (subst
                  (Consecutive (base + (first + r.capacity_blocks))
                    (map (λ (x : RowWork). base + x.destination_offset) rs)
                    (map (λ (x : RowWork). x.capacity_blocks) rs))
                  finish rest),
          )
    ]

length-sum_of : (xs : List ℕ) → sum_of (λ x. 1) xs ≡ length xs
length-sum_of [] = refl
length-sum_of (x ∷ xs) = omega (arith, length-sum_of xs)

length-take-sorted : (n : ℕ) (xs : List ℕ) → n ≤ length xs → length (take n (sorted leb xs)) ≡ n
length-take-sorted n xs h = omega (
  arith,
  length-take n (sorted leb xs),
  length-sum_of (sorted leb xs),
  sum_of-sorted leb (λ x. 1) xs,
  length-sum_of xs,
)

-- What an allocation that succeeds has put into its layout, and which tests it has passed.
record Allocated (b : Banks) (work : Work) (l : Layout) : Type 0 where
  bank_id : l.bank_id ≡ work.bank_id
  rows : l.rows ≡ take (length work.rows) (sorted leb b.free_rows)
  enough : length work.rows ≤ length b.free_rows
  offsets :
      l.offsets
      ≡ map (λ (r : RowWork). work.bank_id * b.blocks_per_bank + r.destination_offset) work.rows
  capacities : l.capacities ≡ map (λ (r : RowWork). r.capacity_blocks) work.rows
  fits : sum_of (λ (r : RowWork). r.capacity_blocks) work.rows ≤ b.blocks_per_bank

allocate-Allocated :
    (b : Banks) (work : Work) (l : Layout) (c : Banks)
    → allocate b work ≡ ok (some l, c)
    → Allocated b work l
unfolding allocate get_bank
allocate-Allocated b work l c h = ground arith

checked_work-check_rows :
    (work : Work) → checked_work work ≡ ok work → check_rows work.operation 0 work.rows ≡ ok tt
unfolding checked_work
checked_work-check_rows work h = elim (Result-cases (check_rows work.operation 0 work.rows)) [
  | inr (_, failed) ↦ absurd (ground (arith, failed))
  | inl (u, done) ↦ done
]

-- The layout that work which passes the constructor's tests is given: as many rows as the work has,
-- and block ranges one behind the other from the bank's first block, none of them empty, that end
-- inside the bank.
pub checked_work-allocate_layout :
    (b : Banks) (work : Work) (l : Layout) (c : Banks)
    → checked_work work ≡ ok work
    → allocate b work ≡ ok (some l, c)
    → (length l.rows ≡ length work.rows)
      × (last : ℕ) × Consecutive (l.bank_id * b.blocks_per_bank) l.offsets l.capacities last
      × (last ≤ (l.bank_id + 1) * b.blocks_per_bank)
checked_work-allocate_layout b work l c valid done =
    let al = allocate-Allocated b work l c done in
    let base : ℕ = work.bank_id * b.blocks_per_bank in
    let total : ℕ = sum_of (λ (r : RowWork). r.capacity_blocks) work.rows in
    let chain =
      check_rows-Consecutive work.operation base 0 work.rows (checked_work-check_rows work valid) in
    let zero_first : base + 0 ≡ base = omega arith in
    (
      ap length al.rows ∙ length-take-sorted (length work.rows) b.free_rows al.enough,
      base + total,
      rw (al.bank_id, al.offsets, al.capacities) (rw zero_first at chain),
      rw al.bank_id (omega (arith, al.fits)),
    )
