-- ===== src/Workers/Work/RowTrips.antt =====
-- A row of nebulasd/src/nebulasd/workers/work.py is read as written, and takes its fixed number of
-- bytes.
use nebula_sd.Common.{
  ℕ, ◌-◌, ◌^◌, ◌<◌, ◌≡◌, refl, ok, arith, [], ◌∷◌, Option, none, some, replicate, ◌==◌,
  if◌then◌else◌,
}
use nebula_sd.Core.Handles.{ArenaHandle, arena_handle}
use nebula_sd.Ipc.Protocol.Wire.Reader.{join, pack, get_u8, get_u32, get_u64, get_handle}
use nebula_sd.Ipc.Protocol.Wire.Trips.{
  Trips, IsHandle, before-Trips, last-Trips, lift-Trips, literal-Trips, pack-Trips,
  u32_packed-Trips, u64_packed-Trips, Sized, pack-Sized, before-Sized, nil-Sized, literal-Sized,
}
use nebula_sd.Workers.Work.{Selector, TableDependency, RowWork}
use nebula_sd.Workers.Work.Bytes.{
  selector_number, selector_of, pad, put_dependency, dependency_of, get_dependency, put_optional,
  get_optional, put_raw_handle, put_row, get_row, row_bytes,
}

pub u8_fits-Trips : (value : ℕ) → value < 256 ^ 1 → Trips (pack 1 value) get_u8 value
unfolding get_u8
u8_fits-Trips value fits = pack-Trips 1 value fits

pub u32_fits-Trips : (value : ℕ) → value < 256 ^ 4 → Trips (pack 4 value) get_u32 value
unfolding get_u32
u32_fits-Trips value fits = pack-Trips 4 value fits

pub u64_fits-Trips : (value : ℕ) → value < 256 ^ 8 → Trips (pack 8 value) get_u64 value
unfolding get_u64
u64_fits-Trips value fits = pack-Trips 8 value fits

raw_handle-Trips : (h : ArenaHandle) → IsHandle h → Trips (put_raw_handle h) get_handle h
unfolding put_raw_handle get_handle join
raw_handle-Trips h (offset, len, generation) = before-Trips _ (u64_packed-Trips h.offset offset) (
    before-Trips _ (u32_packed-Trips h.length len) (
      before-Trips _ (u32_packed-Trips h.generation generation) (
        lift-Trips h (arena_handle h.offset h.length h.generation)
          (ground (arith, offset, len, generation)))))

-- The numbers of a dependency fit their fields.
abbrev pub FitsDependency : Option TableDependency → Type 0
FitsDependency none = Unit {0}
FitsDependency (some d) =
    (d.kind < 256 ^ 4)
    × (d.slot < 256 ^ 4)
    × (d.request_epoch < 256 ^ 8)
    × (d.expected_ticket < 256 ^ 8)

selector_lem :
    (s : Selector)
    → (selector_number s < 256 ^ 4)
      × (0 < selector_number s)
      × (selector_of (selector_number s) ≡ ok s)
unfolding selector_of
selector_lem Selector.target_host = (omega arith, omega arith, refl)
selector_lem Selector.draft_host = (omega arith, omega arith, refl)
selector_lem Selector.proposal = (omega arith, omega arith, refl)
selector_lem Selector.delta = (omega arith, omega arith, refl)
selector_lem Selector.classified = (omega arith, omega arith, refl)
selector_lem Selector.target_decision = (omega arith, omega arith, refl)

fields-Trips :
    (kind slot epoch ticket number : ℕ) (d : Option TableDependency)
    → kind < 256 ^ 4
    → slot < 256 ^ 4
    → epoch < 256 ^ 8
    → ticket < 256 ^ 8
    → number < 256 ^ 4
    → dependency_of kind slot epoch ticket number ≡ ok d
    → Trips
        (join
          (pack 4 kind ∷ pack 4 slot ∷ pack 8 epoch ∷ pack 8 ticket ∷ pack 4 number ∷ pad 4 ∷ []))
        get_dependency
        d
unfolding get_dependency join pad
fields-Trips kind slot epoch ticket number d fk fs fe ft fn means =
    before-Trips _ (u32_fits-Trips kind fk) (
      before-Trips _ (u32_fits-Trips slot fs) (
        before-Trips _ (u64_fits-Trips epoch fe) (
          before-Trips _ (u64_fits-Trips ticket ft) (
            before-Trips _ (u32_fits-Trips number fn) (
              before-Trips _ (literal-Trips (replicate 4 0))
                (lift-Trips d (dependency_of kind slot epoch ticket number) means))))))

dependency-Trips :
    (d : Option TableDependency) → FitsDependency d → Trips (put_dependency d) get_dependency d
unfolding put_dependency dependency_of
dependency-Trips none fits =
    fields-Trips 0 0 0 0 0 none (omega arith) (omega arith) (omega arith) (omega arith)
      (omega arith) refl
dependency-Trips (some d) fits =
    let s = selector_lem d.selector in
    fields-Trips d.kind d.slot d.request_epoch d.expected_ticket (selector_number d.selector)
      (some d) fits.0 fits.1 fits.2 fits.3 s.0 (ground (arith, s.1, s.2))

-- An optional number fits, and is not the mark of an absent one.
abbrev pub FitsOptional : Option ℕ → Type 0
FitsOptional none = Unit {0}
FitsOptional (some n) = n < 2 ^ 64 - 1

optional-Trips : (o : Option ℕ) → FitsOptional o → Trips (put_optional o) get_optional o
unfolding put_optional get_optional
optional-Trips none fits =
    last-Trips (λ n. ok (if n == 2 ^ 64 - 1 then none else some n)) none
      (u64_fits-Trips (2 ^ 64 - 1) (omega arith)) refl
optional-Trips (some n) fits =
    last-Trips (λ k. ok (if k == 2 ^ 64 - 1 then none else some k)) (some n)
      (u64_fits-Trips n (omega (arith, fits))) (ground (arith, fits))

-- The numbers of a row fit their fields, its handles were built, and its owner epoch and layout id
-- are not the mark of an absent one.
abbrev pub FitsRow : RowWork → Type 0
FitsRow r =
    ((r.slot < 256 ^ 4)
      × (r.epoch < 256 ^ 8)
      × (r.round_id < 256 ^ 8)
      × (r.run_seq < 256 ^ 8)
      × (r.destination_offset < 256 ^ 4)
      × (r.capacity_blocks < 256 ^ 4)
      × (r.host_offset < 256 ^ 8)
      × (r.host_capacity < 256 ^ 8)
      × (r.host_arena < 256 ^ 4)
      × (r.host_generation < 256 ^ 8)
      × (r.host_slot < 256 ^ 4)
      × (r.writer_generation < 256 ^ 8))
    × IsHandle r.prompt
    × IsHandle r.config
    × IsHandle r.output
    × ((r.token_budget < 256 ^ 4) × (r.max_new_tokens < 256 ^ 4) × (r.prompt_count < 256 ^ 4))
    × FitsDependency r.source
    × FitsDependency r.predecessor
    × FitsDependency r.classified
    × FitsOptional r.owner_epoch
    × FitsOptional r.layout_id

pub row-Trips : (r : RowWork) → FitsRow r → Trips (put_row r) get_row r
unfolding put_row get_row join
row-Trips r fits = before-Trips _ (u32_fits-Trips r.slot fits.0.0) (
    before-Trips _ (u64_fits-Trips r.epoch fits.0.1) (
      before-Trips _ (u64_fits-Trips r.round_id fits.0.2) (
        before-Trips _ (u64_fits-Trips r.run_seq fits.0.3) (
          before-Trips _ (u32_fits-Trips r.destination_offset fits.0.4) (
            before-Trips _ (u32_fits-Trips r.capacity_blocks fits.0.5) (
              before-Trips _ (u64_fits-Trips r.host_offset fits.0.6) (
                before-Trips _ (u64_fits-Trips r.host_capacity fits.0.7) (
                  before-Trips _ (u32_fits-Trips r.host_arena fits.0.8) (
                    before-Trips _ (u64_fits-Trips r.host_generation fits.0.9) (
                      before-Trips _ (u32_fits-Trips r.host_slot fits.0.10) (
                        before-Trips _ (u64_fits-Trips r.writer_generation fits.0.11) (
                          before-Trips _ (raw_handle-Trips r.prompt fits.1) (
                            before-Trips _ (raw_handle-Trips r.config fits.2) (
                              before-Trips _ (raw_handle-Trips r.output fits.3) (
                                before-Trips _ (u32_fits-Trips r.token_budget fits.4.0) (
                                  before-Trips _ (u32_fits-Trips r.max_new_tokens fits.4.1) (
                                    before-Trips _ (u32_fits-Trips r.prompt_count fits.4.2) (
                                      before-Trips _ (dependency-Trips r.source fits.5) (
                                        before-Trips _ (dependency-Trips r.predecessor fits.6) (
                                          before-Trips _ (dependency-Trips r.classified fits.7) (
                                            before-Trips _ (optional-Trips r.owner_epoch fits.8) (
                                              before-Trips _ (optional-Trips r.layout_id fits.9)
                                                (lift-Trips r (ok r) refl)))))))))))))))))))))))

raw_handle-Sized : (h : ArenaHandle) → Sized 16 (put_raw_handle h)
unfolding put_raw_handle join
raw_handle-Sized h =
    before-Sized (pack-Sized 8 h.offset)
      (before-Sized (pack-Sized 4 h.length) (before-Sized (pack-Sized 4 h.generation) nil-Sized))

dependency-Sized : (d : Option TableDependency) → Sized 32 (put_dependency d)
unfolding put_dependency join pad
dependency-Sized none = literal-Sized (replicate 32 0)
dependency-Sized (some d) = before-Sized (pack-Sized 4 d.kind) (
    before-Sized (pack-Sized 4 d.slot) (
      before-Sized (pack-Sized 8 d.request_epoch) (
        before-Sized (pack-Sized 8 d.expected_ticket) (
          before-Sized (pack-Sized 4 (selector_number d.selector))
            (before-Sized (literal-Sized (replicate 4 0)) nil-Sized)))))

optional-Sized : (o : Option ℕ) → Sized 8 (put_optional o)
unfolding put_optional
optional-Sized none = pack-Sized 8 (2 ^ 64 - 1)
optional-Sized (some n) = pack-Sized 8 n

pub row-Sized : (r : RowWork) → Sized row_bytes (put_row r)
unfolding put_row join
row-Sized r = before-Sized (pack-Sized 4 r.slot) (
    before-Sized (pack-Sized 8 r.epoch) (
      before-Sized (pack-Sized 8 r.round_id) (
        before-Sized (pack-Sized 8 r.run_seq) (
          before-Sized (pack-Sized 4 r.destination_offset) (
            before-Sized (pack-Sized 4 r.capacity_blocks) (
              before-Sized (pack-Sized 8 r.host_offset) (
                before-Sized (pack-Sized 8 r.host_capacity) (
                  before-Sized (pack-Sized 4 r.host_arena) (
                    before-Sized (pack-Sized 8 r.host_generation) (
                      before-Sized (pack-Sized 4 r.host_slot) (
                        before-Sized (pack-Sized 8 r.writer_generation) (
                          before-Sized (raw_handle-Sized r.prompt) (
                            before-Sized (raw_handle-Sized r.config) (
                              before-Sized (raw_handle-Sized r.output) (
                                before-Sized (pack-Sized 4 r.token_budget) (
                                  before-Sized (pack-Sized 4 r.max_new_tokens) (
                                    before-Sized (pack-Sized 4 r.prompt_count) (
                                      before-Sized (dependency-Sized r.source) (
                                        before-Sized (dependency-Sized r.predecessor) (
                                          before-Sized (dependency-Sized r.classified) (
                                            before-Sized (optional-Sized r.owner_epoch) (
                                              before-Sized (optional-Sized r.layout_id)
                                                nil-Sized))))))))))))))))))))))
