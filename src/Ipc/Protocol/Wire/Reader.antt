-- ===== src/Ipc/Protocol/Wire/Reader.antt =====
-- Writing and reading the fields of a command: `_u8`, `_u32`, `_u64`, `_handle` and _PayloadReader
-- of nebulasd/src/nebulasd/ipc/protocol.py. A reader is represented by the bytes it has not read.
use nebula_sd.Common.{
  ℕ, zero, suc, ◌^◌, List, [], ◌∷◌, ◌++◌, Result, ok, err, value_error, struct_error,
  overflow_error, ltb, ◌==◌, if◌then◌else◌, length, take, drop,
}
use nebula_sd.Common.Words.{to_bytes, from_bytes}
use nebula_sd.Core.Ids.{UIntDomain, u8, u32, u64, validate}
use nebula_sd.Core.Handles.{ArenaHandle, arena_handle}
use nebula_sd.Ipc.Protocol.Rows.{OwnedArenaHandle, checked_owned}

abbrev pub Bytes : Type 0
Bytes = List ℕ

unfoldable pub written : UIntDomain → ℕ → ℕ → Result Bytes
unfolding validate
written d width value = elim (validate d value) [ ok _ ↦ ok (to_bytes width value) | err x ↦ err x ]

unfoldable pub put_u8 : ℕ → Result Bytes
unfolding written
put_u8 value = written u8 1 value

unfoldable pub put_u32 : ℕ → Result Bytes
unfolding written
put_u32 value = written u32 4 value

unfoldable pub put_u64 : ℕ → Result Bytes
unfolding written
put_u64 value = written u64 8 value

-- `struct.pack` of one little-endian field of so many bytes.
unfoldable pub pack : ℕ → ℕ → Result Bytes
unfolding to_bytes
pack width value = if ltb value (256 ^ width) then ok (to_bytes width value) else err struct_error

-- `value.to_bytes(width, "little")`
unfoldable pub fixed : ℕ → ℕ → Result Bytes
unfolding to_bytes
fixed width value =
    if ltb value (256 ^ width) then ok (to_bytes width value) else err overflow_error

-- One piece and what is written behind it.
unfoldable pub before : Result Bytes → Result Bytes → Result Bytes
before (err x) rest = err x
before (ok bytes) (err x) = err x
before (ok bytes) (ok rest) = ok (bytes ++ rest)

-- `a + b + … `
unfoldable pub join : List (Result Bytes) → Result Bytes
unfolding before
join [] = ok []
join (piece ∷ pieces) = before piece (join pieces)

unfoldable pub put_handle : ArenaHandle → Result Bytes
unfolding join put_u32 put_u64
put_handle h = join (put_u64 h.offset ∷ put_u32 h.length ∷ put_u32 h.generation ∷ [])

unfoldable pub put_owned_handle : OwnedArenaHandle → Result Bytes
unfolding join put_u32 put_u64 put_handle
put_owned_handle h =
    join (put_u32 h.owner_worker_id ∷ put_u64 h.owner_generation ∷ put_handle h.handle ∷ [])

abbrev pub Reader {ℓ} : Type ℓ → Type ℓ
Reader A = Bytes → Result (A × Bytes)

-- What is done behind a reader that has run.
unfoldable pub bound {ℓ κ} :
    {A : Type ℓ} {B : Type κ} → Result (A × Bytes) → (A → Reader B) → Result (B × Bytes)
bound (err x) continue = err x
bound (ok (a, rest)) continue = continue a rest

infixl 5 ◌>>=◌ ◌>>◌
unfoldable pub ◌>>=◌ {ℓ κ} : {A : Type ℓ} {B : Type κ} → Reader A → (A → Reader B) → Reader B
unfolding bound
reader >>= continue = λ raw. bound (reader raw) continue

unfoldable pub ◌>>◌ {ℓ κ} : {A : Type ℓ} {B : Type κ} → Reader A → Reader B → Reader B
unfolding ◌>>=◌
reader >> after = reader >>= λ _. after

-- What is computed without reading.
unfoldable pub lift {ℓ} : {A : Type ℓ} → Result A → Reader A
lift (ok a) = λ raw. ok (a, raw)
lift (err x) = λ raw. err x

-- `raw(size)`, with the test of `_require`.
unfoldable pub raw_bytes : ℕ → Reader Bytes
raw_bytes size =
    λ raw. if ltb (length raw) size then err value_error else ok (take size raw, drop size raw)

unfoldable pub get_number : ℕ → Reader ℕ
unfolding raw_bytes ◌>>=◌ lift from_bytes
get_number width = do raw ← raw_bytes width; lift (ok (from_bytes raw))

unfoldable pub get_u8 : Reader ℕ
unfolding get_number
get_u8 = get_number 1

unfoldable pub get_u32 : Reader ℕ
unfolding get_number
get_u32 = get_number 4

unfoldable pub get_u64 : Reader ℕ
unfolding get_number
get_u64 = get_number 8

unfoldable pub get_handle : Reader ArenaHandle
unfolding get_u32 get_u64 arena_handle ◌>>=◌ lift
get_handle = do
  offset ← get_u64
  length ← get_u32
  generation ← get_u32
  lift (arena_handle offset length generation)

unfoldable pub get_owned_handle : Reader OwnedArenaHandle
unfolding get_u32 get_u64 get_handle checked_owned ◌>>=◌ lift
get_owned_handle = do
  owner_worker_id ← get_u32
  owner_generation ← get_u64
  handle ← get_handle
  lift (
      checked_owned (record {
        owner_worker_id = owner_worker_id;
        owner_generation = owner_generation;
        handle = handle;
      }))

-- `finish`
unfoldable pub finish : Reader (Unit {0})
finish = λ raw. if length raw == 0 then ok (tt, raw) else err value_error

-- `tuple(read(reader) for _ in range(count))`
unfoldable pub get_rows {ℓ} : {Row : Type ℓ} → Reader Row → ℕ → Reader (List Row)
unfolding ◌>>=◌ lift
get_rows read zero = lift (ok [])
get_rows read (suc count) = do row ← read; rows ← get_rows read count; lift (ok (row ∷ rows))

-- The rows of a command, one behind the other.
unfoldable pub put_rows {ℓ} : {Row : Type ℓ} → (Row → Result Bytes) → List Row → Result Bytes
unfolding before
put_rows put [] = ok []
put_rows put (row ∷ rows) = before (put row) (put_rows put rows)
