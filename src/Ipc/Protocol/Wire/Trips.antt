-- ===== src/Ipc/Protocol/Wire/Trips.antt =====
-- What is written of a field is read back, whatever stands behind it: the fields of the commands
-- of nebulasd/src/nebulasd/ipc/protocol.py.
use mathlib.Core.List.{append_assoc, append-nil}
use nebula_sd.Common.{
  ℕ, ◌+◌, ◌*◌, ◌^◌, ◌<◌, ◌≡◌, refl, sym, ap, ◌∙◌, List, [], ◌∷◌, ◌++◌, Result, ok, err, arith,
  length, take, drop,
}
use nebula_sd.Common.Words.{to_bytes, from_bytes, length-to_bytes, from_bytes-to_bytes}
use nebula_sd.Core.Ids.{UIntDomain, u8, u32, u64, validate}
use nebula_sd.Core.Handles.{ArenaHandle, arena_handle}
use nebula_sd.Ipc.Protocol.Rows.{OwnedArenaHandle, checked_owned}
use nebula_sd.Ipc.Protocol.Wire.Reader.{
  Bytes, Reader, bound, ◌>>=◌, lift, written, put_u8, put_u32, put_u64, put_handle,
  put_owned_handle, pack, fixed, before, join, raw_bytes, get_number, get_u8, get_u32, get_u64,
  get_handle, get_owned_handle, get_rows, put_rows,
}

-- The bytes are written, and read as `a` with nothing more or less taken.
pub record Trips {ℓ} {A : Type ℓ} (piece : Result Bytes) (reader : Reader A) (a : A) : Type ℓ where
  pub bytes : Bytes
  pub is_written : piece ≡ ok bytes
  pub is_read : (rest : Bytes) → reader (bytes ++ rest) ≡ ok (a, rest)

pub bind-read {ℓ κ} :
    {A : Type ℓ} {B : Type κ} (reader : Reader A) (continue : A → Reader B) (a : A) (b : B)
    (raw rest last : Bytes)
    → reader raw ≡ ok (a, rest)
    → continue a rest ≡ ok (b, last)
    → (reader >>= continue) raw ≡ ok (b, last)
unfolding ◌>>=◌
bind-read reader continue a b raw rest last first second = ap (λ r. bound r continue) first ∙ second

pub before-Trips {ℓ κ} :
    {A : Type ℓ} {B : Type κ} {piece : Result Bytes} {rest : Result Bytes} {reader : Reader A}
    {a : A} {b : B} (continue : A → Reader B)
    → Trips piece reader a
    → Trips rest (continue a) b
    → Trips (before piece rest) (reader >>= continue) b
unfolding before ◌>>=◌
before-Trips {reader = reader} {a = a} {b = b} continue first second = record {
  bytes = first.bytes ++ second.bytes;
  is_written = rw (first.is_written, second.is_written) refl;
  is_read = λ behind.
      let at = append_assoc first.bytes second.bytes behind in
      ap (reader >>= continue) at
      ∙ bind-read reader continue a b (first.bytes ++ (second.bytes ++ behind))
          (second.bytes ++ behind) behind (first.is_read (second.bytes ++ behind))
          (second.is_read behind);
}

-- What follows the value read takes no bytes.
pub behind-Trips {ℓ κ} :
    {A : Type ℓ} {B : Type κ} {piece : Result Bytes} {reader : Reader A} {a : A} {b : B}
    (continue : A → Reader B)
    → Trips piece reader a
    → ((rest : Bytes) → continue a rest ≡ ok (b, rest))
    → Trips piece (reader >>= continue) b
behind-Trips {reader = reader} {a = a} {b = b} continue trip follows = record {
  bytes = trip.bytes;
  is_written = trip.is_written;
  is_read = λ rest.
      bind-read reader continue a b (trip.bytes ++ rest) rest rest (trip.is_read rest)
        (follows rest);
}

pub last-Trips {ℓ κ} :
    {A : Type ℓ} {B : Type κ} {piece : Result Bytes} {reader : Reader A} {a : A} (f : A → Result B)
    (b : B)
    → Trips piece reader a
    → f a ≡ ok b
    → Trips piece (reader >>= λ x. lift (f x)) b
unfolding lift
last-Trips f b trip computed =
    behind-Trips (λ x. lift (f x)) trip (λ rest. ap (λ k. lift k rest) computed)

pub lift-Trips {ℓ} : {B : Type ℓ} (b : B) (r : Result B) → r ≡ ok b → Trips (join []) (lift r) b
unfolding join lift
lift-Trips b r h = record {
  bytes = [];
  is_written = refl;
  is_read = λ rest. ap (λ k. lift k rest) h;
}

length-append : (bytes rest : Bytes) → length (bytes ++ rest) ≡ length bytes + length rest
length-append [] rest = omega arith
length-append (b ∷ bytes) rest = omega (arith, length-append bytes rest)

take-append : (bytes rest : Bytes) → take (length bytes) (bytes ++ rest) ≡ bytes
take-append [] rest = refl
take-append (b ∷ bytes) rest = ap (◌∷◌ b) (take-append bytes rest)

drop-append : (bytes rest : Bytes) → drop (length bytes) (bytes ++ rest) ≡ rest
drop-append [] rest = refl
drop-append (b ∷ bytes) rest = drop-append bytes rest

raw_bytes-append :
    (bytes rest : Bytes) → raw_bytes (length bytes) (bytes ++ rest) ≡ ok (bytes, rest)
unfolding raw_bytes
raw_bytes-append bytes rest =
    ground (arith, length-append bytes rest, take-append bytes rest, drop-append bytes rest)

get_number-append :
    (width n : ℕ) (rest : Bytes)
    → n < 256 ^ width
    → get_number width (to_bytes width n ++ rest) ≡ ok (n, rest)
unfolding get_number ◌>>=◌ lift
get_number-append width n rest fits =
    let read : raw_bytes width (to_bytes width n ++ rest) ≡ ok (to_bytes width n, rest) =
      rw length-to_bytes at (raw_bytes-append (to_bytes width n) rest) in
    bind-read (raw_bytes width) (λ raw. lift (ok (from_bytes raw))) (to_bytes width n) n
      (to_bytes width n ++ rest) rest rest read
      (ap (λ k. lift (ok k) rest) (from_bytes-to_bytes width n fits))

-- The fields.
written-Trips :
    (d : UIntDomain) (width value : ℕ)
    → value < 256 ^ width
    → validate d value ≡ ok value
    → Trips (written d width value) (get_number width) value
unfolding written
written-Trips d width value fits valid = record {
  bytes = to_bytes width value;
  is_written = rw (valid, written) refl;
  is_read = λ rest. get_number-append width value rest fits;
}

pub u8-Trips : (value : ℕ) → validate u8 value ≡ ok value → Trips (put_u8 value) get_u8 value
unfolding put_u8 get_u8
u8-Trips value valid = written-Trips u8 1 value (ground (arith, validate)) valid

pub u32-Trips : (value : ℕ) → validate u32 value ≡ ok value → Trips (put_u32 value) get_u32 value
unfolding put_u32 get_u32
u32-Trips value valid = written-Trips u32 4 value (ground (arith, validate)) valid

pub u64-Trips : (value : ℕ) → validate u64 value ≡ ok value → Trips (put_u64 value) get_u64 value
unfolding put_u64 get_u64
u64-Trips value valid = written-Trips u64 8 value (ground (arith, validate)) valid

pub pack-Trips :
    (width value : ℕ) → value < 256 ^ width → Trips (pack width value) (get_number width) value
unfolding pack
pack-Trips width value fits = record {
  bytes = to_bytes width value;
  is_written = ground arith;
  is_read = λ rest. get_number-append width value rest fits;
}

pub fixed-Trips :
    (width value : ℕ) → value < 256 ^ width → Trips (fixed width value) (get_number width) value
unfolding fixed
fixed-Trips width value fits = record {
  bytes = to_bytes width value;
  is_written = ground arith;
  is_read = λ rest. get_number-append width value rest fits;
}

-- A handle that its constructor built.
abbrev pub IsHandle : ArenaHandle → Type 0
IsHandle h =
    (validate u64 h.offset ≡ ok h.offset)
    × (validate u32 h.length ≡ ok h.length)
    × (validate u32 h.generation ≡ ok h.generation)

pub handle-Trips : (h : ArenaHandle) → IsHandle h → Trips (put_handle h) get_handle h
unfolding put_handle get_handle join
handle-Trips h (offset, len, generation) = before-Trips _ (u64-Trips h.offset offset) (
    before-Trips _ (u32-Trips h.length len) (
      before-Trips _ (u32-Trips h.generation generation) (
        lift-Trips h (arena_handle h.offset h.length h.generation)
          (ground (arith, offset, len, generation)))))

abbrev pub IsOwned : OwnedArenaHandle → Type 0
IsOwned h =
    (validate u32 h.owner_worker_id ≡ ok h.owner_worker_id)
    × (validate u64 h.owner_generation ≡ ok h.owner_generation)
    × IsHandle h.handle

pub owned_handle-Trips :
    (h : OwnedArenaHandle) → IsOwned h → Trips (put_owned_handle h) get_owned_handle h
unfolding put_owned_handle get_owned_handle join
owned_handle-Trips h (worker, generation, handle) =
    before-Trips _ (u32-Trips h.owner_worker_id worker) (
      before-Trips _ (u64-Trips h.owner_generation generation) (
        before-Trips _ (handle-Trips h.handle handle)
          (lift-Trips h (checked_owned h) (ground (arith, worker, generation)))))

abbrev pub All {ℓ κ} : {A : Type ℓ} → (A → Type κ) → List A → Type κ
All P [] = Unit
All P (a ∷ rest) = P a × All P rest

-- Rows one behind the other.
pub rows-Trips {ℓ κ} :
    {Row : Type ℓ} (Built : Row → Type κ) (put : Row → Result Bytes) (read : Reader Row)
    → ((row : Row) → Built row → Trips (put row) read row)
    → (rows : List Row) → All Built rows
    → Trips (put_rows put rows) (get_rows read (length rows)) rows
unfolding put_rows get_rows join
rows-Trips Built put read trips [] built = lift-Trips [] (ok []) refl
rows-Trips Built put read trips (row ∷ rows) built = before-Trips _ (trips row built.0) (
    last-Trips (λ rest. ok (row ∷ rest)) (row ∷ rows) (rows-Trips Built put read trips rows built.1)
      refl)

-- The fields of `struct.pack`, and a number's own bytes.
pub u32_packed-Trips :
    (value : ℕ) → validate u32 value ≡ ok value → Trips (pack 4 value) get_u32 value
unfolding get_u32 validate
u32_packed-Trips value valid = pack-Trips 4 value (ground (arith, validate))

pub u64_packed-Trips :
    (value : ℕ) → validate u64 value ≡ ok value → Trips (pack 8 value) get_u64 value
unfolding get_u64 validate
u64_packed-Trips value valid = pack-Trips 8 value (ground (arith, validate))

pub number-Trips : (value : ℕ) → validate u32 value ≡ ok value → Trips (fixed 4 value) get_u32 value
unfolding get_u32 validate
number-Trips value valid = fixed-Trips 4 value (ground (arith, validate))

-- Pieces of a known length.
abbrev pub Sized : ℕ → Result Bytes → Type 0
Sized n piece = (bytes : Bytes) → piece ≡ ok bytes → length bytes ≡ n

pub nil-Sized : Sized 0 (ok [])
nil-Sized bytes written = ground arith

pub pack-Sized : (width value : ℕ) → Sized width (pack width value)
unfolding pack
pack-Sized width value bytes written = ground (arith, length-to_bytes width value)

pub before-Sized :
    {n m : ℕ} {piece rest : Result Bytes}
    → Sized n piece
    → Sized m rest
    → Sized (n + m) (before piece rest)
unfolding before
before-Sized {piece = err x} first second bytes written = absurd (ground arith)
before-Sized {piece = ok a} {rest = err x} first second bytes written = absurd (ground arith)
before-Sized {piece = ok a} {rest = ok b} first second bytes written =
    let at : a ++ b ≡ bytes = ground arith in
    let sum = length-append a b in
    ap length (sym at) ∙ omega (arith, sum, first a refl, second b refl)

-- A run of bytes that is taken whole and read by itself.
pub raw-Trips {ℓ} :
    {A : Type ℓ} {piece : Result Bytes} {reader : Reader A} (n : ℕ) (parse : Bytes → Result A)
    (a : A) (trip : Trips piece reader a)
    → length trip.bytes ≡ n
    → parse trip.bytes ≡ ok a
    → Trips piece (raw_bytes n >>= λ raw. lift (parse raw)) a
raw-Trips n parse a trip size parsed =
    last-Trips parse a
      (record {
        bytes = trip.bytes;
        is_written = trip.is_written;
        is_read = λ rest. rw size at (raw_bytes-append trip.bytes rest);
      })
      parsed

pub u8_packed-Trips : (value : ℕ) → validate u8 value ≡ ok value → Trips (pack 1 value) get_u8 value
unfolding get_u8 validate
u8_packed-Trips value valid = pack-Trips 1 value (ground (arith, validate))

-- A test takes no bytes.
pub skip-Trips {ℓ κ} :
    {A : Type ℓ} {B : Type κ} {piece : Result Bytes} {a : A} {b : B} (r : Result A)
    (continue : A → Reader B)
    → r ≡ ok a
    → Trips piece (continue a) b
    → Trips piece (lift r >>= continue) b
unfolding lift
skip-Trips {a = a} {b = b} r continue passed trip = record {
  bytes = trip.bytes;
  is_written = trip.is_written;
  is_read = λ rest.
      bind-read (lift r) continue a b (trip.bytes ++ rest) (trip.bytes ++ rest) rest
        (ap (λ k. lift k (trip.bytes ++ rest)) passed) (trip.is_read rest);
}

-- Nothing stands behind the last piece.
pub end-Trips {ℓ} :
    {A : Type ℓ} {piece : Result Bytes} {reader : Reader A} {a : A}
    → Trips piece reader a
    → Trips (before piece (ok [])) reader a
unfolding before
end-Trips trip = record {
  bytes = trip.bytes;
  is_written = rw trip.is_written (ap ok (append-nil trip.bytes));
  is_read = trip.is_read;
}

-- Fixed bytes.
pub literal-Trips : (bytes : Bytes) → Trips (ok bytes) (raw_bytes (length bytes)) bytes
literal-Trips bytes = record {
  bytes = bytes;
  is_written = refl;
  is_read = λ rest. raw_bytes-append bytes rest;
}

pub literal-Sized : (bytes : Bytes) → Sized (length bytes) (ok bytes)
literal-Sized bytes other written = let at : bytes ≡ other = ground arith in ap length (sym at)

pub rows-Sized {ℓ} :
    {Row : Type ℓ} (width : ℕ) (put : Row → Result Bytes)
    → ((row : Row) → Sized width (put row))
    → (rows : List Row) → Sized (length rows * width) (put_rows put rows)
unfolding put_rows
rows-Sized width put sized [] = λ bytes written. omega (arith, nil-Sized bytes written)
rows-Sized width put sized (row ∷ rows) = λ bytes written.
    let both = before-Sized (sized row) (rows-Sized width put sized rows) bytes written in
    ground (arith, both)

-- The number of rows fits its field.
abbrev pub IsCounted {ℓ} : {Row : Type ℓ} → List Row → Type 0
IsCounted rows = validate u32 (length rows) ≡ ok (length rows)
