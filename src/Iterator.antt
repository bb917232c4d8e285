-- ===== src/Iterator.antt =====
-- src/util/DatagramIterator.h: a cursor that reads the values of a datagram one by one.
pub mod Cursor
pub mod Header
mod Tests
use astron.Base.{
  ℕ, ◌+◌, ◌-◌, ◌*◌, ◌%◌, ◌^◌, ◌≡◌, List, [], ◌∷◌, Bool, true, false, ltb, ◌!=◌, if◌then◌else◌,
}
use astron.Base.Result.{Result, Exception, ok, err, fault, iterator_eof}
use astron.Bytes.{le_value}
use astron.Datagram.{Datagram, memory_read, size, of_data, to_dgsize, to_size_t}

pub record DatagramIterator : Type 0 where
  pub dg : Datagram
  pub offset : ℕ

-- A reading method: its result or exception, and the iterator as the method leaves it.
abbrev pub Reader {ℓ} : Type ℓ → Type ℓ
Reader A = DatagramIterator → Result A × DatagramIterator

abbrev pub and_then {ℓ κ} :
    {A : Type ℓ} {B : Type κ}
    → Result A × DatagramIterator
    → (A → Reader B)
    → Result B × DatagramIterator
and_then (ok a, dgi) f = f a dgi
and_then (err e, dgi) f = (err e, dgi)

infixl 5 ◌>>=◌ ◌>>◌
abbrev pub ◌>>=◌ {ℓ κ} : {A : Type ℓ} {B : Type κ} → Reader A → (A → Reader B) → Reader B
◌>>=◌ m f dgi = and_then (m dgi) f

abbrev pub ◌>>◌ {ℓ κ} : {A : Type ℓ} {B : Type κ} → Reader A → Reader B → Reader B
m >> k = m >>= λ _. k

abbrev pub returns {ℓ} : {A : Type ℓ} → A → Reader A
returns a dgi = (ok a, dgi)

abbrev pub throws {ℓ} : {A : Type ℓ} → Exception → Reader A
throws e dgi = (err e, dgi)

unfoldable pub check_read_length : ℕ → Reader (Unit {0})
check_read_length len dgi =
    let new_offset = to_size_t (dgi.offset + len) in
    if ltb (size dgi.dg) new_offset then (err iterator_eof, dgi) else (ok tt, dgi)

-- The bytes at get_data() + m_offset.
unfoldable pub load : ℕ → Reader (List ℕ)
load len dgi = (memory_read dgi.dg.buf dgi.offset len, dgi)

unfoldable pub advance : ℕ → Reader (Unit {0})
advance len dgi = (ok tt, record dgi { offset = to_size_t (dgi.offset + len) })

-- read_data, and the shape of every read_<value>: check, load, step over.
unfoldable pub read_data : ℕ → Reader (List ℕ)
read_data len = do check_read_length len; bytes ← load len; advance len; returns bytes

-- The constructor.
unfoldable pub iterate : Datagram → ℕ → Result (Unit {0}) × DatagramIterator
iterate dg offset = check_read_length 0 (record { dg = dg; offset = offset })

-- A signed value is read as its bit pattern, and so is a float.
unfoldable pub read_uint8 : Reader ℕ
read_uint8 = do bytes ← read_data 1; returns (le_value bytes)

unfoldable pub read_uint16 : Reader ℕ
read_uint16 = do bytes ← read_data 2; returns (le_value bytes)

unfoldable pub read_uint32 : Reader ℕ
read_uint32 = do bytes ← read_data 4; returns (le_value bytes)

unfoldable pub read_uint64 : Reader ℕ
read_uint64 = do bytes ← read_data 8; returns (le_value bytes)

unfoldable pub read_bool : Reader Bool
read_bool = do val ← read_uint8; returns (val != 0)

unfoldable pub read_size : Reader ℕ
read_size = do bytes ← read_data 2; returns (le_value bytes)

unfoldable pub read_channel : Reader ℕ
read_channel = do bytes ← read_data 8; returns (le_value bytes)

unfoldable pub read_doid : Reader ℕ
read_doid = do bytes ← read_data 4; returns (le_value bytes)

unfoldable pub read_zone : Reader ℕ
read_zone = do bytes ← read_data 4; returns (le_value bytes)

unfoldable pub read_string : Reader (List ℕ)
read_string = do
  len ← read_size
  check_read_length len
  bytes ← load len
  advance len
  returns bytes

unfoldable pub read_blob : Reader (List ℕ)
read_blob = do len ← read_size; read_data len

-- No check, and no step over the bytes.
unfoldable pub read_datagram : Reader Datagram
read_datagram = do len ← read_size; bytes ← load len; returns (of_data bytes)

-- m_dg->size() - m_offset, in a size_t and then in a dgsize_t.
unfoldable pub get_remaining : DatagramIterator → ℕ
get_remaining dgi = to_dgsize (to_size_t (size dgi.dg + 2 ^ 64 - dgi.offset))

unfoldable pub read_remainder : Reader (List ℕ)
read_remainder dgi = read_data (get_remaining dgi) dgi

unfoldable pub tell : DatagramIterator → ℕ
tell dgi = to_dgsize dgi.offset

unfoldable pub seek : ℕ → Reader (Unit {0})
seek to dgi = (ok tt, record dgi { offset = to })

unfoldable pub skip : ℕ → Reader (Unit {0})
skip len = do check_read_length len; advance len

-- The first byte, wherever the iterator stands.
unfoldable pub get_recipient_count : Reader ℕ
get_recipient_count dgi =
    if ltb 0 (size dgi.dg)
    then (do bytes ← (λ d. (memory_read d.dg.buf 0 1, d)); returns (le_value bytes)) dgi
    else (err iterator_eof, dgi)

-- The offset is restored if the read succeeds.
unfoldable pub get_sender : Reader ℕ
get_sender dgi =
    let saved : ℕ = to_dgsize dgi.offset in
    (do
      count ← get_recipient_count
      seek (1 + count * 8)
      sender ← read_channel
      seek saved
      returns sender)
      dgi

unfoldable pub get_msg_type : Reader ℕ
get_msg_type dgi =
    let saved : ℕ = to_dgsize dgi.offset in
    (do
      count ← get_recipient_count
      seek (1 + count * 8 + 8)
      msg_type ← read_uint16
      seek saved
      returns msg_type)
      dgi

unfoldable pub seek_payload : Reader (Unit {0})
seek_payload = do seek 0; count ← get_recipient_count; seek (1 + count * 8)
