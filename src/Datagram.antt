-- ===== src/Datagram.antt =====
-- src/util/Datagram.h: a growing buffer of bytes that messages are written into.
-- The buffer is modelled as allocated memory: `buf` is the whole allocation, and a write outside it
-- is the exception `fault`. Bytes that C++ leaves uninitialised are 0.
pub mod Memory
pub mod Appending
pub mod Values
pub mod Header
mod Tests
use astron.Base.{
  ℕ, zero, suc, ◌+◌, ◌-◌, ◌*◌, ◌%◌, ◌^◌, ◌≤◌, ◌<◌, ◌≡◌, List, [], ◌∷◌, ◌++◌, Bool, true, false,
  length, take, drop, replicate, leb, ltb, ◌==◌, if◌then◌else◌,
}
use astron.Base.Result.{Result, ok, err, fault, datagram_overflow, ◌>>=◌}
use astron.Bytes.{le_bytes}

-- dgsize_t is uint16_t, the default build (no ASTRON_32BIT_DATAGRAMS); size_t has 64 bits.
abbrev pub to_dgsize : ℕ → ℕ
to_dgsize n = n % 2 ^ 16

abbrev pub dgsize_max : ℕ
dgsize_max = 2 ^ 16 - 1

abbrev pub to_size_t : ℕ → ℕ
to_size_t n = n % 2 ^ 64

pub record Datagram : Type 0 where
  pub buf : List ℕ
  pub buf_cap : ℕ
  pub buf_offset : ℕ

-- memcpy(buf + offset, data, size): the new contents of the allocation.
unfoldable pub memory_write : List ℕ → ℕ → List ℕ → Result (List ℕ)
memory_write buf offset bytes =
    if leb (offset + length bytes) (length buf)
    then ok (take offset buf ++ (bytes ++ drop (offset + length bytes) buf))
    else err fault

-- The bytes at buf + offset.
unfoldable pub memory_read : List ℕ → ℕ → ℕ → Result (List ℕ)
memory_read buf offset size =
    if leb (offset + size) (length buf) then ok (take size (drop offset buf)) else err fault

unfoldable pub grow : Datagram → ℕ → Result Datagram
grow dg len = do
  old ← memory_read dg.buf 0 dg.buf_cap
  buf ← memory_write (replicate (dg.buf_cap + len + 64) 0) 0 old
  ok (record dg { buf = buf; buf_cap = dg.buf_cap + len + 64 })

unfoldable pub check_add_length : Datagram → ℕ → Result Datagram
check_add_length dg len =
    let new_offset = to_size_t (dg.buf_offset + len) in
    if ltb dgsize_max new_offset
    then err datagram_overflow
    else if ltb dg.buf_cap new_offset
    then grow dg len
    else ok dg

-- A store of `bytes` at buf + buf_offset, and the step of buf_offset over it.
unfoldable pub store : Datagram → List ℕ → Result Datagram
store dg bytes = do
  buf ← memory_write dg.buf dg.buf_offset bytes
  ok (record dg { buf = buf; buf_offset = to_size_t (dg.buf_offset + length bytes) })

-- The shape of every add_<value>: the length is checked as a dgsize_t, then `bytes` are stored.
unfoldable pub append : Datagram → ℕ → List ℕ → Result Datagram
append dg len bytes = do dg ← check_add_length dg len; store dg bytes

-- Datagram().
unfoldable pub empty : Datagram
empty = record { buf = replicate 64 0; buf_cap = 64; buf_offset = 0 }

-- The binary constructors: a copy of the bytes of a vector, a string or a pointer with its length.
unfoldable pub of_data : List ℕ → Datagram
of_data bytes = record { buf = bytes; buf_cap = length bytes; buf_offset = length bytes }

-- size() and cap() return a dgsize_t.
abbrev pub size : Datagram → ℕ
size dg = to_dgsize dg.buf_offset

abbrev pub cap : Datagram → ℕ
cap dg = to_dgsize dg.buf_cap

-- The bytes that have been added.
abbrev pub contents : Datagram → List ℕ
contents dg = take dg.buf_offset dg.buf

-- Datagram(const Datagram &dg): memcpy of dg.size() bytes.
unfoldable pub copy : Datagram → Result Datagram
copy dg = do bytes ← memory_read dg.buf 0 (size dg); ok (of_data bytes)

-- add_uint8 … add_uint64; a signed value is added by its bit pattern, and so is a float.
unfoldable pub add_uint8 : Datagram → ℕ → Result Datagram
add_uint8 dg v = append dg 1 (le_bytes 1 v)

unfoldable pub add_uint16 : Datagram → ℕ → Result Datagram
add_uint16 dg v = append dg 2 (le_bytes 2 v)

unfoldable pub add_uint32 : Datagram → ℕ → Result Datagram
add_uint32 dg v = append dg 4 (le_bytes 4 v)

unfoldable pub add_uint64 : Datagram → ℕ → Result Datagram
add_uint64 dg v = append dg 8 (le_bytes 8 v)

unfoldable pub add_bool : Datagram → Bool → Result Datagram
add_bool dg v = if v then add_uint8 dg 1 else add_uint8 dg 0

unfoldable pub add_size : Datagram → ℕ → Result Datagram
add_size dg v = append dg 2 (le_bytes 2 v)

unfoldable pub add_channel : Datagram → ℕ → Result Datagram
add_channel dg v = append dg 8 (le_bytes 8 v)

unfoldable pub add_doid : Datagram → ℕ → Result Datagram
add_doid dg v = append dg 4 (le_bytes 4 v)

unfoldable pub add_zone : Datagram → ℕ → Result Datagram
add_zone dg v = append dg 4 (le_bytes 4 v)

-- One check for both stores.
unfoldable pub add_location : Datagram → ℕ → ℕ → Result Datagram
add_location dg parent zone = do
  dg ← check_add_length dg 8
  dg ← store dg (le_bytes 4 parent)
  store dg (le_bytes 4 zone)

-- check_add_length takes a dgsize_t, so that the size of a vector is cut to 16 bits for the check.
unfoldable pub add_data : Datagram → List ℕ → Result Datagram
add_data dg bytes = if length bytes == 0 then ok dg else append dg (to_dgsize (length bytes)) bytes

-- add_string and add_blob: both arguments are cut to a dgsize_t, the copy is not.
unfoldable pub add_blob : Datagram → List ℕ → Result Datagram
add_blob dg bytes = do
  dg ← add_size dg (to_dgsize (length bytes))
  append dg (to_dgsize (length bytes)) bytes

-- add_data(DatagramHandle) and add_blob(DatagramHandle).
unfoldable pub add_data_of : Datagram → Datagram → Result Datagram
add_data_of dg other = if other.buf_offset == 0 then ok dg else do
  dg ← check_add_length dg (to_dgsize other.buf_offset)
  bytes ← memory_read other.buf 0 other.buf_offset
  store dg bytes

unfoldable pub add_blob_of : Datagram → Datagram → Result Datagram
add_blob_of dg other = do
  dg ← add_size dg (to_dgsize other.buf_offset)
  dg ← check_add_length dg (to_dgsize other.buf_offset)
  bytes ← memory_read other.buf 0 other.buf_offset
  store dg bytes

-- add_buffer: the offset at which the caller may write `len` bytes.
unfoldable pub add_buffer : Datagram → ℕ → Result (ℕ × Datagram)
add_buffer dg len = do
  dg ← check_add_length dg len
  ok (dg.buf_offset, record dg { buf_offset = to_size_t (dg.buf_offset + len) })
