-- ===== src/Iterator/Cursor.antt =====
-- src/util/DatagramIterator.h: the iterator is a cursor over the datagram's contents.
use astron.Base.{
  ℕ, ◌+◌, ◌^◌, ◌≤◌, ◌<◌, ◌≡◌, refl, sym, ap, ◌∙◌, List, ◌++◌, length, take, drop, arith,
  length-append, length-drop, take-append_le, take_all, drop-append_add, take-drop-take, drop-drop,
  lt→ltb, le→ltb, lt→leb,
}
use astron.Base.Result.{Result, ok, err, fault, iterator_eof}
use astron.Bytes.{le_bytes, le_value, length-le_bytes, le_value-le_bytes}
use astron.Datagram.{memory_read, size, to_size_t, contents, dgsize_max}
use astron.Datagram.Memory.{IsValid, memory_read_lem, length-contents}
use astron.Iterator.{
  DatagramIterator, and_then, check_read_length, load, advance, read_data, read_uint8, read_uint16,
  read_uint32, read_uint64, read_size, read_channel, read_doid, read_zone, read_string, read_blob,
  read_datagram,
}

-- An iterator over a valid datagram, at or before its end, with `rest` still to be read.
pub record At (dgi : DatagramIterator) (rest : List ℕ) : Type 0 where
  pub valid : IsValid dgi.dg
  pub inside : dgi.offset ≤ dgi.dg.buf_offset
  pub ahead : drop dgi.offset (contents dgi.dg) ≡ rest

abbrev pub step : ℕ → DatagramIterator → DatagramIterator
step n dgi = record dgi { offset = to_size_t (dgi.offset + n) }

pub length-ahead :
    (dgi : DatagramIterator) (rest : List ℕ)
    → At dgi rest
    → dgi.offset + length rest ≡ dgi.dg.buf_offset
length-ahead dgi rest at = omega (
  arith,
  at.inside,
  ap length at.ahead,
  length-drop dgi.offset (contents dgi.dg),
  length-contents dgi.dg at.valid,
)

pub check_read_length_ok :
    (dgi : DatagramIterator) (n : ℕ)
    → IsValid dgi.dg
    → dgi.offset + n ≤ dgi.dg.buf_offset
    → check_read_length n dgi ≡ (ok tt, dgi)
unfolding check_read_length
check_read_length_ok dgi n v h =
    rw (le→ltb (size dgi.dg) (to_size_t (dgi.offset + n)) (omega (arith, v.within_max)))

check_read_length_eof :
    (dgi : DatagramIterator) (n : ℕ)
    → IsValid dgi.dg
    → n ≤ dgsize_max
    → dgi.offset ≤ dgsize_max
    → dgi.dg.buf_offset < dgi.offset + n
    → check_read_length n dgi ≡ (err iterator_eof, dgi)
unfolding check_read_length
check_read_length_eof dgi n v small h past =
    rw (lt→ltb (size dgi.dg) (to_size_t (dgi.offset + n)) (omega (arith, v.within_max)))

pub memory_read-ahead :
    (dgi : DatagramIterator) (bytes rest : List ℕ)
    → At dgi (bytes ++ rest)
    → memory_read dgi.dg.buf dgi.offset (length bytes) ≡ ok bytes
memory_read-ahead dgi bytes rest at =
    let fits : dgi.offset + length bytes ≤ dgi.dg.buf_offset =
      omega (arith, length-ahead dgi _ at, length-append bytes rest) in
    memory_read_lem dgi.dg.buf dgi.offset (length bytes)
      (omega (arith, at.valid.within_cap, at.valid.allocated))
    ∙ ap ok (
        sym (take-drop-take (length bytes) dgi.offset dgi.dg.buf_offset dgi.dg.buf fits)
        ∙ ap (take (length bytes)) at.ahead
        ∙ take-append_le (length bytes) bytes rest (omega arith)
        ∙ take_all (length bytes) bytes (omega arith))

pub load_ok :
    (dgi : DatagramIterator) (bytes rest : List ℕ)
    → At dgi (bytes ++ rest)
    → load (length bytes) dgi ≡ (ok bytes, dgi)
unfolding load
load_ok dgi bytes rest at =
    ap (λ (r : Result (List ℕ)). (r, dgi)) (memory_read-ahead dgi bytes rest at)

pub step-At :
    (dgi : DatagramIterator) (bytes rest : List ℕ)
    → At dgi (bytes ++ rest)
    → At (step (length bytes) dgi) rest
step-At dgi bytes rest at =
    let fits : dgi.offset + length bytes ≤ dgi.dg.buf_offset =
      omega (arith, length-ahead dgi _ at, length-append bytes rest) in
    let small : dgi.dg.buf_offset ≤ dgsize_max = at.valid.within_max in
    record {
      valid = at.valid;
      inside = omega arith;
      ahead =
          ap (λ (n : ℕ). drop n (contents dgi.dg)) (omega arith)
          ∙ sym (drop-drop dgi.offset (length bytes) (contents dgi.dg))
          ∙ ap (drop (length bytes)) at.ahead
          ∙ drop-append_add bytes rest 0 (length bytes) (omega arith);
    }

-- Reading what lies ahead returns it and moves the cursor behind it.
abbrev pub Reads {ℓ} :
    {A : Type ℓ} → Result A × DatagramIterator → A → ℕ → DatagramIterator → List ℕ → Type ℓ
Reads r a n dgi rest = (r ≡ (ok a, step n dgi)) × At (step n dgi) rest

-- On an iterator inside a valid datagram, with `bytes` ahead, read_data of their number returns them and
-- leaves the iterator behind them, with the rest ahead.
pub read_data-Reads :
    (dgi : DatagramIterator) (bytes rest : List ℕ) (n : ℕ)
    → At dgi (bytes ++ rest)
    → length bytes ≡ n
    → Reads (read_data n dgi) bytes n dgi rest
unfolding read_data advance
read_data-Reads dgi bytes rest n at e = rw (sym e) (
  rw
      (
        check_read_length_ok dgi (length bytes) at.valid
            (omega (arith, length-ahead dgi _ at, length-append bytes rest)),
        load_ok dgi bytes rest at,
      )
      refl,
  step-At dgi bytes rest at,
)

-- On an iterator inside a valid datagram with fewer than `n` bytes ahead, read_data throws
-- DatagramIteratorEOF and leaves the iterator where it was, for any `n` up to DGSIZE_MAX.
pub read_data_eof :
    (dgi : DatagramIterator) (rest : List ℕ) (n : ℕ)
    → At dgi rest
    → n ≤ dgsize_max
    → length rest < n
    → read_data n dgi ≡ (err iterator_eof, dgi)
unfolding read_data
read_data_eof dgi rest n at small short = rw (
    check_read_length_eof dgi n at.valid small (omega (arith, at.valid.within_max, at.inside))
      (omega (arith, length-ahead dgi rest at)))

-- A word that an add_<value> wrote.
read_word :
    (k v : ℕ) (dgi : DatagramIterator) (rest : List ℕ)
    → v < 256 ^ k
    → At dgi (le_bytes k v ++ rest)
    → Reads (and_then (read_data k dgi) λ bytes d. (ok (le_value bytes), d)) v k dgi rest
read_word k v dgi rest h at =
    let (e, at') = read_data-Reads dgi (le_bytes k v) rest k at (length-le_bytes k v) in
    (rw e (rw (le_value-le_bytes k v h)), at')

module _ (v : ℕ) (dgi : DatagramIterator) (rest : List ℕ) where
  pub read_uint8-Reads :
      v < 2 ^ 8 → At dgi (le_bytes 1 v ++ rest) → Reads (read_uint8 dgi) v 1 dgi rest
  unfolding read_uint8
  read_uint8-Reads h at = read_word 1 v dgi rest h at

  pub read_uint16-Reads :
      v < 2 ^ 16 → At dgi (le_bytes 2 v ++ rest) → Reads (read_uint16 dgi) v 2 dgi rest
  unfolding read_uint16
  read_uint16-Reads h at = read_word 2 v dgi rest h at

  pub read_uint32-Reads :
      v < 2 ^ 32 → At dgi (le_bytes 4 v ++ rest) → Reads (read_uint32 dgi) v 4 dgi rest
  unfolding read_uint32
  read_uint32-Reads h at = read_word 4 v dgi rest h at

  pub read_uint64-Reads :
      v < 2 ^ 64 → At dgi (le_bytes 8 v ++ rest) → Reads (read_uint64 dgi) v 8 dgi rest
  unfolding read_uint64
  read_uint64-Reads h at = read_word 8 v dgi rest h at

  pub read_size-Reads :
      v < 2 ^ 16 → At dgi (le_bytes 2 v ++ rest) → Reads (read_size dgi) v 2 dgi rest
  unfolding read_size
  read_size-Reads h at = read_word 2 v dgi rest h at

  pub read_channel-Reads :
      v < 2 ^ 64 → At dgi (le_bytes 8 v ++ rest) → Reads (read_channel dgi) v 8 dgi rest
  unfolding read_channel
  read_channel-Reads h at = read_word 8 v dgi rest h at

  pub read_doid-Reads :
      v < 2 ^ 32 → At dgi (le_bytes 4 v ++ rest) → Reads (read_doid dgi) v 4 dgi rest
  unfolding read_doid
  read_doid-Reads h at = read_word 4 v dgi rest h at

  pub read_zone-Reads :
      v < 2 ^ 32 → At dgi (le_bytes 4 v ++ rest) → Reads (read_zone dgi) v 4 dgi rest
  unfolding read_zone
  read_zone-Reads h at = read_word 4 v dgi rest h at

module _ (bytes : List ℕ) (dgi : DatagramIterator) (rest : List ℕ)
    (small : length bytes ≤ dgsize_max)
    (at : At dgi (le_bytes 2 (length bytes) ++ (bytes ++ rest))) where
  -- With a length of two bytes and so many bytes ahead, read_blob returns the bytes and leaves the iterator
  -- behind them.
  pub read_blob-Reads : Reads (read_blob dgi) bytes (length bytes) (step 2 dgi) rest
  unfolding read_blob
  read_blob-Reads =
      let (e, at') = read_size-Reads (length bytes) dgi (bytes ++ rest) (omega arith) at in
      rw e (read_data-Reads (step 2 dgi) bytes rest (length bytes) at' refl)

pub read_string-eq : (dgi : DatagramIterator) → read_string dgi ≡ read_blob dgi
unfolding read_string read_blob read_data
read_string-eq dgi = refl

-- With a length of two bytes ahead that is more than the bytes behind it, read_blob throws
-- DatagramIteratorEOF, with the iterator behind the length.
pub read_blob_eof :
    (n : ℕ) (dgi : DatagramIterator) (rest : List ℕ)
    → n ≤ dgsize_max
    → length rest < n
    → At dgi (le_bytes 2 n ++ rest)
    → read_blob dgi ≡ (err iterator_eof, step 2 dgi)
unfolding read_blob
read_blob_eof n dgi rest small short at =
    let (e, at') = read_size-Reads n dgi rest (omega arith) at in
    rw e (read_data_eof (step 2 dgi) rest n at' small short)

-- With a length of two bytes ahead that reaches past the allocation, read_datagram reads out of bounds.
pub read_datagram_fault :
    (n : ℕ) (dgi : DatagramIterator) (rest : List ℕ)
    → n < 2 ^ 16
    → dgi.dg.buf_cap < dgi.offset + 2 + n
    → At dgi (le_bytes 2 n ++ rest)
    → (read_datagram dgi).0 ≡ err fault
unfolding read_datagram load memory_read
read_datagram_fault n dgi rest small past at =
    let (e, at') = read_size-Reads n dgi rest small at in
    let beyond : length dgi.dg.buf < (step 2 dgi).offset + n =
      omega (arith, at.inside, at.valid.within_max, at.valid.allocated) in
    rw e (rw (lt→leb ((step 2 dgi).offset + n) (length dgi.dg.buf) beyond))
