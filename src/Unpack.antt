-- ===== src/Unpack.antt =====
-- src/util/DatagramIterator.h: unpack_dtype, which copies the packed value of a type out of a
-- datagram while it checks the type's constraints, and skip_dtype.
pub mod Outcome
pub mod Parts
pub mod Arrays
pub mod Copies
pub mod Stuck
mod Tests
use astron.Base.{
  ℕ, zero, suc, ◌+◌, ◌-◌, List, [], ◌∷◌, ◌++◌, Bool, true, false, not, ◌&&◌, ◌||◌, ltb, ◌!=◌,
  if◌then◌else◌, length,
}
use astron.Base.Result.{Exception, constraint_violation, stuck}
use astron.Bytes.{le_bytes}
use astron.Iterator.{
  DatagramIterator, Reader, ◌>>=◌, ◌>>◌, returns, throws, read_data, read_size, check_read_length,
  advance,
}
use astron.Dclass.Number.{is_empty}
use astron.Dclass.Types.{
  DistributedType, numeric, array, struct, molecular, method, Fields, end, field, TypeTag, string,
  varstring, blob, varblob, fixed_array, vararray, get_size, fields_size, get_type, has_range,
  has_constraint, array_size, numeric_within_range, array_within_range,
}

-- No byte is negative as a signed char.
unfoldable pub is_ascii : List ℕ → Bool
is_ascii [] = true
is_ascii (b ∷ bs) = ltb b 128 && is_ascii bs

abbrev pub ensure : Bool → Reader (Unit {0})
ensure true = returns tt
ensure false = throws constraint_violation

-- The single read of a value of fixed size, with the check that its type makes.
unfoldable pub read_fixed : ℕ → (List ℕ → Bool) → List ℕ → Reader (List ℕ)
read_fixed size check buffer = do
  bytes ← read_data size
  ensure (check bytes)
  returns (buffer ++ bytes)

-- The loop over the elements of an array of fixed size.
unfoldable pub unpack_times : (List ℕ → Reader (List ℕ)) → ℕ → List ℕ → Reader (List ℕ)
unpack_times element zero buffer = returns buffer
unpack_times element (suc n) buffer = element buffer >>= unpack_times element n

-- while(buffer.size() - cur_ptr < len): the buffer and the number of elements read. The end of the
-- fuel is `stuck`.
unfoldable pub unpack_while :
    (List ℕ → Reader (List ℕ)) → ℕ → ℕ → ℕ → ℕ → List ℕ → Reader (List ℕ × ℕ)
unpack_while element zero len cur_ptr count buffer = throws stuck
unpack_while element (suc fuel) len cur_ptr count buffer =
    if ltb (length buffer - cur_ptr) len
    then element buffer >>= unpack_while element fuel len cur_ptr (count + 1)
    else returns (buffer, count)

-- T_VARARRAY, T_VARSTRING and T_VARBLOB, behind the length. The fuel is enough if every element
-- takes a byte at least.
unfoldable pub unpack_elements :
    TypeTag → (List ℕ → Reader (List ℕ)) → ℕ → List ℕ → Reader (List ℕ × ℕ)
unfolding unpack_while is_ascii
unpack_elements vararray element len buffer =
    unpack_while element (suc len) len (length buffer) 0 buffer
unpack_elements varstring element len buffer = do
  bytes ← read_data len
  ensure (is_ascii bytes)
  returns (buffer ++ bytes, len)
unpack_elements _ element len buffer = do bytes ← read_data len; returns (buffer ++ bytes, len)

unfoldable pub unpack_variable :
    TypeTag → (List ℕ → Reader (List ℕ)) → (ℕ → Bool) → List ℕ → Reader (List ℕ)
unpack_variable tag element in_range buffer = do
  len ← read_size
  (buffer, elem_cnt) ← unpack_elements tag element len (buffer ++ le_bytes 2 len)
  ensure (in_range elem_cnt)
  returns buffer

-- The array case of unpack_dtype, by m_type and the element type's has_range.
unfoldable pub unpack_array :
    TypeTag → Bool → ℕ → ℕ → (List ℕ → Reader (List ℕ)) → (ℕ → Bool) → List ℕ → Reader (List ℕ)
unfolding is_ascii
unpack_array string _ zero count element in_range buffer = returns buffer
unpack_array string _ (suc size) count element in_range buffer =
    read_fixed (suc size) is_ascii buffer
unpack_array blob _ zero count element in_range buffer = returns buffer
unpack_array blob _ (suc size) count element in_range buffer =
    read_fixed (suc size) (λ _. true) buffer
unpack_array fixed_array _ zero count element in_range buffer = returns buffer
unpack_array fixed_array true (suc size) count element in_range buffer =
    unpack_times element count buffer
unpack_array fixed_array false (suc size) count element in_range buffer =
    read_fixed (suc size) (λ _. true) buffer
unpack_array tag _ size count element in_range buffer = unpack_variable tag element in_range buffer

unfoldable mutual
  unfolding read_fixed

  pub unpack_dtype : DistributedType → List ℕ → Reader (List ℕ)
  unpack_dtype (numeric n) buffer =
      if get_size (numeric n) != 0
      then read_fixed (get_size (numeric n))
          (λ bytes. not (has_range (numeric n)) || numeric_within_range n bytes) buffer
      else returns buffer
  unpack_dtype (array element r) buffer =
      unpack_array (get_type (array element r)) (has_range element) (get_size (array element r))
        (array_size r) (unpack_dtype element) (array_within_range r) buffer
  unpack_dtype (struct fields) buffer =
      if fields_size 0 0 fields != 0 && not (has_constraint fields)
      then read_fixed (fields_size 0 0 fields) (λ _. true) buffer
      else unpack_fields fields buffer
  unpack_dtype (molecular fields) buffer =
      if fields_size 0 0 fields != 0
      then read_fixed (fields_size 0 0 fields) (λ _. true) buffer
      else unpack_fields fields buffer
  unpack_dtype (method params) buffer =
      if fields_size 0 0 params != 0 && not (has_constraint params)
      then read_fixed (fields_size 0 0 params) (λ _. true) buffer
      else unpack_fields params buffer

  -- The loop over the fields of a struct, or the parameters of a method.
  pub unpack_fields : Fields → List ℕ → Reader (List ℕ)
  unpack_fields end buffer = returns buffer
  unpack_fields (field type fields) buffer = unpack_dtype type buffer >>= unpack_fields fields

-- skip_dtype.
unfoldable pub skip_bytes : ℕ → Reader (Unit {0})
skip_bytes len = do check_read_length len; advance len

unfoldable pub skip_variable : TypeTag → Reader (Unit {0})
unfolding skip_bytes
skip_variable varstring = read_size >>= skip_bytes
skip_variable varblob = read_size >>= skip_bytes
skip_variable vararray = read_size >>= skip_bytes
skip_variable _ = returns tt

unfoldable mutual
  unfolding skip_bytes skip_variable

  pub skip_dtype : DistributedType → Reader (Unit {0})
  skip_dtype (numeric n) =
      if get_size (numeric n) != 0 then skip_bytes (get_size (numeric n)) else returns tt
  skip_dtype (array element r) =
      if get_size (array element r) != 0
      then skip_bytes (get_size (array element r))
      else skip_variable (get_type (array element r))
  skip_dtype (struct fields) =
      if fields_size 0 0 fields != 0
      then skip_bytes (fields_size 0 0 fields)
      else skip_fields fields
  skip_dtype (molecular fields) =
      if fields_size 0 0 fields != 0
      then skip_bytes (fields_size 0 0 fields)
      else skip_fields fields
  skip_dtype (method params) =
      if fields_size 0 0 params != 0
      then skip_bytes (fields_size 0 0 params)
      else skip_fields params

  pub skip_fields : Fields → Reader (Unit {0})
  skip_fields end = returns tt
  skip_fields (field type fields) = skip_dtype type >> skip_fields fields
