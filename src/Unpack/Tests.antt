-- ===== src/Unpack/Tests.antt =====
-- src/util/DatagramIterator.h: concrete values of concrete types.
use astron.Base.{ℕ, ◌≡◌, refl, List, [], ◌∷◌, length, arith}
use astron.Base.Result.{ok, err, stuck, constraint_violation}
use astron.Bytes.{le_value, le_bytes}
use astron.Datagram.{memory_read}
use astron.Dclass.Number.{NumericRange, untyped, uint}
use astron.Dclass.Types.{
  DistributedType, numeric, array, struct, field, end, uint8, uint16, get_size, get_type,
  fields_size, has_range, numeric_within_range, array_within_range,
}
use astron.Iterator.{DatagramIterator, read_data, read_size, check_read_length, load, advance}
use astron.Unpack.{unpack_dtype, unpack_while, unpack_array, unpack_variable, unpack_elements}
use astron.Unpack.Outcome.{Ahead, Copies}
use astron.Unpack.Copies.{least, IsFinite, unpack_dtype-Copies}
use astron.Unpack.Stuck.{unpack_while_stuck}

abbrev none_given : NumericRange
none_given = record {
  type = untyped;
  min = record { type = untyped; bits = 0 };
  max = record { type = untyped; bits = 0 };
}

abbrev small_numbers : NumericRange
small_numbers = record {
  type = uint;
  min = record { type = uint; bits = 0 };
  max = record { type = uint; bits = 9 };
}

abbrev word : DistributedType
word = numeric (record { type = uint16; orig_range = none_given; range = none_given })

abbrev digit : DistributedType
digit = numeric (record { type = uint8; orig_range = small_numbers; range = small_numbers })

-- A struct of a digit and an array of words.
abbrev sample : DistributedType
sample = struct (field digit (field (array word none_given) end))

abbrev bytes_at : List ℕ → ℕ → DatagramIterator
bytes_at bytes n = record {
  dg = record { buf = bytes; buf_cap = length bytes; buf_offset = length bytes };
  offset = n;
}

abbrev good : List ℕ
good = 7 ∷ 4 ∷ 0 ∷ 1 ∷ 2 ∷ 3 ∷ 4 ∷ 99 ∷ []

sample_unpacked :
    unpack_dtype sample [] (bytes_at good 0)
    ≡ (ok (7 ∷ 4 ∷ 0 ∷ 1 ∷ 2 ∷ 3 ∷ 4 ∷ []), bytes_at good 7)
unfolding unpack_dtype fields_size read_data read_size check_read_length load memory_read advance
    has_range numeric_within_range le_value unpack_array get_type get_size unpack_variable
    unpack_elements le_bytes array_within_range
sample_unpacked = refl

sample_refused :
    (unpack_dtype sample [] (bytes_at (10 ∷ 0 ∷ 0 ∷ []) 0)).0 ≡ err constraint_violation
unfolding unpack_dtype fields_size read_data read_size check_read_length load memory_read advance
    has_range numeric_within_range le_value unpack_array get_type get_size unpack_variable
    unpack_elements le_bytes array_within_range
sample_refused = refl

-- A length of three is overrun: two words are read.
overrun :
    unpack_dtype (array word none_given) [] (bytes_at (3 ∷ 0 ∷ 1 ∷ 2 ∷ 3 ∷ 4 ∷ []) 0)
    ≡ (ok (3 ∷ 0 ∷ 1 ∷ 2 ∷ 3 ∷ 4 ∷ []), bytes_at (3 ∷ 0 ∷ 1 ∷ 2 ∷ 3 ∷ 4 ∷ []) 6)
unfolding unpack_dtype fields_size read_data read_size check_read_length load memory_read advance
    has_range numeric_within_range le_value unpack_array get_type get_size unpack_variable
    unpack_elements le_bytes array_within_range
overrun = refl

sample-IsFinite : IsFinite sample
unfolding IsFinite least get_size
sample-IsFinite = (tt, (((λ _. omega arith), tt), tt))

good-Ahead : Ahead (bytes_at good 0) good
good-Ahead = (
  record {
    valid = record { allocated = refl; within_cap = omega arith; within_max = omega arith };
    inside = omega arith;
    ahead = refl;
  },
  (
    omega arith,
    (
      omega arith,
      (omega arith, (omega arith, (omega arith, (omega arith, (omega arith, (omega arith, tt)))))),
    ),
  ),
)

unpack_dtype-Copies_example :
    Copies (least sample) good [] (unpack_dtype sample [] (bytes_at good 0))
unpack_dtype-Copies_example =
    unpack_dtype-Copies sample [] good (bytes_at good 0) sample-IsFinite good-Ahead

unpack_while_stuck_example :
    unpack_while (unpack_dtype (struct end)) 1000 4 0 0 [] (bytes_at good 0)
    ≡ (err stuck, bytes_at good 0)
unpack_while_stuck_example = unpack_while_stuck 1000 4 0 0 [] (bytes_at good 0) (omega arith) refl
