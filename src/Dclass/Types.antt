-- ===== src/Dclass/Types.antt =====
-- src/dclass/dc/{DistributedType,NumericType,ArrayType,Struct,Method,MolecularField}: sizes and
-- constraints of the types.
use astron.Base.{
  ℕ, ◌+◌, ◌-◌, ◌*◌, ◌%◌, ◌^◌, List, Bool, true, false, not, ◌&&◌, ◌||◌, ltb, leb, ◌==◌, ◌!=◌,
  if◌then◌else◌, length,
}
use astron.Bytes.{le_value}
use astron.Dclass.Number.{
  int, uint, float, Number, NumericRange, is_empty, same_number, contains, float_to_double,
}

-- The enumeration `Type`. `invalid` is T_INVALID.
pub data TypeTag : Type 0 where
  int8 int16 int32 int64 uint8 uint16 uint32 uint64 char float32 float64 : TypeTag
  string varstring blob varblob fixed_array vararray structure method_type invalid : TypeTag

-- m_orig_range and m_range are set together by set_range.
pub record NumericType : Type 0 where
  pub type : TypeTag
  pub orig_range : NumericRange
  pub range : NumericRange

mutual
  pub data DistributedType : Type 0 where
    numeric : NumericType → DistributedType
    array : DistributedType → NumericRange → DistributedType
    struct molecular method : Fields → DistributedType

  -- The types of a struct's or molecular's fields, or of a method's parameters, in order.
  pub data Fields : Type 0 where
    end : Fields
    field : DistributedType → Fields → Fields

-- sizetag_t is uint16_t, the default build.
abbrev pub to_sizetag : ℕ → ℕ
to_sizetag n = n % 2 ^ 16

-- NumericType::NumericType.
unfoldable pub numeric_size : TypeTag → ℕ
numeric_size char = 1
numeric_size int8 = 1
numeric_size uint8 = 1
numeric_size int16 = 2
numeric_size uint16 = 2
numeric_size int32 = 4
numeric_size uint32 = 4
numeric_size int64 = 8
numeric_size uint64 = 8
numeric_size float32 = 4
numeric_size float64 = 8
numeric_size _ = 0

-- ArrayType::ArrayType: the range of sizes, the fixed number of elements (an unsigned int; 0 if it
-- varies), and the size in bytes.
unfoldable pub array_range : NumericRange → NumericRange
unfolding is_empty
array_range r =
    if is_empty r
    then record r {
      min = record { type = r.min.type; bits = 0 };
      max = record { type = r.max.type; bits = 2 ^ 64 - 1 };
    }
    else r

unfoldable pub array_size : NumericRange → ℕ
unfolding is_empty same_number
array_size r = if is_empty r then 0 else if same_number r.min r.max then r.min.bits % 2 ^ 32 else 0

abbrev pub is_fixed_array : ℕ → ℕ → Bool
is_fixed_array element_size size = element_size != 0 && ltb 0 size

-- add_field and add_parameter: the size after one more member, of which there are now `count`.
unfoldable pub grown_size : ℕ → ℕ → ℕ → ℕ
grown_size count size member =
    if size != 0 || count == 1 then if member != 0 then to_sizetag (size + member) else 0 else size

unfoldable pub array_bytes : ℕ → ℕ → ℕ
array_bytes element_size size =
    if is_fixed_array element_size size then to_sizetag (size * element_size) else 0

-- DistributedType::get_size; has_fixed_size is that it is not 0.
unfoldable mutual
  unfolding numeric_size array_size grown_size array_bytes

  pub get_size : DistributedType → ℕ
  get_size (numeric n) = numeric_size n.type
  get_size (array element r) = array_bytes (get_size element) (array_size r)
  get_size (struct fields) = fields_size 0 0 fields
  get_size (molecular fields) = fields_size 0 0 fields
  get_size (method params) = fields_size 0 0 params

  pub fields_size : ℕ → ℕ → Fields → ℕ
  fields_size count size end = size
  fields_size count size (field type fields) =
      fields_size (count + 1) (grown_size (count + 1) size (get_size type)) fields

-- m_type of an array, by m_type of its elements and whether its size in bytes is fixed.
unfoldable pub array_tag : TypeTag → Bool → TypeTag
array_tag char true = string
array_tag char false = varstring
array_tag uint8 true = blob
array_tag uint8 false = varblob
array_tag _ true = fixed_array
array_tag _ false = vararray

unfoldable pub numeric_tag : TypeTag → TypeTag
unfolding numeric_size
numeric_tag t = if numeric_size t == 0 then invalid else t

-- DistributedType::get_type.
unfoldable pub get_type : DistributedType → TypeTag
unfolding numeric_tag array_tag
get_type (numeric n) = numeric_tag n.type
get_type (array element r) =
    array_tag (get_type element) (is_fixed_array (get_size element) (array_size r))
get_type (struct fields) = structure
get_type (molecular fields) = structure
get_type (method params) = method_type

-- has_range: MolecularField::add_field does not keep m_has_constraint, which stays false.
unfoldable mutual
  unfolding is_empty

  pub has_range : DistributedType → Bool
  has_range (numeric n) = not (is_empty n.orig_range)
  has_range (array element r) = not (is_empty r)
  has_range (struct fields) = has_constraint fields
  has_range (molecular fields) = false
  has_range (method params) = has_constraint params

  pub has_constraint : Fields → Bool
  has_constraint end = false
  has_constraint (field type fields) = has_range type || has_constraint fields

-- NumericType::data_to_number: a little-endian value of the type's size, widened to 64 bits.
unfoldable pub sign_extend : ℕ → ℕ → ℕ
sign_extend bits v = if ltb v (2 ^ (bits - 1)) then v else v + 2 ^ 64 - 2 ^ bits

unfoldable pub widen : TypeTag → ℕ → Number
unfolding sign_extend float_to_double
widen int8 v = record { type = int; bits = sign_extend 8 v }
widen int16 v = record { type = int; bits = sign_extend 16 v }
widen int32 v = record { type = int; bits = sign_extend 32 v }
widen int64 v = record { type = int; bits = v }
widen float32 v = record { type = float; bits = float_to_double v }
widen float64 v = record { type = float; bits = v }
widen _ v = record { type = uint; bits = v }

-- NumericType::within_range.
unfoldable pub numeric_within_range : NumericType → List ℕ → Bool
unfolding widen contains numeric_size
numeric_within_range n bytes =
    numeric_size n.type != 0
    && numeric_size n.type == length bytes
    && contains n.range (widen n.type (le_value bytes))

-- ArrayType::within_range.
unfoldable pub array_within_range : NumericRange → ℕ → Bool
unfolding array_size array_range
array_within_range r size =
    if ltb 0 (array_size r)
    then array_size r == size
    else leb (array_range r).min.bits size && leb size (array_range r).max.bits
