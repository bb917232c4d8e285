-- ===== src/Unpack/Copies.antt =====
-- unpack_dtype copies the packed value verbatim, and ends on every type whose variable arrays have
-- elements of a byte at least.
use astron.Base.{
  ℕ, zero, suc, ◌+◌, ◌*◌, ◌≤◌, ◌≡◌, List, ◌++◌, arith, Bool, true, false, not, ◌&&◌, ◌!=◌,
  if◌then◌else◌,
}
use astron.Datagram.{dgsize_max}
use astron.Dclass.Types.{
  DistributedType, numeric, array, struct, molecular, method, Fields, end, field, TypeTag, vararray,
  NumericType, numeric_size, get_size, fields_size, grown_size, array_bytes, get_type, has_range,
  has_constraint, array_size, array_within_range,
}
use astron.Iterator.{DatagramIterator, returns}
use astron.Unpack.{unpack_dtype, unpack_fields, read_fixed}
use astron.Unpack.Outcome.{Ahead, Copies, Copies-bind, Copies-returns}
use astron.Unpack.Parts.{CopiesElement, read_fixed-Copies}
use astron.Unpack.Arrays.{array_least, unpack_array-Copies}

-- The bytes that a value takes at least, by the path that unpack_dtype takes.
unfoldable mutual
  unfolding array_least

  pub least : DistributedType → ℕ
  least (numeric n) = get_size (numeric n)
  least (array element r) =
      array_least (get_type (array element r)) (has_range element) (get_size (array element r))
        (array_size r * least element)
  least (struct fields) =
      if fields_size 0 0 fields != 0 && not (has_constraint fields)
      then fields_size 0 0 fields
      else least_fields fields
  least (molecular fields) =
      if fields_size 0 0 fields != 0 then fields_size 0 0 fields else least_fields fields
  least (method params) =
      if fields_size 0 0 params != 0 && not (has_constraint params)
      then fields_size 0 0 params
      else least_fields params

  pub least_fields : Fields → ℕ
  least_fields end = 0
  least_fields (field type fields) = least type + least_fields fields

-- No variable array, at any depth, has elements that may take no bytes.
unfoldable mutual
  pub IsFinite : DistributedType → Type 0
  IsFinite (numeric n) = Unit
  IsFinite (array element r) =
      (get_type (array element r) ≡ vararray → 1 ≤ least element) × IsFinite element
  IsFinite (struct fields) = AreFinite fields
  IsFinite (molecular fields) = AreFinite fields
  IsFinite (method params) = AreFinite params

  pub AreFinite : Fields → Type 0
  AreFinite end = Unit
  AreFinite (field type fields) = IsFinite type × AreFinite fields

numeric_size-le : (t : TypeTag) → numeric_size t ≤ dgsize_max
unfolding numeric_size
numeric_size-le t = ground arith

grown_size-le :
    (count size member : ℕ) → size ≤ dgsize_max → grown_size count size member ≤ dgsize_max
unfolding grown_size
grown_size-le count size member h = ground arith

array_bytes-le : (element_size size : ℕ) → array_bytes element_size size ≤ dgsize_max
unfolding array_bytes
array_bytes-le element_size size = ground arith

fields_size-le :
    (fields : Fields) (count size : ℕ)
    → size ≤ dgsize_max
    → fields_size count size fields ≤ dgsize_max
unfolding get_size
fields_size-le end count size h = h
fields_size-le (field type fields) count size h =
    fields_size-le fields (count + 1) _ (grown_size-le (count + 1) size (get_size type) h)

-- The fixed size of every type, or the 0 of a type of variable size, fits a sizetag_t.
pub get_size-le : (t : DistributedType) → get_size t ≤ dgsize_max
unfolding get_size
get_size-le (numeric n) = numeric_size-le n.type
get_size-le (array element r) = array_bytes-le (get_size element) (array_size r)
get_size-le (struct fields) = fields_size-le fields 0 0 (omega arith)
get_size-le (molecular fields) = fields_size-le fields 0 0 (omega arith)
get_size-le (method params) = fields_size-le params 0 0 (omega arith)

-- A struct or a method: one read of its fixed size, or its members one by one.
members-Copies :
    (fast : Bool) (size k : ℕ) (buffer rest : List ℕ) (dgi : DatagramIterator) (fields : Fields)
    → size ≤ dgsize_max
    → Ahead dgi rest
    → Copies k rest buffer (unpack_fields fields buffer dgi)
    → Copies
        (if fast then size else k)
        rest
        buffer
        ((if fast then read_fixed size (λ _. true) buffer else unpack_fields fields buffer) dgi)
members-Copies true size k buffer rest dgi fields small ahead slow =
    read_fixed-Copies size (λ _. true) buffer rest dgi small ahead
members-Copies false size k buffer rest dgi fields small ahead slow = slow

numeric-Copies :
    (n : NumericType) (size : ℕ) (check : List ℕ → Bool) (buffer rest : List ℕ)
    (dgi : DatagramIterator)
    → size ≤ dgsize_max
    → Ahead dgi rest
    → Copies size rest buffer
        ((if size != 0 then read_fixed size check buffer else returns buffer) dgi)
numeric-Copies n zero check buffer rest dgi small ahead = Copies-returns rest buffer dgi ahead
numeric-Copies n (suc size) check buffer rest dgi small ahead =
    let nonzero : (suc size != 0) ≡ true = ground arith in
    rw nonzero (read_fixed-Copies (suc size) check buffer rest dgi small ahead)

mutual
  unfolding unpack_dtype least IsFinite

  copies : (t : DistributedType) → IsFinite t → CopiesElement (least t) (unpack_dtype t)
  copies (numeric n) h buffer rest dgi ahead =
      numeric-Copies n (get_size (numeric n)) _ buffer rest dgi (get_size-le (numeric n)) ahead
  copies (array element r) (pos, h) buffer rest dgi ahead =
      unpack_array-Copies (get_type (array element r)) (has_range element)
        (get_size (array element r)) (array_size r) (least element) (unpack_dtype element)
        (array_within_range r) (get_size-le (array element r)) pos (copies element h) buffer rest
        dgi ahead
  copies (struct fields) h buffer rest dgi ahead =
      members-Copies _ _ _ buffer rest dgi fields (fields_size-le fields 0 0 (omega arith)) ahead
        (copies_fields fields h buffer rest dgi ahead)
  copies (molecular fields) h buffer rest dgi ahead =
      members-Copies _ _ _ buffer rest dgi fields (fields_size-le fields 0 0 (omega arith)) ahead
        (copies_fields fields h buffer rest dgi ahead)
  copies (method params) h buffer rest dgi ahead =
      members-Copies _ _ _ buffer rest dgi params (fields_size-le params 0 0 (omega arith)) ahead
        (copies_fields params h buffer rest dgi ahead)

  copies_fields :
      (fields : Fields)
      → AreFinite fields
      → CopiesElement (least_fields fields) (unpack_fields fields)
  copies_fields end h buffer rest dgi ahead = Copies-returns rest buffer dgi ahead
  copies_fields (field type fields) (h, hs) buffer rest dgi ahead =
      Copies-bind (least type) (least_fields fields) rest buffer _ _
        (copies type h buffer rest dgi ahead)
        λ used rest' dgi' ahead' _. copies_fields fields hs (buffer ++ used) rest' dgi' ahead'

-- For a type without variable arrays of elements that may take no bytes, and on an iterator inside a valid
-- datagram of bytes, unpack_dtype either copies a front part of it behind the buffer and stops right
-- behind that part, or throws DatagramIteratorEOF or FieldConstraintViolation. It ends, and reads
-- nothing outside the datagram.
pub unpack_dtype-Copies :
    (t : DistributedType) (buffer rest : List ℕ) (dgi : DatagramIterator)
    → IsFinite t
    → Ahead dgi rest
    → Copies (least t) rest buffer (unpack_dtype t buffer dgi)
unpack_dtype-Copies t buffer rest dgi h ahead = copies t h buffer rest dgi ahead
