-- ===== src/Dclass/Number.antt =====
-- src/dclass/dc/NumericRange.h: numbers of any C++ type, and ranges of them.
use astron.Base.{
  ℕ, zero, suc, ◌+◌, ◌-◌, ◌*◌, ◌/◌, ◌%◌, ◌^◌, Bool, true, false, not, ◌&&◌, ltb, leb, ◌==◌,
  if◌then◌else◌,
}

-- Number::Type.
pub data NumberType : Type 0 where
  untyped int uint float : NumberType

-- The union of int64_t, uint64_t and double is its 64-bit pattern.
pub record Number : Type 0 where
  pub type : NumberType
  pub bits : ℕ

pub record NumericRange : Type 0 where
  pub type : NumberType
  pub min : Number
  pub max : Number

unfoldable pub same_type : NumberType → NumberType → Bool
same_type untyped untyped = true
same_type int int = true
same_type uint uint = true
same_type float float = true
same_type _ _ = false

unfoldable pub is_empty : NumericRange → Bool
unfolding same_type
is_empty r = same_type r.type untyped

-- operator==(const Number&, const Number&).
unfoldable pub same_number : Number → Number → Bool
unfolding same_type
same_number a b = same_type a.type b.type && a.bits == b.bits

-- a <= b on the int64_t members.
unfoldable pub le_int : ℕ → ℕ → Bool
le_int a b = leb ((a + 2 ^ 63) % 2 ^ 64) ((b + 2 ^ 63) % 2 ^ 64)

-- a <= b on the double members, by IEEE 754: NaN compares to nothing, and -0 is 0.
abbrev pub magnitude : ℕ → ℕ
magnitude a = a % 2 ^ 63

abbrev pub is_nan : ℕ → Bool
is_nan a = ltb (2047 * 2 ^ 52) (magnitude a)

abbrev pub is_negative : ℕ → Bool
is_negative a = leb (2 ^ 63) (a % 2 ^ 64)

unfoldable pub le_ordered : Bool → Bool → ℕ → ℕ → Bool
le_ordered true true m n = leb n m
le_ordered true false m n = true
le_ordered false true m n = m == 0 && n == 0
le_ordered false false m n = leb m n

unfoldable pub le_double : ℕ → ℕ → Bool
unfolding le_ordered
le_double a b =
    not (is_nan a)
    && not (is_nan b)
    && le_ordered (is_negative a) (is_negative b) (magnitude a) (magnitude b)

-- (double)f for a float f. A subnormal float is shifted up to a normal double.
unfoldable pub normalize : ℕ → ℕ → ℕ → ℕ
normalize zero exponent mantissa = 0
normalize (suc fuel) exponent mantissa =
    let shifted = normalize fuel (exponent - 1) (mantissa * 2) in
    if leb (2 ^ 23) mantissa then exponent * 2 ^ 52 + (mantissa - 2 ^ 23) * 2 ^ 29 else shifted

unfoldable pub float_to_double : ℕ → ℕ
unfolding normalize
float_to_double f =
    let exponent : ℕ = f / 2 ^ 23 % 2 ^ 8 in
    let mantissa : ℕ = f % 2 ^ 23 in
    let value : ℕ =
      if exponent == 255
      then 2047 * 2 ^ 52 + mantissa * 2 ^ 29
      else if exponent == 0
      then if mantissa == 0 then 0 else normalize 24 897 mantissa
      else (exponent + 896) * 2 ^ 52 + mantissa * 2 ^ 29 in
    f / 2 ^ 31 * 2 ^ 63 + value

unfoldable pub within : NumberType → ℕ → ℕ → ℕ → Bool
unfolding le_int le_double
within untyped min n max = true
within int min n max = le_int min n && le_int n max
within uint min n max = leb min n && leb n max
within float min n max = le_double min n && le_double n max

-- The test goes by the type of `min` alone.
unfoldable pub contains : NumericRange → Number → Bool
unfolding within
contains r num = within r.min.type r.min.bits num.bits r.max.bits
