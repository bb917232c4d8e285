-- ===== src/Base/Result.antt =====
-- The exceptions of the sources as values.
use mathlib.Core.Path.{◌≡◌, refl}

-- DatagramIteratorEOF, DatagramOverflow and FieldConstraintViolation. `fault` is an access outside
-- an allocated buffer, which C++ leaves undefined; `stuck` is the end of a loop's fuel.
pub data Exception : Type 0 where
  iterator_eof datagram_overflow constraint_violation fault stuck : Exception

pub data Result {ℓ} (A : Type ℓ) : Type ℓ where
  err : Exception → Result A
  ok : A → Result A

infixl 5 ◌>>=◌
abbrev pub ◌>>=◌ {ℓ κ} : {A : Type ℓ} {B : Type κ} → Result A → (A → Result B) → Result B
err thrown >>= next = err thrown
ok value >>= next = next value

pub >>=-assoc {ℓ κ μ} :
    {A : Type ℓ} {B : Type κ} {C : Type μ} (m : Result A) (f : A → Result B) (g : B → Result C)
    → ((m >>= f) >>= g) ≡ (m >>= λ a. f a >>= g)
>>=-assoc (ok a) f g = refl
>>=-assoc (err e) f g = refl
