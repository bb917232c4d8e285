-- ===== src/Base/Table.antt =====
-- Maps with numbers as keys, as lists of their entries.
use Prim.Native.Nat.{ℕ}
use mathlib.Core.Path.{◌≡◌, refl}
use mathlib.Core.Bool.{Bool, true, false}
use mathlib.Core.Option.{Option, none, some}
use mathlib.Core.List.{List, [], ◌∷◌}
use native.Mathlib.Omega.{arith}
use astron.Base.Tests.{◌==◌, if◌then◌else◌}

unfoldable pub find_key {ℓ} : {A : Type ℓ} → ℕ → List (ℕ × A) → Option A
find_key k [] = none
find_key k ((j, a) ∷ m) = if j == k then some a else find_key k m

unfoldable pub has_key {ℓ} : {A : Type ℓ} → ℕ → List (ℕ × A) → Bool
has_key k [] = false
has_key k ((j, a) ∷ m) = if j == k then true else has_key k m

unfoldable pub set_key {ℓ} : {A : Type ℓ} → ℕ → A → List (ℕ × A) → List (ℕ × A)
set_key k a [] = (k, a) ∷ []
set_key k a ((j, b) ∷ m) = let rest = set_key k a m in if j == k then (k, a) ∷ m else (j, b) ∷ rest

unfoldable pub erase_key {ℓ} : {A : Type ℓ} → ℕ → List (ℕ × A) → List (ℕ × A)
erase_key k [] = []
erase_key k ((j, a) ∷ m) = let rest = erase_key k m in if j == k then rest else (j, a) ∷ rest

module _ {ℓ} {A : Type ℓ} where
  pub find_key-set_key :
      (k j : ℕ) (a : A) (m : List (ℕ × A))
      → find_key j (set_key k a m) ≡ (if k == j then some a else find_key j m)
  unfolding find_key set_key
  find_key-set_key k j a [] = refl
  find_key-set_key k j a ((i, b) ∷ m) = ground (arith, find_key-set_key k j a m)

  pub has_key-set_key :
      (k j : ℕ) (a : A) (m : List (ℕ × A))
      → has_key j (set_key k a m) ≡ (if k == j then true else has_key j m)
  unfolding has_key set_key
  has_key-set_key k j a [] = refl
  has_key-set_key k j a ((i, b) ∷ m) = ground (arith, has_key-set_key k j a m)

  pub has_key-erase_key :
      (k j : ℕ) (m : List (ℕ × A))
      → has_key j (erase_key k m) ≡ (if k == j then false else has_key j m)
  unfolding has_key erase_key
  has_key-erase_key k j [] = ground arith
  has_key-erase_key k j ((i, b) ∷ m) = ground (arith, has_key-erase_key k j m)

  pub find_key-erase_key :
      (k j : ℕ) (m : List (ℕ × A))
      → find_key j (erase_key k m) ≡ (if k == j then none else find_key j m)
  unfolding find_key erase_key
  find_key-erase_key k j [] = ground arith
  find_key-erase_key k j ((i, b) ∷ m) = ground (arith, find_key-erase_key k j m)
