-- ===== src/Base/Action.antt =====
-- Stateful code that may throw: an exception leaves what was done before it.
use astron.Base.Result.{Result, Exception, ok, err}

abbrev pub Action {ℓ κ} : Type ℓ → Type κ → Type (ℓ ⊔ κ)
Action S A = S → Result A × S

abbrev pub proceed {ℓ κ μ} :
    {S : Type ℓ} {A : Type κ} {B : Type μ} → Result A × S → (A → Action S B) → Result B × S
proceed (ok a, s) f = f a s
proceed (err e, s) f = (err e, s)

infixl 5 ◌>>=◌ ◌>>◌
abbrev pub ◌>>=◌ {ℓ κ μ} :
    {S : Type ℓ} {A : Type κ} {B : Type μ} → Action S A → (A → Action S B) → Action S B
◌>>=◌ m f s = proceed (m s) f

abbrev pub ◌>>◌ {ℓ κ μ} :
    {S : Type ℓ} {A : Type κ} {B : Type μ} → Action S A → Action S B → Action S B
m >> k = m >>= λ _. k

abbrev pub returns {ℓ κ} : {S : Type ℓ} {A : Type κ} → A → Action S A
returns a s = (ok a, s)

abbrev pub throws {ℓ κ} : {S : Type ℓ} {A : Type κ} → Exception → Action S A
throws e s = (err e, s)

abbrev pub modify {ℓ} : {S : Type ℓ} → (S → S) → Action S (Unit {0})
modify f s = (ok tt, f s)

-- A value that a computation without the state gives, or the exception that it throws.
abbrev pub lift {ℓ κ} : {S : Type ℓ} {A : Type κ} → Result A → Action S A
lift r s = (r, s)
