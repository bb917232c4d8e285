-- ===== src/StateServer/Object/Keeps.antt =====
-- Invariants of handlers: a handler keeps `P` if the context that it leaves has it, with or without
-- an exception. One rule for each way to build a handler.
use astron.Base.{Bool, true, false, if◌then◌else◌, Option, none, some}
use astron.Base.Result.{Result, ok, err}
use astron.Iterator.{DatagramIterator, Reader}
use astron.StateServer.Object.{
  Context, Handler, and_then, returns, get_self, reads, builds, ◌>>=◌, when, if_some,
}

pub record Keeps {ℓ} {A : Type ℓ} (P : Context → Type 0) (m : Handler A) : Type ℓ where
  pub at : (c : Context) → P c → P (m c).1

module _ {ℓ} {A : Type ℓ} {P : Context → Type 0} where
  pub Keeps-returns : (a : A) → Keeps P (returns a)
  unfolding returns
  Keeps-returns a = record { at = λ c h. h }

  pub Keeps-builds : (r : Result A) → Keeps P (builds r)
  unfolding builds
  Keeps-builds r = record { at = λ c h. h }

  pub Keeps-if : (b : Bool) (m n : Handler A) → Keeps P m → Keeps P n → Keeps P (if b then m else n)
  Keeps-if true m n km kn = km
  Keeps-if false m n km kn = kn

module _ {P : Context → Type 0} where
  pub Keeps-get_self : Keeps P get_self
  unfolding get_self
  Keeps-get_self = record { at = λ c h. h }

  pub Keeps-when : (b : Bool) (m : Handler (Unit {0})) → Keeps P m → Keeps P (when b m)
  unfolding when
  Keeps-when b m km = Keeps-if b m (returns tt) km (Keeps-returns tt)

module _ {ℓ κ} {A : Type ℓ} {B : Type κ} {P : Context → Type 0} where
  pub continues :
      (r : Result A) (f : A → Handler B) (c : Context)
      → ((a : A) → Keeps P (f a))
      → P c
      → P (and_then (r, c) f).1
  continues (ok a) f c kf h = (kf a).at c h
  continues (err e) f c kf h = h

  pub Keeps-bind :
      (m : Handler A) (f : A → Handler B)
      → Keeps P m
      → ((a : A) → Keeps P (f a))
      → Keeps P (m >>= f)
  unfolding ◌>>=◌
  Keeps-bind m f km kf = record { at = λ c h. let (r, c') = m c in continues r f c' kf (km.at c h) }

pub Keeps-if_some {ℓ κ} :
    {A : Type ℓ} {B : Type κ} {P : Context → Type 0} (o : Option A) (m : Handler B)
    (k : A → Handler B)
    → Keeps P m
    → ((a : A) → Keeps P (k a))
    → Keeps P (if_some o m k)
unfolding if_some
Keeps-if_some none m k km kk = km
Keeps-if_some (some a) m k km kk = kk a

-- A predicate that does not look at the iterator is kept by every read.
pub Keeps-reads {ℓ} :
    {A : Type ℓ} {P : Context → Type 0} (m : Reader A)
    → ((c : Context) (dgi : DatagramIterator) → P c → P (record c { dgi = dgi }))
    → Keeps P (reads m)
unfolding reads
Keeps-reads m blind = record { at = λ c h. let (r, dgi) = m c.dgi in blind c dgi h }
