-- ===== src/DbStateServer/Keeps.antt =====
-- Rules for what the handlers keep: a predicate of the active and of the loading objects.
use astron.Base.{ℕ, List, Bool, true, false, if◌then◌else◌}
use astron.Base.Result.{Result, ok, err}
use astron.Base.Action.{proceed, returns, lift}
use astron.Datagram.{Datagram}
use astron.Iterator.{Reader}
use astron.StateServer.Object.{DistributedObject}
use astron.DbStateServer.State.{
  LoadingObject, DbStateServer, DbHandler, DbEffect, reads, emit, route, take_context, unless,
}

abbrev pub Tables : Type 1
Tables = List (ℕ × DistributedObject) → List (ℕ × LoadingObject) → Type 0

module _ (Q : Tables) where
  pub record Keeps {A : Type 0} (m : DbHandler A) : Type 0 where
    pub at : (s : DbStateServer) → Q s.objs s.loading → Q (m s).1.objs (m s).1.loading

module _ {Q : Tables} where
  pub Keeps-returns : {A : Type 0} (a : A) → Keeps Q (returns a)
  Keeps-returns a = record { at = λ s h. h }

  pub Keeps-lift : {A : Type 0} (r : Result A) → Keeps Q (lift r)
  Keeps-lift r = record { at = λ s h. h }

  pub Keeps-reads : {A : Type 0} (m : Reader A) → Keeps Q (reads m)
  unfolding reads
  Keeps-reads m = record { at = λ s h. h }

  pub Keeps-emit : (e : DbEffect) → Keeps Q (emit e)
  unfolding emit
  Keeps-emit e = record { at = λ s h. h }

  pub Keeps-take_context : Keeps Q take_context
  unfolding take_context
  Keeps-take_context = record { at = λ s h. h }

  pub Keeps-bind :
      {A B : Type 0} (m : DbHandler A) (f : A → DbHandler B)
      → Keeps Q m
      → ((a : A) → Keeps Q (f a))
      → Keeps Q (λ s. proceed (m s) f)
  Keeps-bind {A} {B} m f km kf = record { at = λ s h. goes_on (m s) (km.at s h) }
    where
      goes_on :
          (r : Result A × DbStateServer)
          → Q r.1.objs r.1.loading
          → Q (proceed r f).1.objs (proceed r f).1.loading
      goes_on (ok a, s) h = (kf a).at s h
      goes_on (err e, s) h = h

  pub Keeps-if :
      {A : Type 0} (b : Bool) (m n : DbHandler A)
      → Keeps Q m
      → Keeps Q n
      → Keeps Q (λ s. (if b then m else n) s)
  Keeps-if true m n km kn = km
  Keeps-if false m n km kn = kn

  -- A handler that depends on the state.
  pub Keeps-state :
      {A : Type 0} (m : DbStateServer → DbHandler A)
      → ((s : DbStateServer) → Keeps Q (m s))
      → Keeps Q (λ s. m s s)
  Keeps-state m km = record { at = λ s h. (km s).at s h }

  pub Keeps-unless :
      (test : DbStateServer → Bool) (m : DbHandler (Unit {0})) → Keeps Q m → Keeps Q (unless test m)
  Keeps-unless test m km =
      Keeps-state (λ s. if test s then returns tt else m)
        λ s. Keeps-if (test s) (returns tt) m (Keeps-returns tt) km

  pub Keeps-route : (message : Result Datagram) → Keeps Q (route message)
  unfolding route
  Keeps-route message = Keeps-bind (lift message) _ (Keeps-lift message) (λ dg. Keeps-emit _)
