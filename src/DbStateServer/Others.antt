-- ===== src/DbStateServer/Others.antt =====
-- src/stateserver/LoadingObject.cpp: while an object is made, no other object is active and loading at once.
use astron.Base.{
  ℕ, ◌≡◌, List, [], ◌∷◌, Bool, true, false, ◌&&◌, ◌!=◌, if◌then◌else◌, Option, none, some, arith,
}
use astron.Base.Result.{
  Result, ok, err, iterator_eof, datagram_overflow, constraint_violation, fault, stuck,
}
use astron.Base.Action.{proceed, ◌>>=◌}
use astron.Base.Table.{find_key, has_key, set_key, erase_key, has_key-set_key, has_key-erase_key}
use astron.Datagram.{Datagram}
use astron.Iterator.{iterate, seek_payload}
use astron.StateServer.Dispatch as Dispatch
use astron.StateServer.Object.{DistributedObject}
use astron.DbStateServer.State.{LoadingObject, DbStateServer, DbHandler}
use astron.DbStateServer.Loader.{
  is_erased, skipping, handled_by_object, at_payload, replay_datagrams,
}
use astron.DbStateServer.Keeps.{Tables, Keeps, Keeps-returns, Keeps-reads, Keeps-bind}
use astron.DbStateServer.Apart.{Apart}

-- No id but the given one is in both tables.
abbrev pub Others : ℕ → Tables
Others do_id objs loading =
    (id : ℕ) → (has_key id objs && has_key id loading && (id != do_id)) ≡ false

pub Others-Apart :
    (do_id : ℕ) (objs : List (ℕ × DistributedObject)) (loading : List (ℕ × LoadingObject))
    → Apart objs loading
    → Others do_id objs loading
Others-Apart do_id objs loading h id = ground (arith, h id)

-- What a message to a loading object leaves: if its handler returns, no id is in both tables, and if it throws,
-- none but the loading object's own.
abbrev pub Loaded : ℕ → Result (Unit {0}) × DbStateServer → Type 0
Loaded do_id (ok a, s) = Apart s.objs s.loading
Loaded do_id (err e, s) = Others do_id s.objs s.loading

pub Loaded-Apart :
    (do_id : ℕ) (r : Result (Unit {0}) × DbStateServer)
    → Apart r.1.objs r.1.loading
    → Loaded do_id r
Loaded-Apart do_id (ok a, s) h = h
Loaded-Apart do_id (err e, s) h = Others-Apart do_id s.objs s.loading h

module _ (do_id : ℕ) (P : Tables) where
  pub record Loads (m : DbHandler (Unit {0})) : Type 0 where
    pub at : (s : DbStateServer) → P s.objs s.loading → Loaded do_id (m s)

  pub Loads-if :
      (b : Bool) (m n : DbHandler (Unit {0}))
      → Loads m
      → Loads n
      → Loads (λ s. (if b then m else n) s)
  Loads-if true m n km kn = km
  Loads-if false m n km kn = kn

  pub Loads-bind :
      {A : Type 0} (m : DbHandler A) (f : A → DbHandler (Unit {0}))
      → ((objs : List (ℕ × DistributedObject)) (loading : List (ℕ × LoadingObject))
          → P objs loading
          → Others do_id objs loading)
      → Keeps P m
      → ((a : A) → Loads (f a))
      → Loads (λ s. proceed (m s) f)
  Loads-bind {A} m f weaker km kf = record { at = λ s h. goes_on (m s) (km.at s h) }
    where
      goes_on : (r : Result A × DbStateServer) → P r.1.objs r.1.loading → Loaded do_id (proceed r f)
      goes_on (ok a, s) h = (kf a).at s h
      goes_on (err e, s) h = weaker s.objs s.loading h

pub Keeps-skipping :
    {Q : Tables} (m : DbHandler (Unit {0})) → Keeps Q m → Keeps Q (λ s. skipping (m s))
Keeps-skipping {Q} m k = record { at = λ s h. skips (m s) (k.at s h) }
  where
    skips :
        (r : Result (Unit {0}) × DbStateServer)
        → Q r.1.objs r.1.loading
        → Q (skipping r).1.objs (skipping r).1.loading
    skips (ok a, s) h = h
    skips (err iterator_eof, s) h = h
    skips (err datagram_overflow, s) h = h
    skips (err constraint_violation, s) h = h
    skips (err fault, s) h = h
    skips (err stuck, s) h = h

pub Keeps-at_payload : {Q : Tables} (dg : Datagram) → Keeps Q (at_payload dg)
Keeps-at_payload dg =
    Keeps-bind (λ s. ((iterate dg 0).0, record s { dgi = (iterate dg 0).1 })) _
      (record { at = λ s h. h }) (λ _. Keeps-reads seek_payload)

module _ (do_id : ℕ) where
  pub set_key-Others :
      (o : DistributedObject) (objs : List (ℕ × DistributedObject))
      (loading : List (ℕ × LoadingObject))
      → Others do_id objs loading
      → Others do_id (set_key do_id o objs) loading
  set_key-Others o objs loading h id = ground (arith, has_key-set_key do_id id o objs, h id)

  erase_key-Others :
      (objs : List (ℕ × DistributedObject)) (loading : List (ℕ × LoadingObject))
      → Others do_id objs loading
      → Others do_id (erase_key do_id objs) loading
  erase_key-Others objs loading h id = ground (arith, has_key-erase_key do_id id objs, h id)

  pub erase_key-Apart :
      (objs : List (ℕ × DistributedObject)) (loading : List (ℕ × LoadingObject))
      → Others do_id objs loading
      → Apart objs (erase_key do_id loading)
  erase_key-Apart objs loading h id = ground (arith, has_key-erase_key do_id id loading, h id)

  handled-Others :
      (b : Bool) (o : DistributedObject) (objs : List (ℕ × DistributedObject))
      (loading : List (ℕ × LoadingObject))
      → Others do_id objs loading
      → Others do_id (if b then erase_key do_id objs else set_key do_id o objs) loading
  handled-Others true o objs loading h = erase_key-Others objs loading h
  handled-Others false o objs loading h = set_key-Others o objs loading h

  pub Keeps-replay : (dgs : List Datagram) → Keeps (Others do_id) (replay_datagrams do_id dgs)
  unfolding replay_datagrams
  Keeps-replay [] = Keeps-returns tt
  Keeps-replay (dg ∷ dgs) = record {
    at = λ s h. found (Keeps-replay dgs) (find_key do_id s.objs) s h;
  }
    where
      handles :
          (obj : DistributedObject)
          → Keeps (Others do_id) (λ s.
            handled_by_object do_id s
              (Dispatch.handle_datagram (record { self = obj; dgi = s.dgi; effects = [] })))
      handles obj = record {
        at = λ s h.
            let c =
              (Dispatch.handle_datagram (record { self = obj; dgi = s.dgi; effects = [] })).1 in
            handled-Others (is_erased c.effects) c.self s.objs s.loading h;
      }

      found :
          Keeps (Others do_id) (replay_datagrams do_id dgs)
          → (o : Option DistributedObject) (s : DbStateServer) → Others do_id s.objs s.loading
          → let r : Result (Unit {0}) × DbStateServer = elim o [
            | none ↦ (ok tt, s)
            | some obj ↦
                proceed
                  (skipping (
                    (at_payload dg >>= λ _ s.
                    handled_by_object do_id s
                      (Dispatch.handle_datagram (record { self = obj; dgi = s.dgi; effects = [] })))
                      s))
                  (λ _. replay_datagrams do_id dgs)
          ] in
            Others do_id r.1.objs r.1.loading
      found rest none s h = h
      found rest (some obj) s h =
          (Keeps-bind _ _
              (Keeps-skipping _ (Keeps-bind _ _ (Keeps-at_payload dg) (λ _. handles obj)))
              (λ _. rest)).at
            s h
