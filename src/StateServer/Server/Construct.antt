-- ===== src/StateServer/Server/Construct.antt =====
-- src/stateserver/DistributedObject.cpp: what the two constructors leave.
use astron.Base.{ℕ, zero, suc, ◌<◌, ◌^◌, refl, sym, List, [], ◌∷◌, Bool, true, false, ◌⊎◌, inl, inr}
use astron.Base.Result.{Result, ok, err}
use astron.Dclass.Class.{Field}
use astron.Iterator.{read_channel, read_uint16, seek_payload}
use astron.StateServer.Object.{
  Context, Handler, and_then, ◌>>=◌, reads, subscribed, subscribe_channel, insert, contains,
}
use astron.StateServer.Object.Keeps.{
  Keeps, Keeps-returns, Keeps-get_self, Keeps-if, Keeps-if_some, Keeps-when, Keeps-bind,
}
use astron.StateServer.Location.{handle_location_change, wake_children}
use astron.StateServer.Server.{
  unpack_required, unpack_other, read_other, construct, construct_loaded,
}
use astron.StateServer.Placement.{Stays, Stays-reads, Stays-modify, replay}
use astron.StateServer.Placement.Entries.{Stays-wake_children}
use astron.StateServer.Placement.Invariant.{
  IsPlaced, Stays-IsPlaced, handle_location_change-IsPlaced, Leads, Ends, emit-Leads,
  moved-IsPlaced, Ends-bind, Keeps-Ends, place_channels,
}
use mathlib.Core.Logic.{◌≢◌}

module _ {d p : ℕ} {channels : List ℕ} where
  pub Stays-unpack_required :
      (fields : List Field) → Keeps (Stays d p channels) (unpack_required fields)
  unfolding unpack_required
  Stays-unpack_required [] = Keeps-returns tt
  Stays-unpack_required (f ∷ fs) =
      Keeps-bind _ _
        (Keeps-when _ _
          (Keeps-bind _ _ (Stays-reads _) (λ value. Stays-modify _ (λ o. (refl, refl)))))
        (λ _. Stays-unpack_required fs)

  Stays-unpack_other : (n : ℕ) → Keeps (Stays d p channels) (unpack_other n)
  unfolding unpack_other
  Stays-unpack_other zero = Keeps-returns tt
  Stays-unpack_other (suc n) = Keeps-bind _ _ (Stays-reads read_uint16) λ field_id.
      Keeps-bind _ _ Keeps-get_self λ self. Keeps-if_some _ _ _ (Keeps-returns tt) λ f.
        Keeps-bind _ _
          (Keeps-if _ _ _
            (Keeps-bind _ _ (Stays-reads _) (λ value. Stays-modify _ (λ o. (refl, refl))))
            (Stays-reads _))
          (λ _. Stays-unpack_other n)

  pub Stays-read_other : (has_other : Bool) → Keeps (Stays d p channels) (read_other has_other)
  unfolding read_other
  Stays-read_other true = Keeps-bind _ _ (Stays-reads read_uint16) Stays-unpack_other
  Stays-read_other false = Keeps-returns tt

-- An object without subscriptions and without a parent.
abbrev pub IsFresh : ℕ → Context → Type 0
IsFresh d c = Stays d 0 [] c × (d ≢ 0) × (d < 2 ^ 32)

Keeps-IsFresh {ℓ} :
    {A : Type ℓ} {d : ℕ} (m : Handler A) → Keeps (Stays d 0 []) m → Keeps (IsFresh d) m
Keeps-IsFresh m k = record { at = λ c (h, nonzero, small). (k.at c h, nonzero, small) }

-- What a constructor leaves: if it returns, an object in its place, and if it throws, that, or, before the
-- subscription to the object's own channel, an object without subscriptions.
abbrev pub Constructed : ℕ → Result (Unit {0}) × Context → Type 0
Constructed d (ok a, c) = IsPlaced c
Constructed d (err e, c) = IsFresh d c ⊎ IsPlaced c

record Constructs (d : ℕ) (m : Handler (Unit {0})) : Type 0 where
  at : (c : Context) → IsFresh d c → Constructed d (m c)

unless {ℓ} :
    {A : Type ℓ} {d : ℕ} (r : Result A) (f : A → Handler (Unit {0})) (c : Context)
    → ((a : A) → Constructs d (f a))
    → IsFresh d c
    → Constructed d (and_then (r, c) f)
unless (ok a) f c rest h = (rest a).at c h
unless (err e) f c rest h = inl h

Constructs-unless {ℓ} :
    {A : Type ℓ} {d : ℕ} (m : Handler A) (f : A → Handler (Unit {0}))
    → Keeps (Stays d 0 []) m
    → ((a : A) → Constructs d (f a))
    → Constructs d (m >>= f)
unfolding ◌>>=◌
Constructs-unless m f keeps rest = record {
  at = λ c h. let (r, c') = m c in unless r f c' rest ((Keeps-IsFresh m keeps).at c h);
}

-- The object's own channel comes first.
subscribe-Leads : (d : ℕ) → Leads (IsFresh d) IsPlaced (subscribe_channel d)
unfolding subscribe_channel place_channels replay insert contains
subscribe-Leads d = record {
  at = λ c (h, nonzero, small).
      let (a, e, h') = (emit-Leads d 0 [] (d ∷ []) (subscribed d) refl).at c h in
      (a, e, moved-IsPlaced d 0 _ small (λ z. nonzero (sym z)) h');
}

placed : (d : ℕ) (s : Result (Unit {0}) × Context) → IsPlaced s.1 → Constructed d s
placed d (ok a, c) h = h
placed d (err e, c) h = inr h

Constructs-Ends : (d : ℕ) (m : Handler (Unit {0})) → Ends (IsFresh d) IsPlaced m → Constructs d m
Constructs-Ends d m ends = record { at = λ c h. placed d (m c) (ends.at c h) }

module _ (d parent_id zone_id : ℕ) (has_other : Bool) where
  -- From the subscription on.
  IsPlaced-Ends : Ends (IsFresh d) IsPlaced (
      subscribe_channel d >>= λ _. reads seek_payload >>= λ _. reads read_channel >>= λ sender.
      handle_location_change parent_id zone_id sender >>= λ _. wake_children)
  IsPlaced-Ends = Ends-bind _ _ (subscribe-Leads d) λ _. Keeps-Ends _ (
      Keeps-bind _ _ (Stays-IsPlaced _ (λ d p l. Stays-reads seek_payload)) λ _.
        Keeps-bind _ _ (Stays-IsPlaced _ (λ d p l. Stays-reads read_channel)) λ sender.
          Keeps-bind _ _ (handle_location_change-IsPlaced parent_id zone_id sender)
            λ _. Stays-IsPlaced _ (λ d p l. Stays-wake_children))

  body-Constructs :
      (fields : List Field)
      → Constructs d (
          unpack_required fields >>= λ _. read_other has_other >>= λ _. subscribe_channel d >>= λ _.
          reads seek_payload >>= λ _. reads read_channel >>= λ sender.
          handle_location_change parent_id zone_id sender >>= λ _. wake_children)
  body-Constructs fields =
      Constructs-unless _ _ (Stays-unpack_required fields) λ _.
        Constructs-unless _ _ (Stays-read_other has_other) λ _. Constructs-Ends d _ IsPlaced-Ends

-- Run on an object without parent and subscriptions, whose id is not 0 and fits 32 bits, the constructor, if
-- it returns, leaves the object subscribed to its own id and to its parent's children channel, if it has a
-- parent, and to nothing else. If it throws, the object is left so, or without parent and subscriptions.
pub construct-Constructed :
    (parent_id zone_id : ℕ) (has_other : Bool) (c : Context)
    → IsFresh c.self.do_id c
    → Constructed c.self.do_id (construct parent_id zone_id has_other c)
unfolding construct ◌>>=◌
construct-Constructed parent_id zone_id has_other c h =
    (body-Constructs c.self.do_id parent_id zone_id has_other c.self.dclass.fields).at c h

-- Run on an object without parent and subscriptions, whose id is not 0 and fits 32 bits, the constructor of a
-- loaded object leaves it subscribed to its own id and its parent's children channel, and to nothing
-- else, with or without an exception.
pub construct_loaded-IsPlaced :
    (sender parent_id zone_id : ℕ) (c : Context)
    → IsFresh c.self.do_id c
    → IsPlaced (construct_loaded sender parent_id zone_id c).1
unfolding construct_loaded ◌>>=◌
construct_loaded-IsPlaced sender parent_id zone_id c h =
    (Ends-bind _ _ (subscribe-Leads c.self.do_id) λ _. Keeps-Ends _ (
        Keeps-bind _ _ (handle_location_change-IsPlaced parent_id zone_id sender)
          λ _. Stays-IsPlaced _ (λ d p l. Stays-wake_children))).at
      c h
