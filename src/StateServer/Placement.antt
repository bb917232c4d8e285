-- ===== src/StateServer/Placement.antt =====
-- src/stateserver/DistributedObject.cpp: the channels that an object is subscribed to follow its
-- place in the tree.
pub mod Entries
pub mod Updates
pub mod Replies
pub mod Invariant
pub mod Ended
pub mod Messages
use astron.Base.{
  ℕ, zero, suc, ◌+◌, ◌^◌, ◌<◌, ◌≡◌, refl, sym, ap, ◌∙◌, List, [], ◌∷◌, ◌++◌, Bool, true, false,
  ◌!=◌, ◌==◌, if◌then◌else◌, arith, Bool-cases, inl, inr, Option, none, some,
}
use astron.Base.Result.{Result, ok, err}
use astron.Channels.{parent_to_children}
use astron.Datagram.{Datagram}
use astron.Iterator.{DatagramIterator, Reader}
use astron.StateServer.Object.{
  DistributedObject, Context, Effect, routed, subscribed, unsubscribed, erased, terminated, Handler,
  modify, emit, reads, ◌>>=◌, ◌>>◌, returns, get_self, builds, when, route_datagram,
  subscribe_channel, unsubscribe_channel, insert, erase, contains, FieldValues,
}
use astron.StateServer.Object.Keeps.{
  Keeps, Keeps-returns, Keeps-builds, Keeps-if, Keeps-get_self, Keeps-when, Keeps-bind,
  Keeps-if_some, Keeps-reads,
}
use astron.StateServer.Entries.{
  append_required_fields, append_required_data, append_values, append_other_data, append_other_if,
  send_interest_entry, send_location_entry, send_ai_entry, send_owner_entry, in_entry,
}
use astron.Dclass.Class.{Field}
use mathlib.Core.Logic.{◌≢◌}

-- The subscriptions that a list of effects leaves. terminate takes the participant off the director, and
-- that ends all of its subscriptions.
unfoldable pub replay : List ℕ → List Effect → List ℕ
replay channels [] = channels
replay channels (subscribed c ∷ es) = replay (insert c channels) es
replay channels (unsubscribed c ∷ es) = replay (erase c channels) es
replay channels (terminated ∷ es) = replay [] es
replay channels (routed d ∷ es) = replay channels es
replay channels (erased d ∷ es) = replay channels es

pub replay-append :
    (channels : List ℕ) (xs ys : List Effect)
    → replay channels (xs ++ ys) ≡ replay (replay channels xs) ys
unfolding replay
replay-append channels [] ys = refl
replay-append channels (subscribed c ∷ xs) ys = replay-append (insert c channels) xs ys
replay-append channels (unsubscribed c ∷ xs) ys = replay-append (erase c channels) xs ys
replay-append channels (routed d ∷ xs) ys = replay-append channels xs ys
replay-append channels (erased d ∷ xs) ys = replay-append channels xs ys
replay-append channels (terminated ∷ xs) ys = replay-append [] xs ys

-- The object's id, its parent, and its subscriptions, as given.
pub record Stays (d p : ℕ) (channels : List ℕ) (c : Context) : Type 0 where
  pub same_id : c.self.do_id ≡ d
  pub same_parent : c.self.parent_id ≡ p
  pub same_channels : replay [] c.effects ≡ channels

module _ {d p : ℕ} {channels : List ℕ} where
  pub Stays-iterator :
      (c : Context) (dgi : DatagramIterator)
      → Stays d p channels c
      → Stays d p channels (record c { dgi = dgi })
  Stays-iterator c dgi h = record {
    same_id = h.same_id;
    same_parent = h.same_parent;
    same_channels = h.same_channels;
  }

  pub Stays-reads {ℓ} : {A : Type ℓ} (m : Reader A) → Keeps (Stays d p channels) (reads m)
  Stays-reads m = Keeps-reads m Stays-iterator

  -- A change of the object that leaves its id and its parent alone.
  pub Stays-modify :
      (f : DistributedObject → DistributedObject)
      → ((o : DistributedObject) → ((f o).do_id ≡ o.do_id) × ((f o).parent_id ≡ o.parent_id))
      → Keeps (Stays d p channels) (modify f)
  unfolding modify
  Stays-modify f alone = record {
    at = λ c h. record {
      same_id = (alone c.self).0 ∙ h.same_id;
      same_parent = (alone c.self).1 ∙ h.same_parent;
      same_channels = h.same_channels;
    };
  }

  pub Stays-emit :
      (e : Effect) → ((cs : List ℕ) → replay cs (e ∷ []) ≡ cs) → Keeps (Stays d p channels) (emit e)
  unfolding emit
  Stays-emit e silent = record {
    at = λ c h. record {
      same_id = h.same_id;
      same_parent = h.same_parent;
      same_channels = replay-append [] c.effects (e ∷ []) ∙ silent _ ∙ h.same_channels;
    };
  }

  pub Stays-route : (dg : Datagram) → Keeps (Stays d p channels) (route_datagram dg)
  unfolding route_datagram replay
  Stays-route dg = Stays-emit (routed dg) (λ cs. refl)

pub ruleset stays_rules = (
  Keeps-returns, Keeps-builds, Keeps-if, Keeps-get_self, Keeps-when, Keeps-bind, Keeps-if_some,
  Stays-reads, Stays-route, Stays-modify, refl,
)
