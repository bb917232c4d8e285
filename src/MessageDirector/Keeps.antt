-- ===== src/MessageDirector/Keeps.antt =====
-- Rules for what the director's actions keep: a predicate of its history, its queue and its guard.
use astron.Base.{
  ℕ, ◌≡◌, ◌≢◌, List, [], ◌∷◌, ◌++◌, All, Bool, true, false, if◌then◌else◌, Option, none, some,
}
use astron.Base.Result.{Result, Exception, ok, err, stuck}
use astron.Base.Action.{Action, proceed, lift, modify, returns, ◌>>◌}
use astron.ChannelMap.{ChannelMap, Notice, added, removed, lookup_channels}
use astron.ChannelMap as Map
use astron.Datagram.{Datagram}
use astron.MessageDirector.Upstream.{
  Upstream, send_datagram, channel_message, send_message, post_remove_message, control_add_channel,
  control_remove_channel, control_clear_post_removes,
}
use astron.MessageDirector.Upstream as Link
use astron.MessageDirector.Sending.{
  Unstuck, channel_message-Unstuck, post_remove_message-Unstuck, send_message-Unstuck,
}
use astron.MessageDirector.Director.{
  Director, Reaction, Message, Event, Call, routed, delivered, route, with_upstream, on_link,
  forget_participant, mark_terminated, set_terminated, on_notices, on_map, preroute_post_remove,
  recall_post_removes, subscribe, unsubscribe, unsubscribe_each, unsubscribe_all, route_all,
  send_post_removes, post_remove, remove_participant, call, calls, process_terminates,
}
use astron.MessageDirector.Director as D

-- What a call may route. A participant that terminates routes its post-removes too.
abbrev pub Admits : (Message → Type 0) → ℕ → Call → Type 0
Admits R p (D.route_datagram dg) = R (some p, dg)
Admits R p D.terminate = (m : Message) → R m
Admits R p (D.subscribe_channel c) = Unit
Admits R p (D.unsubscribe_channel c) = Unit
Admits R p (D.add_post_remove sender dg) = Unit
Admits R p (D.clear_post_removes sender) = Unit

abbrev pub Throws : (Exception → Type 0) → Option Exception → Type 0
Throws E none = Unit
Throws E (some e) = E e

abbrev pub Predicate : Type 1
Predicate = List Event → List Message → Bool → Type 0

abbrev pub Holds : {W : Type 0} → Predicate → Director W → Type 0
Holds Q d = Q d.events d.messages d.main_is_routing

-- What the actions need of the predicate and of the exceptions.
pub record Rules (E : Exception → Type 0) (R : Message → Type 0) (Q : Predicate) : Type 0 where
  pub routes :
      (es : List Event) (ms : List Message) (b : Bool) (m : Message)
      → R m
      → Q es ms b
      → Q (es ++ routed m ∷ []) (ms ++ m ∷ []) b
  pub builds : (e : Exception) → e ≢ stuck → E e

module _ {W : Type 0} (E : Exception → Type 0) (Q : Predicate) where
  -- What is left after a result, or after an exception.
  abbrev pub Good : {A : Type 0} → Result A × Director W → Type 0
  Good (ok a, d) = Holds Q d
  Good (err e, d) = E e × Holds Q d

  abbrev pub Keeps : {A : Type 0} → Action (Director W) A → Type 0
  Keeps m = (d : Director W) → Holds Q d → Good (m d)

  proceed-Good :
      {A B : Type 0} (r : Result A × Director W) (f : A → Action (Director W) B)
      → Good r
      → ((a : A) → Keeps (f a))
      → Good (proceed r f)
  proceed-Good (ok a, d) f h k = k a d h
  proceed-Good (err e, d) f h k = h

  pub Keeps-bind :
      {A B : Type 0} (m : Action (Director W) A) (f : A → Action (Director W) B)
      → Keeps m
      → ((a : A) → Keeps (f a))
      → Keeps (λ d. proceed (m d) f)
  Keeps-bind m f h k d q = proceed-Good (m d) f (h d q) k

  pub if-Keeps :
      {A : Type 0} (b : Bool) (m n : Action (Director W) A)
      → Keeps m
      → Keeps n
      → Keeps (λ d. (if b then m else n) d)
  if-Keeps true m n h k = h
  if-Keeps false m n h k = k

-- The two ways that an action goes that tests a condition first.
pub taken :
    {W : Type 0} (b : Bool) (m n : Action (Director W) (Unit {0})) (d : Director W)
    → b ≡ true
    → (P : Result (Unit {0}) × Director W → Type 0) → P (m d)
    → P ((if b then m else n) d)
taken true m n d e P h = h
taken false m n d e P h = absurd (cc)

pub not_taken :
    {W : Type 0} (b : Bool) (m n : Action (Director W) (Unit {0})) (d : Director W)
    → b ≡ false
    → (P : Result (Unit {0}) × Director W → Type 0) → P (n d)
    → P ((if b then m else n) d)
not_taken true m n d e P h = absurd (cc)
not_taken false m n d e P h = h

module _ {W : Type 0} (E : Exception → Type 0) (R : Message → Type 0) (Q : Predicate)
    (rules : Rules E R Q) where
  lift-Good : (r : Result Upstream) → Unstuck r → Keeps {W = W} E Q (lift r)
  lift-Good (ok u) h d q = q
  lift-Good (err e) h d q = (rules.builds e h, q)

  pub with_upstream-Keeps :
      (f : Upstream → Result Upstream)
      → ((u : Upstream) → Unstuck (f u))
      → Keeps {W = W} E Q (with_upstream f)
  unfolding with_upstream
  with_upstream-Keeps f h d q = on_link-Keeps d.upstream d q
    where
      on_link-Keeps : (o : Option Upstream) → Keeps {W = W} E Q (on_link o f)
      on_link-Keeps none = λ d q. q
      on_link-Keeps (some u) =
          Keeps-bind E Q (lift (f u)) _ (lift-Good (f u) (h u)) (λ u' d' q'. q')

  on_notices-Keeps : (ns : List Notice) → Keeps {W = W} E Q (on_notices ns)
  unfolding on_notices Link.subscribe_channel Link.unsubscribe_channel
  on_notices-Keeps [] = λ d q. q
  on_notices-Keeps (added c ∷ ns) =
      Keeps-bind E Q (with_upstream (Link.subscribe_channel c)) _
        (with_upstream-Keeps (Link.subscribe_channel c)
          (λ u. send_message-Unstuck _ u (channel_message-Unstuck _ c)))
        (λ _. on_notices-Keeps ns)
  on_notices-Keeps (removed c ∷ ns) =
      Keeps-bind E Q (with_upstream (Link.unsubscribe_channel c)) _
        (with_upstream-Keeps (Link.unsubscribe_channel c)
          (λ u. send_message-Unstuck _ u (channel_message-Unstuck _ c)))
        (λ _. on_notices-Keeps ns)

  on_map-Keeps : (f : ChannelMap → ChannelMap) → Keeps {W = W} E Q (on_map f)
  unfolding on_map
  on_map-Keeps f d q =
      on_notices-Keeps (f (record d.channel_map { notices = [] })).notices
        (record d { channel_map = f (record d.channel_map { notices = [] }) }) q

  preroute-Keeps : (sender : ℕ) (dg : Datagram) → Keeps {W = W} E Q (preroute_post_remove sender dg)
  unfolding preroute_post_remove
  preroute-Keeps sender dg =
      with_upstream-Keeps (send_message (post_remove_message sender dg))
        λ u. send_message-Unstuck _ u (post_remove_message-Unstuck sender dg)

  recall-Keeps : (sender : ℕ) → Keeps {W = W} E Q (recall_post_removes sender)
  unfolding recall_post_removes
  recall-Keeps sender =
      with_upstream-Keeps (send_message (channel_message control_clear_post_removes sender))
        λ u. send_message-Unstuck _ u (channel_message-Unstuck _ sender)

  module _ (in_ranges : ℕ → ℕ → Bool) (flush : Action (Director W) (Unit {0}))
      (flushes : Keeps {W = W} E Q flush) where
    pub route-Keeps :
        (p : Option ℕ) (dg : Datagram) → R (p, dg) → Keeps {W = W} E Q (route flush p dg)
    unfolding route
    route-Keeps p dg r d q = flushes _ (rules.routes _ _ _ (p, dg) r q)

    unsubscribe_each-Keeps :
        (p : ℕ) (cs : List ℕ) → Keeps {W = W} E Q (unsubscribe_each in_ranges flush p cs)
    unfolding unsubscribe_each unsubscribe
    unsubscribe_each-Keeps p [] = λ d q. q
    unsubscribe_each-Keeps p (c ∷ cs) =
        Keeps-bind E Q (unsubscribe in_ranges flush p c) _
          (on_map-Keeps (λ m. Map.unsubscribe_channel in_ranges m p c))
          (λ _. unsubscribe_each-Keeps p cs)

    module _ (any : (m : Message) → R m) where
      route_all-Keeps :
          (p : ℕ) (dgs : List Datagram) → Keeps {W = W} E Q (route_all in_ranges flush p dgs)
      unfolding route_all
      route_all-Keeps p [] = λ d q. q
      route_all-Keeps p (dg ∷ dgs) =
          Keeps-bind E Q (route flush (some p) dg) _ (route-Keeps (some p) dg (any _))
            (λ _. route_all-Keeps p dgs)

      send_post_removes-Keeps :
          (p : ℕ) (all : List (ℕ × List Datagram))
          → Keeps {W = W} E Q (send_post_removes in_ranges flush p all)
      unfolding send_post_removes
      send_post_removes-Keeps p [] = λ d q. q
      send_post_removes-Keeps p ((sender, dgs) ∷ more) =
          Keeps-bind E Q (route_all in_ranges flush p dgs >> recall_post_removes sender) _
            (Keeps-bind E Q (route_all in_ranges flush p dgs) _ (route_all-Keeps p dgs)
              (λ _. recall-Keeps sender))
            (λ _. send_post_removes-Keeps p more)

      remove_participant-Keeps : (p : ℕ) → Keeps {W = W} E Q (remove_participant in_ranges flush p)
      unfolding remove_participant post_remove unsubscribe_all
      remove_participant-Keeps p =
          Keeps-bind E Q (unsubscribe_all in_ranges flush p) _
            (λ d q. unsubscribe_each-Keeps p _ d q)
            λ _.
              Keeps-bind E Q (modify (forget_participant p)) _ (λ d q. q)
                λ _.
                  Keeps-bind E Q (post_remove in_ranges flush p) (λ _. modify (mark_terminated p))
                    (λ d q. send_post_removes-Keeps p _ d q) λ _ d q. q

    call-Keeps : (p : ℕ) (c : Call) → Admits R p c → Keeps {W = W} E Q (call in_ranges flush p c)
    unfolding call subscribe unsubscribe
    call-Keeps p (D.route_datagram dg) r = route-Keeps (some p) dg r
    call-Keeps p (D.subscribe_channel c) r =
        on_map-Keeps (λ m. Map.subscribe_channel in_ranges m p c)
    call-Keeps p (D.unsubscribe_channel c) r =
        on_map-Keeps (λ m. Map.unsubscribe_channel in_ranges m p c)
    call-Keeps p (D.add_post_remove sender dg) r = λ d q. preroute-Keeps sender dg _ q
    call-Keeps p (D.clear_post_removes sender) r = λ d q. recall-Keeps sender _ q
    call-Keeps p D.terminate r = λ d.
        if-Keeps E Q (d.is_terminated p) (returns tt)
          (modify (set_terminated p) >> remove_participant in_ranges flush p) (λ d h. h)
          (Keeps-bind E Q (modify (set_terminated p)) (λ _. remove_participant in_ranges flush p)
            (λ d h. h) (λ _. remove_participant-Keeps r p))
          d

    pub calls-Keeps :
        (p : ℕ) (cs : List Call)
        → All (Admits R p) cs
        → Keeps {W = W} E Q (calls in_ranges flush p cs)
    unfolding calls
    calls-Keeps p [] r = λ d q. q
    calls-Keeps p (c ∷ cs) r =
        Keeps-bind E Q (call in_ranges flush p c) _ (call-Keeps p c (r.0))
          (λ _. calls-Keeps p cs (r.1))
