-- ===== src/MessageDirector/Deliveries.antt =====
-- src/messagedirector/MessageDirector.cpp: to whom process_datagram hands a message, and how often.
use astron.Base.{
  ℕ, ◌+◌, ◌≤◌, ◌≡◌, refl, ap, ◌∙◌, List, [], ◌∷◌, ◌++◌, Bool, true, false, not, ◌&&◌, ◌==◌,
  if◌then◌else◌, Option, none, some, inl, inr, Bool-cases, arith, ==→eq,
}
use astron.Base.Result.{Result, Exception, ok, err}
use astron.Base.Action.{Action, proceed, modify, returns, lift, ◌>>◌}
use astron.ChannelMap.{ChannelMap, lookup_channels, insert_all, subscribers}
use astron.ChannelMap.Delivery.{
  occurs, occurs-append, occurs-erase, contains-occurs, Agrees, any_subscribed,
  lookup_channels-contains,
}
use astron.Datagram.{Datagram}
use astron.Iterator.{DatagramIterator, iterate, tell}
use astron.StateServer.Object.{contains, insert}
use astron.MessageDirector.Director.{
  Director, Reaction, Message, Event, Call, routed, popped, delivered, process_terminates,
}
use astron.MessageDirector.Director as D
use astron.MessageDirector.Routing.{
  process_datagram, dispatch, nested_flush, deliver, handled, caught, receivers, without,
  send_upstream,
}
use astron.MessageDirector.Upstream.{send_datagram}
use astron.MessageDirector.Keeps.{
  Holds, Rules, Good, Keeps, calls-Keeps, with_upstream-Keeps, Keeps-bind,
}
use astron.MessageDirector.Handling.{nested_flush-Keeps}
use astron.MessageDirector.Order.{Admits-All}
use mathlib.Core.Path.{subst}

-- How often a participant was handed a message.
unfoldable pub deliveries : ℕ → List Event → ℕ
deliveries q [] = 0
deliveries q (delivered r dg ∷ es) = let rest = deliveries q es in if r == q then rest + 1 else rest
deliveries q (routed m ∷ es) = deliveries q es
deliveries q (popped m ∷ es) = deliveries q es

deliveries-append :
    (q : ℕ) (es fs : List Event) → deliveries q (es ++ fs) ≡ deliveries q es + deliveries q fs
unfolding deliveries
deliveries-append q [] fs = omega arith
deliveries-append q (delivered r dg ∷ es) fs = ground (arith, deliveries-append q es fs)
deliveries-append q (routed m ∷ es) fs = deliveries-append q es fs
deliveries-append q (popped m ∷ es) fs = deliveries-append q es fs

-- No element twice.
record Once (ps : List ℕ) : Type 0 where
  at_most : (x : ℕ) → occurs x ps ≤ 1

insert-Once : (p : ℕ) (ps : List ℕ) → Once ps → Once (insert p ps)
unfolding insert
insert-Once p ps h = record {
  at_most = λ x. elim (Bool-cases (contains p ps)) [
    | inl e ↦ rw e (h.at_most x)
    | inr e ↦ rw e (elim (Bool-cases (p == x)) [
      | inr other ↦ ground (arith, occurs-append x p ps, h.at_most x)
      | inl same ↦
          let e' : occurs x ps ≡ 0 =
            ground (arith, contains-occurs p ps, ap (λ (y : ℕ). occurs y ps) (==→eq p x same)) in
          ground (arith, occurs-append x p ps)
    ])
  ];
}

insert_all-Once : (qs ps : List ℕ) → Once ps → Once (insert_all qs ps)
unfolding insert_all
insert_all-Once [] ps h = h
insert_all-Once (q ∷ qs) ps h = insert_all-Once qs (insert q ps) (insert-Once q ps h)

lookup_channels-Once :
    (range_subscribers : ℕ → List ℕ) (m : ChannelMap) (cl ps : List ℕ)
    → Once ps
    → Once (lookup_channels range_subscribers m cl ps)
unfolding lookup_channels
lookup_channels-Once range_subscribers m [] ps h = h
lookup_channels-Once range_subscribers m (c ∷ cl) ps h =
    lookup_channels-Once range_subscribers m cl _ (
      insert_all-Once (range_subscribers c) _
        (insert_all-Once (subscribers c m.channel_subscriptions) ps h))

-- A subscriber of one of the channels that is not the sender.
unfoldable pub is_sender : ℕ → Option ℕ → Bool
is_sender q none = false
is_sender q (some p) = p == q

occurs-without :
    (q : ℕ) (p : Option ℕ) (ps : List ℕ)
    → Once ps
    → occurs q (without p ps) ≡ (if contains q ps && not (is_sender q p) then 1 else 0)
unfolding without is_sender
occurs-without q none ps h = ground (arith, contains-occurs q ps, h.at_most q)
occurs-without q (some p) ps h =
    ground (arith, occurs-erase q p ps, contains-occurs q ps, h.at_most q)

abbrev Counts : ℕ → ℕ → List Event → List Message → Bool → Type 0
Counts q n es ms b = (b ≡ true) × (deliveries q es ≡ n)

Counts-Rules : (q n : ℕ) → Rules (λ e. Unit) (λ m. Unit) (Counts q n)
unfolding deliveries
Counts-Rules q n = record {
  routes = λ es ms b m r (up, e). (up, omega (arith, deliveries-append q es (routed m ∷ [])));
  builds = λ e h. tt;
}

-- The outcome of handing out messages: `n` in all if it is not cut short, and no more if an exception ends it.
abbrev Outcome : {W : Type 0} → ℕ → ℕ → Result Bool × Director W → Type 0
Outcome q n (ok returned, d) = (returned ≡ true) × Holds (Counts q n) d
Outcome q n (err e, d) = deliveries q d.events ≤ n

-- The outcome of process_datagram: `n` in all if it returns, and no more if an exception ends it.
abbrev pub Delivers : {W : Type 0} → ℕ → ℕ → Result (Unit {0}) × Director W → Type 0
Delivers q n (ok a, d) = deliveries q d.events ≡ n
Delivers q n (err e, d) = deliveries q d.events ≤ n

module _ {W : Type 0} (in_ranges : ℕ → ℕ → Bool) (range_subscribers : ℕ → List ℕ)
    (handle : ℕ → Datagram → DatagramIterator → W → Reaction W) (dg : Datagram)
    (quiet : (q : ℕ) (dgi : DatagramIterator) (w : W) → (handle q dg dgi w).thrown ≡ none)
    (q : ℕ) where
  abbrev pub Flush : Action (Director W) (Unit {0})
  Flush = nested_flush in_ranges range_subscribers handle

  Flush-Counts : (n : ℕ) → Keeps {W = W} (λ e. Unit) (Counts q n) Flush
  Flush-Counts n =
      nested_flush-Keeps (λ e. Unit) (Counts q n) in_ranges range_subscribers handle
        (λ es ms b h. h.0)

  returned :
      (n : ℕ) (t : Option Exception) (s : Result (Unit {0}) × Director W)
      → t ≡ none
      → Good (λ e. Unit) (Counts q n) s
      → Outcome q n (proceed s (λ _. caught t))
  returned n none (ok a, d) e h = (refl, h)
  returned n (some x) (ok a, d) e h = absurd (cc)
  returned n t (err x, d) e h = omega (arith, h.1.1)

  handled-Counts :
      (r n : ℕ) (dgi : DatagramIterator) (d : Director W)
      → Holds (Counts q n) d
      → Outcome q
          (n + (if r == q then 1 else 0))
          (handled in_ranges range_subscribers handle Flush r dg dgi d)
  unfolding handled deliveries
  handled-Counts r n dgi d (up, e) =
      returned (n + (if r == q then 1 else 0)) (handle r dg dgi d.world).thrown _
        (quiet r dgi d.world)
        (calls-Keeps (λ e. Unit) (λ m. Unit) (Counts q (n + (if r == q then 1 else 0)))
          (Counts-Rules q _) in_ranges Flush (Flush-Counts _) r (handle r dg dgi d.world).calls
          (Admits-All r (handle r dg dgi d.world).calls)
          (D.set_world (handle r dg dgi d.world).world (D.log (delivered r dg) d))
          (up, ground (arith, e, deliveries-append q d.events (delivered r dg ∷ []))))

  abbrev Deliver : ℕ → List ℕ → Action (Director W) Bool
  Deliver at qs = deliver in_ranges range_subscribers handle Flush dg at qs

  goes_on :
      (n m : ℕ) (s : Result Bool × Director W) (k : Action (Director W) Bool)
      → n ≤ m
      → Outcome q n s
      → ((d : Director W) → Holds (Counts q n) d → Outcome q m (k d))
      → Outcome q m (proceed s (λ b. if b then k else returns false))
  goes_on n m (ok true, d) k le (e, h) go = go d h
  goes_on n m (ok false, d) k le (e, h) go = absurd (cc)
  goes_on n m (err x, d) k le h go = omega arith

  starts :
      (n m : ℕ) (r : Result (Unit {0})) (d : Director W) (k : Action (Director W) Bool)
      → n ≤ m
      → Holds (Counts q n) d
      → (Holds (Counts q n) d → Outcome q m (k d))
      → Outcome q m (proceed (lift r d) (λ _. k))
  starts n m (ok a) d k le h go = go h
  starts n m (err x) d k le (up, e) go = omega arith

  deliver-Counts :
      (at : ℕ) (qs : List ℕ) (n : ℕ) (d : Director W)
      → Holds (Counts q n) d
      → Outcome q (n + occurs q qs) (Deliver at qs d)
  unfolding deliver occurs
  deliver-Counts at [] n d (up, e) = (refl, (up, omega (arith, e)))
  deliver-Counts at (r ∷ qs) n d h =
      starts n (n + occurs q (r ∷ qs)) (iterate dg at).0 d _ (omega arith) h λ h.
        goes_on (n + (if r == q then 1 else 0)) (n + occurs q (r ∷ qs))
          (handled in_ranges range_subscribers handle Flush r dg (iterate dg at).1 d)
          (Deliver at qs) (ground arith) (handled-Counts r n (iterate dg at).1 d h)
          λ d' h'.
            subst (λ (m : ℕ). Outcome q m (Deliver at qs d')) (ground arith)
              (deliver-Counts at qs (n + (if r == q then 1 else 0)) d' h')

  after_delivery :
      (n : ℕ) (p : Option ℕ) (s : Result Bool × Director W)
      → Outcome q n s
      → Delivers q n (
          proceed s λ completed.
            if completed
            then send_upstream in_ranges range_subscribers handle Flush p dg
              >> modify process_terminates
            else returns tt)
  unfolding process_terminates
  after_delivery n p (ok true, d) (e, h) = counted _ (
      Keeps-bind (λ e. Unit) (Counts q n)
        (send_upstream in_ranges range_subscribers handle Flush p dg)
        (λ _. modify process_terminates) (upstream-Keeps p) (λ _ d h. h) d h)
    where
      upstream-Keeps :
          (p : Option ℕ)
          → Keeps {W = W}
              (λ e. Unit)
              (Counts q n)
              (send_upstream in_ranges range_subscribers handle Flush p dg)
      upstream-Keeps none = λ d h. h
      upstream-Keeps (some p) =
          with_upstream-Keeps (λ e. Unit) (λ m. Unit) (Counts q n) (Counts-Rules q n)
            (λ u. ok (send_datagram dg u)) (λ u. tt)

      counted :
          (s : Result (Unit {0}) × Director W) → Good (λ e. Unit) (Counts q n) s → Delivers q n s
      counted (ok a, d) (up, e) = e
      counted (err x, d) (_, (up, e)) = omega (arith, e)
  after_delivery n p (ok false, d) (e, h) = absurd (cc)
  after_delivery n p (err x, d) le = le

  module _ (range_subscribers_agree : (p c : ℕ) → contains p (range_subscribers c) ≡ in_ranges p c)
      (p : Option ℕ) (channels : List ℕ) (dgi : DatagramIterator)
      (header : receivers dg ≡ (ok channels, dgi)) (d : Director W) (agrees : Agrees d.channel_map)
      (routing : d.main_is_routing ≡ true) where
    abbrev found : List ℕ
    found = lookup_channels range_subscribers d.channel_map channels []

    targets : occurs q (without p found) ≡ (
        if any_subscribed in_ranges d.channel_map q channels && not (is_sender q p) then 1 else 0)
    unfolding occurs
    targets =
        occurs-without q p found (
          lookup_channels-Once range_subscribers d.channel_map channels []
            (record { at_most = λ x. omega arith }))
        ∙ rw
            (lookup_channels-contains in_ranges range_subscribers range_subscribers_agree
              d.channel_map agrees q channels)
            refl

    -- A message whose header can be read is handed once to each participant that is subscribed to one of its
    -- channels, by itself or by a range, but not to its sender, and to no other participant: if
    -- process_datagram returns, just so often, and if an exception ends it, no more often. It is assumed that
    -- it is called by flush_queue, that the director's map of channels agrees with the participants' own
    -- sets, and that no handle_datagram throws on this message.
    pub process_datagram-Delivers :
        Delivers q
          (deliveries q d.events
            + (if any_subscribed in_ranges d.channel_map q channels && not (is_sender q p)
                then 1
                else 0))
          (process_datagram in_ranges range_subscribers handle Flush (p, dg) d)
    unfolding process_datagram
    process_datagram-Delivers = rw header (
        subst
          (λ (n : ℕ).
            Delivers q (deliveries q d.events + n)
              (dispatch in_ranges range_subscribers handle Flush (p, dg) (ok channels, dgi) d))
          targets
          (after_delivery (deliveries q d.events + occurs q (without p found)) p _ (
            deliver-Counts (tell dgi) (without p found) (deliveries q d.events) d (routing, refl))))
