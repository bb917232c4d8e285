-- ===== src/MessageDirector/Handling.antt =====
-- Rules for what the processing of a message keeps.
use astron.Base.{
  ℕ, ◌≡◌, ◌≢◌, List, [], ◌∷◌, ◌++◌, All, Bool, true, false, if◌then◌else◌, Option, none, some,
  arith,
}
use astron.Base.Result.{
  Result, Exception, ok, err, stuck, iterator_eof, datagram_overflow, constraint_violation, fault,
}
use astron.Base.Action.{Action, lift, modify, returns, throws, ◌>>◌}
use astron.ChannelMap.{lookup_channels}
use astron.Datagram.{Datagram}
use astron.Iterator.{DatagramIterator, iterate, check_read_length, tell}
use astron.MessageDirector.Upstream.{send_datagram}
use astron.MessageDirector.Sending.{Unstuck}
use astron.MessageDirector.Director.{
  Director, Reaction, Message, Event, Call, routed, delivered, route, with_upstream, on_link,
  forget_participant, mark_terminated, set_terminated, on_notices, on_map, preroute_post_remove,
  recall_post_removes, subscribe, unsubscribe, unsubscribe_each, unsubscribe_all, route_all,
  send_post_removes, post_remove, remove_participant, call, calls, process_terminates,
}
use astron.MessageDirector.Director as D
use astron.MessageDirector.Routing.{
  handled, deliver, process_datagram, dispatch, caught, receivers, send_upstream, without,
}
use astron.MessageDirector.Keeps.{
  Admits, Throws, Predicate, Rules, Good, Keeps, Keeps-bind, if-Keeps, taken, calls-Keeps,
  with_upstream-Keeps,
}
use astron.MessageDirector.Routing.{nested_flush, guarded}

pub iterate-Unstuck : (dg : Datagram) (at : ℕ) → Unstuck (iterate dg at).0
unfolding iterate check_read_length
iterate-Unstuck dg at = ground arith

-- A call of flush_queue from a handler returns at the guard.
pub nested_flush-Keeps :
    {W : Type 0} (E : Exception → Type 0) (Q : Predicate) (in_ranges : ℕ → ℕ → Bool)
    (range_subscribers : ℕ → List ℕ) (handle : ℕ → Datagram → DatagramIterator → W → Reaction W)
    → ((es : List Event) (ms : List Message) (b : Bool) → Q es ms b → b ≡ true)
    → Keeps {W = W} E Q (nested_flush in_ranges range_subscribers handle)
unfolding nested_flush guarded
nested_flush-Keeps E Q in_ranges range_subscribers handle up d h =
    taken d.main_is_routing (returns tt)
      (modify (D.set_routing true) >> throws {A = Unit {0}} stuck >> modify (D.set_routing false)) d
      (up d.events d.messages d.main_is_routing h) (Good E Q) h

module _ {W : Type 0} (E : Exception → Type 0) (R : Message → Type 0) (Q : Predicate)
    (rules : Rules E R Q)
    (hands : (es : List Event) (ms : List Message) (b : Bool) (q : ℕ) (dg : Datagram)
      → Q es ms b
      → Q (es ++ delivered q dg ∷ []) ms b)
    (in_ranges : ℕ → ℕ → Bool) (flush : Action (Director W) (Unit {0}))
    (flushes : Keeps {W = W} E Q flush) (range_subscribers : ℕ → List ℕ)
    (handle : ℕ → Datagram → DatagramIterator → W → Reaction W) (dg : Datagram)
    (admits : (q : ℕ) (dgi : DatagramIterator) (w : W) → All (Admits R q) (handle q dg dgi w).calls)
    (catches : (q : ℕ) (dgi : DatagramIterator) (w : W) → Throws E (handle q dg dgi w).thrown)
    (thrown : (e : Exception) → e ≢ stuck → E e) where
  caught-Keeps : (t : Option Exception) → Throws E t → Keeps {W = W} E Q (caught t)
  caught-Keeps none h = λ d q. q
  caught-Keeps (some iterator_eof) h = λ d q. q
  caught-Keeps (some datagram_overflow) h = λ d q. (h, q)
  caught-Keeps (some constraint_violation) h = λ d q. (h, q)
  caught-Keeps (some fault) h = λ d q. (h, q)
  caught-Keeps (some stuck) h = λ d q. (h, q)

  handled-Keeps :
      (q : ℕ) (dgi : DatagramIterator)
      → Keeps {W = W} E Q (handled in_ranges range_subscribers handle flush q dg dgi)
  unfolding handled
  handled-Keeps q dgi d h =
      Keeps-bind E Q (modify (D.log (delivered q dg))) _
        (λ d h. hands d.events d.messages d.main_is_routing q dg h)
        (λ _.
          Keeps-bind E Q (modify (D.set_world (handle q dg dgi d.world).world)) _ (λ d h. h)
            λ _.
              Keeps-bind E Q (calls in_ranges flush q (handle q dg dgi d.world).calls) _
                (calls-Keeps E R Q rules in_ranges flush flushes q (handle q dg dgi d.world).calls
                  (admits q dgi d.world))
                λ _. caught-Keeps (handle q dg dgi d.world).thrown (catches q dgi d.world))
        d h

  lift-Keeps : {A : Type 0} (r : Result A) → Unstuck r → Keeps {W = W} E Q (lift r)
  lift-Keeps (ok a) h d q = q
  lift-Keeps (err e) h d q = (thrown e h, q)

  deliver-Keeps :
      (at : ℕ) (qs : List ℕ)
      → Keeps {W = W} E Q (deliver in_ranges range_subscribers handle flush dg at qs)
  unfolding deliver
  deliver-Keeps at [] = λ d h. h
  deliver-Keeps at (q ∷ qs) =
      Keeps-bind E Q (lift (iterate dg at).0) _
        (lift-Keeps (iterate dg at).0 (iterate-Unstuck dg at))
        λ _.
          Keeps-bind E Q (handled in_ranges range_subscribers handle flush q dg (iterate dg at).1)
            (λ returned.
              if returned
              then deliver in_ranges range_subscribers handle flush dg at qs
              else returns false)
            (handled-Keeps q (iterate dg at).1)
            (λ returned.
              if-Keeps E Q returned (deliver in_ranges range_subscribers handle flush dg at qs)
                (returns false) (deliver-Keeps at qs) (λ d h. h))

  send_upstream-Keeps :
      (p : Option ℕ)
      → Keeps {W = W} E Q (send_upstream in_ranges range_subscribers handle flush p dg)
  send_upstream-Keeps none = λ d h. h
  send_upstream-Keeps (some p) =
      with_upstream-Keeps E R Q rules (λ u. ok (send_datagram dg u)) (λ u. tt)

  dispatch-Keeps :
      (p : Option ℕ) (r : Result (List ℕ) × DatagramIterator)
      → Unstuck r.0
      → Keeps {W = W} E Q (dispatch in_ranges range_subscribers handle flush (p, dg) r)
  unfolding process_terminates
  dispatch-Keeps p (err e, dgi) u =
      Keeps-bind E Q (caught (some e)) (λ _. returns tt) (caught-Keeps (some e) (thrown e u))
        (λ _ d h. h)
  dispatch-Keeps p (ok channels, dgi) u = λ d.
      Keeps-bind E Q
        (deliver in_ranges range_subscribers handle flush dg (tell dgi)
          (without p (lookup_channels range_subscribers d.channel_map channels [])))
        _
        (deliver-Keeps (tell dgi)
          (without p (lookup_channels range_subscribers d.channel_map channels [])))
        (λ completed.
          if-Keeps E Q completed
            (send_upstream in_ranges range_subscribers handle flush p dg
              >> modify process_terminates)
            (returns tt)
            (Keeps-bind E Q (send_upstream in_ranges range_subscribers handle flush p dg)
              (λ _. modify process_terminates) (send_upstream-Keeps p) (λ _ d h. h))
            (λ d h. h))
        d

  pub process_datagram-Keeps :
      (p : Option ℕ)
      → Unstuck (receivers dg).0
      → Keeps {W = W} E Q (process_datagram in_ranges range_subscribers handle flush (p, dg))
  unfolding process_datagram
  process_datagram-Keeps p u = dispatch-Keeps p (receivers dg) u
