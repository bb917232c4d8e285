-- ===== src/MessageDirector/Order.antt =====
-- src/messagedirector/MessageDirector.cpp: the queue is first in, first out.
use astron.Base.{
  ℕ, zero, suc, ◌≡◌, refl, sym, ap, ◌∙◌, List, [], ◌∷◌, ◌++◌, All, Bool, true, false, Option, none,
  some, arith,
}
use astron.Base.Result.{Result, Exception, ok, err, stuck}
use astron.Base.Action.{Action, modify, throws, returns, ◌>>◌}
use astron.Datagram.{Datagram, memory_read}
use astron.Iterator as I
use astron.Iterator.{
  DatagramIterator, Reader, iterate, check_read_length, load, advance, read_data, read_uint8,
  read_channel,
}
use astron.MessageDirector.Director.{
  Director, Reaction, Message, Event, Call, routed, popped, delivered, read_channels,
  read_receivers,
}
use astron.MessageDirector.Director as D
use astron.MessageDirector.Routing.{
  process_datagram, receivers, guarded, nested_flush, flush_loop, turn, flush_queue, route_datagram,
}
use astron.MessageDirector.Sending.{Unstuck}
use astron.MessageDirector.Keeps.{
  Predicate, Holds, Admits, Throws, Rules, Good, Keeps, Keeps-bind, if-Keeps, route-Keeps,
}
use astron.MessageDirector.Handling.{process_datagram-Keeps, nested_flush-Keeps}
use mathlib.Core.Path.{subst}
use mathlib.Core.List.{append_assoc, append-nil}

-- The messages that came into the queue, and those that were taken from it, the oldest first.
unfoldable pub routed_of : List Event → List Message
routed_of [] = []
routed_of (routed m ∷ es) = m ∷ routed_of es
routed_of (popped m ∷ es) = routed_of es
routed_of (delivered q dg ∷ es) = routed_of es

unfoldable pub popped_of : List Event → List Message
popped_of [] = []
popped_of (routed m ∷ es) = popped_of es
popped_of (popped m ∷ es) = m ∷ popped_of es
popped_of (delivered q dg ∷ es) = popped_of es

-- What came in is what was taken out and then what is in the queue.
unfoldable pub IsFifo : {W : Type 0} → Director W → Type 0
unfolding routed_of popped_of
IsFifo d = routed_of d.events ≡ popped_of d.events ++ d.messages

routed_of-append : (es fs : List Event) → routed_of (es ++ fs) ≡ routed_of es ++ routed_of fs
unfolding routed_of
routed_of-append [] fs = refl
routed_of-append (routed m ∷ es) fs = ap (◌∷◌ m) (routed_of-append es fs)
routed_of-append (popped m ∷ es) fs = routed_of-append es fs
routed_of-append (delivered q dg ∷ es) fs = routed_of-append es fs

popped_of-append : (es fs : List Event) → popped_of (es ++ fs) ≡ popped_of es ++ popped_of fs
unfolding popped_of
popped_of-append [] fs = refl
popped_of-append (routed m ∷ es) fs = popped_of-append es fs
popped_of-append (popped m ∷ es) fs = ap (◌∷◌ m) (popped_of-append es fs)
popped_of-append (delivered q dg ∷ es) fs = popped_of-append es fs

read_data-Unstuck : (n : ℕ) (dgi : DatagramIterator) → Unstuck (read_data n dgi).0
unfolding read_data check_read_length load memory_read advance
read_data-Unstuck n dgi = ground arith

and_then-Unstuck :
    {A B : Type 0} (r : Result A × DatagramIterator) (f : A → Reader B)
    → Unstuck r.0
    → ((a : A) (dgi : DatagramIterator) → Unstuck (f a dgi).0)
    → Unstuck (I.and_then r f).0
and_then-Unstuck (ok a, dgi) f h k = k a dgi
and_then-Unstuck (err e, dgi) f h k = h

read_channels-Unstuck : (n : ℕ) (dgi : DatagramIterator) → Unstuck (read_channels n dgi).0
unfolding read_channels read_channel
read_channels-Unstuck zero dgi = tt
read_channels-Unstuck (suc n) dgi =
    and_then-Unstuck (I.and_then (read_data 8 dgi) _) _
      (and_then-Unstuck (read_data 8 dgi) _ (read_data-Unstuck 8 dgi) (λ b d. tt))
      λ c d. and_then-Unstuck (read_channels n d) _ (read_channels-Unstuck n d) (λ cs d'. tt)

pub receivers-Unstuck : (dg : Datagram) → Unstuck (receivers dg).0
unfolding receivers read_receivers iterate check_read_length read_uint8
receivers-Unstuck dg = and_then-Unstuck (iterate dg 0) _ (ground arith) λ _ d.
    and_then-Unstuck (I.and_then (read_data 1 d) _) _
      (and_then-Unstuck (read_data 1 d) _ (read_data-Unstuck 1 d) (λ b e. tt))
      (λ n e. read_channels-Unstuck n e)

abbrev Fifo : List Event → List Message → Bool → Type 0
Fifo es ms b = routed_of es ≡ popped_of es ++ ms

Fifo-Rules : Rules (λ e. Unit) (λ m. Unit) Fifo
unfolding routed_of popped_of
Fifo-Rules = record {
  routes = λ es ms b m r q.
      routed_of-append es (routed m ∷ [])
      ∙ ap (λ (x : List Message). x ++ m ∷ []) q
      ∙ append_assoc (popped_of es) ms (m ∷ [])
      ∙ ap (λ (x : List Message). x ++ (ms ++ m ∷ []))
          (sym (popped_of-append es (routed m ∷ []) ∙ append-nil (popped_of es)));
  builds = λ e h. tt;
}

delivered-Fifo :
    (es : List Event) (ms : List Message) (b : Bool) (p : ℕ) (dg : Datagram)
    → Fifo es ms b
    → Fifo (es ++ delivered p dg ∷ []) ms b
unfolding routed_of popped_of
delivered-Fifo es ms b p dg q =
    routed_of-append es (delivered p dg ∷ [])
    ∙ append-nil (routed_of es)
    ∙ q
    ∙ ap (λ (x : List Message). x ++ ms)
        (sym (popped_of-append es (delivered p dg ∷ []) ∙ append-nil (popped_of es)))

pop-Fifo :
    (es : List Event) (m : Message) (ms : List Message) (b : Bool)
    → Fifo es (m ∷ ms) b
    → Fifo (es ++ popped m ∷ []) ms b
unfolding routed_of popped_of
pop-Fifo es m ms b q =
    routed_of-append es (popped m ∷ [])
    ∙ append-nil (routed_of es)
    ∙ q
    ∙ sym (append_assoc (popped_of es) (m ∷ []) ms)
    ∙ ap (λ (x : List Message). x ++ ms) (sym (popped_of-append es (popped m ∷ [])))

-- Any call admits everything.
pub Admits-All : (p : ℕ) (cs : List Call) → All (Admits (λ m. Unit) p) cs
Admits-All p [] = tt
Admits-All p (D.route_datagram dg ∷ cs) = (tt, Admits-All p cs)
Admits-All p (D.subscribe_channel c ∷ cs) = (tt, Admits-All p cs)
Admits-All p (D.unsubscribe_channel c ∷ cs) = (tt, Admits-All p cs)
Admits-All p (D.add_post_remove s dg ∷ cs) = (tt, Admits-All p cs)
Admits-All p (D.clear_post_removes s ∷ cs) = (tt, Admits-All p cs)
Admits-All p (D.terminate ∷ cs) = ((λ m. tt), Admits-All p cs)

throws_any : (t : Option Exception) → Throws (λ e. Unit) t
throws_any none = tt
throws_any (some e) = tt

module _ {W : Type 0} (in_ranges : ℕ → ℕ → Bool) (range_subscribers : ℕ → List ℕ)
    (handle : ℕ → Datagram → DatagramIterator → W → Reaction W) where
  guarded-Fifo :
      (m : Action (Director W) (Unit {0}))
      → Keeps (λ e. Unit) Fifo m
      → Keeps (λ e. Unit) Fifo (guarded in_ranges range_subscribers handle m)
  unfolding guarded
  guarded-Fifo m h = λ d.
      if-Keeps (λ e. Unit) Fifo d.main_is_routing (returns tt)
        (modify (D.set_routing true) >> m >> modify (D.set_routing false)) (λ d q. q)
        (Keeps-bind (λ e. Unit) Fifo (modify (D.set_routing true) >> m)
          (λ _. modify (D.set_routing false))
          (Keeps-bind (λ e. Unit) Fifo (modify (D.set_routing true)) (λ _. m) (λ d q. q) (λ _. h))
          (λ _ d q. q))
        d

  nested_flush-Fifo : Keeps (λ e. Unit) Fifo (nested_flush in_ranges range_subscribers handle)
  unfolding nested_flush
  nested_flush-Fifo = guarded-Fifo (throws stuck) (λ d q. (tt, q))

  -- A predicate of the queue that routing, handing out and popping a message keep is kept by the loop.
  module _ (Q : Predicate) (rules : Rules (λ e. Unit) (λ m. Unit) Q)
      (hands : (es : List Event) (ms : List Message) (b : Bool) (p : ℕ) (dg : Datagram)
        → Q es ms b
        → Q (es ++ delivered p dg ∷ []) ms b)
      (pops : (es : List Event) (m : Message) (ms : List Message) (b : Bool)
        → Q es (m ∷ ms) b
        → Q (es ++ popped m ∷ []) ms b)
      (nested : Keeps {W = W} (λ e. Unit) Q (nested_flush in_ranges range_subscribers handle)) where
    turn-Keeps :
        (ms : List Message) (next : Message → Action (Director W) (Unit {0})) (d : Director W)
        → d.messages ≡ ms
        → ((m : Message) → Keeps (λ e. Unit) Q (next m))
        → Holds Q d
        → Good (λ e. Unit) Q (turn in_ranges range_subscribers handle ms next d)
    turn-Keeps [] next d e h q = q
    turn-Keeps (m ∷ ms) next d e h q = h m _ (
        pops d.events m ms d.main_is_routing
          (subst (λ (x : List Message). Q d.events x d.main_is_routing) e q))

    process-Keeps :
        (m : Message)
        → Keeps
            (λ e. Unit)
            Q
            (process_datagram in_ranges range_subscribers handle
              (nested_flush in_ranges range_subscribers handle)
              m)
    process-Keeps (p, dg) =
        process_datagram-Keeps (λ e. Unit) (λ m. Unit) Q rules hands in_ranges
          (nested_flush in_ranges range_subscribers handle) nested range_subscribers handle dg
          (λ q dgi w. Admits-All q (handle q dg dgi w).calls)
          (λ q dgi w. throws_any (handle q dg dgi w).thrown) (λ e h. tt) p (receivers-Unstuck dg)

    pub flush_loop-Keeps :
        (fuel : ℕ) → Keeps (λ e. Unit) Q (flush_loop in_ranges range_subscribers handle fuel)
    unfolding flush_loop
    flush_loop-Keeps zero d q = turn-Keeps d.messages _ d refl (λ m d q. (tt, q)) q
    flush_loop-Keeps (suc fuel) d q =
        turn-Keeps d.messages _ d refl
          (λ m.
            Keeps-bind (λ e. Unit) Q
              (process_datagram in_ranges range_subscribers handle
                (nested_flush in_ranges range_subscribers handle) m)
              _ (process-Keeps m) (λ _. flush_loop-Keeps fuel))
          q

  pub flush_loop-Fifo :
      (fuel : ℕ) → Keeps (λ e. Unit) Fifo (flush_loop in_ranges range_subscribers handle fuel)
  flush_loop-Fifo fuel =
      flush_loop-Keeps Fifo Fifo-Rules delivered-Fifo pop-Fifo nested_flush-Fifo fuel

  -- While the loop runs the guard is up, and an exception leaves it up.
  pub flush_loop-Up :
      (fuel : ℕ)
      → Keeps (λ e. Unit) (λ es ms b. b ≡ true) (flush_loop in_ranges range_subscribers handle fuel)
  flush_loop-Up fuel =
      flush_loop-Keeps (λ es ms b. b ≡ true)
        (record { routes = λ es ms b m r q. q; builds = λ e h. tt }) (λ es ms b p dg q. q)
        (λ es m ms b q. q)
        (nested_flush-Keeps (λ e. Unit) (λ es ms b. b ≡ true) in_ranges range_subscribers handle
          (λ es ms b q. q))
        fuel

  Good-IsFifo : {A : Type 0} (r : Result A × Director W) → Good (λ e. Unit) Fifo r → IsFifo r.1
  unfolding IsFifo
  Good-IsFifo (ok a, d) q = q
  Good-IsFifo (err e, d) q = q.1

  pub flush_queue-IsFifo :
      (fuel : ℕ) (d : Director W)
      → IsFifo d
      → IsFifo (flush_queue in_ranges range_subscribers handle fuel d).1
  unfolding flush_queue IsFifo
  flush_queue-IsFifo fuel d h =
      Good-IsFifo _ (
        guarded-Fifo (flush_loop in_ranges range_subscribers handle fuel) (flush_loop-Fifo fuel) d
          h)

  -- When a message is routed, and with it all those that the participants that handle it route, the queue
  -- stays first in, first out: if the messages that came in so far were those that were taken off and then
  -- those in the queue, in this order, they are again, whatever the participants do and also if an
  -- exception ends it.
  pub route_datagram-IsFifo :
      (fuel : ℕ) (p : Option ℕ) (dg : Datagram) (d : Director W)
      → IsFifo d
      → IsFifo (route_datagram in_ranges range_subscribers handle fuel p dg d).1
  unfolding route_datagram IsFifo flush_queue
  route_datagram-IsFifo fuel p dg d h = Good-IsFifo _ (
      route-Keeps (λ e. Unit) (λ m. Unit) Fifo Fifo-Rules in_ranges
        (flush_queue in_ranges range_subscribers handle fuel)
        (guarded-Fifo (flush_loop in_ranges range_subscribers handle fuel) (flush_loop-Fifo fuel)) p
        dg tt d h)
