-- ===== src/MessageDirector/Flush.antt =====
-- src/messagedirector/MessageDirector.cpp: flush_queue ends, and with an empty queue.
use astron.Base.{
  ℕ, zero, suc, ◌+◌, ◌<◌, ◌≤◌, ◌≡◌, refl, sym, ap, ◌∙◌, ◌≢◌, List, [], ◌∷◌, ◌++◌, All, All-append,
  Bool, true, false, arith,
}
use astron.Base.Result.{Result, ok, err, stuck}
use astron.Base.Action.{Action, proceed, modify, returns, ◌>>◌}
use astron.Datagram.{Datagram}
use astron.Iterator.{DatagramIterator}
use astron.MessageDirector.Director.{
  Director, Reaction, Message, Event, Call, routed, popped, delivered,
}
use astron.MessageDirector.Director as D
use astron.MessageDirector.Routing.{
  process_datagram, guarded, nested_flush, flush_loop, turn, pop, flush_queue,
}
use astron.MessageDirector.Keeps.{Admits, Throws, Rules, Good, Keeps, not_taken}
use astron.MessageDirector.Handling.{process_datagram-Keeps, nested_flush-Keeps}
use astron.MessageDirector.Order.{
  IsFifo, receivers-Unstuck, flush_queue-IsFifo, flush_loop-Up, routed_of, popped_of,
}
use mathlib.Core.List.{append_assoc, append-nil}

abbrev Ranked : (Datagram → ℕ) → ℕ → List Message → Type 0
Ranked rank r = All (λ m. rank m.1 < r)

-- While the guard is up, the queue is `old` and more messages of a lower rank.
abbrev Grows : (Datagram → ℕ) → ℕ → List Message → List Event → List Message → Bool → Type 0
Grows rank r old es ms b = (b ≡ true) × (new : List Message) × (ms ≡ old ++ new) × Ranked rank r new

Grows-Rules :
    (rank : Datagram → ℕ) (r : ℕ) (old : List Message)
    → Rules (λ e. e ≢ stuck) (λ m. rank m.1 < r) (Grows rank r old)
Grows-Rules rank r old = record {
  routes = λ es ms b m low (up, new, e, h). (
    up,
    new ++ m ∷ [],
    ap (λ (x : List Message). x ++ m ∷ []) e ∙ append_assoc old new (m ∷ []),
    All-append (λ (m : Message). rank m.1 < r) new (m ∷ []) h (low, tt),
  );
  builds = λ e h. h;
}

-- The calls of a handler that does not terminate, and routes messages of a lower rank.
abbrev pub Lowers : (Datagram → ℕ) → ℕ → Call → Type 0
Lowers rank n (D.route_datagram dg) = rank dg < n
Lowers rank n D.terminate = ⊥
Lowers rank n (D.subscribe_channel c) = Unit
Lowers rank n (D.unsubscribe_channel c) = Unit
Lowers rank n (D.add_post_remove sender dg) = Unit
Lowers rank n (D.clear_post_removes sender) = Unit

Admits-lower :
    (rank : Datagram → ℕ) (n r p : ℕ) (cs : List Call)
    → n < suc r
    → All (Lowers rank n) cs
    → All (Admits (λ m. rank m.1 < r) p) cs
Admits-lower rank n r p [] h l = tt
Admits-lower rank n r p (D.route_datagram dg ∷ cs) h l =
    (omega (arith, l.0), Admits-lower rank n r p cs h (l.1))
Admits-lower rank n r p (D.terminate ∷ cs) h l = absurd (l.0)
Admits-lower rank n r p (D.subscribe_channel c ∷ cs) h l = (tt, Admits-lower rank n r p cs h (l.1))
Admits-lower rank n r p (D.unsubscribe_channel c ∷ cs) h l =
    (tt, Admits-lower rank n r p cs h (l.1))
Admits-lower rank n r p (D.add_post_remove s dg ∷ cs) h l = (tt, Admits-lower rank n r p cs h (l.1))
Admits-lower rank n r p (D.clear_post_removes s ∷ cs) h l = (tt, Admits-lower rank n r p cs h (l.1))

-- Participants whose answers to a message have a lower rank than it has.
pub record IsHopLimited {W : Type 0} (rank : Datagram → ℕ)
    (handle : ℕ → Datagram → DatagramIterator → W → Reaction W) : Type 0 where
  pub lowers :
      (q : ℕ) (dg : Datagram) (dgi : DatagramIterator) (w : W)
      → All (Lowers rank (rank dg)) (handle q dg dgi w).calls
  pub returns :
      (q : ℕ) (dg : Datagram) (dgi : DatagramIterator) (w : W)
      → Throws (λ e. e ≢ stuck) (handle q dg dgi w).thrown

-- The outcome of flush_queue. If an exception ends it, the guard stays up, and the messages that were not taken
-- off stay in the queue.
abbrev pub Flushed : {W : Type 0} → Result (Unit {0}) × Director W → Type 0
Flushed (ok a, d) =
    (d.messages ≡ []) × (d.main_is_routing ≡ false) × (routed_of d.events ≡ popped_of d.events)
Flushed (err e, d) =
    (e ≢ stuck)
    × (d.main_is_routing ≡ true)
    × (routed_of d.events ≡ popped_of d.events ++ d.messages)

module _ {W : Type 0} (in_ranges : ℕ → ℕ → Bool) (range_subscribers : ℕ → List ℕ)
    (handle : ℕ → Datagram → DatagramIterator → W → Reaction W) (rank : Datagram → ℕ)
    (limited : IsHopLimited rank handle) where
  abbrev Loop : ℕ → Action (Director W) (Unit {0})
  Loop fuel = flush_loop in_ranges range_subscribers handle fuel

  abbrev Process : Message → Action (Director W) (Unit {0})
  Process m =
      process_datagram in_ranges range_subscribers handle
        (nested_flush in_ranges range_subscribers handle) m

  -- The guard of a nested call stops it.
  nested_flush-Grows :
      (r : ℕ) (old : List Message)
      → Keeps {W = W}
          (λ e. e ≢ stuck)
          (Grows rank r old)
          (nested_flush in_ranges range_subscribers handle)
  unfolding nested_flush guarded
  nested_flush-Grows r old =
      nested_flush-Keeps (λ e. e ≢ stuck) (Grows rank r old) in_ranges range_subscribers handle
        (λ es ms b h. h.0)

  Process-Grows :
      (r : ℕ) (old : List Message) (m : Message)
      → rank m.1 < suc r
      → Keeps {W = W} (λ e. e ≢ stuck) (Grows rank r old) (Process m)
  Process-Grows r old (p, dg) low =
      process_datagram-Keeps (λ e. e ≢ stuck) (λ m. rank m.1 < r) (Grows rank r old)
        (Grows-Rules rank r old) (λ es ms b q dg h. h) in_ranges
        (nested_flush in_ranges range_subscribers handle) (nested_flush-Grows r old)
        range_subscribers handle dg
        (λ q dgi w.
          Admits-lower rank (rank dg) r q (handle q dg dgi w).calls low (limited.lowers q dg dgi w))
        (λ q dgi w. limited.returns q dg dgi w) (λ e h. h) p (receivers-Unstuck dg)

  abbrev Ends : Director W → Type 0
  Ends d = (fuel : ℕ) × ((Loop fuel d).0 ≢ err stuck)

  -- One message processed.
  abbrev Leads : ℕ → List Message → Result (Unit {0}) × Director W → Type 0
  Leads r old (result, d) = Good {W = W} (λ e. e ≢ stuck) (Grows rank r old) (result, d)

  proceed-Ends :
      (r : ℕ) (old : List Message) (s : Result (Unit {0}) × Director W)
      → Leads r old s
      → ((d : Director W) (new : List Message)
          → d.main_is_routing ≡ true
          → d.messages ≡ old ++ new
          → Ranked rank r new
          → Ends d)
      → (fuel : ℕ) × ((proceed s (λ _. Loop fuel)).0 ≢ err stuck)
  proceed-Ends r old (ok a, d) (up, new, e, h) go = go d new up e h
  proceed-Ends r old (err x, d) (h, _) go = (0, λ p. h (cc))

  ends :
      (r : ℕ) (old new : List Message) (d : Director W)
      → d.main_is_routing ≡ true
      → d.messages ≡ old ++ new
      → Ranked rank (suc r) old
      → Ranked rank r new
      → Ends d
  unfolding flush_loop
  ends r (m ∷ old) new d up e h k =
      let (fuel, stop) =
        proceed-Ends r (old ++ new)
          (Process m (pop in_ranges range_subscribers handle m (old ++ new) d))
          (Process-Grows r (old ++ new) m (h.0) _ (up, [], sym (append-nil (old ++ new)), tt))
          (λ d' more up' e' l.
            ends r old (new ++ more) d' up' (e' ∙ append_assoc old new more) (h.1)
              (All-append (λ (m : Message). rank m.1 < r) new more k l)) in
      (suc fuel, rw e stop)
  ends zero [] [] d up e h k = (0, rw e (λ p. cc))
  ends zero [] (m ∷ new) d up e h k = let no : ⊥ = omega (arith, k.0) in absurd no
  ends (suc r) [] new d up e h k = ends r new [] d up (e ∙ sym (append-nil new)) k tt

  -- The loop returns just when the queue is empty.
  turn_empties :
      (ms : List Message) (next : Message → Action (Director W) (Unit {0})) (d : Director W)
      → ms ≡ d.messages
      → ((m : Message) (d : Director W) → (next m d).0 ≡ ok tt → (next m d).1.messages ≡ [])
      → (turn in_ranges range_subscribers handle ms next d).0 ≡ ok tt
      → (turn in_ranges range_subscribers handle ms next d).1.messages ≡ []
  turn_empties [] next d e h done = sym e
  turn_empties (m ∷ ms) next d e h done = h m (pop in_ranges range_subscribers handle m ms d) done

  proceed_empties :
      (fuel : ℕ)
      → ((d : Director W) → (Loop fuel d).0 ≡ ok tt → (Loop fuel d).1.messages ≡ [])
      → (s : Result (Unit {0}) × Director W) → (proceed s (λ _. Loop fuel)).0 ≡ ok tt
      → (proceed s (λ _. Loop fuel)).1.messages ≡ []
  proceed_empties fuel h (ok a, d) = h d
  proceed_empties fuel h (err x, d) = λ done. absurd (cc)

  Loop_empties :
      (fuel : ℕ) (d : Director W) → (Loop fuel d).0 ≡ ok tt → (Loop fuel d).1.messages ≡ []
  unfolding flush_loop
  Loop_empties zero d = turn_empties d.messages _ d refl (λ m d done. absurd (cc))
  Loop_empties (suc fuel) d =
      turn_empties d.messages _ d refl λ m d. proceed_empties fuel (Loop_empties fuel) (Process m d)

  Ranked-le : (r s : ℕ) (ms : List Message) → r ≤ s → Ranked rank r ms → Ranked rank s ms
  Ranked-le r s [] le h = tt
  Ranked-le r s (m ∷ ms) le h = (omega (arith, h.0), Ranked-le r s ms le (h.1))

  highest : (ms : List Message) → (r : ℕ) × Ranked rank r ms
  highest [] = (0, tt)
  highest (m ∷ ms) =
      let (r, h) = highest ms in
      (suc (rank m.1 + r), (omega arith, Ranked-le r (suc (rank m.1 + r)) ms (omega arith) h))

  Loop-Ends : (d : Director W) → d.main_is_routing ≡ true → Ends d
  Loop-Ends d up =
      let (r, h) = highest d.messages in
      ends r d.messages [] d up (sym (append-nil d.messages))
        (Ranked-le r (suc r) d.messages (omega arith) h) tt

  finishes :
      (s : Result (Unit {0}) × Director W)
      → s.0 ≢ err stuck
      → (s.0 ≡ ok tt → s.1.messages ≡ [])
      → Good (λ e. Unit) (λ es ms b. b ≡ true) s
      → IsFifo (proceed s (λ _. modify (D.set_routing false))).1
      → Flushed (proceed s (λ _. modify (D.set_routing false)))
  unfolding IsFifo
  finishes (ok a, d) stop empties up fifo = (
    empties refl,
    refl,
    fifo
        ∙ ap (λ (x : List Message). popped_of d.events ++ x) (empties refl)
        ∙ append-nil (popped_of d.events),
  )
  finishes (err e, d) stop empties up fifo = ((λ same. stop (ap err same)), up.1, fifo)

  -- Assume that the participants answer a message only with messages of a lower rank and do not terminate, that
  -- the model's own `stuck` is not among what they throw, and that the queue is first in, first out so far.
  -- Then there is fuel with which flush_queue, called outside of another, is not stuck: its loop ends. If it
  -- returns, the queue is empty, the guard is down again, and the messages that came into the queue, also those
  -- that came during the loop, have each been taken off it, in the order in which they came. If an exception
  -- ends it, the guard stays up, and the messages not yet taken off are still in the queue, in order.
  pub flush_queue-ends :
      (d : Director W)
      → d.main_is_routing ≡ false
      → IsFifo d
      → (fuel : ℕ) × Flushed (flush_queue in_ranges range_subscribers handle fuel d)
  unfolding flush_queue guarded
  flush_queue-ends d down fifo =
      let (fuel, stop) = Loop-Ends (D.set_routing true d) refl in
      (
        fuel,
        not_taken d.main_is_routing (returns tt)
            (modify (D.set_routing true) >> Loop fuel >> modify (D.set_routing false)) d down
            (λ s. IsFifo s.1 → Flushed s)
            (finishes (Loop fuel (D.set_routing true d)) stop
              (Loop_empties fuel (D.set_routing true d))
              (flush_loop-Up in_ranges range_subscribers handle fuel (D.set_routing true d) refl))
            (flush_queue-IsFifo in_ranges range_subscribers handle fuel d fifo),
      )
