-- ===== src/MessageDirector/Routing.antt =====
-- src/messagedirector/MessageDirector.cpp: flush_queue and process_datagram.
-- `in_ranges` and `range_subscribers` are what boost::icl answers about the ranges of channels, which do not
-- change here; `handle` is the virtual handle_datagram of a participant, as a function of their states.
use astron.Base.{ℕ, zero, suc, List, [], ◌∷◌, Bool, true, false, Option, none, some, if◌then◌else◌}
use astron.Base.Result.{
  Result, Exception, ok, err, iterator_eof, datagram_overflow, constraint_violation, fault, stuck,
}
use astron.Base.Action.{Action, returns, throws, modify, lift, ◌>>=◌, ◌>>◌}
use astron.ChannelMap.{lookup_channels}
use astron.Datagram.{Datagram}
use astron.Iterator as I
use astron.Iterator.{DatagramIterator, iterate, tell}
use astron.StateServer.Object.{erase}
use astron.MessageDirector.Director.{
  Director, Reaction, Message, set_world, set_routing, read_receivers, delivered, popped, log,
  with_upstream, to_upstream, process_terminates, calls, route,
}

-- Unpacking the receivers: the iterator behind them, or DatagramIteratorEOF.
unfoldable pub receivers : Datagram → Result (List ℕ) × DatagramIterator
unfolding read_receivers
receivers dg = I.and_then (iterate dg 0) λ _. read_receivers

-- The sender is no receiver.
unfoldable pub without : Option ℕ → List ℕ → List ℕ
unfolding erase
without none ps = ps
without (some p) ps = erase p ps

-- Whether handle_datagram returned; a DatagramIteratorEOF is caught, other exceptions are not.
abbrev pub caught : {W : Type 0} → Option Exception → Action (Director W) Bool
caught none = returns true
caught (some iterator_eof) = returns false
caught (some datagram_overflow) = throws datagram_overflow
caught (some constraint_violation) = throws constraint_violation
caught (some fault) = throws fault
caught (some stuck) = throws stuck

module _ {W : Type 0} (in_ranges : ℕ → ℕ → Bool) (range_subscribers : ℕ → List ℕ)
    (handle : ℕ → Datagram → DatagramIterator → W → Reaction W) where
  module _ (flush : Action (Director W) (Unit {0})) where
    unfoldable pub handled : ℕ → Datagram → DatagramIterator → Action (Director W) Bool
    unfolding calls
    handled q dg dgi d =
        let reaction = handle q dg dgi d.world in
        (do
          modify (log (delivered q dg))
          modify (set_world reaction.world)
          calls in_ranges flush q reaction.calls
          caught reaction.thrown)
          d

    -- Each receiver in turn, up to the first that throws DatagramIteratorEOF: whether there was none.
    unfoldable pub deliver : Datagram → ℕ → List ℕ → Action (Director W) Bool
    unfolding handled
    deliver dg at [] = returns true
    deliver dg at (q ∷ qs) = do
      _ ← lift (iterate dg at).0
      returned ← handled q dg (iterate dg at).1
      if returned then deliver dg at qs else returns false

    abbrev pub send_upstream : Option ℕ → Datagram → Action (Director W) (Unit {0})
    send_upstream none dg = returns tt
    send_upstream (some p) dg = to_upstream dg

    -- What follows the header: nothing if it is truncated, which is caught as above.
    abbrev pub dispatch :
        Message → Result (List ℕ) × DatagramIterator → Action (Director W) (Unit {0})
    dispatch (p, dg) (err e, dgi) = caught (some e) >> returns tt
    dispatch (p, dg) (ok channels, dgi) = λ d.
        (do
          completed ←
              deliver dg (tell dgi)
                (without p (lookup_channels range_subscribers d.channel_map channels []))
          if completed then (send_upstream p dg >> modify process_terminates) else returns tt)
          d

    unfoldable pub process_datagram : Message → Action (Director W) (Unit {0})
    unfolding receivers deliver without with_upstream process_terminates
    process_datagram (p, dg) = dispatch (p, dg) (receivers dg)

  -- The guard of flush_queue around its loop.
  unfoldable pub guarded : Action (Director W) (Unit {0}) → Action (Director W) (Unit {0})
  guarded loop d =
      (if d.main_is_routing
          then returns tt
          else modify (set_routing true) >> loop >> modify (set_routing false))
        d

  abbrev pub pop : Message → List Message → Director W → Director W
  pop msg rest d = log (popped msg) (record d { messages = rest })

  -- flush_queue as the handlers call it. While the loop runs m_main_is_routing is true, and the call returns at
  -- its guard; what lies behind the guard is not reached, and is `stuck` here.
  unfoldable pub nested_flush : Action (Director W) (Unit {0})
  unfolding guarded
  nested_flush = guarded (throws stuck)

  -- The front of the queue, if there is one, is taken off and goes to `next`.
  abbrev pub turn :
      List Message → (Message → Action (Director W) (Unit {0})) → Action (Director W) (Unit {0})
  turn [] next = returns tt
  turn (msg ∷ rest) next = modify (pop msg rest) >> next msg

  -- The loop of flush_queue, on fuel.
  unfoldable pub flush_loop : ℕ → Action (Director W) (Unit {0})
  unfolding process_datagram nested_flush
  flush_loop zero d = turn d.messages (λ msg. throws stuck) d
  flush_loop (suc fuel) d =
      turn d.messages (λ msg. process_datagram nested_flush msg >> flush_loop fuel) d

  unfoldable pub flush_queue : ℕ → Action (Director W) (Unit {0})
  unfolding guarded flush_loop
  flush_queue fuel = guarded (flush_loop fuel)

  unfoldable pub route_datagram : ℕ → Option ℕ → Datagram → Action (Director W) (Unit {0})
  unfolding route flush_queue
  route_datagram fuel = route (flush_queue fuel)
