-- ===== src/MessageDirector/Tests.antt =====
-- src/messagedirector: a director with two participants.
use astron.Base.{
  arith, All, not, ◌&&◌, ℕ, zero, suc, ◌+◌, ◌≡◌, refl, List, [], ◌∷◌, Bool, true, false, ◌==◌,
  if◌then◌else◌, Option, none, some,
}
use astron.Base.Result.{Result, ok, ◌>>=◌}
use astron.Datagram.{Datagram, of_data, memory_read}
use astron.Iterator.{DatagramIterator}
use astron.Iterator as I
use astron.Bytes.{le_value}
use astron.ChannelMap.{lookup_channels}
use astron.MessageDirector.Director.{
  Director, Reaction, Event, Call, Message, routed, popped, delivered,
}
use astron.MessageDirector.Director.{read_channels, read_receivers}
use astron.MessageDirector.Director as D
use astron.ChannelMap.Delivery.{Agrees, tally, occurs, any_subscribed}
use astron.StateServer.Object.{contains}
use astron.MessageDirector.Routing.{
  flush_queue, route_datagram, receivers, process_datagram, nested_flush,
}
use astron.MessageDirector.Order.{IsFifo, routed_of, popped_of, route_datagram-IsFifo}
use astron.MessageDirector.Flush.{Lowers, IsHopLimited, Flushed, flush_queue-ends}
use astron.MessageDirector.Deliveries.{Delivers, deliveries, is_sender, process_datagram-Delivers}
use astron.MessageDirector.NetworkParticipant.{receive_datagram, subscribe_range}
use astron.MessageDirector.Control.{add_range, message_of, request_of, receive_datagram-message_of}
use astron.MessageDirector.InOrder.{sends, connects, run, fresh, handed, Leaves, run-Leaves}

-- A message for the channels 5 and 6, with a hop count; and one that is cut off in its header.
abbrev note : ℕ → Datagram
note hops = of_data (2 ∷ 5 ∷ 0 ∷ 0 ∷ 0 ∷ 0 ∷ 0 ∷ 0 ∷ 0 ∷ 6 ∷ 0 ∷ 0 ∷ 0 ∷ 0 ∷ 0 ∷ 0 ∷ 0 ∷ hops ∷ [])

abbrev hops_of : List ℕ → ℕ
hops_of [] = 0
hops_of (x ∷ []) = x
hops_of (x ∷ y ∷ xs) = hops_of (y ∷ xs)

-- A participant answers a message with one hop less.
abbrev answer : ℕ → List Call
answer zero = []
answer (suc n) = D.route_datagram (note n) ∷ []

abbrev echo : ℕ → Datagram → DatagramIterator → ℕ → Reaction ℕ
echo q dg dgi n = record { calls = answer (hops_of dg.buf); thrown = none; world = n + 1 }

abbrev no_ranges : ℕ → ℕ → Bool
no_ranges p c = false

abbrev no_subscribers : ℕ → List ℕ
no_subscribers c = []

-- The participants 1 and 2 are subscribed to the channel 5, and 2 to 6 too.
abbrev start : Director ℕ
start = record {
  channel_map = record {
    channel_subscriptions = (5, 1) ∷ (5, 2) ∷ (6, 2) ∷ [];
    channels = λ p. if p == 1 then 5 ∷ [] else if p == 2 then 5 ∷ 6 ∷ [] else [];
    notices = [];
  };
  upstream = none;
  participants = 1 ∷ 2 ∷ [];
  terminated_participants = [];
  main_is_routing = false;
  messages = [];
  post_removes = λ p. [];
  is_terminated = λ p. false;
  events = [];
  world = 0;
}

after_route : ℕ → Option ℕ → Datagram → Result (Unit {0}) × Director ℕ
unfolding route_datagram
after_route fuel p dg = route_datagram no_ranges no_subscribers echo fuel p dg start

two_hops :
    (after_route 9 none (note 1)).1.events
    ≡ routed (none, note 1)
      ∷ popped (none, note 1)
      ∷ delivered 1 (note 1)
      ∷ routed (some 1, note 0)
      ∷ delivered 2 (note 1)
      ∷ routed (some 2, note 0)
      ∷ popped (some 1, note 0)
      ∷ delivered 2 (note 0)
      ∷ popped (some 2, note 0)
      ∷ delivered 1 (note 0)
      ∷ []
unfolding after_route D.route route_datagram flush_queue I.iterate I.check_read_length of_data
    I.read_uint8 I.read_data I.load memory_read I.advance le_value I.read_channel lookup_channels
    I.tell
two_hops = refl

-- A message has the rank that its hops say, and an answer has one less.
abbrev rank : Datagram → ℕ
rank dg = hops_of dg.buf

answer-Lowers : (n : ℕ) → All (Lowers rank n) (answer n)
unfolding of_data
answer-Lowers zero = tt
answer-Lowers (suc n) = (omega arith, tt)

echo-IsHopLimited : IsHopLimited rank echo
echo-IsHopLimited = record {
  lowers = λ q dg dgi w. answer-Lowers (hops_of dg.buf);
  returns = λ q dg dgi w. tt;
}

start-IsFifo : IsFifo start
unfolding IsFifo routed_of popped_of
start-IsFifo = refl

route_datagram-IsFifo_example :
    IsFifo (route_datagram no_ranges no_subscribers echo 9 (some 1) (note 3) start).1
route_datagram-IsFifo_example =
    route_datagram-IsFifo no_ranges no_subscribers echo 9 (some 1) (note 3) start start-IsFifo

-- The message is in the queue when the flush starts.
abbrev loaded : Director ℕ
loaded = record start { messages = (some 1, note 3) ∷ []; events = routed (some 1, note 3) ∷ [] }

loaded-IsFifo : IsFifo loaded
unfolding IsFifo routed_of popped_of
loaded-IsFifo = refl

flush_queue-ends_example :
    (fuel : ℕ) × Flushed (flush_queue no_ranges no_subscribers echo fuel loaded)
flush_queue-ends_example =
    flush_queue-ends no_ranges no_subscribers echo rank echo-IsHopLimited loaded refl loaded-IsFifo

no_ranges_agree : (p c : ℕ) → contains p (no_subscribers c) ≡ no_ranges p c
unfolding contains
no_ranges_agree p c = refl

start-Agrees : Agrees start.channel_map
unfolding tally occurs
start-Agrees = record { same = λ p c. ground arith }

note_header : receivers (note 1) ≡ (ok (5 ∷ 6 ∷ []), record { dg = note 1; offset = 17 })
unfolding receivers of_data I.iterate I.check_read_length I.read_uint8 I.read_data I.load
    memory_read I.advance le_value I.read_channel read_receivers read_channels
note_header = refl

process_datagram-Delivers_example :
    Delivers 2
      (deliveries 2 start.events
        + (if any_subscribed no_ranges start.channel_map 2 (5 ∷ 6 ∷ [])
              && not (is_sender 2 (some 1))
            then 1
            else 0))
      (process_datagram no_ranges no_subscribers echo
        (nested_flush no_ranges no_subscribers echo)
        (some 1, note 1)
        (D.set_routing true start))
process_datagram-Delivers_example =
    process_datagram-Delivers no_ranges no_subscribers echo (note 1) (λ q dgi w. refl) 2
      no_ranges_agree (some 1) (5 ∷ 6 ∷ []) (record { dg = note 1; offset = 17 }) note_header
      (D.set_routing true start) start-Agrees refl

receive_datagram-message_of_example :
    (message_of (add_range 1000 2000) >>= receive_datagram) ≡ ok (subscribe_range 1000 2000)
unfolding request_of
receive_datagram-message_of_example =
    receive_datagram-message_of (add_range 1000 2000) (omega arith)

run-Leaves_example :
    Leaves (note 1 ∷ note 2 ∷ []) (run (sends (note 1) ∷ connects ∷ sends (note 2) ∷ []) fresh)
unfolding handed
run-Leaves_example = run-Leaves (sends (note 1) ∷ connects ∷ sends (note 2) ∷ [])
