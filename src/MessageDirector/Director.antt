-- ===== src/MessageDirector/Director.antt =====
-- src/messagedirector/MessageDirector.cpp and .h: the queue of messages, their delivery and the calls that
-- participants make, in the main thread. A participant is a number; `handle` is its handle_datagram.
use astron.Base.{
  ℕ, zero, suc, List, [], ◌∷◌, ◌++◌, Bool, true, ◌==◌, if◌then◌else◌, Option, none, some,
}
use astron.Base.Result.{Result, Exception, ok}
use astron.Base.Action.{Action, proceed, returns, modify, lift, ◌>>◌}
use astron.Datagram.{Datagram}
use astron.Iterator as I
use astron.Iterator.{DatagramIterator, Reader, iterate, read_uint8, read_channel, tell}
use astron.ChannelMap.{ChannelMap, Notice, added, removed, lookup_channels}
use astron.ChannelMap as Map
use astron.StateServer.Object.{insert, erase}
use astron.MessageDirector.Upstream.{
  Upstream, send_datagram, send_message, post_remove_message, channel_message,
  control_clear_post_removes,
}
use astron.MessageDirector.Upstream as Link

-- A message of the queue, with the participant that sent it, or none if it came from the upstream.
abbrev pub Message : Type 0
Message = Option ℕ × Datagram

-- What the director did, for the statements about it: a message came into the queue, was taken from it, or
-- was handed to a participant.
pub data Event : Type 0 where
  routed popped : Message → Event
  delivered : ℕ → Datagram → Event

-- The calls of MDParticipantInterface on the director. None of them has a result.
pub data Call : Type 0 where
  route_datagram : Datagram → Call
  subscribe_channel unsubscribe_channel : ℕ → Call
  add_post_remove : ℕ → Datagram → Call
  clear_post_removes : ℕ → Call
  terminate : Call

-- What a handle_datagram does: its calls, then the exception that ends it if there is one, and the
-- participants' own states.
pub record Reaction (W : Type 0) : Type 0 where
  pub calls : List Call
  pub thrown : Option Exception
  pub world : W

pub record Director (W : Type 0) : Type 0 where
  pub channel_map : ChannelMap
  pub upstream : Option Upstream
  pub participants : List ℕ
  pub terminated_participants : List ℕ
  pub main_is_routing : Bool
  pub messages : List Message
  pub post_removes : ℕ → List (ℕ × List Datagram)
  pub is_terminated : ℕ → Bool
  pub events : List Event
  pub world : W

-- The receivers of a message, up to the byte that process_datagram's loop counts to.
unfoldable pub read_channels : ℕ → Reader (List ℕ)
read_channels zero = I.returns []
read_channels (suc n) =
    I.◌>>=◌ read_channel
      λ channel. I.◌>>=◌ (read_channels n) λ channels. I.returns (channel ∷ channels)

unfoldable pub read_receivers : Reader (List ℕ)
unfolding read_channels
read_receivers = I.◌>>=◌ read_uint8 read_channels

-- m_post_removes[sender].push_back(dg), and erase.
unfoldable pub push_post_remove : ℕ → Datagram → List (ℕ × List Datagram) → List (ℕ × List Datagram)
push_post_remove sender dg [] = (sender, dg ∷ []) ∷ []
push_post_remove sender dg ((s, dgs) ∷ more) =
    let rest = push_post_remove sender dg more in
    if s == sender then (s, dgs ++ dg ∷ []) ∷ more else (s, dgs) ∷ rest

unfoldable pub erase_post_removes : ℕ → List (ℕ × List Datagram) → List (ℕ × List Datagram)
erase_post_removes sender [] = []
erase_post_removes sender ((s, dgs) ∷ more) =
    let rest = erase_post_removes sender more in if s == sender then more else (s, dgs) ∷ rest

abbrev pub set_at {ℓ} : {A : Type ℓ} → ℕ → A → (ℕ → A) → ℕ → A
set_at p a f q = if q == p then a else f q

module _ {W : Type 0} where
  abbrev pub log : Event → Director W → Director W
  log e d = record d { events = d.events ++ e ∷ [] }

  abbrev pub set_world : W → Director W → Director W
  set_world w d = record d { world = w }

  abbrev pub set_routing : Bool → Director W → Director W
  set_routing b d = record d { main_is_routing = b }

  abbrev pub on_link :
      Option Upstream → (Upstream → Result Upstream) → Action (Director W) (Unit {0})
  on_link none f = returns tt
  on_link (some u) f =
      λ d. proceed (lift (f u) d) λ u' d'. (ok tt, record d' { upstream = some u' })

  -- A call on m_upstream, if there is one.
  unfoldable pub with_upstream : (Upstream → Result Upstream) → Action (Director W) (Unit {0})
  with_upstream f d = on_link d.upstream f d

  abbrev pub to_upstream : Datagram → Action (Director W) (Unit {0})
  to_upstream dg = with_upstream λ u. ok (send_datagram dg u)

  -- on_add_channel and on_remove_channel.
  unfoldable pub on_notices : List Notice → Action (Director W) (Unit {0})
  unfolding with_upstream
  on_notices [] = returns tt
  on_notices (added c ∷ more) = with_upstream (Link.subscribe_channel c) >> on_notices more
  on_notices (removed c ∷ more) = with_upstream (Link.unsubscribe_channel c) >> on_notices more

  -- An operation of the channel map, which calls the director's virtual functions.
  unfoldable pub on_map : (ChannelMap → ChannelMap) → Action (Director W) (Unit {0})
  unfolding on_notices
  on_map f d =
      let m = f (record d.channel_map { notices = [] }) in
      on_notices m.notices (record d { channel_map = m })

  unfoldable pub preroute_post_remove : ℕ → Datagram → Action (Director W) (Unit {0})
  unfolding with_upstream
  preroute_post_remove sender dg = with_upstream (send_message (post_remove_message sender dg))

  unfoldable pub recall_post_removes : ℕ → Action (Director W) (Unit {0})
  unfolding with_upstream
  recall_post_removes sender =
      with_upstream (send_message (channel_message control_clear_post_removes sender))

  unfoldable pub process_terminates : Director W → Director W
  process_terminates d = record d { terminated_participants = [] }

  -- route_datagram, with `flush` for flush_queue; m_thread is null.
  unfoldable pub route :
      Action (Director W) (Unit {0}) → Option ℕ → Datagram → Action (Director W) (Unit {0})
  route flush p dg d =
      flush (log (routed (p, dg)) (record d { messages = d.messages ++ (p, dg) ∷ [] }))

  abbrev pub forget_participant : ℕ → Director W → Director W
  forget_participant p d = record d { participants = erase p d.participants }

  -- m_is_terminated.
  abbrev pub set_terminated : ℕ → Director W → Director W
  set_terminated p d = record d { is_terminated = set_at p true d.is_terminated }

  abbrev pub mark_terminated : ℕ → Director W → Director W
  mark_terminated p d = record d { terminated_participants = insert p d.terminated_participants }

  module _ (in_ranges : ℕ → ℕ → Bool) (flush : Action (Director W) (Unit {0})) where
    unfoldable pub subscribe : ℕ → ℕ → Action (Director W) (Unit {0})
    unfolding on_map
    subscribe p c = on_map (λ m. Map.subscribe_channel in_ranges m p c)

    unfoldable pub unsubscribe : ℕ → ℕ → Action (Director W) (Unit {0})
    unfolding on_map
    unsubscribe p c = on_map (λ m. Map.unsubscribe_channel in_ranges m p c)

    unfoldable pub unsubscribe_each : ℕ → List ℕ → Action (Director W) (Unit {0})
    unfolding unsubscribe
    unsubscribe_each p [] = returns tt
    unsubscribe_each p (c ∷ cs) = unsubscribe p c >> unsubscribe_each p cs

    -- Of a participant that has no range.
    unfoldable pub unsubscribe_all : ℕ → Action (Director W) (Unit {0})
    unfolding unsubscribe_each
    unsubscribe_all p d = unsubscribe_each p (d.channel_map.channels p) d

    unfoldable pub route_all : ℕ → List Datagram → Action (Director W) (Unit {0})
    unfolding route
    route_all p [] = returns tt
    route_all p (dg ∷ dgs) = route flush (some p) dg >> route_all p dgs

    unfoldable pub send_post_removes : ℕ → List (ℕ × List Datagram) → Action (Director W) (Unit {0})
    unfolding route_all recall_post_removes
    send_post_removes p [] = returns tt
    send_post_removes p ((sender, dgs) ∷ more) =
        route_all p dgs >> recall_post_removes sender >> send_post_removes p more

    unfoldable pub post_remove : ℕ → Action (Director W) (Unit {0})
    unfolding send_post_removes
    post_remove p d = send_post_removes p (d.post_removes p) d

    unfoldable pub remove_participant : ℕ → Action (Director W) (Unit {0})
    unfolding unsubscribe_all erase post_remove insert
    remove_participant p = do
      unsubscribe_all p
      modify (forget_participant p)
      post_remove p
      modify (mark_terminated p)

    unfoldable pub call : ℕ → Call → Action (Director W) (Unit {0})
    unfolding route subscribe unsubscribe push_post_remove preroute_post_remove erase_post_removes
        recall_post_removes remove_participant
    call p (route_datagram dg) = route flush (some p) dg
    call p (subscribe_channel c) = subscribe p c
    call p (unsubscribe_channel c) = unsubscribe p c
    call p (add_post_remove sender dg) = do
      modify (λ d. record d {
        post_removes = set_at p (push_post_remove sender dg (d.post_removes p)) d.post_removes;
      })
      preroute_post_remove sender dg
    call p (clear_post_removes sender) = do
      modify (λ d. record d {
        post_removes = set_at p (erase_post_removes sender (d.post_removes p)) d.post_removes;
      })
      recall_post_removes sender
    call p terminate = λ d.
        (if d.is_terminated p
            then returns tt
            else modify (set_terminated p) >> remove_participant p)
          d

    unfoldable pub calls : ℕ → List Call → Action (Director W) (Unit {0})
    unfolding call
    calls p [] = returns tt
    calls p (c ∷ cs) = call p c >> calls p cs
