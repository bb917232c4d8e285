-- ===== src/ChannelMap/Tests.antt =====
-- src/messagedirector/ChannelMap.cpp: two subscribers and their channels.
use astron.Base.{ℕ, ◌≡◌, List, [], ◌∷◌, Bool, false, ◌==◌, if◌then◌else◌, arith}
use astron.ChannelMap.{
  ChannelMap, added, subscribe_channel, unsubscribe_channel, lookup_channels, has_subs,
}
use astron.ChannelMap.Upstream.{IsTold, told, subscribe_channel-IsTold, unsubscribe_channel-IsTold}
use astron.ChannelMap.Delivery.{
  Agrees, tally, occurs, subscribe_channel-Agrees, unsubscribe_channel-Agrees,
  lookup_channels-contains, any_subscribed,
}
use astron.StateServer.Object.{contains}

-- The subscriber 1 is subscribed to the channel 100 by itself.
abbrev one : ChannelMap
one = record {
  channel_subscriptions = (100, 1) ∷ [];
  channels = λ p. if p == 1 then 100 ∷ [] else [];
  notices = added 100 ∷ [];
}

-- The subscriber 2 is subscribed to the channel 500 by a range.
abbrev in_ranges : ℕ → ℕ → Bool
in_ranges p c = if p == 2 then c == 500 else false

abbrev range_subscribers : ℕ → List ℕ
range_subscribers c = if c == 500 then 2 ∷ [] else []

ranges_agree : (p c : ℕ) → contains p (range_subscribers c) ≡ in_ranges p c
unfolding contains
ranges_agree p c = ground arith

one-IsTold : IsTold one
unfolding told has_subs
one-IsTold c = ground arith

one-Agrees : Agrees one
unfolding tally occurs
one-Agrees = record { same = λ p c. ground arith }

subscribe_channel-IsTold_example : IsTold (subscribe_channel in_ranges one 2 100)
subscribe_channel-IsTold_example = subscribe_channel-IsTold in_ranges one 2 100 one-IsTold

unsubscribe_channel-IsTold_example : IsTold (unsubscribe_channel in_ranges one 1 100)
unsubscribe_channel-IsTold_example = unsubscribe_channel-IsTold in_ranges one 1 100 one-IsTold

subscribe_channel-Agrees_example : Agrees (subscribe_channel in_ranges one 2 100)
subscribe_channel-Agrees_example = subscribe_channel-Agrees in_ranges one 2 100 one-Agrees

unsubscribe_channel-Agrees_example : Agrees (unsubscribe_channel in_ranges one 1 100)
unsubscribe_channel-Agrees_example = unsubscribe_channel-Agrees in_ranges one 1 100 one-Agrees

lookup_channels-contains_example :
    contains 1 (lookup_channels range_subscribers one (100 ∷ 500 ∷ []) [])
    ≡ any_subscribed in_ranges one 1 (100 ∷ 500 ∷ [])
lookup_channels-contains_example =
    lookup_channels-contains in_ranges range_subscribers ranges_agree one one-Agrees 1
      (100 ∷ 500 ∷ [])
