-- ===== src/ChannelMap.antt =====
-- src/messagedirector/ChannelMap.cpp: the subscriptions to single channels.
pub mod Upstream
pub mod Delivery
mod Tests
use astron.Base.{
  ℕ, ◌+◌, ◌-◌, List, [], ◌∷◌, ◌++◌, Bool, true, false, not, ◌&&◌, ◌||◌, ◌==◌, ◌!=◌, if◌then◌else◌,
}
use astron.StateServer.Object.{contains, insert, erase}

-- The virtual calls on_add_channel and on_remove_channel, which the message director passes on to its
-- upstream.
pub data Notice : Type 0 where
  added removed : ℕ → Notice

-- m_channel_subscriptions, a multimap from channels to subscribers, in the order of insertion; the set
-- p->channels() of each subscriber; and the notices so far, the oldest first.
pub record ChannelMap : Type 0 where
  pub channel_subscriptions : List (ℕ × ℕ)
  pub channels : ℕ → List ℕ
  pub notices : List Notice

unfoldable pub count : ℕ → List (ℕ × ℕ) → ℕ
count c [] = 0
count c ((channel, p) ∷ subs) = let rest = count c subs in if channel == c then rest + 1 else rest

-- m_channel_subscriptions.find(c) != m_channel_subscriptions.end().
unfoldable pub has_subs : ℕ → List (ℕ × ℕ) → Bool
has_subs c [] = false
has_subs c ((channel, p) ∷ subs) = channel == c || has_subs c subs

-- The loop of remove_subscriber: whether it found the subscriber, and the multimap less that entry.
unfoldable pub holds : ℕ → ℕ → List (ℕ × ℕ) → Bool
holds p c [] = false
holds p c ((channel, q) ∷ subs) = (channel == c && q == p) || holds p c subs

unfoldable pub remove_entry : ℕ → ℕ → List (ℕ × ℕ) → List (ℕ × ℕ)
remove_entry p c [] = []
remove_entry p c ((channel, q) ∷ subs) =
    let rest = remove_entry p c subs in if channel == c && q == p then subs else (channel, q) ∷ rest

-- The result of remove_subscriber.
unfoldable pub is_last : ℕ → ℕ → List (ℕ × ℕ) → Bool
unfolding count holds
is_last p c subs =
    if count c subs == 0
    then false
    else (if holds p c subs then count c subs - 1 else count c subs) == 0

abbrev replaced : ℕ → List ℕ → (ℕ → List ℕ) → ℕ → List ℕ
replaced p own channels q = if q == p then own else channels q

-- `in_ranges p c` is p->ranges().find(c) != p->ranges().end(), in an interval_set of boost::icl that
-- these operations do not change.
module _ (in_ranges : ℕ → ℕ → Bool) where
  unfoldable pub is_subscribed : ChannelMap → ℕ → ℕ → Bool
  unfolding contains
  is_subscribed m p c = contains c (m.channels p) || in_ranges p c

  unfoldable pub subscribe_channel : ChannelMap → ℕ → ℕ → ChannelMap
  unfolding is_subscribed has_subs
  subscribe_channel m p c = if is_subscribed m p c then m else record {
    channel_subscriptions = m.channel_subscriptions ++ (c, p) ∷ [];
    channels = replaced p (m.channels p ++ c ∷ []) m.channels;
    notices = if has_subs c m.channel_subscriptions then m.notices else m.notices ++ added c ∷ [];
  }

  unfoldable pub unsubscribe_channel : ChannelMap → ℕ → ℕ → ChannelMap
  unfolding is_subscribed erase remove_entry is_last
  unsubscribe_channel m p c =
      if is_subscribed m p c
      then record {
        channel_subscriptions = remove_entry p c m.channel_subscriptions;
        channels = replaced p (erase c (m.channels p)) m.channels;
        notices =
            if is_last p c m.channel_subscriptions then m.notices ++ removed c ∷ [] else m.notices;
      }
      else m

-- The subscribers in m_channel_subscriptions.equal_range(c), and ps.insert of each.
unfoldable pub subscribers : ℕ → List (ℕ × ℕ) → List ℕ
subscribers c [] = []
subscribers c ((channel, p) ∷ subs) =
    let rest : List ℕ = subscribers c subs in if channel == c then p ∷ rest else rest

unfoldable pub insert_all : List ℕ → List ℕ → List ℕ
unfolding insert
insert_all [] ps = ps
insert_all (p ∷ more) ps = insert_all more (insert p ps)

-- `range_subscribers c` is the set that boost::icl::find(m_range_subscriptions, c) refers to, or the empty
-- set if it finds none.
unfoldable pub lookup_channels : (ℕ → List ℕ) → ChannelMap → List ℕ → List ℕ → List ℕ
unfolding subscribers insert_all
lookup_channels range_subscribers m [] ps = ps
lookup_channels range_subscribers m (c ∷ cl) ps =
    lookup_channels range_subscribers m cl
      (insert_all (range_subscribers c) (insert_all (subscribers c m.channel_subscriptions) ps))
