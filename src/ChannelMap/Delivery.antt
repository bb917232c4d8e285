-- ===== src/ChannelMap/Delivery.antt =====
-- src/messagedirector/ChannelMap.cpp: a message reaches just the subscribers of its channels.
use astron.Base.{
  ℕ, ◌+◌, ◌-◌, ◌≡◌, refl, sym, ap, ◌∙◌, List, [], ◌∷◌, ◌++◌, Bool, false, ◌&&◌, ◌||◌, ◌==◌, ◌!=◌,
  if◌then◌else◌, arith, Bool-cases, inl, inr, ==→eq,
}
use astron.ChannelMap.{
  ChannelMap, is_subscribed, subscribe_channel, unsubscribe_channel, remove_entry, subscribers,
  insert_all, lookup_channels,
}
use astron.StateServer.Object.{contains, insert, erase}
use astron.StateServer.Object.Maps.{contains-insert}

-- How often a subscriber stands under a channel, and a channel in a list.
unfoldable pub tally : ℕ → ℕ → List (ℕ × ℕ) → ℕ
tally p c [] = 0
tally p c ((channel, q) ∷ subs) =
    let rest = tally p c subs in if channel == c && q == p then rest + 1 else rest

unfoldable pub occurs : ℕ → List ℕ → ℕ
occurs c [] = 0
occurs c (d ∷ ds) = let rest = occurs c ds in if d == c then rest + 1 else rest

-- The multimap and the sets of the subscribers agree.
pub record Agrees (m : ChannelMap) : Type 0 where
  pub same : (p c : ℕ) → tally p c m.channel_subscriptions ≡ occurs c (m.channels p)

tally-append :
    (p c q d : ℕ) (subs : List (ℕ × ℕ))
    → tally p c (subs ++ (d, q) ∷ []) ≡ tally p c subs + (if d == c && q == p then 1 else 0)
unfolding tally
tally-append p c q d [] = ground arith
tally-append p c q d ((e, r) ∷ subs) = ground (arith, tally-append p c q d subs)

pub occurs-append :
    (c d : ℕ) (ds : List ℕ) → occurs c (ds ++ d ∷ []) ≡ occurs c ds + (if d == c then 1 else 0)
unfolding occurs
occurs-append c d [] = ground arith
occurs-append c d (e ∷ ds) = ground (arith, occurs-append c d ds)

tally-remove_entry :
    (p c q d : ℕ) (subs : List (ℕ × ℕ))
    → tally p c (remove_entry q d subs) ≡ tally p c subs - (if d == c && q == p then 1 else 0)
unfolding tally remove_entry
tally-remove_entry p c q d [] = ground arith
tally-remove_entry p c q d ((e, r) ∷ subs) = ground (arith, tally-remove_entry p c q d subs)

pub occurs-erase :
    (c d : ℕ) (ds : List ℕ) → occurs c (erase d ds) ≡ occurs c ds - (if d == c then 1 else 0)
unfolding occurs erase
occurs-erase c d [] = ground arith
occurs-erase c d (e ∷ ds) = ground (arith, occurs-erase c d ds)

own_append :
    (p c q d : ℕ) (channels : ℕ → List ℕ)
    → occurs c (if p == q then channels q ++ d ∷ [] else channels p)
      ≡ occurs c (channels p) + (if d == c && q == p then 1 else 0)
own_append p c q d channels = elim (Bool-cases (p == q)) [
  | inr other ↦ rw other (ground arith)
  | inl same ↦
      let e : occurs c (channels p) ≡ occurs c (channels q) =
        ap (λ (x : ℕ). occurs c (channels x)) (==→eq p q same) in
      rw same (ground (arith, e, occurs-append c d (channels q)))
]

own_erase :
    (p c q d : ℕ) (channels : ℕ → List ℕ)
    → occurs c (if p == q then erase d (channels q) else channels p)
      ≡ occurs c (channels p) - (if d == c && q == p then 1 else 0)
own_erase p c q d channels = elim (Bool-cases (p == q)) [
  | inr other ↦ rw other (ground arith)
  | inl same ↦
      let e : occurs c (channels p) ≡ occurs c (channels q) =
        ap (λ (x : ℕ). occurs c (channels x)) (==→eq p q same) in
      rw same (ground (arith, e, occurs-erase c d (channels q)))
]

module _ (in_ranges : ℕ → ℕ → Bool) (m : ChannelMap) (q d : ℕ) (h : Agrees m) where
  -- If the multimap and the subscribers' own sets agree, they do after another subscription too.
  pub subscribe_channel-Agrees : Agrees (subscribe_channel in_ranges m q d)
  unfolding subscribe_channel
  subscribe_channel-Agrees = record {
    same = λ p c. elim (Bool-cases (is_subscribed in_ranges m q d)) [
      | inl done ↦ rw done (h.same p c)
      | inr new ↦ rw new (
          tally-append p c q d m.channel_subscriptions
          ∙ ap (λ (n : ℕ). n + (if d == c && q == p then 1 else 0)) (h.same p c)
          ∙ sym (own_append p c q d m.channels))
    ];
  }

  -- If the multimap and the subscribers' own sets agree, they do after the end of a subscription too.
  pub unsubscribe_channel-Agrees : Agrees (unsubscribe_channel in_ranges m q d)
  unfolding unsubscribe_channel
  unsubscribe_channel-Agrees = record {
    same = λ p c. elim (Bool-cases (is_subscribed in_ranges m q d)) [
      | inr none ↦ rw none (h.same p c)
      | inl there ↦ rw there (
          tally-remove_entry p c q d m.channel_subscriptions
          ∙ ap (λ (n : ℕ). n - (if d == c && q == p then 1 else 0)) (h.same p c)
          ∙ sym (own_erase p c q d m.channels))
    ];
  }

pub contains-occurs : (c : ℕ) (ds : List ℕ) → contains c ds ≡ (occurs c ds != 0)
unfolding contains occurs
contains-occurs c [] = ground arith
contains-occurs c (d ∷ ds) = ground (arith, contains-occurs c ds)

subscribers-tally :
    (p c : ℕ) (subs : List (ℕ × ℕ)) → contains p (subscribers c subs) ≡ (tally p c subs != 0)
unfolding contains subscribers tally
subscribers-tally p c [] = ground arith
subscribers-tally p c ((e, r) ∷ subs) = ground (arith, subscribers-tally p c subs)

contains-insert_all :
    (p : ℕ) (qs ps : List ℕ) → contains p (insert_all qs ps) ≡ (contains p qs || contains p ps)
unfolding contains insert_all
contains-insert_all p [] ps = refl
contains-insert_all p (q ∷ qs) ps =
    contains-insert_all p qs (insert q ps) ∙ rw (contains-insert q p ps) (ground arith)

-- Whether a subscriber is subscribed to one of the channels.
unfoldable pub any_subscribed : (ℕ → ℕ → Bool) → ChannelMap → ℕ → List ℕ → Bool
any_subscribed in_ranges m p [] = false
any_subscribed in_ranges m p (c ∷ cl) =
    is_subscribed in_ranges m p c || any_subscribed in_ranges m p cl

module _ (in_ranges : ℕ → ℕ → Bool) (range_subscribers : ℕ → List ℕ)
    (ranges_agree : (p c : ℕ) → contains p (range_subscribers c) ≡ in_ranges p c) (m : ChannelMap)
    (h : Agrees m) where
  found : (p c : ℕ) → contains p (subscribers c m.channel_subscriptions) ≡ contains c (m.channels p)
  found p c =
      subscribers-tally p c m.channel_subscriptions
      ∙ ap (λ (n : ℕ). n != 0) (h.same p c)
      ∙ sym (contains-occurs c (m.channels p))

  looked_up :
      (p : ℕ) (cl ps : List ℕ)
      → contains p (lookup_channels range_subscribers m cl ps)
        ≡ (any_subscribed in_ranges m p cl || contains p ps)
  unfolding lookup_channels any_subscribed is_subscribed
  looked_up p [] ps = refl
  looked_up p (c ∷ cl) ps =
      looked_up p cl _
      ∙ rw
          (
            contains-insert_all p (range_subscribers c)
                (insert_all (subscribers c m.channel_subscriptions) ps),
            contains-insert_all p (subscribers c m.channel_subscriptions) ps,
            found p c,
            ranges_agree p c,
          )
          (ground arith)

  -- If the multimap and the subscribers' own sets agree, and the two interval containers do, then a lookup of
  -- channels finds just the subscribers that are subscribed to one of them, by itself or by a range.
  pub lookup_channels-contains :
      (p : ℕ) (cl : List ℕ)
      → contains p (lookup_channels range_subscribers m cl []) ≡ any_subscribed in_ranges m p cl
  unfolding contains
  lookup_channels-contains p cl = looked_up p cl [] ∙ ground arith
