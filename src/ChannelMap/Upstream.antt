-- ===== src/ChannelMap/Upstream.antt =====
-- src/messagedirector/ChannelMap.cpp: the upstream is told of just the channels that have a subscriber.
use astron.Base.{
  ℕ, ◌-◌, ◌<◌, ◌≡◌, refl, sym, ap, ◌∙◌, List, [], ◌∷◌, ◌++◌, Bool, true, false, not, ◌&&◌, ◌||◌,
  ◌==◌, ◌!=◌, if◌then◌else◌, arith, Bool-cases, inl, inr, ==→eq,
}
use astron.ChannelMap.{
  ChannelMap, Notice, added, removed, count, has_subs, holds, remove_entry, is_last, is_subscribed,
  subscribe_channel, unsubscribe_channel,
}

-- Whether an upstream that was told so is subscribed to a channel.
unfoldable pub told : ℕ → Bool → List Notice → Bool
told c b [] = b
told c b (added d ∷ ns) = told c (d == c || b) ns
told c b (removed d ∷ ns) = told c (not (d == c) && b) ns

told-append :
    (c : ℕ) (b : Bool) (ns ms : List Notice) → told c b (ns ++ ms) ≡ told c (told c b ns) ms
unfolding told
told-append c b [] ms = refl
told-append c b (added d ∷ ns) ms = told-append c (d == c || b) ns ms
told-append c b (removed d ∷ ns) ms = told-append c (not (d == c) && b) ns ms

has_subs-append :
    (c d p : ℕ) (subs : List (ℕ × ℕ))
    → has_subs c (subs ++ (d, p) ∷ []) ≡ (d == c || has_subs c subs)
unfolding has_subs
has_subs-append c d p [] = ground arith
has_subs-append c d p ((e, q) ∷ subs) = ground (arith, has_subs-append c d p subs)

-- Removal of an entry of another channel.
has_subs-remove_entry :
    (c d p : ℕ) (subs : List (ℕ × ℕ))
    → (d == c) ≡ false
    → has_subs c (remove_entry p d subs) ≡ has_subs c subs
unfolding has_subs remove_entry
has_subs-remove_entry c d p [] h = refl
has_subs-remove_entry c d p ((e, q) ∷ subs) h = ground (arith, has_subs-remove_entry c d p subs h)

count-remove_entry :
    (c p : ℕ) (subs : List (ℕ × ℕ))
    → count c (remove_entry p c subs) ≡ (if holds p c subs then count c subs - 1 else count c subs)
unfolding count remove_entry holds
count-remove_entry c p [] = refl
count-remove_entry c p ((e, q) ∷ subs) =
    ground (arith, count-remove_entry c p subs, holds-count c p subs)
  where
    holds-count : (c p : ℕ) (subs : List (ℕ × ℕ)) → holds p c subs ≡ true → 0 < count c subs
    holds-count c p [] h = ground arith
    holds-count c p ((e, q) ∷ subs) h = ground (arith, holds-count c p subs)

has_subs-count : (c : ℕ) (subs : List (ℕ × ℕ)) → has_subs c subs ≡ (count c subs != 0)
unfolding has_subs count
has_subs-count c [] = refl
has_subs-count c ((e, q) ∷ subs) = ground (arith, has_subs-count c subs)

same_channel : (c d : ℕ) (subs : List (ℕ × ℕ)) → (d == c) ≡ true → has_subs c subs ≡ has_subs d subs
same_channel c d subs e = ap (λ (x : ℕ). has_subs x subs) (sym (==→eq d c e))

-- What subscribe_channel tells.
told-added :
    (c d : ℕ) (subs : List (ℕ × ℕ)) (ns : List Notice)
    → told c false ns ≡ has_subs c subs
    → told c false (if has_subs d subs then ns else ns ++ added d ∷ [])
      ≡ (d == c || has_subs c subs)
unfolding told
told-added c d subs ns h = elim (Bool-cases (has_subs d subs)) [
  | inr first ↦ rw first (told-append c false ns (added d ∷ []) ∙ ap (λ (b : Bool). d == c || b) h)
  | inl known ↦ rw known (elim (Bool-cases (d == c)) [
    | inl same ↦ rw same (h ∙ same_channel c d subs same ∙ known)
    | inr other ↦ rw other h
  ])
]

-- After the removal the channel has no subscriber, if it was the last one.
is_last-count :
    (p d : ℕ) (subs : List (ℕ × ℕ))
    → has_subs d (remove_entry p d subs) ≡ (not (is_last p d subs) && has_subs d subs)
unfolding is_last
is_last-count p d subs =
    rw
      (has_subs-count d (remove_entry p d subs), has_subs-count d subs, count-remove_entry d p subs)
      (ground arith)

same_told :
    (c p d : ℕ) (subs : List (ℕ × ℕ)) (ns : List Notice)
    → told c false ns ≡ has_subs c subs
    → (d == c) ≡ true
    → told c false (if is_last p d subs then ns ++ removed d ∷ [] else ns)
      ≡ (not (is_last p d subs) && has_subs d subs)
unfolding told
same_told c p d subs ns h same = elim (Bool-cases (is_last p d subs)) [
  | inl last ↦
      rw last
        (told-append c false ns (removed d ∷ []) ∙ ap (λ (b : Bool). not b && told c false ns) same)
  | inr more ↦ rw more (h ∙ same_channel c d subs same)
]

other_told :
    (c p d : ℕ) (subs : List (ℕ × ℕ)) (ns : List Notice)
    → told c false ns ≡ has_subs c subs
    → (d == c) ≡ false
    → told c false (if is_last p d subs then ns ++ removed d ∷ [] else ns) ≡ has_subs c subs
unfolding told
other_told c p d subs ns h other = elim (Bool-cases (is_last p d subs)) [
  | inl last ↦ rw last (
      told-append c false ns (removed d ∷ [])
      ∙ ap (λ (b : Bool). not b && told c false ns) other
      ∙ h)
  | inr more ↦ rw more h
]

-- What unsubscribe_channel tells.
told-removed :
    (c p d : ℕ) (subs : List (ℕ × ℕ)) (ns : List Notice)
    → told c false ns ≡ has_subs c subs
    → told c false (if is_last p d subs then ns ++ removed d ∷ [] else ns)
      ≡ has_subs c (remove_entry p d subs)
unfolding told
told-removed c p d subs ns h = elim (Bool-cases (d == c)) [
  | inl same ↦
      same_told c p d subs ns h same
      ∙ sym (is_last-count p d subs)
      ∙ sym (same_channel c d (remove_entry p d subs) same)
  | inr other ↦ other_told c p d subs ns h other ∙ sym (has_subs-remove_entry c d p subs other)
]

-- The upstream was told of just the channels with a subscriber.
abbrev pub IsTold : ChannelMap → Type 0
IsTold m = (c : ℕ) → told c false m.notices ≡ has_subs c m.channel_subscriptions

module _ (in_ranges : ℕ → ℕ → Bool) (m : ChannelMap) (p d : ℕ) (h : IsTold m) where
  -- If the upstream was told of just the channels that some participant is subscribed to one by one, this is so
  -- after another subscription too.
  pub subscribe_channel-IsTold : IsTold (subscribe_channel in_ranges m p d)
  unfolding subscribe_channel
  subscribe_channel-IsTold c = elim (Bool-cases (is_subscribed in_ranges m p d)) [
    | inl done ↦ rw done (h c)
    | inr new ↦ rw new (
        told-added c d m.channel_subscriptions m.notices (h c)
        ∙ sym (has_subs-append c d p m.channel_subscriptions))
  ]

  -- If the upstream was told of just the channels that some participant is subscribed to one by one, this is so
  -- after the end of a subscription too, of a participant that is subscribed to the channel by itself,
  -- by a range or not at all.
  pub unsubscribe_channel-IsTold : IsTold (unsubscribe_channel in_ranges m p d)
  unfolding unsubscribe_channel
  unsubscribe_channel-IsTold c = elim (Bool-cases (is_subscribed in_ranges m p d)) [
    | inl there ↦ rw there (told-removed c p d m.channel_subscriptions m.notices (h c))
    | inr none ↦ rw none (h c)
  ]
