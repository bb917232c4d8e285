-- ===== src/StateServer/Placement/Invariant.antt =====
-- src/stateserver/DistributedObject.cpp: the place of an object, subscribed to its own id and to the children
-- channel of its parent and to nothing else, and how a change of location keeps it.
use astron.Base.{
  ℕ, ◌^◌, ◌<◌, ◌≡◌, refl, sym, ap, ◌∙◌, List, [], ◌∷◌, ◌!=◌, ◌==◌, if◌then◌else◌, arith, Bool-cases,
  inl, inr, eq→==,
}
use astron.Base.Result.{ok}
use astron.Channels.{parent_to_children}
use astron.StateServer.Object.{
  Context, Effect, subscribed, unsubscribed, Handler, modify, emit, ◌>>=◌, ◌>>◌, returns, get_self,
  subscribe_channel, unsubscribe_channel, insert, erase,
}
use astron.StateServer.Object.Keeps.{
  Keeps, Keeps-returns, Keeps-if, Keeps-when, Keeps-bind, continues,
}
use astron.StateServer.Location.{
  announce_location, leave_parent, enter_parent, handle_location_change,
}
use astron.StateServer.Placement.{Stays, Stays-modify, replay, replay-append}
use astron.StateServer.Placement.Entries.{Stays-announce_location, Stays-ask_ai}
use mathlib.Core.Logic.{◌≢◌}

-- The channels of an object under a parent; 0 is no parent.
unfoldable pub place_channels : ℕ → ℕ → List ℕ
place_channels d p = d ∷ (if p != 0 then parent_to_children p ∷ [] else [])

pub record IsPlaced (c : Context) : Type 0 where
  pub apart : c.self.parent_id ≢ c.self.do_id
  pub small : c.self.do_id < 2 ^ 32
  pub follows : replay [] c.effects ≡ place_channels c.self.do_id c.self.parent_id

-- An object that has the id, the parent and the subscriptions of one in its place is in its place.
pub IsPlaced-Stays :
    (c c' : Context)
    → IsPlaced c
    → Stays c.self.do_id c.self.parent_id (replay [] c.effects) c'
    → IsPlaced c'
IsPlaced-Stays c c' h stays = record {
  apart = λ e. h.apart (sym stays.same_parent ∙ e ∙ stays.same_id);
  small = omega (arith, h.small, stays.same_id);
  follows =
      stays.same_channels
      ∙ h.follows
      ∙ sym (
          ap (place_channels c'.self.do_id) stays.same_parent
          ∙ ap (λ (i : ℕ). place_channels i c.self.parent_id) stays.same_id);
}

-- A handler that leaves the place alone keeps it.
pub Stays-IsPlaced {ℓ} :
    {A : Type ℓ} (m : Handler A)
    → ((d p : ℕ) (channels : List ℕ) → Keeps (Stays d p channels) m)
    → Keeps IsPlaced m
Stays-IsPlaced m k = record {
  at = λ c h. IsPlaced-Stays c (m c).1 h (
      (k c.self.do_id c.self.parent_id (replay [] c.effects)).at c
        (record { same_id = refl; same_parent = refl; same_channels = refl }));
}

-- A handler that cannot throw, and leads from `P` to `Q`.
pub record Leads {ℓ} {A : Type ℓ} (P Q : Context → Type 0) (m : Handler A) : Type ℓ where
  pub at : (c : Context) → P c → (a : A) × ((m c).0 ≡ ok a) × Q (m c).1

-- A handler that may throw once it has reached `Q`.
pub record Ends {ℓ} {A : Type ℓ} (P Q : Context → Type 0) (m : Handler A) : Type ℓ where
  pub at : (c : Context) → P c → Q (m c).1

pub Ends-bind {ℓ κ} :
    {A : Type ℓ} {B : Type κ} {P Q R : Context → Type 0} (m : Handler A) (f : A → Handler B)
    → Leads P Q m
    → ((a : A) → Ends Q R (f a))
    → Ends P R (m >>= f)
unfolding ◌>>=◌
Ends-bind m f leads ends = record {
  at = λ c h. let (a, e, q) = leads.at c h in rw e ((ends a).at (m c).1 q);
}

Ends-then {ℓ κ} :
    {A : Type ℓ} {B : Type κ} {P Q : Context → Type 0} (m : Handler A) (f : A → Handler B)
    → Ends P Q m
    → ((a : A) → Keeps Q (f a))
    → Ends P Q (m >>= f)
unfolding ◌>>=◌
Ends-then m f ends keeps = record {
  at = λ c h. let (r, c') = m c in continues r f c' keeps (ends.at c h);
}

Leads-bind {ℓ κ} :
    {A : Type ℓ} {B : Type κ} {P Q R : Context → Type 0} (m : Handler A) (f : A → Handler B)
    → Leads P Q m
    → ((a : A) → Leads Q R (f a))
    → Leads P R (m >>= f)
unfolding ◌>>=◌
Leads-bind m f first rest = record {
  at = λ c h. let (a, e, q) = first.at c h in rw e ((rest a).at (m c).1 q);
}

Leads-returns {ℓ} : {A : Type ℓ} {P : Context → Type 0} (a : A) → Leads P P (returns a)
unfolding returns
Leads-returns a = record { at = λ c h. (a, refl, h) }

Leads-get_self : {P : Context → Type 0} → Leads P P get_self
unfolding get_self
Leads-get_self = record { at = λ c h. (c.self, refl, h) }

pub Keeps-Ends {ℓ} : {A : Type ℓ} {P : Context → Type 0} (m : Handler A) → Keeps P m → Ends P P m
Keeps-Ends m k = record { at = k.at }

pub emit-Leads :
    (d p : ℕ) (cs cs' : List ℕ) (e : Effect)
    → replay cs (e ∷ []) ≡ cs'
    → Leads (Stays d p cs) (Stays d p cs') (emit e)
unfolding emit
emit-Leads d p cs cs' e step = record {
  at = λ c h. (
    tt,
    refl,
    record {
      same_id = h.same_id;
      same_parent = h.same_parent;
      same_channels =
          replay-append [] c.effects (e ∷ [])
          ∙ ap (λ (xs : List ℕ). replay xs (e ∷ [])) h.same_channels
          ∙ step;
    },
  );
}

-- The children channels lie above every id.
erase_children :
    (d p : ℕ) → d < 2 ^ 32 → erase (parent_to_children p) (d ∷ parent_to_children p ∷ []) ≡ d ∷ []
unfolding erase parent_to_children
erase_children d p h = ground arith

insert_children :
    (d p : ℕ) → d < 2 ^ 32 → insert (parent_to_children p) (d ∷ []) ≡ d ∷ parent_to_children p ∷ []
unfolding insert parent_to_children
insert_children d p h = ground arith

module _ (d : ℕ) (small : d < 2 ^ 32) where
  unsubscribe-Leads :
      (p : ℕ)
      → Leads
          (Stays d p (d ∷ parent_to_children p ∷ []))
          (Stays d p (d ∷ []))
          (unsubscribe_channel (parent_to_children p))
  unfolding unsubscribe_channel replay
  unsubscribe-Leads p = emit-Leads d p _ _ (unsubscribed _) (erase_children d p small)

  subscribe-Leads :
      (p : ℕ)
      → Leads
          (Stays d p (d ∷ []))
          (Stays d p (d ∷ parent_to_children p ∷ []))
          (subscribe_channel (parent_to_children p))
  unfolding subscribe_channel replay
  subscribe-Leads p = emit-Leads d p _ _ (subscribed _) (insert_children d p small)

  leave_parent-Leads :
      (p zone : ℕ) (targets : List ℕ)
      → Leads (Stays d p (place_channels d p)) (Stays d p (d ∷ [])) (leave_parent p zone targets)
  unfolding leave_parent place_channels
  leave_parent-Leads p zone targets = elim (Bool-cases (p != 0)) [
    | inr root ↦ rw root (Leads-returns targets)
    | inl old ↦ rw old (Leads-bind _ _ (unsubscribe-Leads p) (λ _. Leads-returns _))
  ]

  move-Leads :
      (p p' zone : ℕ) (cs : List ℕ)
      → Leads
          (Stays d p cs)
          (Stays d p' cs)
          (modify λ o. record o { parent_id = p'; zone_id = zone })
  unfolding modify
  move-Leads p p' zone cs = record {
    at = λ c h. (
      tt,
      refl,
      record { same_id = h.same_id; same_parent = refl; same_channels = h.same_channels },
    );
  }

  enter_parent-Ends :
      (p : ℕ) (targets : List ℕ)
      → Ends (Stays d p (d ∷ [])) (Stays d p (place_channels d p)) (enter_parent p targets)
  unfolding enter_parent place_channels
  enter_parent-Ends p targets = Ends-bind _ _ Leads-get_self λ self. elim (Bool-cases (p != 0)) [
    | inr root ↦ rw root (
        Keeps-Ends _ (
          Keeps-bind _ _ (Keeps-when _ _ (Stays-modify _ (λ o. (refl, refl))))
            (λ _. Keeps-returns _)))
    | inl new ↦ rw new (
        Ends-bind _ _ (subscribe-Leads p) λ _.
          Keeps-Ends _ (Keeps-bind _ _ (Keeps-when _ _ (Stays-ask_ai p)) (λ _. Keeps-returns _)))
  ]

  -- The move to another parent, from the unsubscription to the last message.
  change_parent-Ends :
      (p zone p' zone' : ℕ) (targets : List ℕ) (sender : ℕ)
      → Ends (Stays d p (place_channels d p)) (Stays d p' (place_channels d p')) (
          leave_parent p zone targets >>= λ left.
          (modify λ o. record o { parent_id = p'; zone_id = zone' }) >>= λ _.
          enter_parent p' left >>= λ all. announce_location p zone p' zone' all sender)
  change_parent-Ends p zone p' zone' targets sender =
      Ends-bind _ _ (leave_parent-Leads p zone targets) λ left.
        Ends-bind _ _ (move-Leads p p' zone' (d ∷ [])) λ _.
          Ends-then _ _ (enter_parent-Ends p' left)
            λ all. Stays-announce_location p zone p' zone' all sender

-- The end of a move to another parent.
pub moved-IsPlaced :
    (d p : ℕ) (c : Context) → d < 2 ^ 32 → p ≢ d → Stays d p (place_channels d p) c → IsPlaced c
moved-IsPlaced d p c small apart h = record {
  apart = λ e. apart (sym h.same_parent ∙ e ∙ h.same_id);
  small = omega (arith, small, h.same_id);
  follows =
      h.same_channels
      ∙ sym (
          ap (place_channels c.self.do_id) h.same_parent
          ∙ ap (λ (i : ℕ). place_channels i p) h.same_id);
}

-- A move to another zone of the same parent.
rezone-IsPlaced :
    (p zone p' zone' : ℕ) (targets : List ℕ) (sender : ℕ)
    → Keeps IsPlaced (
        if zone' != zone
        then (modify (λ o. record o { zone_id = zone' })
            >> announce_location p zone p' zone' targets sender)
        else returns tt)
rezone-IsPlaced p zone p' zone' targets sender = Stays-IsPlaced _ λ d q cs.
    Keeps-if _ _ _
      (Keeps-bind _ _ (Stays-modify _ (λ o. (refl, refl)))
        (λ _. Stays-announce_location p zone p' zone' targets sender))
      (Keeps-returns tt)

-- The three cases of handle_location_change.
pub handle_location_change-IsPlaced :
    (new_parent new_zone sender : ℕ)
    → Keeps IsPlaced (handle_location_change new_parent new_zone sender)
unfolding handle_location_change ◌>>=◌
handle_location_change-IsPlaced new_parent new_zone sender = record {
  at = λ c h. elim (Bool-cases (new_parent == c.self.do_id)) [
    | inl same ↦ rw same h
    | inr other ↦ rw other (elim (Bool-cases (new_parent != c.self.parent_id)) [
      | inl moves ↦ rw moves (
          moved-IsPlaced c.self.do_id new_parent _ h.small (λ e. grind (arith, eq→==))
            ((change_parent-Ends c.self.do_id h.small c.self.parent_id c.self.zone_id new_parent
                new_zone _ sender).at
              c (record { same_id = refl; same_parent = refl; same_channels = h.follows })))
      | inr stays ↦
          rw stays
            ((rezone-IsPlaced c.self.parent_id c.self.zone_id new_parent new_zone _ sender).at c h)
    ])
  ];
}
