-- ===== src/StateServer/Placement/Ended.antt =====
-- src/stateserver/DistributedObject.cpp: annihilate, which ends an object with its subscriptions.
use astron.Base.{
  ℕ, ◌≡◌, refl, List, [], ◌∷◌, ◌++◌, Bool, true, false, ◌==◌, ◌!=◌, if◌then◌else◌, ◌⊎◌, inl, inr,
}
use astron.Base.Result.{Result, ok, err}
use astron.Iterator.{read_channel, read_doid}
use astron.StateServer.Object.{
  Context, Effect, routed, subscribed, unsubscribed, erased, terminated, Handler, and_then, ◌>>=◌,
  emit,
}
use astron.StateServer.Object.Keeps.{Keeps, Keeps-returns, Keeps-builds, Keeps-get_self, Keeps-when}
use astron.StateServer.Location.{annihilate}
use astron.StateServer.Dispatch.{on_delete_ai_objects, on_delete_ram, on_delete_children}
use astron.StateServer.Placement.{Stays, Stays-reads, Stays-route, replay, replay-append}
use astron.StateServer.Placement.Entries.{
  Stays-delete_children, Stays-leave_on_delete, Stays-erased,
}
use astron.StateServer.Placement.Invariant.{Ends, IsPlaced, IsPlaced-Stays}

unfoldable pub is_terminated : List Effect → Bool
is_terminated [] = false
is_terminated (terminated ∷ es) = true
is_terminated (subscribed c ∷ es) = is_terminated es
is_terminated (unsubscribed c ∷ es) = is_terminated es
is_terminated (routed d ∷ es) = is_terminated es
is_terminated (erased d ∷ es) = is_terminated es

-- An object that has ended, without subscriptions.
pub record IsEnded (c : Context) : Type 0 where
  pub ended : is_terminated c.effects ≡ true
  pub no_channels : replay [] c.effects ≡ []

is_terminated-append : (es : List Effect) → is_terminated (es ++ terminated ∷ []) ≡ true
unfolding is_terminated
is_terminated-append [] = refl
is_terminated-append (terminated ∷ es) = refl
is_terminated-append (subscribed c ∷ es) = is_terminated-append es
is_terminated-append (unsubscribed c ∷ es) = is_terminated-append es
is_terminated-append (routed d ∷ es) = is_terminated-append es
is_terminated-append (erased d ∷ es) = is_terminated-append es

-- A handler that goes on after one that keeps `P`, or stops there with an exception.
module _ {ℓ κ} {A : Type ℓ} {B : Type κ} {P R : Context → Type 0} where
  later :
      (r : Result A) (f : A → Handler B) (c : Context)
      → ((c : Context) → P c → R c)
      → ((a : A) → Ends P R (f a))
      → P c
      → R (and_then (r, c) f).1
  later (ok a) f c weaker ends h = (ends a).at c h
  later (err e) f c weaker ends h = weaker c h

  pub Ends-later :
      (m : Handler A) (f : A → Handler B)
      → Keeps P m
      → ((c : Context) → P c → R c)
      → ((a : A) → Ends P R (f a))
      → Ends P R (m >>= f)
  unfolding ◌>>=◌
  Ends-later m f keeps weaker ends = record {
    at = λ c h. let (r, c') = m c in later r f c' weaker ends (keeps.at c h);
  }

pub Ends-if {ℓ} :
    {A : Type ℓ} {P R : Context → Type 0} (b : Bool) (m n : Handler A)
    → Ends P R m
    → Ends P R n
    → Ends P R (if b then m else n)
Ends-if true m n km kn = km
Ends-if false m n km kn = kn

-- What is left of an object with an id, a parent and subscriptions: the object, or its end.
abbrev pub Left : ℕ → ℕ → List ℕ → Context → Type 0
Left d p channels c = Stays d p channels c ⊎ IsEnded c

module _ {d p : ℕ} {channels : List ℕ} where
  pub Left-Keeps {ℓ} :
      {A : Type ℓ} (m : Handler A)
      → Keeps (Stays d p channels) m
      → Ends (Stays d p channels) (Left d p channels) m
  Left-Keeps m k = record { at = λ c h. inl (k.at c h) }

  pub Left-bind {ℓ κ} :
      {A : Type ℓ} {B : Type κ} (m : Handler A) (f : A → Handler B)
      → Keeps (Stays d p channels) m
      → ((a : A) → Ends (Stays d p channels) (Left d p channels) (f a))
      → Ends (Stays d p channels) (Left d p channels) (m >>= f)
  Left-bind m f k ends = Ends-later m f k (λ c h. inl h) ends

  Left-terminated : Ends (Stays d p channels) (Left d p channels) (emit terminated)
  unfolding emit replay
  Left-terminated = record {
    at = λ c h. inr (record {
      ended = is_terminated-append c.effects;
      no_channels = replay-append [] c.effects (terminated ∷ []);
    });
  }

  Left-annihilate :
      (sender : ℕ) (notify_parent : Bool)
      → Ends (Stays d p channels) (Left d p channels) (annihilate sender notify_parent)
  unfolding annihilate
  Left-annihilate sender notify_parent = Left-bind _ _ Keeps-get_self λ self.
      Left-bind _ _ (Keeps-when _ _ (Keeps-when _ _ (Stays-leave_on_delete sender))) λ _.
        Left-bind _ _ (Keeps-builds _) λ dg. Left-bind _ _ (Keeps-builds _) λ dg'.
          Left-bind _ _ (Stays-route dg') λ _.
            Left-bind _ _ (Stays-delete_children sender)
              λ _. Left-bind _ _ (Stays-erased self.do_id) (λ _. Left-terminated)

  pub Left-on_delete_ai_objects :
      (sender : ℕ) → Ends (Stays d p channels) (Left d p channels) (on_delete_ai_objects sender)
  unfolding on_delete_ai_objects
  Left-on_delete_ai_objects sender = Left-bind _ _ Keeps-get_self λ self.
      Left-bind _ _ (Stays-reads read_channel) λ channel.
        Ends-if (self.ai_channel != channel) _ _ (Left-Keeps _ (Keeps-returns tt))
          (Left-annihilate sender true)

  pub Left-on_delete_ram :
      (sender : ℕ) → Ends (Stays d p channels) (Left d p channels) (on_delete_ram sender)
  unfolding on_delete_ram
  Left-on_delete_ram sender = Left-bind _ _ Keeps-get_self λ self.
      Left-bind _ _ (Stays-reads read_doid) λ doid.
        Ends-if (self.do_id != doid) _ _ (Left-Keeps _ (Keeps-returns tt))
          (Left-annihilate sender true)

  pub Left-on_delete_children :
      (sender : ℕ) → Ends (Stays d p channels) (Left d p channels) (on_delete_children sender)
  unfolding on_delete_children
  Left-on_delete_children sender = Left-bind _ _ (Stays-reads read_doid) λ r_do_id.
      Left-bind _ _ Keeps-get_self λ self.
        Ends-if (r_do_id == self.do_id) _ _ (Left-Keeps _ (Stays-delete_children sender)) (
          Ends-if (r_do_id == self.parent_id) _ _ (Left-annihilate sender false)
            (Left-Keeps _ (Keeps-returns tt)))

-- After a message: the object in its place, or its end.
abbrev pub Settled : Context → Type 0
Settled c = IsPlaced c ⊎ IsEnded c

settles :
    (c c' : Context)
    → IsPlaced c
    → Left c.self.do_id c.self.parent_id (replay [] c.effects) c'
    → Settled c'
settles c c' h (inl stays) = inl (IsPlaced-Stays c c' h stays)
settles c c' h (inr gone) = inr gone

pub Left-Settled {ℓ} :
    {A : Type ℓ} (m : Handler A)
    → ((d p : ℕ) (channels : List ℕ) → Ends (Stays d p channels) (Left d p channels) m)
    → Ends IsPlaced Settled m
Left-Settled m k = record {
  at = λ c h. settles c (m c).1 h (
      (k c.self.do_id c.self.parent_id (replay [] c.effects)).at c
        (record { same_id = refl; same_parent = refl; same_channels = refl }));
}
