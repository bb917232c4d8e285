-- ===== src/StateServer/Dispatch/Explicit.antt =====
-- src/stateserver/DistributedObject.cpp: an AI that was set explicitly is not replaced by the parent's.
use astron.Base.{ℕ, ◌≡◌, refl, List, true, false, not}
use astron.Iterator.{Reader, read_uint32, read_doid, read_channel}
use astron.StateServer.Object.{
  Context, DistributedObject, Effect, Handler, ◌>>=◌, get_self, reads, when,
}
use astron.StateServer.Object.Keeps.{Keeps, Keeps-bind, Keeps-reads, Keeps-if, Keeps-returns}
use astron.StateServer.Dispatch.{on_changing_ai, on_get_ai_resp}
use astron.StateServer.Location.{handle_ai_change}

-- The object and the effects, as given.
record Same (o : DistributedObject) (es : List Effect) (c : Context) : Type 0 where
  object : c.self ≡ o
  effects : c.effects ≡ es

module _ {o : DistributedObject} {es : List Effect} where
  Same-reads {ℓ} : {A : Type ℓ} (m : Reader A) → Keeps (Same o es) (reads m)
  Same-reads m = Keeps-reads m (λ c dgi h. record { object = h.object; effects = h.effects })

  -- What follows get_self has the object itself.
  Same-get_self {ℓ} :
      {A : Type ℓ} (f : DistributedObject → Handler A)
      → Keeps (Same o es) (f o)
      → Keeps (Same o es) (get_self >>= f)
  unfolding ◌>>=◌
  Same-get_self f k = record {
    at = λ c h. rw (h.object) (k.at _ (record { object = refl; effects = h.effects }));
  }

  not_explicit :
      (new_ai sender : ℕ)
      → o.ai_explicitly_set ≡ true
      → Keeps (Same o es) (when (not o.ai_explicitly_set) (handle_ai_change new_ai sender false))
  unfolding when
  not_explicit new_ai sender e = rw e (Keeps-returns tt)

  Same-on_changing_ai :
      (sender : ℕ) → o.ai_explicitly_set ≡ true → Keeps (Same o es) (on_changing_ai sender)
  unfolding on_changing_ai
  Same-on_changing_ai sender e = Keeps-bind _ _ (Same-reads read_doid) λ r_parent_id.
      Keeps-bind _ _ (Same-reads read_channel) λ new_channel.
        Same-get_self _ (Keeps-if _ _ _ (Keeps-returns tt) (not_explicit new_channel sender e))

  Same-on_get_ai_resp :
      (sender : ℕ) → o.ai_explicitly_set ≡ true → Keeps (Same o es) (on_get_ai_resp sender)
  unfolding on_get_ai_resp
  Same-on_get_ai_resp sender e = Keeps-bind _ _ (Same-reads read_uint32) λ context.
      Keeps-bind _ _ (Same-reads read_doid) λ r_parent_id. Same-get_self _ (
        Keeps-if _ _ _ (Keeps-returns tt)
          (Keeps-bind _ _ (Same-reads read_channel) λ new_ai. not_explicit new_ai sender e))

-- If the AI of an object was set explicitly, CHANGING_AI and GET_AI_RESP change nothing of the object and
-- cause no effect, whatever the message holds.
pub explicit_ai_stays :
    (sender : ℕ) (c : Context)
    → c.self.ai_explicitly_set ≡ true
    → ((on_changing_ai sender c).1.self ≡ c.self)
      × ((on_changing_ai sender c).1.effects ≡ c.effects)
      × ((on_get_ai_resp sender c).1.self ≡ c.self)
      × ((on_get_ai_resp sender c).1.effects ≡ c.effects)
explicit_ai_stays sender c e =
    let here : Same c.self c.effects c = record { object = refl; effects = refl } in
    let changing = (Same-on_changing_ai sender e).at c here in
    let answered = (Same-on_get_ai_resp sender e).at c here in
    (changing.object, changing.effects, answered.object, answered.effects)
