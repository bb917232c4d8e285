-- ===== src/StateServer/Placement/Replies.antt =====
-- src/stateserver/DistributedObject.cpp: the messages about fields, the AI, the owner and queries leave the place
-- of an object alone.
use astron.Base.{ℕ, zero, suc, List, [], ◌∷◌, true}
use astron.Datagram.{Datagram}
use astron.StateServer.Object.Keeps.{
  Keeps, Keeps-returns, Keeps-builds, Keeps-if, Keeps-get_self, Keeps-bind,
}
use astron.StateServer.Placement.{Stays, stays_rules, Stays-reads}
use astron.StateServer.Dispatch.{
  on_set_field, on_set_fields, on_changing_ai, on_set_ai, on_get_ai, on_get_ai_resp,
  on_get_location, on_get_all, on_get_field, read_requested, get_requested, on_get_fields,
  announce_owner, handle_owner_change, on_set_owner,
}
use astron.StateServer.Placement.Entries.{entry_rules, send_rules, Stays-handle_ai_change}
use astron.StateServer.Placement.Updates.{Stays-handle_one_update, Stays-handle_updates}

module _ {d p : ℕ} {channels : List ℕ} where
  pub Stays-on_set_field : (sender : ℕ) → Keeps (Stays d p channels) (on_set_field sender)
  unfolding on_set_field
  Stays-on_set_field sender = search (stays_rules, Stays-handle_one_update) depth 24

  pub Stays-on_set_fields : (sender : ℕ) → Keeps (Stays d p channels) (on_set_fields sender)
  unfolding on_set_fields
  Stays-on_set_fields sender = search (stays_rules, Stays-handle_updates) depth 24

  pub Stays-on_changing_ai : (sender : ℕ) → Keeps (Stays d p channels) (on_changing_ai sender)
  unfolding on_changing_ai
  Stays-on_changing_ai sender = search (stays_rules, Stays-handle_ai_change) depth 24

  pub Stays-on_set_ai : (sender : ℕ) → Keeps (Stays d p channels) (on_set_ai sender)
  unfolding on_set_ai
  Stays-on_set_ai sender = search (stays_rules, Stays-handle_ai_change) depth 24

  pub Stays-on_get_ai_resp : (sender : ℕ) → Keeps (Stays d p channels) (on_get_ai_resp sender)
  unfolding on_get_ai_resp
  Stays-on_get_ai_resp sender = search (stays_rules, Stays-handle_ai_change) depth 24

  pub Stays-on_get_ai : (sender : ℕ) → Keeps (Stays d p channels) (on_get_ai sender)
  unfolding on_get_ai
  Stays-on_get_ai sender = search stays_rules depth 24

  pub Stays-on_get_location : (sender : ℕ) → Keeps (Stays d p channels) (on_get_location sender)
  unfolding on_get_location
  Stays-on_get_location sender = search stays_rules depth 24

  pub Stays-on_get_field : (sender : ℕ) → Keeps (Stays d p channels) (on_get_field sender)
  unfolding on_get_field
  Stays-on_get_field sender = search stays_rules depth 24

  pub Stays-on_get_all : (sender : ℕ) → Keeps (Stays d p channels) (on_get_all sender)
  unfolding on_get_all
  Stays-on_get_all sender = search entry_rules depth 24

  pub Stays-read_requested :
      (n : ℕ) (requested : List ℕ) → Keeps (Stays d p channels) (read_requested n requested)
  unfolding read_requested
  Stays-read_requested zero requested = Keeps-returns requested
  Stays-read_requested (suc n) requested =
      Keeps-bind _ _ (Stays-reads _) (λ id. Stays-read_requested n _)

  pub Stays-get_requested :
      (ids : List ℕ) (found : ℕ) (raw : Datagram)
      → Keeps (Stays d p channels) (get_requested ids found raw)
  unfolding get_requested
  Stays-get_requested [] found raw = Keeps-returns (true, found, raw)
  Stays-get_requested (id ∷ ids) found raw = Keeps-bind _ _ Keeps-get_self λ self.
      Keeps-bind _ _ (Keeps-builds _)
        λ (success, raw'). Keeps-if success _ _ (Stays-get_requested ids _ raw') (Keeps-returns _)

  pub Stays-announce_owner :
      (old_owner new_owner sender : ℕ)
      → Keeps (Stays d p channels) (announce_owner old_owner new_owner sender)
  unfolding announce_owner
  Stays-announce_owner old_owner new_owner sender = search stays_rules depth 24

  pub Stays-on_get_fields : (sender : ℕ) → Keeps (Stays d p channels) (on_get_fields sender)
  unfolding on_get_fields
  Stays-on_get_fields sender =
      search (stays_rules, Stays-read_requested, Stays-get_requested) depth 24

  pub Stays-handle_owner_change :
      (new_owner sender : ℕ) → Keeps (Stays d p channels) (handle_owner_change new_owner sender)
  unfolding handle_owner_change
  Stays-handle_owner_change new_owner sender = search (send_rules, Stays-announce_owner) depth 24

  pub Stays-on_set_owner : (sender : ℕ) → Keeps (Stays d p channels) (on_set_owner sender)
  unfolding on_set_owner
  Stays-on_set_owner sender = search (stays_rules, Stays-handle_owner_change) depth 24
