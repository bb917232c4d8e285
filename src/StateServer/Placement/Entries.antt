-- ===== src/StateServer/Placement/Entries.antt =====
-- src/stateserver/DistributedObject.cpp: the entries, and the changes of AI, leave the object's id, its
-- parent and its subscriptions alone.
use astron.Base.{ℕ, refl, List, [], ◌∷◌, Bool, true, false}
use astron.Datagram.{Datagram}
use astron.StateServer.Object.{erased, emit, FieldValues}
use astron.StateServer.Object.Keeps.{Keeps, Keeps-returns, Keeps-builds, Keeps-bind}
use astron.StateServer.Entries.{
  append_required_fields, append_required_data, append_values, append_other_data, append_other_if,
  send_interest_entry, send_location_entry, send_ai_entry, send_owner_entry,
}
use astron.Dclass.Class.{Field}
use astron.StateServer.Placement.{Stays, stays_rules, Stays-emit, Stays-modify, Stays-reads, replay}
use astron.StateServer.Location.{
  announce_location, ask_ai, handle_ai_change, delete_children, leave_on_delete, wake_children,
}

module _ {d p : ℕ} {channels : List ℕ} where
  pub Stays-append_required_fields :
      (client also : Bool) (fs : List Field) (dg : Datagram)
      → Keeps (Stays d p channels) (append_required_fields client also fs dg)
  unfolding append_required_fields
  Stays-append_required_fields client also [] dg = search stays_rules
  Stays-append_required_fields client also (f ∷ fs) dg =
      Keeps-bind _ _ (search stays_rules depth 12)
        (λ dg'. Stays-append_required_fields client also fs dg')

  pub Stays-append_required_data :
      (dg : Datagram) (client also : Bool)
      → Keeps (Stays d p channels) (append_required_data dg client also)
  unfolding append_required_data
  Stays-append_required_data dg client also =
      search (stays_rules, Stays-append_required_fields) depth 20

  pub Stays-append_values :
      (m : FieldValues) (dg : Datagram) → Keeps (Stays d p channels) (append_values m dg)
  unfolding append_values
  Stays-append_values [] dg = search stays_rules
  Stays-append_values ((f, v) ∷ m) dg =
      Keeps-bind _ _ (Keeps-builds _) λ _. Keeps-bind _ _ (Keeps-builds _) (Stays-append_values m)

  pub Stays-append_other_data :
      (dg : Datagram) (client also : Bool)
      → Keeps (Stays d p channels) (append_other_data dg client also)
  unfolding append_other_data
  Stays-append_other_data dg client also = search (stays_rules, Stays-append_values) depth 20

  pub Stays-append_other_if :
      (b client also : Bool) (dg : Datagram)
      → Keeps (Stays d p channels) (append_other_if b client also dg)
  unfolding append_other_if
  Stays-append_other_if true client also dg = Stays-append_other_data dg client also
  Stays-append_other_if false client also dg = Keeps-returns dg

pub ruleset entry_rules =
    (stays_rules, Stays-append_required_data, Stays-append_other_data, Stays-append_other_if)

module _ {d p : ℕ} {channels : List ℕ} where
  pub Stays-send_interest_entry :
      (location context : ℕ) → Keeps (Stays d p channels) (send_interest_entry location context)
  unfolding send_interest_entry
  Stays-send_interest_entry location context = search entry_rules depth 20

  pub Stays-send_location_entry :
      (location : ℕ) → Keeps (Stays d p channels) (send_location_entry location)
  unfolding send_location_entry
  Stays-send_location_entry location = search entry_rules depth 20

  pub Stays-send_ai_entry : (ai : ℕ) → Keeps (Stays d p channels) (send_ai_entry ai)
  unfolding send_ai_entry
  Stays-send_ai_entry ai = search entry_rules depth 20

  pub Stays-send_owner_entry : (owner : ℕ) → Keeps (Stays d p channels) (send_owner_entry owner)
  unfolding send_owner_entry
  Stays-send_owner_entry owner = search entry_rules depth 20

pub ruleset send_rules = (
  entry_rules, Stays-send_interest_entry, Stays-send_location_entry, Stays-send_ai_entry,
  Stays-send_owner_entry,
)

module _ {d p : ℕ} {channels : List ℕ} where
  pub Stays-announce_location :
      (old_parent old_zone new_parent new_zone : ℕ) (targets : List ℕ) (sender : ℕ)
      → Keeps
          (Stays d p channels)
          (announce_location old_parent old_zone new_parent new_zone targets sender)
  unfolding announce_location
  Stays-announce_location old_parent old_zone new_parent new_zone targets sender =
      search send_rules depth 20

  pub Stays-handle_ai_change :
      (new_ai sender : ℕ) (is_explicit : Bool)
      → Keeps (Stays d p channels) (handle_ai_change new_ai sender is_explicit)
  unfolding handle_ai_change
  Stays-handle_ai_change new_ai sender is_explicit = search send_rules depth 20

  pub Stays-ask_ai : (new_parent : ℕ) → Keeps (Stays d p channels) (ask_ai new_parent)
  unfolding ask_ai
  Stays-ask_ai new_parent = search send_rules depth 20

  pub Stays-delete_children : (sender : ℕ) → Keeps (Stays d p channels) (delete_children sender)
  unfolding delete_children
  Stays-delete_children sender = search send_rules depth 20

  pub Stays-leave_on_delete : (sender : ℕ) → Keeps (Stays d p channels) (leave_on_delete sender)
  unfolding leave_on_delete
  Stays-leave_on_delete sender = search send_rules depth 20

  pub Stays-wake_children : Keeps (Stays d p channels) wake_children
  unfolding wake_children
  Stays-wake_children = search send_rules depth 20

  pub Stays-erased : (id : ℕ) → Keeps (Stays d p channels) (emit (erased id))
  unfolding replay
  Stays-erased id = Stays-emit (erased id) (λ cs. refl)
