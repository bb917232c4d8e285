-- ===== src/StateServer/Placement/Updates.antt =====
-- src/stateserver/DistributedObject.cpp: the updates of fields and the handling of children leave the
-- object's id, its parent and its subscriptions alone.
use astron.Base.{ℕ, zero, suc, ◌≡◌, List, [], ◌∷◌, arith}
use astron.Base.Result.{Result, ok, err, iterator_eof}
use astron.Datagram.{Datagram}
use astron.StateServer.Object.{DistributedObject, Context, Handler}
use astron.StateServer.Object.Keeps.{
  Keeps, Keeps-returns, Keeps-builds, Keeps-if, Keeps-get_self, Keeps-when, Keeps-bind,
}
use astron.Dclass.Class.{Field, AtomicField, atomic, molecular_field}
use astron.StateServer.Placement.{Stays, stays_rules, Stays-modify, Stays-reads}
use astron.StateServer.Fields.{
  save_field, saved, catch_eof, caught, save_atomics, save_update, relay_update, update_field,
  handle_one_update, handle_updates,
}
use astron.StateServer.Zones.{
  acknowledge, child_moved, on_changing_location, on_location_ack, on_get_location_resp,
  answer_relayed, count_children, answer_query, on_get_zones_objects, add_zones,
  on_get_active_zones,
}
use astron.StateServer.Placement.Entries.{Stays-send_interest_entry, Stays-send_location_entry}

saved_alone :
    (f : Field) (value : List ℕ) (o : DistributedObject)
    → ((saved f value o).do_id ≡ o.do_id) × ((saved f value o).parent_id ≡ o.parent_id)
unfolding saved
saved_alone f value o = ground arith

module _ {d p : ℕ} {channels : List ℕ} where
  caught-Stays {ℓ} :
      {A : Type ℓ} (r : Result A × Context)
      → Stays d p channels r.1
      → Stays d p channels (caught r).1
  unfolding caught
  caught-Stays (ok a, c) h = h
  caught-Stays (err iterator_eof, c) h = h
  caught-Stays (err _, c) h = h

  pub Stays-catch_eof {ℓ} :
      {A : Type ℓ} (m : Handler A)
      → Keeps (Stays d p channels) m
      → Keeps (Stays d p channels) (catch_eof m)
  unfolding catch_eof
  Stays-catch_eof m k = record { at = λ c h. caught-Stays (m c) (k.at c h) }

  pub Stays-save_field :
      (f : Field) (value : List ℕ) → Keeps (Stays d p channels) (save_field f value)
  unfolding save_field
  Stays-save_field f value = Stays-modify _ (saved_alone f value)

  pub Stays-save_atomics :
      (atomics : List AtomicField) → Keeps (Stays d p channels) (save_atomics atomics)
  unfolding save_atomics
  Stays-save_atomics [] = Keeps-returns tt
  Stays-save_atomics (a ∷ atomics) =
      Keeps-bind _ _ (Stays-reads _) λ value.
        Keeps-bind _ _ (Stays-save_field (atomic a) value) (λ _. Stays-save_atomics atomics)

  pub Stays-save_update :
      (f : Field) (start : ℕ) (value : List ℕ)
      → Keeps (Stays d p channels) (save_update f start value)
  unfolding save_update
  Stays-save_update (molecular_field id keywords atomics) start value =
      Keeps-bind _ _ (Stays-reads _) (λ _. Stays-save_atomics atomics)
  Stays-save_update (atomic a) start value = Stays-save_field (atomic a) value

  pub Stays-relay_update :
      (field_id : ℕ) (value targets : List ℕ) (sender : ℕ)
      → Keeps (Stays d p channels) (relay_update field_id value targets sender)
  unfolding relay_update
  Stays-relay_update field_id value targets sender = search stays_rules depth 24

  pub Stays-update_field :
      (f : Field) (field_id sender : ℕ)
      → Keeps (Stays d p channels) (update_field f field_id sender)
  unfolding update_field
  Stays-update_field f field_id sender =
      search (stays_rules, Stays-catch_eof, Stays-save_update, Stays-relay_update) depth 24

  pub Stays-handle_one_update : (sender : ℕ) → Keeps (Stays d p channels) (handle_one_update sender)
  unfolding handle_one_update
  Stays-handle_one_update sender = search (stays_rules, Stays-update_field) depth 24

  pub Stays-handle_updates : (n sender : ℕ) → Keeps (Stays d p channels) (handle_updates n sender)
  unfolding handle_updates
  Stays-handle_updates zero sender = Keeps-returns tt
  Stays-handle_updates (suc n) sender =
      Keeps-bind _ _ (Stays-handle_one_update sender)
        λ success. Keeps-when success _ (Stays-handle_updates n sender)

  pub Stays-acknowledge : (child zone : ℕ) → Keeps (Stays d p channels) (acknowledge child zone)
  unfolding acknowledge
  Stays-acknowledge child zone = search stays_rules depth 24

  pub Stays-child_moved :
      (child new_parent new_zone r_do_id r_zone : ℕ)
      → Keeps (Stays d p channels) (child_moved child new_parent new_zone r_do_id r_zone)
  unfolding child_moved
  Stays-child_moved child new_parent new_zone r_do_id r_zone =
      search (stays_rules, Stays-acknowledge) depth 24

  pub Stays-answer_relayed :
      (n sender context : ℕ) → Keeps (Stays d p channels) (answer_relayed n sender context)
  unfolding answer_relayed
  Stays-answer_relayed zero sender context = Keeps-returns tt
  Stays-answer_relayed (suc n) sender context = Keeps-bind _ _ (Stays-reads _) λ zone.
      Keeps-bind _ _ Keeps-get_self λ self.
        Keeps-if _ _ _
          (Keeps-if _ _ _ (Stays-send_interest_entry sender context)
            (Stays-send_location_entry sender))
          (Stays-answer_relayed n sender context)

  pub Stays-count_children :
      (n count : ℕ) (dg : Datagram) → Keeps (Stays d p channels) (count_children n count dg)
  unfolding count_children
  Stays-count_children zero count dg = Keeps-returns (count, dg)
  Stays-count_children (suc n) count dg = Keeps-bind _ _ (Stays-reads _) λ zone.
      Keeps-bind _ _ (search stays_rules) λ _.
        Keeps-bind _ _ Keeps-get_self
          λ self. Keeps-bind _ _ (Keeps-builds _) λ dg'. Stays-count_children n _ dg'

  pub Stays-add_zones :
      (zones : List ℕ) (dg : Datagram) → Keeps (Stays d p channels) (add_zones zones dg)
  unfolding add_zones
  Stays-add_zones [] dg = Keeps-returns dg
  Stays-add_zones (zone ∷ zones) dg = Keeps-bind _ _ (Keeps-builds _) (Stays-add_zones zones)

  pub Stays-answer_query :
      (zone_count queried_parent sender context : ℕ)
      → Keeps (Stays d p channels) (answer_query zone_count queried_parent sender context)
  unfolding answer_query
  Stays-answer_query zone_count queried_parent sender context =
      search (stays_rules, Stays-count_children) depth 24

  pub Stays-on_changing_location : Keeps (Stays d p channels) on_changing_location
  unfolding on_changing_location
  Stays-on_changing_location = search (stays_rules, Stays-child_moved) depth 24

  pub Stays-on_location_ack : Keeps (Stays d p channels) on_location_ack
  unfolding on_location_ack
  Stays-on_location_ack = search stays_rules depth 24

  pub Stays-on_get_location_resp : Keeps (Stays d p channels) on_get_location_resp
  unfolding on_get_location_resp
  Stays-on_get_location_resp = search stays_rules depth 24

  pub Stays-on_get_zones_objects :
      (msgtype sender : ℕ) → Keeps (Stays d p channels) (on_get_zones_objects msgtype sender)
  unfolding on_get_zones_objects
  Stays-on_get_zones_objects msgtype sender =
      search (stays_rules, Stays-answer_relayed, Stays-answer_query) depth 24

  pub Stays-on_get_active_zones :
      (sender : ℕ) → Keeps (Stays d p channels) (on_get_active_zones sender)
  unfolding on_get_active_zones
  Stays-on_get_active_zones sender = search (stays_rules, Stays-add_zones) depth 24
