-- ===== src/StateServer/Location.antt =====
-- src/stateserver/DistributedObject.cpp: the object's place in the tree, its AI, and its end.
use astron.Base.{ℕ, ◌+◌, ◌%◌, ◌^◌, List, [], ◌∷◌, Bool, true, false, not, ◌==◌, ◌!=◌, if◌then◌else◌}
use astron.Channels.{location_as_channel, parent_to_children, invalid_do_id}
use astron.Datagram.{add_doid, add_location, add_uint32, add_channel}
use astron.Datagram.Header.{create, create_set}
use astron.StateServer.Messages.{
  object_get_ai, object_changing_location, object_changing_ai, object_delete_ram,
  object_delete_children, object_get_location, context_wake_children,
}
use astron.StateServer.Object.{
  Handler, ◌>>=◌, ◌>>◌, returns, get_self, modify, emit, builds, when, route_datagram,
  subscribe_channel, unsubscribe_channel, insert, erased, terminated, ZoneObjects,
}
use astron.StateServer.Entries.{send_location_entry, send_ai_entry}

-- if(channel) targets.insert(channel).
unfoldable pub notify : ℕ → List ℕ → List ℕ
unfolding insert
notify channel targets = if channel != 0 then insert channel targets else targets

-- The messages after the move, to the old and the new surroundings.
unfoldable pub announce_location : ℕ → ℕ → ℕ → ℕ → List ℕ → ℕ → Handler (Unit {0})
announce_location old_parent old_zone new_parent new_zone targets sender = do
  self ← get_self
  dg ← builds (create_set targets sender object_changing_location)
  dg ← builds (add_doid dg self.do_id)
  dg ← builds (add_location dg new_parent new_zone)
  dg ← builds (add_location dg old_parent old_zone)
  route_datagram dg
  modify (λ o. record o { parent_synchronized = false })
  when (new_parent != 0) (send_location_entry (location_as_channel new_parent new_zone))

-- Leaving the old parent; its channels join the targets.
unfoldable pub leave_parent : ℕ → ℕ → List ℕ → Handler (List ℕ)
unfolding insert
leave_parent old_parent old_zone targets =
    if old_parent != 0
    then (do
      unsubscribe_channel (parent_to_children old_parent)
      returns (insert (location_as_channel old_parent old_zone) (insert old_parent targets)))
    else returns targets

-- GET_AI, to the new parent.
unfoldable pub ask_ai : ℕ → Handler (Unit {0})
ask_ai new_parent = do
  self ← get_self
  dg ← builds (create new_parent self.do_id object_get_ai)
  modify (λ o. record o { next_context = (o.next_context + 1) % 2 ^ 32 })
  dg ← builds (add_uint32 dg self.next_context)
  route_datagram dg

unfoldable pub enter_parent : ℕ → List ℕ → Handler (List ℕ)
unfolding insert
enter_parent new_parent targets = do
  self ← get_self
  if new_parent != 0
      then (do
        subscribe_channel (parent_to_children new_parent)
        when (not self.ai_explicitly_set) (ask_ai new_parent)
        returns (insert new_parent targets))
      else (do
        when (not self.ai_explicitly_set) (modify (λ o. record o { ai_channel = 0 }))
        returns targets)

unfoldable pub handle_location_change : ℕ → ℕ → ℕ → Handler (Unit {0})
unfolding notify leave_parent ask_ai enter_parent
handle_location_change new_parent new_zone sender = do
  self ← get_self
  let old_parent = self.parent_id
  let old_zone = self.zone_id
  let targets = notify self.owner_channel (notify self.ai_channel [])
  if new_parent == self.do_id
      then returns tt
      else if new_parent != old_parent
      then (do
        targets ← leave_parent old_parent old_zone targets
        modify (λ o. record o { parent_id = new_parent; zone_id = new_zone })
        targets ← enter_parent new_parent targets
        announce_location old_parent old_zone new_parent new_zone targets sender)
      else if new_zone != old_zone
      then (do
        modify (λ o. record o { zone_id = new_zone })
        announce_location old_parent old_zone new_parent new_zone
            (insert (location_as_channel old_parent old_zone) (insert old_parent targets)) sender)
      else returns tt

unfoldable pub has_children : ZoneObjects → Bool
has_children [] = false
has_children (entry ∷ m) = true

unfoldable pub handle_ai_change : ℕ → ℕ → Bool → Handler (Unit {0})
unfolding notify has_children
handle_ai_change new_ai sender channel_is_explicit = do
  self ← get_self
  let old_ai = self.ai_channel
  if new_ai == old_ai then returns tt else (do
    let targets = notify old_ai []
    let targets =
        if has_children self.zone_objects
        then insert (parent_to_children self.do_id) targets
        else targets
    modify (λ o. record o { ai_channel = new_ai; ai_explicitly_set = channel_is_explicit })
    dg ← builds (create_set targets sender object_changing_ai)
    dg ← builds (add_doid dg self.do_id)
    dg ← builds (add_channel dg new_ai)
    dg ← builds (add_channel dg old_ai)
    route_datagram dg
    when (new_ai != 0) (send_ai_entry new_ai))

unfoldable pub delete_children : ℕ → Handler (Unit {0})
unfolding has_children
delete_children sender = do
  self ← get_self
  when (has_children self.zone_objects) (do
    dg ← builds (create (parent_to_children self.do_id) sender object_delete_children)
    dg ← builds (add_doid dg self.do_id)
    route_datagram dg)

-- CHANGING_LOCATION to nowhere, for the parent.
unfoldable pub leave_on_delete : ℕ → Handler (Unit {0})
leave_on_delete sender = do
  self ← get_self
  dg ← builds (create self.parent_id sender object_changing_location)
  dg ← builds (add_doid dg self.do_id)
  dg ← builds (add_location dg invalid_do_id 0)
  dg ← builds (add_location dg self.parent_id self.zone_id)
  route_datagram dg

unfoldable pub annihilate : ℕ → Bool → Handler (Unit {0})
unfolding notify leave_on_delete
annihilate sender notify_parent = do
  self ← get_self
  let location =
      if self.parent_id != 0
      then insert (location_as_channel self.parent_id self.zone_id) []
      else []
  when (self.parent_id != 0) (when notify_parent (leave_on_delete sender))
  let targets = notify self.ai_channel (notify self.owner_channel location)
  dg ← builds (create_set targets sender object_delete_ram)
  dg ← builds (add_doid dg self.do_id)
  route_datagram dg
  delete_children sender
  emit (erased self.do_id)
  emit terminated

unfoldable pub wake_children : Handler (Unit {0})
wake_children = do
  self ← get_self
  dg ← builds (create (parent_to_children self.do_id) self.do_id object_get_location)
  dg ← builds (add_uint32 dg context_wake_children)
  route_datagram dg
