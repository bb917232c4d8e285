-- ===== src/StateServer/Dispatch.antt =====
-- src/stateserver/DistributedObject.cpp: DistributedObject::handle_datagram.
pub mod Explicit
use astron.Base.{
  ℕ, zero, suc, ◌+◌, ◌%◌, ◌^◌, List, [], ◌∷◌, Bool, true, false, not, ltb, ◌==◌, ◌!=◌,
  if◌then◌else◌,
}
use astron.Datagram.{
  Datagram, empty, size, add_doid, add_location, add_uint16, add_uint32, add_channel, add_bool,
  add_data_of,
}
use astron.Datagram.Header.{create}
use astron.Iterator.{read_uint16, read_uint32, read_doid, read_zone, read_channel}
use astron.StateServer.Messages
use astron.StateServer.Object.{
  Handler, ◌>>=◌, ◌>>◌, returns, get_self, modify, reads, builds, when, route_datagram,
}
use astron.StateServer.Entries.{append_required_data, append_other_data, send_owner_entry}
use astron.StateServer.Location.{
  handle_location_change, handle_ai_change, annihilate, delete_children,
}
use astron.StateServer.Fields.{handle_one_update, handle_updates}
use astron.StateServer.Query.{handle_one_get}
use astron.StateServer.Zones.{
  on_changing_location, on_location_ack, on_get_location_resp, on_get_zones_objects,
  on_get_active_zones,
}

unfoldable pub on_delete_ai_objects : ℕ → Handler (Unit {0})
on_delete_ai_objects sender = do
  self ← get_self
  channel ← reads read_channel
  if self.ai_channel != channel then returns tt else annihilate sender true

unfoldable pub on_delete_ram : ℕ → Handler (Unit {0})
on_delete_ram sender = do
  self ← get_self
  doid ← reads read_doid
  if self.do_id != doid then returns tt else annihilate sender true

unfoldable pub on_delete_children : ℕ → Handler (Unit {0})
on_delete_children sender = do
  r_do_id ← reads read_doid
  self ← get_self
  if r_do_id == self.do_id
      then delete_children sender
      else if r_do_id == self.parent_id
      then annihilate sender false
      else returns tt

unfoldable pub on_set_field : ℕ → Handler (Unit {0})
on_set_field sender = do
  self ← get_self
  doid ← reads read_doid
  if self.do_id != doid then returns tt else (do success ← handle_one_update sender; returns tt)

unfoldable pub on_set_fields : ℕ → Handler (Unit {0})
on_set_fields sender = do
  self ← get_self
  doid ← reads read_doid
  if self.do_id != doid
      then returns tt
      else (do field_count ← reads read_uint16; handle_updates field_count sender)

-- CHANGING_AI from the parent, and its answer to GET_AI.
unfoldable pub on_changing_ai : ℕ → Handler (Unit {0})
on_changing_ai sender = do
  r_parent_id ← reads read_doid
  new_channel ← reads read_channel
  self ← get_self
  if r_parent_id != self.parent_id
      then returns tt
      else when (not self.ai_explicitly_set) (handle_ai_change new_channel sender false)

unfoldable pub on_set_ai : ℕ → Handler (Unit {0})
on_set_ai sender = do new_channel ← reads read_channel; handle_ai_change new_channel sender true

unfoldable pub on_get_ai : ℕ → Handler (Unit {0})
on_get_ai sender = do
  self ← get_self
  dg ← builds (create sender self.do_id Messages.object_get_ai_resp)
  context ← reads read_uint32
  dg ← builds (add_uint32 dg context)
  dg ← builds (add_doid dg self.do_id)
  dg ← builds (add_channel dg self.ai_channel)
  route_datagram dg

unfoldable pub on_get_ai_resp : ℕ → Handler (Unit {0})
on_get_ai_resp sender = do
  context ← reads read_uint32
  r_parent_id ← reads read_doid
  self ← get_self
  if r_parent_id != self.parent_id then returns tt else (do
    new_ai ← reads read_channel
    when (not self.ai_explicitly_set) (handle_ai_change new_ai sender false))

unfoldable pub on_set_location : ℕ → Handler (Unit {0})
on_set_location sender = do
  new_parent ← reads read_doid
  new_zone ← reads read_zone
  handle_location_change new_parent new_zone sender

unfoldable pub on_get_location : ℕ → Handler (Unit {0})
on_get_location sender = do
  context ← reads read_uint32
  self ← get_self
  dg ← builds (create sender self.do_id Messages.object_get_location_resp)
  dg ← builds (add_uint32 dg context)
  dg ← builds (add_doid dg self.do_id)
  dg ← builds (add_location dg self.parent_id self.zone_id)
  route_datagram dg

unfoldable pub on_get_all : ℕ → Handler (Unit {0})
on_get_all sender = do
  context ← reads read_uint32
  doid ← reads read_doid
  self ← get_self
  if doid != self.do_id then returns tt else (do
    dg ← builds (create sender self.do_id Messages.object_get_all_resp)
    dg ← builds (add_uint32 dg context)
    dg ← append_required_data dg false false
    dg ← append_other_data dg false false
    route_datagram dg)

unfoldable pub on_get_field : ℕ → Handler (Unit {0})
on_get_field sender = do
  context ← reads read_uint32
  doid ← reads read_doid
  self ← get_self
  if doid != self.do_id then returns tt else (do
    field_id ← reads read_uint16
    (success, raw_field) ← builds (handle_one_get self false field_id empty)
    dg ← builds (create sender self.do_id Messages.object_get_field_resp)
    dg ← builds (add_uint32 dg context)
    dg ← builds (add_bool dg success)
    dg ← (if success then builds (add_data_of dg raw_field) else returns dg)
    route_datagram dg)

-- std::set<uint16_t>::insert: in order, and once.
unfoldable pub insert_sorted : ℕ → List ℕ → List ℕ
insert_sorted x [] = x ∷ []
insert_sorted x (y ∷ ys) =
    if y == x then y ∷ ys else if ltb x y then x ∷ y ∷ ys else y ∷ insert_sorted x ys

unfoldable pub read_requested : ℕ → List ℕ → Handler (List ℕ)
unfolding insert_sorted
read_requested zero requested = returns requested
read_requested (suc n) requested = do
  field_id ← reads read_uint16
  read_requested n (insert_sorted field_id requested)

-- success, fields_found and raw_fields.
unfoldable pub get_requested : List ℕ → ℕ → Datagram → Handler (Bool × ℕ × Datagram)
get_requested [] found raw = returns (true, found, raw)
get_requested (field_id ∷ ids) found raw = do
  self ← get_self
  (success, raw') ← builds (handle_one_get self true field_id raw)
  let found' : ℕ = if ltb (size raw) (size raw') then (found + 1) % 2 ^ 16 else found
  if success then get_requested ids found' raw' else returns (false, found, raw')

unfoldable pub on_get_fields : ℕ → Handler (Unit {0})
unfolding read_requested get_requested
on_get_fields sender = do
  context ← reads read_uint32
  doid ← reads read_doid
  self ← get_self
  if doid != self.do_id then returns tt else (do
    field_count ← reads read_uint16
    requested ← read_requested field_count []
    (success, fields_found, raw_fields) ← get_requested requested 0 empty
    dg ← builds (create sender self.do_id Messages.object_get_fields_resp)
    dg ← builds (add_uint32 dg context)
    dg ← builds (add_bool dg success)
    dg ←
        (if success
          then (do dg ← builds (add_uint16 dg fields_found); builds (add_data_of dg raw_fields))
          else returns dg)
    route_datagram dg)

-- CHANGING_OWNER, to the owner that goes.
unfoldable pub announce_owner : ℕ → ℕ → ℕ → Handler (Unit {0})
announce_owner old_owner new_owner sender = do
  self ← get_self
  dg ← builds (create old_owner sender Messages.object_changing_owner)
  dg ← builds (add_doid dg self.do_id)
  dg ← builds (add_channel dg new_owner)
  dg ← builds (add_channel dg old_owner)
  route_datagram dg

unfoldable pub handle_owner_change : ℕ → ℕ → Handler (Unit {0})
unfolding announce_owner
handle_owner_change new_owner sender = do
  self ← get_self
  if new_owner == self.owner_channel then returns tt else (do
    when (self.owner_channel != 0) (announce_owner self.owner_channel new_owner sender)
    modify (λ o. record o { owner_channel = new_owner })
    when (new_owner != 0) (send_owner_entry new_owner))

unfoldable pub on_set_owner : ℕ → Handler (Unit {0})
unfolding handle_owner_change
on_set_owner sender = do new_owner ← reads read_channel; handle_owner_change new_owner sender

-- The switch over msgtype; any other type is logged.
unfoldable pub dispatch : ℕ → ℕ → Handler (Unit {0})
dispatch msgtype sender =
    if msgtype == Messages.delete_ai_objects
    then on_delete_ai_objects sender
    else if msgtype == Messages.object_delete_ram
    then on_delete_ram sender
    else if msgtype == Messages.object_delete_children
    then on_delete_children sender
    else if msgtype == Messages.object_set_field
    then on_set_field sender
    else if msgtype == Messages.object_set_fields
    then on_set_fields sender
    else if msgtype == Messages.object_changing_ai
    then on_changing_ai sender
    else if msgtype == Messages.object_set_ai
    then on_set_ai sender
    else if msgtype == Messages.object_get_ai
    then on_get_ai sender
    else if msgtype == Messages.object_get_ai_resp
    then on_get_ai_resp sender
    else if msgtype == Messages.object_changing_location
    then on_changing_location
    else if msgtype == Messages.object_location_ack
    then on_location_ack
    else if msgtype == Messages.object_set_location
    then on_set_location sender
    else if msgtype == Messages.object_get_location
    then on_get_location sender
    else if msgtype == Messages.object_get_location_resp
    then on_get_location_resp
    else if msgtype == Messages.object_get_all
    then on_get_all sender
    else if msgtype == Messages.object_get_field
    then on_get_field sender
    else if msgtype == Messages.object_get_fields
    then on_get_fields sender
    else if msgtype == Messages.object_set_owner
    then on_set_owner sender
    else if msgtype == Messages.object_get_zone_objects
    then on_get_zones_objects msgtype sender
    else if msgtype == Messages.object_get_zones_objects
    then on_get_zones_objects msgtype sender
    else if msgtype == Messages.get_active_zones
    then on_get_active_zones sender
    else returns tt

unfoldable pub handle_datagram : Handler (Unit {0})
handle_datagram = do
  sender ← reads read_channel
  msgtype ← reads read_uint16
  dispatch msgtype sender
