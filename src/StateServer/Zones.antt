-- ===== src/StateServer/Zones.antt =====
-- src/stateserver/DistributedObject.cpp: the children of an object by zone, and the queries of them.
pub mod Children
pub mod Moves
use astron.Base.{
  ℕ, zero, suc, ◌+◌, ◌%◌, ◌^◌, List, [], ◌∷◌, Bool, true, false, ltb, ◌==◌, ◌!=◌, if◌then◌else◌,
  length,
}
use astron.Channels.{parent_to_children}
use astron.Datagram.{Datagram, add_doid, add_zone, add_uint16, add_uint32}
use astron.Datagram.Header.{create}
use astron.Iterator.{read_uint16, read_uint32, read_doid, read_zone}
use astron.StateServer.Messages.{
  object_location_ack, context_wake_children, object_get_zones_objects, object_get_zones_count_resp,
  get_active_zones_resp,
}
use astron.StateServer.Object.{
  DistributedObject, Handler, ◌>>=◌, ◌>>◌, returns, get_self, modify, reads, builds, when,
  route_datagram, insert, erase, ZoneObjects, zone_of, set_zone, erase_zone,
}
use astron.StateServer.Entries.{send_interest_entry, send_location_entry}

-- A child leaves a zone; a zone with no child left is erased.
unfoldable pub remove_child : ℕ → ℕ → ZoneObjects → ZoneObjects
unfolding erase set_zone erase_zone zone_of
remove_child child zone m =
    let children : List ℕ = erase child (zone_of zone m) in
    if length children == 0 then erase_zone zone m else set_zone zone children m

unfoldable pub add_child : ℕ → ℕ → ZoneObjects → ZoneObjects
unfolding insert set_zone zone_of
add_child child zone m = set_zone zone (insert child (zone_of zone m)) m

unfoldable pub acknowledge : ℕ → ℕ → Handler (Unit {0})
unfolding add_child
acknowledge child_id new_zone = do
  modify (λ o. record o { zone_objects = add_child child_id new_zone o.zone_objects })
  self ← get_self
  dg ← builds (create child_id self.do_id object_location_ack)
  dg ← builds (add_doid dg self.do_id)
  dg ← builds (add_zone dg new_zone)
  route_datagram dg

-- The body of CHANGING_LOCATION, with its five arguments read.
unfoldable pub child_moved : ℕ → ℕ → ℕ → ℕ → ℕ → Handler (Unit {0})
unfolding acknowledge remove_child
child_moved child_id new_parent new_zone r_do_id r_zone = do
  self ← get_self
  let leave = modify (λ o. record o { zone_objects = remove_child child_id r_zone o.zone_objects })
  if new_parent == self.do_id
      then if self.do_id == r_do_id
        then if new_zone == r_zone then returns tt else leave >> acknowledge child_id new_zone
        else acknowledge child_id new_zone
      else if r_do_id == self.do_id
      then leave
      else returns tt

unfoldable pub on_changing_location : Handler (Unit {0})
unfolding child_moved
on_changing_location = do
  child_id ← reads read_doid
  new_parent ← reads read_doid
  new_zone ← reads read_zone
  r_do_id ← reads read_doid
  r_zone ← reads read_zone
  child_moved child_id new_parent new_zone r_do_id r_zone

unfoldable pub on_location_ack : Handler (Unit {0})
on_location_ack = do
  r_parent_id ← reads read_doid
  r_zone_id ← reads read_zone
  self ← get_self
  if r_parent_id != self.parent_id
      then returns tt
      else if r_zone_id != self.zone_id
      then returns tt
      else modify (λ o. record o { parent_synchronized = true })

-- The answer of a child to wake_children. A wrong context is read for, and logged with, one more word.
unfoldable pub on_get_location_resp : Handler (Unit {0})
unfolding add_child
on_get_location_resp = do
  context ← reads read_uint32
  if context != context_wake_children then (do logged ← reads read_uint32; returns tt) else (do
    doid ← reads read_doid
    r_parent ← reads read_doid
    r_zone ← reads read_zone
    self ← get_self
    when (r_parent == self.do_id)
        (modify (λ o. record o { zone_objects = add_child doid r_zone o.zone_objects })))

-- A child looks for its own zone among those of the query, and answers if it is there.
unfoldable pub answer_relayed : ℕ → ℕ → ℕ → Handler (Unit {0})
answer_relayed zero sender context = returns tt
answer_relayed (suc n) sender context = do
  zone ← reads read_zone
  self ← get_self
  let rest = answer_relayed n sender context
  if zone == self.zone_id
      then if self.parent_synchronized
        then send_interest_entry sender context
        else send_location_entry sender
      else rest

-- The parent counts its children in the zones and relays the query. m_zone_objects[zone] leaves an
-- empty entry for a zone that is not in the table.
unfoldable pub touch_zone : ℕ → ZoneObjects → ZoneObjects
unfolding set_zone zone_of
touch_zone zone m = set_zone zone (zone_of zone m) m

unfoldable pub count_children : ℕ → ℕ → Datagram → Handler (ℕ × Datagram)
unfolding touch_zone
count_children zero child_count child_dg = returns (child_count, child_dg)
count_children (suc n) child_count child_dg = do
  zone ← reads read_zone
  modify (λ o. record o { zone_objects = touch_zone zone o.zone_objects })
  self ← get_self
  child_dg ← builds (add_zone child_dg zone)
  count_children n ((child_count + length (zone_of zone self.zone_objects)) % 2 ^ 32) child_dg

unfoldable pub answer_query : ℕ → ℕ → ℕ → ℕ → Handler (Unit {0})
unfolding count_children
answer_query zone_count queried_parent sender context = do
  self ← get_self
  dg ← builds (create (parent_to_children self.do_id) sender object_get_zones_objects)
  dg ← builds (add_uint32 dg context)
  dg ← builds (add_doid dg queried_parent)
  dg ← builds (add_uint16 dg zone_count)
  (child_count, child_dg) ← count_children zone_count 0 dg
  count_dg ← builds (create sender self.do_id object_get_zones_count_resp)
  count_dg ← builds (add_uint32 count_dg context)
  count_dg ← builds (add_doid count_dg child_count)
  route_datagram count_dg
  when (ltb 0 child_count) (route_datagram child_dg)

unfoldable pub on_get_zones_objects : ℕ → ℕ → Handler (Unit {0})
unfolding answer_relayed answer_query
on_get_zones_objects msgtype sender = do
  context ← reads read_uint32
  queried_parent ← reads read_doid
  zone_count ← (if msgtype == object_get_zones_objects then reads read_uint16 else returns 1)
  self ← get_self
  if queried_parent == self.parent_id
      then answer_relayed zone_count sender context
      else if queried_parent == self.do_id
      then answer_query zone_count queried_parent sender context
      else returns tt

-- The keys of m_zone_objects.
unfoldable pub active_zones : ZoneObjects → List ℕ
active_zones [] = []
active_zones ((zone, children) ∷ m) = zone ∷ active_zones m

unfoldable pub add_zones : List ℕ → Datagram → Handler Datagram
add_zones [] dg = returns dg
add_zones (zone ∷ zones) dg = builds (add_zone dg zone) >>= add_zones zones

unfoldable pub on_get_active_zones : ℕ → Handler (Unit {0})
unfolding active_zones add_zones
on_get_active_zones sender = do
  context ← reads read_uint32
  self ← get_self
  let zones = active_zones self.zone_objects
  dg ← builds (create sender self.do_id get_active_zones_resp)
  dg ← builds (add_uint32 dg context)
  dg ← builds (add_uint16 dg (length zones))
  dg ← add_zones zones dg
  route_datagram dg
