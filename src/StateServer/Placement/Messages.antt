-- ===== src/StateServer/Placement/Messages.antt =====
-- src/stateserver/DistributedObject.cpp: the place of an object is kept by every message that does not end it.
use astron.Base.{ℕ, List, Bool, if◌then◌else◌, ◌==◌, inl}
use astron.Iterator.{read_channel, read_uint16, read_doid, read_zone}
use astron.StateServer.Object.{Handler, Context}
use astron.StateServer.Object.Keeps.{Keeps, Keeps-returns, Keeps-bind}
use astron.StateServer.Dispatch.{dispatch, handle_datagram, on_set_location}
use astron.StateServer.Messages
use astron.StateServer.Placement.{Stays, Stays-reads}
use astron.StateServer.Placement.Updates.{
  Stays-on_changing_location, Stays-on_location_ack, Stays-on_get_location_resp,
  Stays-on_get_zones_objects, Stays-on_get_active_zones,
}
use astron.StateServer.Placement.Replies.{
  Stays-on_set_field, Stays-on_set_fields, Stays-on_changing_ai, Stays-on_set_ai, Stays-on_get_ai,
  Stays-on_get_ai_resp, Stays-on_get_location, Stays-on_get_all, Stays-on_get_field,
  Stays-on_get_fields, Stays-on_set_owner,
}
use astron.StateServer.Placement.Ended.{
  Settled, Left, Left-Settled, Left-on_delete_ai_objects, Left-on_delete_ram,
  Left-on_delete_children, Ends-if, Ends-later,
}
use astron.StateServer.Placement.Invariant.{
  Ends, IsPlaced, Stays-IsPlaced, handle_location_change-IsPlaced,
}

on_set_location-IsPlaced : (sender : ℕ) → Keeps IsPlaced (on_set_location sender)
unfolding on_set_location
on_set_location-IsPlaced sender =
    Keeps-bind _ _ (Stays-IsPlaced _ (λ d p l. Stays-reads read_doid)) λ new_parent.
      Keeps-bind _ _ (Stays-IsPlaced _ (λ d p l. Stays-reads read_zone))
        λ new_zone. handle_location_change-IsPlaced new_parent new_zone sender

Settled-Keeps : (m : Handler (Unit {0})) → Keeps IsPlaced m → Ends IsPlaced Settled m
Settled-Keeps m k = record { at = λ c h. inl (k.at c h) }

-- A branch that leaves the place alone, or ends the object, before the others.
alone :
    (b : Bool) (m n : Handler (Unit {0}))
    → ((d p : ℕ) (channels : List ℕ) → Keeps (Stays d p channels) m)
    → Ends IsPlaced Settled n
    → Ends IsPlaced Settled (if b then m else n)
alone b m n stays rest = Ends-if b m n (Settled-Keeps m (Stays-IsPlaced m stays)) rest

ends :
    (b : Bool) (m n : Handler (Unit {0}))
    → ((d p : ℕ) (channels : List ℕ) → Ends (Stays d p channels) (Left d p channels) m)
    → Ends IsPlaced Settled n
    → Ends IsPlaced Settled (if b then m else n)
ends b m n left rest = Ends-if b m n (Left-Settled m left) rest

dispatch-Settled : (msgtype sender : ℕ) → Ends IsPlaced Settled (dispatch msgtype sender)
unfolding dispatch
dispatch-Settled msgtype sender =
    ends (msgtype == Messages.delete_ai_objects) _ _ (λ d p l. Left-on_delete_ai_objects sender)
      (ends (msgtype == Messages.object_delete_ram) _ _ (λ d p l. Left-on_delete_ram sender)
        (ends (msgtype == Messages.object_delete_children) _ _
          (λ d p l. Left-on_delete_children sender)
          (alone (msgtype == Messages.object_set_field) _ _ (λ d p l. Stays-on_set_field sender)
            (alone (msgtype == Messages.object_set_fields) _ _ (λ d p l. Stays-on_set_fields sender)
              (alone (msgtype == Messages.object_changing_ai) _ _
                (λ d p l. Stays-on_changing_ai sender)
                (alone (msgtype == Messages.object_set_ai) _ _ (λ d p l. Stays-on_set_ai sender)
                  (alone (msgtype == Messages.object_get_ai) _ _ (λ d p l. Stays-on_get_ai sender)
                    (alone (msgtype == Messages.object_get_ai_resp) _ _
                      (λ d p l. Stays-on_get_ai_resp sender)
                      (alone (msgtype == Messages.object_changing_location) _ _
                        (λ d p l. Stays-on_changing_location)
                        (alone (msgtype == Messages.object_location_ack) _ _
                          (λ d p l. Stays-on_location_ack)
                          (Ends-if (msgtype == Messages.object_set_location) _ _
                            (Settled-Keeps _ (on_set_location-IsPlaced sender))
                            (alone (msgtype == Messages.object_get_location) _ _
                              (λ d p l. Stays-on_get_location sender)
                              (alone (msgtype == Messages.object_get_location_resp) _ _
                                (λ d p l. Stays-on_get_location_resp)
                                (alone (msgtype == Messages.object_get_all) _ _
                                  (λ d p l. Stays-on_get_all sender)
                                  (alone (msgtype == Messages.object_get_field) _ _
                                    (λ d p l. Stays-on_get_field sender)
                                    (alone (msgtype == Messages.object_get_fields) _ _
                                      (λ d p l. Stays-on_get_fields sender)
                                      (alone (msgtype == Messages.object_set_owner) _ _
                                        (λ d p l. Stays-on_set_owner sender)
                                        (alone (msgtype == Messages.object_get_zone_objects) _ _
                                          (λ d p l. Stays-on_get_zones_objects msgtype sender)
                                          (alone (msgtype == Messages.object_get_zones_objects) _ _
                                            (λ d p l. Stays-on_get_zones_objects msgtype sender)
                                            (alone (msgtype == Messages.get_active_zones) _ _
                                              (λ d p l. Stays-on_get_active_zones sender)
                                              (Settled-Keeps _
                                                (Keeps-returns tt))))))))))))))))))))))

handle_datagram-Ends : Ends IsPlaced Settled handle_datagram
unfolding handle_datagram
handle_datagram-Ends =
    Ends-later _ _ (Stays-IsPlaced _ (λ d p l. Stays-reads read_channel)) (λ c h. inl h)
      λ sender.
        Ends-later _ _ (Stays-IsPlaced _ (λ d p l. Stays-reads read_uint16)) (λ c h. inl h)
          λ msgtype. dispatch-Settled msgtype sender

-- An object with an id of 32 bits, that is not its own parent and is subscribed to its own id and the children
-- channel of its parent, if it has one, and to nothing else, is so after any message too, for the parent
-- that it then has, unless the message terminates it; then it is subscribed to nothing. This holds with or
-- without an exception.
pub handle_datagram-Settled : (c : Context) → IsPlaced c → Settled (handle_datagram c).1
handle_datagram-Settled c h = handle_datagram-Ends.at c h
