-- ===== src/StateServer/Zones/Moves.antt =====
-- src/stateserver/DistributedObject.cpp: what CHANGING_LOCATION does to the parent's table of children.
use astron.Base.{ℕ, ◌≡◌, refl, ap, ◌∙◌, true, false, ◌==◌, if◌then◌else◌, arith, eq→==}
use astron.Datagram.{Datagram}
use astron.StateServer.Object.{
  Context, ◌>>=◌, modify, emit, route_datagram, ZoneObjects, insert, erase, zone_of,
}
use astron.StateServer.Object.Keeps.{Keeps, Keeps-builds, Keeps-get_self, Keeps-bind}
use astron.StateServer.Placement.Invariant.{Leads, Ends, Ends-bind, Keeps-Ends}
use astron.StateServer.Zones.{add_child, remove_child, acknowledge, child_moved}
use astron.StateServer.Zones.Children.{IsZoneTable, remove_child-zone_of, add_child-zone_of}
use mathlib.Core.Logic.{◌≢◌}

-- The table of the children, as given.
record HasZones (d : ℕ) (m : ZoneObjects) (c : Context) : Type 0 where
  id : c.self.do_id ≡ d
  zones : c.self.zone_objects ≡ m

HasZones-route :
    {d : ℕ} {m : ZoneObjects} (dg : Datagram) → Keeps (HasZones d m) (route_datagram dg)
unfolding route_datagram emit
HasZones-route dg = record { at = λ c h. record { id = h.id; zones = h.zones } }

module _ (d : ℕ) (m : ZoneObjects) where
  update-Leads :
      (f : ZoneObjects → ZoneObjects)
      → Leads
          (HasZones d m)
          (HasZones d (f m))
          (modify λ o. record o { zone_objects = f o.zone_objects })
  unfolding modify
  update-Leads f = record { at = λ c h. (tt, refl, record { id = h.id; zones = ap f h.zones }) }

  acknowledge-Ends :
      (child zone : ℕ)
      → Ends (HasZones d m) (HasZones d (add_child child zone m)) (acknowledge child zone)
  unfolding acknowledge
  acknowledge-Ends child zone = Ends-bind _ _ (update-Leads (add_child child zone)) λ _.
      Keeps-Ends _ (
        Keeps-bind _ _ Keeps-get_self λ self. Keeps-bind _ _ (Keeps-builds _) λ _.
          Keeps-bind _ _ (Keeps-builds _)
            λ _. Keeps-bind _ _ (Keeps-builds _) λ dg. HasZones-route dg)

-- The move of a child to another zone of the same parent.
same_parent-Ends :
    (d : ℕ) (m : ZoneObjects) (child new_zone r_zone : ℕ)
    → Ends (HasZones d m) (HasZones d (add_child child new_zone (remove_child child r_zone m))) (
        (modify λ o. record o { zone_objects = remove_child child r_zone o.zone_objects }) >>= λ _.
        acknowledge child new_zone)
same_parent-Ends d m child new_zone r_zone =
    Ends-bind _ _ (update-Leads d m (remove_child child r_zone))
      λ _. acknowledge-Ends d (remove_child child r_zone m) child new_zone

child_moved-zones :
    (child new_zone r_zone : ℕ) (c : Context)
    → new_zone ≢ r_zone
    → (child_moved child c.self.do_id new_zone c.self.do_id r_zone c).1.self.zone_objects
      ≡ add_child child new_zone (remove_child child r_zone c.self.zone_objects)
unfolding child_moved ◌>>=◌
child_moved-zones child new_zone r_zone c moves =
    let same : (c.self.do_id == c.self.do_id) ≡ true = eq→== _ _ refl in
    let other : (new_zone == r_zone) ≡ false = grind (arith, moves) in
    rw same (
      rw other (
        ((same_parent-Ends c.self.do_id c.self.zone_objects child new_zone r_zone).at c
          (record { id = refl; zones = refl })).zones))

-- When an object, whose table of children has no zone twice, is told that a child moved from one of its zones to
-- another one, then each zone holds what it held, with the child put into the new zone and taken out
-- of the old one; with or without an exception in the answer.
pub child_moved-zone_of :
    (child new_zone r_zone z : ℕ) (c : Context)
    → IsZoneTable c.self.zone_objects
    → new_zone ≢ r_zone
    → zone_of z (child_moved child c.self.do_id new_zone c.self.do_id r_zone c).1.self.zone_objects
      ≡ (if new_zone == z
          then insert child (zone_of new_zone c.self.zone_objects)
          else if r_zone == z
          then erase child (zone_of z c.self.zone_objects)
          else zone_of z c.self.zone_objects)
child_moved-zone_of child new_zone r_zone z c table moves =
    let other : (r_zone == new_zone) ≡ false = grind (arith, moves) in
    rw (child_moved-zones child new_zone r_zone c moves) (
      add_child-zone_of child new_zone z (remove_child child r_zone c.self.zone_objects)
      ∙ rw
          (
            remove_child-zone_of child r_zone z c.self.zone_objects table,
            remove_child-zone_of child r_zone new_zone c.self.zone_objects table,
            other,
          )
          refl)
