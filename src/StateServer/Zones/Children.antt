-- ===== src/StateServer/Zones/Children.antt =====
-- src/stateserver/DistributedObject.cpp: the table of the children by zone.
use astron.Base.{
  ℕ, ◌≡◌, refl, sym, ◌∙◌, List, [], ◌∷◌, ◌++◌, true, false, ◌==◌, ◌||◌, ◌&&◌, if◌then◌else◌, arith,
  length, ap, inl, inr, Bool-cases, ==→eq,
}
use astron.StateServer.Object.{ZoneObjects, contains, insert, erase, zone_of, set_zone, erase_zone}
use astron.StateServer.Object.Maps.{zone_of-set_zone, contains-insert}
use astron.StateServer.Zones.{add_child, remove_child, touch_zone, active_zones}

-- No zone stands twice.
unfoldable pub IsZoneTable : ZoneObjects → Type 0
IsZoneTable [] = Unit
IsZoneTable ((zone, children) ∷ m) = (contains zone (active_zones m) ≡ false) × IsZoneTable m

pub add_child-zone_of :
    (child zone z : ℕ) (m : ZoneObjects)
    → zone_of z (add_child child zone m)
      ≡ (if zone == z then insert child (zone_of zone m) else zone_of z m)
unfolding add_child
add_child-zone_of child zone z m = zone_of-set_zone zone z (insert child (zone_of zone m)) m

-- After add_child each zone holds the objects that it held, and the given zone holds the child too.
pub add_child-contains :
    (child zone c z : ℕ) (m : ZoneObjects)
    → contains c (zone_of z (add_child child zone m))
      ≡ ((zone == z && child == c) || contains c (zone_of z m))
unfolding add_child
add_child-contains child zone c z m =
    rw (zone_of-set_zone zone z (insert child (zone_of zone m)) m) (elim (Bool-cases (zone == z)) [
      | inl same ↦ rw same (
          contains-insert child c (zone_of zone m)
          ∙ ap (λ (x : ℕ). child == c || contains c (zone_of x m)) (==→eq zone z same))
      | inr other ↦ rw other refl
    ])

missing :
    (zone : ℕ) (m : ZoneObjects) → contains zone (active_zones m) ≡ false → zone_of zone m ≡ []
unfolding contains active_zones zone_of
missing zone [] h = refl
missing zone ((y, old) ∷ m) h = ground (arith, missing zone m)

zone_of-erase_zone :
    (zone z : ℕ) (m : ZoneObjects)
    → IsZoneTable m
    → zone_of z (erase_zone zone m) ≡ (if zone == z then [] else zone_of z m)
unfolding zone_of erase_zone IsZoneTable
zone_of-erase_zone zone z [] h = ground arith
zone_of-erase_zone zone z ((y, old) ∷ m) (new, h) =
    ground (arith, zone_of-erase_zone zone z m h, missing y m new)

same_zone :
    (child zone z : ℕ) (m : ZoneObjects)
    → (if zone == z then erase child (zone_of zone m) else zone_of z m)
      ≡ (if zone == z then erase child (zone_of z m) else zone_of z m)
same_zone child zone z m = elim (Bool-cases (zone == z)) [
  | inl same ↦ rw same (ap (λ (x : ℕ). erase child (zone_of x m)) (==→eq zone z same))
  | inr other ↦ rw other refl
]

length-zero : (xs : List ℕ) → (length xs == 0) ≡ true → xs ≡ []
length-zero [] h = refl
length-zero (x ∷ xs) h = ground arith

-- After remove_child, in a table without repeated zones, each zone holds what it held, less the child
-- in the child's zone.
pub remove_child-zone_of :
    (child zone z : ℕ) (m : ZoneObjects)
    → IsZoneTable m
    → zone_of z (remove_child child zone m)
      ≡ (if zone == z then erase child (zone_of z m) else zone_of z m)
unfolding remove_child
remove_child-zone_of child zone z m h =
    elim (Bool-cases (length (erase child (zone_of zone m)) == 0)) [
      | inl last ↦ rw last (
          zone_of-erase_zone zone z m h
          ∙ ap (λ (l : List ℕ). if zone == z then l else zone_of z m) (sym (length-zero _ last))
          ∙ same_zone child zone z m)
      | inr more ↦
          rw more
            (zone_of-set_zone zone z (erase child (zone_of zone m)) m ∙ same_zone child zone z m)
    ]

active_zones-set_zone :
    (zone : ℕ) (children : List ℕ) (m : ZoneObjects)
    → contains zone (active_zones m) ≡ false
    → active_zones (set_zone zone children m) ≡ active_zones m ++ zone ∷ []
unfolding active_zones set_zone contains
active_zones-set_zone zone children [] h = refl
active_zones-set_zone zone children ((y, old) ∷ m) h =
    ground (arith, active_zones-set_zone zone children m)

-- If a query names a zone that is not in the table, the zone is then in the table, behind the others.
pub touch_zone-active_zones :
    (zone : ℕ) (m : ZoneObjects)
    → contains zone (active_zones m) ≡ false
    → active_zones (touch_zone zone m) ≡ active_zones m ++ zone ∷ []
unfolding touch_zone active_zones
touch_zone-active_zones zone m h = active_zones-set_zone zone (zone_of zone m) m h
