-- ===== src/StateServer/Object/Maps.antt =====
-- src/stateserver/DistributedObject.h: the std containers that hold an object's fields and children.
use astron.Base.{ℕ, ◌≡◌, refl, List, [], ◌∷◌, ◌++◌, ◌==◌, if◌then◌else◌, arith, ◌||◌}
use astron.Dclass.Class.{Field, get_id}
use astron.StateServer.Object.{
  FieldValues, ZoneObjects, contains, insert, assign, count, value_of, zone_of, set_zone,
}

-- A field that was assigned has the new value; a field with another id has the value it had.
pub value_of-assign :
    (f g : Field) (v : List ℕ) (m : FieldValues)
    → value_of g (assign f v m) ≡ (if get_id f == get_id g then v else value_of g m)
unfolding value_of assign
value_of-assign f g v [] = refl
value_of-assign f g v ((h, w) ∷ m) = ground (arith, value_of-assign f g v m)

pub count-assign :
    (f g : Field) (v : List ℕ) (m : FieldValues)
    → count g (assign f v m) ≡ (get_id f == get_id g || count g m)
unfolding count assign
count-assign f g v [] = ground arith
count-assign f g v ((h, w) ∷ m) = ground (arith, count-assign f g v m)

pub zone_of-set_zone :
    (zone z : ℕ) (children : List ℕ) (m : ZoneObjects)
    → zone_of z (set_zone zone children m) ≡ (if zone == z then children else zone_of z m)
unfolding zone_of set_zone
zone_of-set_zone zone z children [] = refl
zone_of-set_zone zone z children ((y, old) ∷ m) = ground (arith, zone_of-set_zone zone z children m)

contains-append : (x y : ℕ) (xs : List ℕ) → contains y (xs ++ x ∷ []) ≡ (x == y || contains y xs)
unfolding contains
contains-append x y [] = ground arith
contains-append x y (z ∷ xs) = ground (arith, contains-append x y xs)

pub contains-insert : (x y : ℕ) (xs : List ℕ) → contains y (insert x xs) ≡ (x == y || contains y xs)
unfolding contains insert
contains-insert x y xs = ground (arith, contains-append x y xs)
