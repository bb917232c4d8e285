-- ===== src/StateServer/Fields/Stored.antt =====
-- src/stateserver/DistributedObject.cpp: a field that an update stores is what a query finds.
use astron.Base.{
  length, ◌++◌, ◌≤◌, ℕ, ◌≡◌, refl, sym, ap, ◌∙◌, List, Bool, true, false, ◌==◌, ◌||◌, some, arith,
  Bool-cases, inl, inr, eq→==,
}
use mathlib.Core.Path.{subst}
use astron.Base.Result.{Result, ok, err, ◌>>=◌}
use astron.Bytes.{le_bytes}
use astron.Datagram.Memory.{IsValid}
use astron.Datagram.{Datagram, dgsize_max, add_uint16, add_data}
use astron.Datagram.Appending.{Appends, Appends-bind}
use astron.Datagram.Values.{add_uint16-Appends, add_data-Appends}
use astron.Dclass.Class.{
  Class, Field, AtomicField, atomic, get_field_by_id, get_id, has_keyword, as_molecular,
}
use astron.StateServer.Fields.{saved}
use astron.StateServer.Object.{DistributedObject, count}
use astron.StateServer.Object.Maps.{value_of-assign, count-assign}
use astron.StateServer.Query.{add_value, get_atomic, handle_one_get, get_by_id}

id_same : (f : Field) → (get_id f == get_id f) ≡ true
id_same f = eq→== (get_id f) (get_id f) refl

get_atomic-saved :
    (f : Field) (v : List ℕ) (o : DistributedObject) (field_id : ℕ) (unset : Bool) (out : Datagram)
    → (has_keyword f "required" || has_keyword f "ram") ≡ true
    → (has_keyword f "required" ≡ false → count f o.required_fields ≡ false)
    → get_atomic (saved f v o) f field_id unset false out ≡ add_value field_id false v out
unfolding get_atomic add_value saved
get_atomic-saved f v o field_id unset out kept apart =
    elim (Bool-cases (has_keyword f "required")) [
      | inl required ↦ rw required (
          rw
            (
              count-assign f f v o.required_fields,
              value_of-assign f f v o.required_fields,
              id_same f,
            )
            refl)
      | inr plain ↦
          let ram : has_keyword f "ram" ≡ true =
            ap (λ (b : Bool). b || has_keyword f "ram") (sym plain) ∙ kept in
          rw plain (
            rw ram (
              rw
                (
                  apart plain,
                  count-assign f f v o.ram_fields,
                  value_of-assign f f v o.ram_fields,
                  id_same f,
                )
                refl))
    ]

saved-dclass : (f : Field) (v : List ℕ) (o : DistributedObject) → (saved f v o).dclass ≡ o.dclass
unfolding saved
saved-dclass f v o = ground arith

handle_one_get-atomic :
    (a : AtomicField) (o : DistributedObject) (unset : Bool) (out : Datagram)
    → get_field_by_id o.dclass a.id ≡ some (atomic a)
    → handle_one_get o unset a.id out ≡ get_atomic o (atomic a) a.id unset false out
unfolding handle_one_get get_by_id as_molecular
handle_one_get-atomic a o unset out known = cc

-- What a query of a field with a value leaves: success, and the bytes behind the datagram, or an overflow.
abbrev pub Found : Datagram → List ℕ → Result (Bool × Datagram) → Type 0
Found out bytes (ok (success, dg)) = (success ≡ true) × Appends out bytes (ok dg)
Found out bytes (err e) = Appends out bytes (err e)

succeeds :
    (out : Datagram) (bytes : List ℕ) (r : Result Datagram)
    → Appends out bytes r
    → Found out bytes (r >>= λ dg. ok (true, dg))
succeeds out bytes (ok dg) h = (refl, h)
succeeds out bytes (err e) h = h

succeeds-bind :
    (out : Datagram) (bytes : List ℕ) (r : Result Datagram) (f : Datagram → Result Datagram)
    → Appends out bytes (r >>= f)
    → Found out bytes (r >>= λ dg. f dg >>= λ dg'. ok (true, dg'))
succeeds-bind out bytes (ok dg) f h = succeeds out bytes (f dg) h
succeeds-bind out bytes (err e) f h = h

add_value-Found :
    (field_id : ℕ) (v : List ℕ) (out : Datagram)
    → IsValid out
    → length v ≤ dgsize_max
    → Found out (le_bytes 2 field_id ++ v) (add_value field_id false v out)
unfolding add_value
add_value-Found field_id v out valid fits =
    succeeds-bind out _ (add_uint16 out field_id) (λ dg. add_data dg v)
      (Appends-bind out _ _ _ _ (add_uint16-Appends out valid field_id)
        λ dg w. add_data-Appends dg w v fits)

-- After an update of an atomic field that is required or ram, a query of the field succeeds and appends
-- to its answer the id of the field, in two bytes, and the value of the update; or DatagramOverflow is thrown,
-- exactly if these would pass DGSIZE_MAX. The answer so far is a valid datagram, the value has at most
-- DGSIZE_MAX bytes, and a field without the keyword required does not stand among the required values.
pub handle_one_get-Found :
    (a : AtomicField) (v : List ℕ) (o : DistributedObject) (unset : Bool) (out : Datagram)
    → IsValid out
    → length v ≤ dgsize_max
    → get_field_by_id o.dclass a.id ≡ some (atomic a)
    → (has_keyword (atomic a) "required" || has_keyword (atomic a) "ram") ≡ true
    → (has_keyword (atomic a) "required" ≡ false → count (atomic a) o.required_fields ≡ false)
    → Found out (le_bytes 2 a.id ++ v) (handle_one_get (saved (atomic a) v o) unset a.id out)
handle_one_get-Found a v o unset out valid fits known kept apart =
    subst (Found out (le_bytes 2 a.id ++ v))
      (sym (
        handle_one_get-atomic a (saved (atomic a) v o) unset out
          (ap (λ (c : Class). get_field_by_id c a.id) (saved-dclass (atomic a) v o) ∙ known)
        ∙ get_atomic-saved (atomic a) v o a.id unset out kept apart))
      (add_value-Found a.id v out valid fits)
