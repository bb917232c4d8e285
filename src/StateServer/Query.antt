-- ===== src/StateServer/Query.antt =====
-- src/stateserver/DistributedObject.cpp: handle_one_get, the packed value of a field by its id.
use astron.Base.{ℕ, zero, suc, List, [], ◌∷◌, Bool, true, false, if◌then◌else◌, none, some}
use astron.Base.Result.{Result, ok, err, stuck, ◌>>=◌}
use astron.Datagram.{Datagram, add_uint16, add_data}
use astron.Dclass.Class.{Field, AtomicField, as_molecular, get_field_by_id}
use astron.StateServer.Object.{DistributedObject, count, value_of}

-- The id, unless the field is part of a molecular, and the value.
unfoldable pub add_value : ℕ → Bool → List ℕ → Datagram → Result (Bool × Datagram)
add_value field_id is_subfield value out = do
  out ← (if is_subfield then ok out else add_uint16 out field_id)
  out ← add_data out value
  ok (true, out)

-- A field that is no molecular; without a value, the result is `succeed_if_unset`.
unfoldable pub get_atomic :
    DistributedObject → Field → ℕ → Bool → Bool → Datagram → Result (Bool × Datagram)
unfolding add_value
get_atomic o f field_id succeed_if_unset is_subfield out =
    if count f o.required_fields
    then add_value field_id is_subfield (value_of f o.required_fields) out
    else if count f o.ram_fields
    then add_value field_id is_subfield (value_of f o.ram_fields) out
    else ok (succeed_if_unset, out)

-- The loop over the fields of a molecular; `get` is the recursive call.
unfoldable pub get_atomics :
    (ℕ → Datagram → Result (Bool × Datagram))
    → List AtomicField
    → Datagram
    → Result (Bool × Datagram)
get_atomics get [] out = ok (true, out)
get_atomics get (a ∷ atomics) out = do
  (success, out) ← get a.id out
  elim success [ true ↦ get_atomics get atomics out | false ↦ ok (false, out) ]

-- The recursion is by field id. Its depth is bounded: the fields of a molecular are no moleculars.
unfoldable pub get_by_id :
    ℕ → DistributedObject → Bool → Bool → ℕ → Datagram → Result (Bool × Datagram)
unfolding get_atomic get_atomics
get_by_id zero o succeed_if_unset is_subfield field_id out = err stuck
get_by_id (suc depth) o succeed_if_unset is_subfield field_id out =
    elim (get_field_by_id o.dclass field_id) [
      | none ↦ ok (false, out)
      | some f ↦ elim (as_molecular f) [
        | none ↦ get_atomic o f field_id succeed_if_unset is_subfield out
        | some atomics ↦ do
          out ← add_uint16 out field_id
          get_atomics (get_by_id depth o succeed_if_unset true) atomics out
      ]
    ]

unfoldable pub handle_one_get : DistributedObject → Bool → ℕ → Datagram → Result (Bool × Datagram)
unfolding get_by_id
handle_one_get o succeed_if_unset field_id out = get_by_id 2 o succeed_if_unset false field_id out
