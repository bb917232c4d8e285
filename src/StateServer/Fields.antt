-- ===== src/StateServer/Fields.antt =====
-- src/stateserver/DistributedObject.cpp: updates and queries of an object's fields.
pub mod Stored
use astron.Base.{
  ℕ, zero, suc, List, [], ◌∷◌, Bool, true, false, not, ◌&&◌, ◌||◌, ◌==◌, ◌!=◌, if◌then◌else◌,
  Option, none, some, length,
}
use astron.Base.Result.{Result, Exception, ok, err, iterator_eof, stuck}
use astron.Channels.{location_as_channel}
use astron.Datagram.{Datagram, add_doid, add_uint16, add_data}
use astron.Datagram.Header.{create_set}
use astron.Dclass.Class.{
  Field, AtomicField, atomic, molecular_field, has_keyword, as_molecular, field_type,
  get_field_by_id, get_id,
}
use astron.Iterator.{read_uint16, seek, tell}
use astron.StateServer.Messages.{object_set_field}
use astron.StateServer.Object.{
  DistributedObject, Context, Handler, and_then, ◌>>=◌, ◌>>◌, returns, get_self, modify, reads,
  builds, when, if_some, route_datagram, assign, count, value_of, insert,
}
use astron.Unpack.{unpack_dtype}

-- A field that is neither required nor ram is not kept.
unfoldable pub saved : Field → List ℕ → DistributedObject → DistributedObject
saved f value o =
    if has_keyword f "required"
    then record o { required_fields = assign f value o.required_fields }
    else if has_keyword f "ram"
    then record o { ram_fields = assign f value o.ram_fields }
    else o

unfoldable pub save_field : Field → List ℕ → Handler (Unit {0})
save_field f value = modify (saved f value)

unfoldable pub caught {ℓ} : {A : Type ℓ} → Result A × Context → Result (Option A) × Context
caught (ok a, c) = (ok (some a), c)
caught (err iterator_eof, c) = (ok none, c)
caught (err e, c) = (err e, c)

-- try { dgi.unpack_field(field, data); } catch(const DatagramIteratorEOF&): `none` if it was caught.
unfoldable pub catch_eof {ℓ} : {A : Type ℓ} → Handler A → Handler (Option A)
unfolding caught
catch_eof m c = caught (m c)

unfoldable pub save_atomics : List AtomicField → Handler (Unit {0})
unfolding save_field
save_atomics [] = returns tt
save_atomics (a ∷ atomics) = do
  value ← reads (unpack_dtype a.type [])
  save_field (atomic a) value
  save_atomics atomics

-- A molecular is read again, one atomic field after the other.
unfoldable pub save_update : Field → ℕ → List ℕ → Handler (Unit {0})
unfolding save_atomics save_field
save_update (molecular_field id keywords atomics) field_start value = do
  reads (seek field_start)
  save_atomics atomics
save_update (atomic a) field_start value = save_field (atomic a) value

unfoldable pub update_targets : Field → ℕ → DistributedObject → List ℕ
unfolding insert
update_targets f sender o =
    let broadcast =
      if has_keyword f "broadcast"
      then insert (location_as_channel o.parent_id o.zone_id) []
      else [] in
    let with_ai =
      if has_keyword f "airecv" && o.ai_channel != 0 && o.ai_channel != sender
      then insert o.ai_channel broadcast
      else broadcast in
    if has_keyword f "ownrecv" && o.owner_channel != 0 && o.owner_channel != sender
    then insert o.owner_channel with_ai
    else with_ai

unfoldable pub relay_update : ℕ → List ℕ → List ℕ → ℕ → Handler (Unit {0})
relay_update field_id value targets sender = when (length targets != 0) (do
  self ← get_self
  dg ← builds (create_set targets sender object_set_field)
  dg ← builds (add_doid dg self.do_id)
  dg ← builds (add_uint16 dg field_id)
  dg ← builds (add_data dg value)
  route_datagram dg)

unfoldable pub update_field : Field → ℕ → ℕ → Handler Bool
unfolding update_targets relay_update
update_field f field_id sender = do
  field_start ← reads (λ dgi. (ok (tell dgi), dgi))
  value ← catch_eof (reads (unpack_dtype (field_type f) []))
  if_some value (returns false) λ bytes. do
    save_update f field_start bytes
    self ← get_self
    relay_update field_id bytes (update_targets f sender self) sender
    returns true

unfoldable pub handle_one_update : ℕ → Handler Bool
unfolding update_field
handle_one_update sender = do
  field_id ← reads read_uint16
  self ← get_self
  if_some (get_field_by_id self.dclass field_id) (returns false) λ f. update_field f field_id sender

-- The loop of SET_FIELDS stops at the first update that fails. Its counter is an int16_t: it cannot wrap
-- before the updates, of two bytes at least, reach the end of the datagram.
unfoldable pub handle_updates : ℕ → ℕ → Handler (Unit {0})
handle_updates zero sender = returns tt
handle_updates (suc n) sender = do
  success ← handle_one_update sender
  when success (handle_updates n sender)
