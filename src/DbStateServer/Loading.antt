-- ===== src/DbStateServer/Loading.antt =====
-- src/stateserver/DBStateServer.cpp and LoadingObject.cpp: activation, and the objects that are being loaded.
use astron.Base.{
  ℕ, zero, suc, List, [], ◌∷◌, ◌&&◌, ◌==◌, ltb, if◌then◌else◌, Option, none, some, length,
}
use astron.Base.Result.{Result, fault}
use astron.Base.Action.{returns, throws, modify, lift, ◌>>=◌, ◌>>◌}
use astron.Base.Table.{set_key, erase_key}
use astron.Datagram.{Datagram}
use astron.Dclass.Class.{Field, Class, has_keyword, field_type, get_field_by_id}
use astron.Iterator as I
use astron.Iterator.{
  DatagramIterator, Reader, iterate, read_bool, read_channel, read_uint16, read_uint32, read_doid,
  read_zone, seek_payload, skip,
}
use astron.StateServer.Entries.{is_atomic}
use astron.StateServer.Messages as SM
use astron.StateServer.Object.{FieldValues, assign, count, value_of, erase}
use astron.DbStateServer.Messages as DM
use astron.DbStateServer.State.{DbStateServer, DbHandler, reads, route}
use astron.DbStateServer.Handlers.{with_response, contexts_of}
use astron.Unpack.{unpack_dtype, skip_dtype}

-- unpack_db_fields: the required and the ram fields, or none at an unknown field.
unfoldable pub unpack_db_fields :
    Class → ℕ → FieldValues → FieldValues → Reader (Option (FieldValues × FieldValues))
unfolding value_of assign
unpack_db_fields c zero required ram = I.returns (some (required, ram))
unpack_db_fields c (suc n) required ram = I.◌>>=◌ read_uint16 λ field_id.
    elim (get_field_by_id c field_id) [
      | none ↦ I.returns none
      | some f ↦
          if has_keyword f "required"
          then (I.◌>>=◌ (unpack_dtype (field_type f) (value_of f required))
              λ value. unpack_db_fields c n (assign f value required) ram)
          else (if has_keyword f "ram"
              then (I.◌>>=◌ (unpack_dtype (field_type f) (value_of f ram))
                  λ value. unpack_db_fields c n required (assign f value ram))
              else (I.◌>>=◌ (skip_dtype (field_type f)) λ _. unpack_db_fields c n required ram))
    ]

-- What a null class leads to: its first use is an access of a null pointer.
unfoldable pub use_null_class : DbHandler (Unit {0})
use_null_class = do
  field_count ← reads read_uint16
  if field_count == 0 then throws fault else reads read_uint16 >> throws fault

-- handle_get_all_resp: the id that is read back from the prepared response, 12 bytes behind its receivers.
unfoldable pub cached_do_id : Datagram → Result ℕ
cached_do_id dg =
    (I.and_then (iterate dg 0) λ _. I.◌>>=◌ (I.◌>>◌ seek_payload (skip 12)) λ _. read_doid).0

-- The context leaves m_inactive_loads[do_id], or the entry goes with its last context.
unfoldable pub forget_load : ℕ → ℕ → DbStateServer → DbStateServer
unfolding contexts_of set_key erase_key erase
forget_load do_id context s = record s {
  inactive_loads =
      if ltb 1 (length (contexts_of do_id s.inactive_loads))
      then set_key do_id (erase context (contexts_of do_id s.inactive_loads)) s.inactive_loads
      else erase_key do_id s.inactive_loads;
}

module _ (classes : ℕ → Option Class) (default_value : Field → List ℕ) where
  unfoldable pub required_values : List Field → FieldValues → List (List ℕ)
  unfolding is_atomic
  required_values [] required = []
  required_values (f ∷ fs) required =
      let rest : List (List ℕ) = required_values fs required in
      if is_atomic f && has_keyword f "required"
      then (if count f required then value_of f required else default_value f) ∷ rest
      else rest

  abbrev pub send_object :
      Datagram → Class → Option (FieldValues × FieldValues) → DbHandler (Unit {0})
  send_object dg c none = returns tt
  send_object dg c (some (required, ram)) =
      route (DM.add_object dg c.id (required_values c.fields required) ram)

  abbrev pub get_all_class : Datagram → Option Class → DbHandler (Unit {0})
  get_all_class dg none = use_null_class
  get_all_class dg (some c) = do
    field_count ← reads read_uint16
    values ← reads (unpack_db_fields c field_count [] [])
    send_object dg c values

  unfoldable pub get_all_found : Datagram → ℕ → DbHandler (Unit {0})
  unfolding use_null_class required_values unpack_db_fields
  get_all_found dg dc_id = if dc_id == 0 then returns tt else get_all_class dg (classes dc_id)

  unfoldable pub handle_get_all_resp : DbHandler (Unit {0})
  unfolding with_response cached_do_id forget_load get_all_found
  handle_get_all_resp = with_response SM.object_get_all_resp λ db_context dg. do
    do_id ← lift (cached_do_id dg)
    modify (forget_load do_id db_context)
    found ← reads read_bool
    if found then reads read_uint16 >>= get_all_found dg else returns tt
