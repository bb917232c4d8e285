-- ===== src/DbStateServer/Handlers.antt =====
-- src/stateserver/DBStateServer.cpp: the handlers of the messages for inactive objects.
use astron.Base.{
  ℕ, zero, suc, ◌+◌, ◌%◌, ◌^◌, List, [], ◌∷◌, ◌++◌, Bool, true, not, ◌&&◌, ◌||◌, ◌==◌,
  if◌then◌else◌, Option, none, some, length,
}
use astron.Base.Result.{Result, ok}
use astron.Base.Action.{returns, modify, lift, ◌>>=◌, ◌>>◌}
use astron.Base.Table.{find_key, has_key, set_key, erase_key}
use astron.Channels.{location_as_channel}
use astron.Datagram.{Datagram, add_data, add_bool, add_uint16, add_uint32}
use astron.Datagram.Header.{create}
use astron.Dclass.Class.{Field, get_id, has_keyword, field_type}
use astron.Iterator as I
use astron.Iterator.{
  DatagramIterator, Reader, iterate, read_bool, read_channel, read_uint16, read_uint32, read_doid,
  read_zone, read_remainder, get_msg_type, seek_payload, skip,
}
use astron.StateServer.Messages as SM
use astron.StateServer.Object.{DistributedObject, FieldValues, assign, value_of, insert}
use astron.DbStateServer.Messages as DM
use astron.DbStateServer.State.{
  DbStateServer, DbHandler, reads, route, is_loading, is_activated_object, take_context,
  put_response, unless, put_response,
}
use astron.Unpack.{unpack_dtype, skip_dtype}

-- The channels that hear of the deletion of an active object: location, AI and owner, unless they are 0.
unfoldable pub add_target : ℕ → List ℕ → List ℕ
unfolding insert
add_target channel targets = if channel == 0 then targets else insert channel targets

unfoldable pub delete_targets : DistributedObject → List ℕ
unfolding add_target
delete_targets o =
    add_target o.owner_channel
      (add_target o.ai_channel (add_target (location_as_channel o.parent_id o.zone_id) []))

unfoldable pub handle_get_activated : ℕ → DbHandler (Unit {0})
unfolding is_loading
handle_get_activated sender = do
  context ← reads read_uint32
  do_id ← reads read_doid
  unless (is_loading do_id)
      λ s. route (DM.activated_response sender do_id context (has_key do_id s.objs)) s

abbrev pub broadcast_delete : ℕ → ℕ → Option DistributedObject → DbHandler (Unit {0})
broadcast_delete sender do_id none = returns tt
broadcast_delete sender do_id (some o) = route (DM.delete_broadcast (delete_targets o) sender do_id)

-- `fields` is g_dcf->get_field_by_id. The values of the fields in the database, or none at an unknown field. The
-- value of a field that comes again is appended to the one before.
unfoldable pub read_values : (ℕ → Option Field) → ℕ → FieldValues → Reader (Option FieldValues)
unfolding value_of assign
read_values fields zero values = I.returns (some values)
read_values fields (suc n) values = I.◌>>=◌ read_uint16 λ field_id. elim (fields field_id) [
  | none ↦ I.returns none
  | some f ↦
      if has_keyword f "db"
      then (I.◌>>=◌ (unpack_dtype (field_type f) (value_of f values))
          λ value. read_values fields n (assign f value values))
      else (I.◌>>=◌ (skip_dtype (field_type f)) λ _. read_values fields n values)
]

-- The response that a query of the database will complete, if its type is as expected.
abbrev pub stored : ℕ → DbStateServer → Option Datagram
stored context s = find_key context s.context_datagrams

unfoldable pub forget_context : ℕ → DbStateServer → DbStateServer
forget_context context s = record s { context_datagrams = erase_key context s.context_datagrams }

unfoldable pub response_type : Datagram → Result ℕ
response_type dg = (I.and_then (iterate dg 0) (λ _. get_msg_type)).0

-- is_expected_context, the removal of the response and the check of its type.
abbrev pub expects :
    ℕ → (ℕ → Datagram → DbHandler (Unit {0})) → Option Datagram → ℕ → DbHandler (Unit {0})
expects message_type complete none context = returns tt
expects message_type complete (some dg) context = do
  modify (forget_context context)
  resp_type ← lift (response_type dg)
  if resp_type == message_type then complete context dg else returns tt

unfoldable pub with_response : ℕ → (ℕ → Datagram → DbHandler (Unit {0})) → DbHandler (Unit {0})
unfolding forget_context response_type find_key
with_response message_type complete = do
  context ← reads read_uint32
  λ s. expects message_type complete (stored context s) context s

unfoldable pub handle_get_field_resp : DbHandler (Unit {0})
unfolding with_response
handle_get_field_resp =
    with_response SM.object_get_field_resp
      λ context dg. do payload ← reads read_remainder; route (add_data dg payload)

unfoldable pub handle_get_fields_resp : DbHandler (Unit {0})
unfolding with_response
handle_get_fields_resp = with_response SM.object_get_fields_resp λ context dg. do
  success ← reads read_bool
  if success
      then (do _ ← reads read_uint16; payload ← reads read_remainder; route (add_data dg payload))
      else route (ok dg)

-- m_inactive_loads[do_id].
unfoldable pub contexts_of : ℕ → List (ℕ × List ℕ) → List ℕ
contexts_of do_id [] = []
contexts_of do_id ((id, contexts) ∷ loads) =
    if id == do_id then contexts else contexts_of do_id loads

-- m_inactive_loads[do_id].insert(context).
unfoldable pub put_load : ℕ → ℕ → DbStateServer → DbStateServer
unfolding contexts_of insert set_key
put_load do_id context s = record s {
  inactive_loads =
      set_key do_id (insert context (contexts_of do_id s.inactive_loads)) s.inactive_loads;
}

module _ (db_channel : ℕ) where
  unfoldable pub handle_delete_disk : ℕ → DbHandler (Unit {0})
  unfolding is_loading find_key
  handle_delete_disk sender = do
    do_id ← reads read_doid
    unless (is_loading do_id) (
        (λ s. broadcast_delete sender do_id (find_key do_id s.objs) s)
        >> route (DM.delete_message db_channel do_id))

  unfoldable pub handle_get_all : ℕ → DbHandler (Unit {0})
  unfolding is_activated_object take_context put_response put_load
  handle_get_all sender = do
    r_context ← reads read_uint32
    do_id ← reads read_doid
    unless (is_activated_object do_id) (do
      db_context ← take_context
      response ← lift (DM.get_all_response sender do_id r_context)
      modify (put_response db_context response)
      modify (put_load do_id db_context)
      route (DM.db_get_all_message db_channel do_id db_context))

  -- `fields` is g_dcf->get_field_by_id.
  module _ (fields : ℕ → Option Field) where
    abbrev pub set_known_field : ℕ → ℕ → Option Field → DbHandler (Unit {0})
    set_known_field do_id field_id none = returns tt
    set_known_field do_id field_id (some f) =
        if has_keyword f "db"
        then (reads read_remainder >>= λ value.
            route (DM.set_field_message db_channel do_id field_id value))
        else returns tt

    unfoldable pub handle_set_field : DbHandler (Unit {0})
    unfolding is_loading
    handle_set_field = do
      do_id ← reads read_doid
      unless (is_loading do_id)
          (do field_id ← reads read_uint16; set_known_field do_id field_id (fields field_id))

    abbrev pub set_read_fields : ℕ → Option FieldValues → DbHandler (Unit {0})
    set_read_fields do_id none = returns tt
    set_read_fields do_id (some []) = returns tt
    set_read_fields do_id (some (v ∷ values)) =
        route (DM.set_fields_message db_channel do_id (v ∷ values))

    unfoldable pub handle_set_fields : DbHandler (Unit {0})
    unfolding is_loading read_values
    handle_set_fields = do
      do_id ← reads read_doid
      unless (is_loading do_id) (do
        field_count ← reads read_uint16
        values ← reads (read_values fields field_count [])
        set_read_fields do_id values)

    -- The members m_has_default_value and m_default_value of a field.
    module _ (has_default_value : Field → Bool) (default_value : Field → List ℕ) where
      abbrev pub is_stored : Field → Bool
      is_stored f = has_keyword f "required" || has_keyword f "ram"

      unfoldable pub query_field : ℕ → ℕ → ℕ → ℕ → DbHandler (Unit {0})
      unfolding take_context put_response
      query_field sender r_context do_id field_id = do
        db_context ← take_context
        response ← lift (DM.create_with_context sender do_id SM.object_get_field_resp r_context)
        modify (put_response db_context response)
        route (DM.db_get_field_message db_channel do_id db_context field_id)

      abbrev pub get_known_field : ℕ → ℕ → ℕ → ℕ → Option Field → DbHandler (Unit {0})
      get_known_field sender r_context do_id field_id none =
          route (DM.get_field_failure sender do_id r_context)
      get_known_field sender r_context do_id field_id (some f) =
          if not (is_stored f)
          then route (DM.get_field_failure sender do_id r_context)
          else if has_keyword f "db"
          then query_field sender r_context do_id field_id
          else if has_default_value f
          then route (DM.get_field_default sender do_id r_context field_id (default_value f))
          else route (DM.get_field_failure sender do_id r_context)

      unfoldable pub handle_get_field : ℕ → DbHandler (Unit {0})
      unfolding is_activated_object query_field
      handle_get_field sender = do
        r_context ← reads read_uint32
        do_id ← reads read_doid
        field_id ← reads read_uint16
        unless (is_activated_object do_id)
            (get_known_field sender r_context do_id field_id (fields field_id))

      -- The requested fields: those in the database, and the others with their defaults. An unknown field
      -- is answered at once, and the loop goes on.
      unfoldable pub read_requested :
          ℕ → ℕ → ℕ → ℕ → List Field → FieldValues → DbHandler (List Field × FieldValues)
      read_requested sender do_id r_context zero db_fields ram_fields =
          returns (db_fields, ram_fields)
      read_requested sender do_id r_context (suc n) db_fields ram_fields =
          reads read_uint16 >>= λ field_id. elim (fields field_id) [
            | none ↦
                route (DM.get_fields_failure sender do_id r_context)
                >> read_requested sender do_id r_context n db_fields ram_fields
            | some f ↦
                read_requested sender do_id r_context n
                  (if is_stored f && has_keyword f "db" then db_fields ++ f ∷ [] else db_fields)
                  (if is_stored f && not (has_keyword f "db")
                    then ram_fields ++ (f, default_value f) ∷ []
                    else ram_fields)
          ]

      -- An add_<value> on the response that is kept for a context.
      abbrev pub amended : ℕ → (Datagram → Result Datagram) → Option Datagram → DbHandler (Unit {0})
      amended context f none = returns tt
      amended context f (some dg) = lift (f dg) >>= λ dg'. modify (put_response context dg')

      unfoldable pub amend : ℕ → (Datagram → Result Datagram) → DbHandler (Unit {0})
      unfolding find_key put_response
      amend context f = λ s. amended context f (find_key context s.context_datagrams) s

      unfoldable pub amend_values : ℕ → FieldValues → DbHandler (Unit {0})
      unfolding amend
      amend_values context [] = returns tt
      amend_values context ((f, value) ∷ values) =
          amend context (λ dg. add_uint16 dg (get_id f))
          >> amend context (λ dg. add_data dg value)
          >> amend_values context values

      -- A response that is there already is kept.
      unfoldable pub prepare : ℕ → Result Datagram → DbHandler (Unit {0})
      unfolding has_key put_response
      prepare context response =
          unless (λ s. has_key context s.context_datagrams)
            (lift response >>= λ dg. modify (put_response context dg))

      unfoldable pub query_fields : ℕ → ℕ → ℕ → List Field → FieldValues → DbHandler (Unit {0})
      unfolding take_context prepare amend amend_values
      query_fields sender r_context do_id db_fields ram_fields = do
        db_context ← take_context
        prepare db_context (create sender do_id SM.object_get_fields_resp)
        amend db_context (λ dg. add_uint32 dg r_context)
        amend db_context (λ dg. add_bool dg true)
        amend db_context (λ dg. add_uint16 dg ((length ram_fields + length db_fields) % 2 ^ 16))
        amend_values db_context ram_fields
        route (DM.db_get_fields_message db_channel do_id db_context db_fields)

      abbrev pub answer_fields : ℕ → ℕ → ℕ → List Field × FieldValues → DbHandler (Unit {0})
      answer_fields sender r_context do_id ([], ram_fields) =
          route (DM.get_fields_response sender do_id r_context (length ram_fields) ram_fields)
      answer_fields sender r_context do_id (f ∷ db_fields, ram_fields) =
          query_fields sender r_context do_id (f ∷ db_fields) ram_fields

      unfoldable pub handle_get_fields : ℕ → DbHandler (Unit {0})
      unfolding is_activated_object read_requested query_fields
      handle_get_fields sender = do
        r_context ← reads read_uint32
        do_id ← reads read_doid
        field_count ← reads read_uint16
        unless (is_activated_object do_id) (do
          requested ← read_requested sender do_id r_context field_count [] []
          answer_fields sender r_context do_id requested)
