-- ===== src/DbStateServer/Activation.antt =====
-- src/stateserver/DBStateServer.cpp and LoadingObject.cpp: activation, the switch of the messages, and the end of
-- loading.
use astron.Base.{
  ℕ, List, [], ◌∷◌, ◌++◌, Bool, true, false, not, ◌&&◌, ◌||◌, ◌==◌, ◌!=◌, leb, if◌then◌else◌,
  Option, none, some,
}
use astron.Base.Result.{ok}
use astron.Base.Action.{proceed, returns, modify, lift, ◌>>=◌, ◌>>◌}
use astron.Base.Table.{find_key, set_key, erase_key}
use astron.Datagram.{Datagram}
use astron.Dclass.Class.{Field, Class}
use astron.Iterator.{read_bool, read_channel, read_uint16, read_uint32, read_doid, read_zone}
use astron.StateServer.Messages as SM
use astron.StateServer.Object.{FieldValues, routed, terminated, contains}
use astron.StateServer.Server.{new_object, construct_loaded}
use astron.DbStateServer.Messages as DM
use astron.DbStateServer.State.{
  LoadingObject, DbHandler, by_loader, reads, emit, is_activated_object, unless,
}
use astron.DbStateServer.Handlers.{
  handle_get_activated, handle_delete_disk, handle_set_field, handle_set_fields, handle_get_field,
  handle_get_field_resp, handle_get_fields, handle_get_fields_resp, handle_get_all,
}
use astron.DbStateServer.Loading.{unpack_db_fields, handle_get_all_resp}
use astron.DbStateServer.Loader.{
  read_updates, set_loading, construct, by_effects, skipping, at_payload, replay_datagrams,
  merge_fields,
}

module _ (db_channel : ℕ) (classes : ℕ → Option Class) (num_types : ℕ) (fields : ℕ → Option Field)
    (has_default_value : Field → Bool) (default_value : Field → List ℕ) where
  -- LoadingObject::begin, which is called for an object with no valid contexts.
  unfoldable pub begin : ℕ → ℕ → DbHandler (Unit {0})
  begin do_id context = lift (DM.db_get_all_message db_channel do_id context) >>= λ dg.
      emit (by_loader do_id (routed dg))

  -- With the contexts of a load that is under way the request is not sent again.
  abbrev pub start_loading :
      ℕ → ℕ → ℕ → Option Class → DbHandler FieldValues → Option (List ℕ) → DbHandler (Unit {0})
  start_loading do_id parent_id zone_id dclass read none = do
    l ← construct do_id parent_id zone_id dclass [] read
    set_loading do_id l
    begin do_id l.context
  start_loading do_id parent_id zone_id dclass read (some contexts) = do
    l ← construct do_id parent_id zone_id dclass contexts read
    set_loading do_id l

  unfoldable pub activate : ℕ → ℕ → ℕ → Bool → DbHandler (Unit {0})
  unfolding begin construct set_loading find_key read_updates
  activate do_id parent_id zone_id false = λ s.
      start_loading do_id parent_id zone_id none (returns []) (find_key do_id s.inactive_loads) s
  activate do_id parent_id zone_id true = do
    dc_id ← reads read_uint16
    if leb num_types dc_id then returns tt else (λ s.
        start_loading do_id parent_id zone_id (classes dc_id)
          (reads read_uint16 >>= λ field_count. read_updates (classes dc_id) field_count [])
          (find_key do_id s.inactive_loads) s)

  unfoldable pub handle_activate : Bool → DbHandler (Unit {0})
  unfolding activate is_activated_object
  handle_activate has_other = do
    do_id ← reads read_doid
    parent_id ← reads read_doid
    zone_id ← reads read_zone
    unless (is_activated_object do_id) (activate do_id parent_id zone_id has_other)

  -- The switch of DBStateServer::handle_datagram.
  unfoldable pub serve : ℕ → ℕ → DbHandler (Unit {0})
  unfolding handle_activate handle_delete_disk handle_set_field handle_set_fields handle_get_field
      handle_get_field_resp handle_get_fields handle_get_fields_resp handle_get_all
      handle_get_all_resp handle_get_activated
  serve sender msgtype =
      if msgtype == DM.dbss_activate_with_defaults
      then handle_activate false
      else if msgtype == DM.dbss_activate_with_defaults_other
      then handle_activate true
      else if msgtype == DM.dbss_delete_disk
      then handle_delete_disk db_channel sender
      else if msgtype == SM.object_set_field
      then handle_set_field db_channel fields
      else if msgtype == SM.object_set_fields
      then handle_set_fields db_channel fields
      else if msgtype == SM.object_get_field
      then handle_get_field db_channel fields has_default_value default_value sender
      else if msgtype == DM.dbserver_get_field_resp
      then handle_get_field_resp
      else if msgtype == SM.object_get_fields
      then handle_get_fields db_channel fields has_default_value default_value sender
      else if msgtype == DM.dbserver_get_fields_resp
      then handle_get_fields_resp
      else if msgtype == SM.object_get_all
      then handle_get_all db_channel sender
      else if msgtype == DM.dbserver_get_all_resp
      then handle_get_all_resp classes default_value
      else if msgtype == DM.dbss_get_activated
      then handle_get_activated sender
      else returns tt

  unfoldable pub handle_datagram : DbHandler (Unit {0})
  unfolding serve
  handle_datagram = do
    sender ← reads read_channel
    msgtype ← reads read_uint16
    serve sender msgtype

  unfoldable pub forward_datagrams : List Datagram → DbHandler (Unit {0})
  unfolding handle_datagram
  forward_datagrams [] = returns tt
  forward_datagrams (dg ∷ dgs) =
      (λ s. skipping ((at_payload dg >> handle_datagram) s)) >> forward_datagrams dgs

  -- discard_loader, forward_datagrams and terminate.
  unfoldable pub finalize : ℕ → List Datagram → DbHandler (Unit {0})
  unfolding erase_key forward_datagrams
  finalize do_id queue = do
    modify (λ s. record s { loading = erase_key do_id s.loading })
    forward_datagrams queue
    emit (by_loader do_id terminated)

  -- The object's constructor, and receive_object.
  unfoldable pub create_object :
      ℕ → LoadingObject → Class → FieldValues × FieldValues → DbHandler (Unit {0})
  unfolding new_object construct_loaded set_key
  create_object do_id l c (required, ram) s =
      let (r, after) = construct_loaded db_channel l.parent_id l.zone_id (record {
        self = record (new_object do_id c) { required_fields = required; ram_fields = ram };
        dgi = s.dgi;
        effects = [];
      }) in
      proceed (r, record s { effects = s.effects ++ by_effects do_id after.effects })
        λ _ s'. (ok tt, record s' { objs = set_key do_id after.self s'.objs })

  abbrev pub with_fields :
      ℕ → LoadingObject → Class → Option (FieldValues × FieldValues) → DbHandler (Unit {0})
  with_fields do_id l c none = finalize do_id l.datagram_queue
  with_fields do_id l c (some (required, ram)) = do
    create_object do_id l c (merge_fields default_value l.field_updates c.fields required ram)
    replay_datagrams do_id l.datagram_queue
    finalize do_id l.datagram_queue

  abbrev pub differs : Option Class → Class → Bool
  differs none c = false
  differs (some d) c = d.id != c.id

  abbrev pub with_class : ℕ → LoadingObject → Option Class → DbHandler (Unit {0})
  with_class do_id l none = finalize do_id l.datagram_queue
  with_class do_id l (some c) = if differs l.dclass c then finalize do_id l.datagram_queue else (do
    field_count ← reads read_uint16
    values ← reads (unpack_db_fields c field_count [] [])
    with_fields do_id l c values)

  -- LoadingObject: DBSERVER_OBJECT_GET_ALL_RESP.
  unfoldable pub receive_fields : ℕ → LoadingObject → DbHandler (Unit {0})
  unfolding finalize create_object merge_fields replay_datagrams unpack_db_fields
  receive_fields do_id l = do
    found ← reads read_bool
    if found
        then (reads read_uint16 >>= λ dc_id. with_class do_id l (classes dc_id))
        else finalize do_id l.datagram_queue

  unfoldable pub on_get_all_resp : ℕ → LoadingObject → DbHandler (Unit {0})
  unfolding receive_fields contains set_loading
  on_get_all_resp do_id l = if l.is_loaded then returns tt else (do
    db_context ← reads read_uint32
    if db_context != l.context && not (contains db_context l.valid_contexts)
        then returns tt
        else (set_loading do_id (record l { is_loaded = true }) >> receive_fields do_id l))

  -- LoadingObject::handle_datagram, of the loading object of an id.
  unfoldable pub handle_loading : ℕ → LoadingObject → Datagram → DbHandler (Unit {0})
  unfolding on_get_all_resp set_loading
  handle_loading do_id l in_dg = do
    _ ← reads read_channel
    msgtype ← reads read_uint16
    if msgtype == DM.dbserver_get_all_resp
        then on_get_all_resp do_id l
        else if msgtype == DM.dbss_activate_with_defaults
            || msgtype == DM.dbss_activate_with_defaults_other
        then returns tt
        else set_loading do_id (record l { datagram_queue = l.datagram_queue ++ in_dg ∷ [] })
