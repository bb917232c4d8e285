-- ===== src/DbStateServer/Loaded.antt =====
-- src/stateserver/LoadingObject.cpp: the end of loading leaves the loader's object active or not, never both
-- active and loading.
use astron.Base.{
  ℕ, ◌≡◌, List, [], ◌∷◌, ◌++◌, Bool, true, not, ◌&&◌, ◌||◌, ◌==◌, ◌!=◌, Option, none, some, arith,
}
use astron.Base.Result.{Result, ok, err}
use astron.Base.Action.{proceed}
use astron.Base.Table.{has_key, set_key, erase_key}
use astron.Datagram.{Datagram}
use astron.Dclass.Class.{Field, Class}
use astron.Iterator.{read_channel, read_uint16, read_uint32, read_bool}
use astron.StateServer.Object.{DistributedObject, FieldValues, terminated, contains}
use astron.StateServer.Server.{new_object, construct_loaded}
use astron.DbStateServer.Messages as DM
use astron.DbStateServer.State.{LoadingObject, DbStateServer, DbHandler, by_loader, reads}
use astron.DbStateServer.Loader.{set_loading, by_effects}
use astron.DbStateServer.Loading.{unpack_db_fields}
use astron.DbStateServer.Activation.{
  forward_datagrams, finalize, create_object, with_fields, differs, with_class, receive_fields,
  on_get_all_resp, handle_loading,
}
use astron.DbStateServer.Keeps.{Keeps, Keeps-returns, Keeps-reads, Keeps-emit, Keeps-bind}
use astron.DbStateServer.Apart.{Apart, Free, Keeps-set_loading, handle_datagram-Apart}
use astron.DbStateServer.Others.{
  Others, Others-Apart, Loaded, Loaded-Apart, Loads, Loads-if, Loads-bind, Keeps-skipping,
  Keeps-at_payload, set_key-Others, erase_key-Apart, Keeps-replay,
}

module _ (db_channel : ℕ) (classes : ℕ → Option Class) (num_types : ℕ) (fields : ℕ → Option Field)
    (has_default_value : Field → Bool) (default_value : Field → List ℕ) (do_id : ℕ) where
  Keeps-create_object :
      (l : LoadingObject) (c : Class) (values : FieldValues × FieldValues)
      → Keeps (Others do_id) (
          create_object db_channel classes num_types fields has_default_value default_value do_id l
            c values)
  unfolding create_object
  Keeps-create_object l c (required, ram) = record {
    at = λ s h.
        let (r, after) = construct_loaded db_channel l.parent_id l.zone_id (record {
          self = record (new_object do_id c) { required_fields = required; ram_fields = ram };
          dgi = s.dgi;
          effects = [];
        }) in
        created r after.self (record s { effects = s.effects ++ by_effects do_id after.effects }) h;
  }
    where
      created :
          (r : Result (Unit {0})) (o : DistributedObject) (s : DbStateServer)
          → Others do_id s.objs s.loading
          → let t : Result (Unit {0}) × DbStateServer =
              proceed (r, s) (λ _ s'. (ok tt, record s' { objs = set_key do_id o s'.objs })) in
            Others do_id t.1.objs t.1.loading
      created (ok a) o s h = set_key-Others do_id o s.objs s.loading h
      created (err e) o s h = h

  Keeps-forward :
      (dgs : List Datagram)
      → Keeps Apart (
          forward_datagrams db_channel classes num_types fields has_default_value default_value dgs)
  unfolding forward_datagrams
  Keeps-forward [] = Keeps-returns tt
  Keeps-forward (dg ∷ dgs) =
      Keeps-bind _ _
        (Keeps-skipping _ (
          Keeps-bind _ _ (Keeps-at_payload dg) λ _. record {
            at =
                handle_datagram-Apart db_channel classes num_types fields has_default_value
                  default_value;
          }))
        (λ _. Keeps-forward dgs)

  Loads-finalize :
      (queue : List Datagram)
      → Loads do_id
          (Others do_id)
          (finalize db_channel classes num_types fields has_default_value default_value do_id queue)
  unfolding finalize
  Loads-finalize queue = record {
    at = λ s h. Loaded-Apart do_id _ (
        (Keeps-bind _ _ (Keeps-forward queue) (λ _. Keeps-emit (by_loader do_id terminated))).at
          (record s { loading = erase_key do_id s.loading })
          (erase_key-Apart do_id s.objs s.loading h));
  }

  abbrev next :
      {A : Type 0} (m : DbHandler A) (f : A → DbHandler (Unit {0}))
      → Keeps (Others do_id) m
      → ((a : A) → Loads do_id (Others do_id) (f a))
      → Loads do_id (Others do_id) (λ s. proceed (m s) f)
  next m f = Loads-bind do_id (Others do_id) m f (λ objs loading h. h)

  Loads-with_fields :
      (l : LoadingObject) (c : Class) (values : Option (FieldValues × FieldValues))
      → Loads do_id (Others do_id) (
          with_fields db_channel classes num_types fields has_default_value default_value do_id l c
            values)
  Loads-with_fields l c none = Loads-finalize l.datagram_queue
  Loads-with_fields l c (some (required, ram)) =
      next _ _ (Keeps-create_object l c _)
        λ _. next _ _ (Keeps-replay do_id l.datagram_queue) (λ _. Loads-finalize l.datagram_queue)

  Loads-with_class :
      (l : LoadingObject) (c : Option Class)
      → Loads do_id
          (Others do_id)
          (with_class db_channel classes num_types fields has_default_value default_value do_id l c)
  Loads-with_class l none = Loads-finalize l.datagram_queue
  Loads-with_class l (some c) =
      Loads-if do_id (Others do_id)
        (differs db_channel classes num_types fields has_default_value default_value l.dclass c) _ _
        (Loads-finalize l.datagram_queue)
        (next (reads read_uint16) _ (Keeps-reads read_uint16) λ field_count.
          next (reads (unpack_db_fields c field_count [] [])) _ (Keeps-reads _)
            (λ values. Loads-with_fields l c values))

  Loads-receive_fields :
      (l : LoadingObject)
      → Loads do_id (Others do_id) (
          receive_fields db_channel classes num_types fields has_default_value default_value do_id
            l)
  unfolding receive_fields
  Loads-receive_fields l = next (reads read_bool) _ (Keeps-reads read_bool) λ found.
      Loads-if do_id (Others do_id) found _ _
        (next (reads read_uint16) _ (Keeps-reads read_uint16)
          (λ dc_id. Loads-with_class l (classes dc_id)))
        (Loads-finalize l.datagram_queue)

  -- Until the answer comes, the object is not active.
  Free-Others :
      (objs : List (ℕ × DistributedObject)) (loading : List (ℕ × LoadingObject))
      → Free do_id objs loading
      → Others do_id objs loading
  Free-Others objs loading h = Others-Apart do_id objs loading (h.0)

  Loads-Free : (m : DbHandler (Unit {0})) → Keeps (Free do_id) m → Loads do_id (Free do_id) m
  Loads-Free m k = record { at = λ s h. Loaded-Apart do_id (m s) ((k.at s h).0) }

  abbrev first :
      {A : Type 0} (m : DbHandler A) (f : A → DbHandler (Unit {0}))
      → Keeps (Free do_id) m
      → ((a : A) → Loads do_id (Free do_id) (f a))
      → Loads do_id (Free do_id) (λ s. proceed (m s) f)
  first m f = Loads-bind do_id (Free do_id) m f Free-Others

  Loads-weaker :
      (m : DbHandler (Unit {0})) → Loads do_id (Others do_id) m → Loads do_id (Free do_id) m
  Loads-weaker m k = record { at = λ s h. k.at s (Free-Others s.objs s.loading h) }

  Loads-on_get_all_resp :
      (l : LoadingObject)
      → Loads do_id (Free do_id) (
          on_get_all_resp db_channel classes num_types fields has_default_value default_value do_id
            l)
  unfolding on_get_all_resp
  Loads-on_get_all_resp l =
      Loads-if do_id (Free do_id) l.is_loaded _ _ (Loads-Free _ (Keeps-returns tt)) (
        first (reads read_uint32) _ (Keeps-reads read_uint32) λ db_context.
          Loads-if do_id (Free do_id)
            (db_context != l.context && not (contains db_context l.valid_contexts)) _ _
            (Loads-Free _ (Keeps-returns tt))
            (first (set_loading do_id (record l { is_loaded = true })) _ (Keeps-set_loading do_id _)
              (λ _. Loads-weaker _ (Loads-receive_fields l))))

  Loads-handle_loading :
      (l : LoadingObject) (in_dg : Datagram)
      → Loads do_id (Free do_id) (
          handle_loading db_channel classes num_types fields has_default_value default_value do_id l
            in_dg)
  unfolding handle_loading
  Loads-handle_loading l in_dg = first (reads read_channel) _ (Keeps-reads read_channel) λ _.
      first (reads read_uint16) _ (Keeps-reads read_uint16) λ msgtype.
        Loads-if do_id (Free do_id) (msgtype == DM.dbserver_get_all_resp) _ _
          (Loads-on_get_all_resp l)
          (Loads-if do_id (Free do_id)
            (msgtype == DM.dbss_activate_with_defaults
              || msgtype == DM.dbss_activate_with_defaults_other)
            _ _ (Loads-Free _ (Keeps-returns tt)) (Loads-Free _ (Keeps-set_loading do_id _)))

  -- If no object is active and loading at once, and this one is loading, then after its loading object has
  -- handled any message, also the one that makes the object active, again none is, if the handler returns. If
  -- an exception ends it, for instance in the constructor of the object or while its messages are replayed,
  -- no object but this one is.
  pub handle_loading-Loaded :
      (l : LoadingObject) (in_dg : Datagram) (s : DbStateServer)
      → Apart s.objs s.loading
      → has_key do_id s.loading ≡ true
      → Loaded do_id (
          handle_loading db_channel classes num_types fields has_default_value default_value do_id l
            in_dg s)
  handle_loading-Loaded l in_dg s apart loads =
      (Loads-handle_loading l in_dg).at s (apart, ground (arith, apart do_id, loads))
