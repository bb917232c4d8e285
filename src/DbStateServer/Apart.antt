-- ===== src/DbStateServer/Apart.antt =====
-- src/stateserver/DBStateServer.cpp: no object is active and loading at once.
use astron.Base.{
  ℕ, zero, suc, ◌≡◌, refl, sym, ap, ◌∙◌, List, [], Bool, true, false, ◌&&◌, ◌||◌, ◌==◌, leb,
  if◌then◌else◌, Option, none, some, inl, inr, Bool-cases, ==→eq,
}
use astron.Base.Action.{returns, lift, ◌>>=◌}
use astron.Base.Table.{find_key, has_key, has_key-set_key}
use astron.Dclass.Class.{Field, Class, has_keyword, field_type, get_field_by_id}
use astron.Iterator.{read_channel, read_uint16, read_doid, read_zone}
use astron.StateServer.Messages as SM
use astron.StateServer.Object.{FieldValues, value_of, assign, subscribed}
use astron.DbStateServer.Messages as DM
use astron.DbStateServer.State.{
  LoadingObject, DbStateServer, DbHandler, by_loader, reads, emit, is_loading, is_activated_object,
  take_context, unless,
}
use astron.DbStateServer.Loader.{read_updates, set_loading, construct}
use astron.DbStateServer.Activation.{
  begin, start_loading, activate, handle_activate, serve, handle_datagram,
}
use astron.DbStateServer.Keeps.{
  Tables, Keeps, Keeps-returns, Keeps-lift, Keeps-reads, Keeps-emit, Keeps-take_context, Keeps-bind,
  Keeps-if, Keeps-state,
}
use astron.Unpack.{unpack_dtype}
use astron.DbStateServer.Activated.{
  Keeps-read, Keeps-get_activated, Keeps-delete_disk, Keeps-get_field_resp, Keeps-get_fields_resp,
  Keeps-get_all,
}
use astron.DbStateServer.Updated.{
  Keeps-set_field, Keeps-set_fields, Keeps-get_field, Keeps-get_fields, Keeps-get_all_resp,
}

-- No id is in both tables.
abbrev pub Apart : Tables
Apart objs loading = (id : ℕ) → (has_key id objs && has_key id loading) ≡ false

-- While an object is made for an id that is not active.
abbrev pub Free : ℕ → Tables
Free do_id objs loading = Apart objs loading × (has_key do_id objs ≡ false)

Keeps-updates :
    {Q : Tables} (dcc : Option Class) (n : ℕ) (updates : FieldValues)
    → Keeps Q (read_updates dcc n updates)
unfolding read_updates
Keeps-updates dcc zero updates = Keeps-returns updates
Keeps-updates none (suc n) updates =
    Keeps-bind (reads read_uint16) _ (Keeps-reads read_uint16) (λ _. record { at = λ s q. q })
Keeps-updates {Q} (some c) (suc n) updates =
    Keeps-bind (reads read_uint16) _ (Keeps-reads read_uint16)
      λ field_id. of_field (get_field_by_id c field_id) (Keeps-updates (some c) n)
  where
    of_field :
        (o : Option Field)
        → ((u : FieldValues) → Keeps Q (read_updates (some c) n u))
        → Keeps Q (elim o [
          | none ↦ returns updates
          | some f ↦
              if has_keyword f "ram" || has_keyword f "required"
              then (reads (unpack_dtype (field_type f) (value_of f updates)) >>= λ value.
                  read_updates (some c) n (assign f value updates))
              else read_updates (some c) n updates
        ])
    of_field none ih = Keeps-returns updates
    of_field (some f) ih =
        Keeps-if (has_keyword f "ram" || has_keyword f "required") _ _
          (Keeps-bind (reads (unpack_dtype (field_type f) (value_of f updates))) _ (Keeps-reads _)
            (λ value. ih _))
          (ih updates)

Keeps-construct :
    {Q : Tables} (do_id parent_id zone_id : ℕ) (dclass : Option Class) (contexts : List ℕ)
    (read : DbHandler FieldValues)
    → Keeps Q read
    → Keeps Q (construct do_id parent_id zone_id dclass contexts read)
unfolding construct
Keeps-construct do_id parent_id zone_id dclass contexts read h =
    Keeps-bind take_context _ Keeps-take_context λ context.
      Keeps-bind (emit (by_loader do_id (subscribed do_id))) _ (Keeps-emit _)
        λ _. Keeps-bind read _ h (λ updates. Keeps-returns _)

pub Keeps-set_loading : (do_id : ℕ) (l : LoadingObject) → Keeps (Free do_id) (set_loading do_id l)
unfolding set_loading
Keeps-set_loading do_id l = record {
  at = λ s (apart, free). (
    (λ id. elim (Bool-cases (do_id == id)) [
      | inr other ↦ rw (has_key-set_key do_id id l s.loading, other) (apart id)
      | inl same ↦
          let none_there : has_key id s.objs ≡ false =
            ap (λ (x : ℕ). has_key x s.objs) (sym (==→eq do_id id same)) ∙ free in
          rw none_there refl
    ]),
    free,
  );
}

module _ (db_channel : ℕ) (classes : ℕ → Option Class) (num_types : ℕ) (fields : ℕ → Option Field)
    (has_default_value : Field → Bool) (default_value : Field → List ℕ) where
  Keeps-start :
      (do_id parent_id zone_id : ℕ) (dclass : Option Class) (read : DbHandler FieldValues)
      (o : Option (List ℕ))
      → Keeps (Free do_id) read
      → Keeps (Free do_id) (
          start_loading db_channel classes num_types fields has_default_value default_value do_id
            parent_id zone_id dclass read o)
  unfolding begin
  Keeps-start do_id parent_id zone_id dclass read none h =
      Keeps-bind (construct do_id parent_id zone_id dclass [] read) _
        (Keeps-construct do_id parent_id zone_id dclass [] read h)
        λ l. Keeps-bind (set_loading do_id l) _ (Keeps-set_loading do_id l) λ _.
          Keeps-bind (lift (DM.db_get_all_message db_channel do_id l.context)) _ (Keeps-lift _)
            (λ dg. Keeps-emit _)
  Keeps-start do_id parent_id zone_id dclass read (some contexts) h =
      Keeps-bind (construct do_id parent_id zone_id dclass contexts read) _
        (Keeps-construct do_id parent_id zone_id dclass contexts read h)
        λ l. Keeps-set_loading do_id l

  Keeps-activate :
      (do_id parent_id zone_id : ℕ) (has_other : Bool)
      → Keeps (Free do_id) (
          activate db_channel classes num_types fields has_default_value default_value do_id
            parent_id zone_id has_other)
  unfolding activate
  Keeps-activate do_id parent_id zone_id false = Keeps-state _ (λ s.
      Keeps-start do_id parent_id zone_id none (returns []) (find_key do_id s.inactive_loads)
        (Keeps-returns []))
  Keeps-activate do_id parent_id zone_id true = Keeps-read read_uint16 _ λ dc_id.
      Keeps-if (leb num_types dc_id) (returns tt) _ (Keeps-returns tt) (
        Keeps-state _ (λ s.
          Keeps-start do_id parent_id zone_id (classes dc_id) _ (find_key do_id s.inactive_loads) (
            Keeps-bind (reads read_uint16) _ (Keeps-reads read_uint16)
              (λ n. Keeps-updates (classes dc_id) n []))))

  abbrev HandleActivate : Bool → DbHandler (Unit {0})
  HandleActivate has_other =
      handle_activate db_channel classes num_types fields has_default_value default_value has_other

  Keeps-unless_activated :
      (do_id : ℕ) (m : DbHandler (Unit {0}))
      → Keeps (Free do_id) m
      → Keeps Apart (unless (is_activated_object do_id) m)
  unfolding is_activated_object
  Keeps-unless_activated do_id m km = record {
    at = λ s apart. chosen s apart (has_key do_id s.objs) refl (is_loading do_id s);
  }
    where
      chosen :
          (s : DbStateServer)
          → Apart s.objs s.loading
          → (active : Bool) → has_key do_id s.objs ≡ active
          → (loads : Bool)
          → Apart
              ((if active || loads then returns tt else m) s).1.objs
              ((if active || loads then returns tt else m) s).1.loading
      chosen s apart true e loads = apart
      chosen s apart false e true = apart
      chosen s apart false e false = (km.at s (apart, e)).0

  Keeps-handle_activate : (has_other : Bool) → Keeps Apart (HandleActivate has_other)
  unfolding handle_activate
  Keeps-handle_activate has_other = Keeps-read read_doid _ λ do_id.
      Keeps-read read_doid _ λ parent_id. Keeps-read read_zone _ λ zone_id.
        Keeps-unless_activated do_id
          (activate db_channel classes num_types fields has_default_value default_value do_id
            parent_id zone_id has_other)
          (Keeps-activate do_id parent_id zone_id has_other)

  Keeps-serve :
      (sender msgtype : ℕ)
      → Keeps Apart
          (serve db_channel classes num_types fields has_default_value default_value sender msgtype)
  unfolding serve
  Keeps-serve sender msgtype =
      Keeps-if (msgtype == DM.dbss_activate_with_defaults) _ _ (Keeps-handle_activate false) (
        Keeps-if (msgtype == DM.dbss_activate_with_defaults_other) _ _ (Keeps-handle_activate true)
          (Keeps-if (msgtype == DM.dbss_delete_disk) _ _ (Keeps-delete_disk db_channel sender) (
            Keeps-if (msgtype == SM.object_set_field) _ _ (Keeps-set_field db_channel fields) (
              Keeps-if (msgtype == SM.object_set_fields) _ _ (Keeps-set_fields db_channel fields) (
                Keeps-if (msgtype == SM.object_get_field) _ _
                  (Keeps-get_field db_channel fields has_default_value default_value sender)
                  (Keeps-if (msgtype == DM.dbserver_get_field_resp) _ _ Keeps-get_field_resp (
                    Keeps-if (msgtype == SM.object_get_fields) _ _
                      (Keeps-get_fields db_channel fields has_default_value default_value sender)
                      (Keeps-if (msgtype == DM.dbserver_get_fields_resp) _ _ Keeps-get_fields_resp (
                        Keeps-if (msgtype == SM.object_get_all) _ _
                          (Keeps-get_all db_channel sender)
                          (Keeps-if (msgtype == DM.dbserver_get_all_resp) _ _
                            (Keeps-get_all_resp classes default_value)
                            (Keeps-if (msgtype == DM.dbss_get_activated) _ _
                              (Keeps-get_activated sender) (Keeps-returns tt))))))))))))

  pub handle_datagram-Apart :
      (s : DbStateServer)
      → Apart s.objs s.loading
      → let after =
          (handle_datagram db_channel classes num_types fields has_default_value default_value
            s).1 in
        Apart after.objs after.loading
  unfolding handle_datagram
  handle_datagram-Apart =
      (Keeps-read read_channel _
        λ sender. Keeps-read read_uint16 _ λ msgtype. Keeps-serve sender msgtype).at
