-- ===== src/DbStateServer/Updated.antt =====
-- src/stateserver/DBStateServer.cpp: what the handlers that load, change or query fields keep of the tables.
use astron.Base.{
  ◌%◌, ◌^◌, ℕ, zero, suc, ◌+◌, List, [], ◌∷◌, ◌++◌, Bool, true, not, ◌&&◌, ◌==◌, if◌then◌else◌,
  Option, none, some, length,
}
use astron.Base.Result.{Result, fault}
use astron.Base.Action.{returns, throws, modify, lift, ◌>>=◌, ◌>>◌}
use astron.Base.Table.{find_key, has_key}
use astron.Datagram.{Datagram, add_data, add_bool, add_uint16, add_uint32}
use astron.Datagram.Header.{create}
use astron.Dclass.Class.{Field, Class, get_id, has_keyword}
use astron.Iterator.{read_bool, read_uint16, read_uint32, read_doid, read_remainder}
use astron.StateServer.Messages as SM
use astron.StateServer.Object.{FieldValues}
use astron.DbStateServer.Messages as DM
use astron.DbStateServer.State.{
  reads, route, is_loading, is_activated_object, take_context, put_response,
}
use astron.DbStateServer.Handlers.{
  handle_set_field, handle_set_fields, handle_get_field, handle_get_fields, set_known_field,
  set_read_fields, read_values, query_field, get_known_field, read_requested, amend, amended,
  amend_values, prepare, query_fields, answer_fields, is_stored,
}
use astron.DbStateServer.Loading.{
  handle_get_all_resp, get_all_found, get_all_class, send_object, use_null_class, cached_do_id,
  forget_load, unpack_db_fields,
}
use astron.DbStateServer.Keeps.{
  Tables, Keeps, Keeps-returns, Keeps-lift, Keeps-reads, Keeps-take_context, Keeps-bind, Keeps-if,
  Keeps-state, Keeps-unless, Keeps-route,
}
use astron.DbStateServer.Activated.{Keeps-changes, Keeps-read, Keeps-response, Keeps-with_response}

module _ {Q : Tables} where
  Keeps-null_class : Keeps Q use_null_class
  unfolding use_null_class
  Keeps-null_class = Keeps-read read_uint16 _ λ n.
      Keeps-if (n == 0) (throws fault) (reads read_uint16 >> throws fault)
        (record { at = λ s q. q }) (Keeps-read read_uint16 _ (λ _. record { at = λ s q. q }))

  pub Keeps-get_all_resp :
      (classes : ℕ → Option Class) (default_value : Field → List ℕ)
      → Keeps Q (handle_get_all_resp classes default_value)
  unfolding handle_get_all_resp get_all_found forget_load
  Keeps-get_all_resp classes default_value =
      Keeps-with_response SM.object_get_all_resp _ λ db_context dg.
        Keeps-bind (lift (cached_do_id dg)) _ (Keeps-lift _) λ do_id.
          Keeps-bind (modify (forget_load do_id db_context)) _
            (Keeps-changes (forget_load do_id db_context) (λ s q. q))
            λ _. Keeps-read read_bool _ λ found.
              Keeps-if found (reads read_uint16 >>= get_all_found classes default_value dg)
                (returns tt)
                (Keeps-read read_uint16 _ λ dc_id.
                  Keeps-if (dc_id == 0) (returns tt)
                    (get_all_class classes default_value dg (classes dc_id)) (Keeps-returns tt)
                    (of_class dg (classes dc_id)))
                (Keeps-returns tt)
    where
      sends :
          (dg : Datagram) (c : Class) (o : Option (FieldValues × FieldValues))
          → Keeps Q (send_object classes default_value dg c o)
      sends dg c none = Keeps-returns tt
      sends dg c (some (required, ram)) = Keeps-route _

      of_class :
          (dg : Datagram) (o : Option Class) → Keeps Q (get_all_class classes default_value dg o)
      of_class dg none = Keeps-null_class
      of_class dg (some c) =
          Keeps-read read_uint16 _
            λ n. Keeps-read (unpack_db_fields c n [] []) _ (λ values. sends dg c values)

  module _ (db_channel : ℕ) (fields : ℕ → Option Field) where
    pub Keeps-set_field : Keeps Q (handle_set_field db_channel fields)
    unfolding handle_set_field
    Keeps-set_field = Keeps-read read_doid _ λ do_id.
        Keeps-unless (is_loading do_id) _
          (Keeps-read read_uint16 _ (λ field_id. known do_id field_id (fields field_id)))
      where
        known :
            (do_id field_id : ℕ) (o : Option Field)
            → Keeps Q (set_known_field db_channel fields do_id field_id o)
        known do_id field_id none = Keeps-returns tt
        known do_id field_id (some f) =
            Keeps-if (has_keyword f "db") _ (returns tt)
              (Keeps-read read_remainder _ (λ value. Keeps-route _)) (Keeps-returns tt)

    pub Keeps-set_fields : Keeps Q (handle_set_fields db_channel fields)
    unfolding handle_set_fields
    Keeps-set_fields = Keeps-read read_doid _ λ do_id. Keeps-unless (is_loading do_id) _ (
        Keeps-read read_uint16 _
          λ n. Keeps-read (read_values fields n []) _ (λ values. read_fields do_id values))
      where
        read_fields :
            (do_id : ℕ) (o : Option FieldValues)
            → Keeps Q (set_read_fields db_channel fields do_id o)
        read_fields do_id none = Keeps-returns tt
        read_fields do_id (some []) = Keeps-returns tt
        read_fields do_id (some (v ∷ values)) = Keeps-route _

    module _ (has_default_value : Field → Bool) (default_value : Field → List ℕ) where
      Keeps-query_field :
          (sender r_context do_id field_id : ℕ)
          → Keeps Q (
              query_field db_channel fields has_default_value default_value sender r_context do_id
                field_id)
      unfolding query_field
      Keeps-query_field sender r_context do_id field_id =
          Keeps-bind take_context _ Keeps-take_context λ db_context.
            Keeps-bind
              (lift (DM.create_with_context sender do_id SM.object_get_field_resp r_context)) _
              (Keeps-lift _)
              λ response.
                Keeps-bind (modify (put_response db_context response)) _
                  (Keeps-response db_context response)
                  (λ _. Keeps-route (DM.db_get_field_message db_channel do_id db_context field_id))

      pub Keeps-get_field :
          (sender : ℕ)
          → Keeps Q (handle_get_field db_channel fields has_default_value default_value sender)
      unfolding handle_get_field
      Keeps-get_field sender = Keeps-read read_uint32 _ λ r_context. Keeps-read read_doid _ λ do_id.
          Keeps-read read_uint16 _ λ field_id.
            Keeps-unless (is_activated_object do_id) _
              (known r_context do_id field_id (fields field_id))
        where
          known :
              (r_context do_id field_id : ℕ) (o : Option Field)
              → Keeps Q (
                  get_known_field db_channel fields has_default_value default_value sender r_context
                    do_id field_id o)
          known r_context do_id field_id none = Keeps-route _
          known r_context do_id field_id (some f) =
              Keeps-if (not (is_stored db_channel fields has_default_value default_value f)) _ _
                (Keeps-route _)
                (Keeps-if (has_keyword f "db") _ _
                  (Keeps-query_field sender r_context do_id field_id)
                  (Keeps-if (has_default_value f) _ _ (Keeps-route _) (Keeps-route _)))

      Keeps-amend :
          (context : ℕ) (f : Datagram → Result Datagram)
          → Keeps Q (amend db_channel fields has_default_value default_value context f)
      unfolding amend
      Keeps-amend context f =
          Keeps-state
            (λ s.
              amended db_channel fields has_default_value default_value context f
                (find_key context s.context_datagrams))
            (λ s. of_response (find_key context s.context_datagrams))
        where
          of_response :
              (o : Option Datagram)
              → Keeps Q (amended db_channel fields has_default_value default_value context f o)
          of_response none = Keeps-returns tt
          of_response (some dg) =
              Keeps-bind (lift (f dg)) _ (Keeps-lift (f dg)) (λ dg'. Keeps-response context dg')

      Keeps-amend_values :
          (context : ℕ) (values : FieldValues)
          → Keeps Q (amend_values db_channel fields has_default_value default_value context values)
      unfolding amend_values
      Keeps-amend_values context [] = Keeps-returns tt
      Keeps-amend_values context ((f, value) ∷ values) =
          Keeps-bind
            (amend db_channel fields has_default_value default_value context
                (λ dg. add_uint16 dg (get_id f))
              >> amend db_channel fields has_default_value default_value context
                  (λ dg. add_data dg value))
            _
            (Keeps-bind
              (amend db_channel fields has_default_value default_value context
                (λ dg. add_uint16 dg (get_id f)))
              _ (Keeps-amend context _) (λ _. Keeps-amend context _))
            (λ _. Keeps-amend_values context values)

      Keeps-requested :
          (sender do_id r_context n : ℕ) (db_fields : List Field) (ram_fields : FieldValues)
          → Keeps Q (
              read_requested db_channel fields has_default_value default_value sender do_id
                r_context n db_fields ram_fields)
      unfolding read_requested
      Keeps-requested sender do_id r_context zero db_fields ram_fields =
          Keeps-returns (db_fields, ram_fields)
      Keeps-requested sender do_id r_context (suc n) db_fields ram_fields =
          Keeps-bind (reads read_uint16) _ (Keeps-reads read_uint16)
            λ field_id. requested (fields field_id) (Keeps-requested sender do_id r_context n)
        where
          requested :
              (o : Option Field)
              → ((db : List Field) (ram : FieldValues)
                  → Keeps Q (
                      read_requested db_channel fields has_default_value default_value sender do_id
                        r_context n db ram))
              → Keeps Q (elim o [
                | none ↦
                    route (DM.get_fields_failure sender do_id r_context)
                    >> read_requested db_channel fields has_default_value default_value sender do_id
                        r_context n db_fields ram_fields
                | some f ↦
                    read_requested db_channel fields has_default_value default_value sender do_id
                      r_context n
                      (if is_stored db_channel fields has_default_value default_value f
                          && has_keyword f "db"
                        then db_fields ++ f ∷ []
                        else db_fields)
                      (if is_stored db_channel fields has_default_value default_value f
                          && not (has_keyword f "db")
                        then ram_fields ++ (f, default_value f) ∷ []
                        else ram_fields)
              ])
          requested none ih =
              Keeps-bind (route (DM.get_fields_failure sender do_id r_context)) _ (Keeps-route _)
                (λ _. ih db_fields ram_fields)
          requested (some f) ih = ih _ _

      Keeps-query_fields :
          (sender r_context do_id : ℕ) (db_fields : List Field) (ram_fields : FieldValues)
          → Keeps Q (
              query_fields db_channel fields has_default_value default_value sender r_context do_id
                db_fields ram_fields)
      unfolding query_fields prepare
      Keeps-query_fields sender r_context do_id db_fields ram_fields =
          Keeps-bind take_context _ Keeps-take_context λ db_context.
            Keeps-bind
              (prepare db_channel fields has_default_value default_value db_context
                (create sender do_id SM.object_get_fields_resp))
              _
              (Keeps-unless (λ s. has_key db_context s.context_datagrams) _
                (Keeps-bind (lift (create sender do_id SM.object_get_fields_resp)) _ (Keeps-lift _)
                  (λ dg. Keeps-response db_context dg)))
              λ _.
                Keeps-bind (amend db_channel fields has_default_value default_value db_context _) _
                  (Keeps-amend db_context (λ dg. add_uint32 dg r_context))
                  λ _.
                    Keeps-bind
                      (amend db_channel fields has_default_value default_value db_context _) _
                      (Keeps-amend db_context (λ dg. add_bool dg true))
                      λ _.
                        Keeps-bind
                          (amend db_channel fields has_default_value default_value db_context _) _
                          (Keeps-amend db_context
                            (λ dg. add_uint16 dg ((length ram_fields + length db_fields) % 2 ^ 16)))
                          λ _.
                            Keeps-bind
                              (amend_values db_channel fields has_default_value default_value
                                db_context ram_fields)
                              _ (Keeps-amend_values db_context ram_fields) (λ _. Keeps-route _)

      pub Keeps-get_fields :
          (sender : ℕ)
          → Keeps Q (handle_get_fields db_channel fields has_default_value default_value sender)
      unfolding handle_get_fields
      Keeps-get_fields sender = Keeps-read read_uint32 _ λ r_context.
          Keeps-read read_doid _ λ do_id. Keeps-read read_uint16 _ λ n.
            Keeps-unless (is_activated_object do_id) _ (
              Keeps-bind
                (read_requested db_channel fields has_default_value default_value sender do_id
                  r_context n [] [])
                _ (Keeps-requested sender do_id r_context n [] []) (answered r_context do_id))
        where
          answered :
              (r_context do_id : ℕ) (requested : List Field × FieldValues)
              → Keeps Q (
                  answer_fields db_channel fields has_default_value default_value sender r_context
                    do_id requested)
          answered r_context do_id ([], ram_fields) = Keeps-route _
          answered r_context do_id (f ∷ db_fields, ram_fields) =
              Keeps-query_fields sender r_context do_id (f ∷ db_fields) ram_fields
