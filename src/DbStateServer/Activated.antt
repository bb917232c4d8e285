-- ===== src/DbStateServer/Activated.antt =====
-- src/stateserver/DBStateServer.cpp: the handlers for inactive objects leave the tables of objects alone.
use astron.Base.{ℕ, ◌==◌, Option, none, some}
use astron.Base.Action.{proceed, returns, modify, lift}
use astron.Base.Table.{find_key}
use astron.Datagram.{Datagram}
use astron.Iterator.{Reader, read_bool, read_uint16, read_uint32, read_doid, read_remainder}
use astron.StateServer.Messages as SM
use astron.StateServer.Object.{DistributedObject}
use astron.DbStateServer.Messages as DM
use astron.DbStateServer.State.{
  DbStateServer, DbHandler, reads, is_loading, is_activated_object, take_context, put_response,
}
use astron.DbStateServer.Handlers.{
  handle_get_activated, handle_delete_disk, handle_get_field_resp, handle_get_fields_resp,
  handle_get_all, broadcast_delete, with_response, expects, stored, forget_context, response_type,
  put_load,
}
use astron.DbStateServer.Keeps.{
  Tables, Keeps, Keeps-returns, Keeps-lift, Keeps-reads, Keeps-take_context, Keeps-bind, Keeps-if,
  Keeps-state, Keeps-unless, Keeps-route,
}

-- What the handlers for inactive objects keep is any predicate of the two tables.
module _ {Q : Tables} where
  pub Keeps-changes :
      (f : DbStateServer → DbStateServer)
      → ((s : DbStateServer) → Q s.objs s.loading → Q (f s).objs (f s).loading)
      → Keeps Q (modify f)
  Keeps-changes f h = record { at = h }

  pub Keeps-response : (context : ℕ) (dg : Datagram) → Keeps Q (modify (put_response context dg))
  unfolding put_response
  Keeps-response context dg = Keeps-changes (put_response context dg) (λ s q. q)

  pub Keeps-read :
      {A : Type 0} (m : Reader A) (f : A → DbHandler (Unit {0}))
      → ((a : A) → Keeps Q (f a))
      → Keeps Q (λ s. proceed (reads m s) f)
  Keeps-read m f h = Keeps-bind (reads m) f (Keeps-reads m) h

  pub Keeps-get_activated : (sender : ℕ) → Keeps Q (handle_get_activated sender)
  unfolding handle_get_activated
  Keeps-get_activated sender = Keeps-read read_uint32 _ λ context.
      Keeps-read read_doid _
        λ do_id. Keeps-unless (is_loading do_id) _ (Keeps-state _ (λ s. Keeps-route _))

  Keeps-broadcast :
      (sender do_id : ℕ) (o : Option DistributedObject) → Keeps Q (broadcast_delete sender do_id o)
  Keeps-broadcast sender do_id none = Keeps-returns tt
  Keeps-broadcast sender do_id (some o) = Keeps-route _

  pub Keeps-delete_disk : (db_channel sender : ℕ) → Keeps Q (handle_delete_disk db_channel sender)
  unfolding handle_delete_disk
  Keeps-delete_disk db_channel sender = Keeps-read read_doid _ λ do_id.
      Keeps-unless (is_loading do_id) _ (
        Keeps-bind (λ s. broadcast_delete sender do_id (find_key do_id s.objs) s) _
          (Keeps-state (λ s. broadcast_delete sender do_id (find_key do_id s.objs))
            (λ s. Keeps-broadcast sender do_id _))
          (λ _. Keeps-route _))

  pub Keeps-with_response :
      (message_type : ℕ) (complete : ℕ → Datagram → DbHandler (Unit {0}))
      → ((context : ℕ) (dg : Datagram) → Keeps Q (complete context dg))
      → Keeps Q (with_response message_type complete)
  unfolding with_response forget_context
  Keeps-with_response message_type complete h = Keeps-read read_uint32 _ λ context.
      Keeps-state (λ s. expects message_type complete (stored context s) context)
        (λ s. expected (stored context s) context)
    where
      expected :
          (o : Option Datagram) (context : ℕ) → Keeps Q (expects message_type complete o context)
      expected none context = Keeps-returns tt
      expected (some dg) context =
          Keeps-bind (modify (forget_context context)) _
            (Keeps-changes (forget_context context) (λ s q. q))
            λ _. Keeps-bind (lift (response_type dg)) _ (Keeps-lift (response_type dg)) λ resp_type.
              Keeps-if (resp_type == message_type) (complete context dg) (returns tt) (h context dg)
                (Keeps-returns tt)

  pub Keeps-get_field_resp : Keeps Q handle_get_field_resp
  unfolding handle_get_field_resp
  Keeps-get_field_resp =
      Keeps-with_response SM.object_get_field_resp _
        λ context dg. Keeps-read read_remainder _ (λ payload. Keeps-route _)

  pub Keeps-get_fields_resp : Keeps Q handle_get_fields_resp
  unfolding handle_get_fields_resp
  Keeps-get_fields_resp = Keeps-with_response SM.object_get_fields_resp _ λ context dg.
      Keeps-read read_bool _ λ success.
        Keeps-if success _ _
          (Keeps-read read_uint16 _ λ n. Keeps-read read_remainder _ (λ payload. Keeps-route _))
          (Keeps-route _)

  pub Keeps-get_all : (db_channel sender : ℕ) → Keeps Q (handle_get_all db_channel sender)
  unfolding handle_get_all put_load
  Keeps-get_all db_channel sender = Keeps-read read_uint32 _ λ r_context.
      Keeps-read read_doid _ λ do_id. Keeps-unless (is_activated_object do_id) _ (
        Keeps-bind take_context _ Keeps-take_context λ db_context.
          Keeps-bind (lift (DM.get_all_response sender do_id r_context)) _ (Keeps-lift _)
            λ response.
              Keeps-bind (modify (put_response db_context response)) _
                (Keeps-response db_context response)
                λ _.
                  Keeps-bind (modify (put_load do_id db_context)) _
                    (Keeps-changes (put_load do_id db_context) (λ s q. q))
                    λ _. Keeps-route (DM.db_get_all_message db_channel do_id db_context))
