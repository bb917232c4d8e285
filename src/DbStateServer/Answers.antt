-- ===== src/DbStateServer/Answers.antt =====
-- src/stateserver/DBStateServer.cpp: a query of a field of an inactive object and its answer from the database.
use astron.Base.{
  ℕ, ◌+◌, ◌%◌, ◌^◌, ◌-◌, ◌≤◌, ◌<◌, ◌≡◌, refl, sym, ap, ◌∙◌, List, [], ◌∷◌, ◌++◌, length, arith,
  length-append, inl, inr, Bool, false, Option, some, eq→==,
}
use astron.Base.Result.{Result, ok}
use astron.Base.Table.{find_key, set_key, has_key, find_key-set_key, has_key-erase_key}
use astron.Bytes.{le_bytes, length-le_bytes}
use astron.Datagram.{Datagram, empty, contents, dgsize_max, add_data, size, to_dgsize, to_size_t}
use astron.Datagram.Memory.{IsValid}
use astron.Datagram.Appending.{Appends, Appends-bind}
use astron.Datagram.Values.{add_doid-Appends, add_uint16-Appends, add_data-Appends}
use astron.Datagram.Header.{header_bytes}
use astron.Dclass.Class.{Field}
use astron.Iterator.{DatagramIterator, read_remainder, get_remaining}
use astron.Iterator.Header.{Message, get_msg_type_lem}
use astron.Iterator.Cursor.{At, step, length-ahead, read_data-Reads, read_uint32-Reads}
use astron.StateServer.Messages.{object_get_field_resp}
use astron.StateServer.Object.{routed}
use astron.DbStateServer.Messages.{create_with_context, db_get_field_message, dbserver_get_field}
use astron.DbStateServer.State.{
  DbStateServer, by_server, reads, emit, route, take_context, put_response,
}
use astron.DbStateServer.Handlers.{
  query_field, handle_get_field_resp, with_response, response_type, forget_context,
}
use astron.DbStateServer.Cached.{create_with_context-Appends, length-header, iterate-ok}
use mathlib.Core.List.{append-nil, append_assoc}
use mathlib.Core.Path.{subst}

-- A message that fits.
record Fits (bytes : List ℕ) (r : Result Datagram) : Type 0 where
  dg : Datagram
  built : r ≡ ok dg
  valid : IsValid dg
  text : contents dg ≡ bytes
  size : dg.buf_offset ≡ length bytes

fits :
    (bytes : List ℕ) (r : Result Datagram)
    → length bytes ≤ dgsize_max
    → Appends empty bytes r
    → Fits bytes r
unfolding empty
fits bytes r small (inl (dg, e, v, text, off)) = record {
  dg = dg;
  built = e;
  valid = v;
  text = text;
  size = omega arith;
}
fits bytes r small (inr (e, over)) = let no : ⊥ = omega arith in absurd no

stub :
    (sender do_id message_type context : ℕ)
    → Fits
        (header_bytes (sender ∷ []) do_id message_type ++ le_bytes 4 context)
        (create_with_context sender do_id message_type context)
stub sender do_id message_type context =
    fits _ _
      (omega (
        arith,
        length-append (header_bytes (sender ∷ []) do_id message_type) (le_bytes 4 context),
        length-header sender do_id message_type,
        length-le_bytes 4 context,
      ))
      (create_with_context-Appends sender do_id message_type context)

query-Appends :
    (db_channel do_id context field_id : ℕ)
    → Appends empty
        ((header_bytes (db_channel ∷ []) do_id dbserver_get_field ++ le_bytes 4 context)
          ++ (le_bytes 4 do_id ++ le_bytes 2 field_id))
        (db_get_field_message db_channel do_id context field_id)
unfolding db_get_field_message
query-Appends db_channel do_id context field_id =
    Appends-bind empty _ _ _ _
      (create_with_context-Appends db_channel do_id dbserver_get_field context)
      λ d v.
        Appends-bind d _ _ _ _ (add_doid-Appends d v do_id) λ e w. add_uint16-Appends e w field_id

query :
    (db_channel do_id context field_id : ℕ)
    → Fits
        ((header_bytes (db_channel ∷ []) do_id dbserver_get_field ++ le_bytes 4 context)
          ++ (le_bytes 4 do_id ++ le_bytes 2 field_id))
        (db_get_field_message db_channel do_id context field_id)
query db_channel do_id context field_id =
    fits _ _
      (omega (
        arith,
        length-append
            (header_bytes (db_channel ∷ []) do_id dbserver_get_field ++ le_bytes 4 context)
            (le_bytes 4 do_id ++ le_bytes 2 field_id),
        length-append (header_bytes (db_channel ∷ []) do_id dbserver_get_field)
            (le_bytes 4 context),
        length-append (le_bytes 4 do_id) (le_bytes 2 field_id),
        length-header db_channel do_id dbserver_get_field,
        length-le_bytes 4 context,
        length-le_bytes 4 do_id,
        length-le_bytes 2 field_id,
      ))
      (query-Appends db_channel do_id context field_id)

-- The type of a response that was prepared.
stub-type :
    (sender do_id context : ℕ) (dg : Datagram)
    → sender < 2 ^ 64
    → do_id < 2 ^ 32
    → IsValid dg
    → contents dg ≡ header_bytes (sender ∷ []) do_id object_get_field_resp ++ le_bytes 4 context
    → response_type dg ≡ ok object_get_field_resp
unfolding response_type
stub-type sender do_id context dg h k v text =
    let message : Message dg (sender ∷ []) do_id object_get_field_resp (le_bytes 4 context) =
      record {
        valid = v;
        layout = text;
        few = omega arith;
        channels = (h, tt);
        sender = omega arith;
        type = omega arith;
      } in
    rw (response_type, iterate-ok dg v)
      (rw
        (get_msg_type_lem dg (sender ∷ []) do_id object_get_field_resp (le_bytes 4 context) message
          0 (omega arith))
        refl)

-- What is ahead is the remainder.
remainder :
    (dgi : DatagramIterator) (bytes : List ℕ)
    → At dgi bytes
    → read_remainder dgi ≡ (ok bytes, step (length bytes) dgi)
unfolding read_remainder get_remaining
remainder dgi bytes at =
    let left : to_dgsize (to_size_t (size dgi.dg + 2 ^ 64 - dgi.offset)) ≡ length bytes =
      omega (arith, length-ahead dgi bytes at, at.valid.within_max) in
    rw left (
      (read_data-Reads dgi bytes [] (length bytes) (subst (At dgi) (sym (append-nil bytes)) at)
        refl).0)

-- The state that a query leaves: the response waits under the context, and the database is asked.
abbrev queried : DbStateServer → Datagram → Datagram → DbStateServer
queried s response question = record s {
  next_context = (s.next_context + 1) % 2 ^ 32;
  context_datagrams = set_key s.next_context response s.context_datagrams;
  effects = s.effects ++ by_server (routed question) ∷ [];
}

-- An answer to the asker, and that its context is free again.
pub record Answers (sender do_id r_context context : ℕ) (payload : List ℕ) (before : DbStateServer)
    (r : Result (Unit {0}) × DbStateServer) : Type 0 where
  pub returned : r.0 ≡ ok tt
  pub dg : Datagram
  pub sends : r.1.effects ≡ before.effects ++ by_server (routed dg) ∷ []
  pub text :
      contents dg
      ≡ header_bytes (sender ∷ []) do_id object_get_field_resp ++ (le_bytes 4 r_context ++ payload)
  pub forgotten : has_key context r.1.context_datagrams ≡ false

module _ (db_channel : ℕ) (fields : ℕ → Option Field) (has_default_value : Field → Bool)
    (default_value : Field → List ℕ) (s : DbStateServer) (sender r_context do_id field_id : ℕ) where
  abbrev Query : Result (Unit {0}) × DbStateServer
  Query =
      query_field db_channel fields has_default_value default_value sender r_context do_id field_id
        s

  abbrev Response :
      Fits
        (header_bytes (sender ∷ []) do_id object_get_field_resp ++ le_bytes 4 r_context)
        (create_with_context sender do_id object_get_field_resp r_context)
  Response = stub sender do_id object_get_field_resp r_context

  query_field-eq :
      Query ≡ (ok tt, queried s Response.dg (query db_channel do_id s.next_context field_id).dg)
  unfolding query_field take_context put_response route emit
  query_field-eq =
      rw Response.built (rw (query db_channel do_id s.next_context field_id).built refl)

  module _ (h : sender < 2 ^ 64) (k : do_id < 2 ^ 32) (context_small : s.next_context < 2 ^ 32)
      (payload : List ℕ) (small : length payload + 23 ≤ dgsize_max) (t : DbStateServer)
      (waits : find_key s.next_context t.context_datagrams
        ≡ find_key s.next_context Query.1.context_datagrams)
      (arrives : At t.dgi (le_bytes 4 s.next_context ++ payload)) where
    found : find_key s.next_context t.context_datagrams ≡ some Response.dg
    found =
        waits
        ∙ ap
            (λ (q : Result (Unit {0}) × DbStateServer).
              find_key s.next_context q.1.context_datagrams)
            query_field-eq
        ∙ find_key-set_key s.next_context s.next_context Response.dg s.context_datagrams
        ∙ rw (eq→== s.next_context s.next_context refl) refl

    final :
        (dg : Datagram) (r : Result Datagram)
        → r ≡ ok dg
        → contents dg
          ≡ header_bytes (sender ∷ []) do_id object_get_field_resp
            ++ (le_bytes 4 r_context ++ payload)
        → add_data Response.dg payload ≡ r
        → Answers sender do_id r_context s.next_context payload t (handle_get_field_resp t)
    unfolding handle_get_field_resp with_response forget_context reads route emit
    final dg r e text added =
        let (e₁, at) = read_uint32-Reads s.next_context t.dgi payload context_small arrives in
        let e₂ : response_type Response.dg ≡ ok object_get_field_resp =
          stub-type sender do_id r_context Response.dg h k Response.valid Response.text in
        let e₃ : read_remainder (step 4 t.dgi)
            ≡ (ok payload, step (length payload) (step 4 t.dgi)) =
          remainder (step 4 t.dgi) payload at in
        rw e₁ (
          rw found (
            rw e₂ (
              rw e₃ (
                rw (added, e)
                  (record {
                    returned = refl;
                    dg = dg;
                    sends = refl;
                    text = text;
                    forgotten =
                        has_key-erase_key s.next_context s.next_context t.context_datagrams
                        ∙ rw (eq→== s.next_context s.next_context refl) refl;
                  })))))

    -- A query of a field of an inactive object that is in the database comes back to the asker: when, at any
    -- later time at which its response still waits, the database answers with the context that the query
    -- took, the handler returns, and it routes one message, to the asker and from the object, with the asker's
    -- own context and, unchanged, all that the database wrote behind its context; and the context no more
    -- waits. The ids have their widths, and the answer leaves 23 bytes below DGSIZE_MAX.
    pub handle_get_field_resp-Answers :
        Answers sender do_id r_context s.next_context payload t (handle_get_field_resp t)
    handle_get_field_resp-Answers =
        elim (add_data-Appends Response.dg Response.valid payload (omega arith)) [
          | inl (dg, e, v, text, off) ↦
              final dg (ok dg) refl
                (text
                  ∙ ap (λ (x : List ℕ). x ++ payload) Response.text
                  ∙ append_assoc (header_bytes (sender ∷ []) do_id object_get_field_resp)
                      (le_bytes 4 r_context) payload)
                e
          | inr (e, over) ↦
              let no : ⊥ = omega (
                arith,
                over,
                Response.size,
                length-append (header_bytes (sender ∷ []) do_id object_get_field_resp)
                    (le_bytes 4 r_context),
                length-header sender do_id object_get_field_resp,
                length-le_bytes 4 r_context,
              ) in
              absurd no
        ]
