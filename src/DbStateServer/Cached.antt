-- ===== src/DbStateServer/Cached.antt =====
-- src/stateserver/DBStateServer.cpp: which id handle_get_all_resp reads back from the response it prepared.
use astron.Base.{
  ℕ, ◌+◌, ◌*◌, ◌/◌, ◌%◌, ◌^◌, ◌<◌, ◌≡◌, refl, sym, ap, ◌∙◌, List, [], ◌∷◌, ◌++◌, length, arith,
  length-append, inl, inr,
}
use astron.Base.Result.{ok, ◌>>=◌}
use astron.Bytes.{le_bytes, le_value, length-le_bytes}
use astron.Channels.{invalid_channel}
use astron.Datagram.{Datagram, empty}
use astron.Datagram.Memory.{IsValid}
use astron.Datagram.Appending.{Appends, Appends-bind}
use astron.Datagram.Values.{add_uint32-Appends, add_doid-Appends, add_channel-Appends}
use astron.Datagram.Header.{
  create, header_bytes, channel_bytes, add_server_header_single-eq, add_server_header-Appends,
  empty-IsValid,
}
use astron.Iterator.{DatagramIterator, iterate, advance, read_doid, skip}
use astron.Iterator.Header.{Message, sender-At, seek_payload_lem}
use astron.Iterator.Cursor.{At, check_read_length_ok, length-ahead, step-At, step, read_data-Reads}
use astron.StateServer.Messages.{object_get_all_resp}
use astron.DbStateServer.Messages.{get_all_response, create_with_context}
use astron.DbStateServer.Loading.{cached_do_id}
use mathlib.Core.List.{append_assoc}
use mathlib.Core.Path.{subst}

create-Appends :
    (to from message_type : ℕ)
    → Appends empty (header_bytes (to ∷ []) from message_type) (create to from message_type)
unfolding create
create-Appends to from message_type =
    subst (Appends empty (header_bytes (to ∷ []) from message_type))
      (sym (add_server_header_single-eq empty to from message_type))
      (add_server_header-Appends empty (to ∷ []) from message_type empty-IsValid)

pub length-header :
    (to from message_type : ℕ) → length (header_bytes (to ∷ []) from message_type) ≡ 19
unfolding header_bytes channel_bytes le_bytes
length-header to from message_type = refl

pub create_with_context-Appends :
    (to from message_type context : ℕ)
    → Appends empty
        (header_bytes (to ∷ []) from message_type ++ le_bytes 4 context)
        (create_with_context to from message_type context)
unfolding create_with_context
create_with_context-Appends to from message_type context =
    Appends-bind empty _ _ _ _ (create-Appends to from message_type)
      (λ d v. add_uint32-Appends d v context)

get_all_response-Appends :
    (sender do_id context : ℕ)
    → Appends empty
        ((header_bytes (sender ∷ []) do_id object_get_all_resp ++ le_bytes 4 context)
          ++ (le_bytes 4 do_id ++ le_bytes 8 invalid_channel))
        (get_all_response sender do_id context)
unfolding get_all_response
get_all_response-Appends sender do_id context =
    Appends-bind empty _ _ _ _
      (create_with_context-Appends sender do_id object_get_all_resp context)
      λ d v.
        Appends-bind d _ _ _ _ (add_doid-Appends d v do_id)
          λ e w. add_channel-Appends e w invalid_channel

-- The bytes of the response: what is skipped behind the receivers, what is read, and the rest.
abbrev skipped : ℕ → ℕ → List ℕ
skipped do_id context =
    le_bytes 8 do_id
    ++ (le_bytes 2 object_get_all_resp ++ (context % 256 ∷ (context / 256) % 256 ∷ []))

abbrev word : ℕ → ℕ → List ℕ
word do_id context =
    (context / 256 / 256) % 256
    ∷ (context / 256 / 256 / 256) % 256
    ∷ do_id % 256
    ∷ (do_id / 256) % 256
    ∷ []

abbrev rest : ℕ → List ℕ
rest do_id =
    (do_id / 256 / 256) % 256 ∷ (do_id / 256 / 256 / 256) % 256 ∷ le_bytes 8 invalid_channel

word-value :
    (do_id context : ℕ)
    → context < 2 ^ 32
    → le_value (word do_id context) ≡ context / 2 ^ 16 + do_id % 2 ^ 16 * 2 ^ 16
unfolding le_value
word-value do_id context h = omega arith

skip-At :
    (n : ℕ) (dgi : DatagramIterator) (front back : List ℕ)
    → length front ≡ n
    → At dgi (front ++ back)
    → (skip n dgi ≡ (ok tt, step n dgi)) × At (step n dgi) back
unfolding skip advance
skip-At n dgi front back e at = rw (sym e) (
  rw
      (check_read_length_ok dgi (length front) at.valid
        (omega (arith, length-ahead dgi _ at, length-append front back)))
      refl,
  step-At dgi front back at,
)

pub iterate-ok :
    (dg : Datagram) → IsValid dg → iterate dg 0 ≡ (ok tt, record { dg = dg; offset = 0 })
unfolding iterate
iterate-ok dg v = check_read_length_ok (record { dg = dg; offset = 0 }) 0 v (omega arith)

module _ (sender do_id context : ℕ) (small : sender < 2 ^ 64) (id_small : do_id < 2 ^ 32)
    (context_small : context < 2 ^ 32) (dg : Datagram)
    (message : Message dg
      (sender ∷ [])
      do_id
      object_get_all_resp
      (le_bytes 4 context ++ (le_bytes 4 do_id ++ le_bytes 8 invalid_channel))) where
  sender_bytes :
      At
        (record { dg = dg; offset = 9 })
        (skipped do_id context ++ (word do_id context ++ rest do_id))
  unfolding le_bytes
  sender_bytes = sender-At dg (sender ∷ []) do_id object_get_all_resp _ message

  read_back : cached_do_id dg ≡ ok (context / 2 ^ 16 + do_id % 2 ^ 16 * 2 ^ 16)
  unfolding cached_do_id read_doid
  read_back =
      let (e, at) =
        skip-At 12 (record { dg = dg; offset = 9 }) (skipped do_id context)
          (word do_id context ++ rest do_id)
          (omega (
            arith,
            length-append (le_bytes 8 do_id)
                (le_bytes 2 object_get_all_resp ++ (context % 256 ∷ (context / 256) % 256 ∷ [])),
            length-append (le_bytes 2 object_get_all_resp)
                (context % 256 ∷ (context / 256) % 256 ∷ []),
            length-le_bytes 8 do_id,
            length-le_bytes 2 object_get_all_resp,
          ))
          sender_bytes in
      let (e', _) =
        read_data-Reads (step 12 (record { dg = dg; offset = 9 })) (word do_id context) (rest do_id)
          4 at refl in
      rw (cached_do_id, iterate-ok dg message.valid)
        (rw (seek_payload_lem dg (sender ∷ []) do_id object_get_all_resp _ message 0)
          (rw e (rw e' (ap ok (word-value do_id context context_small)))))

-- handle_get_all_resp takes the id of the object from the response that handle_get_all prepared. It skips 12
-- bytes behind the receivers, but the sender, the message type and the context are 14: what it finds is not
-- the id, but the two high bytes of the asker's context and, above them, the two low bytes of the id.
pub cached_do_id-get_all_response :
    (sender do_id context : ℕ)
    → sender < 2 ^ 64
    → do_id < 2 ^ 32
    → context < 2 ^ 32
    → (get_all_response sender do_id context >>= cached_do_id)
      ≡ ok (context / 2 ^ 16 + do_id % 2 ^ 16 * 2 ^ 16)
unfolding empty
cached_do_id-get_all_response sender do_id context h k l =
    elim (get_all_response-Appends sender do_id context) [
      | inl (dg, e, v, text, off) ↦ rw e (
          read_back sender do_id context h k l dg (record {
            valid = v;
            layout =
                text
                ∙ append_assoc (header_bytes (sender ∷ []) do_id object_get_all_resp)
                    (le_bytes 4 context) (le_bytes 4 do_id ++ le_bytes 8 invalid_channel);
            few = omega arith;
            channels = (h, tt);
            sender = omega arith;
            type = omega arith;
          }))
      | inr (e, over) ↦
          let no : ⊥ = omega (
            arith,
            over,
            length-append
                (header_bytes (sender ∷ []) do_id object_get_all_resp ++ le_bytes 4 context)
                (le_bytes 4 do_id ++ le_bytes 8 invalid_channel),
            length-append (header_bytes (sender ∷ []) do_id object_get_all_resp)
                (le_bytes 4 context),
            length-append (le_bytes 4 do_id) (le_bytes 8 invalid_channel),
            length-le_bytes 4 context,
            length-le_bytes 4 do_id,
            length-le_bytes 8 invalid_channel,
            length-header (sender) do_id object_get_all_resp,
          ) in
          absurd no
    ]
