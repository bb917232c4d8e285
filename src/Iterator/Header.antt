-- ===== src/Iterator/Header.antt =====
-- src/util/DatagramIterator.h: reading the header of a server message.
use astron.Base.{
  ℕ, ◌+◌, ◌*◌, ◌^◌, ◌≤◌, ◌<◌, ◌≡◌, refl, ap, ◌∙◌, List, [], ◌++◌, All, length, drop, arith, lt→ltb,
  length-append, drop-append_add,
}
use astron.Base.Result.{ok}
use astron.Bytes.{le_bytes, length-le_bytes, le_value-le_bytes}
use astron.Datagram.{Datagram, contents, size, memory_read, dgsize_max}
use astron.Datagram.Memory.{IsValid, length-contents}
use astron.Datagram.Header.{header_bytes, channel_bytes, length-channel_bytes}
use astron.Iterator.{
  DatagramIterator, get_recipient_count, get_sender, get_msg_type, seek, seek_payload,
}
use astron.Iterator.Cursor.{
  At, length-ahead, memory_read-ahead, read_channel-Reads, read_uint16-Reads,
}
use mathlib.Core.List.{append_assoc}

-- A server message: its header, and the payload after it.
pub record Message (dg : Datagram) (to : List ℕ) (from message_type : ℕ) (payload : List ℕ)
    : Type 0 where
  pub valid : IsValid dg
  pub layout : contents dg ≡ header_bytes to from message_type ++ payload
  pub few : length to < 2 ^ 8
  pub channels : All (λ c. c < 2 ^ 64) to
  pub sender : from < 2 ^ 64
  pub type : message_type < 2 ^ 16

abbrev at_offset : Datagram → ℕ → DatagramIterator
at_offset dg n = record { dg = dg; offset = n }

-- The cursor behind a prefix of the contents.
seek-At :
    (dg : Datagram) (front rest : List ℕ) (n : ℕ)
    → IsValid dg
    → contents dg ≡ front ++ rest
    → length front ≡ n
    → At (at_offset dg n) rest
seek-At dg front rest n v e len = record {
  valid = v;
  inside = omega (arith, ap length e, length-append front rest, length-contents dg v);
  ahead = ap (drop n) e ∙ drop-append_add front rest 0 n (omega arith);
}

module _ (dg : Datagram) (to : List ℕ) (from message_type : ℕ) (payload : List ℕ)
    (m : Message dg to from message_type payload) where
  behind_count : List ℕ
  behind_count = channel_bytes to ++ (le_bytes 8 from ++ (le_bytes 2 message_type ++ payload))

  layout_count : contents dg ≡ le_bytes 1 (length to) ++ behind_count
  unfolding header_bytes behind_count
  layout_count = m.layout ∙ simp append_assoc

  count-At : At (at_offset dg 0) (le_bytes 1 (length to) ++ behind_count)
  count-At = seek-At dg [] _ 0 m.valid layout_count refl

  pub sender-At :
      At
        (at_offset dg (1 + length to * 8))
        (le_bytes 8 from ++ (le_bytes 2 message_type ++ payload))
  unfolding behind_count
  sender-At =
      seek-At dg (le_bytes 1 (length to) ++ channel_bytes to) _ _ m.valid
        (layout_count ∙ simp append_assoc)
        (omega (
          arith,
          length-append (le_bytes 1 (length to)) (channel_bytes to),
          length-le_bytes 1 (length to),
          length-channel_bytes to,
        ))

  pub type-At : At (at_offset dg (1 + length to * 8 + 8)) (le_bytes 2 message_type ++ payload)
  unfolding behind_count
  type-At =
      let front : List ℕ = (le_bytes 1 (length to) ++ channel_bytes to) ++ le_bytes 8 from in
      seek-At dg front _ _ m.valid (layout_count ∙ simp append_assoc) (
        omega (
          arith,
          length-append (le_bytes 1 (length to) ++ channel_bytes to) (le_bytes 8 from),
          length-append (le_bytes 1 (length to)) (channel_bytes to),
          length-le_bytes 1 (length to),
          length-le_bytes 8 from,
          length-channel_bytes to,
        ))

  -- The number of receivers, with the iterator anywhere.
  pub get_recipient_count_lem :
      (n : ℕ) → get_recipient_count (at_offset dg n) ≡ (ok (length to), at_offset dg n)
  unfolding get_recipient_count le_bytes
  get_recipient_count_lem n =
      let first : memory_read dg.buf 0 1 ≡ ok (le_bytes 1 (length to)) =
        memory_read-ahead (at_offset dg 0) (le_bytes 1 (length to)) behind_count count-At in
      let some_bytes : 0 < size dg = omega (
        arith,
        m.valid.within_max,
        length-ahead (at_offset dg 0) _ count-At,
        length-append (le_bytes 1 (length to)) behind_count,
        length-le_bytes 1 (length to),
      ) in
      rw (lt→ltb 0 (size dg) some_bytes) (rw first (rw (le_value-le_bytes 1 (length to) m.few)))

  -- On a datagram that holds a server message, get_sender returns the sender, wherever up to
  -- DGSIZE_MAX the iterator stands,
  -- and leaves it there.
  pub get_sender_lem :
      (n : ℕ) → n ≤ dgsize_max → get_sender (at_offset dg n) ≡ (ok from, at_offset dg n)
  unfolding get_sender seek
  get_sender_lem n h = rw (get_recipient_count_lem n) (
      rw ((read_channel-Reads from (at_offset dg (1 + length to * 8)) _ m.sender sender-At).0)
        (ap (λ (k : ℕ). (ok from, at_offset dg k)) (omega arith)))

  -- On a datagram that holds a server message, get_msg_type returns the type, wherever up to
  -- DGSIZE_MAX the iterator stands,
  -- and leaves it there.
  pub get_msg_type_lem :
      (n : ℕ) → n ≤ dgsize_max → get_msg_type (at_offset dg n) ≡ (ok message_type, at_offset dg n)
  unfolding get_msg_type seek
  get_msg_type_lem n h = rw (get_recipient_count_lem n) (
      rw
        ((read_uint16-Reads message_type (at_offset dg (1 + length to * 8 + 8)) _ m.type type-At).0)
        (ap (λ (k : ℕ). (ok message_type, at_offset dg k)) (omega arith)))

  -- On a datagram that holds a server message, seek_payload moves the iterator behind the receivers.
  pub seek_payload_lem :
      (n : ℕ) → seek_payload (at_offset dg n) ≡ (ok tt, at_offset dg (1 + length to * 8))
  unfolding seek_payload seek
  seek_payload_lem n = rw (get_recipient_count_lem 0)
