-- ===== src/MessageDirector/Control.antt =====
-- src/messagedirector: what the link to the upstream writes is what the upstream's participant reads.
use astron.Base.{
  ℕ, ◌+◌, ◌^◌, ◌≤◌, ◌<◌, ◌≡◌, refl, sym, ap, ◌∙◌, List, [], ◌++◌, length, arith, length-append, inl,
  inr,
}
use astron.Base.Result.{Result, ok, err, ◌>>=◌}
use astron.Bytes.{le_bytes, length-le_bytes}
use astron.Datagram.{Datagram, empty, contents, of_data, dgsize_max}
use astron.Datagram.Memory.{IsValid, length-contents}
use astron.Datagram.Appending.{Appends, Appends-bind}
use astron.Datagram.Values.{
  add_uint8-Appends, add_uint16-Appends, add_channel-Appends, add_blob_of-Appends,
}
use astron.Datagram.Header.{create_control, add_control_header, control_message, empty-IsValid}
use astron.Iterator.{DatagramIterator, iterate, read_datagram, and_then}
use astron.Iterator.Cursor.{
  check_read_length_ok, load_ok, read_size-Reads, At, step, read_uint8-Reads, read_uint16-Reads,
  read_channel-Reads,
}
use astron.MessageDirector.Director.{
  subscribe_channel, unsubscribe_channel, add_post_remove, clear_post_removes,
}
use astron.MessageDirector.Upstream.{
  channel_message, range_message, post_remove_message, control_add_channel, control_remove_channel,
  control_add_range, control_remove_range, control_add_post_remove, control_clear_post_removes,
}
use astron.MessageDirector.NetworkParticipant.{
  Request, calls, subscribe_range, unsubscribe_range, read_control, read_request, receive_datagram,
  read_range, read_post_remove, caught,
}
use mathlib.Core.List.{append-nil, append_assoc}
use mathlib.Core.Path.{subst}

-- The layout of a control message: (uint8_t 1, channel_t 1, uint16_t type), then the arguments.
abbrev control_bytes : ℕ → List ℕ
control_bytes t = le_bytes 1 1 ++ (le_bytes 8 control_message ++ le_bytes 2 t)

create_control-Appends : (t : ℕ) → Appends empty (control_bytes t) (create_control t)
unfolding create_control add_control_header
create_control-Appends t =
    Appends-bind empty _ _ _ _ (add_uint8-Appends empty empty-IsValid 1) λ d v.
      Appends-bind d _ _ _ _ (add_channel-Appends d v control_message)
        λ e w. add_uint16-Appends e w t

channel_message-Appends :
    (t c : ℕ) → Appends empty (control_bytes t ++ le_bytes 8 c) (channel_message t c)
unfolding channel_message
channel_message-Appends t c =
    Appends-bind empty _ _ _ _ (create_control-Appends t) (λ d v. add_channel-Appends d v c)

range_message-Appends :
    (t lo hi : ℕ)
    → Appends empty ((control_bytes t ++ le_bytes 8 lo) ++ le_bytes 8 hi) (range_message t lo hi)
unfolding range_message
range_message-Appends t lo hi =
    Appends-bind empty _ _ _ _ (channel_message-Appends t lo) (λ d v. add_channel-Appends d v hi)

-- A message that fits, as its reader finds it.
record Built (bytes : List ℕ) (r : Result Datagram) : Type 0 where
  dg : Datagram
  built : r ≡ ok dg
  ahead : At (record { dg = dg; offset = 0 }) bytes

built :
    (bytes : List ℕ) (r : Result Datagram)
    → length bytes ≤ dgsize_max
    → Appends empty bytes r
    → Built bytes r
unfolding empty
built bytes r fits (inl (dg, e, v, text, off)) = record {
  dg = dg;
  built = e;
  ahead = record { valid = v; inside = omega arith; ahead = text };
}
built bytes r fits (inr (e, over)) = let no : ⊥ = omega arith in absurd no

iterate-At :
    (dg : Datagram) (bytes : List ℕ)
    → At (record { dg = dg; offset = 0 }) bytes
    → iterate dg 0 ≡ (ok tt, record { dg = dg; offset = 0 })
unfolding iterate
iterate-At dg bytes at =
    check_read_length_ok (record { dg = dg; offset = 0 }) 0 at.valid (omega arith)

-- The iterator behind the header of a control message.
abbrev behind : Datagram → DatagramIterator
behind dg = step 2 (step 8 (step 1 (record { dg = dg; offset = 0 })))

module _ (dg : Datagram) (t : ℕ) (rest : List ℕ) (fits : t < 2 ^ 16)
    (at : At (record { dg = dg; offset = 0 }) (control_bytes t ++ rest)) where
  parts :
      At
        (record { dg = dg; offset = 0 })
        (le_bytes 1 1 ++ (le_bytes 8 control_message ++ (le_bytes 2 t ++ rest)))
  parts = subst (At (record { dg = dg; offset = 0 })) (simp append_assoc) at

  -- Behind the header are the arguments.
  received : (receive_datagram dg ≡ caught (read_control t (behind dg)).0) × At (behind dg) rest
  unfolding receive_datagram read_request
  received =
      let (e₁, at₁) = read_uint8-Reads 1 (record { dg = dg; offset = 0 }) _ (omega arith) parts in
      let (e₂, at₂) =
        read_channel-Reads control_message (step 1 (record { dg = dg; offset = 0 })) _ (omega arith)
          at₁ in
      let (e₃, at₃) =
        read_uint16-Reads t (step 8 (step 1 (record { dg = dg; offset = 0 }))) rest fits at₂ in
      (rw (iterate-At dg _ at) (rw e₁ (rw e₂ (rw e₃ refl))), at₃)

-- The messages of MDNetworkUpstream and of the post-removes.
pub data Control : Type 0 where
  add_channel remove_channel clear_removes : ℕ → Control
  add_range remove_range : ℕ → ℕ → Control
  post_remove : ℕ → Datagram → Control

unfoldable pub message_of : Control → Result Datagram
unfolding channel_message range_message post_remove_message
message_of (add_channel c) = channel_message control_add_channel c
message_of (remove_channel c) = channel_message control_remove_channel c
message_of (clear_removes c) = channel_message control_clear_post_removes c
message_of (add_range lo hi) = range_message control_add_range lo hi
message_of (remove_range lo hi) = range_message control_remove_range lo hi
message_of (post_remove c dg) = post_remove_message c dg

unfoldable pub request_of : Control → Request
request_of (add_channel c) = calls (subscribe_channel c)
request_of (remove_channel c) = calls (unsubscribe_channel c)
request_of (clear_removes c) = calls (clear_post_removes c)
request_of (add_range lo hi) = subscribe_range lo hi
request_of (remove_range lo hi) = unsubscribe_range lo hi
request_of (post_remove c dg) = calls (add_post_remove c (of_data (contents dg)))

-- The channels have 64 bits, and a post-remove fits a message with the header of 21 bytes around it.
abbrev pub IsFit : Control → Type 0
IsFit (add_channel c) = c < 2 ^ 64
IsFit (remove_channel c) = c < 2 ^ 64
IsFit (clear_removes c) = c < 2 ^ 64
IsFit (add_range lo hi) = (lo < 2 ^ 64) × (hi < 2 ^ 64)
IsFit (remove_range lo hi) = (lo < 2 ^ 64) × (hi < 2 ^ 64)
IsFit (post_remove c dg) = (c < 2 ^ 64) × IsValid dg × (dg.buf_offset + 21 ≤ dgsize_max)

-- The type of a control message and its arguments.
message-received :
    (t : ℕ) (arguments : List ℕ) (r : Result Datagram) (request : Request)
    → t < 2 ^ 16
    → length arguments + 11 ≤ dgsize_max
    → Appends empty (control_bytes t ++ arguments) r
    → ((dg : Datagram)
        → At (behind dg) arguments
        → caught (read_control t (behind dg)).0 ≡ ok request)
    → (r >>= receive_datagram) ≡ ok request
message-received t arguments r request h small appends reads =
    let b =
      built (control_bytes t ++ arguments) r
        (omega (
          arith,
          small,
          length-append (control_bytes t) arguments,
          length-append (le_bytes 1 1) (le_bytes 8 control_message ++ le_bytes 2 t),
          length-append (le_bytes 8 control_message) (le_bytes 2 t),
          length-le_bytes 1 1,
          length-le_bytes 8 control_message,
          length-le_bytes 2 t,
        ))
        appends in
    let (e, at) = received b.dg t arguments h b.ahead in rw b.built (e ∙ reads b.dg at)

channel-received :
    (t c : ℕ) (request : Request)
    → t < 2 ^ 16
    → ((dg : Datagram)
        → At (behind dg) (le_bytes 8 c ++ [])
        → caught (read_control t (behind dg)).0 ≡ ok request)
    → (channel_message t c >>= receive_datagram) ≡ ok request
channel-received t c request h reads =
    message-received t (le_bytes 8 c ++ []) (channel_message t c) request h
      (omega (arith, length-append (le_bytes 8 c) [], length-le_bytes 8 c))
      (subst (λ (x : List ℕ). Appends empty (control_bytes t ++ x) (channel_message t c))
        (sym (append-nil (le_bytes 8 c))) (channel_message-Appends t c))
      reads

range-received :
    (t lo hi : ℕ) (request : Request)
    → t < 2 ^ 16
    → ((dg : Datagram)
        → At (behind dg) (le_bytes 8 lo ++ (le_bytes 8 hi ++ []))
        → caught (read_control t (behind dg)).0 ≡ ok request)
    → (range_message t lo hi >>= receive_datagram) ≡ ok request
range-received t lo hi request h reads =
    message-received t (le_bytes 8 lo ++ (le_bytes 8 hi ++ [])) (range_message t lo hi) request h
      (omega (
        arith,
        length-append (le_bytes 8 lo) (le_bytes 8 hi ++ []),
        length-append (le_bytes 8 hi) [],
        length-le_bytes 8 lo,
        length-le_bytes 8 hi,
      ))
      (subst (λ (x : List ℕ). Appends empty x (range_message t lo hi))
        (rw (append-nil (le_bytes 8 hi))
          (append_assoc (control_bytes t) (le_bytes 8 lo) (le_bytes 8 hi)))
        (range_message-Appends t lo hi))
      reads

range-Reads :
    (f : ℕ → ℕ → Request) (lo hi : ℕ) (dgi : DatagramIterator)
    → lo < 2 ^ 64
    → hi < 2 ^ 64
    → At dgi (le_bytes 8 lo ++ (le_bytes 8 hi ++ []))
    → (read_range f dgi).0 ≡ ok (f lo hi)
unfolding read_range
range-Reads f lo hi dgi h k at =
    let (e, at') = read_channel-Reads lo dgi _ h at in
    rw e (rw ((read_channel-Reads hi (step 8 dgi) [] k at').0) refl)

post_remove-Appends :
    (c : ℕ) (dg : Datagram)
    → IsValid dg
    → Appends empty
        ((control_bytes control_add_post_remove ++ le_bytes 8 c)
          ++ (le_bytes 2 dg.buf_offset ++ contents dg))
        (post_remove_message c dg)
unfolding post_remove_message
post_remove-Appends c dg w =
    Appends-bind empty _ _ _ _ (channel_message-Appends control_add_post_remove c)
      (λ d v. add_blob_of-Appends d v dg w)

read_datagram-ahead :
    (bytes rest : List ℕ) (dgi : DatagramIterator)
    → length bytes ≤ dgsize_max
    → At dgi (le_bytes 2 (length bytes) ++ (bytes ++ rest))
    → (read_datagram dgi).0 ≡ ok (of_data bytes)
unfolding read_datagram
read_datagram-ahead bytes rest dgi small at =
    let (e, at') = read_size-Reads (length bytes) dgi (bytes ++ rest) (omega arith) at in
    rw e (rw (load_ok (step 2 dgi) bytes rest at') refl)

post_remove-Reads :
    (c : ℕ) (bytes : List ℕ) (dgi : DatagramIterator)
    → c < 2 ^ 64
    → length bytes ≤ dgsize_max
    → At dgi (le_bytes 8 c ++ (le_bytes 2 (length bytes) ++ (bytes ++ [])))
    → (read_post_remove dgi).0 ≡ ok (calls (add_post_remove c (of_data bytes)))
unfolding read_post_remove
post_remove-Reads c bytes dgi h small at =
    let (e, at') = read_channel-Reads c dgi _ h at in
    let e' = read_datagram-ahead bytes [] (step 8 dgi) small at' in
    rw e (
      and_then-ok (read_datagram (step 8 dgi)) (of_data bytes) (λ x. calls (add_post_remove c x))
        e')
  where
    and_then-ok :
        (s : Result Datagram × DatagramIterator) (x : Datagram) (f : Datagram → Request)
        → s.0 ≡ ok x
        → (and_then s (λ y d. (ok (f y), d))).0 ≡ ok (f x)
    and_then-ok (ok y, d) x f e = ap (λ (r : Result Datagram). r >>= λ z. ok (f z)) e
    and_then-ok (err z, d) x f e = absurd (cc)

post_remove-received :
    (c : ℕ) (dg : Datagram)
    → c < 2 ^ 64
    → IsValid dg
    → dg.buf_offset + 21 ≤ dgsize_max
    → (post_remove_message c dg >>= receive_datagram)
      ≡ ok (calls (add_post_remove c (of_data (contents dg))))
unfolding read_control
post_remove-received c dg h v small =
    let len : length (contents dg) ≡ dg.buf_offset = length-contents dg v in
    message-received control_add_post_remove
      (le_bytes 8 c ++ (le_bytes 2 (length (contents dg)) ++ (contents dg ++ [])))
      (post_remove_message c dg) _ (omega arith)
      (omega (
        arith,
        len,
        length-append (le_bytes 8 c) (le_bytes 2 (length (contents dg)) ++ (contents dg ++ [])),
        length-append (le_bytes 2 (length (contents dg))) (contents dg ++ []),
        length-append (contents dg) [],
        length-le_bytes 8 c,
        length-le_bytes 2 (length (contents dg)),
      ))
      (subst (λ (x : List ℕ). Appends empty x (post_remove_message c dg))
        (rw (len, append-nil (contents dg))
          (append_assoc (control_bytes control_add_post_remove) (le_bytes 8 c)
            (le_bytes 2 dg.buf_offset ++ contents dg)))
        (post_remove-Appends c dg v))
      (λ d at. ap caught (post_remove-Reads c (contents dg) (behind d) h (omega arith) at))

-- What the link to the upstream director writes, its participant there reads: the message for a channel or
-- a range that is added or removed, or for post-removes that are added or cleared, is built, and receiving
-- it makes the same request, with the same channels of 64 bits, and with the contents of the datagram for
-- a post-remove, where that is valid and leaves 21 bytes below DGSIZE_MAX.
pub receive_datagram-message_of :
    (k : Control) → IsFit k → (message_of k >>= receive_datagram) ≡ ok (request_of k)
unfolding message_of request_of read_control
receive_datagram-message_of (add_channel c) h =
    channel-received control_add_channel c _ (omega arith)
      (λ dg at. rw ((read_channel-Reads c (behind dg) [] h at).0) refl)
receive_datagram-message_of (remove_channel c) h =
    channel-received control_remove_channel c _ (omega arith)
      (λ dg at. rw ((read_channel-Reads c (behind dg) [] h at).0) refl)
receive_datagram-message_of (clear_removes c) h =
    channel-received control_clear_post_removes c _ (omega arith)
      (λ dg at. rw ((read_channel-Reads c (behind dg) [] h at).0) refl)
receive_datagram-message_of (add_range lo hi) h =
    range-received control_add_range lo hi _ (omega arith)
      (λ dg at. ap caught (range-Reads subscribe_range lo hi (behind dg) (h.0) (h.1) at))
receive_datagram-message_of (remove_range lo hi) h =
    range-received control_remove_range lo hi _ (omega arith)
      (λ dg at. ap caught (range-Reads unsubscribe_range lo hi (behind dg) (h.0) (h.1) at))
receive_datagram-message_of (post_remove c dg) h = post_remove-received c dg (h.0) (h.1) (h.2)
