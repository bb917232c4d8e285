-- ===== src/MessageDirector/Sending.antt =====
-- src/messagedirector/MDNetworkUpstream.cpp: building and sending messages.
use astron.Base.{ℕ, ◌+◌, ◌≢◌, List, length, leb, ltb, replicate, Bool-cases, inl, inr}
use astron.Base.Result.{Result, ok, err, stuck, ◌>>=◌}
use astron.Datagram.{
  Datagram, memory_write, memory_read, grow, check_add_length, store, append, add_uint8, add_uint16,
  add_channel, add_blob_of, add_size, empty, to_size_t, dgsize_max,
}
use astron.Datagram.Header.{create_control, add_control_header}
use astron.MessageDirector.Upstream.{Upstream, channel_message, post_remove_message, send_message}

-- A computation that does not end in `stuck`.
abbrev pub Unstuck {ℓ} : {A : Type ℓ} → Result A → Type 0
Unstuck (ok a) = Unit
Unstuck (err e) = e ≢ stuck

pub Unstuck-bind {ℓ κ} :
    {A : Type ℓ} {B : Type κ} (r : Result A) (f : A → Result B)
    → Unstuck r
    → ((a : A) → Unstuck (f a))
    → Unstuck (r >>= f)
Unstuck-bind (ok a) f h k = k a
Unstuck-bind (err e) f h k = h

memory_write-Unstuck : (buf : List ℕ) (n : ℕ) (bytes : List ℕ) → Unstuck (memory_write buf n bytes)
unfolding memory_write
memory_write-Unstuck buf n bytes = elim (Bool-cases (leb (n + length bytes) (length buf))) [
  | inl e ↦ rw e tt
  | inr e ↦ rw e (λ p. cc)
]

memory_read-Unstuck : (buf : List ℕ) (n k : ℕ) → Unstuck (memory_read buf n k)
unfolding memory_read
memory_read-Unstuck buf n k = elim (Bool-cases (leb (n + k) (length buf))) [
  | inl e ↦ rw e tt
  | inr e ↦ rw e (λ p. cc)
]

grow-Unstuck : (dg : Datagram) (len : ℕ) → Unstuck (grow dg len)
unfolding grow
grow-Unstuck dg len =
    Unstuck-bind (memory_read dg.buf 0 dg.buf_cap) _ (memory_read-Unstuck dg.buf 0 dg.buf_cap)
      λ old.
        Unstuck-bind (memory_write (replicate (dg.buf_cap + len + 64) 0) 0 old) _
          (memory_write-Unstuck (replicate (dg.buf_cap + len + 64) 0) 0 old) (λ buf. tt)

check_add_length-Unstuck : (dg : Datagram) (len : ℕ) → Unstuck (check_add_length dg len)
unfolding check_add_length
check_add_length-Unstuck dg len =
    elim (Bool-cases (ltb dgsize_max (to_size_t (dg.buf_offset + len)))) [
      | inl over ↦ rw over (λ p. cc)
      | inr fits ↦ rw fits (elim (Bool-cases (ltb dg.buf_cap (to_size_t (dg.buf_offset + len)))) [
        | inl full ↦ rw full (grow-Unstuck dg len)
        | inr room ↦ rw room tt
      ])
    ]

store-Unstuck : (dg : Datagram) (bytes : List ℕ) → Unstuck (store dg bytes)
unfolding store
store-Unstuck dg bytes =
    Unstuck-bind (memory_write dg.buf dg.buf_offset bytes) _
      (memory_write-Unstuck dg.buf dg.buf_offset bytes) (λ b. tt)

append-Unstuck : (dg : Datagram) (len : ℕ) (bytes : List ℕ) → Unstuck (append dg len bytes)
unfolding append
append-Unstuck dg len bytes =
    Unstuck-bind (check_add_length dg len) _ (check_add_length-Unstuck dg len)
      (λ d. store-Unstuck d bytes)

pub channel_message-Unstuck : (message_type c : ℕ) → Unstuck (channel_message message_type c)
unfolding channel_message create_control add_control_header add_uint8 add_channel add_uint16
channel_message-Unstuck message_type c =
    Unstuck-bind (create_control message_type) _
      (Unstuck-bind (append empty 1 _) _ (append-Unstuck empty 1 _)
        λ d. Unstuck-bind (append d 8 _) _ (append-Unstuck d 8 _) λ e. append-Unstuck e 2 _)
      (λ d. append-Unstuck d 8 _)

pub post_remove_message-Unstuck :
    (sender : ℕ) (dg : Datagram) → Unstuck (post_remove_message sender dg)
unfolding post_remove_message add_blob_of add_size
post_remove_message-Unstuck sender dg =
    Unstuck-bind (channel_message _ sender) _ (channel_message-Unstuck _ sender) λ d.
      Unstuck-bind (append d 2 _) _ (append-Unstuck d 2 _) λ e.
        Unstuck-bind (check_add_length e _) _ (check_add_length-Unstuck e _) λ f.
          Unstuck-bind (memory_read dg.buf 0 dg.buf_offset) _
            (memory_read-Unstuck dg.buf 0 dg.buf_offset) λ bytes. store-Unstuck f bytes

pub send_message-Unstuck :
    (r : Result Datagram) (u : Upstream) → Unstuck r → Unstuck (send_message r u)
send_message-Unstuck r u h = Unstuck-bind r _ h (λ dg. tt)
