-- ===== src/MessageDirector/Upstream.antt =====
-- src/messagedirector/MDNetworkUpstream.cpp: the link to the upstream director.
use astron.Base.{ℕ, List, [], ◌∷◌, ◌++◌, Bool, true, false, if◌then◌else◌}
use astron.Base.Result.{Result, ok, fault, err, ◌>>=◌}
use astron.Datagram.{Datagram, add_channel, add_blob_of}
use astron.Datagram.Header.{create_control}

-- m_client is a connection: `sent` is what its send_datagram was given, the oldest first.
pub record Upstream : Type 0 where
  pub is_initialized : Bool
  pub is_sending : Bool
  pub messages : List Datagram
  pub sent : List Datagram

unfoldable pub send_datagram : Datagram → Upstream → Upstream
send_datagram dg u =
    if u.is_initialized
    then record u { sent = u.sent ++ dg ∷ [] }
    else record u { messages = u.messages ++ dg ∷ [] }

-- The loop of flush_send_queue: each datagram is taken off the queue and sent.
unfoldable pub send_all : List Datagram → Upstream → Upstream
send_all [] u = record u { messages = [] }
send_all (dg ∷ more) u = send_all more (record u { messages = more; sent = u.sent ++ dg ∷ [] })

unfoldable pub flush_send_queue : Upstream → Upstream
unfolding send_all
flush_send_queue u =
    if u.is_sending
    then u
    else record (send_all u.messages (record u { is_sending = true })) { is_sending = false }

-- With a socket; the assertion that no datagram is being sent fails with `fault`.
unfoldable pub on_connect : Upstream → Result Upstream
unfolding flush_send_queue
on_connect u =
    if u.is_sending then err fault else ok (flush_send_queue (record u { is_initialized = true }))

abbrev pub control_add_channel : ℕ
control_add_channel = 9000

abbrev pub control_remove_channel : ℕ
control_remove_channel = 9001

abbrev pub control_add_range : ℕ
control_add_range = 9002

abbrev pub control_remove_range : ℕ
control_remove_range = 9003

abbrev pub control_add_post_remove : ℕ
control_add_post_remove = 9010

abbrev pub control_clear_post_removes : ℕ
control_clear_post_removes = 9011

abbrev pub control_set_con_name : ℕ
control_set_con_name = 9012

abbrev pub control_set_con_url : ℕ
control_set_con_url = 9013

abbrev pub control_log_message : ℕ
control_log_message = 9014

-- The message that each of the calls sends.
unfoldable pub channel_message : ℕ → ℕ → Result Datagram
channel_message message_type c = create_control message_type >>= λ dg. add_channel dg c

unfoldable pub range_message : ℕ → ℕ → ℕ → Result Datagram
unfolding channel_message
range_message message_type lo hi = channel_message message_type lo >>= λ dg. add_channel dg hi

-- MessageDirector::preroute_post_remove.
unfoldable pub post_remove_message : ℕ → Datagram → Result Datagram
unfolding channel_message
post_remove_message sender post_remove =
    channel_message control_add_post_remove sender >>= λ dg. add_blob_of dg post_remove

-- A message that was built is sent; DatagramOverflow leaves the link as it is.
abbrev pub send_message : Result Datagram → Upstream → Result Upstream
send_message message u = do dg ← message; ok (send_datagram dg u)

unfoldable pub subscribe_channel : ℕ → Upstream → Result Upstream
subscribe_channel c u = send_message (channel_message control_add_channel c) u

unfoldable pub unsubscribe_channel : ℕ → Upstream → Result Upstream
unsubscribe_channel c u = send_message (channel_message control_remove_channel c) u

unfoldable pub subscribe_range : ℕ → ℕ → Upstream → Result Upstream
subscribe_range lo hi u = send_message (range_message control_add_range lo hi) u

unfoldable pub unsubscribe_range : ℕ → ℕ → Upstream → Result Upstream
unsubscribe_range lo hi u = send_message (range_message control_remove_range lo hi) u
