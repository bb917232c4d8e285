-- ===== src/MessageDirector/NetworkParticipant.antt =====
-- src/messagedirector/MDNetworkParticipant.cpp: what a downstream director asks for over its connection.
use astron.Base.{ℕ, ◌==◌, List, if◌then◌else◌}
use astron.Base.Result.{
  Result, ok, err, iterator_eof, datagram_overflow, constraint_violation, fault, stuck,
}
use astron.Datagram.{Datagram}
use astron.Datagram.Header.{control_message}
use astron.Iterator.{
  Reader, ◌>>=◌, returns, and_then, iterate, read_uint8, read_uint16, read_channel, read_string,
  read_blob, read_datagram,
}
use astron.MessageDirector.Director.{
  Call, route_datagram, subscribe_channel, unsubscribe_channel, add_post_remove, clear_post_removes,
  terminate,
}
use astron.MessageDirector.Upstream.{
  control_add_channel, control_remove_channel, control_add_range, control_remove_range,
  control_add_post_remove, control_clear_post_removes, control_set_con_name, control_set_con_url,
  control_log_message,
}

-- What the participant does with a datagram: a call of its own interface. An unknown control message is
-- logged, and no more.
pub data Request : Type 0 where
  calls : Call → Request
  subscribe_range unsubscribe_range : ℕ → ℕ → Request
  set_con_name set_con_url log_message : List ℕ → Request
  unknown : ℕ → Request

-- The cases of the switch.
unfoldable pub read_range : (ℕ → ℕ → Request) → Reader Request
read_range f = do lo ← read_channel; hi ← read_channel; returns (f lo hi)

unfoldable pub read_post_remove : Reader Request
read_post_remove = do
  sender ← read_channel
  dg ← read_datagram
  returns (calls (add_post_remove sender dg))

unfoldable pub read_control : ℕ → Reader Request
unfolding read_range read_post_remove
read_control msg_type =
    if msg_type == control_add_channel
    then (do c ← read_channel; returns (calls (subscribe_channel c)))
    else if msg_type == control_remove_channel
    then (do c ← read_channel; returns (calls (unsubscribe_channel c)))
    else if msg_type == control_add_range
    then read_range subscribe_range
    else if msg_type == control_remove_range
    then read_range unsubscribe_range
    else if msg_type == control_add_post_remove
    then read_post_remove
    else if msg_type == control_clear_post_removes
    then (do sender ← read_channel; returns (calls (clear_post_removes sender)))
    else if msg_type == control_set_con_name
    then (do name ← read_string; returns (set_con_name name))
    else if msg_type == control_set_con_url
    then (do url ← read_string; returns (set_con_url url))
    else if msg_type == control_log_message
    then (do message ← read_blob; returns (log_message message))
    else returns (unknown msg_type)

-- A message with one receiver, the control channel, is for the director; others are routed.
unfoldable pub read_request : Datagram → Reader Request
unfolding read_control
read_request dg = do
  channels ← read_uint8
  if channels == 1
      then (do
        channel ← read_channel
        if channel == control_message
            then (do msg_type ← read_uint16; read_control msg_type)
            else returns (calls (route_datagram dg)))
      else returns (calls (route_datagram dg))

-- A truncated datagram terminates the participant. Other exceptions are not caught.
abbrev pub caught : Result Request → Result Request
caught (ok request) = ok request
caught (err iterator_eof) = ok (calls terminate)
caught (err datagram_overflow) = err datagram_overflow
caught (err constraint_violation) = err constraint_violation
caught (err fault) = err fault
caught (err stuck) = err stuck

unfoldable pub receive_datagram : Datagram → Result Request
unfolding read_request
receive_datagram dg = caught (and_then (iterate dg 0) (λ _. read_request dg)).0
