-- ===== src/DbStateServer/Messages.antt =====
-- src/stateserver/DBStateServer.cpp: the datagrams that it builds, and the message types of src/core/msgtypes.h.
use astron.Base.{ℕ, ◌%◌, ◌^◌, List, [], ◌∷◌, Bool, true, false, length}
use astron.Base.Result.{Result, ok, ◌>>=◌}
use astron.Channels.{invalid_channel}
use astron.Datagram.{
  Datagram, add_uint8, add_uint16, add_uint32, add_doid, add_channel, add_bool, add_data,
}
use astron.Datagram.Header.{create, create_set}
use astron.Dclass.Class.{Field, get_id}
use astron.StateServer.Messages.{object_get_field_resp, object_get_fields_resp, object_get_all_resp}
use astron.StateServer.Object.{FieldValues}

abbrev pub dbss_activate_with_defaults : ℕ
dbss_activate_with_defaults = 2200

abbrev pub dbss_activate_with_defaults_other : ℕ
dbss_activate_with_defaults_other = 2201

abbrev pub dbss_get_activated : ℕ
dbss_get_activated = 2207

abbrev pub dbss_get_activated_resp : ℕ
dbss_get_activated_resp = 2208

abbrev pub dbss_delete_disk : ℕ
dbss_delete_disk = 2232

abbrev pub dbserver_get_field : ℕ
dbserver_get_field = 3010

abbrev pub dbserver_get_field_resp : ℕ
dbserver_get_field_resp = 3011

abbrev pub dbserver_get_fields : ℕ
dbserver_get_fields = 3012

abbrev pub dbserver_get_fields_resp : ℕ
dbserver_get_fields_resp = 3013

abbrev pub dbserver_get_all : ℕ
dbserver_get_all = 3014

abbrev pub dbserver_get_all_resp : ℕ
dbserver_get_all_resp = 3015

abbrev pub dbserver_set_field : ℕ
dbserver_set_field = 3020

abbrev pub dbserver_set_fields : ℕ
dbserver_set_fields = 3021

abbrev pub dbserver_delete : ℕ
dbserver_delete = 3032

-- A message that starts with a context.
unfoldable pub create_with_context : ℕ → ℕ → ℕ → ℕ → Result Datagram
create_with_context to from message_type context = do
  dg ← create to from message_type
  add_uint32 dg context

unfoldable pub activated_response : ℕ → ℕ → ℕ → Bool → Result Datagram
unfolding create_with_context
activated_response sender do_id context active = do
  dg ← create_with_context sender do_id dbss_get_activated_resp context
  dg ← add_doid dg do_id
  add_bool dg active

unfoldable pub delete_broadcast : List ℕ → ℕ → ℕ → Result Datagram
delete_broadcast targets sender do_id = do
  dg ← create_set targets sender dbss_delete_disk
  add_doid dg do_id

unfoldable pub delete_message : ℕ → ℕ → Result Datagram
delete_message db_channel do_id = do dg ← create db_channel do_id dbserver_delete; add_doid dg do_id

unfoldable pub set_field_message : ℕ → ℕ → ℕ → List ℕ → Result Datagram
set_field_message db_channel do_id field_id value = do
  dg ← create db_channel do_id dbserver_set_field
  dg ← add_doid dg do_id
  dg ← add_uint16 dg field_id
  add_data dg value

unfoldable pub add_values : Datagram → FieldValues → Result Datagram
add_values dg [] = ok dg
add_values dg ((f, value) ∷ values) = do
  dg ← add_uint16 dg (get_id f)
  dg ← add_data dg value
  add_values dg values

-- The number of fields is cut to 16 bits.
unfoldable pub set_fields_message : ℕ → ℕ → FieldValues → Result Datagram
unfolding add_values
set_fields_message db_channel do_id values = do
  dg ← create db_channel do_id dbserver_set_fields
  dg ← add_doid dg do_id
  dg ← add_uint16 dg (length values % 2 ^ 16)
  add_values dg values

unfoldable pub get_field_failure : ℕ → ℕ → ℕ → Result Datagram
unfolding create_with_context
get_field_failure sender do_id context = do
  dg ← create_with_context sender do_id object_get_field_resp context
  add_bool dg false

unfoldable pub get_field_default : ℕ → ℕ → ℕ → ℕ → List ℕ → Result Datagram
unfolding create_with_context
get_field_default sender do_id context field_id value = do
  dg ← create_with_context sender do_id object_get_field_resp context
  dg ← add_bool dg true
  dg ← add_uint16 dg field_id
  add_data dg value

unfoldable pub db_get_field_message : ℕ → ℕ → ℕ → ℕ → Result Datagram
unfolding create_with_context
db_get_field_message db_channel do_id context field_id = do
  dg ← create_with_context db_channel do_id dbserver_get_field context
  dg ← add_doid dg do_id
  add_uint16 dg field_id

-- The answer to a field that is not known.
unfoldable pub get_fields_failure : ℕ → ℕ → ℕ → Result Datagram
unfolding create_with_context
get_fields_failure sender do_id context = do
  dg ← create_with_context sender do_id object_get_fields_resp context
  add_uint8 dg 0

-- The fields that are not in the database, after a count of `n` fields.
unfoldable pub get_fields_response : ℕ → ℕ → ℕ → ℕ → FieldValues → Result Datagram
unfolding create_with_context add_values
get_fields_response sender do_id context n values = do
  dg ← create_with_context sender do_id object_get_fields_resp context
  dg ← add_bool dg true
  dg ← add_uint16 dg (n % 2 ^ 16)
  add_values dg values

unfoldable pub add_ids : Datagram → List Field → Result Datagram
add_ids dg [] = ok dg
add_ids dg (f ∷ fs) = add_uint16 dg (get_id f) >>= λ d. add_ids d fs

unfoldable pub db_get_fields_message : ℕ → ℕ → ℕ → List Field → Result Datagram
unfolding create_with_context add_ids
db_get_fields_message db_channel do_id context fields = do
  dg ← create_with_context db_channel do_id dbserver_get_fields context
  dg ← add_doid dg do_id
  dg ← add_uint16 dg (length fields % 2 ^ 16)
  add_ids dg fields

-- The location of an inactive object is the invalid channel.
unfoldable pub get_all_response : ℕ → ℕ → ℕ → Result Datagram
unfolding create_with_context
get_all_response sender do_id context = do
  dg ← create_with_context sender do_id object_get_all_resp context
  dg ← add_doid dg do_id
  add_channel dg invalid_channel

-- LoadingObject::send_get_object sends the same.
unfoldable pub db_get_all_message : ℕ → ℕ → ℕ → Result Datagram
unfolding create_with_context
db_get_all_message db_channel do_id context = do
  dg ← create_with_context db_channel do_id dbserver_get_all context
  add_doid dg do_id

unfoldable pub add_each : Datagram → List (List ℕ) → Result Datagram
add_each dg [] = ok dg
add_each dg (value ∷ values) = add_data dg value >>= λ d. add_each d values

-- What the database knows of an inactive object, behind the response that was prepared.
unfoldable pub add_object : Datagram → ℕ → List (List ℕ) → FieldValues → Result Datagram
unfolding add_each add_values
add_object dg class_id required ram = do
  dg ← add_uint16 dg class_id
  dg ← add_each dg required
  dg ← add_uint16 dg (length ram % 2 ^ 16)
  add_values dg ram
