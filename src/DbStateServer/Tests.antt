-- ===== src/DbStateServer/Tests.antt =====
-- src/stateserver/DBStateServer.cpp: a server with one active object.
use astron.Base.{
  ℕ, ◌+◌, ◌*◌, ◌/◌, ◌%◌, ◌^◌, ◌≡◌, refl, List, [], ◌∷◌, ◌++◌, Bool, true, false, ◌==◌,
  if◌then◌else◌, Option, none, some, arith,
}
use astron.Base.Result.{ok, ◌>>=◌}
use astron.Base.Table.{has_key}
use astron.Bytes.{le_bytes}
use astron.Datagram.{Datagram, of_data}
use astron.Dclass.Class.{Field, Class}
use astron.Iterator.{DatagramIterator}
use astron.Iterator.Cursor.{At}
use astron.StateServer.Server.{new_object}
use astron.DbStateServer.Messages.{get_all_response}
use astron.DbStateServer.State.{LoadingObject, DbStateServer}
use astron.DbStateServer.Handlers.{query_field, handle_get_field_resp}
use astron.DbStateServer.Loading.{cached_do_id}
use astron.DbStateServer.Activation.{handle_loading}
use astron.DbStateServer.Cached.{cached_do_id-get_all_response}
use astron.DbStateServer.Answers.{Answers, handle_get_field_resp-Answers}
use astron.DbStateServer.Others.{Loaded}
use astron.DbStateServer.Loaded.{handle_loading-Loaded}
use astron.DbStateServer.Apart.{Apart}

abbrev toon : Class
toon = record { id = 1; constructor = []; fields = [] }

abbrev classes : ℕ → Option Class
classes id = if id == 1 then some toon else none

abbrev no_fields : ℕ → Option Field
no_fields id = none

abbrev no_default : Field → Bool
no_default f = false

abbrev empty_default : Field → List ℕ
empty_default f = []

-- From the sender 9: an activation of the object 100001 in the zone 2 of the parent 1.
abbrev activation : Datagram
activation = of_data (
    9 ∷ 0 ∷ 0 ∷ 0 ∷ 0 ∷ 0 ∷ 0 ∷ 0 ∷ 152 ∷ 8 ∷ 161 ∷ 134 ∷ 1 ∷ 0 ∷ 1 ∷ 0 ∷ 0 ∷ 0 ∷ 2 ∷ 0 ∷ 0 ∷ 0
    ∷ [])

abbrev server : DbStateServer
server = record {
  objs = (5, new_object 5 toon) ∷ [];
  loading = [];
  next_context = 0;
  context_datagrams = [];
  inactive_loads = [];
  dgi = record { dg = activation; offset = 0 };
  effects = [];
}

-- With the id 100001 and a context below 65536, what is read back is 34465 * 65536.
cached_do_id-get_all_response_example :
    (get_all_response 1000 100001 7 >>= cached_do_id) ≡ ok (7 / 2 ^ 16 + 100001 % 2 ^ 16 * 2 ^ 16)
cached_do_id-get_all_response_example =
    cached_do_id-get_all_response 1000 100001 7 (omega arith) (omega arith) (omega arith)

-- The answer of the database: the context 0, success, the field 3 and its value.
abbrev answer : DatagramIterator
answer = record { dg = of_data (0 ∷ 0 ∷ 0 ∷ 0 ∷ 1 ∷ 3 ∷ 0 ∷ 42 ∷ []); offset = 0 }

abbrev waiting : DbStateServer
waiting = record (query_field 4003 no_fields no_default empty_default 1000 7 100001 3 server).1 {
  dgi = answer;
}

answer-At : At answer (le_bytes 4 0 ++ (1 ∷ 3 ∷ 0 ∷ 42 ∷ []))
unfolding of_data le_bytes
answer-At = record {
  valid = record { allocated = refl; within_cap = omega arith; within_max = omega arith };
  inside = omega arith;
  ahead = refl;
}

handle_get_field_resp-Answers_example :
    Answers 1000 100001 7 0 (1 ∷ 3 ∷ 0 ∷ 42 ∷ []) waiting (handle_get_field_resp waiting)
handle_get_field_resp-Answers_example =
    handle_get_field_resp-Answers 4003 no_fields no_default empty_default server 1000 7 100001 3
      (omega arith) (omega arith) (omega arith) (1 ∷ 3 ∷ 0 ∷ 42 ∷ []) (omega arith) waiting refl
      answer-At

-- The object 100001 is loading, and the answer of the database for its context 0 arrives.
abbrev loader : LoadingObject
loader = record {
  parent_id = 1;
  zone_id = 2;
  context = 0;
  dclass = none;
  field_updates = [];
  valid_contexts = [];
  datagram_queue = [];
  is_loaded = false;
}

-- The answer of the database: the context 0, success, the class 1, and no fields.
abbrev found_answer : Datagram
found_answer =
    of_data (3 ∷ 0 ∷ 0 ∷ 0 ∷ 0 ∷ 0 ∷ 0 ∷ 0 ∷ 199 ∷ 11 ∷ 0 ∷ 0 ∷ 0 ∷ 0 ∷ 1 ∷ 1 ∷ 0 ∷ 0 ∷ 0 ∷ [])

abbrev loading_server : DbStateServer
loading_server = record server {
  loading = (100001, loader) ∷ [];
  dgi = record { dg = found_answer; offset = 0 };
}

loading_server-Apart : Apart loading_server.objs loading_server.loading
unfolding has_key
loading_server-Apart id = ground arith

loading_server_loads : has_key 100001 loading_server.loading ≡ true
unfolding has_key
loading_server_loads = refl

handle_loading-Loaded_example : Loaded 100001 (
    handle_loading 4003 classes 10 no_fields no_default empty_default 100001 loader found_answer
      loading_server)
handle_loading-Loaded_example =
    handle_loading-Loaded 4003 classes 10 no_fields no_default empty_default 100001 loader
      found_answer loading_server loading_server-Apart loading_server_loads
