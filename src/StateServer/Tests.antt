-- ===== src/StateServer/Tests.antt =====
-- src/stateserver: a concrete object, and messages to it and to its server.
use astron.Base.{
  ℕ, ◌+◌, ◌^◌, ◌≡◌, refl, List, [], ◌∷◌, ◌++◌, true, false, Option, none, some, length, arith,
  if◌then◌else◌, ◌==◌, ◌||◌,
}
use astron.Channels.{parent_to_children}
use astron.Bytes.{le_bytes}
use astron.Datagram.{empty}
use astron.Datagram.Header.{empty-IsValid}
use astron.Dclass.Number.{NumericRange, untyped}
use astron.Dclass.Types.{numeric, uint16}
use astron.Dclass.Class.{Class, AtomicField, atomic, has_keyword, get_field_by_id, get_id}
use astron.Iterator.{DatagramIterator}
use astron.StateServer.Object.{
  DistributedObject, Context, Effect, subscribed, ZoneObjects, contains, erase, zone_of, count,
}
use astron.StateServer.Dispatch.{on_changing_ai, on_get_ai_resp}
use astron.StateServer.Dispatch.Explicit.{explicit_ai_stays}
use astron.StateServer.Object.{insert}
use astron.StateServer.Zones.{child_moved}
use astron.StateServer.Zones.Moves.{child_moved-zone_of}
use mathlib.Core.Logic.{◌≢◌}
use astron.StateServer.Dispatch.{handle_datagram}
use astron.StateServer.Fields.{saved}
use astron.StateServer.Fields.Stored.{Found, handle_one_get-Found}
use astron.StateServer.Query.{handle_one_get}
use astron.StateServer.Placement.{Stays}
use astron.StateServer.Placement.Invariant.{IsPlaced}
use astron.StateServer.Placement.Ended.{Settled}
use astron.StateServer.Placement.Messages.{handle_datagram-Settled}
use astron.StateServer.Server
use astron.StateServer.Server.{ServerContext, new_object, construct, construct_loaded}
use astron.StateServer.Server.Construct.{
  construct-Constructed, construct_loaded-IsPlaced, Constructed, IsFresh,
}
use astron.StateServer.Server.Table.{
  IsTable, Extends, handle_datagram-IsTable, handle_datagram-Extends,
}
use astron.StateServer.Zones.{remove_child, active_zones}
use astron.StateServer.Zones.Children.{IsZoneTable, remove_child-zone_of}

abbrev none_given : NumericRange
none_given = record {
  type = untyped;
  min = record { type = untyped; bits = 0 };
  max = record { type = untyped; bits = 0 };
}

-- A field `uint16 ram`, and the class that has only it.
abbrev word : AtomicField
word = record {
  id = 3;
  keywords = "ram" ∷ [];
  type = numeric (record { type = uint16; orig_range = none_given; range = none_given });
}

abbrev sample_class : Class
sample_class = record { id = 4; constructor = []; fields = atomic word ∷ [] }

-- An object under the parent 1000.
abbrev child : DistributedObject
child = record {
  do_id = 2000;
  parent_id = 1000;
  zone_id = 7;
  dclass = sample_class;
  required_fields = [];
  ram_fields = [];
  ai_channel = 0;
  owner_channel = 0;
  ai_explicitly_set = false;
  parent_synchronized = true;
  next_context = 0;
  zone_objects = [];
}

-- To the channel 2000, from 77: SET_LOCATION (2040) to the parent 1001, zone 8.
abbrev move : List ℕ
move =
    1 ∷ 208 ∷ 7 ∷ 0 ∷ 0 ∷ 0 ∷ 0 ∷ 0 ∷ 0 ∷ 77 ∷ 0 ∷ 0 ∷ 0 ∷ 0 ∷ 0 ∷ 0 ∷ 0 ∷ 248 ∷ 7 ∷ 233 ∷ 3 ∷ 0 ∷ 0
    ∷ 8 ∷ 0 ∷ 0 ∷ 0 ∷ []

abbrev iterator_of : List ℕ → ℕ → DatagramIterator
iterator_of bytes offset = record {
  dg = record { buf = bytes; buf_cap = length bytes; buf_offset = length bytes };
  offset = offset;
}

abbrev before_move : Context
before_move = record {
  self = child;
  dgi = iterator_of move 9;
  effects = subscribed 2000 ∷ subscribed (2 ^ 32 + 1000) ∷ [];
}

before_move-IsPlaced : IsPlaced before_move
unfolding astron.StateServer.Placement.replay astron.StateServer.Placement.Invariant.place_channels
    parent_to_children astron.StateServer.Object.insert contains
before_move-IsPlaced = record { apart = λ e. omega arith; small = omega arith; follows = refl }

handle_datagram-Settled_example : Settled (handle_datagram before_move).1
handle_datagram-Settled_example = handle_datagram-Settled before_move before_move-IsPlaced

-- To the channel 10, from 77: CREATE_OBJECT_WITH_REQUIRED (2000) of the object 2001 under 1000, zone 7, of
-- the class 4.
abbrev create_message : List ℕ
create_message =
    1 ∷ 10 ∷ 0 ∷ 0 ∷ 0 ∷ 0 ∷ 0 ∷ 0 ∷ 0 ∷ 77 ∷ 0 ∷ 0 ∷ 0 ∷ 0 ∷ 0 ∷ 0 ∷ 0 ∷ 208 ∷ 7 ∷ 209 ∷ 7 ∷ 0 ∷ 0
    ∷ 232 ∷ 3 ∷ 0 ∷ 0 ∷ 7 ∷ 0 ∷ 0 ∷ 0 ∷ 4 ∷ 0 ∷ []

-- An object of the class under construction, with nothing of the message left to read.
abbrev fresh : Context
fresh = record {
  self = record child { parent_id = 0; zone_id = 0 };
  dgi = iterator_of create_message 33;
  effects = [];
}

fresh-IsFresh : IsFresh 2000 fresh
unfolding astron.StateServer.Placement.replay
fresh-IsFresh = (
  record { same_id = refl; same_parent = refl; same_channels = refl },
  (λ e. omega arith),
  omega arith,
)

construct-Constructed_example : Constructed 2000 (construct 1000 7 false fresh)
construct-Constructed_example = construct-Constructed 1000 7 false fresh fresh-IsFresh

construct_loaded-IsPlaced_example : IsPlaced (construct_loaded 77 1000 7 fresh).1
construct_loaded-IsPlaced_example = construct_loaded-IsPlaced 77 1000 7 fresh fresh-IsFresh

abbrev classes : ℕ → Option Class
classes id = if id == 4 then some sample_class else none

abbrev server : ServerContext
server = record { objs = (2000, child) ∷ []; dgi = iterator_of create_message 9; effects = [] }

server-IsTable : IsTable server.objs
unfolding IsTable Server.knows
server-IsTable = (refl, refl, tt)

handle_datagram-IsTable_example : IsTable (Server.handle_datagram classes server).1.objs
handle_datagram-IsTable_example = handle_datagram-IsTable classes server server-IsTable

handle_datagram-Extends_example : Extends server.objs (Server.handle_datagram classes server).1.objs
handle_datagram-Extends_example = handle_datagram-Extends classes server

word_known : get_field_by_id child.dclass 3 ≡ some (atomic word)
unfolding get_field_by_id get_id
word_known = refl

word_kept : (has_keyword (atomic word) "required" || has_keyword (atomic word) "ram") ≡ true
unfolding has_keyword
word_kept = refl

word_apart :
    has_keyword (atomic word) "required" ≡ false → count (atomic word) child.required_fields ≡ false
unfolding count
word_apart plain = refl

handle_one_get-Found_example :
    Found empty
      (le_bytes 2 3 ++ (5 ∷ 6 ∷ []))
      (handle_one_get (saved (atomic word) (5 ∷ 6 ∷ []) child) false 3 empty)
handle_one_get-Found_example =
    handle_one_get-Found word (5 ∷ 6 ∷ []) child false empty empty-IsValid (omega arith) word_known
      word_kept word_apart

abbrev zones : ZoneObjects
zones = (7, 2000 ∷ 2001 ∷ []) ∷ (8, 2002 ∷ []) ∷ []

zones-IsZoneTable : IsZoneTable zones
unfolding IsZoneTable contains active_zones
zones-IsZoneTable = (refl, (refl, tt))

remove_child-zone_of_example :
    zone_of 8 (remove_child 2002 8 zones)
    ≡ (if 8 == 8 then erase 2002 (zone_of 8 zones) else zone_of 8 zones)
remove_child-zone_of_example = remove_child-zone_of 2002 8 8 zones zones-IsZoneTable

-- The parent 2000 of the child 2003.
abbrev parent : Context
parent = record {
  self = record child { zone_objects = zones; ai_explicitly_set = true };
  dgi = iterator_of move 9;
  effects = [];
}

nine_eight : ◌≢◌ {A = ℕ} 9 8
nine_eight e = omega arith

child_moved-zone_of_example :
    zone_of 9 (child_moved 2002 2000 9 2000 8 parent).1.self.zone_objects ≡ (
      if 9 == 9
      then insert 2002 (zone_of 9 zones)
      else if 8 == 9
      then erase 2002 (zone_of 9 zones)
      else zone_of 9 zones)
child_moved-zone_of_example = child_moved-zone_of 2002 9 8 9 parent zones-IsZoneTable nine_eight

explicit_ai_stays_example :
    ((on_changing_ai 77 parent).1.self ≡ parent.self)
    × ((on_changing_ai 77 parent).1.effects ≡ parent.effects)
    × ((on_get_ai_resp 77 parent).1.self ≡ parent.self)
    × ((on_get_ai_resp 77 parent).1.effects ≡ parent.effects)
explicit_ai_stays_example = explicit_ai_stays 77 parent refl
