-- ===== src/StateServer/Object.antt =====
-- src/stateserver/DistributedObject.h: the state of a distributed object, and the handlers that
-- work on it.
pub mod Keeps
pub mod Maps
use astron.Base.{
  ℕ, ◌+◌, List, [], ◌∷◌, ◌++◌, Bool, true, false, ltb, ◌==◌, ◌!=◌, if◌then◌else◌, Option, none,
  some,
}
use astron.Base.Result.{Result, Exception, ok, err}
use astron.Datagram.{Datagram}
use astron.Dclass.Class.{Field, Class, get_id}
use astron.Iterator.{DatagramIterator, Reader}

-- FieldValues, a std::map in the order of the field ids; UnorderedFieldValues is the same map.
abbrev pub FieldValues : Type 0
FieldValues = List (Field × List ℕ)

-- std::unordered_map<zone_t, std::unordered_set<doid_t>>. A set is the list of its elements.
abbrev pub ZoneObjects : Type 0
ZoneObjects = List (ℕ × List ℕ)

pub record DistributedObject : Type 0 where
  pub do_id : ℕ
  pub parent_id : ℕ
  pub zone_id : ℕ
  pub dclass : Class
  pub required_fields : FieldValues
  pub ram_fields : FieldValues
  pub ai_channel : ℕ
  pub owner_channel : ℕ
  pub ai_explicitly_set : Bool
  pub parent_synchronized : Bool
  pub next_context : ℕ
  pub zone_objects : ZoneObjects

-- What a handler asks of the rest of the daemon: of the message director, and of the state server's
-- table of objects.
pub data Effect : Type 0 where
  routed : Datagram → Effect
  subscribed unsubscribed : ℕ → Effect
  erased : ℕ → Effect
  terminated : Effect

-- The object, the message that it handles, and the effects so far, the oldest first.
pub record Context : Type 0 where
  pub self : DistributedObject
  pub dgi : DatagramIterator
  pub effects : List Effect

-- An exception leaves what was done before it.
abbrev pub Handler {ℓ} : Type ℓ → Type ℓ
Handler A = Context → Result A × Context

abbrev pub and_then {ℓ κ} :
    {A : Type ℓ} {B : Type κ} → Result A × Context → (A → Handler B) → Result B × Context
and_then (ok a, c) f = f a c
and_then (err e, c) f = (err e, c)

unfoldable pub returns {ℓ} : {A : Type ℓ} → A → Handler A
returns a c = (ok a, c)

unfoldable pub get_self : Handler DistributedObject
get_self c = (ok c.self, c)

unfoldable pub modify : (DistributedObject → DistributedObject) → Handler (Unit {0})
modify f c = (ok tt, record c { self = f c.self })

unfoldable pub emit : Effect → Handler (Unit {0})
emit e c = (ok tt, record c { effects = c.effects ++ e ∷ [] })

abbrev pub with_iterator {ℓ} :
    {A : Type ℓ} → Context → Result A × DatagramIterator → Result A × Context
with_iterator c (r, dgi) = (r, record c { dgi = dgi })

unfoldable pub reads {ℓ} : {A : Type ℓ} → Reader A → Handler A
reads m c = with_iterator c (m c.dgi)

-- A datagram under construction; the exception is DatagramOverflow.
unfoldable pub builds {ℓ} : {A : Type ℓ} → Result A → Handler A
builds r c = (r, c)

-- Unfolding this opens the five primitives too.
infixl 5 ◌>>=◌ ◌>>◌
unfoldable pub ◌>>=◌ {ℓ κ} : {A : Type ℓ} {B : Type κ} → Handler A → (A → Handler B) → Handler B
unfolding returns get_self modify emit reads builds
◌>>=◌ m f c = and_then (m c) f

abbrev pub ◌>>◌ {ℓ κ} : {A : Type ℓ} {B : Type κ} → Handler A → Handler B → Handler B
m >> k = m >>= λ _. k

unfoldable pub when : Bool → Handler (Unit {0}) → Handler (Unit {0})
when b m = if b then m else returns tt

-- A test of a pointer.
unfoldable pub if_some {ℓ κ} :
    {A : Type ℓ} {B : Type κ} → Option A → Handler B → (A → Handler B) → Handler B
if_some none m k = m
if_some (some a) m k = k a

unfoldable pub route_datagram : Datagram → Handler (Unit {0})
route_datagram dg = emit (routed dg)

unfoldable pub subscribe_channel : ℕ → Handler (Unit {0})
subscribe_channel channel = emit (subscribed channel)

unfoldable pub unsubscribe_channel : ℕ → Handler (Unit {0})
unsubscribe_channel channel = emit (unsubscribed channel)

-- std::unordered_set::insert and erase.
unfoldable pub contains : ℕ → List ℕ → Bool
contains x [] = false
contains x (y ∷ ys) = if y == x then true else contains x ys

unfoldable pub insert : ℕ → List ℕ → List ℕ
unfolding contains
insert x xs = if contains x xs then xs else xs ++ x ∷ []

unfoldable pub erase : ℕ → List ℕ → List ℕ
erase x [] = []
erase x (y ∷ ys) = if y == x then ys else y ∷ erase x ys

-- std::map::operator[] as an assignment.
unfoldable pub assign : Field → List ℕ → FieldValues → FieldValues
assign f value [] = (f, value) ∷ []
assign f value ((g, v) ∷ m) =
    if get_id g == get_id f
    then (g, value) ∷ m
    else if ltb (get_id f) (get_id g)
    then (f, value) ∷ (g, v) ∷ m
    else (g, v) ∷ assign f value m

unfoldable pub count : Field → FieldValues → Bool
count f [] = false
count f ((g, v) ∷ m) = if get_id g == get_id f then true else count f m

unfoldable pub value_of : Field → FieldValues → List ℕ
value_of f [] = []
value_of f ((g, v) ∷ m) = if get_id g == get_id f then v else value_of f m

-- operator[] as a read: a missing key is inserted with an empty vector.
unfoldable pub index : Field → FieldValues → FieldValues
unfolding count assign
index f m = if count f m then m else assign f [] m

-- m_zone_objects[zone], which inserts an empty set for a missing zone; and the table with that entry
-- replaced or erased.
unfoldable pub zone_of : ℕ → ZoneObjects → List ℕ
zone_of zone [] = []
zone_of zone ((z, children) ∷ m) = if z == zone then children else zone_of zone m

unfoldable pub set_zone : ℕ → List ℕ → ZoneObjects → ZoneObjects
set_zone zone children [] = (zone, children) ∷ []
set_zone zone children ((z, old) ∷ m) =
    if z == zone then (zone, children) ∷ m else (z, old) ∷ set_zone zone children m

unfoldable pub erase_zone : ℕ → ZoneObjects → ZoneObjects
erase_zone zone [] = []
erase_zone zone ((z, children) ∷ m) = if z == zone then m else (z, children) ∷ erase_zone zone m
