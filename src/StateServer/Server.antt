-- ===== src/StateServer/Server.antt =====
-- src/stateserver/StateServer.cpp: the state server's table of objects, and the constructor that it calls in DistributedObject.cpp.
pub mod Construct
pub mod Table
use astron.Base.{
  ℕ, zero, suc, List, [], ◌∷◌, ◌++◌, Bool, true, false, ◌&&◌, ◌==◌, ◌!=◌, if◌then◌else◌, Option,
  none, some, length,
}
use astron.Base.Result.{Result, Exception, ok, err, iterator_eof}
use astron.Channels.{invalid_do_id, invalid_channel}
use astron.Datagram.{Datagram, add_channel}
use astron.Datagram.Header.{create_set}
use astron.Dclass.Class.{Field, Class, has_keyword, field_type, get_field_by_id}
use astron.Iterator.{
  DatagramIterator, Reader, read_channel, read_uint16, read_doid, read_zone, seek_payload,
}
use astron.StateServer.Messages
use astron.StateServer.Object.{
  DistributedObject, Effect, routed, Context, Handler, ◌>>=◌, ◌>>◌, returns, get_self, modify,
  reads, builds, when, if_some, route_datagram, subscribe_channel, assign, value_of, insert,
}
use astron.StateServer.Entries.{is_atomic}
use astron.StateServer.Location.{handle_location_change, wake_children}
use astron.Unpack.{unpack_dtype, skip_dtype}

-- The members before the constructor's body.
unfoldable pub new_object : ℕ → Class → DistributedObject
new_object do_id dclass = record {
  do_id = do_id;
  parent_id = invalid_do_id;
  zone_id = 0;
  dclass = dclass;
  required_fields = [];
  ram_fields = [];
  ai_channel = invalid_channel;
  owner_channel = invalid_channel;
  ai_explicitly_set = false;
  parent_synchronized = false;
  next_context = 0;
  zone_objects = [];
}

unfoldable pub unpack_required : List Field → Handler (Unit {0})
unfolding is_atomic
unpack_required [] = returns tt
unpack_required (f ∷ fs) =
    when (has_keyword f "required" && is_atomic f) (do
      value ← reads (unpack_dtype (field_type f) [])
      modify (λ o. record o { required_fields = assign f value o.required_fields }))
    >> unpack_required fs

-- The OTHER section: it ends at an unknown field, and drops the value of a field that is not ram. The value
-- of a field that comes again is appended to the one before.
unfoldable pub unpack_other : ℕ → Handler (Unit {0})
unfolding value_of
unpack_other zero = returns tt
unpack_other (suc n) = do
  field_id ← reads read_uint16
  self ← get_self
  let rest = unpack_other n
  if_some (get_field_by_id self.dclass field_id) (returns tt) λ f.
      (if has_keyword f "ram"
        then (do
          value ← reads (unpack_dtype (field_type f) (value_of f self.ram_fields))
          modify (λ o. record o { ram_fields = assign f value o.ram_fields }))
        else reads (skip_dtype (field_type f)))
      >> rest

unfoldable pub read_other : Bool → Handler (Unit {0})
unfolding unpack_other
read_other true = reads read_uint16 >>= unpack_other
read_other false = returns tt

-- The body of the constructor.
unfoldable pub construct : ℕ → ℕ → Bool → Handler (Unit {0})
unfolding unpack_required read_other
construct parent_id zone_id has_other = do
  self ← get_self
  unpack_required self.dclass.fields
  read_other has_other
  subscribe_channel self.do_id
  reads seek_payload
  sender ← reads read_channel
  handle_location_change parent_id zone_id sender
  wake_children

-- The other constructor, of an object that the database state server has loaded.
unfoldable pub construct_loaded : ℕ → ℕ → ℕ → Handler (Unit {0})
construct_loaded sender parent_id zone_id = do
  self ← get_self
  subscribe_channel self.do_id
  handle_location_change parent_id zone_id sender
  wake_children

-- m_objs, the message and the effects.
pub record ServerContext : Type 0 where
  pub objs : List (ℕ × DistributedObject)
  pub dgi : DatagramIterator
  pub effects : List Effect

unfoldable pub knows : ℕ → List (ℕ × DistributedObject) → Bool
knows do_id [] = false
knows do_id ((id, o) ∷ objs) = if id == do_id then true else knows do_id objs

-- DatagramIteratorEOF is caught, with the object dropped; any other exception goes on.
unfoldable pub generated :
    ℕ
    → List (ℕ × DistributedObject)
    → Result (Unit {0}) × Context
    → Result (Unit {0}) × ServerContext
generated do_id objs (ok _, c) =
    (ok tt, record { objs = (do_id, c.self) ∷ objs; dgi = c.dgi; effects = c.effects })
generated do_id objs (err iterator_eof, c) =
    (ok tt, record { objs = objs; dgi = c.dgi; effects = c.effects })
generated do_id objs (err e, c) = (err e, record { objs = objs; dgi = c.dgi; effects = c.effects })

-- A handler of the state server.
abbrev pub ServerHandler : Type 0
ServerHandler = ServerContext → Result (Unit {0}) × ServerContext

-- The receivers of DELETE_AI_OBJECTS.
unfoldable pub delete_ai_targets : ℕ → List (ℕ × DistributedObject) → List ℕ
unfolding insert
delete_ai_targets ai_channel [] = []
delete_ai_targets ai_channel ((id, o) ∷ objs) =
    let rest : List ℕ = delete_ai_targets ai_channel objs in
    if o.ai_channel == ai_channel && o.ai_explicitly_set then insert o.do_id rest else rest

unfoldable pub delete_ai_message : List ℕ → ℕ → ℕ → Result Datagram
delete_ai_message targets sender ai_channel =
    elim (create_set targets sender Messages.delete_ai_objects) [
      | ok dg ↦ add_channel dg ai_channel
      | err e ↦ err e
    ]

unfoldable pub sent : Result Datagram → ServerHandler
sent (ok dg) s = (ok tt, record s { effects = s.effects ++ routed dg ∷ [] })
sent (err e) s = (err e, s)

unfoldable pub delete_ai : ℕ → ℕ → ServerHandler
unfolding delete_ai_targets delete_ai_message sent
delete_ai ai_channel sender s =
    let targets : List ℕ = delete_ai_targets ai_channel s.objs in
    if length targets != 0 then sent (delete_ai_message targets sender ai_channel) s else (ok tt, s)

unfoldable pub ignores : ServerHandler
ignores s = (ok tt, s)

unfoldable pub with_read {ℓ} :
    {A : Type ℓ} → Result A × DatagramIterator → (A → ServerHandler) → ServerHandler
with_read (ok a, dgi) f s = f a (record s { dgi = dgi })
with_read (err e, dgi) f s = (err e, record s { dgi = dgi })

-- A read, and the handler that goes on with it.
unfoldable pub asks {ℓ} : {A : Type ℓ} → Reader A → (A → ServerHandler) → ServerHandler
unfolding with_read
asks m f s = with_read (m s.dgi) f s

unfoldable pub handle_delete_ai : ℕ → ServerHandler
unfolding delete_ai
handle_delete_ai sender = asks read_channel λ ai_channel. delete_ai ai_channel sender

-- `classes` is g_dcf->get_class_by_id.
module _ (classes : ℕ → Option Class) where
  unfoldable pub generate : ℕ → ℕ → ℕ → ℕ → Bool → ServerHandler
  unfolding knows generated
  generate do_id parent_id zone_id dc_id has_other s =
      if knows do_id s.objs then (ok tt, s) else elim (classes dc_id) [
        | none ↦ (ok tt, s)
        | some dc_class ↦ generated do_id s.objs (
            construct parent_id zone_id has_other
              (record { self = new_object do_id dc_class; dgi = s.dgi; effects = s.effects }))
      ]

  unfoldable pub handle_generate : Bool → ServerHandler
  unfolding generate
  handle_generate has_other = asks read_doid λ do_id. asks read_doid λ parent_id.
      asks read_zone
        λ zone_id. asks read_uint16 λ dc_id. generate do_id parent_id zone_id dc_id has_other

  -- The switch of StateServer::handle_datagram.
  unfoldable pub serve : ℕ → ℕ → ServerHandler
  unfolding handle_generate handle_delete_ai ignores
  serve sender msgtype =
      if msgtype == Messages.create_object_with_required
      then handle_generate false
      else if msgtype == Messages.create_object_with_required_other
      then handle_generate true
      else if msgtype == Messages.delete_ai_objects
      then handle_delete_ai sender
      else ignores

  unfoldable pub handle_datagram : ServerHandler
  unfolding serve
  handle_datagram = asks read_channel λ sender. asks read_uint16 λ msgtype. serve sender msgtype
