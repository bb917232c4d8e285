-- ===== src/StateServer/Entries.antt =====
-- src/stateserver/DistributedObject.cpp: the messages that describe an object to others.
use astron.Base.{
  ℕ, List, [], ◌∷◌, Bool, true, false, not, ◌&&◌, ◌||◌, ◌!=◌, if◌then◌else◌, length, none, some,
}
use astron.Datagram.{Datagram, add_doid, add_location, add_uint16, add_uint32, add_data}
use astron.Datagram.Header.{create}
use astron.Dclass.Class.{Field, has_keyword, as_molecular, get_id}
use astron.StateServer.Messages.{
  object_enter_interest_with_required, object_enter_interest_with_required_other,
  object_enter_location_with_required, object_enter_location_with_required_other,
  object_enter_ai_with_required, object_enter_ai_with_required_other,
  object_enter_owner_with_required, object_enter_owner_with_required_other,
}
use astron.StateServer.Object.{
  DistributedObject, Handler, ◌>>=◌, ◌>>◌, returns, get_self, modify, builds, route_datagram,
  FieldValues, index, value_of,
}

unfoldable pub is_atomic : Field → Bool
unfolding as_molecular
is_atomic f = elim (as_molecular f) [ none ↦ true | some _ ↦ false ]

-- Which fields an entry shows to its receiver.
unfoldable pub is_visible : Bool → Field → Bool
is_visible also_owner f =
    has_keyword f "broadcast" || has_keyword f "clrecv" || (also_owner && has_keyword f "ownrecv")

unfoldable pub in_entry : Bool → Bool → Field → Bool
unfolding is_visible is_atomic
in_entry client_only also_owner f =
    has_keyword f "required" && is_atomic f && (not client_only || is_visible also_owner f)

unfoldable pub append_required_fields : Bool → Bool → List Field → Datagram → Handler Datagram
unfolding in_entry
append_required_fields client_only also_owner [] dg = returns dg
append_required_fields client_only also_owner (f ∷ fs) dg =
    (if in_entry client_only also_owner f
      then (do
        modify (λ o. record o { required_fields = index f o.required_fields })
        self ← get_self
        builds (add_data dg (value_of f self.required_fields)))
      else returns dg)
    >>= append_required_fields client_only also_owner fs

unfoldable pub append_required_data : Datagram → Bool → Bool → Handler Datagram
append_required_data dg client_only also_owner = do
  self ← get_self
  dg ← builds (add_doid dg self.do_id)
  dg ← builds (add_location dg self.parent_id self.zone_id)
  dg ← builds (add_uint16 dg self.dclass.id)
  append_required_fields client_only also_owner self.dclass.fields dg

unfoldable pub broadcast_fields : Bool → FieldValues → FieldValues
unfolding is_visible
broadcast_fields also_owner [] = []
broadcast_fields also_owner ((f, v) ∷ m) =
    let rest = broadcast_fields also_owner m in
    if is_visible also_owner f then (f, v) ∷ rest else rest

unfoldable pub append_values : FieldValues → Datagram → Handler Datagram
append_values [] dg = returns dg
append_values ((f, v) ∷ m) dg = do
  dg ← builds (add_uint16 dg (get_id f))
  dg ← builds (add_data dg v)
  append_values m dg

unfoldable pub append_other_data : Datagram → Bool → Bool → Handler Datagram
append_other_data dg client_only also_owner = do
  self ← get_self
  let shown = if client_only then broadcast_fields also_owner self.ram_fields else self.ram_fields
  dg ← builds (add_uint16 dg (length shown))
  append_values shown dg

-- m_ram_fields.size() as a condition.
unfoldable pub has_ram : DistributedObject → Bool
has_ram o = length o.ram_fields != 0

unfoldable pub append_other_if : Bool → Bool → Bool → Datagram → Handler Datagram
append_other_if true client_only also_owner dg = append_other_data dg client_only also_owner
append_other_if false client_only also_owner dg = returns dg

unfoldable pub send_interest_entry : ℕ → ℕ → Handler (Unit {0})
unfolding has_ram append_other_if
send_interest_entry location context = do
  self ← get_self
  dg ← builds (
      create location self.do_id (
        if has_ram self
        then object_enter_interest_with_required_other
        else object_enter_interest_with_required))
  dg ← builds (add_uint32 dg context)
  dg ← append_required_data dg true false
  dg ← append_other_if (has_ram self) true false dg
  route_datagram dg

unfoldable pub send_location_entry : ℕ → Handler (Unit {0})
unfolding has_ram append_other_if
send_location_entry location = do
  self ← get_self
  dg ← builds (
      create location self.do_id (
        if has_ram self
        then object_enter_location_with_required_other
        else object_enter_location_with_required))
  dg ← append_required_data dg true false
  dg ← append_other_if (has_ram self) true false dg
  route_datagram dg

unfoldable pub send_ai_entry : ℕ → Handler (Unit {0})
unfolding has_ram append_other_if
send_ai_entry ai = do
  self ← get_self
  dg ← builds (
      create ai self.do_id (
        if has_ram self
        then object_enter_ai_with_required_other
        else object_enter_ai_with_required))
  dg ← append_required_data dg false false
  dg ← append_other_if (has_ram self) false false dg
  route_datagram dg

unfoldable pub send_owner_entry : ℕ → Handler (Unit {0})
unfolding has_ram append_other_if
send_owner_entry owner = do
  self ← get_self
  dg ← builds (
      create owner self.do_id (
        if has_ram self
        then object_enter_owner_with_required_other
        else object_enter_owner_with_required))
  dg ← append_required_data dg true true
  dg ← append_other_if (has_ram self) true true dg
  route_datagram dg
