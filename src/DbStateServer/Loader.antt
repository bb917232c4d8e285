-- ===== src/DbStateServer/Loader.antt =====
-- src/stateserver/LoadingObject.cpp, and DBStateServer.cpp: activation, and the objects that are being loaded.
use astron.Base.{
  ℕ, zero, suc, List, [], ◌∷◌, ◌++◌, Bool, true, false, not, ◌&&◌, ◌||◌, if◌then◌else◌, Option,
  none, some,
}
use astron.Base.Result.{
  Result, ok, err, fault, iterator_eof, datagram_overflow, constraint_violation, stuck,
}
use astron.Base.Action.{proceed, returns, throws, modify, ◌>>=◌, ◌>>◌}
use astron.Base.Table.{find_key, set_key, erase_key}
use astron.Datagram.{Datagram}
use astron.Dclass.Class.{Field, Class, has_keyword, field_type, get_field_by_id}
use astron.Iterator.{iterate, read_uint16, seek_payload}
use astron.StateServer.Entries.{is_atomic}
use astron.StateServer.Object.{
  Effect, Context, FieldValues, routed, subscribed, terminated, erased, assign, count, value_of,
}
use astron.DbStateServer.State.{
  LoadingObject, DbStateServer, DbHandler, DbEffect, by_loader, by_object, reads, emit,
  take_context,
}
use astron.Unpack.{unpack_dtype}
use astron.StateServer.Dispatch as Dispatch

-- The OTHER section of an activation, in the second constructor of LoadingObject. It ends at an unknown
-- field; the value of a field that is neither ram nor required is not skipped.
unfoldable pub read_updates : Option Class → ℕ → FieldValues → DbHandler FieldValues
unfolding value_of assign
read_updates dcc zero updates = returns updates
read_updates none (suc n) updates = reads read_uint16 >> throws fault
read_updates (some c) (suc n) updates = reads read_uint16 >>= λ field_id.
    elim (get_field_by_id c field_id) [
      | none ↦ returns updates
      | some f ↦
          if has_keyword f "ram" || has_keyword f "required"
          then (reads (unpack_dtype (field_type f) (value_of f updates)) >>= λ value.
              read_updates (some c) n (assign f value updates))
          else read_updates (some c) n updates
    ]

-- The loading object of an id, as it is in m_loading.
unfoldable pub set_loading : ℕ → LoadingObject → DbHandler (Unit {0})
unfolding set_key
set_loading do_id l = modify (λ s. record s { loading = set_key do_id l s.loading })

-- The constructors: a context, the subscription, then the updates.
unfoldable pub construct :
    ℕ → ℕ → ℕ → Option Class → List ℕ → DbHandler FieldValues → DbHandler LoadingObject
unfolding take_context
construct do_id parent_id zone_id dclass valid_contexts read = do
  context ← take_context
  emit (by_loader do_id (subscribed do_id))
  updates ← read
  returns (record {
    parent_id = parent_id;
    zone_id = zone_id;
    context = context;
    dclass = dclass;
    field_updates = updates;
    valid_contexts = valid_contexts;
    datagram_queue = [];
    is_loaded = false;
  })

abbrev pub by_effects : ℕ → List Effect → List DbEffect
by_effects do_id [] = []
by_effects do_id (e ∷ es) = by_object do_id e ∷ by_effects do_id es

-- Whether an object took itself out of m_objs.
unfoldable pub is_erased : List Effect → Bool
is_erased [] = false
is_erased (erased do_id ∷ es) = true
is_erased (routed dg ∷ es) = is_erased es
is_erased (Effect.subscribed c ∷ es) = is_erased es
is_erased (Effect.unsubscribed c ∷ es) = is_erased es
is_erased (terminated ∷ es) = is_erased es

-- DatagramIteratorEOF is caught, with what was done before it.
abbrev pub skipping : Result (Unit {0}) × DbStateServer → Result (Unit {0}) × DbStateServer
skipping (ok _, s) = (ok tt, s)
skipping (err iterator_eof, s) = (ok tt, s)
skipping (err datagram_overflow, s) = (err datagram_overflow, s)
skipping (err constraint_violation, s) = (err constraint_violation, s)
skipping (err fault, s) = (err fault, s)
skipping (err stuck, s) = (err stuck, s)

-- The object of an id handles a message, as obj->handle_datagram.
abbrev pub handled_by_object :
    ℕ → DbStateServer → Result (Unit {0}) × Context → Result (Unit {0}) × DbStateServer
handled_by_object do_id s (r, c) = (
  r,
  record s {
    objs = if is_erased c.effects then erase_key do_id s.objs else set_key do_id c.self s.objs;
    effects = s.effects ++ by_effects do_id c.effects;
  },
)

abbrev pub at_payload : Datagram → DbHandler (Unit {0})
at_payload dg = (λ s. ((iterate dg 0).0, record s { dgi = (iterate dg 0).1 })) >> reads seek_payload

-- replay_datagrams: it ends once the object is no more in m_objs.
unfoldable pub replay_datagrams : ℕ → List Datagram → DbHandler (Unit {0})
unfolding is_erased erase_key set_key find_key Dispatch.handle_datagram
replay_datagrams do_id [] = returns tt
replay_datagrams do_id (dg ∷ dgs) = λ s. elim (find_key do_id s.objs) [
  | none ↦ (ok tt, s)
  | some obj ↦
      proceed
        (skipping (
          (at_payload dg >>= λ _ s.
          handled_by_object do_id s
            (Dispatch.handle_datagram (record { self = obj; dgi = s.dgi; effects = [] })))
            s))
        (λ _. replay_datagrams do_id dgs)
]

-- The fields with their defaults and the updates of the activation, in the order of the class.
unfoldable pub merge_fields :
    (Field → List ℕ)
    → FieldValues
    → List Field
    → FieldValues
    → FieldValues
    → FieldValues × FieldValues
unfolding is_atomic count assign value_of
merge_fields default_value updates [] required ram = (required, ram)
merge_fields default_value updates (f ∷ fs) required ram =
    merge_fields default_value updates fs
      (if is_atomic f && has_keyword f "required"
        then (if count f updates
            then assign f (value_of f updates) required
            else if count f required
            then required
            else assign f (default_value f) required)
        else required)
      (if is_atomic f && not (has_keyword f "required") && has_keyword f "ram" && count f updates
        then assign f (value_of f updates) ram
        else ram)
