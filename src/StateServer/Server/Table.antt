-- ===== src/StateServer/Server/Table.antt =====
-- src/stateserver/StateServer.cpp: the table of objects stays in order.
use astron.Base.{
  ℕ, ◌≡◌, refl, ◌∙◌, List, [], ◌∷◌, Bool, true, false, ◌!=◌, ◌==◌, if◌then◌else◌, ◌⊎◌, inl, inr,
  Option, length, Bool-cases, Option-cases,
}
use astron.Base.Result.{
  Result, ok, err, iterator_eof, datagram_overflow, constraint_violation, fault, stuck,
}
use astron.Dclass.Class.{Class}
use astron.Datagram.{Datagram}
use astron.Iterator.{Reader, DatagramIterator, read_channel, seek_payload}
use astron.StateServer.Messages
use astron.StateServer.Object.{
  DistributedObject, Context, Effect, Handler, modify, emit, subscribe_channel, unsubscribe_channel,
}
use astron.StateServer.Object.Keeps.{
  Keeps, Keeps-returns, Keeps-get_self, Keeps-if, Keeps-when, Keeps-bind,
}
use astron.StateServer.Location.{handle_location_change, leave_parent, enter_parent}
use astron.StateServer.Server.{
  construct, new_object, ServerContext, knows, generated, generate, handle_generate,
  handle_delete_ai, delete_ai, sent, with_read, asks, serve, ServerHandler, ignores,
  handle_datagram, delete_ai_targets,
}
use astron.StateServer.Placement.{Stays, Stays-reads, replay}
use astron.StateServer.Placement.Entries.{
  Stays-wake_children, Stays-announce_location, Stays-ask_ai,
}
use astron.StateServer.Server.Construct.{Stays-unpack_required, Stays-read_other}

-- The object keeps its id.
record HasId (d : ℕ) (c : Context) : Type 0 where
  same : c.self.do_id ≡ d

Stays-HasId {ℓ} :
    {A : Type ℓ} {d : ℕ} (m : Handler A)
    → ((p : ℕ) (channels : List ℕ) → Keeps (Stays d p channels) m)
    → Keeps (HasId d) m
Stays-HasId m k = record {
  at = λ c h.
      let stays =
        (k c.self.parent_id (replay [] c.effects)).at c
          (record { same_id = h.same; same_parent = refl; same_channels = refl }) in
      record { same = stays.same_id };
}

module _ {d : ℕ} where
  HasId-modify :
      (f : DistributedObject → DistributedObject)
      → ((o : DistributedObject) → (f o).do_id ≡ o.do_id)
      → Keeps (HasId d) (modify f)
  unfolding modify
  HasId-modify f same = record { at = λ c h. record { same = same c.self ∙ h.same } }

  HasId-emit : (e : Effect) → Keeps (HasId d) (emit e)
  unfolding emit
  HasId-emit e = record { at = λ c h. record { same = h.same } }

  HasId-leave_parent :
      (p zone : ℕ) (targets : List ℕ) → Keeps (HasId d) (leave_parent p zone targets)
  unfolding leave_parent unsubscribe_channel
  HasId-leave_parent p zone targets =
      Keeps-if _ _ _ (Keeps-bind _ _ (HasId-emit _) (λ _. Keeps-returns _)) (Keeps-returns _)

  HasId-enter_parent : (p : ℕ) (targets : List ℕ) → Keeps (HasId d) (enter_parent p targets)
  unfolding enter_parent subscribe_channel
  HasId-enter_parent p targets = Keeps-bind _ _ Keeps-get_self λ self.
      Keeps-if _ _ _
        (Keeps-bind _ _ (HasId-emit _) λ _.
          Keeps-bind _ _ (Keeps-when _ _ (Stays-HasId _ (λ q l. Stays-ask_ai p)))
            λ _. Keeps-returns _)
        (Keeps-bind _ _ (Keeps-when _ _ (HasId-modify _ (λ o. refl))) λ _. Keeps-returns _)

  HasId-handle_location_change :
      (p zone sender : ℕ) → Keeps (HasId d) (handle_location_change p zone sender)
  unfolding handle_location_change
  HasId-handle_location_change p zone sender = Keeps-bind _ _ Keeps-get_self λ self.
      Keeps-if _ _ _ (Keeps-returns tt) (
        Keeps-if _ _ _
          (Keeps-bind _ _ (HasId-leave_parent _ _ _) λ left.
            Keeps-bind _ _ (HasId-modify _ (λ o. refl)) λ _.
              Keeps-bind _ _ (HasId-enter_parent p left)
                λ all. Stays-HasId _ (λ q l. Stays-announce_location _ _ _ _ all sender))
          (Keeps-if _ _ _
            (Keeps-bind _ _ (HasId-modify _ (λ o. refl))
              λ _. Stays-HasId _ (λ q l. Stays-announce_location _ _ _ _ _ sender))
            (Keeps-returns tt)))

  HasId-subscribe : (channel : ℕ) → Keeps (HasId d) (subscribe_channel channel)
  unfolding subscribe_channel
  HasId-subscribe channel = HasId-emit _

  HasId-construct : (p zone : ℕ) (has_other : Bool) → Keeps (HasId d) (construct p zone has_other)
  unfolding construct
  HasId-construct p zone has_other = Keeps-bind _ _ Keeps-get_self λ self.
      Keeps-bind _ _ (Stays-HasId _ (λ q l. Stays-unpack_required _)) λ _.
        Keeps-bind _ _ (Stays-HasId _ (λ q l. Stays-read_other has_other)) λ _.
          Keeps-bind _ _ (HasId-subscribe _) λ _.
            Keeps-bind _ _ (Stays-HasId _ (λ q l. Stays-reads seek_payload)) λ _.
              Keeps-bind _ _ (Stays-HasId _ (λ q l. Stays-reads read_channel)) λ sender.
                Keeps-bind _ _ (HasId-handle_location_change p zone sender)
                  λ _. Stays-HasId _ (λ q l. Stays-wake_children)

-- Each object stands under its own id, and no id stands twice.
unfoldable pub IsTable : List (ℕ × DistributedObject) → Type 0
IsTable [] = Unit
IsTable ((id, o) ∷ objs) = (o.do_id ≡ id) × (knows id objs ≡ false) × IsTable objs

-- The table is what it was, or has one object more, under an id that was not in it.
unfoldable pub Extends : List (ℕ × DistributedObject) → List (ℕ × DistributedObject) → Type 0
Extends objs objs' =
    (objs' ≡ objs)
    ⊎ ((id : ℕ) × (o : DistributedObject) × (knows id objs ≡ false)
        × (o.do_id ≡ id)
        × (objs' ≡ (id, o) ∷ objs))

Extends-same : (objs : List (ℕ × DistributedObject)) → Extends objs objs
unfolding Extends
Extends-same objs = inl refl

new_object-HasId :
    (d : ℕ) (dclass : Class) (s : ServerContext)
    → HasId d (record { self = new_object d dclass; dgi = s.dgi; effects = s.effects })
unfolding new_object
new_object-HasId d dclass s = record { same = refl }

generated-Extends :
    (d : ℕ) (objs : List (ℕ × DistributedObject)) (r : Result (Unit {0})) (c : Context)
    → knows d objs ≡ false
    → HasId d c
    → Extends objs (generated d objs (r, c)).1.objs
unfolding generated Extends
generated-Extends d objs (ok x) c new h = inr (d, c.self, new, h.same, refl)
generated-Extends d objs (err iterator_eof) c new h = inl refl
generated-Extends d objs (err datagram_overflow) c new h = inl refl
generated-Extends d objs (err constraint_violation) c new h = inl refl
generated-Extends d objs (err fault) c new h = inl refl
generated-Extends d objs (err stuck) c new h = inl refl

-- A handler of the server that extends the table, in every outcome.
record Grows (m : ServerHandler) : Type 0 where
  at : (s : ServerContext) → Extends s.objs (m s).1.objs

Grows-sent : (r : Result Datagram) → Grows (sent r)
unfolding sent Extends
Grows-sent (ok dg) = record { at = λ s. inl refl }
Grows-sent (err e) = record { at = λ s. inl refl }

Grows-delete_ai : (ai sender : ℕ) → Grows (delete_ai ai sender)
unfolding delete_ai
Grows-delete_ai ai sender = record {
  at = λ s. elim (Bool-cases (length (delete_ai_targets ai s.objs) != 0)) [
    | inl some_one ↦ rw some_one ((Grows-sent _).at s)
    | inr no_one ↦ rw no_one (Extends-same s.objs)
  ];
}

read_on {ℓ} :
    {A : Type ℓ} (r : Result A) (dgi : DatagramIterator) (f : A → ServerHandler) (s : ServerContext)
    → ((a : A) → Grows (f a))
    → Extends s.objs (with_read (r, dgi) f s).1.objs
unfolding with_read
read_on (ok a) dgi f s h = (h a).at (record s { dgi = dgi })
read_on (err e) dgi f s h = Extends-same s.objs

Grows-asks {ℓ} :
    {A : Type ℓ} (m : Reader A) (f : A → ServerHandler) → ((a : A) → Grows (f a)) → Grows (asks m f)
unfolding asks
Grows-asks m f h = record { at = λ s. let (r, dgi) = m s.dgi in read_on r dgi f s h }

Grows-if : (b : Bool) (m n : ServerHandler) → Grows m → Grows n → Grows (if b then m else n)
Grows-if true m n gm gn = gm
Grows-if false m n gm gn = gn

Grows-ignores : Grows ignores
unfolding ignores
Grows-ignores = record { at = λ s. Extends-same s.objs }

extended :
    (objs objs' : List (ℕ × DistributedObject)) → Extends objs objs' → IsTable objs → IsTable objs'
unfolding Extends IsTable
extended objs objs' (inl same) h = rw same h
extended objs objs' (inr (id, o, new, own, grown)) h = rw grown (own, new, h)

module _ (classes : ℕ → Option Class) where
  Grows-generate :
      (d p zone dc_id : ℕ) (has_other : Bool) → Grows (generate classes d p zone dc_id has_other)
  unfolding generate
  Grows-generate d p zone dc_id has_other = record {
    at = λ s. elim (Bool-cases (knows d s.objs)) [
      | inl known ↦ rw known (Extends-same s.objs)
      | inr new ↦ rw new (elim (Option-cases (classes dc_id)) [
        | inl unknown ↦ rw unknown (Extends-same s.objs)
        | inr (dc_class, found) ↦ rw found (
            generated-Extends d s.objs _ _ new (
              (HasId-construct p zone has_other).at
                (record { self = new_object d dc_class; dgi = s.dgi; effects = s.effects })
                (new_object-HasId d dc_class s)))
      ])
    ];
  }

  Grows-handle_generate : (has_other : Bool) → Grows (handle_generate classes has_other)
  unfolding handle_generate
  Grows-handle_generate has_other = Grows-asks _ _ λ d.
      Grows-asks _ _
        λ p. Grows-asks _ _ λ zone. Grows-asks _ _ λ dc_id. Grows-generate d p zone dc_id has_other

  Grows-handle_delete_ai : (sender : ℕ) → Grows (handle_delete_ai sender)
  unfolding handle_delete_ai
  Grows-handle_delete_ai sender = Grows-asks _ _ λ ai. Grows-delete_ai ai sender

  Grows-serve : (sender msgtype : ℕ) → Grows (serve classes sender msgtype)
  unfolding serve
  Grows-serve sender msgtype =
      Grows-if (msgtype == Messages.create_object_with_required) _ _ (Grows-handle_generate false) (
        Grows-if (msgtype == Messages.create_object_with_required_other) _ _
          (Grows-handle_generate true)
          (Grows-if (msgtype == Messages.delete_ai_objects) _ _ (Grows-handle_delete_ai sender)
            Grows-ignores))

  Grows-handle_datagram : Grows (handle_datagram classes)
  unfolding handle_datagram
  Grows-handle_datagram =
      Grows-asks _ _ λ sender. Grows-asks _ _ λ msgtype. Grows-serve sender msgtype

-- A message to the state server leaves its table of objects as it was, or adds one object, under an id
-- that was not in the table and that is the object's own. This holds with an exception too.
pub handle_datagram-Extends :
    (classes : ℕ → Option Class) (s : ServerContext)
    → Extends s.objs (handle_datagram classes s).1.objs
handle_datagram-Extends classes s = (Grows-handle_datagram classes).at s

-- If each object stands under its own id and no id stands twice, this is so after any message.
pub handle_datagram-IsTable :
    (classes : ℕ → Option Class) (s : ServerContext)
    → IsTable s.objs
    → IsTable (handle_datagram classes s).1.objs
handle_datagram-IsTable classes s h = extended s.objs _ (handle_datagram-Extends classes s) h
