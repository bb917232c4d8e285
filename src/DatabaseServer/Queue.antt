-- ===== src/DatabaseServer/Queue.antt =====
-- src/database/DBOperationQueue.cpp and DatabaseServer.cpp: the operations on one object, and their order. An
-- operation is a pointer, and `operation` the memory it points to, which does not change while it is queued.
use astron.Base.{
  ℕ, zero, suc, List, [], ◌∷◌, ◌++◌, Bool, true, false, not, ◌&&◌, if◌then◌else◌, Option, none,
  some, length,
}
use astron.Base.Table.{find_key, set_key, erase_key}
use astron.StateServer.Object.{insert, erase}
use astron.DatabaseServer.Operation.{OperationType, DbOperation, create_object, is_independent_of}

-- m_running_operations is a set of pointers.
pub record DbOperationQueue : Type 0 where
  pub queue : List ℕ
  pub running_operations : List ℕ

-- m_queues, and what was submitted to the backend, which reports the end of an operation by a later
-- call of clear_operation.
pub record DatabaseServer : Type 0 where
  pub queues : List (ℕ × DbOperationQueue)
  pub submitted : List ℕ

abbrev pub is_nil : List ℕ → Bool
is_nil [] = true
is_nil (op ∷ rest) = false

unfoldable pub is_empty : DbOperationQueue → Bool
is_empty q = is_nil q.queue && is_nil q.running_operations

unfoldable pub begin_operation : ℕ → DbOperationQueue → DbOperationQueue
unfolding insert
begin_operation op q = record q { running_operations = insert op q.running_operations }

abbrev pub queue_of : Option DbOperationQueue → DbOperationQueue
queue_of none = record { queue = []; running_operations = [] }
queue_of (some q) = q

abbrev pub is_create : OperationType → Bool
is_create t = elim t [ create_object ↦ true | _ ↦ false ]

abbrev pub submit : List ℕ → DatabaseServer → DatabaseServer
submit ops s = record s { submitted = s.submitted ++ ops }

abbrev pub keep_queue :
    ℕ → DbOperationQueue → List (ℕ × DbOperationQueue) → List (ℕ × DbOperationQueue)
keep_queue doid q queues = if is_empty q then erase_key doid queues else set_key doid q queues

module _ (operation : ℕ → DbOperation) where
  unfoldable pub all_independent : ℕ → List ℕ → Bool
  unfolding is_independent_of
  all_independent op [] = true
  all_independent op (running ∷ rest) =
      if is_independent_of (operation op) (operation running)
      then all_independent op rest
      else false

  abbrev pub can_operation_start : ℕ → DbOperationQueue → Bool
  can_operation_start op q = all_independent op q.running_operations

  abbrev pub next_of : List ℕ → DbOperationQueue → Option ℕ × DbOperationQueue
  next_of [] q = (none, q)
  next_of (op ∷ rest) q =
      if can_operation_start op q then (some op, record q { queue = rest }) else (none, q)

  unfoldable pub get_next_operation : DbOperationQueue → Option ℕ × DbOperationQueue
  unfolding all_independent
  get_next_operation q = next_of q.queue q

  unfoldable pub enqueue_operation : ℕ → DbOperationQueue → Bool × DbOperationQueue
  unfolding all_independent
  enqueue_operation op q =
      if is_nil q.queue && can_operation_start op q
      then (false, q)
      else (true, record q { queue = q.queue ++ op ∷ [] })

  abbrev pub may_unblock : ℕ → List ℕ → Bool
  may_unblock op [] = false
  may_unblock op (front ∷ rest) = not (is_independent_of (operation op) (operation front))

  unfoldable pub finalize_operation : ℕ → DbOperationQueue → Bool × DbOperationQueue
  unfolding erase is_independent_of
  finalize_operation op q =
      (may_unblock op q.queue, record q { running_operations = erase op q.running_operations })

  -- A round of the loop, and what the rounds submit together with the queue behind them.
  abbrev pub round :
      (DbOperationQueue → List ℕ × DbOperationQueue)
      → Option ℕ × DbOperationQueue
      → List ℕ × DbOperationQueue
  round next (none, q) = ([], q)
  round next (some op, q) = (op ∷ (next (begin_operation op q)).0, (next (begin_operation op q)).1)

  unfoldable pub submit_eligible : ℕ → DbOperationQueue → List ℕ × DbOperationQueue
  unfolding get_next_operation begin_operation
  submit_eligible zero q = ([], q)
  submit_eligible (suc fuel) q = round (submit_eligible fuel) (get_next_operation q)

  -- What handle_operation and clear_operation do with the queue of the object. Each round takes one operation off
  -- the queue, whose length is fuel enough.
  unfoldable pub handle_queued : ℕ → DbOperationQueue → List ℕ × DbOperationQueue
  unfolding enqueue_operation begin_operation
  handle_queued op q =
      let (queued, q1) = enqueue_operation op q in
      if queued then ([], q1) else (op ∷ [], begin_operation op q1)

  unfoldable pub clear_queued : ℕ → DbOperationQueue → List ℕ × DbOperationQueue
  unfolding finalize_operation submit_eligible
  clear_queued op q =
      let (unblocked, q1) = finalize_operation op q in
      if unblocked then submit_eligible (length q1.queue) q1 else ([], q1)

  unfoldable pub handle_operation : ℕ → DatabaseServer → DatabaseServer
  unfolding handle_queued find_key set_key
  handle_operation op s =
      if is_create (operation op).type
      then submit (op ∷ []) s
      else (let r = handle_queued op (queue_of (find_key (operation op).doid s.queues)) in
          submit (r.0) (record s { queues = set_key (operation op).doid (r.1) s.queues }))

  unfoldable pub clear_operation : ℕ → DatabaseServer → DatabaseServer
  unfolding clear_queued find_key set_key erase_key is_empty
  clear_operation op s =
      if is_create (operation op).type
      then s
      else (let r = clear_queued op (queue_of (find_key (operation op).doid s.queues)) in
          submit (r.0) (record s { queues = keep_queue (operation op).doid (r.1) s.queues }))
