-- ===== src/DatabaseServer/Running.antt =====
-- src/database/DBOperationQueue.cpp: what runs at the same time is independent, and what waits has to.
use astron.Base.{
  ℕ, zero, suc, ◌≡◌, refl, List, [], ◌∷◌, ◌++◌, Bool, true, false, not, ◌&&◌, ◌!=◌, none, some,
  length, arith, ◌≤◌, Bool-cases, inl, inr,
}
use astron.StateServer.Object.{contains, insert, erase}
use astron.StateServer.Object.Maps.{contains-insert}
use astron.DatabaseServer.Operation.{DbOperation, is_independent_of}
use astron.DatabaseServer.Symmetric.{is_independent_of-sym}
use astron.DatabaseServer.Queue.{
  DbOperationQueue, is_nil, begin_operation, all_independent, get_next_operation, enqueue_operation,
  may_unblock, finalize_operation, submit_eligible, handle_queued, clear_queued,
}

contains-erase : (x y : ℕ) (xs : List ℕ) → contains y (erase x xs) ≡ true → contains y xs ≡ true
unfolding contains erase
contains-erase x y [] h = h
contains-erase x y (z ∷ xs) h = ground (arith, contains-erase x y xs, h)

module _ (operation : ℕ → DbOperation) where
  -- Two operations that run are the same or independent.
  abbrev pub Independent : List ℕ → Type 0
  Independent running =
      (a b : ℕ)
      → (contains a running
          && contains b running
          && (a != b)
          && not (is_independent_of (operation a) (operation b)))
        ≡ false

  -- The operation at the front of the queue, if there is one, conflicts with one that runs.
  abbrev pub waits : List ℕ → List ℕ → Bool
  waits [] running = true
  waits (front ∷ rest) running = not (all_independent operation front running)

  pub record IsQueue (q : DbOperationQueue) : Type 0 where
    pub independent : Independent q.running_operations
    pub waiting : waits q.queue q.running_operations ≡ true

  all_independent-contains :
      (op x : ℕ) (xs : List ℕ)
      → all_independent operation op xs ≡ true
      → contains x xs ≡ true
      → is_independent_of (operation op) (operation x) ≡ true
  unfolding all_independent contains
  all_independent-contains op x [] h k = ground arith
  all_independent-contains op x (y ∷ ys) h k =
      ground (arith, all_independent-contains op x ys, h, k)

  all_independent-erase :
      (op x : ℕ) (xs : List ℕ)
      → is_independent_of (operation op) (operation x) ≡ true
      → all_independent operation op (erase x xs) ≡ true
      → all_independent operation op xs ≡ true
  unfolding all_independent erase
  all_independent-erase op x [] h k = refl
  all_independent-erase op x (y ∷ ys) h k = ground (arith, all_independent-erase op x ys, h, k)

  Independent-erase : (x : ℕ) (xs : List ℕ) → Independent xs → Independent (erase x xs)
  Independent-erase x xs h a b = ground (arith, h a b, contains-erase x a xs, contains-erase x b xs)

  Independent-insert :
      (op : ℕ) (xs : List ℕ)
      → Independent xs
      → all_independent operation op xs ≡ true
      → Independent (insert op xs)
  Independent-insert op xs h k a b = ground (
    arith,
    contains-insert op a xs,
    contains-insert op b xs,
    h a b,
    all_independent-contains op a xs k,
    all_independent-contains op b xs k,
    is_independent_of-sym (operation op) (operation a),
  )

  get_next_operation-some :
      (op : ℕ) (ops running : List ℕ)
      → all_independent operation op running ≡ true
      → get_next_operation operation (record { queue = op ∷ ops; running_operations = running })
        ≡ (some op, record { queue = ops; running_operations = running })
  unfolding get_next_operation
  get_next_operation-some op ops running h = rw h refl

  get_next_operation-none :
      (op : ℕ) (ops running : List ℕ)
      → all_independent operation op running ≡ false
      → get_next_operation operation (record { queue = op ∷ ops; running_operations = running })
        ≡ (none, record { queue = op ∷ ops; running_operations = running })
  unfolding get_next_operation
  get_next_operation-none op ops running h = rw h refl

  submit_eligible-nil :
      (fuel : ℕ) (running : List ℕ)
      → Independent running
      → IsQueue
          ((submit_eligible operation fuel (record { queue = []; running_operations = running })).1)
  unfolding submit_eligible get_next_operation
  submit_eligible-nil zero running h = record { independent = h; waiting = refl }
  submit_eligible-nil (suc fuel) running h = record { independent = h; waiting = refl }

  submit_eligible-IsQueue :
      (fuel : ℕ) (ops running : List ℕ)
      → length ops ≤ fuel
      → Independent running
      → IsQueue (
          (submit_eligible operation fuel (record { queue = ops; running_operations = running })).1)
  unfolding submit_eligible begin_operation
  submit_eligible-IsQueue zero [] running l h = submit_eligible-nil zero running h
  submit_eligible-IsQueue zero (op ∷ ops) running l h = absurd (omega arith)
  submit_eligible-IsQueue (suc fuel) [] running l h = submit_eligible-nil (suc fuel) running h
  submit_eligible-IsQueue (suc fuel) (op ∷ ops) running l h =
      elim (Bool-cases (all_independent operation op running)) [
        | inl t ↦
            rw (submit_eligible, get_next_operation-some op ops running t)
              (submit_eligible-IsQueue fuel ops (insert op running) (omega arith)
                (Independent-insert op running h t))
        | inr f ↦
            rw (submit_eligible, get_next_operation-none op ops running f)
              (record { independent = h; waiting = rw f refl })
      ]

  waits-nil : (ops running : List ℕ) → is_nil ops ≡ true → waits ops running ≡ true
  waits-nil [] running h = refl
  waits-nil (op ∷ ops) running h = absurd (ground (arith, h))

  waits-append :
      (op : ℕ) (ops running : List ℕ)
      → waits ops running ≡ true
      → (is_nil ops && all_independent operation op running) ≡ false
      → waits (ops ++ op ∷ []) running ≡ true
  waits-append op [] running h k = ground (arith, k)
  waits-append op (front ∷ ops) running h k = h

  -- After an operation comes in.
  pub handle_queued-IsQueue :
      (op : ℕ) (q : DbOperationQueue) → IsQueue q → IsQueue ((handle_queued operation op q).1)
  unfolding handle_queued enqueue_operation begin_operation
  handle_queued-IsQueue op q h =
      elim (Bool-cases (is_nil q.queue && all_independent operation op q.running_operations)) [
        | inl t ↦ rw t (record {
          independent =
              Independent-insert op q.running_operations h.independent (ground (arith, t));
          waiting = waits-nil q.queue (insert op q.running_operations) (ground (arith, t));
        })
        | inr f ↦ rw f (record {
          independent = h.independent;
          waiting = waits-append op q.queue q.running_operations h.waiting f;
        })
      ]

  waits-erase :
      (op : ℕ) (ops running : List ℕ)
      → waits ops running ≡ true
      → may_unblock operation op ops ≡ false
      → waits ops (erase op running) ≡ true
  waits-erase op [] running h k = refl
  waits-erase op (front ∷ ops) running h k = ground (
    arith,
    h,
    k,
    all_independent-erase front op running,
    is_independent_of-sym (operation op) (operation front),
  )

  -- After an operation has ended.
  pub clear_queued-IsQueue :
      (op : ℕ) (q : DbOperationQueue) → IsQueue q → IsQueue ((clear_queued operation op q).1)
  unfolding clear_queued finalize_operation
  clear_queued-IsQueue op q h = elim (Bool-cases (may_unblock operation op q.queue)) [
    | inl t ↦ rw t (
        submit_eligible-IsQueue (length q.queue) q.queue (erase op q.running_operations)
          (omega arith) (Independent-erase op q.running_operations h.independent))
    | inr f ↦ rw f (record {
      independent = Independent-erase op q.running_operations h.independent;
      waiting = waits-erase op q.queue q.running_operations h.waiting f;
    })
  ]
