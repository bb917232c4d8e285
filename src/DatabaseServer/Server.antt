-- ===== src/DatabaseServer/Server.antt =====
-- src/database/DatabaseServer.cpp: the queues of all objects keep their invariant.
use astron.Base.{ℕ, refl, [], none}
use astron.Base.Table.{find_key}
use astron.StateServer.Object.{contains}
use astron.DatabaseServer.Operation.{DbOperation}
use astron.DatabaseServer.Queue.{DatabaseServer, queue_of}
use astron.DatabaseServer.Running.{IsQueue}

module _ (operation : ℕ → DbOperation) where
  -- Of every object, the operations that run are independent, and one at the front of the queue waits for one of
  -- them.
  abbrev pub IsServer : DatabaseServer → Type 0
  IsServer s = (doid : ℕ) → IsQueue operation (queue_of (find_key doid s.queues))

  none-IsQueue : IsQueue operation (queue_of none)
  unfolding contains
  none-IsQueue = record { independent = λ a b. refl; waiting = refl }

  pub none-IsServer : IsServer (record { queues = []; submitted = [] })
  unfolding find_key
  none-IsServer doid = none-IsQueue
