-- ===== src/DbStateServer/State.antt =====
-- src/stateserver/DBStateServer.h and LoadingObject.h: their members, and how their handlers are built.
use astron.Base.{ℕ, ◌+◌, ◌%◌, ◌^◌, List, [], ◌∷◌, ◌++◌, Bool, ◌||◌, if◌then◌else◌, Option}
use astron.Base.Result.{Result, ok}
use astron.Base.Action.{Action, returns, lift, ◌>>=◌}
use astron.Base.Table.{has_key, set_key}
use astron.Datagram.{Datagram}
use astron.Dclass.Class.{Class}
use astron.Iterator.{DatagramIterator, Reader}
use astron.StateServer.Object.{DistributedObject, Effect, routed, FieldValues}

-- m_is_loaded and the members that the constructors set; its id is its key in m_loading.
pub record LoadingObject : Type 0 where
  pub parent_id : ℕ
  pub zone_id : ℕ
  pub context : ℕ
  pub dclass : Option Class
  pub field_updates : FieldValues
  pub valid_contexts : List ℕ
  pub datagram_queue : List Datagram
  pub is_loaded : Bool

-- A call of the message director, by the server, by the loading object of an id, or by the object itself.
pub data DbEffect : Type 0 where
  by_server : Effect → DbEffect
  by_loader by_object : ℕ → Effect → DbEffect

pub record DbStateServer : Type 0 where
  pub objs : List (ℕ × DistributedObject)
  pub loading : List (ℕ × LoadingObject)
  pub next_context : ℕ
  pub context_datagrams : List (ℕ × Datagram)
  pub inactive_loads : List (ℕ × List ℕ)
  pub dgi : DatagramIterator
  pub effects : List DbEffect

abbrev pub DbHandler {ℓ} : Type ℓ → Type ℓ
DbHandler A = Action DbStateServer A

abbrev pub with_iterator {ℓ} :
    {A : Type ℓ} → DbStateServer → Result A × DatagramIterator → Result A × DbStateServer
with_iterator s (r, dgi) = (r, record s { dgi = dgi })

unfoldable pub reads {ℓ} : {A : Type ℓ} → Reader A → DbHandler A
reads m s = with_iterator s (m s.dgi)

unfoldable pub emit : DbEffect → DbHandler (Unit {0})
emit e s = (ok tt, record s { effects = s.effects ++ e ∷ [] })

-- route_datagram of a message that was built; DatagramOverflow leaves the handler.
unfoldable pub route : Result Datagram → DbHandler (Unit {0})
unfolding emit
route message = lift message >>= λ dg. emit (by_server (routed dg))

unfoldable pub is_loading : ℕ → DbStateServer → Bool
unfolding has_key
is_loading do_id s = has_key do_id s.loading

unfoldable pub is_activated_object : ℕ → DbStateServer → Bool
unfolding has_key is_loading
is_activated_object do_id s = has_key do_id s.objs || is_loading do_id s

-- m_next_context++, a uint32_t.
unfoldable pub take_context : DbHandler ℕ
take_context s = (ok s.next_context, record s { next_context = (s.next_context + 1) % 2 ^ 32 })

-- m_context_datagrams[context] = dg.
unfoldable pub put_response : ℕ → Datagram → DbStateServer → DbStateServer
unfolding set_key
put_response context dg s = record s { context_datagrams = set_key context dg s.context_datagrams }

-- A handler that goes on unless a test of the state holds.
abbrev pub unless {ℓ} : (DbStateServer → Bool) → DbHandler (Unit {ℓ}) → DbHandler (Unit {ℓ})
unless test m = λ s. (if test s then returns tt else m) s
