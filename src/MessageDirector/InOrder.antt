-- ===== src/MessageDirector/InOrder.antt =====
-- src/messagedirector/MDNetworkUpstream.cpp: the link sends each datagram once and in order, also what it was
-- given before it was connected.
use astron.Base.{◌≡◌, refl, sym, ap, ◌∙◌, List, [], ◌∷◌, ◌++◌, Bool, true, false, if◌then◌else◌}
use astron.Base.Result.{Result, ok, err, ◌>>=◌}
use astron.Datagram.{Datagram}
use astron.MessageDirector.Upstream.{
  Upstream, send_datagram, send_all, flush_send_queue, on_connect,
}
use mathlib.Core.Path.{subst}
use mathlib.Core.List.{append-nil, append_assoc}

-- What happens to a link: the director hands it a datagram, or the connection is there.
pub data LinkEvent : Type 0 where
  sends : Datagram → LinkEvent
  connects : LinkEvent

unfoldable pub happens : LinkEvent → Upstream → Result Upstream
unfolding send_datagram on_connect
happens (sends dg) u = ok (send_datagram dg u)
happens connects u = on_connect u

unfoldable pub run : List LinkEvent → Upstream → Result Upstream
unfolding happens
run [] u = ok u
run (e ∷ es) u = happens e u >>= run es

-- The datagrams that it is handed, the oldest first.
unfoldable pub handed : List LinkEvent → List Datagram
handed [] = []
handed (sends dg ∷ es) = dg ∷ handed es
handed (connects ∷ es) = handed es

-- Between two calls, after `dgs`: nothing waits once the connection is there.
pub record IsInOrder (dgs : List Datagram) (u : Upstream) : Type 0 where
  pub idle : u.is_sending ≡ false
  pub all : u.sent ++ u.messages ≡ dgs
  pub waits : (if u.is_initialized then u.messages else []) ≡ []

send_all-eq :
    (ms : List Datagram) (u : Upstream)
    → send_all ms u ≡ record u { messages = []; sent = u.sent ++ ms }
unfolding send_all
send_all-eq [] u =
    ap (λ (x : List Datagram). record u { messages = []; sent = x }) (sym (append-nil u.sent))
send_all-eq (dg ∷ ms) u =
    send_all-eq ms (record u { messages = ms; sent = u.sent ++ dg ∷ [] })
    ∙ ap (λ (x : List Datagram). record u { messages = []; sent = x })
        (append_assoc u.sent (dg ∷ []) ms)

abbrev link : Bool → Bool → List Datagram → List Datagram → Upstream
link up busy ms done = record { is_initialized = up; is_sending = busy; messages = ms; sent = done }

send_datagram-IsInOrder :
    (up busy : Bool) (ms done dgs : List Datagram) (dg : Datagram)
    → IsInOrder dgs (link up busy ms done)
    → IsInOrder (dgs ++ dg ∷ []) (send_datagram dg (link up busy ms done))
unfolding send_datagram
send_datagram-IsInOrder true busy ms done dgs dg h = record {
  idle = h.idle;
  all =
      ap (◌++◌ (done ++ dg ∷ [])) h.waits
      ∙ append-nil (done ++ dg ∷ [])
      ∙ ap (λ (x : List Datagram). x ++ dg ∷ [])
          (sym (append-nil done) ∙ ap (◌++◌ done) (sym h.waits) ∙ h.all);
  waits = h.waits;
}
send_datagram-IsInOrder false busy ms done dgs dg h = record {
  idle = h.idle;
  all = sym (append_assoc done ms (dg ∷ [])) ∙ ap (λ (x : List Datagram). x ++ dg ∷ []) h.all;
  waits = refl;
}

-- A state that a call leaves.
abbrev pub Leaves : List Datagram → Result Upstream → Type 0
Leaves dgs (ok u) = IsInOrder dgs u
Leaves dgs (err e) = ⊥

on_connect-Leaves :
    (up busy : Bool) (ms done dgs : List Datagram)
    → IsInOrder dgs (link up busy ms done)
    → Leaves dgs (on_connect (link up busy ms done))
unfolding on_connect flush_send_queue
on_connect-Leaves up true ms done dgs h = absurd (false_lem h.idle)
  where
    false_lem : true ≡ false → ⊥
    false_lem e = cc
on_connect-Leaves up false ms done dgs h =
    rw (send_all-eq ms (link true true ms done))
      (record { idle = refl; all = append-nil (done ++ ms) ∙ h.all; waits = refl })

runs :
    (es : List LinkEvent) (dgs : List Datagram) (u : Upstream)
    → IsInOrder dgs u
    → Leaves (dgs ++ handed es) (run es u)
unfolding run handed happens
runs [] dgs u h = subst (λ (x : List Datagram). IsInOrder x u) (sym (append-nil dgs)) h
runs (sends dg ∷ es) dgs u h =
    subst (λ (x : List Datagram). Leaves x (run es (send_datagram dg u)))
      (append_assoc dgs (dg ∷ []) (handed es))
      (runs es (dgs ++ dg ∷ []) (send_datagram dg u)
        (send_datagram-IsInOrder u.is_initialized u.is_sending u.messages u.sent dgs dg h))
runs (connects ∷ es) dgs u h =
    go_on (on_connect u) (on_connect-Leaves u.is_initialized u.is_sending u.messages u.sent dgs h)
      (λ v q. runs es dgs v q)
  where
    go_on :
        (r : Result Upstream)
        → Leaves dgs r
        → ((v : Upstream) → IsInOrder dgs v → Leaves (dgs ++ handed es) (run es v))
        → Leaves (dgs ++ handed es) (r >>= run es)
    go_on (ok v) h k = k v h
    go_on (err e) h k = absurd h

unfoldable pub fresh : Upstream
fresh = record { is_initialized = false; is_sending = false; messages = []; sent = [] }

-- Whatever a new link is handed, before and after it is connected, no call of it fails, and what it has sent,
-- and then what still waits, is just what it was handed, each datagram once and in the order in which it was
-- handed over; nothing waits once the link is connected.
pub run-Leaves : (es : List LinkEvent) → Leaves (handed es) (run es fresh)
unfolding fresh
run-Leaves es = runs es [] fresh (record { idle = refl; all = refl; waits = refl })
