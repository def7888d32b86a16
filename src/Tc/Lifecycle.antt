-- ===== src/Tc/Lifecycle.antt =====
-- tc/tcClientSender: `Start`, `Stop` and the connecting goroutines against each other. The steps are
-- the regions under the lock and the atomic operations, in any order: this covers every interleaving.
use arcella_lib.Tc.{
  TcClient, start_begin, token_received, start_failed, stop_begin, ws_disconnect, connect_begin,
  connect_failed, connect_dialed, push_ws_msg, restart_begin, restart_end, refresh_ends,
}
use arcella_lib.Prelude.{◌≡◌, arith, List, none, true, Bool, refl, ℕ}

-- a step of anybody but a new `Start`
pub data Step (tc : TcClient) : TcClient → Type 0 where
  token_step : (token : List ℕ) (expires : ℕ) → Step tc (token_received tc token expires)
  start_failed_step : Step tc (start_failed tc)
  stop_step : Step tc (stop_begin tc)
  disconnect_step : Step tc (ws_disconnect tc).0
  connect_step : Step tc (connect_begin tc).0
  connect_failed_step : Step tc (connect_failed tc)
  dialed_step : (conn : ℕ) → Step tc (connect_dialed tc conn).0
  push_step : (msg : List ℕ) (drained : Bool) → Step tc (push_ws_msg tc msg drained).0
  restart_step : Step tc (restart_begin tc).0
  restart_end_step : Step tc (restart_end tc)

pub data Reach (tc : TcClient) : TcClient → Type 0 where
  here : Reach tc tc
  next : {s t : TcClient} → Reach tc s → Step s t → Reach tc t

abbrev IsClosed : TcClient → Type 0
IsClosed tc = (tc.stopped ≡ true) × (tc.wsconn ≡ none)

Step-IsClosed : {s t : TcClient} → Step s t → IsClosed s → IsClosed t
unfolding token_received start_failed stop_begin ws_disconnect connect_begin connect_failed
    connect_dialed push_ws_msg restart_begin restart_end
Step-IsClosed (token_step token expires) h = h
Step-IsClosed start_failed_step h = h
Step-IsClosed stop_step h = ground arith
Step-IsClosed disconnect_step h = ground arith
Step-IsClosed connect_step h = ground arith
Step-IsClosed connect_failed_step h = h
Step-IsClosed (dialed_step conn) h = ground arith
Step-IsClosed (push_step msg drained) h = ground arith
Step-IsClosed restart_step h = ground arith
Step-IsClosed restart_end_step h = h

Reach-IsClosed : {s t : TcClient} → IsClosed s → Reach s t → IsClosed t
Reach-IsClosed h here = h
Reach-IsClosed h (next steps step) = Step-IsClosed step (Reach-IsClosed h steps)

Step-stopped : {s t : TcClient} → Step s t → s.stopped ≡ true → t.stopped ≡ true
unfolding token_received start_failed stop_begin ws_disconnect connect_begin connect_failed
    connect_dialed push_ws_msg restart_begin restart_end
Step-stopped (token_step token expires) h = h
Step-stopped start_failed_step h = h
Step-stopped stop_step h = refl
Step-stopped disconnect_step h = h
Step-stopped connect_step h = ground arith
Step-stopped connect_failed_step h = h
Step-stopped (dialed_step conn) h = ground arith
Step-stopped (push_step msg drained) h = ground arith
Step-stopped restart_step h = ground arith
Step-stopped restart_end_step h = h

Reach-stopped : {s t : TcClient} → Reach s t → s.stopped ≡ true → t.stopped ≡ true
Reach-stopped here h = h
Reach-stopped (next steps step) h = Step-stopped step (Reach-stopped steps h)

-- Once both parts of `Stop` have run, whatever else runs between and after them, the client is stopped
-- and has no connection until it is started again: a connection that is dialed late is given up.
pub stop_closes :
    (s : TcClient) {t u : TcClient}
    → Reach (stop_begin s) t
    → Reach (ws_disconnect t).0 u
    → (u.stopped ≡ true) × (u.wsconn ≡ none)
unfolding stop_begin ws_disconnect
stop_closes s between later = Reach-IsClosed (Reach-stopped between refl, refl) later

-- The context that `Stop` cancels is made once: when the client is started again, the loop that
-- renews its token ends at its first wait, whatever token it has got.
pub restarted_refresh_ends :
    (tc : TcClient) (token : List ℕ) (expires : ℕ)
    → refresh_ends (token_received (start_begin (ws_disconnect (stop_begin tc)).0).0 token expires)
      ≡ true
unfolding refresh_ends token_received start_begin ws_disconnect stop_begin
restarted_refresh_ends tc token expires = ground arith
