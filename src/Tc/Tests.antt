-- ===== src/Tc/Tests.antt =====
-- The TrueConf client on small inputs.
use arcella_lib.Tc.{
  TcClient, new_tc_client, start_begin, stop_begin, ws_disconnect, connect_dialed, connect_begin,
}
use arcella_lib.Tc.Lifecycle
use arcella_lib.Tc.Lifecycle.{Reach, stop_closes, restarted_refresh_ends}
use arcella_lib.Prelude.{◌≡◌, none, true, ℕ}

-- `Stop` while `Start` is connecting; the dial succeeds behind the disconnection
abbrev connecting : TcClient
unfolding new_tc_client start_begin connect_begin
connecting = (connect_begin (start_begin new_tc_client).0).0

abbrev late : TcClient
unfolding stop_begin ws_disconnect connect_dialed
late = (connect_dialed (ws_disconnect (stop_begin connecting)).0 5).0

late-Reach : Reach (ws_disconnect (stop_begin connecting)).0 late
unfolding stop_begin ws_disconnect connect_dialed
late-Reach = Lifecycle.next Lifecycle.here (Lifecycle.dialed_step 5)

stop_closes_example : (late.stopped ≡ true) × (late.wsconn ≡ none)
stop_closes_example = stop_closes connecting Lifecycle.here late-Reach

abbrev no_jitter : ℕ → ℕ
no_jitter count = 0
