-- ===== src/Tc.antt =====
-- tc/tcClientSender/tcClient.go and tcClientWS.go: the TrueConf client's state and the regions of its
-- operations that run under `mu`. Connections are numbers, and what the server answers is an argument.
pub mod Lifecycle
pub mod Restart
pub mod Token
mod Tests
use arcella_lib.Prelude.Text.{codes, text_eq}
use arcella_lib.Prelude.{
  ◌||◌, ◌&&◌, ◌++◌, ◌∷◌, ◌^◌, ◌%◌, ◌+◌, if◌then◌else◌, ltb, drop, length, [], List, some, none,
  Option, not, false, true, Bool, ℕ,
}

pub record TcClient : Type 0 where
  pub msg_id : ℕ
  pub has_cancel : Bool
  pub wsconn : Option ℕ
  pub started : Bool
  pub connecting : Bool
  pub restart_flag : Bool
  pub token : List ℕ
  pub token_expires : ℕ
  pub stopped : Bool
  pub stop_ctx_done : Bool
  pub ws_msg : List (List ℕ)

pub data Result : Type 0 where
  ok : Result
  already_started already_connected in_progress is_stopped queue_full no_token dial_failed : Result

unfoldable pub new_tc_client : TcClient
new_tc_client = record {
  msg_id = 0;
  has_cancel = false;
  wsconn = none;
  started = false;
  connecting = false;
  restart_flag = false;
  token = [];
  token_expires = 0;
  stopped = false;
  stop_ctx_done = false;
  ws_msg = [];
}

-- `Start`: its first region, the one behind a token, and the last one, behind a failure
unfoldable pub start_begin : TcClient → TcClient × Result
start_begin tc =
    if tc.started
    then (tc, already_started)
    else (record tc { started = true; stopped = false }, ok)

unfoldable pub token_received : TcClient → List ℕ → ℕ → TcClient
token_received tc token expires = record tc { token = token; token_expires = expires }

unfoldable pub start_failed : TcClient → TcClient
start_failed tc = record tc { started = false }

-- `Stop` before its call of `wsDisconnect`
unfoldable pub stop_begin : TcClient → TcClient
stop_begin tc = record tc { started = false; stopped = true; stop_ctx_done = true }

-- `wsDisconnect`; the result is the connection that is closed, if there is one
unfoldable pub ws_disconnect : TcClient → TcClient × Option ℕ
ws_disconnect tc = (record tc { has_cancel = false; wsconn = none; connecting = false }, tc.wsconn)

abbrev pub is_some : Option ℕ → Bool
is_some none = false
is_some (some _) = true

-- `wsConnect`: its first region
unfoldable pub connect_begin : TcClient → TcClient × Result
connect_begin tc =
    if is_some tc.wsconn
    then (tc, already_connected)
    else if tc.connecting
    then (tc, in_progress)
    else (record tc { connecting = true }, ok)

-- the region behind a failed dial or without a token
unfoldable pub connect_failed : TcClient → TcClient
connect_failed tc = record tc { connecting = false }

-- the region behind a successful dial
unfoldable pub connect_dialed : TcClient → ℕ → TcClient × Result
connect_dialed tc conn =
    if tc.stopped
    then (record tc { connecting = false }, is_stopped)
    else (record tc { has_cancel = true; wsconn = some conn; connecting = false }, ok)

-- which token `wsConnect` uses: the argument, a stored one that is still valid, or a new one
unfoldable pub choose_token : TcClient → ℕ → List ℕ → Option (List ℕ) → Option (List ℕ)
choose_token tc now token new_token =
    if not (text_eq token [])
    then some token
    else if not (text_eq tc.token []) && ltb now tc.token_expires
    then some tc.token
    else new_token

abbrev pub queue_size : ℕ
queue_size = 256

-- `pushWSMsg`: `drained` says whether the queue gets room in the five seconds of the wait
unfoldable pub push_ws_msg : TcClient → List ℕ → Bool → TcClient × Result
push_ws_msg tc msg drained =
    if ltb (length tc.ws_msg) queue_size
    then (record tc { ws_msg = tc.ws_msg ++ (msg ∷ []) }, ok)
    else if drained
    then (record tc { ws_msg = drop 1 tc.ws_msg ++ (msg ∷ []) }, ok)
    else (tc, queue_full)

-- the parse mode of a message
unfoldable pub parse_mode : List ℕ → List ℕ
parse_mode mode =
    if text_eq mode (codes "html") || text_eq mode (codes "text") then mode else codes "markdown"

-- `SendMsg`; `render` makes the JSON of a number, a text, a chat and a mode
unfoldable pub send_msg :
    (ℕ → List ℕ → List ℕ → List ℕ → List ℕ)
    → TcClient
    → List ℕ
    → List ℕ
    → List ℕ
    → Bool
    → TcClient × Result
unfolding parse_mode push_ws_msg
send_msg render tc msg chat_id mode drained =
    if tc.stopped
    then (tc, is_stopped)
    else let id = (tc.msg_id + 1) % 2 ^ 32 in
      push_ws_msg (record tc { msg_id = id }) (render id msg chat_id (parse_mode mode)) drained

-- `wsRestart`: the compare-and-swap at its start, and the deferred store
unfoldable pub restart_begin : TcClient → TcClient × Bool
restart_begin tc =
    if tc.restart_flag then (tc, false) else (record tc { restart_flag = true }, true)

unfoldable pub restart_end : TcClient → TcClient
restart_end tc = record tc { restart_flag = false }

-- whether the reader and the writer start a restart on an error
unfoldable pub triggers_restart : TcClient → Bool
triggers_restart tc = not tc.stopped && not tc.restart_flag

-- What the writer does with a message of the queue.
unfoldable pub writes : TcClient → Bool
writes tc = not (tc.restart_flag || tc.stopped)

-- `tokenRefreshLoop` at the head of its loop and behind its wait: whether it ends there
unfoldable pub refresh_ends : TcClient → Bool
refresh_ends tc = not tc.started || tc.stop_ctx_done
