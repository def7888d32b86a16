-- ===== src/Db/Postgres.antt =====
-- db/postgres/postgreSql.go. Pools and sessions of pgx are numbers; what the library answers is an
-- argument. Times are nanoseconds.
pub mod Backoff
pub mod Delays
pub mod Lifecycle
pub mod Pools
pub mod Listening
mod Tests
use arcella_lib.Prelude.Int.{ℤ, pos, negsuc, ltb_int}
use arcella_lib.Prelude.Text.{codes, text_eq, is_alnum}
use arcella_lib.Prelude.{
  ◌==◌, ◌||◌, ◌&&◌, ◌∷◌, if◌then◌else◌, leb, all, [], List, some, none, Option, not, false, true,
  Bool, ℕ,
}

pub record ConfigPostgreSql : Type 0 where
  pub min_conns : ℤ
  pub max_conns : ℤ
  pub health_check_period : ℤ
  pub max_conn_idle_time : ℤ
  pub max_conn_lifetime : ℤ
  pub max_conn_lifetime_jitter : ℤ
  pub with_init_ping : Bool

-- the fields of `pgxpool.Config` that are set
pub record PoolConfig : Type 0 where
  pub min_conns : ℤ
  pub max_conns : ℤ
  pub health_check_period : ℤ
  pub max_conn_idle_time : ℤ
  pub max_conn_lifetime : ℤ
  pub max_conn_lifetime_jitter : ℤ

pub record PostgreSql : Type 0 where
  pub config : ConfigPostgreSql
  pub has_cancel : Bool
  pub dbpool : Option ℕ
  pub stdlib_db : Option ℕ
  pub restarting : Bool
  pub restart_backoff : ℕ
  pub conn : Option ℕ
  pub notify_name : List ℕ

-- `NewPostgreSQL`, with the name of `OptionNotifyListener` or an empty one
unfoldable pub new_postgresql : ConfigPostgreSql → List ℕ → PostgreSql
new_postgresql config notify_name = record {
  config = config;
  has_cancel = false;
  dbpool = none;
  stdlib_db = none;
  restarting = false;
  restart_backoff = 0;
  conn = none;
  notify_name = notify_name;
}

pub data Result : Type 0 where
  ok in_progress bad_dsn no_pool bad_name no_conn no_listen no_ping : Result

-- the answers to one start: ParseConfig, NewWithConfig, Acquire, Exec of LISTEN and Ping
pub record Answers : Type 0 where
  pub parse : Option PoolConfig
  pub pool : PoolConfig → Option ℕ
  pub acquire : Option ℕ
  pub listen : Bool
  pub ping : Bool

abbrev pub if_above : ℤ → ℤ → ℤ → ℤ
if_above bound set default = if ltb_int bound set then set else default

unfoldable pub configured : ConfigPostgreSql → PoolConfig → PoolConfig
configured c cfg = record {
  min_conns = if_above (negsuc 0) c.min_conns cfg.min_conns;
  max_conns = if_above (negsuc 0) c.max_conns cfg.max_conns;
  health_check_period = if_above (pos 0) c.health_check_period cfg.health_check_period;
  max_conn_idle_time = if_above (pos 0) c.max_conn_idle_time cfg.max_conn_idle_time;
  max_conn_lifetime = if_above (pos 0) c.max_conn_lifetime cfg.max_conn_lifetime;
  max_conn_lifetime_jitter =
      if_above (pos 0) c.max_conn_lifetime_jitter cfg.max_conn_lifetime_jitter;
}

-- `notifyNamePattern`
abbrev pub is_word : ℕ → Bool
unfolding is_alnum
is_word c = is_alnum c || (c == b'_')

unfoldable pub is_notify_name : List ℕ → Bool
unfolding is_word
is_notify_name [] = false
is_notify_name (c ∷ s) = (is_word c && not (leb b'0' c && leb c b'9')) && all is_word s

abbrev pub pinged : PostgreSql → Bool → PostgreSql × Result
pinged s true = (s, ok)
pinged s false = (s, no_ping)

-- LISTEN on the session that is acquired
unfoldable pub listening : PostgreSql → Answers → Option ℕ → PostgreSql × Result
listening s a none = (record s { conn = none }, no_conn)
listening s a (some conn) =
    if a.listen
    then pinged (record s { conn = some conn }) a.ping
    else (record s { conn = none }, no_listen)

-- `doStart` from a pool on; a nil pool replaces the old one too
unfoldable pub pooled : PostgreSql → Answers → Option ℕ → PostgreSql × Result
unfolding listening is_notify_name
pooled s a none = (record s { dbpool = none }, no_pool)
pooled s a (some pool) =
    let t = record s { dbpool = some pool; stdlib_db = some pool } in
    if not (text_eq s.notify_name [])
    then if is_notify_name s.notify_name then listening t a a.acquire else (t, bad_name)
    else if s.config.with_init_ping
    then pinged t a.ping
    else (t, ok)

abbrev pub parsed : PostgreSql → Answers → Option PoolConfig → PostgreSql × Result
parsed s a none = (s, bad_dsn)
parsed s a (some cfg) = pooled s a (a.pool (configured s.config cfg))

unfoldable pub do_start : PostgreSql → Answers → PostgreSql × Result
unfolding pooled configured
do_start s a = parsed (record s { has_cancel = true }) a a.parse

-- `Start`
unfoldable pub start : PostgreSql → Answers → PostgreSql × Result
unfolding do_start
start s a = if s.restarting then (s, in_progress) else do_start s a

-- the session is released where a name is listened to
unfoldable pub do_stop : PostgreSql → PostgreSql
do_stop s = record s {
  conn = if text_eq s.notify_name [] then s.conn else none;
  has_cancel = false;
  dbpool = none;
  stdlib_db = none;
}

-- `Stop`
unfoldable pub stop : PostgreSql → PostgreSql
unfolding do_stop
stop s = do_stop s

unfoldable pub get_pgx_db : PostgreSql → Option ℕ
get_pgx_db s = s.dbpool

-- `OpenDBFromPool` where there is no handle yet
abbrev pub handle_of : PostgreSql → Option ℕ → Option ℕ → PostgreSql × Option ℕ
handle_of s none handle = (s, none)
handle_of s (some pool) none = (record s { stdlib_db = some pool }, some pool)
handle_of s (some pool) (some handle) = (s, some handle)

unfoldable pub get_db : PostgreSql → PostgreSql × Option ℕ
get_db s = handle_of s s.dbpool s.stdlib_db

-- `Query`, `QueryRow` and `Exec` go to the pool, and panic without one.
pub data Request : Type 0 where
  panics : Request
  sent_to : ℕ → Request

abbrev pub sent : Option ℕ → Request
sent none = panics
sent (some pool) = sent_to pool

unfoldable pub query : PostgreSql → Request
query s = sent s.dbpool
