-- ===== src/Db/Oracle.antt =====
-- db/oracle/oracleSql.go. Handles of database/sql and contexts are numbers; what the driver answers is
-- an argument. Lifetimes are seconds.
pub mod Handover
mod Tests
use arcella_lib.Prelude.Dict
use arcella_lib.Prelude.Int.{ℤ, pos, ltb_int}
use arcella_lib.Prelude.Text.{codes}
use arcella_lib.Web.Client.{text_eq_instance}
use arcella_lib.Db.Handles.{Action, opens, closes, closing}
use arcella_lib.Prelude.{
  ◌++◌, ◌∷◌, if◌then◌else◌, [], List, some, none, Option, not, false, true, Bool, ℕ,
}

abbrev pub Options : Type 0
Options = Dict.Dict (List ℕ) (List ℕ)

pub record ConfigOracleDb : Type 0 where
  pub server : List ℕ
  pub port : ℤ
  pub service : List ℕ
  pub user : List ℕ
  pub password : List ℕ
  pub trace_file : List ℕ
  pub dsn : List ℕ
  pub url_params : Options
  pub init_without_ping : Bool
  pub max_open_conns : ℤ
  pub max_idle_conns : ℤ
  pub conn_max_lifetime : ℤ
  pub conn_max_idle_time : ℤ

pub record OracleSql : Type 0 where
  pub config : ConfigOracleDb
  pub connection : Option ℕ
  pub ctx : Option ℕ

abbrev pub new_oracle_db : ConfigOracleDb → OracleSql
new_oracle_db config = record { config = config; connection = none; ctx = none }

-- `goOra.BuildUrl` and `sql.Open`, and whether a ping of a handle succeeds
pub record Driver : Type 0 where
  pub build_url : ConfigOracleDb → Options → List ℕ
  pub sql_open : List ℕ → Option ℕ
  pub ping : ℕ → Bool

abbrev pub with_trace : List ℕ → Options
unfolding Dict.insert
with_trace [] = []
with_trace (c ∷ trace_file) = Dict.insert (codes "trace file") (c ∷ trace_file) []

unfoldable pub merge : Options → Options → Options
unfolding Dict.insert
merge [] options = options
merge ((k, v) ∷ params) options = merge params (Dict.insert k v options)

unfoldable pub url_options : ConfigOracleDb → Options
unfolding merge
url_options c = merge c.url_params (with_trace c.trace_file)

abbrev pub url_or : List ℕ → List ℕ → List ℕ
url_or [] built = built
url_or (c ∷ dsn) built = c ∷ dsn

unfoldable pub database_url : Driver → ConfigOracleDb → List ℕ
unfolding url_options
database_url d c = url_or c.dsn (d.build_url c (url_options c))

-- the calls of the setters of a new handle, which do not change what is open
pub record Settings : Type 0 where
  pub max_open_conns : Option ℤ
  pub max_idle_conns : Option ℤ
  pub conn_max_lifetime : Option ℤ
  pub conn_max_idle_time : Option ℤ

abbrev pub if_positive : ℤ → Option ℤ
if_positive i = if ltb_int (pos 0) i then some i else none

unfoldable pub settings : ConfigOracleDb → Settings
settings c = record {
  max_open_conns = if_positive c.max_open_conns;
  max_idle_conns = if_positive c.max_idle_conns;
  conn_max_lifetime = if_positive c.conn_max_lifetime;
  conn_max_idle_time = if_positive c.conn_max_idle_time;
}

-- the answer of `sql.Open`; a handle that does not answer the ping is kept
abbrev pub opened : OracleSql → Driver → Option ℕ → OracleSql × Bool × List Action
opened s d none = (record s { connection = none }, false, [])
opened s d (some h) = (
  record s { connection = some h },
  (if not s.config.init_without_ping then d.ping h else true),
  opens h ∷ [],
)

-- `doStart`: the state, whether the error is nil, and what is opened
unfoldable pub do_start : OracleSql → Driver → Option ℕ → OracleSql × Bool × List Action
unfolding database_url
do_start s d ctx = opened (record s { ctx = ctx }) d (d.sql_open (database_url d s.config))

-- `Start`
unfoldable pub start : OracleSql → Driver → Option ℕ → OracleSql × Bool × List Action
unfolding do_start
start s d ctx = do_start s d ctx

-- `doStop`; the error of Close is handed on
unfoldable pub do_stop : OracleSql → OracleSql × List Action
do_stop s = (record s { connection = none }, closing s.connection)

-- `Stop`
unfoldable pub stop : OracleSql → OracleSql × List Action
unfolding do_stop
stop s = do_stop s

unfoldable pub get_db : OracleSql → Option ℕ
get_db s = s.connection

-- `DoRestart`
unfoldable pub do_restart : OracleSql → Driver → OracleSql × List Action
unfolding do_start do_stop
do_restart s d = let r = do_stop s in let t = do_start r.0 d s.ctx in (t.0, r.1 ++ t.2)

abbrev pub answers : Driver → Option ℕ → Bool
answers d none = false
answers d (some h) = d.ping h

-- `DoPing`
unfoldable pub do_ping : OracleSql → Driver → Bool
do_ping s d = answers d s.connection

-- `checkConnection`, where nothing runs between its calls
unfoldable pub check_connection : OracleSql → Driver → Driver → (OracleSql × List Action) × Option ℕ
unfolding do_ping do_restart get_db
check_connection s before d =
    let r = if not (do_ping s before) then do_restart s d else (s, []) in (r, get_db r.0)
