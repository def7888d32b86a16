-- ===== src/Db/Mssql.antt =====
-- db/mssql/msSql.go. Handles of database/sql are numbers, and an error of a ping is the number of the
-- server's error in it, if there is one. Lifetimes are seconds.
pub mod Pings
pub mod Lifecycle
mod Tests
use arcella_lib.Prelude.Int.{ℤ, pos, ltb_int}
use arcella_lib.Db.Handles.{Action, opens, closes, closing}
use arcella_lib.Prelude.{
  ◌==◌, ◌||◌, ◌∷◌, ◌+◌, if◌then◌else◌, leb, [], List, some, none, Option, not, false, true, Bool,
  suc, zero, ℕ,
}

pub record ConfigMsDb : Type 0 where
  pub dsn : List ℕ
  pub max_open_conns : ℤ
  pub max_idle_conns : ℤ
  pub conn_max_lifetime : ℤ
  pub conn_max_idle_time : ℤ

pub record MsSql : Type 0 where
  pub config : ConfigMsDb
  pub db : Option ℕ

abbrev pub new_mssql : ConfigMsDb → MsSql
new_mssql config = record { config = config; db = none }

-- the calls of the setters of a new handle, which do not change what is open
pub record Settings : Type 0 where
  pub max_open_conns : Option ℤ
  pub max_idle_conns : Option ℤ
  pub conn_max_lifetime : Option ℤ
  pub conn_max_idle_time : Option ℤ

abbrev pub if_positive : ℤ → Option ℤ
if_positive i = if ltb_int (pos 0) i then some i else none

unfoldable pub settings : ConfigMsDb → Settings
settings c = record {
  max_open_conns = if_positive c.max_open_conns;
  max_idle_conns = if_positive c.max_idle_conns;
  conn_max_lifetime = if_positive c.conn_max_lifetime;
  conn_max_idle_time = if_positive c.conn_max_idle_time;
}

abbrev pub member : ℕ → List ℕ → Bool
member n [] = false
member n (m ∷ ms) = n == m || member n ms

abbrev pub transient_numbers : List ℕ
transient_numbers =
    64 ∷ 233 ∷ 4060 ∷ 4221 ∷ 10053 ∷ 10054 ∷ 10928 ∷ 10929 ∷ 40020 ∷ 40143 ∷ 40166 ∷ 40197 ∷ 40501
    ∷ 40540 ∷ 40613 ∷ 42108 ∷ 42109 ∷ 49918 ∷ 49919 ∷ 49920 ∷ 1205 ∷ 1222 ∷ []

-- `isTransient`
unfoldable pub is_transient : Option ℕ → Bool
is_transient none = false
is_transient (some number) = member number transient_numbers

pub data Ping : Type 0 where
  answered : Ping
  fails : Option ℕ → Ping

-- the attempts that were made and the last answer
abbrev pub Pinged : Type 0
Pinged = ℕ × Ping

abbrev pub verdict : ℕ → Ping → Option Pinged → Option Pinged
unfolding is_transient
verdict attempt answered rest = some (suc attempt, answered)
verdict attempt (fails e) rest =
    if leb 3 attempt || not (is_transient e) then some (suc attempt, fails e) else rest

-- the loop of `pingWithRetry`, in the given number of rounds
unfoldable pub ping_from : (ℕ → Ping) → ℕ → ℕ → Option Pinged
ping_from ping attempt zero = none
ping_from ping attempt (suc rounds) =
    let rest = ping_from ping (attempt + 1) rounds in verdict attempt (ping attempt) rest

unfoldable pub ping_with_retry : (ℕ → Ping) → Option Pinged
unfolding ping_from
ping_with_retry ping = ping_from ping 0 4

pub data Result : Type 0 where
  ok already_started no_open hangs : Result
  no_ping : Option ℕ → Result

abbrev pub pinged : MsSql → ℕ → Option Pinged → MsSql × Result × List Action
pinged ms h none = (ms, hangs, opens h ∷ [])
pinged ms h (some (attempts, answered)) = (ms, ok, opens h ∷ [])
pinged ms h (some (attempts, fails e)) =
    (record ms { db = none }, no_ping e, opens h ∷ closes h ∷ [])

-- the answer of `sql.Open`
abbrev pub opened : MsSql → (ℕ → Ping) → Option ℕ → MsSql × Result × List Action
unfolding ping_with_retry
opened ms ping none = (record ms { db = none }, no_open, [])
opened ms ping (some h) = pinged (record ms { db = some h }) h (ping_with_retry ping)

abbrev pub started :
    MsSql → (List ℕ → Option ℕ) → (ℕ → Ping) → Option ℕ → MsSql × Result × List Action
started ms sql_open ping none = opened ms ping (sql_open ms.config.dsn)
started ms sql_open ping (some h) = (ms, already_started, [])

-- `Start`, with what it opens and closes
unfoldable pub start : MsSql → (List ℕ → Option ℕ) → (ℕ → Ping) → MsSql × Result × List Action
unfolding ping_with_retry
start ms sql_open ping = started ms sql_open ping ms.db

-- `Stop`; the error of Close is handed on
unfoldable pub stop : MsSql → MsSql × List Action
stop ms = (record ms { db = none }, closing ms.db)

unfoldable pub get_db : MsSql → Option ℕ
get_db ms = ms.db
