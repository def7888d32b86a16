-- ===== src/Db/Mssql/Lifecycle.antt =====
-- db/mssql/msSql.go: Start, Stop and GetDB in any order.
use arcella_lib.Db.Handles.{Action, after, with_made, without, after-closing, after-append}
use arcella_lib.Db.Mssql.{
  MsSql, ConfigMsDb, new_mssql, Ping, answered, fails, Pinged, ping_with_retry, pinged, opened,
  started, start, stop,
}
use arcella_lib.Prelude.{◌++◌, ◌∙◌, ◌∷◌, ◌≡◌, arith, [], List, some, none, Option, ap, sym, refl, ℕ}

pub data Event : Type 0 where
  starts : (List ℕ → Option ℕ) → (ℕ → Ping) → Event
  stops : Event

unfoldable pub step : MsSql → Event → MsSql × List Action
unfolding start stop
step ms (starts sql_open ping) = let r = start ms sql_open ping in (r.0, r.2)
step ms stops = stop ms

-- the client after some calls, and what they opened and closed
unfoldable pub run : MsSql → List Event → MsSql × List Action
unfolding step
run ms [] = (ms, [])
run ms (e ∷ es) = let r = step ms e in let s = run r.0 es in (s.0, r.1 ++ s.1)

pinged_lem :
    (ms : MsSql) (h : ℕ) (p : Option Pinged)
    → let r = pinged (record ms { db = some h }) h p in after r.2 [] ≡ with_made r.0.db []
unfolding after without
pinged_lem ms h none = refl
pinged_lem ms h (some (attempts, answered)) = refl
pinged_lem ms h (some (attempts, fails e)) = ground arith

opened_lem :
    (ms : MsSql) (ping : ℕ → Ping) (o : Option ℕ)
    → let r = opened ms ping o in after r.2 [] ≡ with_made r.0.db []
unfolding after opened
opened_lem ms ping none = refl
opened_lem ms ping (some h) = pinged_lem ms h (ping_with_retry ping)

started_lem :
    (ms : MsSql) (sql_open : List ℕ → Option ℕ) (ping : ℕ → Ping) (o : Option ℕ)
    → ms.db ≡ o
    → let r = started ms sql_open ping o in after r.2 (with_made o []) ≡ with_made r.0.db []
unfolding after
started_lem ms sql_open ping none e = opened_lem ms ping (sql_open ms.config.dsn)
started_lem ms sql_open ping (some h) e = sym (ap (λ (o : Option ℕ). with_made o []) e)

step_lem :
    (ms : MsSql) (e : Event)
    → let r = step ms e in after r.1 (with_made ms.db []) ≡ with_made r.0.db []
unfolding step start stop
step_lem ms (starts sql_open ping) = started_lem ms sql_open ping ms.db refl
step_lem ms stops = after-closing ms.db

run_from :
    (ms : MsSql) (es : List Event)
    → let r = run ms es in after r.1 (with_made ms.db []) ≡ with_made r.0.db []
unfolding run after
run_from ms [] = refl
run_from ms (e ∷ es) =
    let r = step ms e in
    after-append r.1 (run r.0 es).1 (with_made ms.db [])
    ∙ ap (after (run r.0 es).1) (step_lem ms e)
    ∙ run_from r.0 es

-- Whatever calls of Start and Stop are made on a new client, and whatever the server answers, the
-- handle that the client holds is the only one that is open.
pub after-run :
    (config : ConfigMsDb) (es : List Event)
    → let r = run (new_mssql config) es in after r.1 [] ≡ with_made r.0.db []
after-run config es = run_from (new_mssql config) es
