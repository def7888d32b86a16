-- ===== src/Db/Oracle/Handover.antt =====
-- db/oracle/oracleSql.go: Start, Stop, DoRestart and checkConnection in any order.
use arcella_lib.Db.Handles.{
  Action, closing, after, with_made, after-closing, after-append, without_first,
}
use arcella_lib.Db.Oracle.{
  ConfigOracleDb, OracleSql, new_oracle_db, Driver, opened, do_start, start, do_stop, stop,
  do_restart, do_ping, check_connection, database_url,
}
use arcella_lib.Prelude.{
  ◌++◌, ◌∙◌, ◌∷◌, ◌≢◌, ◌≡◌, if_intro, [], List, some, none, Option, not, ap, refl, ℕ,
}

pub data Event : Type 0 where
  starts : Driver → Option ℕ → Event
  stops : Event
  restarts : Driver → Event
  checks : Driver → Driver → Event

unfoldable pub step : OracleSql → Event → OracleSql × List Action
unfolding start stop do_restart check_connection
step s (starts d ctx) = let r = start s d ctx in (r.0, r.2)
step s stops = stop s
step s (restarts d) = do_restart s d
step s (checks before d) = (check_connection s before d).0

unfoldable pub run : OracleSql → List Event → OracleSql × List Action
unfolding step
run s [] = (s, [])
run s (e ∷ es) = let r = step s e in let t = run r.0 es in (t.0, r.1 ++ t.1)

-- Start is called only where nothing is held.
abbrev pub Orderly : OracleSql → List Event → Type 0
Orderly s [] = Unit {0}
Orderly s (starts d ctx ∷ es) = (s.connection ≡ none) × Orderly (step s (starts d ctx)).0 es
Orderly s (e ∷ es) = Orderly (step s e).0 es

-- what is held is all that is open
abbrev pub Holds : OracleSql → OracleSql × List Action → Type 0
Holds s r = after r.1 (with_made s.connection []) ≡ with_made r.0.connection []

do_start_lem :
    (s : OracleSql) (d : Driver) (ctx : Option ℕ)
    → let r = do_start s d ctx in after r.2 [] ≡ with_made r.0.connection []
unfolding do_start after
do_start_lem s d ctx = from_open (record s { ctx = ctx }) d (d.sql_open (database_url d s.config))
  where
    from_open :
        (s : OracleSql) (d : Driver) (o : Option ℕ)
        → let r = opened s d o in after r.2 [] ≡ with_made r.0.connection []
    from_open s d none = refl
    from_open s d (some h) = refl

do_restart-Holds : (s : OracleSql) (d : Driver) → Holds s (do_restart s d)
unfolding do_restart do_stop
do_restart-Holds s d =
    let t = do_start (do_stop s).0 d s.ctx in
    after-append (closing s.connection) t.2 (with_made s.connection [])
    ∙ ap (after t.2) (after-closing s.connection)
    ∙ do_start_lem (do_stop s).0 d s.ctx

-- what a start needs
abbrev Allowed : OracleSql → Event → Type 0
Allowed s (starts d ctx) = s.connection ≡ none
Allowed s _ = Unit {0}

step-Holds : (s : OracleSql) (e : Event) → Allowed s e → Holds s (step s e)
unfolding step start stop do_stop check_connection
step-Holds s (starts d ctx) h =
    let r = do_start s d ctx in
    ap (λ (o : Option ℕ). after r.2 (with_made o [])) h ∙ do_start_lem s d ctx
step-Holds s stops h = after-closing s.connection
step-Holds s (restarts d) h = do_restart-Holds s d
step-Holds s (checks before d) h =
    if_intro (Holds s) (not (do_ping s before)) (λ _. do_restart-Holds s d)
      (λ _. unfold after in refl)

run-step :
    (s : OracleSql) (e : Event) (es : List Event)
    → Holds s (step s e)
    → Holds (step s e).0 (run (step s e).0 es)
    → Holds s (run s (e ∷ es))
unfolding run
run-step s e es h rest =
    let r = step s e in
    after-append r.1 (run r.0 es).1 (with_made s.connection []) ∙ ap (after (run r.0 es).1) h ∙ rest

run-Holds : (s : OracleSql) (es : List Event) → Orderly s es → Holds s (run s es)
run-Holds s [] h = unfold run in unfold after in refl
run-Holds s (starts d ctx ∷ es) (free, h) =
    run-step s (starts d ctx) es (step-Holds s (starts d ctx) free)
      (run-Holds (step s (starts d ctx)).0 es h)
run-Holds s (stops ∷ es) h =
    run-step s stops es (step-Holds s stops tt) (run-Holds (step s stops).0 es h)
run-Holds s (restarts d ∷ es) h =
    run-step s (restarts d) es (step-Holds s (restarts d) tt)
      (run-Holds (step s (restarts d)).0 es h)
run-Holds s (checks before d ∷ es) h =
    run-step s (checks before d) es (step-Holds s (checks before d) tt)
      (run-Holds (step s (checks before d)).0 es h)

-- If Start is called only where no handle is held, then whatever else is called on a new client, the
-- handle that it holds is the only one that is open, also where a restart fails or a ping does.
pub after-run-Orderly :
    (config : ConfigOracleDb) (es : List Event)
    → Orderly (new_oracle_db config) es
    → let r = run (new_oracle_db config) es in after r.1 [] ≡ with_made r.0.connection []
after-run-Orderly config es h = run-Holds (new_oracle_db config) es h

-- A second Start that opens another handle forgets the first, which stays open after Stop.
pub second_start_leaks :
    (s : OracleSql) (d : Driver) (ctx : Option ℕ) (p q : ℕ)
    → s.connection ≡ some p
    → p ≢ q
    → d.sql_open (database_url d s.config) ≡ some q
    → let r = run s (starts d ctx ∷ stops ∷ []) in
      (r.0.connection ≡ none) × (after r.1 (with_made s.connection []) ≡ p ∷ [])
unfolding run step start stop do_start do_stop after
second_start_leaks s d ctx p q held ne good = rw (good, held) (refl, without_first p q ne)
