-- ===== src/Db/Postgres/Tests.antt =====
-- The PostgreSQL client on small runs.
use arcella_lib.Prelude.Int.{pos, negsuc}
use arcella_lib.Prelude.Text.{codes}
use arcella_lib.Db.Handles.{with_made}
use arcella_lib.Db.Postgres.{
  ConfigPostgreSql, PoolConfig, Answers, new_postgresql, start, get_db, is_notify_name, query, stop,
  panics, PostgreSql, ok,
}
use arcella_lib.Db.Postgres.Backoff.{
  restart_base_delay, restart_max_delay, restart_begin, restart_end,
}
use arcella_lib.Db.Postgres.Delays
use arcella_lib.Db.Postgres.Delays.{Failing, fails, rested}
use arcella_lib.Db.Postgres.Lifecycle
use arcella_lib.Db.Postgres.Lifecycle.{
  Event, starts, stops, begins, wakes, asks, World, run, step, fresh, flag, made,
}
use arcella_lib.Db.Postgres.Pools
use arcella_lib.Db.Postgres.Listening.{Channels}
use arcella_lib.Prelude.{◌≢◌, ◌∷◌, ◌≡◌, ◌≤◌, ◌^◌, ◌*◌, min, [], some, false, true, refl, ℕ}

abbrev config : ConfigPostgreSql
config = record {
  min_conns = negsuc 0;
  max_conns = pos 4;
  health_check_period = pos 0;
  max_conn_idle_time = pos 0;
  max_conn_lifetime = pos 0;
  max_conn_lifetime_jitter = pos 0;
  with_init_ping = true;
}

abbrev settings : PoolConfig
settings = record {
  min_conns = pos 0;
  max_conns = pos 10;
  health_check_period = pos 60;
  max_conn_idle_time = pos 1;
  max_conn_lifetime = pos 1;
  max_conn_lifetime_jitter = pos 0;
}

-- a database that answers with the pool `p`
abbrev up : ℕ → Answers
up p = record {
  parse = some settings;
  pool = λ c. some p;
  acquire = some 9;
  listen = true;
  ping = true;
}

abbrev down : Answers
down = record (up 2) { ping = false }

abbrev least : ℕ → ℕ
least n = 0

words : (is_notify_name (codes "my_event1") ≡ true) × (is_notify_name (codes "1event") ≡ false)
unfolding is_notify_name
words = (refl, refl)

query_after_stop : query (stop (start (new_postgresql config []) (up 1)).0) ≡ panics
unfolding query stop
query_after_stop = refl

run-fresh_example :
    let w = run (fresh config []) (starts (up 1) ∷ asks ∷ begins least ∷ stops ∷ wakes down ∷ []) in
    (w.pending ≡ flag w.pg.restarting) × ((get_db w.pg).1 ≡ w.pg.dbpool)
run-fresh_example =
    Lifecycle.run-fresh config [] (starts (up 1) ∷ asks ∷ begins least ∷ stops ∷ wakes down ∷ [])

run-open_pools_example :
    let w = run (fresh config []) (starts (up 1) ∷ begins least ∷ wakes down ∷ []) in
    (w.open_pools ≡ with_made w.pg.dbpool []) × ((step w stops).open_pools ≡ [])
unfolding new_postgresql
run-open_pools_example =
    Pools.run-open_pools config [] (starts (up 1) ∷ begins least ∷ wakes down ∷ []) (refl, tt)

abbrev channels : Channels
channels = record { notifications = 1 ∷ []; errors = [] }

-- one restart that failed, and was stopped while it slept
abbrev once : PostgreSql
once = (restart_end (stop (restart_begin least (new_postgresql config [])).0) down).0

once_failed : (restart_end (stop (restart_begin least (new_postgresql config [])).0) down).1 ≢ ok
unfolding restart_end restart_begin stop new_postgresql
once_failed e = cc

once-Failing : Failing 1 false once
unfolding new_postgresql
once-Failing =
    fails down once_failed
      (Delays.stops (Delays.begins least (rested (new_postgresql config []) refl refl)))

restart_begin-delay_example :
    let wanted = min (restart_base_delay * 2 ^ 1) restart_max_delay in
    (delay : ℕ) × ((restart_begin least once).1 ≡ some delay)
    × (4 * wanted ≤ 5 * delay)
    × (5 * delay ≤ 6 * wanted)
restart_begin-delay_example = Delays.restart_begin-delay 1 once least once-Failing (λ k lt. lt)
