-- ===== src/Db/Mssql/Tests.antt =====
-- The client of SQL Server with a driver that answers in a fixed way.
use arcella_lib.Prelude.Int.{pos, negsuc}
use arcella_lib.Db.Handles.{after, with_made}
use arcella_lib.Db.Mssql.{
  ConfigMsDb, new_mssql, Ping, answered, fails, ping_with_retry, ping_from, start, is_transient,
}
use arcella_lib.Db.Mssql.Pings
use arcella_lib.Db.Mssql.Pings.{IsLast}
use arcella_lib.Db.Mssql.Lifecycle
use arcella_lib.Db.Mssql.Lifecycle.{starts, stops, run}
use arcella_lib.Prelude.{◌∷◌, ◌≡◌, [], some, refl, suc, zero, ℕ}

abbrev config : ConfigMsDb
config = record {
  dsn = [];
  max_open_conns = negsuc 0;
  max_idle_conns = pos 2;
  conn_max_lifetime = pos 3600;
  conn_max_idle_time = pos 1800;
}

-- two failovers, then an answer
abbrev recovers : ℕ → Ping
recovers zero = fails (some 40613)
recovers (suc zero) = fails (some 233)
recovers (suc (suc n)) = answered

abbrev down : ℕ → Ping
down n = fails (some 233)

abbrev refused : ℕ → Ping
refused n = fails (some 18456)

ping_with_retry_lem_example :
    (k : ℕ) × (ping_with_retry recovers ≡ some (suc k, recovers k)) × IsLast recovers 0 k
ping_with_retry_lem_example = Pings.ping_with_retry_lem recovers

third : ping_with_retry recovers ≡ some (3, answered)
unfolding ping_with_retry ping_from is_transient
third = refl

fourth : ping_with_retry down ≡ some (4, fails (some 233))
unfolding ping_with_retry ping_from is_transient
fourth = refl

once : ping_with_retry refused ≡ some (1, fails (some 18456))
unfolding ping_with_retry ping_from is_transient
once = refl

after-run_example :
    let r = run (new_mssql config) (
      starts (λ dsn. some 1) down
      ∷ starts (λ dsn. some 2) recovers
      ∷ starts (λ dsn. some 3) recovers
      ∷ []) in
    after r.1 [] ≡ with_made r.0.db []
after-run_example = Lifecycle.after-run config (
    starts (λ dsn. some 1) down
    ∷ starts (λ dsn. some 2) recovers
    ∷ starts (λ dsn. some 3) recovers
    ∷ [])

held_second :
    (run (new_mssql config) (
      starts (λ dsn. some 1) down
      ∷ starts (λ dsn. some 2) recovers
      ∷ starts (λ dsn. some 3) recovers
      ∷ [])).0.db
    ≡ some 2
unfolding run start ping_with_retry ping_from is_transient
held_second = refl
