-- ===== src/Db/Postgres/Backoff.antt =====
-- db/postgres/postgreSql.go: the two regions of DoRestart, and its delays.
use arcella_lib.Db.Postgres.{PostgreSql, Answers, Result, ok, do_start, do_stop}
use arcella_lib.Prelude.{
  ◌==◌, ◌/◌, ◌*◌, ◌-◌, ◌+◌, if◌then◌else◌, ltb, some, none, Option, false, true, ℕ,
}

abbrev pub restart_base_delay : ℕ
restart_base_delay = 5000000000

abbrev pub restart_max_delay : ℕ
restart_max_delay = 300000000000

unfoldable pub next_backoff : ℕ → ℕ
next_backoff backoff =
    if backoff == 0
    then restart_base_delay
    else if ltb restart_max_delay (backoff * 2)
    then restart_max_delay
    else backoff * 2

-- `jitterDuration`, where `draw n` is the number below `n` that `rand.Int63n` draws
unfoldable pub jitter_duration : (ℕ → ℕ) → ℕ → ℕ
jitter_duration draw d =
    let jitter = d / 5 in if jitter == 0 then d else d - jitter + draw (2 * jitter + 1)

-- `DoRestart` up to the sleep: the delay, or `none` where a restart is in progress
unfoldable pub restart_begin : (ℕ → ℕ) → PostgreSql → PostgreSql × Option ℕ
unfolding next_backoff jitter_duration do_stop
restart_begin draw s =
    let backoff = next_backoff s.restart_backoff in
    if s.restarting then (s, none) else (
      do_stop (record s { restarting = true; restart_backoff = backoff }),
      some (jitter_duration draw backoff),
    )

abbrev pub ended : PostgreSql × Result → PostgreSql × Result
ended (s, ok) = (record s { restart_backoff = 0; restarting = false }, ok)
ended (s, r) = (record s { restarting = false }, r)

-- `DoRestart` after the sleep
unfoldable pub restart_end : PostgreSql → Answers → PostgreSql × Result
unfolding do_start
restart_end s a = ended (do_start s a)
