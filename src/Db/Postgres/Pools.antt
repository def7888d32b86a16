-- ===== src/Db/Postgres/Pools.antt =====
-- db/postgres/postgreSql.go: which pools stay open.
use mathlib.Core.Path.{ap₂}
use arcella_lib.Prelude.Text.{text_eq}
use arcella_lib.Db.Postgres.{
  PostgreSql, ConfigPostgreSql, PoolConfig, Answers, Result, new_postgresql, start, stop, do_start,
  do_stop, get_db, handle_of, pooled, listening, pinged, parsed, is_notify_name, configured,
}
use arcella_lib.Db.Handles.{with_made, without, closed, closed_held, without_first}
use arcella_lib.Db.Postgres.Backoff.{restart_begin, restart_end}
use arcella_lib.Db.Postgres.{in_progress}
use arcella_lib.Db.Postgres.Lifecycle.{
  IsValid, flag, do_start-Starts, step-IsValid, World, Event, starts, stops, begins, wakes, asks,
  made_of, made, begun, woken, step, run, fresh, ended_lem,
}
use arcella_lib.Prelude.{
  ◌∙◌, ◌≢◌, if◌then◌else◌, arith, ap, sym, suc, zero, ◌∷◌, ◌≡◌, if_intro, [], List, some, none,
  Option, not, false, true, Bool, refl, ℕ,
}

-- The pool behind a start: the one that is made, or the old one if the settings are bad.
abbrev kept : Option ℕ → Answers → ConfigPostgreSql → Option PoolConfig → Option ℕ
kept old a c none = old
kept old a c (some cfg) = a.pool (configured c cfg)

pinged-dbpool : (s : PostgreSql) (b : Bool) → (pinged s b).0.dbpool ≡ s.dbpool
pinged-dbpool s true = refl
pinged-dbpool s false = refl

listening-dbpool :
    (s : PostgreSql) (a : Answers) (o : Option ℕ) → (listening s a o).0.dbpool ≡ s.dbpool
unfolding listening
listening-dbpool s a none = refl
listening-dbpool s a (some conn) =
    if_intro (λ (r : PostgreSql × Result). r.0.dbpool ≡ s.dbpool) a.listen
      (λ _. pinged-dbpool (record s { conn = some conn }) a.ping) (λ _. refl)

pooled-dbpool : (s : PostgreSql) (a : Answers) (o : Option ℕ) → (pooled s a o).0.dbpool ≡ o
unfolding pooled
pooled-dbpool s a none = refl
pooled-dbpool s a (some p) =
    let P = λ (r : PostgreSql × Result). r.0.dbpool ≡ some p in
    let t = record s { dbpool = some p; stdlib_db = some p } in
    if_intro P (not (text_eq s.notify_name []))
      (λ _.
        if_intro P (is_notify_name s.notify_name) (λ _. listening-dbpool t a a.acquire) (λ _. refl))
      (λ _. if_intro P s.config.with_init_ping (λ _. pinged-dbpool t a.ping) (λ _. refl))

do_start-dbpool :
    (s : PostgreSql) (a : Answers) → (do_start s a).0.dbpool ≡ kept s.dbpool a s.config a.parse
unfolding do_start
do_start-dbpool s a = from_parse s a a.parse
  where
    from_parse :
        (s : PostgreSql) (a : Answers) (o : Option PoolConfig)
        → (parsed (record s { has_cancel = true }) a o).0.dbpool ≡ kept s.dbpool a s.config o
    from_parse s a none = refl
    from_parse s a (some cfg) =
        pooled-dbpool (record s { has_cancel = true }) a (a.pool (configured s.config cfg))

kept-none :
    (a : Answers) (c : ConfigPostgreSql) (o : Option PoolConfig) → kept none a c o ≡ made_of a c o
kept-none a c none = refl
kept-none a c (some cfg) = refl

-- Start is called only where no pool is held.
abbrev pub Orderly : World → List Event → Type 0
Orderly w [] = Unit {0}
Orderly w (starts a ∷ es) = (w.pg.dbpool ≡ none) × Orderly (step w (starts a)) es
Orderly w (e ∷ es) = Orderly (step w e) es

-- The pool that is held is the only one open, and none is while a restart sleeps.
pub record Tidy (w : World) : Type 0 where
  pub held_only : w.open_pools ≡ with_made w.pg.dbpool []
  pub asleep : w.pg.restarting ≡ true → w.pg.dbpool ≡ none

-- what a start makes where no pool is held
do_start-Tidy :
    (w : World) (a : Answers)
    → w.pg.dbpool ≡ none
    → Tidy w
    → with_made (made w.pg a) w.open_pools ≡ with_made (do_start w.pg a).0.dbpool []
do_start-Tidy w a e v =
    let empty : w.open_pools ≡ [] = v.held_only ∙ ap (λ (o : Option ℕ). with_made o []) e in
    let new : (do_start w.pg a).0.dbpool ≡ made w.pg a =
      do_start-dbpool w.pg a
      ∙ ap (λ (o : Option ℕ). kept o a w.pg.config a.parse) e
      ∙ kept-none a w.pg.config a.parse in
    ap (with_made (made w.pg a)) empty ∙ ap (λ (o : Option ℕ). with_made o []) (sym new)

starting-Tidy :
    (w : World) (a : Answers) (b : Bool)
    → w.pg.restarting ≡ b
    → w.pg.dbpool ≡ none
    → Tidy w
    → Tidy (record w {
      pg = (if b then (w.pg, in_progress) else do_start w.pg a).0;
      open_pools = if b then w.open_pools else with_made (made w.pg a) w.open_pools;
    })
starting-Tidy w a true e none_held v = record { held_only = v.held_only; asleep = v.asleep }
starting-Tidy w a false e none_held v = record {
  held_only = do_start-Tidy w a none_held v;
  asleep = λ busy. absurd (ground (arith, (do_start-Starts w.pg a).0));
}

flag_one : (b : Bool) (n : ℕ) → suc n ≡ flag b → b ≡ true
flag_one true n e = refl
flag_one false n e = absurd (omega arith)

woken-Tidy :
    (w : World) (a : Answers) (n : ℕ) → w.pending ≡ n → IsValid w → Tidy w → Tidy (woken w a n)
unfolding restart_end
woken-Tidy w a zero e v t = t
woken-Tidy w a (suc n) e v t =
    let busy : w.pg.restarting ≡ true = flag_one w.pg.restarting n (sym e ∙ v.alone) in
    let (woke, pool, _) = ended_lem (do_start w.pg a) in
    record {
      held_only =
          do_start-Tidy w a (t.asleep busy) t ∙ ap (λ (o : Option ℕ). with_made o []) (sym pool);
      asleep = λ again. absurd (ground (arith, woke));
    }

handle_of-dbpool :
    (s : PostgreSql) (pool handle : Option ℕ)
    → ((handle_of s pool handle).0.dbpool ≡ s.dbpool)
      × ((handle_of s pool handle).0.restarting ≡ s.restarting)
handle_of-dbpool s none handle = (refl, refl)
handle_of-dbpool s (some p) none = (refl, refl)
handle_of-dbpool s (some p) (some q) = (refl, refl)

-- what a start needs
abbrev Allowed : World → Event → Type 0
Allowed w (starts a) = w.pg.dbpool ≡ none
Allowed w _ = Unit {0}

step-Tidy : (w : World) (e : Event) → Allowed w e → IsValid w → Tidy w → Tidy (step w e)
unfolding step start stop do_stop get_db restart_begin
step-Tidy w (starts a) h v t = starting-Tidy w a w.pg.restarting refl h t
step-Tidy w stops h v t = record {
  held_only = ap (closed w.pg.dbpool) t.held_only ∙ closed_held w.pg.dbpool;
  asleep = λ _. refl;
}
step-Tidy w (begins draw) h v t =
    if_intro (λ (r : PostgreSql × Option ℕ). Tidy (begun w r)) w.pg.restarting (λ busy. t)
      (λ idle. record {
        held_only = ap (closed w.pg.dbpool) t.held_only ∙ closed_held w.pg.dbpool;
        asleep = λ _. refl;
      })
step-Tidy w (wakes a) h v t = woken-Tidy w a w.pending refl v t
step-Tidy w asks h v t =
    let (pool, flagged) = handle_of-dbpool w.pg w.pg.dbpool w.pg.stdlib_db in
    record {
      held_only = t.held_only ∙ ap (λ (o : Option ℕ). with_made o []) (sym pool);
      asleep = λ busy. pool ∙ t.asleep (sym flagged ∙ busy);
    }

run-Tidy : (w : World) (es : List Event) → Orderly w es → IsValid w → Tidy w → Tidy (run w es)
unfolding run
run-Tidy w [] h v t = t
run-Tidy w (starts a ∷ es) (none_held, h) v t =
    run-Tidy (step w (starts a)) es h (step-IsValid w (starts a) v)
      (step-Tidy w (starts a) none_held v t)
run-Tidy w (stops ∷ es) h v t =
    run-Tidy (step w stops) es h (step-IsValid w stops v) (step-Tidy w stops tt v t)
run-Tidy w (begins draw ∷ es) h v t =
    run-Tidy (step w (begins draw)) es h (step-IsValid w (begins draw) v)
      (step-Tidy w (begins draw) tt v t)
run-Tidy w (wakes a ∷ es) h v t =
    run-Tidy (step w (wakes a)) es h (step-IsValid w (wakes a) v) (step-Tidy w (wakes a) tt v t)
run-Tidy w (asks ∷ es) h v t =
    run-Tidy (step w asks) es h (step-IsValid w asks v) (step-Tidy w asks tt v t)

-- If Start is called only where no pool is held, then whatever else is called and in whatever order,
-- restarts with failing starts among it, the pool that the client holds is the only one open; so after
-- a Stop none is.
pub run-open_pools :
    (config : ConfigPostgreSql) (notify_name : List ℕ) (es : List Event)
    → Orderly (fresh config notify_name) es
    → let w = run (fresh config notify_name) es in
      (w.open_pools ≡ with_made w.pg.dbpool []) × ((step w stops).open_pools ≡ [])
unfolding step new_postgresql
run-open_pools config notify_name es h =
    let w = run (fresh config notify_name) es in
    let t =
      run-Tidy (fresh config notify_name) es h (record { alone = refl; handle = tt })
        (record { held_only = refl; asleep = λ _. refl }) in
    (t.held_only, ap (closed w.pg.dbpool) t.held_only ∙ closed_held w.pg.dbpool)

made_good :
    (a : Answers) (c : ConfigPostgreSql) (o : Option PoolConfig) (q : ℕ)
    → made_of a c o ≡ some q
    → (old : Option ℕ) → kept old a c o ≡ some q
made_good a c none q e old = absurd (ground arith)
made_good a c (some cfg) q e old = e

-- A Stop that comes while a restart sleeps does not end the restart: when the restart wakes, and a
-- pool is made, the client holds it although it was stopped.
pub stop_reopens :
    (w : World) (a : Answers) (n q : ℕ)
    → w.pending ≡ suc n
    → made w.pg a ≡ some q
    → (run w (stops ∷ wakes a ∷ [])).pg.dbpool ≡ some q
unfolding run step stop do_stop restart_end
stop_reopens w a n q e good =
    let s = do_stop w.pg in
    rw e (
      (ended_lem (do_start s a)).1
      ∙ do_start-dbpool s a
      ∙ made_good a w.pg.config a.parse q good none)

start-dbpool :
    (s : PostgreSql) (a : Answers)
    → s.restarting ≡ false
    → (start s a).0.dbpool ≡ (do_start s a).0.dbpool
unfolding start
start-dbpool s a idle =
    ap (λ (b : Bool). (if b then (s, in_progress) else do_start s a).0.dbpool) idle

-- A second Start forgets the pool that is held: if it makes another one, the first stays open after
-- Stop, and the client holds none that it could close.
pub start_leaks :
    (w : World) (a : Answers) (p q : ℕ)
    → w.pg.restarting ≡ false
    → w.open_pools ≡ p ∷ []
    → p ≢ q
    → made w.pg a ≡ some q
    → let v = run w (starts a ∷ stops ∷ []) in (v.pg.dbpool ≡ none) × (v.open_pools ≡ p ∷ [])
unfolding run step stop do_stop without
start_leaks w a p q idle held ne good =
    let now : (start w.pg a).0.dbpool ≡ some q =
      start-dbpool w.pg a idle
      ∙ do_start-dbpool w.pg a
      ∙ made_good a w.pg.config a.parse q good w.pg.dbpool in
    let both : (if w.pg.restarting then w.open_pools else with_made (made w.pg a) w.open_pools)
        ≡ q ∷ p ∷ [] =
      ap (λ (b : Bool). if b then w.open_pools else with_made (made w.pg a) w.open_pools) idle
      ∙ ap₂ with_made good held in
    (refl, ap₂ closed now both ∙ without_first p q ne)
