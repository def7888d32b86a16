-- ===== src/Db/Postgres/Lifecycle.antt =====
-- db/postgres/postgreSql.go: Start, Stop, GetDB and the two regions of DoRestart in any order, with the
-- pools that are open.
use mathlib.Core.Path.{subst}
use arcella_lib.Prelude.Text.{text_eq}
use arcella_lib.Db.Postgres.{
  PostgreSql, ConfigPostgreSql, PoolConfig, Answers, Result, ok, no_pool, new_postgresql, start,
  stop, do_start, do_stop, get_db, handle_of, pooled, listening, pinged, parsed, is_notify_name,
  configured,
}
use arcella_lib.Db.Handles.{with_made, without, closed}
use arcella_lib.Db.Postgres.Backoff.{restart_begin, restart_end, ended}
use arcella_lib.Prelude.{
  ◌≤◌, if_intro, arith, not, ◌∙◌, ◌∷◌, ◌⊎◌, ◌≡◌, ◌+◌, if◌then◌else◌, inr, inl, [], List, some, none,
  Option, false, true, Bool, ap, sym, refl, suc, zero, ℕ,
}

-- `pending` counts the calls of DoRestart that sleep.
pub record World : Type 0 where
  pub pg : PostgreSql
  pub pending : ℕ
  pub open_pools : List ℕ

pub data Event : Type 0 where
  starts : Answers → Event
  stops : Event
  begins : (ℕ → ℕ) → Event
  wakes : Answers → Event
  asks : Event

-- the pool that a start opens
abbrev pub made_of : Answers → ConfigPostgreSql → Option PoolConfig → Option ℕ
made_of a c none = none
made_of a c (some cfg) = a.pool (configured c cfg)

abbrev pub made : PostgreSql → Answers → Option ℕ
made s a = made_of a s.config a.parse

abbrev pub begun : World → PostgreSql × Option ℕ → World
begun w (s, none) = w
begun w (s, some delay) = record {
  pg = s;
  pending = w.pending + 1;
  open_pools = closed w.pg.dbpool w.open_pools;
}

abbrev pub woken : World → Answers → ℕ → World
woken w a zero = w
woken w a (suc n) = record {
  pg = (restart_end w.pg a).0;
  pending = n;
  open_pools = with_made (made w.pg a) w.open_pools;
}

unfoldable pub step : World → Event → World
unfolding start stop get_db restart_begin restart_end without
step w (starts a) = record w {
  pg = (start w.pg a).0;
  open_pools = if w.pg.restarting then w.open_pools else with_made (made w.pg a) w.open_pools;
}
step w stops = record w { pg = stop w.pg; open_pools = closed w.pg.dbpool w.open_pools }
step w (begins draw) = begun w (restart_begin draw w.pg)
step w (wakes a) = woken w a w.pending
step w asks = record w { pg = (get_db w.pg).0 }

unfoldable pub run : World → List Event → World
unfolding step
run w [] = w
run w (e ∷ es) = run (step w e) es

abbrev pub fresh : ConfigPostgreSql → List ℕ → World
fresh config notify_name = record {
  pg = new_postgresql config notify_name;
  pending = 0;
  open_pools = [];
}

abbrev pub flag : Bool → ℕ
flag false = 0
flag true = 1

-- the handle is one over the pool that is held
abbrev pub Matches : Option ℕ → Option ℕ → Type 0
Matches none handle = Unit {0}
Matches (some p) handle = (handle ≡ none) ⊎ (handle ≡ some p)

pub record IsValid (w : World) : Type 0 where
  pub alone : w.pending ≡ flag w.pg.restarting
  pub handle : Matches w.pg.dbpool w.pg.stdlib_db

-- What a start leaves of the state: the flag stays, and the handle fits the pool.
abbrev pub Starts : PostgreSql → PostgreSql → Type 0
Starts s t =
    (t.restarting ≡ s.restarting) × (Matches s.dbpool s.stdlib_db → Matches t.dbpool t.stdlib_db)

pinged-Starts : (s : PostgreSql) (b : Bool) → Starts s (pinged s b).0
pinged-Starts s true = (refl, λ m. m)
pinged-Starts s false = (refl, λ m. m)

listening-Starts : (s : PostgreSql) (a : Answers) (o : Option ℕ) → Starts s (listening s a o).0
unfolding listening
listening-Starts s a none = (refl, λ m. m)
listening-Starts s a (some conn) =
    if_intro (λ (r : PostgreSql × Result). Starts s r.0) a.listen
      (λ _. pinged-Starts (record s { conn = some conn }) a.ping) (λ _. (refl, λ m. m))

-- behind a pool, the state that the rest of the start begins with
abbrev holding : PostgreSql → ℕ → PostgreSql
holding s p = record s { dbpool = some p; stdlib_db = some p }

from_holding : (s t : PostgreSql) (p : ℕ) → Starts (holding s p) t → Starts s t
from_holding s t p (same, m) = (same, λ _. m (inr refl))

pooled-Starts : (s : PostgreSql) (a : Answers) (o : Option ℕ) → Starts s (pooled s a o).0
unfolding pooled
pooled-Starts s a none = (refl, λ m. tt)
pooled-Starts s a (some p) =
    let P = λ (r : PostgreSql × Result). Starts s r.0 in
    if_intro P (not (text_eq s.notify_name []))
      (λ _.
        if_intro P (is_notify_name s.notify_name)
          (λ _.
            from_holding s (listening (holding s p) a a.acquire).0 p
              (listening-Starts (holding s p) a a.acquire))
          (λ _. from_holding s (holding s p) p (refl, λ m. m)))
      (λ _.
        if_intro P s.config.with_init_ping
          (λ _.
            from_holding s (pinged (holding s p) a.ping).0 p (pinged-Starts (holding s p) a.ping))
          (λ _. from_holding s (holding s p) p (refl, λ m. m)))

parsed-Starts : (s : PostgreSql) (a : Answers) (o : Option PoolConfig) → Starts s (parsed s a o).0
parsed-Starts s a none = (refl, λ m. m)
parsed-Starts s a (some cfg) = pooled-Starts s a (a.pool (configured s.config cfg))

pub do_start-Starts : (s : PostgreSql) (a : Answers) → Starts s (do_start s a).0
unfolding do_start
do_start-Starts s a = parsed-Starts (record s { has_cancel = true }) a a.parse

start-Starts : (s : PostgreSql) (a : Answers) → Starts s (start s a).0
unfolding start
start-Starts s a =
    if_intro (λ (r : PostgreSql × Result). Starts s r.0) s.restarting (λ _. (refl, λ m. m))
      (λ _. do_start-Starts s a)

pub ended_lem :
    (r : PostgreSql × Result)
    → ((ended r).0.restarting ≡ false)
      × ((ended r).0.dbpool ≡ r.0.dbpool)
      × ((ended r).0.stdlib_db ≡ r.0.stdlib_db)
ended_lem (s, ok) = (refl, refl, refl)
ended_lem (s, no_pool) = (refl, refl, refl)
ended_lem (s, _) = (refl, refl, refl)

Matches-ended :
    (r : PostgreSql × Result)
    → Matches r.0.dbpool r.0.stdlib_db
    → Matches (ended r).0.dbpool (ended r).0.stdlib_db
Matches-ended r m = let (_, pool, handle) = ended_lem r in rw (pool, handle) m

flag-le : (b : Bool) → flag b ≤ 1
flag-le true = omega arith
flag-le false = omega arith

woken-IsValid :
    (w : World) (a : Answers) (n : ℕ) → w.pending ≡ n → IsValid w → IsValid (woken w a n)
unfolding restart_end
woken-IsValid w a zero e v = v
woken-IsValid w a (suc n) e v =
    let busy : w.pending ≤ 1 = omega (arith, v.alone, flag-le w.pg.restarting) in
    record {
      alone =
          let none_left : n ≡ 0 = omega arith in
          none_left ∙ ap flag (sym (ended_lem (do_start w.pg a)).0);
      handle = Matches-ended (do_start w.pg a) ((do_start-Starts w.pg a).1 v.handle);
    }

handle_of-IsValid :
    (s : PostgreSql) (pool handle : Option ℕ)
    → s.dbpool ≡ pool
    → Matches pool handle
    → (Matches s.dbpool s.stdlib_db)
    → ((handle_of s pool handle).0.restarting ≡ s.restarting)
      × Matches (handle_of s pool handle).0.dbpool (handle_of s pool handle).0.stdlib_db
handle_of-IsValid s none handle e m v = (refl, v)
handle_of-IsValid s (some p) none e m v =
    (refl, subst (λ (o : Option ℕ). Matches o (some p)) (sym e) (inr refl))
handle_of-IsValid s (some p) (some q) e m v = (refl, v)

handed :
    (s : PostgreSql) (pool handle : Option ℕ)
    → Matches pool handle
    → (handle_of s pool handle).1 ≡ pool
handed s none handle m = refl
handed s (some p) none m = refl
handed s (some p) (some q) (inl absent) = absurd (ground arith)
handed s (some p) (some q) (inr same) = same

pub step-IsValid : (w : World) (e : Event) → IsValid w → IsValid (step w e)
unfolding step stop do_stop get_db restart_begin
step-IsValid w (starts a) v =
    let (same, m) = start-Starts w.pg a in
    record { alone = v.alone ∙ ap flag (sym same); handle = m v.handle }
step-IsValid w stops v = record { alone = v.alone; handle = tt }
step-IsValid w (begins draw) v =
    if_intro (λ (r : PostgreSql × Option ℕ). IsValid (begun w r)) w.pg.restarting (λ busy. v)
      (λ idle. record {
        alone = let waiting : w.pending ≡ 0 = v.alone ∙ ap flag idle in omega arith;
        handle = tt;
      })
step-IsValid w (wakes a) v = woken-IsValid w a w.pending refl v
step-IsValid w asks v =
    let (same, m) = handle_of-IsValid w.pg w.pg.dbpool w.pg.stdlib_db refl v.handle v.handle in
    record { alone = v.alone ∙ ap flag (sym same); handle = m }

run-IsValid : (w : World) (es : List Event) → IsValid w → IsValid (run w es)
unfolding run
run-IsValid w [] v = v
run-IsValid w (e ∷ es) v = run-IsValid (step w e) es (step-IsValid w e v)

-- Whatever is called on a new client, and in whatever order, at most one restart sleeps, and while one
-- does the flag is set; and GetDB never hands out a handle over another pool than the one that is held.
pub run-fresh :
    (config : ConfigPostgreSql) (notify_name : List ℕ) (es : List Event)
    → let w = run (fresh config notify_name) es in
      (w.pending ≡ flag w.pg.restarting) × ((get_db w.pg).1 ≡ w.pg.dbpool)
unfolding new_postgresql
run-fresh config notify_name es =
    let v = run-IsValid (fresh config notify_name) es (record { alone = refl; handle = tt }) in
    (v.alone, unfold get_db in handed (run (fresh config notify_name) es).pg _ _ v.handle)
