-- ===== src/Db/Postgres/Delays.antt =====
-- db/postgres/postgreSql.go: the delays of restarts that fail in a row.
use arcella_lib.Prelude.Text.{text_eq}
use arcella_lib.Db.Postgres.{
  PostgreSql, PoolConfig, Answers, Result, ok, start, stop, do_start, do_stop, pooled, listening,
  pinged, parsed, is_notify_name, configured,
}
use arcella_lib.Db.Postgres.Backoff.{
  restart_base_delay, restart_max_delay, next_backoff, jitter_duration, restart_begin, restart_end,
  ended,
}
use arcella_lib.Prelude.{
  [], ◌∙◌, ◌≢◌, ◌≡◌, ◌<◌, ◌≤◌, ◌^◌, ◌/◌, ◌*◌, ◌+◌, if_intro, min, not, arith, some, none, Option,
  false, true, Bool, ap, refl, suc, zero, ℕ,
}

-- A client after `n` restarts in a row that failed; the Boolean says whether another has begun, and
-- sleeps. Start and Stop may be called at any moment, also during the sleep.
pub data Failing : ℕ → Bool → PostgreSql → Type 0 where
  rested : (s : PostgreSql) → s.restarting ≡ false → s.restart_backoff ≡ 0 → Failing 0 false s
  begins :
      {n : ℕ} {s : PostgreSql} (draw : ℕ → ℕ)
      → Failing n false s
      → Failing n true (restart_begin draw s).0
  fails :
      {n : ℕ} {s : PostgreSql} (a : Answers)
      → (restart_end s a).1 ≢ ok
      → Failing n true s
      → Failing (suc n) false (restart_end s a).0
  stops : {n : ℕ} {b : Bool} {s : PostgreSql} → Failing n b s → Failing n b (stop s)
  starts :
      {n : ℕ} {b : Bool} {s : PostgreSql} (a : Answers) → Failing n b s → Failing n b (start s a).0

-- what a start leaves alone
abbrev Same : PostgreSql → PostgreSql → Type 0
Same s t = (t.restarting ≡ s.restarting) × (t.restart_backoff ≡ s.restart_backoff)

pinged-Same : (s : PostgreSql) (b : Bool) → Same s (pinged s b).0
pinged-Same s true = (refl, refl)
pinged-Same s false = (refl, refl)

listening-Same : (s : PostgreSql) (a : Answers) (o : Option ℕ) → Same s (listening s a o).0
unfolding listening
listening-Same s a none = (refl, refl)
listening-Same s a (some conn) =
    if_intro (λ (r : PostgreSql × Result). Same s r.0) a.listen
      (λ _. pinged-Same (record s { conn = some conn }) a.ping) (λ _. (refl, refl))

pooled-Same : (s : PostgreSql) (a : Answers) (o : Option ℕ) → Same s (pooled s a o).0
unfolding pooled
pooled-Same s a none = (refl, refl)
pooled-Same s a (some p) =
    let P = λ (r : PostgreSql × Result). Same s r.0 in
    let t = record s { dbpool = some p; stdlib_db = some p } in
    if_intro P (not (text_eq s.notify_name []))
      (λ _.
        if_intro P (is_notify_name s.notify_name) (λ _. listening-Same t a a.acquire)
          (λ _. (refl, refl)))
      (λ _. if_intro P s.config.with_init_ping (λ _. pinged-Same t a.ping) (λ _. (refl, refl)))

do_start-Same : (s : PostgreSql) (a : Answers) → Same s (do_start s a).0
unfolding do_start
do_start-Same s a = from_parse (record s { has_cancel = true }) a a.parse
  where
    from_parse : (s : PostgreSql) (a : Answers) (o : Option PoolConfig) → Same s (parsed s a o).0
    from_parse s a none = (refl, refl)
    from_parse s a (some cfg) = pooled-Same s a (a.pool (configured s.config cfg))

start-Same : (s : PostgreSql) (a : Answers) → Same s (start s a).0
unfolding start
start-Same s a =
    if_intro (λ (r : PostgreSql × Result). Same s r.0) s.restarting (λ _. (refl, refl))
      (λ _. do_start-Same s a)

-- a restart that failed keeps the backoff
ended-kept :
    (r : PostgreSql × Result)
    → (ended r).1 ≢ ok
    → ((ended r).0.restarting ≡ false) × ((ended r).0.restart_backoff ≡ r.0.restart_backoff)
ended-kept (s, ok) ne = absurd (ne refl)
ended-kept (s, _) ne = (refl, refl)

-- the least of 5 s * 2^n and five minutes
abbrev pub wanted : ℕ → ℕ
wanted n = min (restart_base_delay * 2 ^ n) restart_max_delay

-- the backoff after `n` failures
abbrev held : ℕ → ℕ
held zero = 0
held (suc n) = wanted n

pow_pos : (n : ℕ) → 0 < 2 ^ n
pow_pos zero = omega arith
pow_pos (suc n) = omega (arith, pow_pos n)

next_backoff-held : (n : ℕ) → next_backoff (held n) ≡ wanted n
unfolding next_backoff
next_backoff-held zero = refl
next_backoff-held (suc n) =
    let positive = pow_pos n in let double : 2 ^ suc n ≡ 2 ^ n * 2 = omega arith in ground arith

-- the backoff of a client, asleep or not
abbrev backed : ℕ → Bool → ℕ
backed n true = wanted n
backed n false = held n

begin-lem :
    (draw : ℕ → ℕ) (n : ℕ) (s : PostgreSql)
    → s.restarting ≡ false
    → s.restart_backoff ≡ held n
    → ((restart_begin draw s).0.restarting ≡ true)
      × ((restart_begin draw s).0.restart_backoff ≡ wanted n)
      × ((restart_begin draw s).1 ≡ some (jitter_duration draw (wanted n)))
unfolding restart_begin do_stop
begin-lem draw n s idle e =
    let b : next_backoff s.restart_backoff ≡ wanted n = ap next_backoff e ∙ next_backoff-held n in
    rw idle (refl, b, ap (λ (d : ℕ). some (jitter_duration draw d)) b)

Failing-backed :
    {n : ℕ} {b : Bool} {s : PostgreSql}
    → Failing n b s
    → (s.restarting ≡ b) × (s.restart_backoff ≡ backed n b)
unfolding stop do_stop restart_end
Failing-backed (rested s idle zeroed) = (idle, zeroed)
Failing-backed (begins {n} {s} draw f) =
    let (idle, e) = Failing-backed f in
    let (busy, now, _) = begin-lem draw n s idle e in (busy, now)
Failing-backed (fails {n} {s} a ne f) =
    let (_, e) = Failing-backed f in
    let (woke, kept) = ended-kept (do_start s a) ne in (woke, kept ∙ (do_start-Same s a).1 ∙ e)
Failing-backed (stops f) = Failing-backed f
Failing-backed (starts {n} {b} {s} a f) =
    let (flag, e) = Failing-backed f in let (same, kept) = start-Same s a in (same ∙ flag, kept ∙ e)

-- After n restarts in a row that failed, with any calls of Start and Stop before, between and during
-- them, DoRestart sleeps for a delay within a fifth of the least of 5 s * 2^n and five minutes, whatever
-- number below its bound is drawn.
pub restart_begin-delay :
    (n : ℕ) (s : PostgreSql) (draw : ℕ → ℕ)
    → Failing n false s
    → ((k : ℕ) → 0 < k → draw k < k)
    → let least = min (restart_base_delay * 2 ^ n) restart_max_delay in
      (delay : ℕ) × ((restart_begin draw s).1 ≡ some delay)
      × (4 * least ≤ 5 * delay)
      × (5 * delay ≤ 6 * least)
unfolding jitter_duration
restart_begin-delay n s draw f below =
    let (idle, e) = Failing-backed f in
    let (_, _, d) = begin-lem draw n s idle e in
    let b = wanted n in
    let small : draw (2 * (b / 5) + 1) < 2 * (b / 5) + 1 = below (2 * (b / 5) + 1) (omega arith) in
    (jitter_duration draw b, d, ground arith, ground arith)
