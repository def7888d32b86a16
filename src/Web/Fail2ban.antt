-- ===== src/Web/Fail2ban.antt =====
-- web/gin/middleware/fail2ban: suspected.go, suspended.go and fail2ban.go. A method holds its lock,
-- so it is one step; the arguments behind the address are what it reads from the clock.
pub mod Suspension
pub mod Counting
pub mod Bans
use arcella_lib.Prelude.{
  ℕ, suc, ◌+◌, ◌-◌, ◌*◌, String, Bool, true, false, ◌&&◌, Option, none, some, [], length, ltb, ◌==◌,
  if◌then◌else◌,
}
use arcella_lib.Prelude.Int.{ℤ, pos, negsuc, ltb_int, add_duration}
use arcella_lib.Prelude.Dict
use arcella_lib.Prelude.Dict.{Dict, string_eq}

abbrev pub suspected_evict_threshold : ℕ
suspected_evict_threshold = 1024

-- nanoseconds
abbrev pub evict_sweep_interval : ℕ
evict_sweep_interval = 30 * 1000000000

-- `len(items) > threshold && time.Since(lastSweep) > interval`, with the clock at `later`
abbrev pub sweep_due {ℓ} : {V : Type ℓ} → Dict String V → ℕ → ℕ → Bool
sweep_due items last_sweep later =
    ltb suspected_evict_threshold (length items) && ltb evict_sweep_interval (later - last_sweep)

-- suspected.go
pub record SuspectedItem : Type 0 where
  pub count : ℕ
  pub watch_time : ℕ

pub record Suspected : Type 0 where
  pub items : Dict String SuspectedItem
  pub last_sweep : ℕ
  pub watch_period : ℤ

pub new_suspected : ℤ → Suspected
new_suspected period = record { items = []; last_sweep = 0; watch_period = period }

-- `SuspectedItem.TooLate` and the same test in `Incr`
abbrev pub too_late : ℕ → SuspectedItem → Bool
too_late now item = ltb item.watch_time now

unfoldable pub evict_suspected : Suspected → ℕ → ℕ → Suspected
evict_suspected s now later =
    if sweep_due s.items s.last_sweep later
    then record s { items = Dict.sweep (too_late now) s.items; last_sweep = now }
    else s

-- `Incr` behind the sweep
unfoldable pub count_one : Suspected → String → ℕ → Suspected × ℕ
count_one s ip now = elim (Dict.lookup ip s.items) [
  | none ↦ (
    record s {
      items =
          Dict.insert ip (record { count = 1; watch_time = add_duration now s.watch_period })
            s.items;
    },
    1,
  )
  | some item ↦ if too_late now item then (record s { items = Dict.remove ip s.items }, 0) else (
    record s { items = Dict.insert ip (record item { count = item.count + 1 }) s.items },
    item.count + 1,
  )
]

unfoldable pub incr : Suspected → String → ℕ → ℕ → Suspected × ℕ
unfolding evict_suspected count_one
incr s ip now later = count_one (evict_suspected s now later) ip now

unfoldable pub del : Suspected → String → Suspected
del s ip = record s { items = Dict.remove ip s.items }

-- suspended.go
pub record Suspended : Type 0 where
  pub items : Dict String ℕ
  pub ban_period : ℤ
  pub last_sweep : ℕ

pub new_suspended : ℤ → Suspended
new_suspended period = record { items = []; ban_period = period; last_sweep = 0 }

unfoldable pub add : Suspended → String → ℕ → Suspended
add s ip now = record s { items = Dict.insert ip (add_duration now s.ban_period) s.items }

abbrev pub past : ℕ → ℕ → Bool
past now t = ltb t now

unfoldable pub evict_suspended : Suspended → ℕ → ℕ → Suspended
evict_suspended s now later =
    if sweep_due s.items s.last_sweep later
    then record s { items = Dict.sweep (past now) s.items; last_sweep = now }
    else s

-- `Is` behind the sweep
unfoldable pub look_up : Suspended → String → ℕ → Suspended × Bool
look_up s ip now = elim (Dict.lookup ip s.items) [
  | none ↦ (s, false)
  | some t ↦ if past now t then (record s { items = Dict.remove ip s.items }, false) else (s, true)
]

unfoldable pub is_suspended : Suspended → String → ℕ → ℕ → Suspended × Bool
unfolding evict_suspended look_up
is_suspended s ip now later = look_up (evict_suspended s now later) ip now

-- fail2ban.go
pub record Fail2ban : Type 0 where
  pub suspected : Suspected
  pub suspended : Suspended
  pub watch_period : ℤ
  pub watch_cnt : ℤ
  pub log_banned_path : Bool

pub record ConfigFail2ban : Type 0 where
  pub disabled : Bool
  pub log_banned_path : Bool
  pub watch_period : ℤ
  pub watch_count : ℤ
  pub ban_period : ℤ

-- `n - 1`
abbrev pub minus_one : ℤ → ℤ
minus_one (pos ℕ.zero) = negsuc 0
minus_one (pos (suc n)) = pos n
minus_one (negsuc n) = negsuc (suc n)

unfoldable pub new_fail2ban : ConfigFail2ban → Fail2ban
unfolding new_suspected new_suspended
new_fail2ban config = record {
  suspected = new_suspected config.watch_period;
  suspended = new_suspended config.ban_period;
  watch_period = config.watch_period;
  watch_cnt = minus_one config.watch_count;
  log_banned_path = config.log_banned_path;
}

-- What one request reads from the clock: `Is`, `Incr` (each with its sweep's test), and `Add`.
pub record Times : Type 0 where
  pub is_now : ℕ
  pub is_since : ℕ
  pub incr_now : ℕ
  pub incr_since : ℕ
  pub add_now : ℕ

unfoldable pub process_status_not_found : Fail2ban → String → Times → Fail2ban
process_status_not_found fb ip t =
    let (suspected, count) = incr fb.suspected ip t.incr_now t.incr_since in
    if ltb_int fb.watch_cnt (pos count)
    then record fb { suspected = del suspected ip; suspended = add fb.suspended ip t.add_now }
    else record fb { suspected = suspected }

-- `c.AbortWithStatus(404)`, or what the rest of the chain answered
pub data Response : Type 0 where
  aborted : ℕ → Response
  answered : ℕ → Response

-- the handler of `GetFail2Ban`; `next` is the status that `c.Next()` leaves
unfoldable pub handle : Fail2ban → String → Times → ℕ → Fail2ban × Response
handle fb ip t next =
    let (suspended, banned) = is_suspended fb.suspended ip t.is_now t.is_since in
    let fb' = record fb { suspended = suspended } in
    if banned
    then (fb', aborted 404)
    else if next == 404
    then (process_status_not_found fb' ip t, answered next)
    else (fb', answered next)
