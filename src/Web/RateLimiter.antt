-- ===== src/Web/RateLimiter.antt =====
-- web/gin/middleware/rateLimiter/rateLimiter.go. The limiter of golang.org/x/time/rate is a
-- parameter: `fresh` is what `rate.NewLimiter` makes of the configuration, `allow` is `Allow`, with
-- the clock that it reads.
use arcella_lib.Prelude.{
  ◌∙◌, ℕ, ◌+◌, ◌-◌, ◌*◌, ◌≤◌, String, ◌≡◌, ◌≢◌, Bool, ◌&&◌, Option, none, some, length, arith, ltb,
  if◌then◌else◌,
}
use arcella_lib.Prelude.Dict
use arcella_lib.Prelude.Dict.{
  lookup-insert_ne, Dict, string_eq, spare, lookup-insert, lookup-sweep, beq_self,
}

-- durations in nanoseconds
abbrev pub limiter_evict_threshold : ℕ
limiter_evict_threshold = 1024

abbrev pub limiter_evict_interval : ℕ
limiter_evict_interval = 30 * 1000000000

abbrev pub limiter_idle_timeout : ℕ
limiter_idle_timeout = 5 * 60 * 1000000000

pub record IpLimiter (L : Type 0) : Type 0 where
  pub limiter : L
  pub last_seen : ℕ

-- the variables that the handler closes over
pub record Limits (L : Type 0) : Type 0 where
  pub limits : Dict String (IpLimiter L)
  pub last_sweep : ℕ

-- What one request reads from the clock: `lastSeen`, the sweep's test, the sweep, and `Allow`.
pub record Ticks : Type 0 where
  pub seen : ℕ
  pub since : ℕ
  pub sweep_now : ℕ
  pub allow_now : ℕ

pub data Outcome : Type 0 where
  next : Outcome
  too_many_requests : Outcome

module _ {L : Type 0} (fresh : L) (allow : L → ℕ → L × Bool) where
  -- the entry that the request works on, with its `lastSeen` set
  unfoldable pub entry_of : Option (IpLimiter L) → ℕ → IpLimiter L
  entry_of none now = record { limiter = fresh; last_seen = now }
  entry_of (some lim) now = record lim { last_seen = now }

  abbrev pub idle : ℕ → IpLimiter L → Bool
  idle now entry = ltb limiter_idle_timeout (now - entry.last_seen)

  -- the sweep under the lock
  unfoldable pub evict : Limits L → Ticks → Limits L
  evict s t =
      if ltb limiter_evict_threshold (length s.limits)
        && ltb limiter_evict_interval (t.since - s.last_sweep)
      then record { limits = Dict.sweep (idle t.sweep_now) s.limits; last_sweep = t.sweep_now }
      else s

  -- The map holds a pointer, so `Allow` changes the entry where the map still has it.
  unfoldable pub update : String → IpLimiter L → Limits L → Limits L
  update ip lim s = elim (Dict.lookup ip s.limits) [
    | none ↦ s
    | some _ ↦ record s { limits = Dict.insert ip lim s.limits }
  ]

  unfoldable pub handle : Limits L → String → Ticks → Limits L × Outcome
  unfolding entry_of evict update
  handle s ip t =
      let lim = entry_of (Dict.lookup ip s.limits) t.seen in
      let s' = evict (record s { limits = Dict.insert ip lim s.limits }) t in
      let (limiter, allowed) = allow lim.limiter t.allow_now in
      (update ip (record lim { limiter = limiter }) s', if allowed then next else too_many_requests)

  abbrev pub limiter_of : Option (IpLimiter L) → L
  limiter_of none = fresh
  limiter_of (some lim) = lim.limiter

  -- The chain runs exactly if the limiter of the client's address allows it, a fresh one for an
  -- address that has none; the client is then remembered with the limiter's new state, provided that
  -- the sweep does not come more than the idle timeout after the request was noted.
  pub handle_own :
      (s : Limits L) (ip : String) (t : Ticks)
      → t.sweep_now ≤ t.seen + limiter_idle_timeout
      → ((handle s ip t).1 ≡ (
          if (allow (limiter_of (Dict.lookup ip s.limits)) t.allow_now).1
          then next
          else too_many_requests))
        × (Dict.lookup ip (handle s ip t).0.limits
            ≡ some (record {
              limiter = (allow (limiter_of (Dict.lookup ip s.limits)) t.allow_now).0;
              last_seen = t.seen;
            }))
  unfolding handle
  handle_own s ip t le =
      let lim = entry_of (Dict.lookup ip s.limits) t.seen in
      let lim' : IpLimiter L = record lim { limiter = (allow lim.limiter t.allow_now).0 } in
      let noted = Dict.insert ip lim s.limits in
      ground (
        arith,
        lookup-insert {K = String} ip ip lim s.limits,
        lookup-sweep {K = String} (idle t.sweep_now) ip noted,
        lookup-insert {K = String} ip ip lim' noted,
        lookup-insert {K = String} ip ip lim' (Dict.sweep (idle t.sweep_now) noted),
        beq_self {K = String} ip,
      )

  evict_other :
      (s : Limits L) (j : String) (t : Ticks)
      → (entry : IpLimiter L) → Dict.lookup j s.limits ≡ some entry
      → t.sweep_now ≤ entry.last_seen + limiter_idle_timeout
      → Dict.lookup j (evict s t).limits ≡ some entry
  unfolding evict
  evict_other s j t entry e le =
      ground (arith, lookup-sweep {K = String} (idle t.sweep_now) j s.limits)

  update_other :
      (s : Limits L) (ip j : String) (lim : IpLimiter L)
      → ip ≢ j
      → Dict.lookup j (update ip lim s).limits ≡ Dict.lookup j s.limits
  unfolding update
  update_other s ip j lim ne =
      ground (arith, lookup-insert {K = String} ip j lim s.limits, string_eq.beq_iff ip j)

  -- A request of one address leaves the limiter of any other as it was, unless that address has been
  -- idle for longer than the timeout.
  pub handle_other :
      (s : Limits L) (ip j : String) (t : Ticks) {entry : IpLimiter L}
      → ip ≢ j
      → Dict.lookup j s.limits ≡ some entry
      → t.sweep_now ≤ entry.last_seen + limiter_idle_timeout
      → Dict.lookup j (handle s ip t).0.limits ≡ some entry
  unfolding handle
  handle_other s ip j t {entry} ne e le =
      let lim = entry_of (Dict.lookup ip s.limits) t.seen in
      let noted : Limits L = record s { limits = Dict.insert ip lim s.limits } in
      update_other (evict noted t) ip j (record lim { limiter = (allow lim.limiter t.allow_now).0 })
        ne
      ∙ evict_other noted j t entry (lookup-insert_ne ip j lim s.limits ne ∙ e) le
