-- ===== src/Web/Tests.antt =====
-- The middleware on small inputs.
use arcella_lib.Prelude.Int.{pos}
use arcella_lib.Prelude.Dict
use arcella_lib.Prelude.Dict.{string_eq, spare}
use arcella_lib.Web.Fail2ban
use arcella_lib.Web.Fail2ban.{
  Fail2ban, ConfigFail2ban, Times, Suspected, Suspended, SuspectedItem, new_fail2ban, handle,
  process_status_not_found, incr, is_suspended, add, new_suspended, new_suspected,
}
use arcella_lib.Web.Fail2ban.Suspension.{banned_at}
use arcella_lib.Web.Fail2ban.Bans
use arcella_lib.Web.Fail2ban.Bans.{not_found}
use arcella_lib.Web.RateLimiter.{Limits, Ticks}
use arcella_lib.Prelude.{[], suc, ℕ, refl, zero, ◌≢◌, ◌⊎◌, some, true, Bool, arith, false, ◌∷◌, ◌≡◌}

abbrev config : ConfigFail2ban
config = record {
  disabled = false;
  log_banned_path = false;
  watch_period = pos 60;
  watch_count = pos 3;
  ban_period = pos 900;
}

-- all clocks at `n`
abbrev at : ℕ → Times
at n = record { is_now = n; is_since = n; incr_now = n; incr_since = n; add_now = n }

abbrev fb : Fail2ban
fb = record {
  suspected = record { items = []; last_sweep = 0; watch_period = pos 60 };
  suspended = record { items = []; ban_period = pos 900; last_sweep = 0 };
  watch_period = pos 60;
  watch_cnt = pos 2;
  log_banned_path = false;
}

fb_lem : new_fail2ban config ≡ fb
unfolding new_fail2ban
fb_lem = refl

abbrev banned_fb : Fail2ban
banned_fb = record fb { suspended = record fb.suspended { items = ("9.9.9.9", 925) ∷ [] } }

third_bans :
    (process_status_not_found
      (not_found fb "9.9.9.9" (at 10 ∷ at 20 ∷ []))
      "9.9.9.9"
      (at 25)).suspended.items
    ≡ ("9.9.9.9", 925) ∷ []
unfolding not_found process_status_not_found incr add Dict.lookup Dict.insert
third_bans = refl

abbrev watched : Suspected
watched = record fb.suspected { items = ("1.1.1.1", record { count = 2; watch_time = 70 }) ∷ [] }

not_found_bans_example :
    ((not_found fb "9.9.9.9" (at 10 ∷ at 20 ∷ [])).suspended ≡ fb.suspended)
    × (Dict.lookup "9.9.9.9"
          (process_status_not_found
            (not_found fb "9.9.9.9" (at 10 ∷ at 20 ∷ []))
            "9.9.9.9"
            (at 25)).suspended.items
        ≡ some 925)
unfolding Dict.lookup
not_found_bans_example =
    Bans.not_found_bans fb "9.9.9.9" (at 10) (at 20 ∷ []) (at 25) refl refl (omega arith)
      (omega arith)

handle_response_example :
    ((handle banned_fb "9.9.9.9" (at 900) 200).1 ≡ Fail2ban.aborted 404)
    × ((banned_at 900 (Dict.lookup "9.9.9.9" banned_fb.suspended.items) ≡ true)
          ⊎ (◌≢◌ {A = ℕ} 200 404)
        → (handle banned_fb "9.9.9.9" (at 900) 200).0.suspected ≡ banned_fb.suspected)
unfolding Dict.lookup
handle_response_example = Bans.handle_response banned_fb "9.9.9.9" (at 900) 200

-- A limiter with `n` requests left.
abbrev spend : ℕ → ℕ → ℕ × Bool
spend zero now = (0, false)
spend (suc n) now = (n, true)

abbrev limits : Limits ℕ
limits = record {
  limits = ("1.1.1.1", record { limiter = 1; last_seen = 40 }) ∷ [];
  last_sweep = 0;
}

abbrev ticks : Ticks
ticks = record { seen = 50; since = 50; sweep_now = 51; allow_now = 52 }
