-- ===== src/Web/Fail2ban/Bans.antt =====
-- web/gin/middleware/fail2ban/fail2ban.go: how many not-found answers ban an address, and what a
-- banned client sees.
use arcella_lib.Prelude.{
  if◌then◌else◌, true, length, none, ap, refl, suc, ◌∙◌, ◌≢◌, ◌⊎◌, ℕ, ◌+◌, ◌≤◌, String, ◌≡◌, some,
  List, [], ◌∷◌, arith,
}
use arcella_lib.Prelude.Int.{leb_int, pos, add_duration}
use arcella_lib.Prelude.Dict
use arcella_lib.Prelude.Dict.{string_eq, lookup-insert, lookup-remove, lookup-insert_self}
use arcella_lib.Web.Fail2ban.{
  new_suspected, new_fail2ban, ConfigFail2ban, Suspended, handle, aborted, answered, add, Fail2ban,
  Times, process_status_not_found,
}
use arcella_lib.Web.Fail2ban.Counting.{incr_new, incr_live}
use arcella_lib.Web.Fail2ban.Suspension.{banned_at, is_suspended-banned_at}

-- A run of not-found answers to one address.
unfoldable pub not_found : Fail2ban → String → List Times → Fail2ban
not_found fb ip [] = fb
not_found fb ip (t ∷ ts) = not_found (process_status_not_found fb ip t) ip ts

-- Every answer comes within the watch period that ends at `w`.
abbrev pub Within : ℕ → List Times → Type 0
Within w [] = Unit {0}
Within w (t ∷ ts) = (t.incr_now ≤ w) × Within w ts

-- One more answer within the period, below the limit.
counted :
    (fb : Fail2ban) (ip : String) (t : Times) (c w m : ℕ)
    → fb.watch_cnt ≡ pos m
    → Dict.lookup ip fb.suspected.items ≡ some (record { count = c; watch_time = w })
    → t.incr_now ≤ w
    → c + 1 ≤ m
    → (Dict.lookup ip (process_status_not_found fb ip t).suspected.items
        ≡ some (record { count = c + 1; watch_time = w }))
      × ((process_status_not_found fb ip t).suspended ≡ fb.suspended)
      × ((process_status_not_found fb ip t).watch_cnt ≡ pos m)
unfolding process_status_not_found
counted fb ip t c w m cnt e le lt =
    ground (arith, incr_live fb.suspected ip t.incr_now t.incr_since e le)

-- The answer that reaches the limit.
banned :
    (fb : Fail2ban) (ip : String) (t : Times) (c w m : ℕ)
    → fb.watch_cnt ≡ pos m
    → Dict.lookup ip fb.suspected.items ≡ some (record { count = c; watch_time = w })
    → t.incr_now ≤ w
    → c ≡ m
    → Dict.lookup ip (process_status_not_found fb ip t).suspended.items
      ≡ some (add_duration t.add_now fb.suspended.ban_period)
unfolding process_status_not_found add
banned fb ip t c w m cnt e le eq = ground (
  arith,
  incr_live fb.suspected ip t.incr_now t.incr_since e le,
  lookup-insert_self {K = String} ip (add_duration t.add_now fb.suspended.ban_period)
      fb.suspended.items,
)

counted_all :
    (fb : Fail2ban) (ip : String) (ts : List Times) (c w m : ℕ)
    → fb.watch_cnt ≡ pos m
    → Dict.lookup ip fb.suspected.items ≡ some (record { count = c; watch_time = w })
    → Within w ts
    → c + length ts ≡ m
    → (Dict.lookup ip (not_found fb ip ts).suspected.items
        ≡ some (record { count = m; watch_time = w }))
      × ((not_found fb ip ts).suspended ≡ fb.suspended)
      × ((not_found fb ip ts).watch_cnt ≡ pos m)
unfolding not_found
counted_all fb ip [] c w m cnt e within sum = ground arith
counted_all fb ip (t ∷ ts) c w m cnt e within sum =
    let (e', same, cnt') = counted fb ip t c w m cnt e within.0 (omega arith) in
    let (last, same', cnt'') =
      counted_all (process_status_not_found fb ip t) ip ts (c + 1) w m cnt' e' within.1
        (omega arith) in
    (last, same' ∙ same, cnt'')

first_counted :
    (fb : Fail2ban) (ip : String) (t : Times) (m : ℕ)
    → fb.watch_cnt ≡ pos (suc m)
    → Dict.lookup ip fb.suspected.items ≡ none
    → (Dict.lookup ip (process_status_not_found fb ip t).suspected.items
        ≡ some
            (record { count = 1; watch_time = add_duration t.incr_now fb.suspected.watch_period }))
      × ((process_status_not_found fb ip t).suspended ≡ fb.suspended)
      × ((process_status_not_found fb ip t).watch_cnt ≡ pos (suc m))
unfolding process_status_not_found
first_counted fb ip t m cnt e = ground (arith, incr_new fb.suspected ip t.incr_now t.incr_since e)

-- With a `WatchCount` of n + 2 and no record of an address, n + 1 not-found answers to it within the
-- watch period that the first of them opens suspend nobody, and one more within that period suspends
-- the address, for the ban period from then on.
pub not_found_bans :
    (fb : Fail2ban) (ip : String) (first : Times) (ts : List Times) (last : Times)
    → fb.watch_cnt ≡ pos (suc (length ts))
    → Dict.lookup ip fb.suspected.items ≡ none
    → Within (add_duration first.incr_now fb.suspected.watch_period) ts
    → last.incr_now ≤ add_duration first.incr_now fb.suspected.watch_period
    → ((not_found fb ip (first ∷ ts)).suspended ≡ fb.suspended)
      × (Dict.lookup ip
            (process_status_not_found (not_found fb ip (first ∷ ts)) ip last).suspended.items
          ≡ some (add_duration last.add_now fb.suspended.ban_period))
unfolding not_found
not_found_bans fb ip first ts last cnt e within le =
    let w = add_duration first.incr_now fb.suspected.watch_period in
    let one = process_status_not_found fb ip first in
    let (e', same, cnt') = first_counted fb ip first (length ts) cnt e in
    let (e'', same', cnt'') =
      counted_all one ip ts 1 w (suc (length ts)) cnt' e' within (omega arith) in
    (
      same' ∙ same,
      banned (not_found one ip ts) ip last _ w _ cnt'' e'' le refl
          ∙ ap (λ (s : Suspended). some (add_duration last.add_now s.ban_period)) (same' ∙ same),
    )

-- A `WatchCount` of 1 or less bans at the first not-found answer.
pub not_found_bans_at_once :
    (config : ConfigFail2ban) (ip : String) (t : Times)
    → leb_int config.watch_count (pos 1) ≡ true
    → Dict.lookup ip (process_status_not_found (new_fail2ban config) ip t).suspended.items
      ≡ some (add_duration t.add_now config.ban_period)
unfolding process_status_not_found new_fail2ban new_suspected add Dict.lookup
not_found_bans_at_once config ip t le = ground (
  arith,
  incr_new (new_suspected config.watch_period) ip t.incr_now t.incr_since refl,
  lookup-insert_self {K = String} ip (add_duration t.add_now config.ban_period) [],
)

-- The handler refuses an address exactly while it is suspended, with the status 404 and without
-- running the rest of the chain; any other request gets the answer of the chain. Only a not-found
-- answer changes a count.
pub handle_response :
    (fb : Fail2ban) (ip : String) (t : Times) (next : ℕ)
    → ((handle fb ip t next).1 ≡ (
        if banned_at t.is_now (Dict.lookup ip fb.suspended.items)
        then aborted 404
        else answered next))
      × ((banned_at t.is_now (Dict.lookup ip fb.suspended.items) ≡ true) ⊎ (next ≢ 404)
          → (handle fb ip t next).0.suspected ≡ fb.suspected)
unfolding handle
handle_response fb ip t next =
    ground (arith, is_suspended-banned_at fb.suspended ip t.is_now t.is_since)
