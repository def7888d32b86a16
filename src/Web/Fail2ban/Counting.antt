-- ===== src/Web/Fail2ban/Counting.antt =====
-- web/gin/middleware/fail2ban/suspected.go: how `Incr` counts.
use arcella_lib.Prelude.{ℕ, ◌+◌, ◌≤◌, ◌<◌, String, ◌≡◌, ◌≢◌, none, some, arith, if◌then◌else◌}
use arcella_lib.Prelude.Int.{add_duration}
use arcella_lib.Prelude.Dict
use arcella_lib.Prelude.Dict.{
  string_eq, spare, beq_self, lookup-insert_ne, lookup-remove_ne, lookup-insert, lookup-remove,
  lookup-sweep,
}
use arcella_lib.Web.Fail2ban.{
  SuspectedItem, Suspected, too_late, sweep_due, evict_suspected, count_one, incr,
}

-- Within the watch period `Incr` counts on from the recorded number and keeps the end of the period,
-- whether or not the call sweeps.
pub incr_live :
    (s : Suspected) (ip : String) (now later : ℕ) {item : SuspectedItem}
    → Dict.lookup ip s.items ≡ some item
    → now ≤ item.watch_time
    → ((incr s ip now later).1 ≡ item.count + 1)
      × (Dict.lookup ip (incr s ip now later).0.items
          ≡ some (record item { count = item.count + 1 }))
unfolding incr
incr_live s ip now later {item} e le = ground (
  arith,
  lookup-sweep {K = String} (too_late now) ip s.items,
  lookup-insert {K = String} ip ip (record item { count = item.count + 1 }) s.items,
  lookup-insert {K = String} ip ip (record item { count = item.count + 1 })
      (Dict.sweep (too_late now) s.items),
  beq_self {K = String} ip,
)

-- An address with no record gets the count 1 and a new watch period.
pub incr_new :
    (s : Suspected) (ip : String) (now later : ℕ)
    → Dict.lookup ip s.items ≡ none
    → ((incr s ip now later).1 ≡ 1)
      × (Dict.lookup ip (incr s ip now later).0.items
          ≡ some (record { count = 1; watch_time = add_duration now s.watch_period }))
unfolding incr
incr_new s ip now later e =
    let item : SuspectedItem = record { count = 1; watch_time = add_duration now s.watch_period } in
    ground (
      arith,
      lookup-sweep {K = String} (too_late now) ip s.items,
      lookup-insert {K = String} ip ip item s.items,
      lookup-insert {K = String} ip ip item (Dict.sweep (too_late now) s.items),
      beq_self {K = String} ip,
    )

-- Of a record whose watch period is over, `Incr` makes the count 1 and a new watch period if the call
-- sweeps; without a sweep it returns 0 and leaves no record, so that this failure is not counted.
pub incr_stale :
    (s : Suspected) (ip : String) (now later : ℕ) {item : SuspectedItem}
    → Dict.lookup ip s.items ≡ some item
    → item.watch_time < now
    → ((incr s ip now later).1 ≡ (if sweep_due s.items s.last_sweep later then 1 else 0))
      × (Dict.lookup ip (incr s ip now later).0.items ≡ (
          if sweep_due s.items s.last_sweep later
          then some (record { count = 1; watch_time = add_duration now s.watch_period })
          else none))
unfolding incr
incr_stale s ip now later e lt =
    let item : SuspectedItem = record { count = 1; watch_time = add_duration now s.watch_period } in
    ground (
      arith,
      lookup-sweep {K = String} (too_late now) ip s.items,
      lookup-insert {K = String} ip ip item (Dict.sweep (too_late now) s.items),
      lookup-remove {K = String} ip ip s.items,
      beq_self {K = String} ip,
    )

evict_live :
    (s : Suspected) (j : String) (now later : ℕ)
    → spare (too_late now) (Dict.lookup j (evict_suspected s now later).items)
      ≡ spare (too_late now) (Dict.lookup j s.items)
unfolding evict_suspected
evict_live s j now later = ground (arith, lookup-sweep {K = String} (too_late now) j s.items)

count_one_ne :
    (s : Suspected) (ip j : String) (now : ℕ)
    → ip ≢ j
    → Dict.lookup j (count_one s ip now).0.items ≡ Dict.lookup j s.items
unfolding count_one
count_one_ne s ip j now ne = grind (
  arith,
  lookup-insert_ne {K = String} {V = SuspectedItem},
  lookup-remove_ne {K = String} {V = SuspectedItem},
)

-- `Incr` for one address leaves every other record that is still within its watch period as it is.
pub incr_ne :
    (s : Suspected) (ip j : String) (now later : ℕ)
    → ip ≢ j
    → spare (too_late now) (Dict.lookup j (incr s ip now later).0.items)
      ≡ spare (too_late now) (Dict.lookup j s.items)
unfolding incr
incr_ne s ip j now later ne =
    rw (count_one_ne (evict_suspected s now later) ip j now ne) (evict_live s j now later)
