-- ===== src/Web/Fail2ban/Suspension.antt =====
-- web/gin/middleware/fail2ban/suspended.go: who is suspended, and that sweeps do not show.
use arcella_lib.Prelude.{
  ℕ, ◌≤◌, String, ◌≡◌, Bool, false, not, Option, none, some, arith, ltb, if◌then◌else◌,
}
use arcella_lib.Prelude.Int.{add_duration}
use arcella_lib.Prelude.Dict
use arcella_lib.Prelude.Dict.{
  string_eq, spare, beq_self, lookup-insert, lookup-remove, lookup-sweep,
}
use arcella_lib.Web.Fail2ban.{Suspended, add, past, evict_suspended, is_suspended}

-- An address is suspended up to the end of its ban.
abbrev pub banned_at : ℕ → Option ℕ → Bool
banned_at now none = false
banned_at now (some t) = not (past now t)

evicted :
    (s : Suspended) (ip : String) (now later t : ℕ)
    → now ≤ t
    → banned_at t (Dict.lookup ip (evict_suspended s now later).items)
      ≡ banned_at t (Dict.lookup ip s.items)
unfolding evict_suspended
evicted s ip now later t le = ground (arith, lookup-sweep {K = String} (past now) ip s.items)

-- `Is` answers by the recorded end of the ban alone: true up to that instant and false afterwards or
-- without a record, whether or not the call sweeps.
pub is_suspended-banned_at :
    (s : Suspended) (ip : String) (now later : ℕ)
    → (is_suspended s ip now later).1 ≡ banned_at now (Dict.lookup ip s.items)
unfolding is_suspended
is_suspended-banned_at s ip now later =
    ground (arith, lookup-sweep {K = String} (past now) ip s.items)

-- A call of `Is`, with its sweep and its deletion, changes for no address what a later call answers.
pub banned_at-is_suspended :
    (s : Suspended) (ip j : String) (now later t : ℕ)
    → now ≤ t
    → banned_at t (Dict.lookup j (is_suspended s ip now later).0.items)
      ≡ banned_at t (Dict.lookup j s.items)
unfolding is_suspended
banned_at-is_suspended s ip j now later t le = ground (
  arith,
  lookup-sweep {K = String} (past now) ip s.items,
  lookup-sweep {K = String} (past now) j s.items,
  lookup-remove {K = String} ip j (Dict.sweep (past now) s.items),
  lookup-remove {K = String} ip j s.items,
  string_eq.beq_iff ip j,
)

-- After `Add`, the address is suspended exactly until the ban period has passed, and every other
-- address is as suspended as before.
pub is_suspended-add :
    (s : Suspended) (ip j : String) (now t later : ℕ)
    → (is_suspended (add s ip now) j t later).1 ≡ (
        if string_eq.beq ip j
        then not (ltb (add_duration now s.ban_period) t)
        else (is_suspended s j t later).1)
unfolding add
is_suspended-add s ip j now t later = ground (
  arith,
  is_suspended-banned_at (add s ip now) j t later,
  is_suspended-banned_at s j t later,
  lookup-insert {K = String} ip j (add_duration now s.ban_period) s.items,
)
