-- ===== src/Db/Mssql/Pings.antt =====
-- db/mssql/msSql.go: pingWithRetry.
use arcella_lib.Db.Mssql.{
  Ping, answered, fails, Pinged, is_transient, verdict, ping_from, ping_with_retry,
}
use arcella_lib.Prelude.{
  from_next, ◌∙◌, ◌||◌, ◌≡◌, ◌<◌, ◌≤◌, ◌+◌, if◌then◌else◌, Bool-cases, leb, arith, inr, inl, some,
  Option, not, false, true, Bool, ap, refl, suc, zero, ℕ,
}

-- an error after which another attempt may be made
abbrev pub retries : Ping → Bool
unfolding is_transient
retries answered = false
retries (fails e) = is_transient e

verdict_lem :
    (attempt : ℕ) (p : Ping) (rest : Option Pinged)
    → verdict attempt p rest
      ≡ (if leb 3 attempt || not (retries p) then some (suc attempt, p) else rest)
unfolding verdict
verdict_lem attempt answered rest = elim (Bool-cases (leb 3 attempt)) [
  | inl late ↦ rw late refl
  | inr early ↦ rw early refl
]
verdict_lem attempt (fails e) rest = refl

-- `k` is the first attempt from `attempt` on that is the fourth or need not be repeated.
abbrev pub IsLast : (ℕ → Ping) → ℕ → ℕ → Type 0
IsLast ping attempt k =
    (k ≤ 3)
    × (leb 3 k || not (retries (ping k)) ≡ true)
    × ((i : ℕ) → attempt ≤ i → i < k → retries (ping i) ≡ true)

ping_from_lem :
    (ping : ℕ → Ping) (rounds attempt : ℕ)
    → attempt + rounds ≡ 4
    → attempt < 4
    → (k : ℕ) × (ping_from ping attempt rounds ≡ some (suc k, ping k)) × IsLast ping attempt k
unfolding ping_from
ping_from_lem ping zero attempt e lt = absurd (omega arith)
ping_from_lem ping (suc rounds) attempt e lt =
    elim (Bool-cases (leb 3 attempt || not (retries (ping attempt)))) [
      | inl done ↦ (
        attempt,
        verdict_lem attempt (ping attempt) (ping_from ping (attempt + 1) rounds) ∙ rw done refl,
        (omega arith, done, λ i le before. absurd (omega arith)),
      )
      | inr again ↦
          let early : attempt < 3 = ground arith in
          let repeat : retries (ping attempt) ≡ true = ground arith in
          let (k, found, (le, last, before)) =
            ping_from_lem ping rounds (suc attempt) (omega arith) (omega arith) in
          (
            k,
            verdict_lem attempt (ping attempt) (ping_from ping (attempt + 1) rounds)
                ∙ rw again (ap (λ (n : ℕ). ping_from ping n rounds) (omega arith) ∙ found),
            (le, last, from_next (λ i. retries (ping i) ≡ true) attempt k repeat before),
          )
    ]

-- The loop of pingWithRetry ends within four attempts: each one before the last failed with an error
-- that is transient, and the last is the fourth, or it succeeded, or its error is not transient. What it
-- answered is the result.
pub ping_with_retry_lem :
    (ping : ℕ → Ping) → (k : ℕ) × (ping_with_retry ping ≡ some (suc k, ping k)) × IsLast ping 0 k
unfolding ping_with_retry
ping_with_retry_lem ping = ping_from_lem ping 4 0 refl (omega arith)
