-- ===== src/Sms/Retries.antt =====
-- smsc/smsc.go: `SendMessage`, the retries around an attempt.
use arcella_lib.Prelude.{
  ◌∙◌, ap, ◌∷◌, ◌≡◌, ◌<◌, ◌≤◌, ◌*◌, ◌+◌, if◌then◌else◌, Bool-cases, ltb, arith, inr, inl, [], List,
  false, true, Bool, refl, suc, zero, ℕ,
}

pub data Attempt : Type 0 where
  sent : List ℕ → Attempt
  closing failed : Attempt

pub data Action : Type 0 where
  attempt restart : Action
  sleep : ℕ → Action

pub data Result : Type 0 where
  ok : List ℕ → Result
  attempts_failed restart_failed : Result

abbrev hundred_ms : ℕ
hundred_ms = 100000000

-- what follows a failed attempt
abbrev pub after : Attempt → Bool → ℕ → List Action × Result → List Action × Result
after (sent id) restarts i rest = (attempt ∷ [], ok id)
after closing true i rest = (attempt ∷ restart ∷ rest.0, rest.1)
after closing false i rest = (attempt ∷ restart ∷ [], restart_failed)
after failed restarts i rest =
    (attempt ∷ (if ltb i 5 then sleep (i * hundred_ms) ∷ rest.0 else rest.0), rest.1)

-- the rounds from `i` on; an attempt and a restart are told apart by their round
unfoldable pub rounds : (ℕ → Attempt) → (ℕ → Bool) → ℕ → ℕ → List Action × Result
rounds attempts restarts zero i = ([], attempts_failed)
rounds attempts restarts (suc n) i =
    after (attempts i) (restarts i) i (rounds attempts restarts n (i + 1))

unfoldable pub send_message : (ℕ → Attempt) → (ℕ → Bool) → List Action × Result
unfolding rounds
send_message attempts restarts = rounds attempts restarts 5 1

abbrev pub count : List Action → ℕ
count [] = 0
count (attempt ∷ actions) = suc (count actions)
count (restart ∷ actions) = count actions
count (sleep d ∷ actions) = count actions

abbrev pub slept : List Action → ℕ
slept [] = 0
slept (attempt ∷ actions) = slept actions
slept (restart ∷ actions) = slept actions
slept (sleep d ∷ actions) = d + slept actions

count-after-le :
    (a : Attempt) (b : Bool) (i n : ℕ) (rest : List Action × Result)
    → count rest.0 ≤ n
    → count (after a b i rest).0 ≤ suc n
count-after-le (sent id) b i n rest le = omega arith
count-after-le closing true i n rest le = omega arith
count-after-le closing false i n rest le = omega arith
count-after-le failed b i n rest le = elim (Bool-cases (ltb i 5)) [
  | inl e ↦ rw e (omega arith)
  | inr e ↦ rw e (omega arith)
]

count-rounds-le :
    (attempts : ℕ → Attempt) (restarts : ℕ → Bool) (n i : ℕ)
    → count (rounds attempts restarts n i).0 ≤ n
unfolding rounds
count-rounds-le attempts restarts zero i = omega arith
count-rounds-le attempts restarts (suc n) i =
    count-after-le (attempts i) (restarts i) i n (rounds attempts restarts n (i + 1))
      (count-rounds-le attempts restarts n (i + 1))

slept-after-le :
    (a : Attempt) (b : Bool) (i n : ℕ) (rest : List Action × Result)
    → slept rest.0 ≤ n
    → slept (after a b i rest).0 ≤ (if ltb i 5 then i * hundred_ms else 0) + n
slept-after-le (sent id) b i n rest le = omega arith
slept-after-le closing true i n rest le = omega arith
slept-after-le closing false i n rest le = omega arith
slept-after-le failed b i n rest le = elim (Bool-cases (ltb i 5)) [
  | inl e ↦ rw e (omega arith)
  | inr e ↦ rw e (omega arith)
]

-- What a sending does at most: five attempts, with one second of sleep in all between them.
pub send_message_bounds :
    (attempts : ℕ → Attempt) (restarts : ℕ → Bool)
    → (count (send_message attempts restarts).0 ≤ 5)
      × (slept (send_message attempts restarts).0 ≤ 1000000000)
unfolding send_message rounds
send_message_bounds attempts restarts =
    let step : (n i : ℕ) (m : ℕ)
        → slept (rounds attempts restarts n (i + 1)).0 ≤ m
        → slept (rounds attempts restarts (suc n) i).0
          ≤ (if ltb i 5 then i * hundred_ms else 0) + m =
      (λ n i m le.
        slept-after-le (attempts i) (restarts i) i m (rounds attempts restarts n (i + 1)) le) in
    (
      count-rounds-le attempts restarts 5 1,
      step 4 1 900000000
          (step 3 2 700000000 (step 2 3 400000000 (step 1 4 0 (step 0 5 0 (omega arith))))),
    )

-- an attempt that fails and lets the next one follow
abbrev pub GoesOn : Attempt → Bool → Type 0
GoesOn (sent id) b = ⊥
GoesOn closing b = b ≡ true
GoesOn failed b = Unit {0}

after-GoesOn :
    (a : Attempt) (b : Bool) (i : ℕ) (rest : List Action × Result)
    → GoesOn a b
    → ((after a b i rest).1 ≡ rest.1) × (count (after a b i rest).0 ≡ suc (count rest.0))
after-GoesOn (sent id) b i rest h = absurd h
after-GoesOn closing true i rest h = (refl, refl)
after-GoesOn closing false i rest h = ground arith
after-GoesOn failed b i rest h = elim (Bool-cases (ltb i 5)) [
  | inl e ↦ rw e (refl, refl)
  | inr e ↦ rw e (refl, refl)
]

-- From round `i` on, `k` attempts fail and let the next one follow, which succeeds.
abbrev pub SucceedsAfter : (ℕ → Attempt) → (ℕ → Bool) → List ℕ → ℕ → ℕ → Type 0
SucceedsAfter attempts restarts id zero i = attempts i ≡ sent id
SucceedsAfter attempts restarts id (suc k) i =
    GoesOn (attempts i) (restarts i) × SucceedsAfter attempts restarts id k (i + 1)

rounds_first :
    (attempts : ℕ → Attempt) (restarts : ℕ → Bool) (id : List ℕ) (k n i : ℕ)
    → k < n
    → SucceedsAfter attempts restarts id k i
    → ((rounds attempts restarts n i).1 ≡ ok id) × (count (rounds attempts restarts n i).0 ≡ suc k)
unfolding rounds
rounds_first attempts restarts id k zero i lt h = absurd (omega arith)
rounds_first attempts restarts id zero (suc n) i lt h = rw h (refl, refl)
rounds_first attempts restarts id (suc k) (suc n) i lt (goes, h) =
    let (result, counted) = rounds_first attempts restarts id k n (i + 1) (omega arith) h in
    let (same, one_more) =
      after-GoesOn (attempts i) (restarts i) i (rounds attempts restarts n (i + 1)) goes in
    (same ∙ result, one_more ∙ ap (λ (m : ℕ). suc m) counted)

-- If fewer than five attempts fail, none of them with a restart that fails, before one succeeds, then
-- the answer is the identifier of that one, and no further attempt is made.
pub send_message_first :
    (attempts : ℕ → Attempt) (restarts : ℕ → Bool) (id : List ℕ) (k : ℕ)
    → k < 5
    → SucceedsAfter attempts restarts id k 1
    → ((send_message attempts restarts).1 ≡ ok id)
      × (count (send_message attempts restarts).0 ≡ suc k)
unfolding send_message
send_message_first attempts restarts id k lt h = rounds_first attempts restarts id k 5 1 lt h
