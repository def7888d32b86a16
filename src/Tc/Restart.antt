-- ===== src/Tc/Restart.antt =====
-- tc/tcClientSender/tcClientWS.go: the loop of `wsRestart`.
use native.Mathlib.Nat.{mod-lt}
use arcella_lib.Prelude.{
  ◌∙◌, arith, refl, ◌++◌, ◌∷◌, ◌≡◌, ◌<◌, ◌≤◌, ◌%◌, ◌/◌, ◌*◌, ◌+◌, if◌then◌else◌, min, ltb, [], List,
  false, true, Bool, suc, zero, ℕ,
}

abbrev pub minute : ℕ
minute = 60000000000

abbrev pub max_restart_backoff : ℕ
max_restart_backoff = 5 * minute

unfoldable pub base_backoff : ℕ → ℕ
base_backoff count =
    if ltb max_restart_backoff (count * minute) then max_restart_backoff else count * minute

-- `random` is `rand.Int63n`'s number under a half of the base
unfoldable pub backoff : ℕ → ℕ → ℕ
unfolding base_backoff
backoff count random = base_backoff count + random % (base_backoff count / 2)

-- What an attempt meets: the client is stopped before it, during its backoff or its connection, or
-- the connection fails or succeeds.
pub data Attempt : Type 0 where
  stopped_before stopped_waiting stopped_connecting failed connected : Attempt

pub data Event : Type 0 where
  disconnect connect : Event
  wait : ℕ → Event

abbrev pub delay : ℕ → ℕ → List Event
unfolding backoff
delay count random = if ltb 1 count then wait (backoff count random) ∷ [] else []

-- the loop from `count` on; the Boolean says whether it ends with a connection
unfoldable pub restart_loop : (ℕ → ℕ) → ℕ → List Attempt → List Event × Bool
unfolding backoff
restart_loop random count [] = ([], false)
restart_loop random count (stopped_before ∷ attempts) = ([], false)
restart_loop random count (stopped_waiting ∷ attempts) =
    (disconnect ∷ delay count (random count), false)
restart_loop random count (stopped_connecting ∷ attempts) =
    (disconnect ∷ (delay count (random count) ++ (connect ∷ [])), false)
restart_loop random count (connected ∷ attempts) =
    (disconnect ∷ (delay count (random count) ++ (connect ∷ [])), true)
restart_loop random count (failed ∷ attempts) =
    let rest = restart_loop random (count + 1) attempts in
    (disconnect ∷ (delay count (random count) ++ (connect ∷ rest.0)), rest.1)

base_backoff-min : (count : ℕ) → base_backoff count ≡ min (count * minute) max_restart_backoff
unfolding base_backoff
base_backoff-min count = ground arith

half_pos : (b : ℕ) → 2 ≤ b → 0 < b / 2
half_pos b le = omega arith

jitter_bounds : (b r : ℕ) → r < b / 2 → (b ≤ b + r) × (2 * (b + r) < 3 * b)
jitter_bounds b r lt = (omega arith, omega arith)

-- The backoff of an attempt lies between its base, as many minutes as the attempt's number but at most
-- five, and one and a half of that.
pub backoff_bounds :
    (count random : ℕ)
    → 1 ≤ count
    → (min (count * minute) max_restart_backoff ≤ backoff count random)
      × (2 * backoff count random < 3 * min (count * minute) max_restart_backoff)
unfolding backoff
backoff_bounds count random le =
    let b = min (count * minute) max_restart_backoff in
    let wide : 2 ≤ b = omega arith in
    rw (base_backoff-min count)
      (jitter_bounds b (random % (b / 2)) (mod-lt random (half_pos b wide)))

abbrev pub repeated : ℕ → List Attempt → List Attempt
repeated zero attempts = attempts
repeated (suc n) attempts = failed ∷ repeated n attempts

-- the events of `n` failed attempts from `count` on
abbrev pub failures : (ℕ → ℕ) → ℕ → ℕ → List Event → List Event
failures random count zero after = after
failures random count (suc n) after =
    disconnect ∷ (delay count (random count) ++ (connect ∷ failures random (count + 1) n after))

restart_loop-failures :
    (random : ℕ → ℕ) (n count : ℕ) (attempts : List Attempt)
    → let rest = restart_loop random (count + n) attempts in
      restart_loop random count (repeated n attempts) ≡ (failures random count n rest.0, rest.1)
unfolding restart_loop
restart_loop-failures random zero count attempts =
    let e : count + 0 ≡ count = omega arith in rw e refl
restart_loop-failures random (suc n) count attempts =
    let e : count + suc n ≡ count + 1 + n = omega arith in
    rw (e, restart_loop-failures random n (count + 1) attempts) refl

-- A restart tries until a connection succeeds, with a disconnection before every attempt, and a delay
-- before every attempt but the first.
pub restart_loop-repeated :
    (random : ℕ → ℕ) (n count : ℕ) (attempts : List Attempt)
    → restart_loop random count (repeated n (connected ∷ attempts)) ≡ (
      failures random count n
          (disconnect ∷ (delay (count + n) (random (count + n)) ++ (connect ∷ []))),
      true,
    )
restart_loop-repeated random n count attempts =
    restart_loop-failures random n count (connected ∷ attempts) ∙ (unfold restart_loop in refl)
