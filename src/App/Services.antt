-- ===== src/App/Services.antt =====
-- app/v3/appcv3.go: `initServices` and `deInitServices`.
use arcella_lib.Prelude.Text.{All}
use arcella_lib.App.{
  Event, start, stop, init_loop, init_services, de_init_services, Signal, tick, quit, process,
  do_process,
}
use arcella_lib.Prelude.{
  ◌++◌, ◌∷◌, ◌≡◌, map, [], List, some, none, Option, false, true, Bool, refl, suc, zero, ℕ,
}

-- The services in `xs` all start.
abbrev pub Starts : (ℕ → Bool) → List ℕ → Type 0
Starts starts = All (λ v. starts v ≡ true)

-- `reverse xs ++ started`, as the loop builds it
abbrev pub rev_onto : List ℕ → List ℕ → List ℕ
rev_onto [] started = started
rev_onto (x ∷ xs) started = rev_onto xs (x ∷ started)

init_loop_fails :
    (starts : ℕ → Bool) (started xs ys : List ℕ) (v : ℕ)
    → Starts starts xs
    → starts v ≡ false
    → init_loop starts started (xs ++ (v ∷ ys))
      ≡ (map start xs ++ (start v ∷ map stop (rev_onto xs started)), true)
unfolding init_loop
init_loop_fails starts started [] ys v h e = rw e refl
init_loop_fails starts started (x ∷ xs) ys v (hx, h) e =
    rw (hx, init_loop_fails starts (x ∷ started) xs ys v h e) refl

-- If a service does not start, the services before it have been started in their order, are stopped
-- in the reverse order, and the initialization panics; no later service is started.
pub init_services_fails :
    (starts : ℕ → Bool) (xs ys : List ℕ) (v : ℕ)
    → Starts starts xs
    → starts v ≡ false
    → init_services starts (xs ++ (v ∷ ys))
      ≡ (map start xs ++ (start v ∷ map stop (rev_onto xs [])), true)
unfolding init_services
init_services_fails starts xs ys v h e = init_loop_fails starts [] xs ys v h e

init_loop_succeeds :
    (starts : ℕ → Bool) (started xs : List ℕ)
    → Starts starts xs
    → init_loop starts started xs ≡ (map start xs, false)
unfolding init_loop
init_loop_succeeds starts started [] h = refl
init_loop_succeeds starts started (x ∷ xs) (hx, h) =
    rw (hx, init_loop_succeeds starts (x ∷ started) xs h) refl

pub init_services_succeeds :
    (starts : ℕ → Bool) (xs : List ℕ)
    → Starts starts xs
    → init_services starts xs ≡ (map start xs, false)
unfolding init_services
init_services_succeeds starts xs h = init_loop_succeeds starts [] xs h

-- the services that are there
abbrev pub present : List (Option ℕ) → List ℕ
present [] = []
present (none ∷ services) = present services
present (some v ∷ services) = v ∷ present services

pub de_init_services-present :
    (services : List (Option ℕ)) → de_init_services services ≡ map stop (present services)
unfolding de_init_services
de_init_services-present [] = refl
de_init_services-present (none ∷ services) = de_init_services-present services
de_init_services-present (some v ∷ services) = rw (de_init_services-present services) refl

-- `n` ticks and then a request to quit
abbrev pub ticks : ℕ → List Signal → List Signal
ticks zero signals = quit ∷ signals
ticks (suc n) signals = tick ∷ ticks n signals

abbrev pub processed : Bool → ℕ → List Event
processed timer zero = []
processed true (suc n) = process ∷ processed true n
processed false (suc n) = processed false n

pub do_process-ticks :
    (timer : Bool) (n : ℕ) (signals : List Signal)
    → do_process timer (ticks n signals) ≡ (processed timer n, true)
unfolding do_process
do_process-ticks timer zero signals = refl
do_process-ticks true (suc n) signals = rw (do_process-ticks true n signals) refl
do_process-ticks false (suc n) signals = do_process-ticks false n signals
