-- ===== src/App.antt =====
-- app/v3/appcv3.go: the controller that starts an application's services, waits and stops them. A
-- service is a number; what the services and hooks do is seen as a trace of events. Logging and the
-- two setters of handlers are left out.
pub mod Services
pub mod Runs
mod Tests
use mathlib.Core.List.{reverse}
use arcella_lib.Prelude.{
  ◌++◌, ◌∷◌, if◌then◌else◌, map, [], List, some, none, Option, false, true, Bool, ℕ,
}

pub data Event : Type 0 where
  load_config before_init after_init process recovered cancel : Event
  start stop : ℕ → Event

-- `initServices` from some service on, with those that are started so far, the latest first. The
-- Boolean says whether it panics: a failed start stops the started services, the latest first.
unfoldable pub init_loop : (ℕ → Bool) → List ℕ → List ℕ → List Event × Bool
init_loop starts started [] = ([], false)
init_loop starts started (v ∷ services) =
    let rest = init_loop starts (v ∷ started) services in
    if starts v then (start v ∷ rest.0, rest.1) else (start v ∷ map stop started, true)

unfoldable pub init_services : (ℕ → Bool) → List ℕ → List Event × Bool
unfolding init_loop
init_services starts services = init_loop starts [] services

-- `deInitServices`; `none` is a nil service, and errors are only logged
unfoldable pub de_init_services : List (Option ℕ) → List Event
de_init_services [] = []
de_init_services (none ∷ services) = de_init_services services
de_init_services (some v ∷ services) = stop v ∷ de_init_services services

-- what `doProcess` receives
pub data Signal : Type 0 where
  tick quit : Signal

-- `doProcess`, which runs the function on a tick if there is a timer; the Boolean says whether it
-- returns
unfoldable pub do_process : Bool → List Signal → List Event × Bool
do_process timer [] = ([], false)
do_process timer (quit ∷ signals) = ([], true)
do_process timer (tick ∷ signals) =
    let rest = do_process timer signals in if timer then (process ∷ rest.0, rest.1) else rest

-- The application's hooks and answers: `config` is the outcome of `Load`, if there is a manager, and
-- `timer` says that a function comes with a positive duration.
pub record Application : Type 0 where
  pub on_recover : Bool
  pub on_before_init : Bool
  pub on_after_init : Bool
  pub config : Option Bool
  pub timer : Bool
  pub start_list : List ℕ
  pub stop_list : List (Option ℕ)

pub data Outcome : Type 0 where
  finished waiting panicked recovered_panic : Outcome

abbrev pub hook : Bool → Event → List Event
hook true e = e ∷ []
hook false e = []

abbrev pub is_loaded : Option Bool → Bool
is_loaded none = true
is_loaded (some ok) = ok

abbrev pub load_trace : Option Bool → List Event
load_trace none = []
load_trace (some ok) = load_config ∷ []

-- a panic under the deferred function of `Run`
unfoldable pub panic : Application → List Event → List Event × Outcome
panic app trace =
    if app.on_recover then (trace ++ (recovered ∷ []), recovered_panic) else (trace, panicked)

-- `Run` from `doProcess` on
unfoldable pub finish : Application → List Event → List Event × Bool → List Event × Outcome
unfolding de_init_services
finish app trace (events, true) =
    (trace ++ (events ++ (de_init_services app.stop_list ++ (cancel ∷ []))), finished)
finish app trace (events, false) = (trace ++ events, waiting)

-- `Run` behind `initServices`
unfoldable pub proceed :
    Application → List Event → List Event × Bool → List Signal → List Event × Outcome
unfolding panic finish do_process
proceed app trace (events, true) signals = panic app (trace ++ events)
proceed app trace (events, false) signals =
    finish app (trace ++ (events ++ hook app.on_after_init after_init))
      (do_process app.timer signals)

unfoldable pub run : Application → (ℕ → Bool) → List Signal → List Event × Outcome
unfolding panic proceed init_services
run app starts signals =
    let loaded = load_trace app.config in
    if is_loaded app.config
    then proceed app (loaded ++ hook app.on_before_init before_init)
        (init_services starts app.start_list) signals
    else panic app loaded

-- `Stop` on the channel of capacity one, which `Run` makes: whether a signal is pending in it
unfoldable pub request_stop : Option Bool → Option Bool
request_stop none = none
request_stop (some pending) = some true
