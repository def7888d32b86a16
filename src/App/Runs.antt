-- ===== src/App/Runs.antt =====
-- app/v3/appcv3.go: the whole of `Run`.
use arcella_lib.App.{
  Event, start, stop, cancel, before_init, after_init, recovered, Signal, Application, finished,
  panicked, recovered_panic, hook, is_loaded, load_trace, panic, finish, proceed, run,
}
use arcella_lib.App.Services.{
  Starts, rev_onto, present, ticks, processed, init_services_fails, init_services_succeeds,
  de_init_services-present, do_process-ticks,
}
use arcella_lib.Prelude.{◌++◌, ◌∷◌, ◌≡◌, if◌then◌else◌, map, [], List, false, true, Bool, refl, ℕ}

abbrev pub opening : Application → List Event
opening app = load_trace app.config ++ hook app.on_before_init before_init

-- With a loaded configuration and services that all start, the hooks, the services in their order,
-- the function of the timer once for each tick, and after the request to quit the stops of the
-- services that the application names and the end of the context follow in this order.
pub run_finishes :
    (app : Application) (starts : ℕ → Bool) (n : ℕ) (signals : List Signal)
    → is_loaded app.config ≡ true
    → Starts starts app.start_list
    → run app starts (ticks n signals) ≡ (
      (opening app ++ (map start app.start_list ++ hook app.on_after_init after_init))
          ++ (processed app.timer n ++ (map stop (present app.stop_list) ++ (cancel ∷ []))),
      finished,
    )
unfolding run proceed finish
run_finishes app starts n signals loaded h =
    rw
      (
        loaded,
        init_services_succeeds starts app.start_list h,
        do_process-ticks app.timer n signals,
        de_init_services-present app.stop_list,
      )
      refl

-- With a loaded configuration, if a service is the first that does not start, `Run` ends in the panic
-- of `initServices`, or in the application's recovery from it; every service that was started is stopped, in the reverse order, and nothing
-- else happens: neither the function of the timer nor the stops that the application names.
pub run_fails :
    (app : Application) (starts : ℕ → Bool) (xs ys : List ℕ) (v : ℕ) (signals : List Signal)
    → is_loaded app.config ≡ true
    → app.start_list ≡ xs ++ (v ∷ ys)
    → Starts starts xs
    → starts v ≡ false
    → let trace = opening app ++ (map start xs ++ (start v ∷ map stop (rev_onto xs []))) in
      run app starts signals
      ≡ (if app.on_recover then (trace ++ (recovered ∷ []), recovered_panic) else (trace, panicked))
unfolding run proceed panic
run_fails app starts xs ys v signals loaded list h e =
    rw (loaded, list, init_services_fails starts xs ys v h e) refl
