-- ===== src/App/Tests.antt =====
-- The controller on a small application.
use arcella_lib.App
use arcella_lib.App.{Event, Application, Signal, Outcome, run, init_services}
use arcella_lib.App.Runs.{run_finishes, run_fails}
use arcella_lib.Prelude.{◌==◌, ◌∷◌, ◌≡◌, [], some, none, not, false, true, Bool, refl, ℕ}

abbrev app : Application
app = record {
  on_recover = true;
  on_before_init = false;
  on_after_init = true;
  config = some true;
  timer = true;
  start_list = 1 ∷ 2 ∷ 3 ∷ [];
  stop_list = some 3 ∷ none ∷ some 2 ∷ some 1 ∷ [];
}

abbrev all_start : ℕ → Bool
all_start v = true

abbrev third_fails : ℕ → Bool
third_fails v = not (v == 3)

run_finishes_example : run app all_start (App.tick ∷ App.quit ∷ []) ≡ (
  App.load_config
      ∷ App.start 1
      ∷ App.start 2
      ∷ App.start 3
      ∷ App.after_init
      ∷ App.process
      ∷ App.stop 3
      ∷ App.stop 2
      ∷ App.stop 1
      ∷ App.cancel
      ∷ [],
  App.finished,
)
run_finishes_example = run_finishes app all_start 1 [] refl (refl, (refl, (refl, tt)))

run_fails_example : run app third_fails [] ≡ (
  App.load_config
      ∷ App.start 1
      ∷ App.start 2
      ∷ App.start 3
      ∷ App.stop 2
      ∷ App.stop 1
      ∷ App.recovered
      ∷ [],
  App.recovered_panic,
)
run_fails_example = run_fails app third_fails (1 ∷ 2 ∷ []) [] 3 [] refl refl (refl, (refl, tt)) refl
