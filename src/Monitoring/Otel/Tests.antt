-- ===== src/Monitoring/Otel/Tests.antt =====
-- The client of OpenTelemetry on a small configuration.
use arcella_lib.Prelude.Text.{codes}
use arcella_lib.Monitoring.Otel.{
  ConfigOtello, Answers, new_otello, start, stop, closings, new_span_id, traces, logs, connection,
}
use arcella_lib.Monitoring.Otel.Providers
use arcella_lib.Monitoring.Otel.Providers.{has_key, IsFirst}
use arcella_lib.Prelude.{
  ◌==◌, ◌||◌, not, Bool, ◌∷◌, ◌≡◌, arith, [], List, some, none, Option, false, true, refl, suc,
  zero, ℕ,
}

abbrev config : ConfigOtello
config = record {
  service_name = codes "svc";
  unq_service_name = codes "svc-1";
  labels = (codes "env", codes "dev") ∷ [];
  without_prometheus = false;
}

abbrev answers : Answers
answers = record {
  new_client = some 1;
  resource = λ kvs. true;
  trace = some 2;
  log = some 3;
  metric = none;
}

-- a start that fails at its last step is shut down by Stop
partial :
    (stop (start (new_otello config) answers).0 (λ c. false)).1
    ≡ traces 2 ∷ logs 3 ∷ connection 1 ∷ []
unfolding stop start closings
partial = refl

-- a stopped client still says that it is ready
still_inited :
    (stop (start (new_otello config) (record answers { metric = some 4 })).0 (λ c. false)).0.inited
    ≡ true
unfolding stop start
still_inited = refl

abbrev readings : ℕ → Option (List ℕ)
readings zero = none
readings (suc zero) = some (0 ∷ 0 ∷ [])
readings (suc (suc n)) = some (0 ∷ 5 ∷ [])

-- some byte is not zero
abbrev non_zero : List ℕ → Bool
non_zero [] = false
non_zero (b ∷ s) = not (b == 0) || non_zero s

new_span_id_lem_example :
    (first : List ℕ) × (new_span_id non_zero readings 0 10 ≡ some first)
    × IsFirst non_zero readings 3 first
new_span_id_lem_example =
    Providers.new_span_id_lem non_zero readings 10 3 (0 ∷ 5 ∷ []) refl refl (omega arith)
