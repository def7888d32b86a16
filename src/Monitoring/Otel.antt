-- ===== src/Monitoring/Otel.antt =====
-- monitoring/otel/otello.go. Connections and providers of OpenTelemetry are numbers; what the library
-- answers is an argument.
pub mod Providers
mod Tests
use arcella_lib.Prelude.Text.{codes, text_eq}
use arcella_lib.Prelude.{
  ◌==◌, ◌||◌, ◌++◌, ◌∷◌, ◌+◌, if◌then◌else◌, [], List, some, none, Option, not, false, true, Bool,
  suc, zero, ℕ,
}

pub record ConfigOtello : Type 0 where
  pub service_name : List ℕ
  pub unq_service_name : List ℕ
  pub labels : List (List ℕ × List ℕ)
  pub without_prometheus : Bool

-- the fields that Stop and Inited read; the exporters are part of the providers
pub record Otello : Type 0 where
  pub config : ConfigOtello
  pub conn : Option ℕ
  pub tracer_provider : Option ℕ
  pub logger_provider : Option ℕ
  pub meter_provider : Option ℕ
  pub inited : Bool

abbrev pub new_otello : ConfigOtello → Otello
new_otello config = record {
  config = config;
  conn = none;
  tracer_provider = none;
  logger_provider = none;
  meter_provider = none;
  inited = false;
}

abbrev pub KeyValue : Type 0
KeyValue = List ℕ × List ℕ

-- `make([]attribute.KeyValue, n)`
abbrev pub blank : KeyValue
blank = ([], [])

-- attributes[0] is written, and the labels from `i` on
abbrev pub named : ConfigOtello → KeyValue
named c =
    if text_eq c.unq_service_name []
    then (codes "service.name", c.service_name)
    else (codes "service.unique.name", c.unq_service_name)

unfoldable pub attributes : ConfigOtello → List KeyValue
attributes c = named c ∷ (if text_eq c.unq_service_name [] then c.labels else blank ∷ c.labels)

-- what the calls of a start answer: the client, the resource made of the attributes, and the three
-- exporters' providers
pub record Answers : Type 0 where
  pub new_client : Option ℕ
  pub resource : List KeyValue → Bool
  pub trace : Option ℕ
  pub log : Option ℕ
  pub metric : Option ℕ

-- the steps of `Start` behind the resource; the Boolean says whether the error is nil
abbrev pub init_meter_provider : Otello → Option ℕ → Otello × Bool
init_meter_provider o none = (o, false)
init_meter_provider o (some p) = (record o { meter_provider = some p; inited = true }, true)

abbrev pub metered : Otello → Answers → Otello × Bool
metered o a =
    if not o.config.without_prometheus
    then init_meter_provider o a.metric
    else (record o { inited = true }, true)

abbrev pub init_logger_provider : Otello → Answers → Option ℕ → Otello × Bool
init_logger_provider o a none = (o, false)
init_logger_provider o a (some p) = metered (record o { logger_provider = some p }) a

abbrev pub init_tracer_provider : Otello → Answers → Option ℕ → Otello × Bool
init_tracer_provider o a none = (o, false)
init_tracer_provider o a (some p) =
    init_logger_provider (record o { tracer_provider = some p }) a a.log

abbrev pub connected : Otello → Answers → Option ℕ → Otello × Bool
connected o a none = (o, false)
connected o a (some conn) =
    let t = record o { conn = some conn } in
    if a.resource (attributes o.config) then init_tracer_provider t a a.trace else (t, false)

-- `Start`, which first closes the connection that is held
unfoldable pub start : Otello → Answers → Otello × Bool
unfolding attributes
start o a = connected (record o { conn = none }) a a.new_client

-- a shutdown or a close, in the order in which `Stop` calls them
pub data Closing : Type 0 where
  traces logs metrics connection : ℕ → Closing

abbrev pub each : (ℕ → Closing) → Option ℕ → List Closing
each closing none = []
each closing (some p) = closing p ∷ []

unfoldable pub closings : Otello → List Closing
closings o =
    each traces o.tracer_provider
    ++ (each logs o.logger_provider
        ++ ((if not o.config.without_prometheus then each metrics o.meter_provider else [])
            ++ each connection o.conn))

-- the errors that are joined, of those calls that `fails` picks
unfoldable pub errors : (Closing → Bool) → List Closing → List Closing
errors fails [] = []
errors fails (c ∷ cs) = let rest = errors fails cs in if fails c then c ∷ rest else rest

-- `Stop`: the state, the calls and the joined errors
unfoldable pub stop : Otello → (Closing → Bool) → Otello × List Closing × List Closing
unfolding closings errors
stop o fails = (record o { conn = none }, closings o, errors fails (closings o))

-- `NewSpanID`, over `SpanID.IsValid` of OpenTelemetry and the readings of crypto/rand: the first that
-- succeeds and is valid, within the given number of rounds
abbrev pub usable : (List ℕ → Bool) → Option (List ℕ) → Option (List ℕ)
usable is_valid none = none
usable is_valid (some sid) = if is_valid sid then some sid else none

abbrev pub or_else : Option (List ℕ) → Option (List ℕ) → Option (List ℕ)
or_else none next = next
or_else (some sid) next = some sid

unfoldable pub new_span_id : (List ℕ → Bool) → (ℕ → Option (List ℕ)) → ℕ → ℕ → Option (List ℕ)
new_span_id is_valid read round zero = none
new_span_id is_valid read round (suc rounds) =
    let rest = new_span_id is_valid read (round + 1) rounds in
    or_else (usable is_valid (read round)) rest
