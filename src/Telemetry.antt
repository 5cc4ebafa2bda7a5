-- ===== src/Telemetry.antt =====
-- Init of core/tracing/tracing.go and core/metrics/metrics.go, and core/shutdown/shutdown.go: what is
-- made of OpenTelemetry, and what is shut down.
use muto.Prelude.{
  String, ◌==◌, ◌&&◌, Bool, Option, none, some, List, [], ◌∷◌, Result, ok, err, if◌then◌else◌,
}

-- The two signals that can be exported.
pub data Signal : Type 0 where
  traces metrics : Signal

-- What happens to the exporters and providers, and the global variables that are set.
pub data Act : Type 0 where
  exporter_made exporter_shut provider_made provider_shut provider_set active_set : Signal → Act

pub data ResourceError : Type 0 where
  partial_resource schema_url_conflict other_failure : ResourceError

pub data InitError : Type 0 where
  exporter_failed instruments_failed : String → InitError
  resource_failed : InitError

-- The environment, and how the calls of OpenTelemetry come out in one run of the program.
pub record Sdk : Type 0 where
  pub getenv : String → String
  pub new_exporter : Signal → Option String
  pub new_resource : Signal → Option ResourceError
  pub new_instrument : String → Option String

-- Init gives a function that shuts down a provider, or one that does nothing.
pub data Shutdown : Type 0 where
  nothing : Shutdown
  provider : Signal → Shutdown

-- The acts so far, the last first.
abbrev pub Acts : Type 0
Acts = List Act

module _ (sdk : Sdk) where
  -- `none` is the resource; of an error only its kind matters.
  unfoldable pub build_resource : Signal → Option InitError
  build_resource signal = elim (sdk.new_resource signal) [
    | none ↦ none
    | some e ↦ elim e [
      | partial_resource ↦ none
      | schema_url_conflict ↦ none
      | other_failure ↦ some resource_failed
    ]
  ]

  -- `os.Getenv(a) == "" && os.Getenv(b) == ""`
  abbrev pub is_off : String → Bool
  is_off endpoint = (sdk.getenv "OTEL_EXPORTER_OTLP_ENDPOINT" == "") && (sdk.getenv endpoint == "")

  first_failure : List String → Option String
  first_failure [] = none
  first_failure (name ∷ names) = elim (sdk.new_instrument name) [
    | some e ↦ some e
    | none ↦ first_failure names
  ]

  -- The first instrument that cannot be made ends it.
  unfoldable pub new_instruments : Option String
  unfolding first_failure
  new_instruments = first_failure (
      "muto.reconciliations.total" ∷ "muto.reconciliation.duration" ∷ "muto.jobs.total"
      ∷ "muto.job.duration" ∷ "muto.agents.running" ∷ "muto.job.queue_depth" ∷ [])

  -- tracing.Init after the exporter.
  traced : Acts → Option InitError → Acts × Result InitError Shutdown
  traced acts (some e) = (exporter_shut traces ∷ acts, err e)
  traced acts none = (provider_set traces ∷ provider_made traces ∷ acts, ok (provider traces))

  -- metrics.Init after the provider.
  metered : Acts → Option String → Acts × Result InitError Shutdown
  metered acts (some e) = (provider_shut metrics ∷ acts, err (instruments_failed e))
  metered acts none = (active_set metrics ∷ provider_set metrics ∷ acts, ok (provider metrics))

  provided : Acts → Option InitError → Acts × Result InitError Shutdown
  unfolding metered
  provided acts (some e) = (exporter_shut metrics ∷ acts, err e)
  provided acts none = metered (provider_made metrics ∷ acts) new_instruments

  exported :
      Signal
      → (Acts → Option InitError → Acts × Result InitError Shutdown)
      → Acts
      → Option String
      → Acts × Result InitError Shutdown
  exported signal rest acts (some e) = (acts, err (exporter_failed e))
  exported signal rest acts none = rest (exporter_made signal ∷ acts) (build_resource signal)

  unfoldable pub init_tracing : Acts → Acts × Result InitError Shutdown
  unfolding exported traced
  init_tracing acts =
      if is_off "OTEL_EXPORTER_OTLP_TRACES_ENDPOINT"
      then (acts, ok nothing)
      else exported traces traced acts (sdk.new_exporter traces)

  unfoldable pub init_metrics : Acts → Acts × Result InitError Shutdown
  unfolding exported provided
  init_metrics acts =
      if is_off "OTEL_EXPORTER_OTLP_METRICS_ENDPOINT"
      then (acts, ok nothing)
      else exported metrics provided acts (sdk.new_exporter metrics)

-- shutdown.Func's Run. Its error is only logged.
unfoldable pub run_shutdown : Shutdown → Acts → Acts
run_shutdown nothing acts = acts
run_shutdown (provider signal) acts = provider_shut signal ∷ acts

-- All: every function runs, whatever the others return; here in the order of the list, which stands for
-- any one.
unfoldable pub run_all : List Shutdown → Acts → Acts
unfolding run_shutdown
run_all [] acts = acts
run_all (f ∷ fs) acts = run_all fs (run_shutdown f acts)
