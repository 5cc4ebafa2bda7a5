-- ===== src/Metrics.antt =====
-- core/metrics/metrics.go and platform/k8s/metrics/metrics.go: what is recorded, for Prometheus and,
-- once Init has made the instruments, for OTLP.
pub mod Mirror
pub mod Gauges
pub mod Balance
pub mod Collectors
use muto.Prelude.{String, Option, none, some, List, [], ◌∷◌, ◌++◌}
use muto.Prelude.Int.{ℤ, pos, negsuc, ◌-ℤ◌}

pub data Instrument : Type 0 where
  reconciliations_total reconciliation_duration : Instrument
  jobs_total job_duration : Instrument
  agents_running job_queue_depth : Instrument

-- A counter or a gauge is added to, a histogram observes a duration, here in nanoseconds. The labels
-- are (reconciler, result), (reconciler), (tenant, status) or (tenant), as the instrument has them.
pub data Measurement : Type 0 where
  add : Instrument → List String → ℤ → Measurement
  observe : Instrument → List String → ℤ → Measurement

-- What was recorded, the last first; `otlp` is `none` while `active` is nil.
pub record Meters : Type 0 where
  pub prometheus : List Measurement
  pub otlp : Option (List Measurement)

abbrev pub one : ℤ
one = pos 1

abbrev pub minus : ℤ → ℤ
minus a = pos 0 -ℤ a

-- The measurements join the earlier ones.
abbrev recorded : List Measurement → Option (List Measurement) → Option (List Measurement)
recorded new none = none
recorded new (some old) = some (new ++ old)

abbrev with_otlp : List Measurement → Meters → Meters
with_otlp new m = record m { otlp = recorded new m.otlp }

abbrev with_prometheus : List Measurement → Meters → Meters
with_prometheus new m = record m { prometheus = new ++ m.prometheus }

unfoldable pub record_reconcile : String → String → ℤ → Meters → Meters
record_reconcile reconciler status duration = with_otlp (
    add reconciliations_total (reconciler ∷ status ∷ []) one
    ∷ observe reconciliation_duration (reconciler ∷ []) duration
    ∷ [])

unfoldable pub record_job_started : String → ℤ → Meters → Meters
record_job_started tenant agent_count =
    with_otlp
      (add job_queue_depth (tenant ∷ []) one ∷ add agents_running (tenant ∷ []) agent_count ∷ [])

abbrev timed : String → String → Option ℤ → List Measurement
timed tenant status none = []
timed tenant status (some duration) = observe job_duration (tenant ∷ status ∷ []) duration ∷ []

-- `duration` is `none` without hasDuration.
unfoldable pub record_job_finished : String → String → Option ℤ → ℤ → Meters → Meters
record_job_finished tenant status duration active_agents = with_otlp (
    add job_queue_depth (tenant ∷ []) (minus one)
    ∷ add agents_running (tenant ∷ []) (minus active_agents)
    ∷ (timed tenant status duration ++ (add jobs_total (tenant ∷ status ∷ []) one ∷ [])))

-- What ObserveReconcile records of a call.
unfoldable pub observe_call : String → String → ℤ → Meters → Meters
unfolding record_reconcile
observe_call reconciler status duration m = record_reconcile reconciler status duration (
    with_prometheus
      (add reconciliations_total (reconciler ∷ status ∷ []) one
        ∷ observe reconciliation_duration (reconciler ∷ []) duration
        ∷ [])
      m)

unfoldable pub job_started : String → ℤ → Meters → Meters
unfolding record_job_started
job_started tenant agent_count m = record_job_started tenant agent_count (
    with_prometheus
      (add job_queue_depth (tenant ∷ []) one ∷ add agents_running (tenant ∷ []) agent_count ∷ []) m)

-- `time.Since(startedAt)`, unless the start is the zero time.
abbrev since : ℤ → Option ℤ → Option ℤ
since now none = none
since now (some started_at) = some (now -ℤ started_at)

unfoldable pub job_finished : ℤ → String → String → Option ℤ → ℤ → Meters → Meters
unfolding record_job_finished
job_finished now tenant status started_at active_agents m =
    record_job_finished tenant status (since now started_at) active_agents (
      with_prometheus
        (add job_queue_depth (tenant ∷ []) (minus one)
          ∷ add agents_running (tenant ∷ []) (minus active_agents)
          ∷ (timed tenant status (since now started_at)
              ++ (add jobs_total (tenant ∷ status ∷ []) one ∷ [])))
        m)

-- The calls of the reconcilers.
pub data Call : Type 0 where
  reconciled : String → String → ℤ → Call
  started : String → ℤ → Call
  finished : ℤ → String → String → Option ℤ → ℤ → Call

unfoldable pub take_call : Call → Meters → Meters
unfolding observe_call job_started job_finished
take_call (reconciled reconciler status duration) = observe_call reconciler status duration
take_call (started tenant agent_count) = job_started tenant agent_count
take_call (finished now tenant status started_at active_agents) =
    job_finished now tenant status started_at active_agents

abbrev pub take_calls : List Call → Meters → Meters
take_calls [] m = m
take_calls (c ∷ cs) m = take_calls cs (take_call c m)
