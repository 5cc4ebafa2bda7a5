-- ===== src/Metrics/Mirror.antt =====
-- core/metrics/metrics.go: "mirrors platform/k8s/metrics".
use muto.Prelude.{◌≡◌, some, List, [], ◌∷◌, arith}
use muto.Metrics.{
  Meters, Call, reconciled, started, finished, take_call, take_calls, observe_call, job_started,
  job_finished, record_reconcile, record_job_started, record_job_finished,
}

take_call-mirrors :
    (c : Call) (m : Meters)
    → m.otlp ≡ some m.prometheus
    → (take_call c m).otlp ≡ some (take_call c m).prometheus
unfolding take_call observe_call job_started job_finished record_reconcile record_job_started
    record_job_finished
take_call-mirrors (reconciled reconciler status duration) m h = ground arith
take_call-mirrors (started tenant n) m h = ground arith
take_call-mirrors (finished now tenant status started_at n) m h = ground arith

-- From the moment when both are empty, or agree, every sequence of calls leaves Prometheus and OTLP with
-- the same measurements in the same order.
pub take_calls-mirrors :
    (cs : List Call) (m : Meters)
    → m.otlp ≡ some m.prometheus
    → (take_calls cs m).otlp ≡ some (take_calls cs m).prometheus
take_calls-mirrors [] m h = h
take_calls-mirrors (c ∷ cs) m h = take_calls-mirrors cs (take_call c m) (take_call-mirrors c m h)
