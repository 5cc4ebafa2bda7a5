-- ===== src/Metrics/Balance.antt =====
-- platform/k8s/metrics/metrics.go and core/metrics/metrics.go: the values of the gauges and of the counter of
-- jobs, by the calls of the reconcilers.
use muto.Prelude.{
  ◌≡◌, String, ◌==◌, ◌&&◌, Bool, true, false, List, [], ◌∷◌, sym, some, none, arith, if◌then◌else◌,
}
use muto.Prelude.Int.{ℤ, pos, ◌+ℤ◌}
use muto.Metrics.{
  Instrument, jobs_total, Measurement, add, observe, Meters, Call, reconciled, started, finished,
  take_call, take_calls, observe_call, job_started, job_finished, record_reconcile,
  record_job_started, record_job_finished, one,
}
use muto.Metrics.Mirror.{take_calls-mirrors}
use muto.Metrics.Gauges.{
  gauge, is_depth, is_agents, depth_change, agents_change, sum, zero_+ℤ, added, take_calls-gauges,
}

abbrev is_jobs : Instrument → Bool
is_jobs jobs_total = true
is_jobs _ = false

abbrev is_pair : String → String → List String → Bool
is_pair tenant status (t ∷ s ∷ []) = (t == tenant) && (s == status)
is_pair tenant status _ = false

-- The value of the counter of jobs for a tenant and a status: what was added to it.
abbrev pub jobs_counted : String → String → List Measurement → ℤ
jobs_counted tenant status [] = pos 0
jobs_counted tenant status (add i labels n ∷ rest) =
    let value = jobs_counted tenant status rest in
    if is_jobs i then (if is_pair tenant status labels then n +ℤ value else value) else value
jobs_counted tenant status (observe i labels n ∷ rest) = jobs_counted tenant status rest

-- The tenant's jobs that finished with the status.
abbrev pub jobs_change : String → String → Call → ℤ
jobs_change tenant status (reconciled r result duration) = pos 0
jobs_change tenant status (started t n) = pos 0
jobs_change tenant status (finished now t s at n) =
    if (t == tenant) && (s == status) then one else pos 0

take_call-jobs :
    (tenant status : String) (c : Call) (m : Meters)
    → jobs_counted tenant status (take_call c m).prometheus
      ≡ jobs_change tenant status c +ℤ jobs_counted tenant status m.prometheus
unfolding take_call observe_call job_started job_finished record_reconcile record_job_started
    record_job_finished
take_call-jobs tenant status (reconciled r result duration) m = sym (zero_+ℤ _)
take_call-jobs tenant status (started t n) m = sym (zero_+ℤ _)
take_call-jobs tenant status (finished now t s none n) m =
    ground (arith, zero_+ℤ (jobs_counted tenant status m.prometheus))
take_call-jobs tenant status (finished now t s (some at) n) m =
    ground (arith, zero_+ℤ (jobs_counted tenant status m.prometheus))

take_calls-jobs :
    (tenant status : String) (cs : List Call) (m : Meters)
    → jobs_counted tenant status (take_calls cs m).prometheus
      ≡ sum (jobs_change tenant status) cs +ℤ jobs_counted tenant status m.prometheus
take_calls-jobs tenant status [] m = sym (zero_+ℤ _)
take_calls-jobs tenant status (c ∷ cs) m =
    added _ _ _ _ _ (take_calls-jobs tenant status cs (take_call c m))
      (take_call-jobs tenant status c m)

-- When Prometheus and OTLP have recorded the same so far, every sequence of calls of the reconcilers keeps
-- them the same, measurement by measurement. For each tenant the queue depth has then changed by its jobs
-- that started less those that finished, the running agents by the agents of the ones less those
-- of the others, and the count of its jobs of a status by those that finished with it.
pub take_calls-balance :
    (tenant status : String) (cs : List Call) (m : Meters)
    → m.otlp ≡ some m.prometheus
    → ((take_calls cs m).otlp ≡ some (take_calls cs m).prometheus)
      × (gauge is_depth tenant (take_calls cs m).prometheus
          ≡ sum (depth_change tenant) cs +ℤ gauge is_depth tenant m.prometheus)
      × (gauge is_agents tenant (take_calls cs m).prometheus
          ≡ sum (agents_change tenant) cs +ℤ gauge is_agents tenant m.prometheus)
      × (jobs_counted tenant status (take_calls cs m).prometheus
          ≡ sum (jobs_change tenant status) cs +ℤ jobs_counted tenant status m.prometheus)
take_calls-balance tenant status cs m h =
    let (depth, agents) = take_calls-gauges tenant cs m in
    (take_calls-mirrors cs m h, depth, agents, take_calls-jobs tenant status cs m)
