-- ===== src/Metrics/Collectors.antt =====
-- platform/k8s/metrics/metrics.go and newInstruments of core/metrics/metrics.go: the collectors and
-- instruments, and what may be recorded on each.
use muto.Prelude.{
  ℕ, String, Option, none, some, List, [], ◌∷◌, ◌++◌, ◌≡◌, refl, All, All-append, length, arith,
}
use muto.Prelude.Int.{ℤ, pos, ◌≤ℤ◌}
use muto.Metrics.{
  Instrument, reconciliations_total, reconciliation_duration, jobs_total, job_duration,
  agents_running, job_queue_depth, Measurement, add, observe, Meters, Call, reconciled, started,
  finished, timed, since, one, minus, recorded, with_otlp, with_prometheus, take_call, take_calls,
  observe_call, job_started, job_finished, record_reconcile, record_job_started,
  record_job_finished,
}

-- A gauge is an up-down counter for OTLP.
pub data CollectorKind : Type 0 where
  counter gauge : CollectorKind
  histogram : List ℕ → CollectorKind

-- The names of the labels; the bounds of the buckets in milliseconds.
pub record Collector : Type 0 where
  pub name : String
  pub kind : CollectorKind
  pub labels : List String

-- .001, .005, .01, .05, .1, .5, 1, 5 and 10 seconds.
abbrev pub reconcile_buckets : List ℕ
reconcile_buckets = 1 ∷ 5 ∷ 10 ∷ 50 ∷ 100 ∷ 500 ∷ 1000 ∷ 5000 ∷ 10000 ∷ []

abbrev pub job_buckets : List ℕ
job_buckets = 1000 ∷ 5000 ∷ 15000 ∷ 30000 ∷ 60000 ∷ 300000 ∷ 900000 ∷ 3600000 ∷ []

unfoldable pub collector : Instrument → Collector
collector reconciliations_total = record {
  name = "muto_reconciliations_total";
  kind = counter;
  labels = "reconciler" ∷ "result" ∷ [];
}
collector reconciliation_duration = record {
  name = "muto_reconciliation_duration_seconds";
  kind = histogram reconcile_buckets;
  labels = "reconciler" ∷ [];
}
collector jobs_total = record {
  name = "muto_jobs_total";
  kind = counter;
  labels = "tenant" ∷ "status" ∷ [];
}
collector job_duration = record {
  name = "muto_job_duration_seconds";
  kind = histogram job_buckets;
  labels = "tenant" ∷ "status" ∷ [];
}
collector agents_running = record {
  name = "muto_agents_running";
  kind = gauge;
  labels = "tenant" ∷ [];
}
collector job_queue_depth = record {
  name = "muto_job_queue_depth";
  kind = gauge;
  labels = "tenant" ∷ [];
}

-- What the instrument of the same field in newInstruments is.
unfoldable pub otlp_kind : Instrument → CollectorKind
otlp_kind reconciliations_total = counter
otlp_kind reconciliation_duration = histogram reconcile_buckets
otlp_kind jobs_total = counter
otlp_kind job_duration = histogram job_buckets
otlp_kind agents_running = gauge
otlp_kind job_queue_depth = gauge

-- A counter is never lowered, and nothing is added to a histogram.
abbrev pub MayAdd : CollectorKind → ℤ → Type 0
MayAdd counter n = pos 0 ≤ℤ n
MayAdd gauge n = Unit
MayAdd (histogram bounds) n = ⊥

abbrev pub MayObserve : CollectorKind → Type 0
MayObserve (histogram bounds) = Unit
MayObserve k = ⊥

-- WithLabelValues gets one value for each label, and the call is one of the collector's, for Prometheus
-- and for OTLP.
abbrev pub Fits : Measurement → Type 0
Fits (add i values n) =
    (length values ≡ length (collector i).labels)
    × MayAdd (collector i).kind n
    × MayAdd (otlp_kind i) n
Fits (observe i values d) =
    (length values ≡ length (collector i).labels)
    × MayObserve (collector i).kind
    × MayObserve (otlp_kind i)

abbrev pub OtlpFit : Option (List Measurement) → Type 0
OtlpFit none = Unit
OtlpFit (some ms) = All Fits ms

abbrev AllFit : Meters → Type 0
AllFit m = All Fits m.prometheus × OtlpFit m.otlp

recorded-OtlpFit :
    (new : List Measurement) (o : Option (List Measurement))
    → All Fits new
    → OtlpFit o
    → OtlpFit (recorded new o)
recorded-OtlpFit new none f h = tt
recorded-OtlpFit new (some old) f h = All-append Fits new old f h

extend-AllFit :
    (new : List Measurement) (m : Meters)
    → All Fits new
    → AllFit m
    → AllFit (with_otlp new (with_prometheus new m))
extend-AllFit new m f h =
    (All-append Fits new m.prometheus f h.0, recorded-OtlpFit new m.otlp f h.1)

timed-Fits :
    (tenant status : String) (duration : Option ℤ) → All Fits (timed tenant status duration)
unfolding collector otlp_kind
timed-Fits tenant status none = tt
timed-Fits tenant status (some d) = ((refl, tt, tt), tt)

take_call-AllFit : (c : Call) (m : Meters) → AllFit m → AllFit (take_call c m)
unfolding take_call observe_call job_started job_finished record_reconcile record_job_started
    record_job_finished collector otlp_kind
take_call-AllFit (reconciled reconciler status d) m h =
    extend-AllFit
      (add reconciliations_total (reconciler ∷ status ∷ []) one
        ∷ observe reconciliation_duration (reconciler ∷ []) d
        ∷ [])
      m ((refl, omega arith, omega arith), ((refl, tt, tt), tt)) h
take_call-AllFit (started tenant n) m h =
    extend-AllFit (add job_queue_depth (tenant ∷ []) one ∷ add agents_running (tenant ∷ []) n ∷ [])
      m ((refl, tt, tt), ((refl, tt, tt), tt)) h
take_call-AllFit (finished now tenant status started_at n) m h =
    extend-AllFit
      (add job_queue_depth (tenant ∷ []) (minus one)
        ∷ add agents_running (tenant ∷ []) (minus n)
        ∷ (timed tenant status (since now started_at)
            ++ (add jobs_total (tenant ∷ status ∷ []) one ∷ [])))
      m
      (
        (refl, tt, tt),
        (
          (refl, tt, tt),
          All-append Fits (timed tenant status (since now started_at))
              (add jobs_total (tenant ∷ status ∷ []) one ∷ [])
              (timed-Fits tenant status (since now started_at))
              ((refl, omega arith, omega arith), tt),
        ),
      )
      h

-- On top of measurements that fit, every sequence of calls records only measurements that fit, for
-- Prometheus and for OTLP: one value for each label of the collector, durations on histograms and
-- nothing else there, and no negative number on a counter.
take_calls-AllFit : (cs : List Call) (m : Meters) → AllFit m → AllFit (take_calls cs m)
take_calls-AllFit [] m h = h
take_calls-AllFit (c ∷ cs) m h = take_calls-AllFit cs (take_call c m) (take_call-AllFit c m h)
