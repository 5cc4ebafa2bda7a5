-- ===== src/Examples/GaugeRuns.antt =====
-- A job on the cluster of Examples/Cluster, with the meters beside it.
use muto.Prelude.{String, Option, eq_iff, true, none, some, List, [], ◌∷◌, ok, ◌≡◌, refl, arith}
use muto.Prelude.Int.{ℤ, pos, ◌+ℤ◌, int32}
use muto.Agent.{unset}
use muto.K8s.Types.{AgentJob, Tenant}
use muto.K8s.AgentJob.{
  reconcile_pending, create_roles, create_replicas, finished, outcome, as_started,
}
use muto.K8s.AgentJob.Pods.{replicas_of, build_pod, decimal}
use muto.K8s.AgentJob.Gauged.{metered, total_of, gauges-restored}
use muto.Metrics.{Meters, Call, take_calls}
use muto.Metrics.Gauges.{gauge, is_depth, is_agents}
use muto.Examples.Cluster.{Cluster, read_tenant, server}
use muto.Examples.Fixtures.{job_in, with_job, fresh}

abbrev instant : Cluster → ℤ
instant w = pos 0

abbrev empty : Meters
empty = record { prometheus = []; otlp = some [] }

abbrev other_calls : List Call
other_calls = Call.started "other" (pos 1) ∷ []

abbrev first : AgentJob
first = job_in unset none

abbrev later : AgentJob
later = as_started (pos 0) (total_of first) first

found_by_name :
    (v : Cluster) (n : String) (t : Tenant) → (server.get_tenant v "" n).1 ≡ ok t → t.name ≡ n
found_by_name v n t h = by_tenant v.tenant h
  where
    by_tenant : (o : Option Tenant) → read_tenant o n ≡ ok t → t.name ≡ n
    by_tenant none k = ground arith
    by_tenant (some u) k = ground (arith, eq_iff u.name n)

abbrev closed : Meters
closed =
    (finished (metered server instant)
      (
        with_job later,
        take_calls other_calls
            (reconcile_pending (metered server instant) (fresh, empty) first).world.1,
      )
      later true).world.1

gauges-restored_example :
    (gauge is_depth "acme" closed.prometheus
      ≡ gauge is_depth "acme" (take_calls other_calls empty).prometheus)
    × (gauge is_agents "acme" closed.prometheus
        ≡ gauge is_agents "acme" (take_calls other_calls empty).prometheus)
unfolding metered reconcile_pending create_roles create_replicas replicas_of build_pod decimal
    finished outcome int32 ◌+ℤ◌
gauges-restored_example =
    gauges-restored server instant found_by_name fresh (with_job later) empty first later
      other_calls true "acme" refl refl refl refl
