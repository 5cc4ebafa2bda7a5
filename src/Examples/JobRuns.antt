-- ===== src/Examples/JobRuns.antt =====
-- Runs of platform/k8s/reconcilers on the cluster of Examples/Cluster.
use muto.Prelude.{
  String, ◌==◌, Option, none, some, List, [], ◌∷◌, ok, refl, ◌≡◌, count, arith, eq_refl,
  if◌then◌else◌,
}
use muto.Prelude.Int.{pos, ◌+ℤ◌, int32}
use muto.Agent.{unset, running, succeeded}
use muto.K8s.Types.{AgentJob, AgentFleet}
use muto.K8s.Objects.{Pod}
use muto.K8s.AgentJob.{create_roles, reconcile_running, reconcile}
use muto.K8s.AgentJob.Verdict.{by_counts, reconcile_running_counts}
use muto.K8s.AgentJob.Pods
use muto.K8s.AgentJob.Pods.{replicas_of, build_pod, decimal}
use muto.K8s.AgentJob.{reconcile_pending, reconcile_terminating, create_replicas, delete_pods}
use muto.K8s.AgentJob.PodsGone.{AllReleased, reconcile_terminating_ok}
use muto.K8s.AgentJob.Store.{Next}
use muto.K8s.AgentJob.Reconciled.{reconcile-Next}
use muto.K8s.Controllers.{Controller, Event, Request, Queueing, is_same, is_among, kind_name}
use muto.K8s.AgentJob.Progress.{HasProgress, reconcile-HasProgress}
use muto.K8s.AgentJob.Bounded.{History, History-bounded}
use muto.K8s.AgentJob.{dispatch}
use muto.K8s.Answer.{observe_reconcile}
use muto.Scheduler.{initial_phase}
use muto.Prelude.{Option, Bool, true, false, ap, ◌≢◌, ◌≤◌}
use muto.K8s.AgentFleet.{zero_counts}
use muto.K8s.AgentFleet as Fleet
use muto.K8s.AgentFleet.Counts.{
  answers, is_found, is_running, is_completed, counts, after_reads, written, reconcile_exact,
}
use muto.Examples.Cluster.{Cluster, server, server_job_store}
use muto.Examples.Cluster.Graceful.{graceful, graceful-PodStore}
use muto.Examples.Fixtures.{job_in, with_job, ending, with_pod}

reconcile-Next_example :
    Next
      (job_in unset none)
      (reconcile server (with_job (job_in unset none)) "acme" "job-1").world.job
unfolding server_job_store
reconcile-Next_example =
    reconcile-Next server "acme" "job-1" (server_job_store "acme" "job-1")
      (with_job (job_in unset none)) (job_in unset none) refl

reconcile_running_counts_example :
    reconcile_running server (with_job (job_in running none)) (job_in running none)
    ≡ by_counts server
        (job_in running none)
        (server.list_pods (with_job (job_in running none)) "acme" "muto.io/job" "job-1")
reconcile_running_counts_example =
    reconcile_running_counts server (with_job (job_in running none)) (job_in running none)

-- Finished at 10 s, with 60 s to live, at 100 s.
abbrev old : AgentJob
old = job_in succeeded (some (pos 10000000000))

abbrev busy : Cluster
busy = with_job (job_in running none)

-- The second job does not exist.
abbrev refs : List String
refs = "job-1" ∷ "job-2" ∷ []

abbrev fleet : AgentFleet
fleet = record {
  name = "fleet-1";
  namespace = "acme";
  spec = record { tenant_ref = "acme"; job_refs = refs };
  status = zero_counts;
}

abbrev with_fleet : Cluster
with_fleet = record busy { fleet = some fleet }

reconcile_exact_example :
    Fleet.reconcile server with_fleet "acme" "fleet-1"
    ≡ observe_reconcile server "agentfleet" (
        written server (
          server.update_fleet_status (after_reads server with_fleet "acme" refs) (record fleet {
            status =
                counts
                  (count is_found (answers server with_fleet "acme" refs))
                  (count is_running (answers server with_fleet "acme" refs))
                  (count is_completed (answers server with_fleet "acme" refs));
          })))
reconcile_exact_example =
    reconcile_exact server with_fleet "acme" "fleet-1" fleet refl (omega arith)

reconcile_terminating_ok_example :
    (ps : List Pod) × ((graceful.list_pods (with_pod, []) "acme" "muto.io/job" "job-1").1 ≡ ok ps)
    × AllReleased graceful graceful-PodStore
        (reconcile_terminating graceful (with_pod, []) ending).world
        ps
    × ((reconcile_terminating graceful (with_pod, []) ending).world
        ≡ (graceful.delete_job
            (delete_pods graceful
              (graceful.list_pods (with_pod, []) "acme" "muto.io/job" "job-1").0
              ps).0
            "acme"
            "job-1").0)
unfolding reconcile_terminating delete_pods
reconcile_terminating_ok_example =
    reconcile_terminating_ok graceful graceful-PodStore (with_pod, []) ending refl

abbrev runs : Option AgentJob → Bool
runs none = false
runs (some j) = elim j.status.phase [ running ↦ true | _ ↦ false ]

abbrev begun_job : Cluster
begun_job = with_job (job_in unset none)

first_change : (reconcile server begun_job "acme" "job-1").world.job ≢ begun_job.job
unfolding reconcile reconcile_pending create_roles create_replicas build_pod replicas_of decimal
    observe_reconcile dispatch initial_phase int32 ◌+ℤ◌
first_change same = let e : true ≡ false = ap runs same in cc

History-bounded_example : 1 ≤ 4
unfolding server_job_store
History-bounded_example =
    History-bounded server "acme" "job-1" (server_job_store "acme" "job-1")
      (History.changing (History.begun {w = begun_job}) first_change)

-- The request for the controller of an object, if it is of the kind.
abbrev owner_request : Event → String → Option (String × String) → List Request
owner_request e kind none = []
owner_request e kind (some (owner_kind, name)) =
    if owner_kind == kind then record { namespace = e.namespace; name = name } ∷ [] else []

-- controller-runtime, by its documentation.
abbrev queue : Controller → Event → List Request
queue ctl e =
    if is_same e.kind ctl.primary
    then record { namespace = e.namespace; name = e.name } ∷ []
    else if is_among e.kind ctl.owned
    then owner_request e (kind_name ctl.primary) e.owner
    else []

queue-Queueing : Queueing queue
queue-Queueing = record {
  for_lem = λ ctl e h. rw h refl;
  owns_lem = λ ctl e name h k own. rw (h, k, own) (ground (arith, eq_refl (kind_name ctl.primary)));
  others = λ ctl e h k. rw (h, k) refl;
}

reconcile-HasProgress_example :
    HasProgress server "acme" "job-1"
      (server_job_store "acme" "job-1")
      queue
      begun_job
      (job_in unset none)
      (reconcile server begun_job "acme" "job-1")
unfolding reconcile reconcile_pending create_roles create_replicas build_pod replicas_of decimal
    observe_reconcile dispatch initial_phase int32 ◌+ℤ◌
reconcile-HasProgress_example =
    reconcile-HasProgress server "acme" "job-1" (server_job_store "acme" "job-1") queue
      queue-Queueing begun_job (job_in unset none) refl
