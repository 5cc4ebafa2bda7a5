-- ===== src/Examples/CourseRuns.antt =====
-- A run of platform/k8s/reconcilers on the cluster of Examples/Cluster: a job from its start to its end.
use muto.Prelude.{
  none, some, List, [], ◌∷◌, Result, ok, err, refl, ◌≡◌, ◌⊎◌, inl, inr, arith, ap, subst, sym,
  length, count, eqb, true, false,
}
use mathlib.Core.Option.{some-injective}
use muto.Prelude.Int.{pos, ◌+ℤ◌, ◌-ℤ◌, int32, ltb_ℤ}
use muto.Agent.{unset, running, succeeded, terminating}
use muto.Scheduler.{initial_phase}
use muto.K8s.Types.{AgentJob}
use muto.K8s.Objects.{Pod, PodPhase, ApiError}
use muto.K8s.Answer.{observe_reconcile, seconds}
use muto.K8s.AgentJob.{
  create_roles, create_replicas, reconcile_pending, reconcile_running, reconcile_terminal, finished,
  outcome, scan, dispatch, reconcile,
}
use muto.K8s.AgentJob.Pods.{replicas_of, build_pod, decimal}
use muto.K8s.AgentJob.Verdict.{over}
use muto.K8s.AgentJob.Progress.{IsAtRest, Waits}
use muto.K8s.AgentJob.Completing.{Unhindered, Course, Course-terminates}
use muto.Examples.Cluster.{Cluster, server, server_job_store}
use muto.Examples.Fixtures.{job_in, with_job, fresh, pod}

abbrev new_job : AgentJob
new_job = job_in unset none

abbrev started_job : AgentJob
started_job = record new_job {
  status = record {
    phase = running;
    active_agents = pos 3;
    started_at = some (pos 100000000000);
    completed_at = none;
  };
}

abbrev finished_job : AgentJob
finished_job = record new_job {
  status = record {
    phase = succeeded;
    active_agents = pos 0;
    started_at = some (pos 100000000000);
    completed_at = some (pos 100000000000);
  };
}

abbrev over_pods : List Pod
over_pods = record pod { phase = PodPhase.succeeded } ∷ []

-- The pods are over, and the time to live has passed.
abbrev worked : Cluster
worked = record (with_job started_job) { pods = over_pods }

abbrev later : Cluster
later = record (with_job finished_job) { clock = pos 160000000000 }

new_awake : ¬ Waits server "acme" "job-1" (server_job_store "acme" "job-1") fresh new_job
new_awake (inl (p, _)) = cc
new_awake (inr (inl p, _)) = cc
new_awake (inr (inr p, _)) = cc

new_unfinished : ¬ IsAtRest server "acme" "job-1" (server_job_store "acme" "job-1") new_job
new_unfinished (inl (inl p, _)) = cc
new_unfinished (inl (inr p, _)) = cc
new_unfinished (inr (inl (p, _))) = cc
new_unfinished (inr (inr (q, p))) = cc

first_call : Unhindered server "acme" "job-1" (server_job_store "acme" "job-1") fresh
unfolding reconcile reconcile_pending create_roles create_replicas build_pod replicas_of decimal
    observe_reconcile dispatch initial_phase int32 ◌+ℤ◌
first_call = record {
  job = new_job;
  read = refl;
  quiet = refl;
  awake = new_awake;
  unfinished = new_unfinished;
}

listed : Result ApiError (List Pod) → List Pod
listed (ok l) = l
listed (err e) = []

all_over : (length over_pods ≡ 0) ⊎ (eqb (count over over_pods) (length over_pods) ≡ false) → ⊥
all_over (inl e) = omega (arith, e)
all_over (inr e) = cc

started_awake : ¬ Waits server "acme" "job-1" (server_job_store "acme" "job-1") worked started_job
unfolding listed
started_awake (inl (p, (pods, e, work))) =
    all_over (
      subst (λ l. (length l ≡ 0) ⊎ (eqb (count over l) (length l) ≡ false)) (sym (ap listed e))
        work)
started_awake (inr (inl p, _)) = cc
started_awake (inr (inr p, _)) = cc

started_unfinished : ¬ IsAtRest server "acme" "job-1" (server_job_store "acme" "job-1") started_job
started_unfinished (inl (inl p, _)) = cc
started_unfinished (inl (inr p, _)) = cc
started_unfinished (inr (inl (p, _))) = cc
started_unfinished (inr (inr (q, p))) = cc

second_call : Unhindered server "acme" "job-1" (server_job_store "acme" "job-1") worked
unfolding reconcile reconcile_running finished scan outcome observe_reconcile dispatch
second_call = record {
  job = started_job;
  read = refl;
  quiet = refl;
  awake = started_awake;
  unfinished = started_unfinished;
}

finished_awake : ¬ Waits server "acme" "job-1" (server_job_store "acme" "job-1") later finished_job
unfolding ◌-ℤ◌ ◌+ℤ◌
finished_awake (inl (p, _)) = cc
finished_awake (inr (_, inl limit)) = omega (arith, limit)
finished_awake (inr (_, inr (inl e))) = cc
finished_awake (inr (_, inr (inr (t, e, left)))) =
    let at : pos 100000000000 ≡ t = some-injective (pos 100000000000) t e in
    let none_left : ltb_ℤ (pos 160000000000 -ℤ pos 100000000000) (seconds (pos 60)) ≡ true =
      subst (λ x. ltb_ℤ (pos 160000000000 -ℤ x) (seconds (pos 60)) ≡ true) (sym at) left in
    cc

finished_unfinished :
    ¬ IsAtRest server "acme" "job-1" (server_job_store "acme" "job-1") finished_job
finished_unfinished (inl (_, inl limit)) = omega (arith, limit)
finished_unfinished (inl (_, inr e)) = cc
finished_unfinished (inr (inl (p, _))) = cc
finished_unfinished (inr (inr (q, p))) = cc

third_call : Unhindered server "acme" "job-1" (server_job_store "acme" "job-1") later
unfolding reconcile reconcile_terminal observe_reconcile dispatch ◌-ℤ◌ ◌+ℤ◌
third_call = record {
  job = finished_job;
  read = refl;
  quiet = refl;
  awake = finished_awake;
  unfinished = finished_unfinished;
}

abbrev course :
    Course server "acme" "job-1"
      (server_job_store "acme" "job-1")
      3
      fresh
      (reconcile server later "acme" "job-1").world
unfolding reconcile reconcile_pending create_roles create_replicas build_pod replicas_of decimal
    observe_reconcile dispatch initial_phase int32 ◌+ℤ◌ reconcile_running finished scan outcome
    server_job_store
course =
    Course.served
      (Course.elsewhere
        (Course.served (Course.elsewhere (Course.served Course.begun first_call) refl) second_call)
        refl)
      third_call

Course-terminates_example :
    (j : AgentJob) × ((reconcile server later "acme" "job-1").world.job ≡ some j)
    × (j.status.phase ≡ terminating)
unfolding server_job_store initial_phase
Course-terminates_example =
    Course-terminates server "acme" "job-1" (server_job_store "acme" "job-1") course new_job refl
      refl
