-- ===== src/K8s/AgentJob.antt =====
-- platform/k8s/reconcilers/agentjob_reconciler.go: AgentJobReconciler. One call of Reconcile is a
-- function of the cluster's state; every call of the API server may change that state.
pub mod Pods
pub mod Names
pub mod Plan
pub mod Verdict
pub mod Ttl
pub mod Store
pub mod Lifecycle
pub mod Reconciled
pub mod Bounded
pub mod Advancing
pub mod Progress
pub mod Completing
pub mod Owned
pub mod Gauged
pub mod PodsMade
pub mod PodsGone
use mathlib.Core.Option
use muto.Prelude.{
  ℕ, zero, suc, ◌+◌, ◌*◌, String, ◌<>◌, ◌==◌, Bool, true, false, ◌&&◌, ◌||◌, not, Option, none,
  some, List, [], ◌∷◌, Result, ok, err, if◌then◌else◌, ltb, leb,
}
use muto.Prelude.Int.{ℤ, pos, pos_part, neg_part, ◌+ℤ◌, ◌-ℤ◌, ltb_ℤ, leb_ℤ, int32}
use muto.Agent.{Phase, unset, pending, running, succeeded, failed, terminating}
use muto.K8s.Types.{AgentJob, AgentRoleSpec, Tenant}
use muto.K8s.Objects.{Pod, PodPhase, ApiError, not_found, already_exists}
use muto.K8s.Client.{Client}
use muto.K8s.Answer.{
  Answer, Error, get_tenant_failed, create_pod_failed, list_pods_failed, delete_job_failed, api,
  delete_pod_failed, second, seconds, done, fails, requeue, is_already_exists, is_not_found,
  ignore_not_found, observe_reconcile,
}
use Pods.{replicas_of, build_pod}

-- What reconcileRunning reads off the pods.
abbrev pub is_over : PodPhase → Bool
is_over PodPhase.succeeded = true
is_over PodPhase.failed = true
is_over (PodPhase.other p) = false

abbrev pub has_failed : PodPhase → Bool
has_failed PodPhase.failed = true
has_failed _ = false

unfoldable pub scan : List Pod → Bool → Bool → Bool × Bool
scan [] all_done any_failed = (all_done, any_failed)
scan (p ∷ ps) all_done any_failed =
    scan ps (all_done && is_over p.phase) (any_failed || has_failed p.phase)

-- `strings.ToLower(phase)` of the two phases that a finished job can get.
unfoldable pub outcome : Bool → Phase × String
outcome true = (failed, "failed")
outcome false = (succeeded, "succeeded")

-- The job with the status that each write stores.
abbrev pub as_started : ℤ → ℤ → AgentJob → AgentJob
as_started now total job = record job {
  status = record job.status { phase = running; active_agents = total; started_at = some now };
}

abbrev pub as_finished : ℤ → Phase → AgentJob → AgentJob
as_finished now phase job = record job {
  status = record job.status { completed_at = some now; active_agents = pos 0; phase = phase };
}

abbrev pub as_terminating : AgentJob → AgentJob
as_terminating job = record job { status = record job.status { phase = terminating } }

module _ {W : Type 0} (c : Client W) where
  -- The inner loop of reconcilePending: `left` replicas from index `i` on.
  unfoldable pub create_replicas : W → AgentJob → AgentRoleSpec → Tenant → ℕ → ℕ → W × Option Error
  create_replicas w job role tenant zero i = (w, none)
  create_replicas w job role tenant (suc left) i =
      let (w', failure) = c.create_pod w (build_pod job role tenant i) in
      let rest = create_replicas w' job role tenant left (suc i) in
      elim failure [
        | none ↦ rest
        | some e ↦ if is_already_exists e then rest else (w', some (create_pod_failed e))
      ]

  -- The outer loop: the sum of the replicas, or the first error.
  unfoldable pub create_roles : W → AgentJob → Tenant → ℤ → List AgentRoleSpec → W × Result Error ℤ
  create_roles w job tenant total [] = (w, ok total)
  create_roles w job tenant total (role ∷ roles) =
      let replicas = replicas_of role in
      let (w', failure) = create_replicas w job role tenant (pos_part replicas) 0 in
      elim failure [
        | some e ↦ (w', err e)
        | none ↦ create_roles w' job tenant (total +ℤ replicas) roles
      ]

  started : AgentJob → Tenant → W × Result Error ℤ → Answer W
  started job tenant (w, err e) = fails w e
  started job tenant (w, ok total) =
      let (w', failure) = c.update_job_status w (as_started (c.now w) (int32 total) job) in
      elim failure [
        | some e ↦ fails w' (api e)
        | none ↦ done (c.job_started w' tenant.name (int32 total))
      ]

  unfoldable pub reconcile_pending : W → AgentJob → Answer W
  unfolding started
  reconcile_pending w job =
      let (w', found) = c.get_tenant w "" job.spec.tenant_ref in
      elim found [
        | err e ↦ fails w' (get_tenant_failed job.spec.tenant_ref e)
        | ok tenant ↦ started job tenant (create_roles w' job tenant (pos 0) job.spec.agents)
      ]

  unfoldable pub finished : W → AgentJob → Bool → Answer W
  unfolding outcome
  finished w job any_failed =
      let (phase, label) = outcome any_failed in
      let (w', failure) = c.update_job_status w (as_finished (c.now w) phase job) in
      elim failure [
        | some e ↦ fails w' (api e)
        | none ↦
            requeue
              (c.job_finished w' job.spec.tenant_ref label job.status.started_at
                job.status.active_agents)
              (seconds job.spec.ttl_after_completion)
      ]

  judge : W → AgentJob → List Pod → Answer W
  unfolding finished
  judge w job [] = requeue w (pos second)
  judge w job (p ∷ ps) =
      let (all_done, any_failed) = scan (p ∷ ps) true false in
      if not all_done then requeue w (pos (5 * second)) else finished w job any_failed

  judge_listed : AgentJob → W × Result ApiError (List Pod) → Answer W
  judge_listed job (w, err e) = fails w (api e)
  judge_listed job (w, ok pods) = judge w job pods

  unfoldable pub reconcile_running : W → AgentJob → Answer W
  unfolding judge judge_listed
  reconcile_running w job = judge_listed job (c.list_pods w job.namespace "muto.io/job" job.name)

  -- Past the end of its time to live a finished job becomes Terminating.
  expire : W → AgentJob → ℤ → Answer W
  expire w job completed_at =
      let elapsed = c.now w -ℤ completed_at in
      let ttl = seconds job.spec.ttl_after_completion in
      if ltb_ℤ elapsed ttl
      then requeue w (ttl -ℤ elapsed)
      else (let (w', failure) = c.update_job_status w (as_terminating job) in
          record { world = w'; requeue_after = pos 0; error = Option.map api failure })

  completed : W → AgentJob → Option ℤ → Answer W
  completed w job none = done w
  completed w job (some completed_at) = expire w job completed_at

  unfoldable pub reconcile_terminal : W → AgentJob → Answer W
  unfolding completed expire
  reconcile_terminal w job =
      if leb_ℤ job.spec.ttl_after_completion (pos 0)
      then done w
      else completed w job job.status.completed_at

  -- The loop of reconcileTerminating: a pod that is gone counts as deleted.
  unfoldable pub delete_pods : W → List Pod → W × Option Error
  delete_pods w [] = (w, none)
  delete_pods w (p ∷ ps) =
      let (w', failure) = c.delete_pod w p.namespace p.name in
      let rest = delete_pods w' ps in
      elim failure [
        | none ↦ rest
        | some e ↦ if is_not_found e then rest else (w', some (delete_pod_failed p.name e))
      ]

  deleted : AgentJob → W × Option Error → Answer W
  deleted job (w, some e) = fails w e
  deleted job (w, none) =
      let (w', failure) = c.delete_job w job.namespace job.name in
      elim failure [
        | none ↦ done w'
        | some e ↦ if is_not_found e then done w' else fails w' (delete_job_failed e)
      ]

  delete_listed : AgentJob → W × Result ApiError (List Pod) → Answer W
  delete_listed job (w, err e) = fails w (list_pods_failed e)
  delete_listed job (w, ok pods) = deleted job (delete_pods w pods)

  unfoldable pub reconcile_terminating : W → AgentJob → Answer W
  unfolding deleted delete_listed
  reconcile_terminating w job =
      delete_listed job (c.list_pods w job.namespace "muto.io/job" job.name)

  -- The switch on the phase; any other phase is left alone.
  unfoldable pub dispatch : Phase → W → AgentJob → Answer W
  dispatch unset w job = reconcile_pending w job
  dispatch pending w job = reconcile_pending w job
  dispatch running w job = reconcile_running w job
  dispatch succeeded w job = reconcile_terminal w job
  dispatch failed w job = reconcile_terminal w job
  dispatch terminating w job = reconcile_terminating w job
  dispatch (Phase.other p) w job = done w

  unfoldable pub reconcile : W → String → String → Answer W
  reconcile w namespace name =
      let (w', found) = c.get_job w namespace name in
      observe_reconcile c "agentjob"
        (elim found [ err e ↦ ignore_not_found w' e | ok job ↦ dispatch job.status.phase w' job ])
