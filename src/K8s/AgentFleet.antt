-- ===== src/K8s/AgentFleet.antt =====
-- platform/k8s/reconcilers/agentfleet_reconciler.go: AgentFleetReconciler.
pub mod Counts
pub mod Forgotten
use mathlib.Core.Option
use muto.Prelude.{String, Option, none, some, List, [], ◌∷◌, Result, ok, err}
use muto.Prelude.Int.{ℤ, pos, ◌+ℤ◌, int32}
use muto.Agent.{Phase, running, succeeded, failed}
use muto.K8s.Types.{AgentJob, AgentFleet, AgentFleetStatus}
use muto.K8s.Objects.{ApiError}
use muto.K8s.Client.{Client}
use muto.K8s.Answer.{Answer, api, ignore_not_found, observe_reconcile}

-- `x++` on an int32.
abbrev pub incr : ℤ → ℤ
incr x = int32 (x +ℤ pos 1)

abbrev pub zero_counts : AgentFleetStatus
zero_counts = record { total_jobs = pos 0; running_jobs = pos 0; completed_jobs = pos 0 }

-- The body of the loop for a job that was found.
unfoldable pub count_phase : Phase → AgentFleetStatus → AgentFleetStatus
count_phase running t = record t {
  total_jobs = incr t.total_jobs;
  running_jobs = incr t.running_jobs;
}
count_phase succeeded t = record t {
  total_jobs = incr t.total_jobs;
  completed_jobs = incr t.completed_jobs;
}
count_phase failed t = record t {
  total_jobs = incr t.total_jobs;
  completed_jobs = incr t.completed_jobs;
}
count_phase p t = record t { total_jobs = incr t.total_jobs }

tally : AgentFleetStatus → Result ApiError AgentJob → AgentFleetStatus
tally t (err e) = t
tally t (ok job) = count_phase job.status.phase t

module _ {W : Type 0} (c : Client W) where
  -- A job that cannot be read, for whatever reason, is passed over.
  unfoldable pub count_jobs : W → String → AgentFleetStatus → List String → W × AgentFleetStatus
  unfolding tally
  count_jobs w namespace t [] = (w, t)
  count_jobs w namespace t (ref ∷ refs) =
      let (w', found) = c.get_job w namespace ref in count_jobs w' namespace (tally t found) refs

  store : AgentFleet → W × AgentFleetStatus → Answer W
  store fleet (w, t) =
      let (w', failure) = c.update_fleet_status w (record fleet { status = t }) in
      record { world = w'; requeue_after = pos 0; error = Option.map api failure }

  unfoldable pub reconcile : W → String → String → Answer W
  unfolding store
  reconcile w namespace name =
      let (w', found) = c.get_fleet w namespace name in
      observe_reconcile c "agentfleet" (elim found [
        | err e ↦ ignore_not_found w' e
        | ok fleet ↦ store fleet (count_jobs w' namespace zero_counts fleet.spec.job_refs)
      ])
