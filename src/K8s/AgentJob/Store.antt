-- ===== src/K8s/AgentJob/Store.antt =====
-- The stored AgentJob, as the API server keeps it, and the steps that its life cycle allows.
use muto.Prelude.{String, Option, none, some, ok, ◌≡◌, ◌⊎◌}
use muto.Prelude.Int.{ℤ}
use muto.Agent.{terminating}
use muto.Scheduler.{initial_phase}
use muto.Scheduler.StateMachine.{◌⟶◌}
use muto.K8s.Types.{AgentJob}
use muto.K8s.Objects.{Pod, ApiError}
use muto.K8s.Client.{Client}

-- What the API server promises of one stored job while nobody else writes it: reads answer with
-- what is stored, a successful write of the status or deletion does its work, a failed one nothing,
-- and calls on other objects leave the job.
pub record JobStore {W : Type 0} (c : Client W) (namespace name : String) : Type 0 where
  pub stored : W → Option AgentJob
  pub got :
      (w : W) {j : AgentJob}
      → (c.get_job w namespace name).1 ≡ ok j
      → (stored w ≡ some j) × (j.namespace ≡ namespace) × (j.name ≡ name)
  pub get_job_keeps : (w : W) (n m : String) → stored (c.get_job w n m).0 ≡ stored w
  pub updated :
      (w : W) (j : AgentJob)
      → j.namespace ≡ namespace
      → j.name ≡ name
      → (c.update_job_status w j).1 ≡ none
      → stored (c.update_job_status w j).0 ≡ some j
  pub not_updated :
      (w : W) (j : AgentJob) {e : ApiError}
      → (c.update_job_status w j).1 ≡ some e
      → stored (c.update_job_status w j).0 ≡ stored w
  pub deletes :
      (w : W) (n m : String)
      → n ≡ namespace
      → m ≡ name
      → (stored (c.delete_job w n m).0 ≡ stored w) ⊎ (stored (c.delete_job w n m).0 ≡ none)
  pub get_tenant_keeps : (w : W) (n m : String) → stored (c.get_tenant w n m).0 ≡ stored w
  pub create_pod_keeps : (w : W) (p : Pod) → stored (c.create_pod w p).0 ≡ stored w
  pub delete_pod_keeps : (w : W) (n m : String) → stored (c.delete_pod w n m).0 ≡ stored w
  pub list_pods_keeps : (w : W) (n l v : String) → stored (c.list_pods w n l v).0 ≡ stored w
  pub job_started_keeps : (w : W) (t : String) (n : ℤ) → stored (c.job_started w t n) ≡ stored w
  pub job_finished_keeps :
      (w : W) (t l : String) (s : Option ℤ) (n : ℤ) → stored (c.job_finished w t l s n) ≡ stored w
  pub observe_keeps : (w : W) (l s : String) → stored (c.observe w l s) ≡ stored w

-- What may become of a stored job: nothing, a step of its phase along the life cycle with the
-- specification as it was, or its deletion at the end of the life cycle.
abbrev pub Next : AgentJob → Option AgentJob → Type 0
Next j o =
    (o ≡ some j)
    ⊎ ((j' : AgentJob) × (o ≡ some j')
        × (initial_phase j.status.phase ⟶ j'.status.phase)
        × (j'.spec ≡ j.spec))
    ⊎ ((o ≡ none) × (j.status.phase ≡ terminating))
