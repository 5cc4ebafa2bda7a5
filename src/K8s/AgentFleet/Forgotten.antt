-- ===== src/K8s/AgentFleet/Forgotten.antt =====
-- platform/k8s/reconcilers/agentfleet_reconciler.go, with SetupWithManager: nothing brings a fleet back.
use muto.Prelude.{String, List, [], ◌≡◌, refl, inl, inr, Result-cases}
use muto.Prelude.Int.{pos}
use muto.K8s.Types.{AgentJob}
use muto.K8s.Objects.{not_found, already_exists, ApiError}
use muto.K8s.Client.{Client}
use muto.K8s.Answer.{ignore_not_found, observe_reconcile}
use muto.K8s.Controllers.{Controller, Event, Request, Queueing, agent_fleet_controller, job_event}
use muto.K8s.AgentFleet.{reconcile}

ignore_not_found-waits :
    {W : Type 0} (w : W) (e : ApiError) → (ignore_not_found w e).requeue_after ≡ pos 0
ignore_not_found-waits w not_found = refl
ignore_not_found-waits w already_exists = refl
ignore_not_found-waits w (ApiError.failure m) = refl

module _ {W : Type 0} (c : Client W) (requests : Controller → Event → List Request)
    (q : Queueing requests) where
  -- No Reconcile call of a fleet asks to be called again, and no change of an AgentJob has a request
  -- of a fleet queued: the counts of the fleet stay as they were when the fleet last changed.
  reconcile-forgets :
      (w : W) (namespace name : String) (j : AgentJob)
      → ((reconcile c w namespace name).requeue_after ≡ pos 0)
        × (requests agent_fleet_controller (job_event j) ≡ [])
  unfolding reconcile observe_reconcile
  reconcile-forgets w namespace name j = (
    elim (Result-cases (c.get_fleet w namespace name).1) [
      | inl (fleet, e) ↦ rw e refl
      | inr (x, e) ↦ rw e (ignore_not_found-waits (c.get_fleet w namespace name).0 x)
    ],
    q.others agent_fleet_controller (job_event j) refl refl,
  )
