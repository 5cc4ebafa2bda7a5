-- ===== src/K8s/AgentJob/Owned.antt =====
-- platform/k8s/reconcilers/agentjob_reconciler.go, buildPod with SetupWithManager: a change of a pod has its
-- job looked at.
use muto.Prelude.{ℕ, zero, suc, List, [], ◌∷◌, ◌≡◌, refl, All, All-append}
use muto.Prelude.Int.{pos_part}
use muto.K8s.Types.{AgentJob, AgentRoleSpec, Tenant}
use muto.K8s.Objects.{Pod}
use muto.K8s.Controllers.{Controller, Event, Request, Queueing, agent_job_controller, pod_event}
use muto.K8s.AgentJob.Pods.{build_pod, replicas_of}
use muto.K8s.AgentJob.Plan.{plan, plan_role}

module _ (requests : Controller → Event → List Request) (q : Queueing requests) where
  abbrev WakesJob : AgentJob → Pod → Type 0
  WakesJob job p =
      requests agent_job_controller (pod_event p)
      ≡ record { namespace = job.namespace; name = job.name } ∷ []

  plan_role-WakesJob :
      (job : AgentJob) (role : AgentRoleSpec) (tenant : Tenant) (left i : ℕ)
      → All (WakesJob job) (plan_role job role tenant left i)
  unfolding build_pod
  plan_role-WakesJob job role tenant zero i = tt
  plan_role-WakesJob job role tenant (suc left) i = (
    q.owns_lem agent_job_controller (pod_event (build_pod job role tenant i)) job.name refl refl
        refl,
    plan_role-WakesJob job role tenant left (suc i),
  )

  -- A change of any pod that is planned for a job has that job's request queued.
  plan-WakesJob :
      (job : AgentJob) (tenant : Tenant) (roles : List AgentRoleSpec)
      → All (WakesJob job) (plan job tenant roles)
  plan-WakesJob job tenant [] = tt
  plan-WakesJob job tenant (role ∷ roles) =
      All-append (WakesJob job) (plan_role job role tenant (pos_part (replicas_of role)) 0)
        (plan job tenant roles) (plan_role-WakesJob job role tenant (pos_part (replicas_of role)) 0)
        (plan-WakesJob job tenant roles)
