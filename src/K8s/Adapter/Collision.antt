-- ===== src/K8s/Adapter/Collision.antt =====
-- platform/k8s/adapter.go: a pod is named after the tenant and the role, and not after the job.
use muto.Prelude.{
  ℕ, String, none, some, List, [], ◌∷◌, ok, err, ◌≡◌, refl, arith, ap, ◌∙◌, Result-cases, sym, inl,
  inr,
}
use muto.Prelude.Int.{ℤ}
use muto.Agent.{AgentRole, Spec, Job}
use muto.Scheduler.{State, spawn_failed, role_spec, spawn_agents, watch_agents, schedule}
use muto.Tools.{agent_job}
use muto.K8s.Objects.{Pod, already_exists}
use muto.K8s.Client.{Client}
use muto.Scheduler.Scheduling.{schedule_ok-world, schedule_spawn_failed}
use muto.K8s.Adapter.{
  Error as Failure, create_failed, agent_pod, spawn_agent, pod_name, k8s_adapter,
}

-- What Kubernetes documents of Create: a name that was just taken in a namespace is refused.
abbrev pub CreatesOnce : {W : Type 0} → Client W → Type 0
CreatesOnce {W} c =
    (w : W) (p q : Pod)
    → (c.create_pod w p).1 ≡ none
    → p.namespace ≡ q.namespace
    → p.name ≡ q.name
    → (c.create_pod (c.create_pod w p).0 q).1 ≡ some already_exists

agent_pod-name :
    (namespace tenant : String) (r : AgentRole)
    → ((agent_pod namespace tenant r).name ≡ pod_name tenant r.role)
      × ((agent_pod namespace tenant r).namespace ≡ namespace)
unfolding agent_pod
agent_pod-name namespace tenant r = (refl, refl)

module _ {W : Type 0} (c : Client W) (namespace : String) (once : CreatesOnce c) where
  -- When the API server refuses a name that was just taken (CreatesOnce), a role that was spawned
  -- for a tenant on Kubernetes is refused when it is spawned again right after for the same
  -- tenant, whatever else the two specs say.
  pub spawn_agent_twice :
      (w : W) (s t : Spec) (r q : AgentRole) (rs qs : List AgentRole) {id : String}
      → s.agents ≡ r ∷ rs
      → t.agents ≡ q ∷ qs
      → s.tenant_ref ≡ t.tenant_ref
      → r.role ≡ q.role
      → (spawn_agent c namespace w s).1 ≡ ok id
      → (spawn_agent c namespace (spawn_agent c namespace w s).0 t).1
        ≡ err (create_failed already_exists)
  unfolding spawn_agent
  spawn_agent_twice w s t r q rs qs hs ht tenant role h =
      let first = agent_pod namespace s.tenant_ref r in
      let second = agent_pod namespace t.tenant_ref q in
      ground (
        arith,
        once w first second,
        agent_pod-name namespace s.tenant_ref r,
        agent_pod-name namespace t.tenant_ref q,
      )

  watch_agents-world :
      (w : W) (ctx : ℕ) (ids : List String)
      → (watch_agents (k8s_adapter c namespace) w ctx ids).0 ≡ w
  unfolding watch_agents k8s_adapter
  watch_agents-world w ctx [] = refl
  watch_agents-world w ctx (id ∷ ids) = watch_agents-world w ctx ids

  spawn_one-ok :
      (w : W) (job : Job) (r : AgentRole) (ids : List String)
      → (spawn_agents (k8s_adapter c namespace) w job (r ∷ [])).1 ≡ ok ids
      → (id : String) × ((spawn_agent c namespace w (role_spec job r)).1 ≡ ok id)
        × ((spawn_agents (k8s_adapter c namespace) w job (r ∷ [])).0
            ≡ (spawn_agent c namespace w (role_spec job r)).0)
  unfolding spawn_agents k8s_adapter
  spawn_one-ok w job r ids h = elim (Result-cases (spawn_agent c namespace w (role_spec job r)).1) [
    | inl (id, e) ↦ (id, e, ground (arith, e))
    | inr (x, e) ↦ ground (arith, e)
  ]

  spawn_first_failed :
      (w : W) (job : Job) (r : AgentRole) (rs : List AgentRole) (e : Failure)
      → (spawn_agent c namespace w (role_spec job r)).1 ≡ err e
      → (spawn_agents (k8s_adapter c namespace) w job (r ∷ rs)).1 ≡ err (spawn_failed r.role e)
  unfolding spawn_agents k8s_adapter
  spawn_first_failed w job r rs e h = ground (arith, h)

  -- Two jobs of one tenant with one role of the same name, scheduled one after the other.
  schedule_role_twice :
      (s s' : State (String × ℕ)) (w : W) (j k : Job) (r q : AgentRole)
      → j.spec.agents ≡ r ∷ []
      → k.spec.agents ≡ q ∷ []
      → j.spec.tenant_ref ≡ k.spec.tenant_ref
      → r.role ≡ q.role
      → (schedule (k8s_adapter c namespace) s w j).2 ≡ none
      → (schedule (k8s_adapter c namespace) s' (schedule (k8s_adapter c namespace) s w j).1 k).2
        ≡ some (spawn_failed q.role (create_failed already_exists))
  unfolding role_spec spawn_agents
  schedule_role_twice s s' w j k r q hj hk tenant role h =
      let (ids, spawned, world, _) = schedule_ok-world (k8s_adapter c namespace) s w j h in
      let (id, first, spawn_world) =
        spawn_one-ok w j r ids
          (ap (λ l. (spawn_agents (k8s_adapter c namespace) w j l).1) (sym hj) ∙ spawned) in
      let same_world : (schedule (k8s_adapter c namespace) s w j).1
          ≡ (spawn_agent c namespace w (role_spec j r)).0 =
        world
        ∙ watch_agents-world (spawn_agents (k8s_adapter c namespace) w j j.spec.agents).0 s.contexts
            ids
        ∙ ap (λ l. (spawn_agents (k8s_adapter c namespace) w j l).0) hj
        ∙ spawn_world in
      schedule_spawn_failed (k8s_adapter c namespace) s' _ k _ (
        rw (hk, same_world)
          (spawn_first_failed _ k q [] (create_failed already_exists) (
            spawn_agent_twice w (role_spec j r) (role_spec k q) r q [] [] refl refl tenant role
              first)))

  -- When the API server refuses a name that was just taken (CreatesOnce), of two jobs of one
  -- tenant that are scheduled on Kubernetes as the MCP tool makes them, one right after the other,
  -- the second is refused if the first was accepted, whatever their ids, images, sources and times
  -- to live are.
  pub schedule_agent_job_twice :
      (s : State (String × ℕ)) (w : W) (tenant id id' image image' source source' : String)
      (ttl ttl' : ℤ)
      → (schedule (k8s_adapter c namespace) s w (agent_job id tenant image source ttl)).2 ≡ none
      → let (s', w', _) =
          schedule (k8s_adapter c namespace) s w (agent_job id tenant image source ttl) in
        (schedule (k8s_adapter c namespace) s' w' (agent_job id' tenant image' source' ttl')).2
        ≡ some (spawn_failed "worker" (create_failed already_exists))
  unfolding agent_job
  schedule_agent_job_twice s w tenant id id' image image' source source' ttl ttl' h =
      schedule_role_twice s _ w _ _ _ _ refl refl refl refl h
