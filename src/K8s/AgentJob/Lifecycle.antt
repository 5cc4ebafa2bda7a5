-- ===== src/K8s/AgentJob/Lifecycle.antt =====
-- platform/k8s/reconcilers/agentjob_reconciler.go: what the handler of each phase does to the stored job.
use muto.Prelude.{
  ℕ, zero, suc, String, Bool, true, false, some, List, [], ◌∷◌, Result, ok, err, ◌≡◌, refl, arith,
  ◌⊎◌, inl, inr, ◌∙◌, sym, subst, Result-cases, Option-cases,
}
use muto.Prelude.Int.{ℤ, pos, pos_part, ◌+ℤ◌, int32}
use muto.Agent.{pending, running}
use muto.Scheduler.{initial_phase}
use muto.Scheduler.StateMachine.{◌⟶◌, start, succeed, fail}
use muto.K8s.Types.{AgentJob, AgentRoleSpec, Tenant}
use muto.K8s.Objects.{Pod}
use muto.K8s.Client.{Client}
use muto.K8s.Answer.{Error}
use muto.K8s.AgentJob.{
  create_replicas, create_roles, started, reconcile_pending, finished, outcome, delete_pods,
  as_started, as_finished,
}
use muto.K8s.AgentJob.Pods.{build_pod, replicas_of}
use muto.K8s.AgentJob.Store.{JobStore, Next}

module _ {W : Type 0} (c : Client W) (namespace name : String)
    (store : JobStore c namespace name) where
  open store use {stored}

  create_replicas-keeps :
      (w : W) (job : AgentJob) (role : AgentRoleSpec) (tenant : Tenant) (left i : ℕ)
      → stored (create_replicas c w job role tenant left i).0 ≡ stored w
  unfolding create_replicas
  create_replicas-keeps w job role tenant zero i = refl
  create_replicas-keeps w job role tenant (suc left) i =
      let pod = build_pod job role tenant i in
      ground (
        arith,
        store.create_pod_keeps w pod,
        create_replicas-keeps (c.create_pod w pod).0 job role tenant left (suc i),
      )

  create_roles-keeps :
      (w : W) (job : AgentJob) (tenant : Tenant) (total : ℤ) (roles : List AgentRoleSpec)
      → stored (create_roles c w job tenant total roles).0 ≡ stored w
  unfolding create_roles
  create_roles-keeps w job tenant total [] = refl
  create_roles-keeps w job tenant total (role ∷ roles) =
      let here = create_replicas c w job role tenant (pos_part (replicas_of role)) 0 in
      ground (
        arith,
        create_replicas-keeps w job role tenant (pos_part (replicas_of role)) 0,
        create_roles-keeps here.0 job tenant (total +ℤ replicas_of role) roles,
      )

  pub delete_pods-keeps : (w : W) (ps : List Pod) → stored (delete_pods c w ps).0 ≡ stored w
  unfolding delete_pods
  delete_pods-keeps w [] = refl
  delete_pods-keeps w (p ∷ ps) = ground (
    arith,
    store.delete_pod_keeps w p.namespace p.name,
    delete_pods-keeps (c.delete_pod w p.namespace p.name).0 ps,
  )

  -- A write of the status of the stored job: it is stored, or nothing changed.
  write :
      (w : W) (j : AgentJob)
      → j.namespace ≡ namespace
      → j.name ≡ name
      → (stored (c.update_job_status w j).0 ≡ some j)
        ⊎ (stored (c.update_job_status w j).0 ≡ stored w)
  write w j ns n = elim (Option-cases (c.update_job_status w j).1) [
    | inl e ↦ inl (store.updated w j ns n e)
    | inr (x, e) ↦ inr (store.not_updated w j e)
  ]

  module _ (j : AgentJob) (ns : j.namespace ≡ namespace) (n : j.name ≡ name) where
    pub update-Next :
        (w : W) (j' : AgentJob)
        → j'.namespace ≡ namespace
        → j'.name ≡ name
        → stored w ≡ some j
        → initial_phase j.status.phase ⟶ j'.status.phase
        → j'.spec ≡ j.spec
        → Next j (stored (c.update_job_status w j').0)
    update-Next w j' ns' n' h edge spec = elim (write w j' ns' n') [
      | inl e ↦ inr (inl (j', e, edge, spec))
      | inr e ↦ inl (e ∙ h)
    ]

    started-Next :
        (tenant : Tenant) (w : W) (total : Result Error ℤ)
        → initial_phase j.status.phase ≡ pending
        → stored w ≡ some j
        → Next j (stored (started c j tenant (w, total)).world)
    unfolding started
    started-Next tenant w (err e) p h = inl h
    started-Next tenant w (ok total) p h =
        subst (Next j) (sym same)
          (update-Next w (as_started (c.now w) (int32 total) j) ns n h (rw p start) refl)
      where
        w' : W
        w' = (c.update_job_status w (as_started (c.now w) (int32 total) j)).0

        same : stored (started c j tenant (w, ok total)).world ≡ stored w'
        same = ground (arith, store.job_started_keeps w' tenant.name (int32 total))

    pub pending-Next :
        (w : W)
        → initial_phase j.status.phase ≡ pending
        → stored w ≡ some j
        → Next j (stored (reconcile_pending c w j).world)
    unfolding reconcile_pending
    pending-Next w p h = elim (Result-cases (c.get_tenant w "" j.spec.tenant_ref).1) [
      | inl (tenant, e) ↦
          let w' = (c.get_tenant w "" j.spec.tenant_ref).0 in
          let kept = store.get_tenant_keeps w "" j.spec.tenant_ref in
          rw (e, reconcile_pending)
            (started-Next tenant (create_roles c w' j tenant (pos 0) j.spec.agents).0
              (create_roles c w' j tenant (pos 0) j.spec.agents).1 p
              (create_roles-keeps w' j tenant (pos 0) j.spec.agents ∙ kept ∙ h))
      | inr (x, e) ↦
          rw (e, reconcile_pending) (inl (store.get_tenant_keeps w "" j.spec.tenant_ref ∙ h))
    ]

    pub verdict-edge :
        (any_failed : Bool)
        → j.status.phase ≡ running
        → initial_phase j.status.phase ⟶ (outcome any_failed).0
    unfolding outcome initial_phase
    verdict-edge true p = rw p fail
    verdict-edge false p = rw p succeed

    pub finished-Next :
        (w : W) (any_failed : Bool)
        → j.status.phase ≡ running
        → stored w ≡ some j
        → Next j (stored (finished c w j any_failed).world)
    unfolding finished
    finished-Next w any_failed p h = subst (Next j) (sym same) (
        update-Next w (as_finished (c.now w) (outcome any_failed).0 j) ns n h
          (verdict-edge any_failed p) refl)
      where
        w' : W
        w' = (c.update_job_status w (as_finished (c.now w) (outcome any_failed).0 j)).0

        same : stored (finished c w j any_failed).world ≡ stored w'
        same = ground (
          arith,
          store.job_finished_keeps w' j.spec.tenant_ref (outcome any_failed).1 j.status.started_at
              j.status.active_agents,
        )
