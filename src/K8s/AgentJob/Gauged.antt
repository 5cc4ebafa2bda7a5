-- ===== src/K8s/AgentJob/Gauged.antt =====
-- platform/k8s/reconcilers/agentjob_reconciler.go over platform/k8s/metrics/metrics.go: what the life of
-- a job leaves in the gauges.
use muto.Prelude.{
  ℕ, zero, suc, String, Bool, none, List, [], ◌∷◌, Result, ok, err, ◌≡◌, refl, arith, inl, inr, ◌∙◌,
  sym, ap, Result-cases, Option-cases,
}
use muto.Prelude.Int.{ℤ, pos, pos_part, ◌+ℤ◌, int32, +ℤ_zero, +ℤ_assoc}
use muto.K8s.Types.{AgentJob, AgentRoleSpec, Tenant}
use muto.K8s.Client.{Client}
use muto.K8s.Answer.{Error}
use muto.K8s.AgentJob.{
  create_replicas, create_roles, started, reconcile_pending, finished, outcome, as_started,
  as_finished,
}
use muto.K8s.AgentJob.Pods.{build_pod, replicas_of}
use muto.K8s.AgentJob.Plan.{sum_replicas}
use muto.Metrics
use muto.Metrics.{Meters, Call, take_call, take_calls}
use muto.Metrics.Gauges.{gauge, is_depth, is_agents, take_calls-finished}

-- An API server, and the meters of this process beside it. `took` is the time that a reconcile took.
unfoldable pub metered : {W : Type 0} → Client W → (W → ℤ) → Client (W × Meters)
metered c took = record {
  now = λ x. c.now x.0;
  get_pod = λ x ns n. let (w, r) = c.get_pod x.0 ns n in ((w, x.1), r);
  create_pod = λ x p. let (w, r) = c.create_pod x.0 p in ((w, x.1), r);
  delete_pod = λ x ns n. let (w, r) = c.delete_pod x.0 ns n in ((w, x.1), r);
  list_pods = λ x ns l v. let (w, r) = c.list_pods x.0 ns l v in ((w, x.1), r);
  get_tenant = λ x ns n. let (w, r) = c.get_tenant x.0 ns n in ((w, x.1), r);
  get_job = λ x ns n. let (w, r) = c.get_job x.0 ns n in ((w, x.1), r);
  update_job_status = λ x j. let (w, r) = c.update_job_status x.0 j in ((w, x.1), r);
  delete_job = λ x ns n. let (w, r) = c.delete_job x.0 ns n in ((w, x.1), r);
  get_fleet = λ x ns n. let (w, r) = c.get_fleet x.0 ns n in ((w, x.1), r);
  update_fleet_status = λ x f. let (w, r) = c.update_fleet_status x.0 f in ((w, x.1), r);
  job_started = λ x t n. (x.0, Metrics.job_started t n x.1);
  job_finished = λ x t l s n. (x.0, Metrics.job_finished (c.now x.0) t l s n x.1);
  observe = λ x l s. (x.0, Metrics.observe_call l s (took x.0) x.1);
}

-- The total that reconcilePending stores.
abbrev pub total_of : AgentJob → ℤ
total_of job = int32 (pos 0 +ℤ sum_replicas job.spec.agents)

module _ {W : Type 0} (c : Client W) (took : W → ℤ) where
  abbrev mc : Client (W × Meters)
  mc = metered c took

  create_replicas-meters :
      (x : W × Meters) (job : AgentJob) (role : AgentRoleSpec) (tenant : Tenant) (left i : ℕ)
      → (create_replicas mc x job role tenant left i).0.1 ≡ x.1
  unfolding create_replicas metered
  create_replicas-meters x job role tenant zero i = refl
  create_replicas-meters x job role tenant (suc left) i = ground (
    arith,
    create_replicas-meters (mc.create_pod x (build_pod job role tenant i)).0 job role tenant left
        (suc i),
  )

  create_roles-meters :
      (x : W × Meters) (job : AgentJob) (tenant : Tenant) (total : ℤ) (roles : List AgentRoleSpec)
      → (create_roles mc x job tenant total roles).0.1 ≡ x.1
  unfolding create_roles
  create_roles-meters x job tenant total [] = refl
  create_roles-meters x job tenant total (role ∷ roles) =
      let here = create_replicas mc x job role tenant (pos_part (replicas_of role)) 0 in
      ground (
        arith,
        create_replicas-meters x job role tenant (pos_part (replicas_of role)) 0,
        create_roles-meters here.0 job tenant (total +ℤ replicas_of role) roles,
      )

  started-meters :
      (x : W × Meters) (job : AgentJob) (tenant : Tenant) (r : Result Error ℤ)
      → (started mc job tenant (x, r)).error ≡ none
      → (total : ℤ) × (r ≡ ok total)
        × ((started mc job tenant (x, r)).world.1
            ≡ take_call (Call.started tenant.name (int32 total)) x.1)
  unfolding started metered take_call
  started-meters x job tenant (err e) h = cc
  started-meters x job tenant (ok total) h =
      elim (Option-cases (c.update_job_status x.0 (as_started (c.now x.0) (int32 total) job)).1) [
        | inl k ↦ (total, refl, rw (k, started) refl)
        | inr (e, k) ↦ ground arith
      ]

  finished-meters :
      (x : W × Meters) (job : AgentJob) (any_failed : Bool)
      → (finished mc x job any_failed).error ≡ none
      → (now : ℤ) × ((finished mc x job any_failed).world.1
          ≡ take_call
              (Call.finished now job.spec.tenant_ref
                (outcome any_failed).1
                job.status.started_at
                job.status.active_agents)
              x.1)
  unfolding finished metered take_call
  finished-meters x job any_failed h =
      let written = c.update_job_status x.0 (as_finished (c.now x.0) (outcome any_failed).0 job) in
      elim (Option-cases written.1) [
        | inl k ↦ (c.now written.0, rw (k, finished) refl)
        | inr (e, k) ↦ ground arith
      ]

  create_roles-total :
      (x : W × Meters) (job : AgentJob) (tenant : Tenant) (total t : ℤ) (roles : List AgentRoleSpec)
      → (create_roles mc x job tenant total roles).1 ≡ ok t
      → t ≡ total +ℤ sum_replicas roles
  unfolding create_roles
  create_roles-total x job tenant total t [] h = ground (arith, +ℤ_zero total)
  create_roles-total x job tenant total t (role ∷ roles) h =
      let here = create_replicas mc x job role tenant (pos_part (replicas_of role)) 0 in
      ground (
        arith,
        create_roles-total here.0 job tenant (total +ℤ replicas_of role) t roles,
        +ℤ_assoc total (replicas_of role) (sum_replicas roles),
      )

  -- The meters after reconcilePending.
  pending-meters :
      (w : W) (m : Meters) (job : AgentJob)
      → (reconcile_pending mc (w, m) job).error ≡ none
      → (tenant : Tenant) × ((c.get_tenant w "" job.spec.tenant_ref).1 ≡ ok tenant)
        × ((reconcile_pending mc (w, m) job).world.1
            ≡ take_call (Call.started tenant.name (total_of job)) m)
  unfolding reconcile_pending metered
  pending-meters w m job h = elim (Result-cases (c.get_tenant w "" job.spec.tenant_ref).1) [
    | inr (e, k) ↦ ground arith
    | inl (tenant, k) ↦
        let x : W × Meters = ((c.get_tenant w "" job.spec.tenant_ref).0, m) in
        let made = create_roles mc x job tenant (pos 0) job.spec.agents in
        let same : reconcile_pending mc (w, m) job ≡ started mc job tenant made =
          rw (k, reconcile_pending) refl in
        let done = started-meters made.0 job tenant made.1 (sym (ap (λ a. a.error) same) ∙ h) in
        let total = create_roles-total x job tenant (pos 0) done.0 job.spec.agents done.1 in
        (
          tenant,
          k,
          ap (λ a. a.world.1) same
              ∙ done.2
              ∙ ap (λ t. take_call (Call.started tenant.name (int32 t)) made.0.1) total
              ∙ ap (take_call (Call.started tenant.name (total_of job)))
                  (create_roles-meters x job tenant (pos 0) job.spec.agents),
        )
  ]

  -- Where a tenant is found under its own name, a job that reconcilePending has started, and that
  -- reconcileRunning later closes with the number of agents that was stored at its start, whatever was
  -- recorded in between, leaves both gauges of every tenant as if it had never been.
  pub gauges-restored :
      (names : (v : W) (n : String) (t : Tenant) → (c.get_tenant v "" n).1 ≡ ok t → t.name ≡ n)
      (w w' : W) (m : Meters) (job j' : AgentJob) (cs : List Call) (any_failed : Bool)
      (tenant : String)
      → (reconcile_pending mc (w, m) job).error ≡ none
      → j'.spec ≡ job.spec
      → j'.status.active_agents ≡ total_of job
      → (finished mc
          (w', take_calls cs (reconcile_pending mc (w, m) job).world.1)
          j'
          any_failed).error
        ≡ none
      → (gauge is_depth tenant
            (finished mc
              (w', take_calls cs (reconcile_pending mc (w, m) job).world.1)
              j'
              any_failed).world.1.prometheus
          ≡ gauge is_depth tenant (take_calls cs m).prometheus)
        × (gauge is_agents tenant
              (finished mc
                (w', take_calls cs (reconcile_pending mc (w, m) job).world.1)
                j'
                any_failed).world.1.prometheus
            ≡ gauge is_agents tenant (take_calls cs m).prometheus)
  gauges-restored names w w' m job j' cs any_failed tenant h spec agents k =
      let begun = pending-meters w m job h in
      let closed =
        finished-meters (w', take_calls cs (reconcile_pending mc (w, m) job).world.1) j' any_failed
          k in
      let called = names w job.spec.tenant_ref begun.0 begun.1 in
      let ref = job.spec.tenant_ref in
      let label = (outcome any_failed).1 in
      let at = j'.status.started_at in
      let after = take_calls cs (reconcile_pending mc (w, m) job).world.1 in
      let last : (finished mc (w', after) j' any_failed).world.1
          ≡ take_call (Call.finished closed.0 ref label at (total_of job))
              (take_calls cs (take_call (Call.started ref (total_of job)) m)) =
        closed.1
        ∙ ap
            (λ s.
              take_call (Call.finished closed.0 s.tenant_ref label at j'.status.active_agents)
                after)
            spec
        ∙ ap (λ n. take_call (Call.finished closed.0 ref label at n) after) agents
        ∙ ap (λ v. take_call (Call.finished closed.0 ref label at (total_of job)) (take_calls cs v))
            (begun.2 ∙ ap (λ q. take_call (Call.started q (total_of job)) m) called) in
      let undone = take_calls-finished tenant ref label (total_of job) closed.0 at cs m in
      (
        ap (λ v. gauge is_depth tenant v.prometheus) last ∙ undone.0,
        ap (λ v. gauge is_agents tenant v.prometheus) last ∙ undone.1,
      )
