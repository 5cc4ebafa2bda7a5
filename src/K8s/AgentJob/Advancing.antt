-- ===== src/K8s/AgentJob/Advancing.antt =====
-- platform/k8s/reconcilers/agentjob_reconciler.go: what the handler of each phase achieves without an error.
use mathlib.Core.Option
use muto.Prelude.{
  String, Bool, false, Option, none, some, List, Result, ok, err, ◌≡◌, refl, arith, ◌⊎◌, inl, inr,
  ◌∙◌, sym, ap, subst, Bool-cases, Option-cases, Result-cases, length, count, eqb, ltb,
}
use muto.Prelude.Int.{ℤ, pos, int32}
use muto.Agent.{pending, running, succeeded, failed}
use muto.Scheduler.{initial_phase}
use muto.Scheduler.StateMachine.{◌⟶◌, start}
use muto.K8s.Types.{AgentJob, Tenant}
use muto.K8s.Objects.{Pod, ApiError, not_found}
use muto.K8s.Client.{Client}
use muto.K8s.Answer.{Error, api}
use muto.K8s.AgentJob.{
  create_roles, started, reconcile_pending, finished, outcome, reconcile_running,
  reconcile_terminal, deleted, delete_pods, delete_listed, reconcile_terminating, as_started,
  as_finished, as_terminating,
}
use muto.K8s.AgentJob.Verdict.{over, broken, reconcile_running-flags}
use muto.K8s.AgentJob.Ttl.{IsKept, reconcile_terminal_ttl}
use muto.K8s.AgentJob.Store.{JobStore}
use muto.K8s.AgentJob.Lifecycle.{verdict-edge}
use muto.K8s.AgentJob.Reconciled.{terminal-edge}

module _ {W : Type 0} (c : Client W) (namespace name : String)
    (store : JobStore c namespace name) where
  open store use {stored}

  -- The stored job is a step further along its life cycle, under its name.
  abbrev pub IsAdvanced : AgentJob → W → Type 0
  IsAdvanced j w =
      (j' : AgentJob) × (stored w ≡ some j')
      × (initial_phase j.status.phase ⟶ j'.status.phase)
      × (j'.namespace ≡ namespace)
      × (j'.name ≡ name)

  -- A running job has no pods, or one that is not over.
  abbrev pub HasWork : W → AgentJob → Type 0
  HasWork w j =
      (pods : List Pod) × ((c.list_pods w j.namespace "muto.io/job" j.name).1 ≡ ok pods)
      × ((length pods ≡ 0) ⊎ (eqb (count over pods) (length pods) ≡ false))

  -- The deletion of the job was asked for, and accepted.
  abbrev pub IsDeleting : AgentJob → Type 0
  IsDeleting j =
      (v : W) × (((c.delete_job v j.namespace j.name).1 ≡ none)
        ⊎ ((c.delete_job v j.namespace j.name).1 ≡ some not_found))

  module _ (j : AgentJob) (ns : j.namespace ≡ namespace) (n : j.name ≡ name) where
    started-IsAdvanced :
        (tenant : Tenant) (x : W × Result Error ℤ)
        → initial_phase j.status.phase ≡ pending
        → (started c j tenant x).error ≡ none
        → IsAdvanced j (started c j tenant x).world
    unfolding started
    started-IsAdvanced tenant (w, err e) p h = cc
    started-IsAdvanced tenant (w, ok total) p h =
        let j' = as_started (c.now w) (int32 total) j in
        elim (Option-cases (c.update_job_status w j').1) [
          | inr (e, k) ↦ ground arith
          | inl k ↦ (
            j',
            rw (k, started)
                (store.job_started_keeps (c.update_job_status w j').0 tenant.name (int32 total)
                  ∙ store.updated w j' ns n k),
            rw p start,
            ns,
            n,
          )
        ]

    pub pending-IsAdvanced :
        (w : W)
        → initial_phase j.status.phase ≡ pending
        → (reconcile_pending c w j).error ≡ none
        → IsAdvanced j (reconcile_pending c w j).world
    unfolding reconcile_pending
    pending-IsAdvanced w p h = elim (Result-cases (c.get_tenant w "" j.spec.tenant_ref).1) [
      | inr (e, k) ↦ ground arith
      | inl (tenant, k) ↦
          let made =
            create_roles c (c.get_tenant w "" j.spec.tenant_ref).0 j tenant (pos 0) j.spec.agents in
          let same : reconcile_pending c w j ≡ started c j tenant made =
            rw (k, reconcile_pending) refl in
          subst (λ a. IsAdvanced j a.world) (sym same)
            (started-IsAdvanced tenant made p (sym (ap (λ a. a.error) same) ∙ h))
    ]

    finished-IsAdvanced :
        (w : W) (any_failed : Bool)
        → j.status.phase ≡ running
        → (finished c w j any_failed).error ≡ none
        → IsAdvanced j (finished c w j any_failed).world
    unfolding finished outcome initial_phase
    finished-IsAdvanced w any_failed p h =
        let j' = as_finished (c.now w) (outcome any_failed).0 j in
        elim (Option-cases (c.update_job_status w j').1) [
          | inr (e, k) ↦ ground arith
          | inl k ↦ (
            j',
            rw (k, finished)
                (store.job_finished_keeps (c.update_job_status w j').0 j.spec.tenant_ref
                    (outcome any_failed).1 j.status.started_at j.status.active_agents
                  ∙ store.updated w j' ns n k),
            verdict-edge c namespace name store j ns n any_failed p,
            ns,
            n,
          )
        ]

    pub running-IsAdvanced :
        (w : W)
        → j.status.phase ≡ running
        → (reconcile_running c w j).error ≡ none
        → IsAdvanced j (reconcile_running c w j).world ⊎ HasWork w j
    running-IsAdvanced w p h =
        let listed = c.list_pods w j.namespace "muto.io/job" j.name in
        let same = reconcile_running-flags c w j in
        elim (Result-cases listed.1) [
          | inr (e, k) ↦ ground (arith, ap (λ a. a.error) same, h)
          | inl (pods, k) ↦ elim (Bool-cases (eqb (length pods) 0)) [
            | inl b ↦ inr (pods, k, inl (ground arith))
            | inr b ↦ elim (Bool-cases (eqb (count over pods) (length pods))) [
              | inr d ↦ inr (pods, k, inr d)
              | inl d ↦
                  let closing = finished c listed.0 j (ltb 0 (count broken pods)) in
                  let closes : reconcile_running c w j ≡ closing = same ∙ rw (k, b, d) refl in
                  inl (
                    subst (λ a. IsAdvanced j a.world) (sym closes)
                      (finished-IsAdvanced listed.0 (ltb 0 (count broken pods)) p
                        (sym (ap (λ a. a.error) closes) ∙ h)))
            ]
          ]
        ]

    unmapped : (o : Option ApiError) → Option.map api o ≡ none → o ≡ none
    unmapped none h = refl
    unmapped (some e) h = cc

    pub terminal-IsAdvanced :
        (w : W)
        → (j.status.phase ≡ succeeded) ⊎ (j.status.phase ≡ failed)
        → (reconcile_terminal c w j).error ≡ none
        → IsAdvanced j (reconcile_terminal c w j).world ⊎ IsKept (c.now w) j
    terminal-IsAdvanced w p h = elim (reconcile_terminal_ttl c w j) [
      | inl (kept, same, quiet) ↦ inr kept
      | inr (expired, same, failure) ↦
          let written = unmapped (c.update_job_status w (as_terminating j)).1 (sym failure ∙ h) in
          inl (
            as_terminating j,
            ap stored same ∙ store.updated w (as_terminating j) ns n written,
            terminal-edge c namespace name store j ns n p,
            ns,
            n,
          )
    ]

    deleted-IsDeleting : (x : W × Option Error) → (deleted c j x).error ≡ none → IsDeleting j
    unfolding deleted
    deleted-IsDeleting (w, some e) h = cc
    deleted-IsDeleting (w, none) h = elim (Option-cases (c.delete_job w j.namespace j.name).1) [
      | inl k ↦ (w, inl k)
      | inr (not_found, k) ↦ (w, inr k)
      | inr (e, k) ↦ ground arith
    ]

    pub terminating-IsDeleting : (w : W) → (reconcile_terminating c w j).error ≡ none → IsDeleting j
    unfolding reconcile_terminating delete_listed
    terminating-IsDeleting w h =
        elim (Result-cases (c.list_pods w j.namespace "muto.io/job" j.name).1) [
          | inr (e, k) ↦ ground arith
          | inl (pods, k) ↦
              deleted-IsDeleting
                (delete_pods c (c.list_pods w j.namespace "muto.io/job" j.name).0 pods)
                (rw (k, reconcile_terminating) at h)
        ]
