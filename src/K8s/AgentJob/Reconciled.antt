-- ===== src/K8s/AgentJob/Reconciled.antt =====
-- platform/k8s/reconcilers/agentjob_reconciler.go: what one Reconcile does to the stored job.
use mathlib.Core.Option.{some-injective}
use muto.Prelude.{
  String, true, false, Option, none, some, List, [], ◌∷◌, Result, ok, err, ◌≡◌, refl, arith, ◌⊎◌,
  inl, inr, ◌∙◌, sym, subst, Bool-cases,
}
use muto.Agent.{Phase, unset, pending, running, succeeded, failed, terminating}
use muto.Scheduler.{initial_phase}
use muto.Scheduler.StateMachine.{◌⟶◌, clean_succeeded, clean_failed}
use muto.K8s.Types.{AgentJob}
use muto.K8s.Objects.{Pod, ApiError, not_found, already_exists}
use muto.K8s.Client.{Client}
use muto.K8s.Answer.{Answer, Error, status_label, observe_reconcile, ignore_not_found}
use muto.K8s.AgentJob.{
  judge, reconcile_running, reconcile_terminal, delete_pods, deleted, reconcile_terminating,
  dispatch, reconcile, judge_listed, delete_listed, scan, as_terminating,
}
use muto.K8s.AgentJob.Ttl.{reconcile_terminal_ttl}
use muto.K8s.AgentJob.Store.{JobStore, Next}
use muto.K8s.AgentJob.Lifecycle.{delete_pods-keeps, update-Next, pending-Next, finished-Next}

module _ {W : Type 0} (c : Client W) (namespace name : String)
    (store : JobStore c namespace name) where
  open store use {stored}

  module _ (j : AgentJob) (ns : j.namespace ≡ namespace) (n : j.name ≡ name) where
    judge-Next :
        (w : W) (pods : List Pod)
        → j.status.phase ≡ running
        → stored w ≡ some j
        → Next j (stored (judge c w j pods).world)
    unfolding judge
    judge-Next w [] p h = inl h
    judge-Next w (q ∷ qs) p h = elim (Bool-cases (scan (q ∷ qs) true false).0) [
      | inl e ↦
          rw e (finished-Next c namespace name store j ns n w (scan (q ∷ qs) true false).1 p h)
      | inr e ↦ rw e (inl h)
    ]

    running-Next :
        (w : W)
        → j.status.phase ≡ running
        → stored w ≡ some j
        → Next j (stored (reconcile_running c w j).world)
    unfolding reconcile_running
    running-Next w p h =
        answered (c.list_pods w j.namespace "muto.io/job" j.name)
          (store.list_pods_keeps w j.namespace "muto.io/job" j.name ∙ h)
      where
        answered :
            (r : W × Result ApiError (List Pod))
            → stored r.0 ≡ some j
            → Next j (stored (judge_listed c j r).world)
        answered (v, err e) k = inl k
        answered (v, ok pods) k = judge-Next v pods p k

    -- The two terminal phases lead to Terminating.
    pub terminal-edge :
        (j.status.phase ≡ succeeded) ⊎ (j.status.phase ≡ failed)
        → initial_phase j.status.phase ⟶ terminating
    unfolding initial_phase
    terminal-edge (inl p) = rw p clean_succeeded
    terminal-edge (inr p) = rw p clean_failed

    terminal-Next :
        (w : W)
        → (j.status.phase ≡ succeeded) ⊎ (j.status.phase ≡ failed)
        → stored w ≡ some j
        → Next j (stored (reconcile_terminal c w j).world)
    terminal-Next w p h =
        let moved =
          update-Next c namespace name store j ns n w (as_terminating j) ns n h (terminal-edge p)
            refl in
        elim (reconcile_terminal_ttl c w j) [
          | inl (_, same, _) ↦ rw same (inl h)
          | inr (_, same, _) ↦ rw same moved
        ]

    terminating-Next :
        (w : W)
        → j.status.phase ≡ terminating
        → stored w ≡ some j
        → Next j (stored (reconcile_terminating c w j).world)
    unfolding reconcile_terminating
    terminating-Next w p h =
        answered (c.list_pods w j.namespace "muto.io/job" j.name)
          (store.list_pods_keeps w j.namespace "muto.io/job" j.name ∙ h)
      where
        gone : (v : W) → stored v ≡ some j → Next j (stored (c.delete_job v j.namespace j.name).0)
        gone v k = elim (store.deletes v j.namespace j.name ns n) [
          | inl e ↦ inl (e ∙ k)
          | inr e ↦ inr (inr (e, p))
        ]

        removed :
            (v : W) (o : Option Error)
            → stored v ≡ some j
            → Next j (stored (deleted c j (v, o)).world)
        removed v (some e) k = inl k
        removed v none k = subst (Next j) (ground arith) (gone v k)

        answered :
            (r : W × Result ApiError (List Pod))
            → stored r.0 ≡ some j
            → Next j (stored (delete_listed c j r).world)
        answered (v, err e) k = inl k
        answered (v, ok pods) k =
            removed (delete_pods c v pods).0 (delete_pods c v pods).1
              (delete_pods-keeps c namespace name store v pods ∙ k)

    dispatch-Next :
        (w : W) → stored w ≡ some j → Next j (stored (dispatch c j.status.phase w j).world)
    unfolding dispatch initial_phase
    dispatch-Next w h = by_phase j.status.phase refl
      where
        by_phase : (q : Phase) → j.status.phase ≡ q → Next j (stored (dispatch c q w j).world)
        by_phase unset e = pending-Next c namespace name store j ns n w (rw e refl) h
        by_phase pending e = pending-Next c namespace name store j ns n w (rw e refl) h
        by_phase running e = running-Next w e h
        by_phase succeeded e = terminal-Next w (inl e) h
        by_phase failed e = terminal-Next w (inr e) h
        by_phase terminating e = terminating-Next w e h
        by_phase (Phase.other p) e = inl h

  -- While nobody else writes the stored AgentJob (JobStore), one Reconcile call leaves it as it
  -- is, moves its phase one step along the life cycle with its specification as it was, or deletes
  -- it when it is Terminating. This holds with every answer of the API server, errors included.
  pub reconcile-Next :
      (w : W) (j : AgentJob)
      → stored w ≡ some j
      → Next j (stored (reconcile c w namespace name).world)
  unfolding reconcile observe_reconcile
  reconcile-Next w j h = answered (c.get_job w namespace name).1 refl
    where
      kept : stored (c.get_job w namespace name).0 ≡ some j
      kept = store.get_job_keeps w namespace name ∙ h

      missing :
          (w' : W) (e : ApiError)
          → stored w' ≡ some j
          → Next j (stored (ignore_not_found w' e).world)
      missing w' not_found k = inl k
      missing w' already_exists k = inl k
      missing w' (ApiError.failure m) k = inl k

      seen : (a : Answer W) → stored (observe_reconcile c "agentjob" a).world ≡ stored a.world
      seen a = store.observe_keeps a.world "agentjob" (status_label a.error)

      answered :
          (r : Result ApiError AgentJob)
          → (c.get_job w namespace name).1 ≡ r
          → Next j (stored (reconcile c w namespace name).world)
      answered (err e) k =
          let w' = (c.get_job w namespace name).0 in
          rw (k, reconcile)
            (subst (Next j) (sym (seen (ignore_not_found w' e))) (missing w' e kept))
      answered (ok j') k =
          let w' = (c.get_job w namespace name).0 in
          let (there, ns, n) = store.got w k in
          let same : j' ≡ j = some-injective j' j (sym there ∙ h) in
          let next = dispatch-Next j' ns n w' (store.get_job_keeps w namespace name ∙ there) in
          rw (k, reconcile)
            (subst (Next j) (sym (seen (dispatch c j'.status.phase w' j')))
              (subst (λ q. Next q (stored (dispatch c j'.status.phase w' j').world)) same next))
