-- ===== src/K8s/AgentJob/PodsGone.antt =====
-- platform/k8s/reconcilers/agentjob_reconciler.go: the pods that reconcileTerminating takes down.
use muto.Prelude.{
  String, false, Option, none, some, List, [], ◌∷◌, Result, ok, err, ◌≡◌, refl, arith, All, ap, sym,
  ◌∙◌, subst,
}
use muto.K8s.Types.{AgentJob}
use muto.K8s.Objects.{Pod, ApiError, not_found, already_exists}
use muto.K8s.Client.{Client}
use muto.K8s.PodStore.{PodStore}
use muto.K8s.Answer.{Error}
use muto.K8s.AgentJob.{delete_pods, deleted, delete_listed, reconcile_terminating}

module _ {W : Type 0} (c : Client W) (store : PodStore c) where
  open store use {standing}

  abbrev pub AllReleased : W → List Pod → Type 0
  AllReleased w = All (λ p. standing w p.namespace p.name ≡ false)

  delete_pods-keeps_released :
      (w : W) (ps : List Pod) (ns n : String)
      → standing w ns n ≡ false
      → standing (delete_pods c w ps).0 ns n ≡ false
  unfolding delete_pods
  delete_pods-keeps_released w [] ns n h = h
  delete_pods-keeps_released w (p ∷ ps) ns n h =
      let kept = store.delete_keeps w p.namespace p.name ns n h in
      ground
        (arith, delete_pods-keeps_released (c.delete_pod w p.namespace p.name).0 ps ns n kept, kept)

  -- After a deletion of all pods with no error none of them stands.
  delete_pods-AllReleased :
      (w : W) (ps : List Pod)
      → (delete_pods c w ps).1 ≡ none
      → AllReleased (delete_pods c w ps).0 ps
  unfolding delete_pods
  delete_pods-AllReleased w [] h = tt
  delete_pods-AllReleased w (p ∷ ps) h =
      answered (delete_pods-AllReleased (c.delete_pod w p.namespace p.name).0 ps)
        (c.delete_pod w p.namespace p.name).1 refl
    where
      w' : W
      w' = (c.delete_pod w p.namespace p.name).0

      answered :
          ((delete_pods c w' ps).1 ≡ none → AllReleased (delete_pods c w' ps).0 ps)
          → (o : Option ApiError) → (c.delete_pod w p.namespace p.name).1 ≡ o
          → AllReleased (delete_pods c w (p ∷ ps)).0 (p ∷ ps)
      answered rest none e =
          let same : delete_pods c w (p ∷ ps) ≡ delete_pods c w' ps = rw (e, delete_pods) refl in
          subst (λ x. AllReleased x.0 (p ∷ ps)) (sym same)
            (
              delete_pods-keeps_released w' ps p.namespace p.name
                  (store.deleted w p.namespace p.name e),
              rest (sym (ap (λ x. x.1) same) ∙ h),
            )
      answered rest (some not_found) e =
          let same : delete_pods c w (p ∷ ps) ≡ delete_pods c w' ps = rw (e, delete_pods) refl in
          subst (λ x. AllReleased x.0 (p ∷ ps)) (sym same)
            (
              delete_pods-keeps_released w' ps p.namespace p.name
                  (store.gone w p.namespace p.name e),
              rest (sym (ap (λ x. x.1) same) ∙ h),
            )
      answered rest (some already_exists) e = ground (arith, e)
      answered rest (some (ApiError.failure m)) e = ground (arith, e)

  AllReleased-delete_job :
      (w : W) (ns n : String) (ps : List Pod)
      → AllReleased w ps
      → AllReleased (c.delete_job w ns n).0 ps
  AllReleased-delete_job w ns n [] h = tt
  AllReleased-delete_job w ns n (p ∷ ps) h =
      (store.delete_job_keeps w ns n p.namespace p.name h.0, AllReleased-delete_job w ns n ps h.1)

  deleted_ok :
      (job : AgentJob) (r : W × Option Error) (ps : List Pod)
      → (r.1 ≡ none → AllReleased r.0 ps)
      → (deleted c job r).error ≡ none
      → AllReleased (deleted c job r).world ps
        × ((deleted c job r).world ≡ (c.delete_job r.0 job.namespace job.name).0)
  unfolding deleted
  deleted_ok job (w, some e) ps released h = cc
  deleted_ok job (w, none) ps released h =
      let removed = c.delete_job w job.namespace job.name in
      let same : (deleted c job (w, none)).world ≡ removed.0 = ground arith in
      (
        subst (λ x. AllReleased x ps) (sym same)
            (AllReleased-delete_job w job.namespace job.name ps (released refl)),
        same,
      )

  -- While nobody else writes the pods (PodStore), when reconcileTerminating returns no error, the
  -- job's pods were listed, and each of them is gone or its deletion was accepted, which may leave it
  -- running for its grace period. The deletion of the job was the last call, made after those of the
  -- pods and without waiting for them.
  pub reconcile_terminating_ok :
      (w : W) (job : AgentJob)
      → (reconcile_terminating c w job).error ≡ none
      → (ps : List Pod) × ((c.list_pods w job.namespace "muto.io/job" job.name).1 ≡ ok ps)
        × AllReleased (reconcile_terminating c w job).world ps
        × ((reconcile_terminating c w job).world
            ≡ (c.delete_job
                (delete_pods c (c.list_pods w job.namespace "muto.io/job" job.name).0 ps).0
                job.namespace
                job.name).0)
  unfolding reconcile_terminating
  reconcile_terminating_ok w job h = answered (c.list_pods w job.namespace "muto.io/job" job.name) h
    where
      answered :
          (r : W × Result ApiError (List Pod))
          → (delete_listed c job r).error ≡ none
          → (ps : List Pod) × (r.1 ≡ ok ps)
            × AllReleased (delete_listed c job r).world ps
            × ((delete_listed c job r).world
                ≡ (c.delete_job (delete_pods c r.0 ps).0 job.namespace job.name).0)
      answered (v, err e) k = cc
      answered (v, ok ps) k =
          let (released, last) =
            deleted_ok job (delete_pods c v ps) ps (delete_pods-AllReleased v ps) k in
          (ps, refl, released, last)
