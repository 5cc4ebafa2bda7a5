-- ===== src/K8s/AgentJob/Progress.antt =====
-- platform/k8s/reconcilers/agentjob_reconciler.go: Reconcile with SetupWithManager: a job gets somewhere, or
-- has a reason to wait and is looked at again.
use muto.Prelude.{
  String, true, none, some, List, [], ◌∷◌, ok, ◌≡◌, refl, arith, ◌⊎◌, inl, inr, ◌∙◌, Bool-cases,
  Option-cases,
}
use muto.Prelude.Int.{ℤ, pos, ltb_ℤ, leb_ℤ, ◌≤ℤ◌, ◌-ℤ◌, -ℤ_positive}
use muto.Agent.{Phase, unset, pending, running, succeeded, failed, terminating}
use muto.Scheduler.{initial_phase}
use muto.Scheduler.StateMachine.{◌⟶◌}
use muto.K8s.Types.{AgentJob}
use muto.K8s.Client.{Client}
use muto.K8s.Answer.{Answer, Error, seconds, status_label, observe_reconcile}
use muto.K8s.Controllers.{Controller, Event, Request, Queueing, agent_job_controller, job_event}
use muto.K8s.AgentJob.{
  dispatch, reconcile, reconcile_terminal, reconcile_running, completed, expire,
}
use muto.K8s.AgentJob.Verdict.{reconcile_running-flags}
use muto.K8s.AgentJob.Ttl.{IsKept}
use muto.K8s.AgentJob.Store.{JobStore}
use muto.K8s.AgentJob.Advancing.{
  IsAdvanced, IsDeleting, HasWork, pending-IsAdvanced, running-IsAdvanced, terminal-IsAdvanced,
  terminating-IsDeleting,
}

module _ {W : Type 0} (c : Client W) (namespace name : String)
    (store : JobStore c namespace name) where
  open store use {stored}

  -- Nothing is left to do: the job is finished and kept for good, its deletion was accepted, or its
  -- phase is none of the known ones.
  abbrev pub IsAtRest : AgentJob → Type 0
  IsAtRest j =
      (((j.status.phase ≡ succeeded) ⊎ (j.status.phase ≡ failed))
        × ((j.spec.ttl_after_completion ≤ℤ pos 0) ⊎ (j.status.completed_at ≡ none)))
      ⊎ ((j.status.phase ≡ terminating) × IsDeleting c namespace name store j)
      ⊎ ((p : String) × (j.status.phase ≡ Phase.other p))

  -- What a call waits for: a running job has no pods or one that is not over, or a finished job's time
  -- to live has not passed.
  abbrev pub Waits : W → AgentJob → Type 0
  Waits w j =
      ((j.status.phase ≡ running) × HasWork c namespace name store w j)
      ⊎ (((j.status.phase ≡ succeeded) ⊎ (j.status.phase ≡ failed)) × IsKept (c.now w) j)

  abbrev pub IsPositive : ℤ → Type 0
  IsPositive d = ltb_ℤ (pos 0) d ≡ true

  module _ (j : AgentJob) (ns : j.namespace ≡ namespace) (n : j.name ≡ name) where
    abbrev pub IsNext : W → Answer W → Type 0
    IsNext w a =
        (IsPositive a.requeue_after × Waits w j)
        ⊎ IsAdvanced c namespace name store j a.world
        ⊎ IsAtRest j

    running-IsNext :
        (w : W)
        → j.status.phase ≡ running
        → (reconcile_running c w j).error ≡ none
        → IsNext w (reconcile_running c w j)
    running-IsNext w p h = elim (running-IsAdvanced c namespace name store j ns n w p h) [
      | inl moved ↦ inr (inl moved)
      | inr (pods, k, inl none_there) ↦
          inl (
            rw (reconcile_running-flags c w j, k) (ground arith),
            inl (p, (pods, k, inl none_there)),
          )
      | inr (pods, k, inr busy) ↦
          inl (
            rw (reconcile_running-flags c w j, k, busy) (ground arith),
            inl (p, (pods, k, inr busy)),
          )
    ]

    terminal-IsNext :
        (w : W)
        → (j.status.phase ≡ succeeded) ⊎ (j.status.phase ≡ failed)
        → (reconcile_terminal c w j).error ≡ none
        → IsNext w (reconcile_terminal c w j)
    unfolding reconcile_terminal completed expire
    terminal-IsNext w p h = elim (terminal-IsAdvanced c namespace name store j ns n w p h) [
      | inl moved ↦ inr (inl moved)
      | inr (inl unlimited) ↦ inr (inr (inl (p, inl unlimited)))
      | inr (inr (inl unknown)) ↦ inr (inr (inl (p, inr unknown)))
      | inr (inr (inr (t, e, left))) ↦
          elim (Bool-cases (leb_ℤ j.spec.ttl_after_completion (pos 0))) [
            | inl b ↦ inr (inr (inl (p, inl (ground arith))))
            | inr b ↦ inl (
              rw (b, e, left)
                  (-ℤ_positive (c.now w -ℤ t) (seconds j.spec.ttl_after_completion) left),
              inr (p, inr (inr (t, e, left))),
            )
          ]
    ]

    pub dispatch-IsNext :
        (w : W)
        → (dispatch c j.status.phase w j).error ≡ none
        → IsNext w (dispatch c j.status.phase w j)
    unfolding dispatch initial_phase
    dispatch-IsNext w h = by_phase j.status.phase refl h
      where
        by_phase :
            (q : Phase)
            → j.status.phase ≡ q
            → (dispatch c q w j).error ≡ none
            → IsNext w (dispatch c q w j)
        by_phase unset e k =
            inr (inl (pending-IsAdvanced c namespace name store j ns n w (rw e refl) k))
        by_phase pending e k =
            inr (inl (pending-IsAdvanced c namespace name store j ns n w (rw e refl) k))
        by_phase running e k = running-IsNext w e k
        by_phase succeeded e k = terminal-IsNext w (inl e) k
        by_phase failed e k = terminal-IsNext w (inr e) k
        by_phase terminating e k =
            inr (inr (inr (inl (e, terminating-IsDeleting c namespace name store j ns n w k))))
        by_phase (Phase.other p) e k = inr (inr (inr (inr (p, e))))

  -- Why a job is not forgotten after the call `a`, which read it and was then in the state `w`.
  abbrev pub HasProgress : (Controller → Event → List Request) → W → AgentJob → Answer W → Type 0
  HasProgress requests w j a =
      ((e : Error) × (a.error ≡ some e))
      ⊎ (IsPositive a.requeue_after × Waits w j)
      ⊎ ((j' : AgentJob) × (stored a.world ≡ some j')
          × (initial_phase j.status.phase ⟶ j'.status.phase)
          × (requests agent_job_controller (job_event j')
              ≡ record { namespace = namespace; name = name } ∷ []))
      ⊎ IsAtRest j

  next-HasProgress :
      (requests : Controller → Event → List Request)
      → Queueing requests
      → (j : AgentJob) (ns : j.namespace ≡ namespace) (n : j.name ≡ name) (w : W) (a b : Answer W)
      → a.error ≡ b.error
      → a.requeue_after ≡ b.requeue_after
      → stored a.world ≡ stored b.world
      → IsNext j ns n w b
      → HasProgress requests w j a
  next-HasProgress requests q j ns n w a b same_error same_time same (inl (later, why)) =
      inr (inl (rw same_time later, why))
  next-HasProgress requests q j ns n w a b same_error same_time same
        (inr (inl (j', there, edge, ns', n'))) =
      inr (
        inr (
          inl (
            j',
            same ∙ there,
            edge,
            q.for_lem agent_job_controller (job_event j') refl ∙ rw (ns', n') refl,
          )))
  next-HasProgress requests q j ns n w a b same_error same_time same (inr (inr rest)) =
      inr (inr (inr rest))

  -- While nobody else writes the stored AgentJob (JobStore), and controller-runtime queues requests as it
  -- documents (Queueing), a job is not forgotten. A Reconcile call that reads it returns an error; or it
  -- has moved the stored job a step along its life cycle, a change for which SetupWithManager has this
  -- job's request queued; or it asks to be called again after a positive time and has a reason to wait:
  -- the job is running and has no pods or one that is not over, or it is finished and its time to live
  -- has not passed. Otherwise nothing is left to do: the job is finished, and has no time to live or no
  -- known completion, its deletion was accepted, or its phase is none of the known ones.
  pub reconcile-HasProgress :
      (requests : Controller → Event → List Request)
      → Queueing requests
      → (w : W) (j : AgentJob) → (c.get_job w namespace name).1 ≡ ok j
      → HasProgress requests (c.get_job w namespace name).0 j (reconcile c w namespace name)
  unfolding reconcile observe_reconcile
  reconcile-HasProgress requests q w j found =
      let w' = (c.get_job w namespace name).0 in
      let (there, ns, n) = store.got w found in
      let b = dispatch c j.status.phase w' j in
      let kept = store.observe_keeps b.world "agentjob" (status_label b.error) in
      elim (Option-cases b.error) [
        | inr (e, failed_with) ↦ inl (e, rw found failed_with)
        | inl quiet ↦ rw found (
            next-HasProgress requests q j ns n w' (observe_reconcile c "agentjob" b) b refl refl
              kept (dispatch-IsNext j ns n w' quiet))
      ]
