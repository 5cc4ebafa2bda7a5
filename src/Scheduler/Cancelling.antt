-- ===== src/Scheduler/Cancelling.antt =====
-- core/scheduler/scheduler.go, Cancel as a whole, and what Status and ListActive show.
use muto.Prelude.{
  ℕ, String, Option, none, some, ◌∷◌, ◌≡◌, refl, ◌≢◌, arith, ◌⊎◌, inl, inr, Option-cases, ap, ◌∙◌,
}
use muto.Prelude.Dict.{lookup, insert, lookup-insert_self}
use muto.Agent.{terminating, running, succeeded, failed, Phase}
use muto.Scheduler.StateMachine.{transition, cancelled, ◌⟶◌, stop, clean_succeeded, clean_failed}
use muto.Scheduler.{
  State, JobRecord, Error, Refusal, phase_of, with_phase, terminate_agents, cancel, commit_cancel,
  after_terminate, settle, end_context,
}
use muto.Scheduler.Adapter.{PlatformAdapter, Lawful}
use muto.Scheduler.Effects.{AllDead, terminate_agents-dead}

-- The second section on a job of phase `p`: refused with the jobs as they were, or Terminating.
abbrev Settled :
    {C : Type 0} → State C → String → ℕ → JobRecord → Phase → State C × Option Refusal → Type 0
Settled s id ctx r p out =
    ((out.1 ≢ none) × (out.0.jobs ≡ s.jobs))
    ⊎ ((out.1 ≡ none)
        × (p ⟶ terminating)
        × (out.0.jobs ≡ insert id (with_phase terminating r) s.jobs)
        × (out.0.ended ≡ ctx ∷ s.ended))

settle-Settled :
    {C : Type 0} (s : State C) (id : String) (ctx : ℕ) (r : JobRecord) (p : Phase)
    → Settled s id ctx r p (settle (end_context ctx s) id r (transition p cancelled))
unfolding settle transition
settle-Settled s id ctx r running = inr (refl, stop, refl, refl)
settle-Settled s id ctx r succeeded = inr (refl, clean_succeeded, refl, refl)
settle-Settled s id ctx r failed = inr (refl, clean_failed, refl, refl)
settle-Settled s id ctx r p = inl (λ h. cc, refl)

commit_cancel-Settled :
    {C : Type 0} (s : State C) (id : String) (ctx : ℕ) (r : JobRecord)
    → lookup id s.jobs ≡ some r
    → Settled s id ctx r (phase_of r) (commit_cancel s id ctx)
unfolding commit_cancel
commit_cancel-Settled s id ctx r e = rw (e, commit_cancel) (settle-Settled s id ctx r (phase_of r))

module _ {W E C : Type 0} (a : PlatformAdapter W E C) where
  after_terminate-failed :
      (s : State C) (id : String) (r : JobRecord) (out : W × Option (Error E)) {e : Error E}
      → lookup id s.jobs ≡ some r
      → (after_terminate a s id r.watch out).2 ≡ some e
      → (after_terminate a s id r.watch out).0.jobs ≡ s.jobs
  unfolding after_terminate
  after_terminate-failed s id r (w, some x) h g = refl
  after_terminate-failed s id r (w, none) h g = elim (commit_cancel-Settled s id r.watch r h) [
    | inl (_, same) ↦ same
    | inr (fine, _, _, _) ↦ ground (arith, fine)
  ]

  -- A Cancel that returns an error, whichever it is, leaves the map of jobs as it was.
  pub cancel_failed :
      (s : State C) (w : W) (id : String) {e : Error E}
      → (cancel a s w id).2 ≡ some e
      → (cancel a s w id).0.jobs ≡ s.jobs
  unfolding cancel
  cancel_failed s w id h = elim (Option-cases (lookup id s.jobs)) [
    | inl e ↦ rw (e, cancel) refl
    | inr (r, e) ↦
        rw (e, cancel)
          (after_terminate-failed s id r (terminate_agents a w r.agent_ids) e (rw (e, cancel) at h))
  ]

  -- A Cancel that succeeds leaves of the platform the terminations, all of which have succeeded.
  pub cancel_ok-world :
      (s : State C) (w : W) (id : String) (r : JobRecord)
      → lookup id s.jobs ≡ some r
      → (cancel a s w id).2 ≡ none
      → ((cancel a s w id).1 ≡ (terminate_agents a w r.agent_ids).0)
        × ((terminate_agents a w r.agent_ids).1 ≡ none)
  unfolding cancel after_terminate
  cancel_ok-world s w id r e h =
      rw (e, cancel) (after (terminate_agents a w r.agent_ids) (rw (e, cancel) at h))
    where
      after :
          (out : W × Option (Error E))
          → (after_terminate a s id r.watch out).2 ≡ none
          → ((after_terminate a s id r.watch out).1 ≡ out.0) × (out.1 ≡ none)
      after (v, some x) g = ground (arith, g)
      after (v, none) g = (refl, refl)

module _ {W E C : Type 0} (a : PlatformAdapter W E C) (law : Lawful a) where
  -- A job that was cancelled.
  pub record IsCancelled (s t : State C) (w : W) (id : String) : Type 0 where
    pub before : JobRecord
    pub found : lookup id s.jobs ≡ some before
    pub edge : phase_of before ⟶ terminating
    pub after : lookup id t.jobs ≡ some (with_phase terminating before)
    pub unwatched : t.ended ≡ before.watch ∷ s.ended
    pub stopped : AllDead a law w before.agent_ids

  after_terminate-ok :
      (s : State C) (id : String) (r : JobRecord) (out : W × Option (Error E))
      → lookup id s.jobs ≡ some r
      → (out.1 ≡ none → AllDead a law out.0 r.agent_ids)
      → (after_terminate a s id r.watch out).2 ≡ none
      → IsCancelled s
          (after_terminate a s id r.watch out).0
          (after_terminate a s id r.watch out).1
          id
  unfolding after_terminate
  after_terminate-ok s id r (w, some x) h dead g = cc
  after_terminate-ok s id r (w, none) h dead g = elim (commit_cancel-Settled s id r.watch r h) [
    | inl (bad, _) ↦ absurd (bad (ground arith))
    | inr (_, edge, jobs, ended) ↦ record {
      before = r;
      found = h;
      edge = edge;
      after = ap (lookup id) jobs ∙ lookup-insert_self id (with_phase terminating r) s.jobs;
      unwatched = ended;
      stopped = dead refl;
    }
  ]

  -- On a lawful platform, a Cancel that returns no error found the job in a phase with an edge to
  -- Terminating, so not one that was cancelled before; the job is then Terminating with all else
  -- as before, its watch context is ended, and none of its agents is alive: each has been told to
  -- stop or is gone. Nothing waits for an agent to stop.
  pub cancel_ok :
      (s : State C) (w : W) (id : String)
      → (cancel a s w id).2 ≡ none
      → IsCancelled s (cancel a s w id).0 (cancel a s w id).1 id
  unfolding cancel
  cancel_ok s w id h = elim (Option-cases (lookup id s.jobs)) [
    | inl e ↦ absurd (ground (arith, e))
    | inr (r, e) ↦
        rw (e, cancel)
          (after_terminate-ok s id r (terminate_agents a w r.agent_ids) e
            (terminate_agents-dead a law w r.agent_ids) (rw (e, cancel) at h))
  ]
