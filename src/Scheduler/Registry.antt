-- ===== src/Scheduler/Registry.antt =====
-- core/scheduler/scheduler.go: what each locked section does to the map of jobs.
use muto.Prelude.{
  ℕ, String, false, none, some, List, ◌≡◌, refl, ◌⊎◌, inl, inr, Option-cases, Bool-cases,
}
use muto.Prelude.Dict.{lookup, insert}
use muto.Agent.{Phase, pending, running, succeeded, failed, terminating, Job}
use muto.Scheduler.StateMachine.{
  transition, spawned, cancelled, ◌⟶◌, stop, clean_succeeded, clean_failed,
}
use muto.Scheduler.{
  State, JobRecord, phase_of, with_phase, enroll, initial_phase, Refusal, already_scheduled,
  invalid_phase, commit, commit_cancel, admit, settle, end_context,
}
use muto.Scheduler.Watch.{Tally, verdict, is_settled, finish}

module _ {C : Type 0} (s : State C) where
  admit_cases :
      (job : Job) (ids : List String) (ctx : ℕ) (chans : List C) (p : Phase)
      → ((e : Refusal) × (admit s job ids ctx chans (transition p spawned) ≡ (s, some e)))
        ⊎ ((p ≡ pending)
            × ((admit s job ids ctx chans (transition p spawned)).1 ≡ none)
            × ((admit s job ids ctx chans (transition p spawned)).0.jobs
                ≡ insert job.id (enroll job ids ctx running) s.jobs))
  unfolding admit transition
  admit_cases job ids ctx chans pending = inr (refl, refl, refl)
  admit_cases job ids ctx chans p =
      inl (invalid_phase (record { current = p; event = spawned }), refl)

  settle_cases :
      (id : String) (r : JobRecord) (p : Phase)
      → ((settle s id r (transition p cancelled)).0.jobs ≡ s.jobs)
        ⊎ ((p ⟶ terminating)
            × ((settle s id r (transition p cancelled)).0.jobs
                ≡ insert id (with_phase terminating r) s.jobs))
  unfolding settle transition
  settle_cases id r running = inr (stop, refl)
  settle_cases id r succeeded = inr (clean_succeeded, refl)
  settle_cases id r failed = inr (clean_failed, refl)
  settle_cases id r p = inl refl

module _ {C : Type 0} (s : State C) where
  -- Schedule's section refuses and changes nothing, or binds a free id in phase Running.
  pub commit_cases :
      (job : Job) (ids : List String) (ctx : ℕ) (chans : List C)
      → ((e : Refusal) × (commit s job ids ctx chans ≡ (s, some e)))
        ⊎ ((lookup job.id s.jobs ≡ none)
            × (initial_phase job.status.phase ≡ pending)
            × ((commit s job ids ctx chans).1 ≡ none)
            × ((commit s job ids ctx chans).0.jobs
                ≡ insert job.id (enroll job ids ctx running) s.jobs))
  unfolding commit
  commit_cases job ids ctx chans = elim (Option-cases (lookup job.id s.jobs)) [
    | inl e ↦
        rw (e, commit)
          (elim (admit_cases s job ids ctx chans (initial_phase job.status.phase)) [
            | inl x ↦ inl x
            | inr (a, b, c) ↦ inr (refl, a, b, c)
          ])
    | inr (r, e) ↦ inl (already_scheduled job.id, rw (e, commit))
  ]

  -- The second section of Cancel leaves the jobs, or moves one along an edge to Terminating.
  pub commit_cancel_cases :
      (id : String) (ctx : ℕ)
      → ((commit_cancel s id ctx).0.jobs ≡ s.jobs)
        ⊎ ((r : JobRecord) × (lookup id s.jobs ≡ some r)
            × (phase_of r ⟶ terminating)
            × ((commit_cancel s id ctx).0.jobs ≡ insert id (with_phase terminating r) s.jobs))
  unfolding commit_cancel
  commit_cancel_cases id ctx = elim (Option-cases (lookup id s.jobs)) [
    | inl e ↦ inl (rw (e, commit_cancel))
    | inr (r, e) ↦
        rw (e, commit_cancel)
          (elim (settle_cases (end_context ctx s) id r (phase_of r)) [
            | inl x ↦ inl x
            | inr (a, b) ↦ inr (r, refl, a, b)
          ])
  ]

  -- The end of watchJob leaves the jobs, or closes one that has no verdict yet.
  pub finish_cases :
      (id : String) (t : Tally)
      → ((finish s id t).jobs ≡ s.jobs)
        ⊎ ((r : JobRecord) × (lookup id s.jobs ≡ some r)
            × (is_settled (phase_of r) ≡ false)
            × ((finish s id t).jobs ≡ insert id (with_phase (verdict t) r) s.jobs))
  unfolding finish
  finish_cases id t = elim (Option-cases (lookup id s.jobs)) [
    | inl e ↦ inl (rw (e, finish))
    | inr (r, e) ↦ elim (Bool-cases (is_settled (phase_of r))) [
      | inl b ↦ rw (e, finish) (inl (rw b))
      | inr b ↦ rw (e, finish) (inr (r, refl, b, rw b))
    ]
  ]
