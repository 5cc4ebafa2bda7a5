-- ===== src/Tools/Stopped.antt =====
-- mcp/tools/tools.go over core/scheduler/scheduler.go: the tools on a job that was cancelled.
use muto.Prelude.{String, none, some, ok, ◌≡◌, ap, ◌∙◌, arith, Option-cases, inl, inr, refl}
use muto.Prelude.Dict.{lookup}
use muto.Agent.{terminating}
use muto.Scheduler.{State, Error, JobRecord, phase_of, with_phase, status, cancel}
use muto.Scheduler.StateMachine.{terminating-no_edge}
use muto.Scheduler.Adapter.{PlatformAdapter, Lawful}
use muto.Scheduler.Cancelling.{IsCancelled, cancel_ok, cancel_failed}
use muto.Tools.{Scheduler, get_job_status, cancel_job}
use muto.Tools.Served.{default_scheduler}

module _ {W E C : Type 0} (a : PlatformAdapter W E C) (law : Lawful a) where
  abbrev tools : Scheduler (State C × W) (Error E)
  tools = default_scheduler a

  -- A job that is Terminating already: Cancel returns an error, and the jobs stay.
  cancel_again :
      (s : State C) (w : W) (id : String) (r : JobRecord)
      → lookup id s.jobs ≡ some r
      → phase_of r ≡ terminating
      → (e : Error E) × ((cancel a s w id).2 ≡ some e) × ((cancel a s w id).0.jobs ≡ s.jobs)
  cancel_again s w id r h p = elim (Option-cases (cancel a s w id).2) [
    | inl fine ↦
        let done = cancel_ok a law s w id fine in
        let same : done.before ≡ r = ground (arith, done.found, h) in
        absurd (terminating-no_edge done.edge (ap phase_of same ∙ p))
    | inr (e, bad) ↦ (e, bad, cancel_failed a s w id bad)
  ]

  -- On a lawful platform, a job that the tool cancel_job has cancelled without an error is Terminating
  -- for the tool get_job_status, and a second cancel_job returns an error and leaves the jobs.
  pub cancel_job_served :
      (x : State C × W) (id : String)
      → (cancel_job tools x id).1 ≡ none
      → (done : IsCancelled a law x.0 (cancel_job tools x id).0.0 (cancel_job tools x id).0.1 id)
        × ((get_job_status tools (cancel_job tools x id).0 id).1
            ≡ ok (with_phase terminating done.before).job.status)
        × (e : Error E) × ((cancel_job tools (cancel_job tools x id).0 id).1 ≡ some e)
        × ((cancel_job tools (cancel_job tools x id).0 id).0.0.jobs
            ≡ (cancel_job tools x id).0.0.jobs)
  unfolding cancel_job get_job_status default_scheduler status
  cancel_job_served x id h =
      let done = cancel_ok a law x.0 x.1 id h in
      let (e, refused, same) =
        cancel_again (cancel a x.0 x.1 id).0 (cancel a x.0 x.1 id).1 id
          (with_phase terminating done.before) done.after refl in
      (done, ground (arith, done.after), e, refused, same)
