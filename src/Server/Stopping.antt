-- ===== src/Server/Stopping.antt =====
-- mcp/server/server.go over core/scheduler/scheduler.go: cancel_job, and the calls that follow it.
use muto.Prelude.{
  ◌≡◌, sym, subst, ap, ◌∙◌, String, ◌<>◌, true, false, none, some, Result-cases, inl, inr, ok,
  arith,
}
use muto.Agent.{terminating}
use muto.Scheduler.{State, Error, with_phase}
use muto.Scheduler.Adapter.{PlatformAdapter, Lawful}
use muto.Scheduler.Cancelling.{IsCancelled}
use muto.Tools.{Scheduler, cancel_job}
use muto.Tools.Served.{default_scheduler}
use muto.Tools.Stopped.{cancel_job_served}
use muto.Server.Library.{Request, Mcp, Documented, Json, Formats}
use muto.Server.{marshalled, handle_cancel_job, handle_get_job_status}
use muto.Server.Serving.{IsAnswer, IsAnswer-flag, confirmed-IsAnswer, failed-IsAnswer, is_some}
use muto.Server.Observing.{unflagged, status_answer}

module _ {W E C R : Type 0} (mcp : Mcp R) (law : Documented mcp) (json : Json) (fmt : Formats)
    (text : Error E → String) (a : PlatformAdapter W E C) (lawful : Lawful a) where
  abbrev sched : Scheduler (State C × W) (Error E)
  sched = default_scheduler a

  -- The scheduler and the platform after the tool cancel_job was called.
  abbrev pub after : State C × W → Request → State C × W
  after x req = (handle_cancel_job mcp json fmt text sched x req).0

  -- With the id there, the handler is one call of CancelJob.
  cancel_served :
      (x : State C × W) (req : Request) (id : String)
      → req.require_string "job_id" ≡ ok id
      → ((handle_cancel_job mcp json fmt text sched x req).0 ≡ (cancel_job sched x id).0)
        × IsAnswer mcp
            (is_some (cancel_job sched x id).1)
            (handle_cancel_job mcp json fmt text sched x req).1
  unfolding handle_cancel_job
  cancel_served x req id h = rw h (
      confirmed-IsAnswer mcp law json fmt text sched "cancel_job failed: "
        ("Job " <> fmt.quoted id <> " cancelled successfully.") (cancel_job sched x id))

  -- A call that was not answered by an error result has been served, without an error.
  not_refused :
      (x : State C × W) (req : Request) (r : R)
      → (handle_cancel_job mcp json fmt text sched x req).1 ≡ (some r, none)
      → mcp.is_error r ≡ false
      → (id : String) × (req.require_string "job_id" ≡ ok id)
        × (after x req ≡ (cancel_job sched x id).0)
        × ((cancel_job sched x id).1 ≡ none)
  unfolding handle_cancel_job
  not_refused x req r h flag = elim (Result-cases (req.require_string "job_id")) [
    | inr (e, bad) ↦
        let answer = failed-IsAnswer mcp law json fmt text sched e in
        absurd (
          ground (
            arith,
            IsAnswer-flag mcp true (handle_cancel_job mcp json fmt text sched x req).1 r
                (rw bad answer) h,
            flag,
          ))
    | inl (id, there) ↦
        let (moved, answer) = cancel_served x req id there in
        (
          id,
          there,
          moved,
          unflagged mcp law json fmt text a lawful (cancel_job sched x id).1 (
              sym (
                IsAnswer-flag mcp (is_some (cancel_job sched x id).1)
                  (handle_cancel_job mcp json fmt text sched x req).1 r answer h)
              ∙ flag),
        )
  ]

  -- What became of the job of `req` from `x` to `y`, and what the tools answer about it.
  abbrev pub IsStopped : State C × W → State C × W → Request → Request → Request → Type 0
  IsStopped x y req status_req again_req =
      (id : String) × (done : IsCancelled a lawful x.0 y.0 y.1 id) × (req.require_string "job_id"
        ≡ ok id)
      × ((handle_get_job_status mcp json fmt text sched y status_req).1
          ≡ marshalled mcp "marshal status: "
              (json.marshal_status (with_phase terminating done.before).job.status))
      × IsAnswer mcp true (handle_cancel_job mcp json fmt text sched y again_req).1
      × ((after y again_req).0.jobs ≡ y.0.jobs)

  -- On a lawful platform, once the tool cancel_job has answered with no error result, the job was
  -- found and had an edge to Terminating; it is now Terminating, its watch context is ended and
  -- none of its agents is alive: each has been told to stop or is gone, and may take time to
  -- stop. A get_job_status call with the same job id, right after, is answered with its earlier
  -- status at phase Terminating, as json.Marshal prints it, and a second cancel_job call with
  -- this id with an error result; that call leaves all jobs as they are.
  pub cancel-IsStopped :
      (x : State C × W) (req status_req again_req : Request) (r : R)
      → (handle_cancel_job mcp json fmt text sched x req).1 ≡ (some r, none)
      → mcp.is_error r ≡ false
      → status_req.require_string "job_id" ≡ req.require_string "job_id"
      → again_req.require_string "job_id" ≡ req.require_string "job_id"
      → IsStopped x (after x req) req status_req again_req
  cancel-IsStopped x req status_req again_req r h flag same_id again_id =
      let (id, there, moved, fine) = not_refused x req r h flag in
      let (done, status, e, refused, kept) = cancel_job_served a lawful x id fine in
      let again = cancel_served (cancel_job sched x id).0 again_req id (again_id ∙ there) in
      subst (λ y. IsStopped x y req status_req again_req) (sym moved)
        (
          id,
          done,
          there,
          status_answer mcp law json fmt text a lawful (cancel_job sched x id).0 status_req id
              (with_phase terminating done.before).job.status (same_id ∙ there) status,
          subst
              (λ failure.
                IsAnswer mcp (is_some failure)
                  (handle_cancel_job mcp json fmt text sched (cancel_job sched x id).0 again_req).1)
              refused again.1,
          ap (λ y. y.0.jobs) again.0 ∙ kept,
        )
