-- ===== src/Server/Observing.antt =====
-- mcp/server/server.go over core/scheduler/scheduler.go: one client's calls, one after another.
use mathlib.Core.List.{Memᴰ}
use muto.Prelude.{
  ◌≡◌, inl, inr, refl, sym, ap, ◌∙◌, String, false, Option, none, some, List, ok, arith,
}
use muto.Prelude.Int.{ℤ}
use muto.Agent.{running, Status, Job, zero_status}
use muto.Scheduler.{State, Error}
use muto.Scheduler.Adapter.{PlatformAdapter, Lawful}
use muto.Tools.{Scheduler, schedule_agent_job, get_job_status, list_active_agents}
use muto.Tools.Served.{default_scheduler, running_job, schedule_agent_job_served}
use muto.Server.Library.{Request, Mcp, Documented, Json, Formats}
use muto.Server.{
  marshalled, handle_schedule_agent_job, handle_get_job_status, handle_list_active_agents,
}
use muto.Server.Serving.{is_some, IsAnswer-flag, handle_schedule_agent_job_cases}

module _ {W E C R : Type 0} (mcp : Mcp R) (law : Documented mcp) (json : Json) (fmt : Formats)
    (text : Error E → String) (a : PlatformAdapter W E C) (lawful : Lawful a) where
  abbrev sched : Scheduler (State C × W) (Error E)
  sched = default_scheduler a

  -- The scheduler and the platform after the tool schedule_agent_job was called.
  abbrev pub after : State C × W → Request → State C × W
  after x req = (handle_schedule_agent_job mcp json fmt text sched x req).0

  pub unflagged : {F : Type 0} (failure : Option F) → is_some failure ≡ false → failure ≡ none
  unflagged none h = refl
  unflagged (some e) h = cc

  -- A call that was not answered by an error result has been served, without an error.
  not_refused :
      (x : State C × W) (req : Request) (r : R)
      → (handle_schedule_agent_job mcp json fmt text sched x req).1 ≡ (some r, none)
      → mcp.is_error r ≡ false
      → (id tenant image source : String) × (ttl : ℤ) × (req.require_string "job_id" ≡ ok id)
        × (req.require_string "tenant_id" ≡ ok tenant)
        × (after x req ≡ (schedule_agent_job sched x id tenant image source ttl).0)
        × ((schedule_agent_job sched x id tenant image source ttl).1 ≡ none)
  not_refused x req r h flag =
      elim (handle_schedule_agent_job_cases mcp law json fmt text sched x req) [
        | inl (unusable, same, (r', answer, flag')) ↦ ground (arith, sym answer ∙ h)
        | inr
              (
                usable,
                (
                  id,
                  tenant,
                  image,
                  source,
                  ttl,
                  e₁,
                  e₂,
                  e₃,
                  e₄,
                  is_ttl,
                  moved,
                  (r', answer, flag'),
                ),
              ) ↦
            (
              id,
              tenant,
              image,
              source,
              ttl,
              e₁,
              e₂,
              moved,
              unflagged (schedule_agent_job sched x id tenant image source ttl).1 (
                  sym (
                    IsAnswer-flag mcp
                      (is_some (schedule_agent_job sched x id tenant image source ttl).1)
                      (handle_schedule_agent_job mcp json fmt text sched x req).1 r
                      (r', answer, flag') h)
                  ∙ flag),
            )
      ]

  pub status_answer :
      (s : State C × W) (req : Request) (id : String) (st : Status)
      → req.require_string "job_id" ≡ ok id
      → (get_job_status sched s id).1 ≡ ok st
      → (handle_get_job_status mcp json fmt text sched s req).1
        ≡ marshalled mcp "marshal status: " (json.marshal_status st)
  unfolding handle_get_job_status
  status_answer s req id st h k = rw (h, k) refl

  list_answer :
      (s : State C × W) (req : Request) (tenant : String) (jobs : List Job)
      → req.require_string "tenant_id" ≡ ok tenant
      → (list_active_agents sched s tenant).1 ≡ ok jobs
      → (handle_list_active_agents mcp json fmt text sched s req).1
        ≡ marshalled mcp "marshal jobs: " (json.marshal_jobs jobs)
  unfolding handle_list_active_agents
  list_answer s req tenant jobs h k = rw (h, k) refl

  -- What the other two tools answer, to a request for the job and to one for its tenant.
  abbrev pub IsObserved : State C × W → Request → Request → Request → Type 0
  IsObserved x req status_req list_req =
      (id tenant image source : String) × (ttl : ℤ) × (jobs : List Job) × (req.require_string
          "job_id"
        ≡ ok id)
      × (req.require_string "tenant_id" ≡ ok tenant)
      × ((handle_get_job_status mcp json fmt text sched (after x req) status_req).1
          ≡ marshalled mcp "marshal status: "
              (json.marshal_status (record zero_status { phase = running })))
      × ((handle_list_active_agents mcp json fmt text sched (after x req) list_req).1
          ≡ marshalled mcp "marshal jobs: " (json.marshal_jobs jobs))
      × Memᴰ (running_job id tenant image source ttl) jobs

  -- On a lawful platform, once the tool schedule_agent_job has answered with no error result, and
  -- before any watcher of the job reports that it is over, a get_job_status call with the same
  -- job id is answered with the status Running, with no active agents and no start time in it,
  -- and a list_active_agents call with the same tenant id with jobs among which this one stands
  -- as Running, each as json.Marshal prints it.
  pub schedule-IsObserved :
      (x : State C × W) (req status_req list_req : Request) (r : R)
      → (handle_schedule_agent_job mcp json fmt text sched x req).1 ≡ (some r, none)
      → mcp.is_error r ≡ false
      → status_req.require_string "job_id" ≡ req.require_string "job_id"
      → list_req.require_string "tenant_id" ≡ req.require_string "tenant_id"
      → IsObserved x req status_req list_req
  schedule-IsObserved x req status_req list_req r h flag same_id same_tenant =
      let (id, tenant, image, source, ttl, e₁, e₂, moved, accepted) = not_refused x req r h flag in
      let (jobs, status, listed, there) =
        schedule_agent_job_served a lawful x id tenant image source ttl accepted in
      (
        id,
        tenant,
        image,
        source,
        ttl,
        jobs,
        e₁,
        e₂,
        status_answer (after x req) status_req id (record zero_status { phase = running })
            (same_id ∙ e₁) (ap (λ s. (get_job_status sched s id).1) moved ∙ status),
        list_answer (after x req) list_req tenant jobs (same_tenant ∙ e₂)
            (ap (λ s. (list_active_agents sched s tenant).1) moved ∙ listed),
        there,
      )
