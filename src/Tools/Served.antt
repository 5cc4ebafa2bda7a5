-- ===== src/Tools/Served.antt =====
-- mcp/tools/tools.go over core/scheduler/scheduler.go: DefaultScheduler as the Scheduler behind the tools.
use mathlib.Core.List.{Memᴰ}
use muto.Prelude.{String, Option, none, List, Result, ok, err, ◌≡◌, refl, arith}
use muto.Prelude.Int.{ℤ}
use muto.Agent.{running, Status, Job, zero_status}
use muto.Scheduler.{State, Error, Refusal, refused, enroll, schedule, cancel, status, list_active}
use muto.Scheduler.Adapter.{PlatformAdapter, Lawful}
use muto.Scheduler.Scheduling.{schedule_ok}
use muto.Scheduler.Listing.{list_active_complete}
use muto.Tools.{Scheduler, agent_job, schedule_agent_job, get_job_status, list_active_agents}

-- The job that the tool makes, once it runs.
abbrev pub running_job : String → String → String → String → ℤ → Job
running_job id tenant image source ttl = record (agent_job id tenant image source ttl) {
  status = record zero_status { phase = running };
}

module _ {W E C : Type 0} (a : PlatformAdapter W E C) where
  answered : State C × W × Option (Error E) → (State C × W) × Option (Error E)
  answered (s, w, e) = ((s, w), e)

  as_error : Result Refusal Status → Result (Error E) Status
  as_error (ok st) = ok st
  as_error (err e) = err (refused e)

  -- The methods of DefaultScheduler, on its state beside the platform's.
  unfoldable pub default_scheduler : Scheduler (State C × W) (Error E)
  unfolding answered as_error
  default_scheduler = record {
    schedule = λ x job. answered (schedule a x.0 x.1 job);
    cancel = λ x id. answered (cancel a x.0 x.1 id);
    status = λ x id. (x, as_error (status x.0 id));
    list_active = λ x tenant. (x, ok (list_active x.0 tenant));
  }

module _ {W E C : Type 0} (a : PlatformAdapter W E C) (law : Lawful a) where
  abbrev tools : Scheduler (State C × W) (Error E)
  tools = default_scheduler a

  -- On a lawful platform, a job that the tool schedule_agent_job has scheduled without an error is
  -- Running for the tool get_job_status, and stands as such among the jobs that list_active_agents
  -- gives to its tenant.
  pub schedule_agent_job_served :
      (x : State C × W) (id tenant image source : String) (ttl : ℤ)
      → (schedule_agent_job tools x id tenant image source ttl).1 ≡ none
      → (jobs : List Job) × ((get_job_status tools
            (schedule_agent_job tools x id tenant image source ttl).0
            id).1
          ≡ ok (record zero_status { phase = running }))
        × ((list_active_agents tools
              (schedule_agent_job tools x id tenant image source ttl).0
              tenant).1
            ≡ ok jobs)
        × Memᴰ (running_job id tenant image source ttl) jobs
  unfolding schedule_agent_job get_job_status list_active_agents default_scheduler agent_job status
  schedule_agent_job_served x id tenant image source ttl h =
      let job = agent_job id tenant image source ttl in
      let done = schedule_ok a law x.0 x.1 job h in
      let t = (schedule a x.0 x.1 job).0 in
      (
        list_active t tenant,
        ground (arith, done.bound),
        refl,
        list_active_complete t tenant id (enroll job done.ids x.0.contexts running) done.bound
            (refl, refl),
      )
