-- ===== src/Examples/ServerRuns.antt =====
-- Runs of mcp/server and of the traced scheduler, on the platform of Examples/Platform.
use muto.Prelude.{
  ℕ, ◌^◌, String, ◌==◌, Bool, true, false, some, List, [], ◌∷◌, ok, err, refl, All, if◌then◌else◌,
}
use muto.Prelude.Int.{pos}
use muto.Scheduler.{State, Error, new_default_scheduler}
use muto.Tools.{agent_job, schedule_agent_job, cancel_job}
use muto.Tools.Served.{default_scheduler}
use muto.Server.Observing.{IsObserved, schedule-IsObserved}
use muto.Server.Stopping.{IsStopped, cancel-IsStopped, after}
use muto.Scheduler.{
  cancel, terminate_agents, commit_cancel, schedule, spawn_agents, watch_agents, role_spec, commit,
  initial_phase,
}
use muto.Scheduler.StateMachine.{transition}
use muto.Prelude.Dict.{lookup, insert}
use muto.Server.{handle_schedule_agent_job, handle_cancel_job}
use muto.Tracing.{Traced}
use muto.Tracing.Transparent.{IsTransparent, traced_scheduler-IsTransparent}
use muto.Server.Library.{finite, Request, Mcp, Documented, Json, Formats}
use muto.Server.{registered_tools}
use muto.Server.Serving.{IsCase, handle_schedule_agent_job_cases}
use muto.Server.Refusing.{IsChecked, registered_tools-IsChecked}
use muto.Examples.Platform.{names, names-Lawful}
use muto.Examples.SchedulerRuns.{job}

-- A result is its error flag and its text.
abbrev plain_results : Mcp (Bool × String)
plain_results = record {
  new_tool_result_error = λ t. (true, t);
  new_tool_result_text = λ t. (false, t);
  is_error = λ r. r.0;
  content = λ r. some r.1 ∷ [];
}

plain_results-Documented : Documented plain_results
plain_results-Documented = record {
  error_is_error = λ t. refl;
  error_content = λ t. refl;
  text_is_no_error = λ t. refl;
}

abbrev json : Json
json = record {
  marshal_status = λ st. ok "{}";
  marshal_jobs = λ jobs. ok "[]";
  marshal_info = λ info. ok info.note;
}

abbrev formats : Formats
formats = record { quoted = λ s. s; float_text = λ f. "f"; unrepresentable = λ f. pos 0 }

abbrev some_text : Error String → String
some_text e = "failed"

-- All strings are there but the one of the given name, and the ttl is 60.5.
abbrev request_without : String → Request
request_without name = record {
  require_string = λ key. if key == name then err "missing" else ok key;
  get_float = λ key fallback. finite false 60 (2 ^ 1073);
}

abbrev fresh : State ℕ × List String
fresh = (new_default_scheduler, [])

handle_schedule_agent_job_cases_example :
    IsCase plain_results plain_results-Documented json formats some_text
      (default_scheduler names)
      fresh
      (request_without "")
handle_schedule_agent_job_cases_example =
    handle_schedule_agent_job_cases plain_results plain_results-Documented json formats some_text
      (default_scheduler names) fresh (request_without "")

abbrev no_spans : {S : Type 0} → S → Traced S
no_spans s = record { inner = s; spans = [] }

registered_tools-IsChecked_example :
    All
      (IsChecked plain_results (request_without "image") (no_spans fresh))
      (registered_tools plain_results json formats some_text (default_scheduler names))
registered_tools-IsChecked_example =
    registered_tools-IsChecked plain_results plain_results-Documented json formats some_text
      (default_scheduler names) (no_spans fresh) (request_without "image")

traced_scheduler-IsTransparent_example :
    IsTransparent
      (λ e. e)
      some_text
      names
      (no_spans (new_default_scheduler, no_spans []))
      job
      "job-1"
      "acme"
traced_scheduler-IsTransparent_example =
    traced_scheduler-IsTransparent (λ e. e) some_text names
      (no_spans (new_default_scheduler, no_spans [])) job "job-1" "acme"

abbrev full : Request
full = request_without ""

schedule-IsObserved_example :
    IsObserved plain_results plain_results-Documented json formats some_text names names-Lawful
      fresh full full full
unfolding handle_schedule_agent_job schedule_agent_job default_scheduler agent_job schedule
    spawn_agents watch_agents role_spec commit initial_phase transition insert lookup
schedule-IsObserved_example =
    schedule-IsObserved plain_results plain_results-Documented json formats some_text names
      names-Lawful fresh full full full (false, "Job job_id scheduled successfully.") refl refl refl
      refl

-- After a call of schedule_agent_job.
abbrev served : State ℕ × List String
served =
    (handle_schedule_agent_job plain_results json formats some_text (default_scheduler names) fresh
      full).0

cancel-IsStopped_example :
    IsStopped plain_results plain_results-Documented json formats some_text names names-Lawful
      served
      (after plain_results plain_results-Documented json formats some_text names names-Lawful served
        full)
      full
      full
      full
unfolding handle_schedule_agent_job schedule_agent_job default_scheduler agent_job schedule
    spawn_agents watch_agents role_spec commit initial_phase transition insert lookup
    handle_cancel_job cancel_job cancel terminate_agents commit_cancel
cancel-IsStopped_example =
    cancel-IsStopped plain_results plain_results-Documented json formats some_text names
      names-Lawful served full full full (false, "Job job_id cancelled successfully.") refl refl
      refl refl
