-- ===== src/Examples/SchedulerRuns.antt =====
-- Runs of core/scheduler: a job of two agents, on the platform of Examples/Platform.
use muto.Prelude.{ℕ, String, true, none, some, List, [], ◌∷◌, refl, ◌≡◌, length, arith, All}
use muto.Prelude.Int.{ℤ}
use muto.Prelude.Dict.{lookup, insert}
use muto.Agent.{
  Phase, pending, running, failed, terminating, AgentRole, Job, Event, EventType, zero_status,
  zero_trigger, zero_bus,
}
use muto.Scheduler.{
  State, JobRecord, spawn_failed, new_default_scheduler, enroll, schedule, cancel, role_spec,
  spawn_agents, watch_agents, commit, commit_cancel, terminate_agents, initial_phase,
}
use muto.Scheduler.StateMachine.{InvalidTransition, transition, cancelled}
use muto.Scheduler.Watch.{finish, watch_job, collect, Merge, closed, receive, first, later}
use muto.Scheduler.Watch.FanIn.{sums, watch_job-Merge, watch_job-cut_off}
use muto.Scheduler.Evolution.{Evolves, IsRegistered}
use muto.Scheduler.Interleaving.{
  Call, System, Take, Reach, arrive, commits, asks, cancels, reports, here, more, initial,
  Reach-Registered, Reach-Evolves, Reach-terminating,
}
use muto.Scheduler.Scheduling.{Scheduled, schedule_failed, schedule_ok, schedule_leaks}
use muto.Scheduler.Cancelling.{IsCancelled, cancel_ok}
use muto.Examples.Platform.{names, names-Lawful}

abbrev role : String → String → AgentRole
role name image = record { role = name; image = image; command = ""; max_replicas = ℤ.pos 1 }

abbrev job_of : List AgentRole → Job
job_of roles = record {
  id = "job-1";
  tenant_id = "acme";
  spec = record {
    tenant_ref = "acme";
    trigger = zero_trigger;
    agents = roles;
    message_bus = zero_bus;
    ttl_after_completion = ℤ.pos 60;
  };
  status = zero_status;
}

abbrev two_roles : List AgentRole
two_roles = role "reader" "img" ∷ role "writer" "img" ∷ []

abbrev pub job : Job
job = job_of two_roles

-- The second role has no image, and is refused.
abbrev half_job : Job
half_job = job_of (role "reader" "img" ∷ role "writer" "" ∷ [])

abbrev empty : State ℕ
empty = new_default_scheduler

abbrev pub ids : List String
ids = "reader" ∷ "writer" ∷ []

abbrev chans : List ℕ
chans = 0 ∷ 0 ∷ []

-- The state with the job in a phase.
abbrev with_job : Phase → State ℕ
with_job p = record {
  jobs = ("job-1", enroll job ids 0 p) ∷ [];
  contexts = 1;
  ended = [];
  watchers = record { job_id = "job-1"; chans = chans } ∷ [];
}

schedule_run : schedule names empty [] job ≡ (with_job running, "writer" ∷ "reader" ∷ [], none)
unfolding schedule spawn_agents watch_agents role_spec commit initial_phase transition insert lookup
schedule_run = refl

schedule_ok_example :
    Scheduled names names-Lawful empty
      (schedule names empty [] job).0
      (schedule names empty [] job).1
      job
unfolding schedule spawn_agents watch_agents role_spec commit initial_phase transition insert lookup
schedule_ok_example = schedule_ok names names-Lawful empty [] job refl

schedule_failed_example :
    ((schedule names (with_job running) [] job).0.jobs ≡ (with_job running).jobs)
    × ((schedule names (with_job running) [] job).0.watchers ≡ (with_job running).watchers)
unfolding schedule spawn_agents watch_agents role_spec commit initial_phase transition insert lookup
schedule_failed_example = schedule_failed names (with_job running) [] job refl

-- The agent that is left behind.
abbrev spawned_ids : List String
spawned_ids = "reader" ∷ []

schedule_leaks_example :
    ((schedule names empty [] half_job).2 ≡ some (spawn_failed "writer" "no image"))
    × ((schedule names empty [] half_job).0 ≡ empty)
    × (length spawned_ids ≡ length (role "reader" "img" ∷ []))
    × All (λ id. names-Lawful.alive (schedule names empty [] half_job).1 id ≡ true) spawned_ids
unfolding spawn_agents role_spec
schedule_leaks_example =
    schedule_leaks names names-Lawful empty [] half_job (role "reader" "img" ∷ [])
      (role "writer" "") [] spawned_ids "no image" refl refl refl

cancel_ok_example :
    IsCancelled names names-Lawful
      (with_job running)
      (cancel names (with_job running) ids "job-1").0
      (cancel names (with_job running) ids "job-1").1
      "job-1"
unfolding cancel terminate_agents commit_cancel transition lookup insert
cancel_ok_example = cancel_ok names names-Lawful (with_job running) ids "job-1" refl

abbrev refusal : InvalidTransition
refusal = record { current = pending; event = cancelled }

abbrev said : String → EventType → Event
said id type = record { agent_id = id; type = type; message = "" }

-- The reader completes, and the writer fails first.
abbrev channels : List (List Event)
channels = (said "reader" EventType.completed ∷ []) ∷ (said "writer" EventType.failed ∷ []) ∷ []

abbrev arrived : List Event
arrived = said "writer" EventType.failed ∷ said "reader" EventType.completed ∷ []

abbrev drained : List (List Event)
drained = [] ∷ [] ∷ []

abbrev arrives : Merge channels arrived
arrives = receive (later first) (receive first (closed none_left))
  where
    none_left : All (λ c. c ≡ []) drained
    none_left = (refl, (refl, tt))

watch_job-Merge_example :
    watch_job (with_job running) "job-1" 2 arrived
    ≡ finish (with_job running) "job-1" (sums channels)
watch_job-Merge_example =
    watch_job-Merge (with_job running) "job-1" channels arrived arrives (refl, (refl, tt))

watch_job-Merge_run : watch_job (with_job running) "job-1" 2 arrived ≡ with_job failed
unfolding watch_job collect finish lookup insert
watch_job-Merge_run = refl

-- The context ends before the writer has reported.
abbrev cut_channels : List (List Event)
cut_channels = (said "reader" EventType.completed ∷ []) ∷ [] ∷ []

watch_job-cut_off_example :
    watch_job (with_job running) "job-1" 2 (said "reader" EventType.completed ∷ [])
    ≡ with_job running
watch_job-cut_off_example =
    watch_job-cut_off (with_job running) "job-1" 2 cut_channels
      (said "reader" EventType.completed ∷ [])
      (receive first (closed {cs = drained} (refl, (refl, tt)))) (omega arith)

-- The scheduled job, its watcher under way.
abbrev up : System ℕ
up = record { state = with_job running; calls = Call.watching "job-1" 2 ∷ [] }

-- The job cancelled while its watcher had not reported.
abbrev down : System ℕ
down = record {
  state = record (with_job terminating) { ended = 0 ∷ [] };
  calls = Call.watching "job-1" 2 ∷ [];
}

up_reached : Reach initial up
unfolding commit initial_phase transition lookup insert
up_reached = more (more here (arrive job ids chans)) (commits Take.first)

down_reached : Reach up down
unfolding commit_cancel transition lookup insert
down_reached = more (more here (asks "job-1" refl)) (cancels Take.first)

-- The watcher reports after the cancellation.
abbrev late : System ℕ
late = record { state = down.state; calls = [] }

late_reached : Reach down late
unfolding watch_job collect finish lookup insert
late_reached = more here (reports arrived Take.first)

Reach-Registered_example : IsRegistered "job-1" (enroll job ids 0 running)
unfolding lookup
Reach-Registered_example = Reach-Registered up_reached "job-1" (enroll job ids 0 running) refl

Reach-Evolves_example :
    (r : JobRecord) × (lookup "job-1" down.state.jobs ≡ some r)
    × Evolves (enroll job ids 0 running) r
unfolding lookup
Reach-Evolves_example =
    Reach-Evolves "job-1" (enroll job ids 0 running) up_reached down_reached refl

joined : Reach initial down
unfolding commit commit_cancel initial_phase transition lookup insert
joined =
    more (more (more (more here (arrive job ids chans)) (commits Take.first)) (asks "job-1" refl))
      (cancels Take.first)

Reach-terminating_example : lookup "job-1" late.state.jobs ≡ some (enroll job ids 0 terminating)
unfolding lookup
Reach-terminating_example =
    Reach-terminating "job-1" (enroll job ids 0 terminating) joined late_reached refl refl
