-- ===== src/Examples/AdapterRuns.antt =====
-- Runs of platform/k8s/adapter.go on the cluster of Examples/Cluster.
use muto.Prelude.{ℕ, String, false, some, List, [], ◌∷◌, ◌++◌, Result, ok, err, refl, ◌≡◌, All}
use muto.Prelude.Int.{pos}
use muto.Agent.{running, Job, AgentRole, Spec, zero_trigger, zero_bus}
use muto.Scheduler.{
  State, spawn_failed, new_default_scheduler, schedule, role_spec, spawn_agents, watch_agents,
  commit, initial_phase,
}
use muto.Scheduler.StateMachine.{transition}
use muto.Scheduler.Watch.FanIn.{IsDecided}
use muto.Prelude.Dict.{lookup, insert}
use muto.Tools.{agent_job}
use muto.K8s.Objects.{PodPhase, ApiError, already_exists}
use muto.K8s.Adapter.{create_failed, agent_pod, pod_name, spawn_agent, k8s_adapter, Poll, watch}
use muto.K8s.Adapter.Watching.{watch-IsDecided}
use muto.K8s.Adapter.Collision.{schedule_agent_job_twice}
use muto.Scheduler.{
  enroll, with_phase, JobRecord, cancel, terminate_agents, commit_cancel, terminate_all,
  already_scheduled,
}
use muto.Agent.{terminating}
use muto.K8s.Adapter.{terminate_agent}
use muto.K8s.Adapter.Promises.{k8s_cancel_ok}
use muto.K8s.Adapter.Promises.Undoing.{k8s_adapter-Exact, k8s_adapter-Reliable, k8s_schedule-cancel}
use muto.K8s.Adapter.Promises.{k8s_adapter-Lawful}
use muto.Scheduler.Adapter.{Lawful, Reliable}
use muto.Scheduler.Refused.{schedule_refused}
use muto.Examples.Cluster.{
  server, server-CreatesOnce, server-CreatesExactly, server-PodStore, server-deletes,
}
use muto.Examples.Cluster.Graceful.{graceful, graceful-PodStore, graceful-CreatesExactly}
use muto.Examples.Fixtures.{fresh, with_pod}

abbrev poll : Result ApiError PodPhase → Poll
poll a = record { answer = a; ended = false; takes_send = false; ends_in_wait = false }

abbrev polls : List Poll
polls = poll (ok (PodPhase.other "Running")) ∷ poll (err (ApiError.failure "timeout")) ∷ []

watch-IsDecided_example : IsDecided (watch "pod" (polls ++ poll (ok PodPhase.succeeded) ∷ []))
watch-IsDecided_example =
    watch-IsDecided "pod" polls (poll (ok PodPhase.succeeded)) []
      (((refl, refl), refl), (((refl, refl), refl), tt)) (refl, refl) refl

abbrev agent : String → AgentRole
agent image = record { role = "worker"; image = image; command = ""; max_replicas = pos 1 }

abbrev spec : String → Spec
spec image = record {
  tenant_ref = "acme";
  trigger = zero_trigger;
  agents = agent image ∷ [];
  message_bus = zero_bus;
  ttl_after_completion = pos 0;
}

abbrev empty : State (String × ℕ)
empty = new_default_scheduler

schedule_agent_job_twice_example :
    let (s, w, _) =
      schedule
        (k8s_adapter server "muto")
        empty
        fresh
        (agent_job "job-1" "acme" "a" "x" (pos 60)) in
    (schedule (k8s_adapter server "muto") s w (agent_job "job-2" "acme" "b" "y" (pos 60))).2
    ≡ some (spawn_failed "worker" (create_failed already_exists))
unfolding schedule spawn_agents watch_agents role_spec k8s_adapter spawn_agent agent_pod pod_name
    commit initial_phase transition insert lookup agent_job
schedule_agent_job_twice_example =
    schedule_agent_job_twice server "muto" server-CreatesOnce empty fresh "acme" "job-1" "job-2" "a"
      "b" "x" "y" (pos 60) (pos 60) refl

abbrev record_1 : JobRecord
record_1 = enroll (agent_job "job-1" "acme" "a" "x" (pos 60)) ("job-1-writer" ∷ []) 0 running

abbrev one_job : State (String × ℕ)
one_job = record { jobs = ("job-1", record_1) ∷ []; contexts = 1; ended = []; watchers = [] }

k8s_cancel_ok_example :
    let (t, w', _) = cancel (k8s_adapter graceful "acme") one_job (with_pod, []) "job-1" in
    (lookup "job-1" t.jobs ≡ some (with_phase terminating record_1))
    × All (λ agent. graceful-PodStore.standing w' "acme" agent ≡ false) ("job-1-writer" ∷ [])
unfolding cancel terminate_agents commit_cancel transition lookup insert k8s_adapter terminate_agent
k8s_cancel_ok_example =
    k8s_cancel_ok graceful "acme" graceful-PodStore one_job (with_pod, []) "job-1" record_1 refl
      refl

k8s_schedule-cancel_example :
    let job = agent_job "job-1" "acme" "a" "x" (pos 60) in
    let (s, w, _) = schedule (k8s_adapter graceful "muto") empty (fresh, []) job in
    graceful-PodStore.standing
      (cancel (k8s_adapter graceful "muto") s w "job-1").1
      "muto"
      "muto-acme-worker"
    ≡ graceful-PodStore.standing (fresh, []) "muto" "muto-acme-worker"
unfolding schedule cancel spawn_agents watch_agents terminate_agents role_spec k8s_adapter
    spawn_agent terminate_agent agent_pod pod_name commit commit_cancel initial_phase transition
    insert lookup agent_job
k8s_schedule-cancel_example =
    k8s_schedule-cancel graceful "muto" graceful-PodStore graceful-CreatesExactly empty (fresh, [])
      (agent_job "job-1" "acme" "a" "x" (pos 60)) refl refl "muto-acme-worker"

on_server : Lawful (k8s_adapter server "muto")
on_server = k8s_adapter-Lawful server "muto" server-PodStore

server-Reliable :
    Reliable (k8s_adapter server "muto") (k8s_adapter-Lawful server "muto" server-PodStore)
server-Reliable =
    k8s_adapter-Reliable server "muto" server-PodStore server-CreatesExactly
      (λ w n. server-deletes w "muto" n)

-- A job of another tenant under an id that is taken.
abbrev taken : Job
taken = agent_job "job-1" "globex" "a" "x" (pos 60)

schedule_refused_example :
    let w =
      (schedule
        (k8s_adapter server "muto")
        empty
        fresh
        (agent_job "job-1" "acme" "a" "x" (pos 60))).1 in
    on_server.alive (schedule (k8s_adapter server "muto") one_job w taken).1 "muto-globex-worker"
    ≡ on_server.alive w "muto-globex-worker"
unfolding on_server schedule spawn_agents watch_agents terminate_all role_spec k8s_adapter
    spawn_agent terminate_agent agent_pod pod_name commit initial_phase transition insert lookup
    agent_job
schedule_refused_example =
    schedule_refused (k8s_adapter server "muto") (k8s_adapter-Lawful server "muto" server-PodStore)
      (k8s_adapter-Exact server "muto" server-PodStore server-CreatesExactly) server-Reliable
      one_job
      (schedule (k8s_adapter server "muto") empty fresh
        (agent_job "job-1" "acme" "a" "x" (pos 60))).1
      taken (already_scheduled "job-1") refl "muto-globex-worker"
