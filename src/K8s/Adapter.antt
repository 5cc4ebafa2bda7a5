-- ===== src/K8s/Adapter.antt =====
-- platform/k8s/adapter.go: K8sAdapter, the scheduler's platform on Kubernetes.
pub mod Watching
pub mod Collision
pub mod Promises
use mathlib.Core.Option
use muto.Prelude.{
  ℕ, String, ◌<>◌, Bool, not, ◌||◌, if◌then◌else◌, Option, none, some, List, [], ◌∷◌, Result, ok,
  err,
}
use muto.Agent.{Spec, AgentRole, Event, EventType}
use muto.K8s.Objects.{Pod, PodPhase, Container, EnvVar, literal, ApiError, not_found}
use muto.K8s.Client.{Client}
use muto.Scheduler.Adapter.{PlatformAdapter}

pub data Error : Type 0 where
  no_agents : Error
  create_failed api : ApiError → Error

-- muto-<tenant>-<role>
unfoldable pub pod_name : String → String → String
pod_name tenant role = "muto-" <> (tenant <> ("-" <> role))

unfoldable pub agent_pod : String → String → AgentRole → Pod
unfolding pod_name
agent_pod namespace tenant role = record {
  name = pod_name tenant role.role;
  namespace = namespace;
  labels = ("muto.io/tenant", tenant) ∷ ("muto.io/role", role.role) ∷ [];
  owner = none;
  containers =
      record {
        name = role.role;
        image = role.image;
        env =
            record { name = "MUTO_TENANT"; value = literal tenant }
            ∷ record { name = "MUTO_ROLE"; value = literal role.role }
            ∷ [];
        command = [];
      }
      ∷ [];
  phase = PodPhase.other "";
}

-- One round of WatchAgent's loop: what Get answers, whether the context has ended by then, which
-- ready case the `select` takes if it has, and whether the context ends during the wait.
pub record Poll : Type 0 where
  pub answer : Result ApiError PodPhase
  pub ended : Bool
  pub takes_send : Bool
  pub ends_in_wait : Bool

pub data Round : Type 0 where
  send : EventType → Round
  quit wait : Round

-- `select` between the send, which the channel's buffer makes ready, and the context's end.
offer : Poll → EventType → Round
offer p type = if not p.ended || p.takes_send then send type else quit

-- `select` between the context's end and five seconds.
pause : Poll → Round
pause p = if p.ended || p.ends_in_wait then quit else wait

unfoldable pub round : Poll → Result ApiError PodPhase → Round
unfolding offer pause
round p (err not_found) = offer p EventType.failed
round p (err e) = if p.ended then quit else pause p
round p (ok PodPhase.succeeded) = offer p EventType.completed
round p (ok PodPhase.failed) = offer p EventType.failed
round p (ok (PodPhase.other x)) = pause p

abbrev pub event : String → EventType → Event
event id type = record { agent_id = id; type = type; message = "" }

-- The goroutine of WatchAgent: the events that it sends before it closes the channel, over the
-- rounds that it makes.
unfoldable pub watch : String → List Poll → List Event
watch id [] = []
watch id (p ∷ ps) = elim (round p p.answer) [
  | send type ↦ event id type ∷ []
  | quit ↦ []
  | wait ↦ watch id ps
]

module _ {W : Type 0} (c : Client W) (namespace : String) where
  created : String → W × Option ApiError → W × Result Error String
  created name (w, some e) = (w, err (create_failed e))
  created name (w, none) = (w, ok name)

  unfoldable pub spawn_agent : W → Spec → W × Result Error String
  unfolding created
  spawn_agent w spec = elim spec.agents [
    | [] ↦ (w, err no_agents)
    | role ∷ _ ↦
        created (pod_name spec.tenant_ref role.role)
          (c.create_pod w (agent_pod namespace spec.tenant_ref role))
  ]

  unfoldable pub terminate_agent : W → String → W × Option Error
  terminate_agent w agent_id =
      let (w', failure) = c.delete_pod w namespace agent_id in (w', Option.map api failure)

  -- WatchAgent returns at once, with a channel: the agent and the context of its goroutine.
  unfoldable pub watch_agent : W → ℕ → String → W × Result Error (String × ℕ)
  watch_agent w ctx agent_id = (w, ok (agent_id, ctx))

  unfoldable pub k8s_adapter : PlatformAdapter W Error (String × ℕ)
  unfolding spawn_agent terminate_agent watch_agent
  k8s_adapter = record {
    spawn_agent = spawn_agent;
    terminate_agent = terminate_agent;
    watch_agent = watch_agent;
  }
