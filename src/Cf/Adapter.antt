-- ===== src/Cf/Adapter.antt =====
-- platform/cf/adapter.go: CFAdapter. Its state is that of Cloud Foundry beside the cache.
pub mod Resolving
pub mod Steady
pub mod Spaces
pub mod Starting
pub mod Isolated
pub mod Watching
use muto.Prelude.{
  ℕ, ◌+◌, String, ◌<>◌, ◌==◌, Bool, true, false, ◌&&◌, ◌||◌, Option, none, some, List, [], ◌∷◌,
  Result, ok, err, if◌then◌else◌, leb, eqb,
}
use muto.Prelude.Int.{ℤ, pos}
use muto.Prelude.Text.{lowered}
use muto.Agent.{Spec, AgentRole, EventType, Event}
use muto.Scheduler.Adapter.{PlatformAdapter}
use muto.Cf.Cache.{GuidCache, get, set, org_cache_key, space_cache_key, new_guid_cache}
use muto.Cf.Client.{CfClient, PushRequest, TaskRequest}

pub record CfAdapterConfig : Type 0 where
  pub isolation_tier : String
  pub shared_org_name : String

-- The errors, each with what its text wraps.
pub data Error (E : Type 0) : Type 0 where
  no_agents : Error E
  get_org_failed get_space_failed : String → E → Error E
  push_failed run_task_failed cancel_failed : E → Error E

-- `strings.Contains` on the code points.
unfoldable pub starts : List ℕ → List ℕ → Bool
starts [] t = true
starts (c ∷ s) [] = false
starts (c ∷ s) (d ∷ t) = eqb c d && starts s t

unfoldable pub contains : List ℕ → List ℕ → Bool
contains s [] = starts s []
contains s (c ∷ t) = starts s (c ∷ t) || contains s t

unfoldable pub is_terminal_message : String → Bool
unfolding starts contains
is_terminal_message text =
    contains (lowered "succeeded") (lowered text) || contains (lowered "failed") (lowered text)

abbrev pub org_name : CfAdapterConfig → String → String
org_name config tenant_id =
    if config.isolation_tier == "dedicated" then tenant_id else config.shared_org_name

abbrev pub space_name : CfAdapterConfig → String → String
space_name config tenant_id =
    if config.isolation_tier == "dedicated" then "muto-agents" else tenant_id

unfoldable pub new_cf_adapter : GuidCache
new_cf_adapter = new_guid_cache (pos 300000000000)

module _ {W E : Type 0} (c : CfClient W E) (config : CfAdapterConfig) where
  -- An answer of the API is cached under its key, at the time of the answer.
  cached :
      GuidCache
      → String
      → (E → Error E)
      → W × Result E String
      → W × GuidCache × Result (Error E) String
  cached cache key wrap (w, err e) = (w, cache, err (wrap e))
  cached cache key wrap (w, ok guid) = (w, set cache (c.now w) key guid, ok guid)

  unfoldable pub resolve_org : W → GuidCache → String → W × GuidCache × Result (Error E) String
  unfolding cached
  resolve_org w cache name = elim (get cache (c.now w) (org_cache_key name)) [
    | some guid ↦ (w, cache, ok guid)
    | none ↦ cached cache (org_cache_key name) (get_org_failed name) (c.get_org_by_name w name)
  ]

  unfoldable pub resolve_space :
      W → GuidCache → String → String → W × GuidCache × Result (Error E) String
  unfolding cached
  resolve_space w cache org_guid name = elim (get cache (c.now w) (space_cache_key org_guid name)) [
    | some guid ↦ (w, cache, ok guid)
    | none ↦
        cached cache (space_cache_key org_guid name) (get_space_failed name)
          (c.get_space_by_name w org_guid name)
  ]

  in_org :
      String → W × GuidCache × Result (Error E) String → W × GuidCache × Result (Error E) String
  in_org name (w, cache, err e) = (w, cache, err e)
  in_org name (w, cache, ok org_guid) = resolve_space w cache org_guid name

  unfoldable pub resolve_space_guid :
      W → GuidCache → String → W × GuidCache × Result (Error E) String
  unfolding in_org
  resolve_space_guid w cache tenant_id =
      in_org (space_name config tenant_id) (resolve_org w cache (org_name config tenant_id))

  pushed : W × Result E String → W × Result (Error E) String
  pushed (w, err e) = (w, err (push_failed e))
  pushed (w, ok guid) = (w, ok guid)

  -- Any error of the look-up leads to a push.
  unfoldable pub ensure_runner_app :
      W → String → String → String → String → W × Result (Error E) String
  unfolding pushed
  ensure_runner_app w name space_guid tenant_id role =
      let (w', found) = c.get_app_by_name w name space_guid in
      elim found [
        | ok guid ↦ (w', ok guid)
        | err e ↦ pushed (
            c.push_app w' (record {
              name = name;
              space_guid = space_guid;
              docker_image = "";
              buildpacks = [];
              env_vars = some (("MUTO_TENANT", tenant_id) ∷ ("MUTO_ROLE", role) ∷ []);
            }))
      ]

  started : W × Result E String → W × Result (Error E) String
  started (w, err e) = (w, err (run_task_failed e))
  started (w, ok guid) = (w, ok guid)

  with_app : Spec → AgentRole → W × Result (Error E) String → W × Result (Error E) String
  unfolding started
  with_app spec role (w, err e) = (w, err e)
  with_app spec role (w, ok app_guid) = started (
      c.run_task w app_guid (record {
        command = role.command;
        name = spec.tenant_ref <> ("-" <> role.role);
        memory_in_mb = pos 0;
        disk_in_mb = pos 0;
      }))

  pub in_space :
      Spec
      → AgentRole
      → W × GuidCache × Result (Error E) String
      → (W × GuidCache) × Result (Error E) String
  unfolding with_app
  in_space spec role (w, cache, err e) = ((w, cache), err e)
  in_space spec role (w, cache, ok space_guid) =
      let name = "muto-" <> (spec.tenant_ref <> ("-" <> role.role)) in
      let (w', task) =
        with_app spec role (ensure_runner_app w name space_guid spec.tenant_ref role.role) in
      ((w', cache), task)

  unfoldable pub spawn_agent : W × GuidCache → Spec → (W × GuidCache) × Result (Error E) String
  unfolding in_space
  spawn_agent (w, cache) spec = elim spec.agents [
    | [] ↦ ((w, cache), err no_agents)
    | role ∷ _ ↦ in_space spec role (resolve_space_guid w cache spec.tenant_ref)
  ]

  -- An error that says that the task is over is dropped.
  swallowed : Option E → Option (Error E)
  swallowed none = none
  swallowed (some e) = if is_terminal_message (c.error e) then none else some (cancel_failed e)

  unfoldable pub terminate_agent : W × GuidCache → String → (W × GuidCache) × Option (Error E)
  unfolding swallowed
  terminate_agent (w, cache) agent_id =
      let (w', failure) = c.cancel_task w agent_id in ((w', cache), swallowed failure)

  -- WatchAgent returns at once, with a channel: the agent and the context of its goroutine.
  unfoldable pub cf_adapter : PlatformAdapter (W × GuidCache) (Error E) (String × ℕ)
  unfolding spawn_agent terminate_agent
  cf_adapter = record {
    spawn_agent = spawn_agent;
    terminate_agent = terminate_agent;
    watch_agent = λ s ctx agent_id. (s, ok (agent_id, ctx));
  }

-- One round of WatchAgent's loop: what GetTask answers, a task's state or an error with its text, which
-- may be that of an ended context; and whether the context ends before the five seconds do.
pub data TaskAnswer : Type 0 where
  in_state : String → TaskAnswer
  canceled : TaskAnswer
  failing : String → TaskAnswer

pub record Poll : Type 0 where
  pub answer : TaskAnswer
  pub ends : Bool

abbrev pub event : String → EventType → String → Event
event id type message = record { agent_id = id; type = type; message = message }

-- The goroutine of WatchAgent: the events that it sends before it closes the channel. The channel's
-- buffer holds them, so no send waits.
unfoldable pub watch : String → List Poll → List Event
watch id [] = []
watch id (p ∷ ps) =
    let rest = watch id ps in
    elim p.answer [
      | canceled ↦ []
      | failing message ↦ event id EventType.failed message ∷ []
      | in_state s ↦
          if s == "SUCCEEDED"
          then event id EventType.completed "" ∷ []
          else if (s == "FAILED") || (s == "CANCELING")
          then event id EventType.failed "" ∷ []
          else if p.ends
          then []
          else rest
    ]
