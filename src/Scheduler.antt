-- ===== src/Scheduler.antt =====
-- core/scheduler/scheduler.go: DefaultScheduler. The map under the mutex, the watch contexts and
-- the watchers are the state; each section between Lock and Unlock is a function of its own, and
-- the platform's calls happen between the sections, as in the source.
pub mod StateMachine
pub mod Adapter
pub mod Watch
pub mod Effects
pub mod Registry
pub mod Evolution
pub mod Interleaving
pub mod Scheduling
pub mod Cancelling
pub mod Undoing
pub mod Refused
pub mod Listing
use muto.Prelude.{
  ℕ, suc, String, ◌==◌, Bool, true, false, ◌&&◌, not, Option, none, some, List, [], ◌∷◌, Result, ok,
  err, if◌then◌else◌,
}
use mathlib.Core.Option
use muto.Prelude.Int.{ℤ}
use muto.Prelude.Dict.{Dict, lookup, insert}
use muto.Agent.{
  Phase, unset, pending, AgentRole, Spec, Status, Job, is_terminal, zero_trigger, zero_bus,
}
use StateMachine.{InvalidTransition, transition, spawned, cancelled}
use Adapter.{PlatformAdapter}

-- The errors, each with what its text quotes or wraps: those of the scheduler itself, and those
-- that wrap an error of the platform.
pub data Refusal : Type 0 where
  already_scheduled not_found : String → Refusal
  invalid_phase invalid_transition : InvalidTransition → Refusal

pub data Error (E : Type 0) : Type 0 where
  spawn_failed watch_failed terminate_failed : String → E → Error E
  refused : Refusal → Error E

-- `watch` is the context that the record's `cancelWatch` ends.
pub record JobRecord : Type 0 where
  pub job : Job
  pub agent_ids : List String
  pub watch : ℕ

-- A `watchJob` goroutine that was started.
pub record Watcher (C : Type 0) : Type 0 where
  pub job_id : String
  pub chans : List C

-- `contexts` counts the watch contexts that were made; `ended` lists those that were cancelled.
pub record State (C : Type 0) : Type 0 where
  pub jobs : Dict JobRecord
  pub contexts : ℕ
  pub ended : List ℕ
  pub watchers : List (Watcher C)

abbrev pub new_default_scheduler : {C : Type 0} → State C
new_default_scheduler = record { jobs = []; contexts = 0; ended = []; watchers = [] }

abbrev pub phase_of : JobRecord → Phase
phase_of r = r.job.status.phase

-- `rec.job.Status.Phase = p`
abbrev pub with_phase : Phase → JobRecord → JobRecord
with_phase p r = record r { job = record r.job { status = record r.job.status { phase = p } } }

abbrev pub end_context : {C : Type 0} → ℕ → State C → State C
end_context ctx s = record s { ended = ctx ∷ s.ended }

-- The record that an accepted job gets.
abbrev pub enroll : Job → List String → ℕ → Phase → JobRecord
enroll job ids ctx p = with_phase p (record { job = job; agent_ids = ids; watch = ctx })

-- The spec that one role is spawned with: the tenant and the role alone.
unfoldable pub role_spec : Job → AgentRole → Spec
role_spec job role = record {
  tenant_ref = job.spec.tenant_ref;
  trigger = zero_trigger;
  agents = role ∷ [];
  message_bus = zero_bus;
  ttl_after_completion = ℤ.pos 0;
}

-- The zero phase "" counts as Pending.
unfoldable pub initial_phase : Phase → Phase
initial_phase unset = pending
initial_phase p = p

abbrev prepend {ℓ κ} : {E : Type ℓ} {A : Type κ} → A → Result E (List A) → Result E (List A)
prepend a (ok l) = ok (a ∷ l)
prepend a (err e) = err e

-- The locked section of Schedule.
module _ {C : Type 0} where
  admit :
      State C
      → Job
      → List String
      → ℕ
      → List C
      → Phase × Option InvalidTransition
      → State C × Option Refusal
  admit s job ids ctx chans (next, some e) = (s, some (invalid_phase e))
  admit s job ids ctx chans (next, none) = (
    record s {
      jobs = insert job.id (enroll job ids ctx next) s.jobs;
      watchers = record { job_id = job.id; chans = chans } ∷ s.watchers;
    },
    none,
  )

  unfoldable pub commit : State C → Job → List String → ℕ → List C → State C × Option Refusal
  unfolding admit initial_phase
  commit s job ids ctx chans = elim (lookup job.id s.jobs) [
    | some r ↦ (s, some (already_scheduled job.id))
    | none ↦ admit s job ids ctx chans (transition (initial_phase job.status.phase) spawned)
  ]

  settle :
      State C → String → JobRecord → Phase × Option InvalidTransition → State C × Option Refusal
  settle s id r (next, some e) = (s, some (invalid_transition e))
  settle s id r (next, none) = (record s { jobs = insert id (with_phase next r) s.jobs }, none)

  -- The second locked section of Cancel.
  unfoldable pub commit_cancel : State C → String → ℕ → State C × Option Refusal
  unfolding settle
  commit_cancel s id ctx = elim (lookup id s.jobs) [
    | none ↦ (s, none)
    | some r ↦ settle (end_context ctx s) id r (transition (phase_of r) cancelled)
  ]

  unfoldable pub status : State C → String → Result Refusal Status
  status s id = elim (lookup id s.jobs) [ none ↦ err (not_found id) | some r ↦ ok r.job.status ]

abbrev is_active_of : String → JobRecord → Bool
is_active_of tenant r = (r.job.tenant_id == tenant) && not (is_terminal (phase_of r))

pub active_jobs : String → Dict JobRecord → List Job
active_jobs tenant [] = []
active_jobs tenant ((id, r) ∷ m) =
    let rest = active_jobs tenant m in if is_active_of tenant r then r.job ∷ rest else rest

unfoldable pub list_active : {C : Type 0} → State C → String → List Job
unfolding active_jobs
list_active s tenant = active_jobs tenant s.jobs

module _ {W E C : Type 0} (a : PlatformAdapter W E C) where
  unfoldable pub spawn_agents : W → Job → List AgentRole → W × Result (Error E) (List String)
  spawn_agents w job [] = (w, ok [])
  spawn_agents w job (role ∷ roles) =
      let (w', answer) = a.spawn_agent w (role_spec job role) in
      elim answer [
        | err e ↦ (w', err (spawn_failed role.role e))
        | ok id ↦ let (w'', ids) = spawn_agents w' job roles in (w'', prepend id ids)
      ]

  unfoldable pub watch_agents : W → ℕ → List String → W × Result (Error E) (List C)
  watch_agents w ctx [] = (w, ok [])
  watch_agents w ctx (id ∷ ids) =
      let (w', answer) = a.watch_agent w ctx id in
      elim answer [
        | err e ↦ (w', err (watch_failed id e))
        | ok chan ↦ let (w'', chans) = watch_agents w' ctx ids in (w'', prepend chan chans)
      ]

  -- The clean-up: errors are dropped.
  unfoldable pub terminate_all : W → List String → W
  terminate_all w [] = w
  terminate_all w (id ∷ ids) = terminate_all (a.terminate_agent w id).0 ids

  -- The loop of Cancel: the first error ends it.
  unfoldable pub terminate_agents : W → List String → W × Option (Error E)
  terminate_agents w [] = (w, none)
  terminate_agents w (id ∷ ids) =
      let (w', failure) = a.terminate_agent w id in
      elim failure [ some e ↦ (w', some (terminate_failed id e)) | none ↦ terminate_agents w' ids ]

  clean_up : State C → W → List String → ℕ → Option Refusal → State C × W × Option (Error E)
  clean_up s w ids ctx none = (s, w, none)
  clean_up s w ids ctx (some e) = (end_context ctx s, terminate_all w ids, some (refused e))

  after_watch :
      State C
      → W
      → Job
      → List String
      → ℕ
      → Result (Error E) (List C)
      → State C × W × Option (Error E)
  unfolding clean_up
  after_watch s w job ids ctx (err e) = (end_context ctx s, w, some e)
  after_watch s w job ids ctx (ok chans) =
      let (s', e) = commit s job ids ctx chans in clean_up s' w ids ctx e

  after_spawn : State C → W → Job → Result (Error E) (List String) → State C × W × Option (Error E)
  unfolding after_watch
  after_spawn s w job (err e) = (s, w, some e)
  after_spawn s w job (ok ids) =
      let (w', chans) = watch_agents w s.contexts ids in
      after_watch (record s { contexts = suc s.contexts }) w' job ids s.contexts chans

  -- Schedule, with no other call between its sections.
  unfoldable pub schedule : State C → W → Job → State C × W × Option (Error E)
  unfolding after_spawn
  schedule s w job = let (w', ids) = spawn_agents w job job.spec.agents in after_spawn s w' job ids

  after_terminate : State C → String → ℕ → W × Option (Error E) → State C × W × Option (Error E)
  after_terminate s id ctx (w, some e) = (s, w, some e)
  after_terminate s id ctx (w, none) =
      let (s', e) = commit_cancel s id ctx in (s', w, Option.map refused e)

  -- Cancel, with no other call between its sections.
  unfoldable pub cancel : State C → W → String → State C × W × Option (Error E)
  unfolding after_terminate
  cancel s w id = elim (lookup id s.jobs) [
    | none ↦ (s, w, some (refused (not_found id)))
    | some r ↦ after_terminate s id r.watch (terminate_agents w r.agent_ids)
  ]
