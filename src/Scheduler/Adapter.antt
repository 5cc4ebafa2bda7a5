-- ===== src/Scheduler/Adapter.antt =====
-- core/scheduler/scheduler.go: the interface PlatformAdapter, as the scheduler's parameter. `W` is
-- the platform's state, `E` its errors and `C` its event channels; a watch context is known by a
-- number.
use muto.Prelude.{ℕ, String, ◌≡◌, ◌≢◌, Bool, true, false, Option, none, Result, ok}
use muto.Agent.{Spec}

pub record PlatformAdapter (W E C : Type 0) : Type 0 where
  pub spawn_agent : W → Spec → W × Result E String
  pub terminate_agent : W → String → W × Option E
  pub watch_agent : W → ℕ → String → W × Result E C

-- What a platform promises of the agents it runs: a call that succeeds does its work on the one
-- agent that it names, and no call stops an agent but a termination of it. `alive`: the agent was started, and
-- it has neither been lost nor had a termination of it accepted. An agent that is not alive has been told to
-- stop or is gone; how long it takes to stop is the platform's matter.
pub record Lawful {W E C : Type 0} (a : PlatformAdapter W E C) : Type 0 where
  pub alive : W → String → Bool
  pub spawned_alive :
      (w : W) (s : Spec) {id : String}
      → (a.spawn_agent w s).1 ≡ ok id
      → alive (a.spawn_agent w s).0 id ≡ true
  pub spawn_keeps :
      (w : W) (s : Spec) (j : String) → alive w j ≡ true → alive (a.spawn_agent w s).0 j ≡ true
  pub terminated_dead :
      (w : W) (id : String)
      → (a.terminate_agent w id).1 ≡ none
      → alive (a.terminate_agent w id).0 id ≡ false
  pub terminate_keeps_dead :
      (w : W) (id j : String) → alive w j ≡ false → alive (a.terminate_agent w id).0 j ≡ false
  pub terminate_keeps_other :
      (w : W) (id j : String)
      → id ≢ j
      → alive w j ≡ true
      → alive (a.terminate_agent w id).0 j ≡ true
  pub watch_keeps :
      (w : W) (ctx : ℕ) (id j : String) → alive (a.watch_agent w ctx id).0 j ≡ alive w j

-- What such a platform may promise besides: a successful spawn takes an id that no running agent has, and
-- starts nothing else.
pub record Exact {W E C : Type 0} (a : PlatformAdapter W E C) (law : Lawful a) : Type 0 where
  pub spawned_new :
      (w : W) (s : Spec) (id : String) → (a.spawn_agent w s).1 ≡ ok id → law.alive w id ≡ false
  pub spawns_only :
      (w : W) (s : Spec) (id j : String)
      → (a.spawn_agent w s).1 ≡ ok id
      → law.alive w j ≡ false
      → id ≢ j
      → law.alive (a.spawn_agent w s).0 j ≡ false

-- And that the termination of a running agent is not refused.
pub record Reliable {W E C : Type 0} (a : PlatformAdapter W E C) (law : Lawful a) : Type 0 where
  pub stops : (w : W) (id : String) → law.alive w id ≡ true → (a.terminate_agent w id).1 ≡ none
