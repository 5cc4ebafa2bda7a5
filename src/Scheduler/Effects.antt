-- ===== src/Scheduler/Effects.antt =====
-- core/scheduler/scheduler.go: what Schedule and Cancel do on the platform, for any platform that
-- keeps the promises of Adapter.Lawful.
use muto.Prelude.{
  ℕ, String, true, false, none, List, [], ◌∷◌, ok, ◌≡◌, refl, arith, length, All, ◌∙◌,
}
use muto.Agent.{Job, AgentRole}
use muto.Scheduler.{role_spec, spawn_agents, watch_agents, terminate_agents}
use muto.Scheduler.Adapter.{PlatformAdapter, Lawful}

module _ {W E C : Type 0} (a : PlatformAdapter W E C) (law : Lawful a) where
  open law use {alive}

  abbrev pub AllAlive : W → List String → Type 0
  AllAlive w = All (λ id. alive w id ≡ true)

  abbrev pub AllDead : W → List String → Type 0
  AllDead w = All (λ id. alive w id ≡ false)

  pub spawn_agents-keeps :
      (w : W) (job : Job) (roles : List AgentRole) (j : String)
      → alive w j ≡ true
      → alive (spawn_agents a w job roles).0 j ≡ true
  unfolding spawn_agents
  spawn_agents-keeps w job [] j h = h
  spawn_agents-keeps w job (role ∷ roles) j h =
      let w' = (a.spawn_agent w (role_spec job role)).0 in
      let kept = law.spawn_keeps w (role_spec job role) j h in
      ground (arith, spawn_agents-keeps w' job roles j kept)

  -- When all roles are spawned there is an agent for each, and all of them run.
  pub spawn_agents-alive :
      (w : W) (job : Job) (roles : List AgentRole) (ids : List String)
      → (spawn_agents a w job roles).1 ≡ ok ids
      → AllAlive (spawn_agents a w job roles).0 ids × (length ids ≡ length roles)
  unfolding spawn_agents
  spawn_agents-alive w job [] [] h = (tt, refl)
  spawn_agents-alive w job [] (id ∷ ids) h = cc
  spawn_agents-alive w job (role ∷ roles) [] h = ground arith
  spawn_agents-alive w job (role ∷ roles) (id ∷ ids) h =
      let w' = (a.spawn_agent w (role_spec job role)).0 in
      ground (
        arith,
        law.spawned_alive w (role_spec job role) {id = id},
        spawn_agents-keeps w' job roles id,
        spawn_agents-alive w' job roles ids,
      )

  pub terminate_agents-keeps_dead :
      (w : W) (ids : List String) (j : String)
      → alive w j ≡ false
      → alive (terminate_agents a w ids).0 j ≡ false
  unfolding terminate_agents
  terminate_agents-keeps_dead w [] j h = h
  terminate_agents-keeps_dead w (id ∷ ids) j h =
      let kept = law.terminate_keeps_dead w id j h in
      ground (arith, terminate_agents-keeps_dead (a.terminate_agent w id).0 ids j kept)

  pub terminate_agents-dead :
      (w : W) (ids : List String)
      → (terminate_agents a w ids).1 ≡ none
      → AllDead (terminate_agents a w ids).0 ids
  unfolding terminate_agents
  terminate_agents-dead w [] h = tt
  terminate_agents-dead w (id ∷ ids) h =
      let w' = (a.terminate_agent w id).0 in
      ground (
        arith,
        law.terminated_dead w id,
        terminate_agents-keeps_dead w' ids id,
        terminate_agents-dead w' ids,
      )

  pub watch_agents-keeps :
      (w : W) (ctx : ℕ) (ids : List String) (j : String)
      → alive (watch_agents a w ctx ids).0 j ≡ alive w j
  unfolding watch_agents
  watch_agents-keeps w ctx [] j = refl
  watch_agents-keeps w ctx (id ∷ ids) j =
      ground
        (arith, law.watch_keeps w ctx id j, watch_agents-keeps (a.watch_agent w ctx id).0 ctx ids j)

  pub watch_agents-AllAlive :
      (w : W) (ctx : ℕ) (ids js : List String)
      → AllAlive w js
      → AllAlive (watch_agents a w ctx ids).0 js
  watch_agents-AllAlive w ctx ids [] h = tt
  watch_agents-AllAlive w ctx ids (j ∷ js) h =
      (watch_agents-keeps w ctx ids j ∙ h.0, watch_agents-AllAlive w ctx ids js h.1)
