-- ===== src/Scheduler/Undoing.antt =====
-- core/scheduler/scheduler.go: Schedule and Cancel one after the other, and what is left on the
-- platform.
use muto.Prelude.{
  ℕ, String, Bool, true, false, none, List, [], ◌∷◌, ok, ◌≡◌, ◌≢◌, refl, arith, All, ap, sym, ◌∙◌,
  eq_iff,
}
use muto.Agent.{Job, AgentRole, running}
use muto.Scheduler.{
  State, role_spec, spawn_agents, watch_agents, terminate_agents, schedule, cancel, enroll,
}
use muto.Scheduler.Adapter.{PlatformAdapter, Lawful, Exact}
use muto.Scheduler.Effects.{
  AllDead, spawn_agents-keeps, watch_agents-keeps, terminate_agents-keeps_dead,
  terminate_agents-dead,
}
use muto.Scheduler.Scheduling.{schedule_ok-world}
use muto.Scheduler.Cancelling.{cancel_ok-world}

module _ {W E C : Type 0} (a : PlatformAdapter W E C) (law : Lawful a) (exact : Exact a law) where
  open law use {alive}

  -- No agent that ran before is among the new ones.
  spawn_agents-new :
      (w : W) (job : Job) (roles : List AgentRole) (ids : List String) (j : String)
      → (spawn_agents a w job roles).1 ≡ ok ids
      → alive w j ≡ true
      → All (λ id. id ≢ j) ids
  unfolding spawn_agents
  spawn_agents-new w job [] [] j h k = tt
  spawn_agents-new w job [] (id ∷ ids) j h k = cc
  spawn_agents-new w job (role ∷ roles) [] j h k = ground arith
  spawn_agents-new w job (role ∷ roles) (id ∷ ids) j h k =
      let spec = role_spec job role in
      ground (
        arith,
        exact.spawned_new w spec id,
        law.spawn_keeps w spec j k,
        spawn_agents-new (a.spawn_agent w spec).0 job roles ids j,
      )

  -- What runs then and did not run before is one of the new agents, so dead when they are.
  spawn_agents-only :
      (w : W) (job : Job) (roles : List AgentRole) (ids : List String) (j : String) (v : W)
      → (spawn_agents a w job roles).1 ≡ ok ids
      → alive w j ≡ false
      → alive (spawn_agents a w job roles).0 j ≡ true
      → AllDead a law v ids
      → alive v j ≡ false
  unfolding spawn_agents
  spawn_agents-only w job [] ids j v h k l d = cc
  spawn_agents-only w job (role ∷ roles) [] j v h k l d = ground arith
  spawn_agents-only w job (role ∷ roles) (id ∷ ids) j v h k l d =
      let spec = role_spec job role in
      ground (
        arith,
        eq_iff id j,
        exact.spawns_only w spec id j,
        spawn_agents-only (a.spawn_agent w spec).0 job roles ids j v,
      )

  terminate_agents-keeps_other :
      (w : W) (ids : List String) (j : String)
      → All (λ id. id ≢ j) ids
      → alive w j ≡ true
      → alive (terminate_agents a w ids).0 j ≡ true
  unfolding terminate_agents
  terminate_agents-keeps_other w [] j h k = k
  terminate_agents-keeps_other w (id ∷ ids) j h k =
      let kept = law.terminate_keeps_other w id j h.0 k in
      ground (arith, terminate_agents-keeps_other (a.terminate_agent w id).0 ids j h.1 kept)

  -- The agents of a job spawned and watched, and a later state in which they are dead and nothing else
  -- has changed.
  pub there_and_back :
      (w : W) (job : Job) (ctx : ℕ) (ids : List String) (j : String) (z : W)
      → (spawn_agents a w job job.spec.agents).1 ≡ ok ids
      → AllDead a law z ids
      → (alive (watch_agents a (spawn_agents a w job job.spec.agents).0 ctx ids).0 j ≡ false
          → alive z j ≡ false)
      → (All (λ id. id ≢ j) ids
          → alive (watch_agents a (spawn_agents a w job job.spec.agents).0 ctx ids).0 j ≡ true
          → alive z j ≡ true)
      → alive z j ≡ alive w j
  there_and_back w job ctx ids j z h dead keeps_dead keeps_other = by_before (alive w j) refl
    where
      v : W
      v = (spawn_agents a w job job.spec.agents).0

      watched : alive (watch_agents a v ctx ids).0 j ≡ alive v j
      watched = watch_agents-keeps a law v ctx ids j

      by_after : (b : Bool) → alive v j ≡ b → alive w j ≡ false → alive z j ≡ false
      by_after true f e = spawn_agents-only w job job.spec.agents ids j z h e f dead
      by_after false f e = keeps_dead (watched ∙ f)

      by_before : (b : Bool) → alive w j ≡ b → alive z j ≡ alive w j
      by_before true e =
          keeps_other (spawn_agents-new w job job.spec.agents ids j h e)
            (watched ∙ spawn_agents-keeps a law w job job.spec.agents j e)
          ∙ sym e
      by_before false e = by_after (alive v j) refl e ∙ sym e

  -- On a lawful platform that starts nothing but new agents (Exact), a Schedule and a Cancel of the
  -- same job right after, when both return no error, leave running exactly the agents that ran before.
  pub schedule-cancel :
      (s : State C) (w : W) (job : Job)
      → (schedule a s w job).2 ≡ none
      → (cancel a (schedule a s w job).0 (schedule a s w job).1 job.id).2 ≡ none
      → (j : String)
      → alive (cancel a (schedule a s w job).0 (schedule a s w job).1 job.id).1 j ≡ alive w j
  schedule-cancel s w job h g j =
      let (ids, spawned, world, bound) = schedule_ok-world a s w job h in
      let t = (schedule a s w job).0 in
      let w' = (schedule a s w job).1 in
      let (left, stopped) =
        cancel_ok-world a t w' job.id (enroll job ids s.contexts running) bound g in
      let w'' = (watch_agents a (spawn_agents a w job job.spec.agents).0 s.contexts ids).0 in
      let ends : (terminate_agents a w'' ids).1 ≡ none =
        ap (λ x. (terminate_agents a x ids).1) (sym world) ∙ stopped in
      ap (λ x. alive x j) left
      ∙ ap (λ x. alive (terminate_agents a x ids).0 j) world
      ∙ there_and_back w job s.contexts ids j (terminate_agents a w'' ids).0 spawned
          (terminate_agents-dead a law w'' ids ends) (terminate_agents-keeps_dead a law w'' ids j)
          (terminate_agents-keeps_other w'' ids j)
