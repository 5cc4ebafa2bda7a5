-- ===== src/Scheduler/Refused.antt =====
-- core/scheduler/scheduler.go, Schedule: what a refusal by the scheduler itself leaves on the platform.
use muto.Prelude.{
  ℕ, suc, String, true, false, some, List, [], ◌∷◌, Result, ok, err, ◌≡◌, ◌≢◌, refl, arith, All,
  inl, inr, Bool-cases, ap, ◌∙◌,
}
use muto.Agent.{Job, AgentRole}
use muto.Scheduler.{
  State, Error, Refusal, refused, clean_up, after_watch, after_spawn, role_spec, spawn_agents,
  watch_agents, terminate_all, schedule,
}
use muto.Scheduler.Adapter.{PlatformAdapter, Lawful, Exact, Reliable}
use muto.Scheduler.Effects.{AllDead}
use muto.Scheduler.Registry.{commit_cases}
use muto.Scheduler.Undoing.{there_and_back}

module _ {W E C : Type 0} (a : PlatformAdapter W E C) where
  -- The platform's errors are wrapped, and none is a refusal of the scheduler.
  spawn_agents-not_refused :
      (w : W) (job : Job) (roles : List AgentRole) (x : Error E) (e : Refusal)
      → (spawn_agents a w job roles).1 ≡ err x
      → x ≢ refused e
  unfolding spawn_agents
  spawn_agents-not_refused w job [] x e h k = cc
  spawn_agents-not_refused w job (role ∷ roles) x e h k =
      ground
        (arith, spawn_agents-not_refused (a.spawn_agent w (role_spec job role)).0 job roles x e)

  watch_agents-not_refused :
      (w : W) (ctx : ℕ) (ids : List String) (x : Error E) (e : Refusal)
      → (watch_agents a w ctx ids).1 ≡ err x
      → x ≢ refused e
  unfolding watch_agents
  watch_agents-not_refused w ctx [] x e h k = cc
  watch_agents-not_refused w ctx (id ∷ ids) x e h k =
      ground (arith, watch_agents-not_refused (a.watch_agent w ctx id).0 ctx ids x e)

module _ {W E C : Type 0} (a : PlatformAdapter W E C) (law : Lawful a) (exact : Exact a law)
    (reliable : Reliable a law) where
  open law use {alive}

  -- The clean-up does not look at errors, and stops every agent if none is refused.
  terminate_all-keeps_dead :
      (w : W) (ids : List String) (j : String)
      → alive w j ≡ false
      → alive (terminate_all a w ids) j ≡ false
  unfolding terminate_all
  terminate_all-keeps_dead w [] j h = h
  terminate_all-keeps_dead w (id ∷ ids) j h =
      terminate_all-keeps_dead (a.terminate_agent w id).0 ids j (law.terminate_keeps_dead w id j h)

  terminate_all-keeps_other :
      (w : W) (ids : List String) (j : String)
      → All (λ id. id ≢ j) ids
      → alive w j ≡ true
      → alive (terminate_all a w ids) j ≡ true
  unfolding terminate_all
  terminate_all-keeps_other w [] j h k = k
  terminate_all-keeps_other w (id ∷ ids) j h k =
      terminate_all-keeps_other (a.terminate_agent w id).0 ids j h.1
        (law.terminate_keeps_other w id j h.0 k)

  stopped : (w : W) (id : String) → alive (a.terminate_agent w id).0 id ≡ false
  stopped w id = elim (Bool-cases (alive w id)) [
    | inl runs ↦ law.terminated_dead w id (reliable.stops w id runs)
    | inr dead ↦ law.terminate_keeps_dead w id id dead
  ]

  terminate_all-dead : (w : W) (ids : List String) → AllDead a law (terminate_all a w ids) ids
  unfolding terminate_all
  terminate_all-dead w [] = tt
  terminate_all-dead w (id ∷ ids) =
      let w' = (a.terminate_agent w id).0 in
      (terminate_all-keeps_dead w' ids id (stopped w id), terminate_all-dead w' ids)

  after_watch-refused :
      (s : State C) (w : W) (job : Job) (ids : List String) (ctx : ℕ)
      (r : Result (Error E) (List C)) (e : Refusal)
      → ((x : Error E) → r ≡ err x → x ≢ refused e)
      → (after_watch a s w job ids ctx r).2 ≡ some (refused e)
      → (after_watch a s w job ids ctx r).1 ≡ terminate_all a w ids
  unfolding after_watch clean_up
  after_watch-refused s w job ids ctx (err x) e f h = absurd (f x refl (ground (arith, h)))
  after_watch-refused s w job ids ctx (ok chans) e f h = elim (commit_cases s job ids ctx chans) [
    | inl (x, k) ↦ rw k refl
    | inr (_, _, k, _) ↦ ground (arith, h, k)
  ]

  -- On a lawful platform that starts nothing but new agents (Exact) and refuses no termination of a
  -- running one (Reliable), a Schedule that the scheduler itself refuses, for the id or for the
  -- phase of the job, has stopped all agents that it had spawned: exactly those run that ran before.
  pub schedule_refused :
      (s : State C) (w : W) (job : Job) (e : Refusal)
      → (schedule a s w job).2 ≡ some (refused e)
      → (j : String) → alive (schedule a s w job).1 j ≡ alive w j
  unfolding schedule after_spawn
  schedule_refused s w job e h j = after (spawn_agents a w job job.spec.agents).1 refl h
    where
      v : W
      v = (spawn_agents a w job job.spec.agents).0

      after :
          (r : Result (Error E) (List String))
          → (spawn_agents a w job job.spec.agents).1 ≡ r
          → (after_spawn a s v job r).2 ≡ some (refused e)
          → alive (after_spawn a s v job r).1 j ≡ alive w j
      after (err x) k g =
          absurd (spawn_agents-not_refused a w job job.spec.agents x e k (ground (arith, g)))
      after (ok ids) k g =
          let watched = watch_agents a v s.contexts ids in
          let world =
            after_watch-refused (record s { contexts = suc s.contexts }) watched.0 job ids
              s.contexts watched.1 e (λ x f. watch_agents-not_refused a v s.contexts ids x e f) g in
          ap (λ x. alive x j) world
          ∙ there_and_back a law exact w job s.contexts ids j (terminate_all a watched.0 ids) k
              (terminate_all-dead watched.0 ids) (terminate_all-keeps_dead watched.0 ids j)
              (terminate_all-keeps_other watched.0 ids j)
