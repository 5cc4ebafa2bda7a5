-- ===== src/Scheduler/Scheduling.antt =====
-- core/scheduler/scheduler.go, Schedule as a whole: success, every kind of failure, and the agents
-- that are left behind.
use muto.Prelude.{
  ℕ, suc, String, none, some, List, [], ◌∷◌, ◌++◌, Result, ok, err, ◌≡◌, refl, arith, length, inl,
  inr, Result-cases, ap, ◌∙◌,
}
use muto.Prelude.Dict.{lookup, lookup-insert_self}
use muto.Agent.{Job, AgentRole, Spec, running}
use muto.Scheduler.{
  State, Error, spawn_failed, role_spec, enroll, spawn_agents, watch_agents, schedule, after_watch,
  after_spawn,
}
use muto.Scheduler.Adapter.{PlatformAdapter, Lawful}
use muto.Scheduler.Registry.{commit_cases}
use muto.Scheduler.Effects.{AllAlive, spawn_agents-alive, watch_agents-AllAlive}

module _ {W E C : Type 0} (a : PlatformAdapter W E C) where
  after_watch-failed :
      (s : State C) (w : W) (job : Job) (ids : List String) (ctx : ℕ)
      (r : Result (Error E) (List C)) {e : Error E}
      → (after_watch a s w job ids ctx r).2 ≡ some e
      → ((after_watch a s w job ids ctx r).0.jobs ≡ s.jobs)
        × ((after_watch a s w job ids ctx r).0.watchers ≡ s.watchers)
  unfolding after_watch
  after_watch-failed s w job ids ctx (err x) h = (refl, refl)
  after_watch-failed s w job ids ctx (ok chans) h = elim (commit_cases s job ids ctx chans) [
    | inl (x, c) ↦ rw c (refl, refl)
    | inr (_, _, c, _) ↦ ground (arith, c)
  ]

  -- A Schedule that returns an error, whichever it is, leaves the map of jobs as it was and starts no watcher.
  pub schedule_failed :
      (s : State C) (w : W) (job : Job) {e : Error E}
      → (schedule a s w job).2 ≡ some e
      → ((schedule a s w job).0.jobs ≡ s.jobs) × ((schedule a s w job).0.watchers ≡ s.watchers)
  unfolding schedule
  schedule_failed s w job {e} h =
      after (spawn_agents a w job job.spec.agents).0 (spawn_agents a w job job.spec.agents).1 h
    where
      after :
          (v : W) (r : Result (Error E) (List String))
          → (after_spawn a s v job r).2 ≡ some e
          → ((after_spawn a s v job r).0.jobs ≡ s.jobs)
            × ((after_spawn a s v job r).0.watchers ≡ s.watchers)
      after v (err x) g = (refl, refl)
      after v (ok ids) g =
          after_watch-failed (record s { contexts = suc s.contexts }) _ job ids s.contexts
            (watch_agents a v s.contexts ids).1 g

  after_watch-ok :
      (s : State C) (w : W) (job : Job) (ids : List String) (ctx : ℕ)
      (r : Result (Error E) (List C))
      → (after_watch a s w job ids ctx r).2 ≡ none
      → ((after_watch a s w job ids ctx r).1 ≡ w)
        × (lookup job.id s.jobs ≡ none)
        × (lookup job.id (after_watch a s w job ids ctx r).0.jobs
            ≡ some (enroll job ids ctx running))
  unfolding after_watch
  after_watch-ok s w job ids ctx (err x) h = cc
  after_watch-ok s w job ids ctx (ok chans) h = elim (commit_cases s job ids ctx chans) [
    | inl (x, c) ↦ ground (arith, c)
    | inr (free, _, c, d) ↦ rw c (
      refl,
      free,
      ap (lookup job.id) d ∙ lookup-insert_self job.id (enroll job ids ctx running) s.jobs,
    )
  ]

  -- What Schedule leaves when it succeeds: of the platform the spawns and the watches, no more, and the
  -- job with the agents that were spawned.
  pub schedule_ok-world :
      (s : State C) (w : W) (job : Job)
      → (schedule a s w job).2 ≡ none
      → (ids : List String) × ((spawn_agents a w job job.spec.agents).1 ≡ ok ids)
        × ((schedule a s w job).1
            ≡ (watch_agents a (spawn_agents a w job job.spec.agents).0 s.contexts ids).0)
        × (lookup job.id (schedule a s w job).0.jobs ≡ some (enroll job ids s.contexts running))
  unfolding schedule
  schedule_ok-world s w job h =
      after (spawn_agents a w job job.spec.agents).0 (spawn_agents a w job job.spec.agents).1 h
    where
      after :
          (v : W) (r : Result (Error E) (List String))
          → (after_spawn a s v job r).2 ≡ none
          → (ids : List String) × (r ≡ ok ids)
            × ((after_spawn a s v job r).1 ≡ (watch_agents a v s.contexts ids).0)
            × (lookup job.id (after_spawn a s v job r).0.jobs
                ≡ some (enroll job ids s.contexts running))
      after v (err x) g = cc
      after v (ok ids) g =
          let (world, _, bound) =
            after_watch-ok (record s { contexts = suc s.contexts }) _ job ids s.contexts
              (watch_agents a v s.contexts ids).1 g in
          (ids, refl, world, bound)

  pub schedule_spawn_failed :
      (s : State C) (w : W) (job : Job) (e : Error E)
      → (spawn_agents a w job job.spec.agents).1 ≡ err e
      → (schedule a s w job).2 ≡ some e
  unfolding schedule after_spawn
  schedule_spawn_failed s w job e h = rw h

module _ {W E C : Type 0} (a : PlatformAdapter W E C) (law : Lawful a) where
  open law use {alive}

  -- A job that is scheduled.
  pub record Scheduled (s t : State C) (w : W) (job : Job) : Type 0 where
    pub ids : List String
    pub fresh : lookup job.id s.jobs ≡ none
    pub bound : lookup job.id t.jobs ≡ some (enroll job ids s.contexts running)
    pub each : length ids ≡ length job.spec.agents
    pub runs : AllAlive a law w ids

  -- On a lawful platform, a Schedule that returns no error had a free id; the job is then in the
  -- map in phase Running, with one agent for each of its roles, and all these agents run on the
  -- platform.
  pub schedule_ok :
      (s : State C) (w : W) (job : Job)
      → (schedule a s w job).2 ≡ none
      → Scheduled s (schedule a s w job).0 (schedule a s w job).1 job
  unfolding schedule after_spawn
  schedule_ok s w job h =
      after (spawn_agents a w job job.spec.agents).0 (spawn_agents a w job job.spec.agents).1
        (spawn_agents-alive a law w job job.spec.agents) h
    where
      after :
          (v : W) (r : Result (Error E) (List String))
          → ((ids : List String)
              → r ≡ ok ids
              → AllAlive a law v ids × (length ids ≡ length job.spec.agents))
          → (after_spawn a s v job r).2 ≡ none
          → Scheduled s (after_spawn a s v job r).0 (after_spawn a s v job r).1 job
      after v (err x) f g = cc
      after v (ok ids) f g =
          let (same, free, b) =
            after_watch-ok a (record s { contexts = suc s.contexts })
              (watch_agents a v s.contexts ids).0 job ids s.contexts
              (watch_agents a v s.contexts ids).1 g in
          record {
            ids = ids;
            fresh = free;
            bound = b;
            each = (f ids refl).1;
            runs = rw same (watch_agents-AllAlive a law v s.contexts ids ids (f ids refl).0);
          }

  spawn_agents-append_err :
      (w : W) (job : Job) (pre : List AgentRole) (role : AgentRole) (post : List AgentRole)
      (ids : List String) (e : E)
      → (spawn_agents a w job pre).1 ≡ ok ids
      → (a.spawn_agent (spawn_agents a w job pre).0 (role_spec job role)).1 ≡ err e
      → spawn_agents a w job (pre ++ role ∷ post) ≡ (
        (a.spawn_agent (spawn_agents a w job pre).0 (role_spec job role)).0,
        err (spawn_failed role.role e),
      )
  unfolding spawn_agents
  spawn_agents-append_err w job [] role post ids e h g = ground arith
  spawn_agents-append_err w job (r ∷ pre) role post ids e h g =
      let w' = (a.spawn_agent w (role_spec job r)).0 in
      elim (Result-cases (spawn_agents a w' job pre).1) [
        | inl (ids', eb) ↦
            ground (arith, eb, spawn_agents-append_err w' job pre role post ids' e eb)
        | inr (x, eb) ↦ ground (arith, eb)
      ]

  AllAlive-spawn :
      (w : W) (spec : Spec) (ids : List String)
      → AllAlive a law w ids
      → AllAlive a law (a.spawn_agent w spec).0 ids
  AllAlive-spawn w spec [] h = tt
  AllAlive-spawn w spec (id ∷ ids) h =
      (law.spawn_keeps w spec id h.0, AllAlive-spawn w spec ids h.1)

  -- When a lawful platform refuses a role after it has spawned the roles before it, Schedule
  -- returns the error with its own state as it was, and the agents of those roles, one for each,
  -- run on: they are not terminated.
  pub schedule_leaks :
      (s : State C) (w : W) (job : Job) (pre : List AgentRole) (role : AgentRole)
      (post : List AgentRole) (ids : List String) (e : E)
      → job.spec.agents ≡ pre ++ role ∷ post
      → (spawn_agents a w job pre).1 ≡ ok ids
      → (a.spawn_agent (spawn_agents a w job pre).0 (role_spec job role)).1 ≡ err e
      → ((schedule a s w job).2 ≡ some (spawn_failed role.role e))
        × ((schedule a s w job).0 ≡ s)
        × (length ids ≡ length pre)
        × AllAlive a law (schedule a s w job).1 ids
  unfolding schedule after_spawn
  schedule_leaks s w job pre role post ids e roles h g =
      let (alive_before, each) = spawn_agents-alive a law w job pre ids h in
      let failure = spawn_agents-append_err w job pre role post ids e h g in
      let at_roles = ap (spawn_agents a w job) roles ∙ failure in
      rw at_roles (
        refl,
        refl,
        each,
        AllAlive-spawn (spawn_agents a w job pre).0 (role_spec job role) ids alive_before,
      )
