-- ===== src/Tracing/Transparent.antt =====
-- core/tracing/scheduler.go: the scheduler does the same over a traced platform.
use muto.Prelude.{
  ℕ, String, ◌≡◌, refl, ap, Option, List, [], ◌∷◌, arith, inl, inr, Option-cases, Result-cases,
}
use muto.Prelude.Dict.{lookup}
use muto.Agent.{AgentRole, Job}
use muto.Scheduler.{
  State, Error, role_spec, spawn_agents, watch_agents, terminate_all, terminate_agents, schedule,
  cancel,
}
use muto.Scheduler.Adapter.{PlatformAdapter}
use muto.Tools.{Scheduler}
use muto.Tools.Served.{default_scheduler}
use muto.Tracing.{
  itself, error_of, ended_span, wrap_scheduler, Traced, wrap, wrap_err, wrap_platform_adapter,
}

module _ {W E C : Type 0} (text : E → String) (a : PlatformAdapter W E C) where
  abbrev traced : PlatformAdapter (Traced W) E C
  traced = wrap_platform_adapter text a

  -- The same state of the platform beneath the spans, and the same answer.
  abbrev SameAnswer : {A : Type 0} → Traced W × A → W × A → Type 0
  SameAnswer x y = (x.0.inner ≡ y.0) × (x.1 ≡ y.1)

  spawn_traced :
      (t : Traced W) (job : Job) (roles : List AgentRole)
      → SameAnswer (spawn_agents traced t job roles) (spawn_agents a t.inner job roles)
  unfolding spawn_agents wrap_platform_adapter wrap
  spawn_traced t job [] = (refl, refl)
  spawn_traced t job (role ∷ roles) =
      ground (arith, spawn_traced (traced.spawn_agent t (role_spec job role)).0 job roles)

  watch_traced :
      (t : Traced W) (ctx : ℕ) (ids : List String)
      → SameAnswer (watch_agents traced t ctx ids) (watch_agents a t.inner ctx ids)
  unfolding watch_agents wrap_platform_adapter wrap
  watch_traced t ctx [] = (refl, refl)
  watch_traced t ctx (id ∷ ids) =
      ground (arith, watch_traced (traced.watch_agent t ctx id).0 ctx ids)

  terminate_traced :
      (t : Traced W) (ids : List String)
      → SameAnswer (terminate_agents traced t ids) (terminate_agents a t.inner ids)
  unfolding terminate_agents wrap_platform_adapter wrap wrap_err
  terminate_traced t [] = (refl, refl)
  terminate_traced t (id ∷ ids) =
      ground (arith, terminate_traced (traced.terminate_agent t id).0 ids)

  clean_up_traced :
      (t : Traced W) (ids : List String)
      → (terminate_all traced t ids).inner ≡ terminate_all a t.inner ids
  unfolding terminate_all wrap_platform_adapter wrap wrap_err
  clean_up_traced t [] = refl
  clean_up_traced t (id ∷ ids) = clean_up_traced (traced.terminate_agent t id).0 ids

  -- The same map of jobs, the same state of the platform beneath the spans, and the same answer.
  abbrev SameRun : State C × Traced W × Option (Error E) → State C × W × Option (Error E) → Type 0
  SameRun x y = (x.0 ≡ y.0) × (x.1.inner ≡ y.1) × (x.2 ≡ y.2)

  schedule_traced :
      (s : State C) (t : Traced W) (job : Job)
      → SameRun (schedule traced s t job) (schedule a s t.inner job)
  unfolding schedule
  schedule_traced s t job =
      let x = spawn_agents traced t job job.spec.agents in
      let same = spawn_traced t job job.spec.agents in
      elim (Result-cases (spawn_agents a t.inner job job.spec.agents).1) [
        | inr (e, h) ↦ ground (arith, same)
        | inl (ids, h) ↦ elim (Result-cases (watch_agents a x.0.inner s.contexts ids).1) [
          | inr (e, k) ↦ ground (arith, same, watch_traced x.0 s.contexts ids)
          | inl (chans, k) ↦ ground (
            arith,
            same,
            watch_traced x.0 s.contexts ids,
            clean_up_traced (watch_agents traced x.0 s.contexts ids).0 ids,
          )
        ]
      ]

  cancel_traced :
      (s : State C) (t : Traced W) (id : String)
      → SameRun (cancel traced s t id) (cancel a s t.inner id)
  unfolding cancel
  cancel_traced s t id = elim (Option-cases (lookup id s.jobs)) [
    | inl h ↦ ground arith
    | inr (r, h) ↦ ground (arith, terminate_traced t r.agent_ids)
  ]

module _ {W E C : Type 0} (text : E → String) (text_of : Error E → String)
    (a : PlatformAdapter W E C) where
  -- As the executables compose them.
  abbrev traced_scheduler : Scheduler (Traced (State C × Traced W)) (Error E)
  traced_scheduler = wrap_scheduler text_of (default_scheduler (wrap_platform_adapter text a))

  abbrev plain : Scheduler (State C × W) (Error E)
  plain = default_scheduler a

  abbrev pub erased : Traced (State C × Traced W) → State C × W
  erased x = (x.inner.0, x.inner.1.inner)

  -- The call did what it does without spans, and the one span that it added on its own level has the
  -- operation's name, and an error status exactly when the call failed.
  abbrev pub IsTraced :
      {A : Type 0}
      → (A → Option (Error E))
      → String
      → Traced (State C × Traced W)
      → Traced (State C × Traced W) × A
      → (State C × W) × A
      → Type 0
  IsTraced failure name x y z =
      (erased y.0 ≡ z.0)
      × (y.1 ≡ z.1)
      × (y.0.spans ≡ ended_span text_of name (failure z.1) ∷ x.spans)

  abbrev pub IsTransparent : Traced (State C × Traced W) → Job → String → String → Type 0
  IsTransparent x job id tenant =
      IsTraced itself "Scheduler.Schedule" x (traced_scheduler.schedule x job)
        (plain.schedule (erased x) job)
      × IsTraced itself "Scheduler.Cancel" x (traced_scheduler.cancel x id)
          (plain.cancel (erased x) id)
      × IsTraced error_of "Scheduler.Status" x (traced_scheduler.status x id)
          (plain.status (erased x) id)
      × IsTraced error_of "Scheduler.ListActive" x (traced_scheduler.list_active x tenant)
          (plain.list_active (erased x) tenant)

  -- With spans around every call of the scheduler and of the platform, each of the four operations of
  -- DefaultScheduler leaves the same jobs and the same platform, and gives the same answer, as
  -- without; it adds one span of its own, which has the error status when the operation fails.
  pub traced_scheduler-IsTransparent :
      (x : Traced (State C × Traced W)) (job : Job) (id tenant : String)
      → IsTransparent x job id tenant
  unfolding wrap_scheduler wrap_platform_adapter default_scheduler wrap wrap_err
  traced_scheduler-IsTransparent x job id tenant =
      let scheduled = schedule_traced text a x.inner.0 x.inner.1 job in
      let cancelled = cancel_traced text a x.inner.0 x.inner.1 id in
      (
        (
          cc,
          scheduled.2,
          ap (λ e. ended_span text_of "Scheduler.Schedule" e ∷ x.spans) scheduled.2,
        ),
        (cc, cancelled.2, ap (λ e. ended_span text_of "Scheduler.Cancel" e ∷ x.spans) cancelled.2),
        (refl, refl, refl),
        (refl, refl, refl),
      )
