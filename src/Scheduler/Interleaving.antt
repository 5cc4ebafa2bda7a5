-- ===== src/Scheduler/Interleaving.antt =====
-- core/scheduler/scheduler.go under concurrency: Schedule and Cancel calls and watchJob goroutines
-- in any number, which meet at the mutex. A call in flight has done its platform calls and waits
-- for its last section; what the platform answered is arbitrary here.
use muto.Prelude.{
  ℕ, suc, String, Option, none, some, List, [], ◌∷◌, ◌≡◌, ◌∙◌, ap, refl, arith, length,
}
use muto.Prelude.Dict.{Dict, lookup}
use muto.Agent.{Phase, terminating, Job, Event}
use muto.Scheduler.StateMachine.{◌⟶*◌, terminating-no_edge, stay, next}
use muto.Scheduler.{
  State, JobRecord, Refusal, phase_of, end_context, new_default_scheduler, commit, commit_cancel,
}
use muto.Scheduler.Watch.{Tally, finish_if, watch_job, collect}
use muto.Scheduler.Evolution.{
  Evolves, Evolves-trans, Registered, Persists, Persists-refl, commit-Persists, commit-Registered,
  commit_cancel-Persists, commit_cancel-Registered, finish-Persists, finish-Registered,
}

pub data Call (C : Type 0) : Type 0 where
  scheduling : Job → List String → ℕ → List C → Call C
  cancelling : String → ℕ → Call C
  watching : String → ℕ → Call C

pub record System (C : Type 0) : Type 0 where
  pub state : State C
  pub calls : List (Call C)

-- Any call in flight may be the next to run.
pub data Take {C : Type 0} (c : Call C) : List (Call C) → List (Call C) → Type 0 where
  first : {cs : List (Call C)} → Take c (c ∷ cs) cs
  later : {d : Call C} {cs ds : List (Call C)} → Take c cs ds → Take c (d ∷ cs) (d ∷ ds)

-- After Schedule's last section: the watcher starts, or the call's context is ended.
abbrev pub scheduled :
    {C : Type 0} → String → ℕ → ℕ → List (Call C) → State C × Option Refusal → System C
scheduled id total ctx cs (s, none) = record { state = s; calls = watching id total ∷ cs }
scheduled id total ctx cs (s, some e) = record { state = end_context ctx s; calls = cs }

pub data Step {C : Type 0} (x : System C) : System C → Type 0 where
  arrive :
      (job : Job) (ids : List String) (chans : List C)
      → Step x (record {
        state = record x.state { contexts = suc x.state.contexts };
        calls = scheduling job ids x.state.contexts chans ∷ x.calls;
      })
  commits :
      {job : Job} {ids : List String} {ctx : ℕ} {chans : List C} {cs : List (Call C)}
      → Take (scheduling job ids ctx chans) x.calls cs
      → Step x (scheduled job.id (length chans) ctx cs (commit x.state job ids ctx chans))
  asks :
      (id : String) {r : JobRecord}
      → lookup id x.state.jobs ≡ some r
      → Step x (record x { calls = cancelling id r.watch ∷ x.calls })
  cancels :
      {id : String} {ctx : ℕ} {cs : List (Call C)}
      → Take (cancelling id ctx) x.calls cs
      → Step x (record { state = (commit_cancel x.state id ctx).0; calls = cs })
  reports :
      {id : String} {total : ℕ} {cs : List (Call C)} (evs : List Event)
      → Take (watching id total) x.calls cs
      → Step x (record { state = watch_job x.state id total evs; calls = cs })

pub data Reach {C : Type 0} (x : System C) : System C → Type 0 where
  here : Reach x x
  more : {y z : System C} → Reach x y → Step y z → Reach x z

abbrev pub initial : {C : Type 0} → System C
initial = record { state = new_default_scheduler; calls = [] }

-- The jobs after Schedule's last section, also where its context is ended.
scheduled-jobs :
    {C : Type 0} (id : String) (total ctx : ℕ) (cs : List (Call C)) (p : State C × Option Refusal)
    → (scheduled id total ctx cs p).state.jobs ≡ p.0.jobs
scheduled-jobs id total ctx cs (s, none) = refl
scheduled-jobs id total ctx cs (s, some e) = refl

-- What every step does to the map of jobs.
abbrev Sound : {C : Type 0} → State C → State C → Type 0
Sound s t = Persists s.jobs t.jobs × Registered t.jobs

watch_job-Sound :
    {C : Type 0} (s : State C) (id : String) (total : ℕ) (evs : List Event)
    → Registered s.jobs
    → Sound s (watch_job s id total evs)
unfolding watch_job
watch_job-Sound s id total evs reg = report (collect total _ evs)
  where
    report : (o : Option Tally) → Sound s (finish_if s id o)
    report none = (Persists-refl s.jobs, reg)
    report (some t) = (finish-Persists s id t reg, finish-Registered s id t reg)

Step-Sound :
    {C : Type 0} {x y : System C} → Step x y → Registered x.state.jobs → Sound x.state y.state
Step-Sound {x} (arrive job ids chans) reg = (Persists-refl x.state.jobs, reg)
Step-Sound {x} (commits {job} {ids} {ctx} {chans} {cs} t) reg =
    rw (scheduled-jobs job.id (length chans) ctx cs (commit x.state job ids ctx chans))
      (commit-Persists x.state job ids ctx chans, commit-Registered x.state job ids ctx chans reg)
Step-Sound {x} (asks id e) reg = (Persists-refl x.state.jobs, reg)
Step-Sound {x} (cancels {id} {ctx} t) reg =
    (commit_cancel-Persists x.state id ctx, commit_cancel-Registered x.state id ctx reg)
Step-Sound {x} (reports {id} {total} evs t) reg = watch_job-Sound x.state id total evs reg

Persists-trans : (m n o : Dict JobRecord) → Persists m n → Persists n o → Persists m o
Persists-trans m n o p q k r h =
    let (r', h', v) = p k r h in let (r'', h'', w) = q k r' h' in (r'', h'', Evolves-trans v w)

Reach-Sound :
    {C : Type 0} {x y : System C} → Registered x.state.jobs → Reach x y → Sound x.state y.state
Reach-Sound {x} reg here = (Persists-refl x.state.jobs, reg)
Reach-Sound {x} reg (more {y} {z} r st) =
    let (p, g) = Reach-Sound reg r in
    let (q, h) = Step-Sound st g in (Persists-trans x.state.jobs y.state.jobs z.state.jobs p q, h)

Registered-empty : Registered []
unfolding lookup
Registered-empty k r h = cc

-- In every state that the scheduler can reach, a job stands in the map under its own id and is
-- Running, Succeeded, Failed or Terminating.
pub Reach-Registered : {C : Type 0} {x : System C} → Reach initial x → Registered x.state.jobs
Reach-Registered r = (Reach-Sound Registered-empty r).1

-- However calls and watchers interleave, a job that is in the map stays there: its agents, its
-- watch context and its specification never change, and its phase only moves along the edges of the
-- life cycle.
pub Reach-Evolves :
    {C : Type 0} {x y : System C} (id : String) (r : JobRecord)
    → Reach initial x
    → Reach x y
    → lookup id x.state.jobs ≡ some r
    → (r' : JobRecord) × (lookup id y.state.jobs ≡ some r') × Evolves r r'
Reach-Evolves id r before after h = (Reach-Sound (Reach-Registered before) after).0 id r h

⟶*-from_terminating : {p q : Phase} → p ⟶* q → p ≡ terminating → q ≡ terminating
⟶*-from_terminating stay e = e
⟶*-from_terminating (next s edge) e = absurd (terminating-no_edge edge (⟶*-from_terminating s e))

-- Once a job is Terminating in a reachable state, no call and no watcher, early or late, changes
-- its record in the map.
pub Reach-terminating :
    {C : Type 0} {x y : System C} (id : String) (r : JobRecord)
    → Reach initial x
    → Reach x y
    → lookup id x.state.jobs ≡ some r
    → phase_of r ≡ terminating
    → lookup id y.state.jobs ≡ some r
Reach-terminating id r before after h e =
    let (r', h', v) = Reach-Evolves id r before after h in
    let same : phase_of r' ≡ terminating = ⟶*-from_terminating v.phases e in
    h' ∙ ap some (ground (arith, v.rest))
