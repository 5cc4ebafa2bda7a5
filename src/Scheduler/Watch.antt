-- ===== src/Scheduler/Watch.antt =====
-- core/scheduler/scheduler.go, watchJob: the fan-in of the agents' channels, the count of their
-- terminal events, and the phase that the job gets.
pub mod FanIn
use muto.Prelude.{
  ℕ, suc, ◌+◌, String, Bool, true, false, ◌||◌, Option, none, some, List, [], ◌∷◌, All, ltb, ◌≡◌,
  if◌then◌else◌,
}
use muto.Prelude.Dict.{lookup, insert}
use muto.Agent.{Phase, succeeded, failed, terminating, Event, EventType, completed, is_terminal}
use muto.Scheduler.{State, JobRecord, phase_of, with_phase}

-- The counters `completed` and `failed`.
pub record Tally : Type 0 where
  pub completed : ℕ
  pub failed : ℕ

abbrev pub tally : EventType → Tally → Tally
tally EventType.completed t = record t { completed = suc t.completed }
tally EventType.failed t = record t { failed = suc t.failed }
tally _ t = t

-- The loop, over what `results` delivers until it is closed: `none` is the early return on a closed
-- channel.
unfoldable pub collect : ℕ → Tally → List Event → Option Tally
collect total t [] = if ltb (t.completed + t.failed) total then none else some t
collect total t (ev ∷ evs) =
    let rest = collect total (tally ev.type t) evs in
    if ltb (t.completed + t.failed) total then rest else some t

abbrev is_terminating : Phase → Bool
is_terminating terminating = true
is_terminating _ = false

-- A phase that watchJob must not overwrite.
abbrev pub is_settled : Phase → Bool
is_settled p = is_terminating p || is_terminal p

-- `Succeeded`, unless an agent failed.
abbrev pub verdict : Tally → Phase
verdict t = if ltb 0 t.failed then failed else succeeded

-- The locked section after the loop. A phase set by Cancel, or a terminal one, is kept.
unfoldable pub finish : {C : Type 0} → State C → String → Tally → State C
finish s id t = elim (lookup id s.jobs) [
  | none ↦ s
  | some r ↦
      if is_settled (phase_of r)
      then s
      else record s { jobs = insert id (with_phase (verdict t) r) s.jobs }
]

unfoldable pub finish_if : {C : Type 0} → State C → String → Option Tally → State C
finish_if s id none = s
finish_if s id (some t) = finish s id t

-- watchJob as a whole, on the events in the order in which `results` delivers them.
unfoldable pub watch_job : {C : Type 0} → State C → String → ℕ → List Event → State C
unfolding finish_if
watch_job s id total evs = finish_if s id (collect total (record { completed = 0; failed = 0 }) evs)

-- The goroutines that copy each channel to `results`: an event is taken from any channel that has
-- one, and `results` is closed when all are empty and closed.
pub data Receive (ev : Event) : List (List Event) → List (List Event) → Type 0 where
  first : {c : List Event} {cs : List (List Event)} → Receive ev ((ev ∷ c) ∷ cs) (c ∷ cs)
  later :
      {c : List Event} {cs ds : List (List Event)} → Receive ev cs ds → Receive ev (c ∷ cs) (c ∷ ds)

pub data Merge : List (List Event) → List Event → Type 0 where
  closed : {cs : List (List Event)} → All (λ c. c ≡ []) cs → Merge cs []
  receive :
      {cs ds : List (List Event)} {ev : Event} {evs : List Event}
      → Receive ev cs ds
      → Merge ds evs
      → Merge cs (ev ∷ evs)
