-- ===== src/Scheduler/StateMachine.antt =====
-- core/scheduler/statemachine.go: the table of phase transitions, and what `Transition` returns.
use muto.Prelude.{String, ◌≡◌, ◌≢◌, ◌↔◌, refl, Option, none, some, arith}
use muto.Agent.{Phase, pending, running, succeeded, failed, terminating}

pub data Event : Type 0 where
  spawned all_complete agent_failed ttl_expired cancelled : Event
  other : String → Event

-- The two values that the error's text quotes.
pub record InvalidTransition : Type 0 where
  pub current : Phase
  pub event : Event

-- A look-up in the map `transitions`.
unfoldable pub transitions : Phase → Event → Option Phase
transitions pending spawned = some running
transitions running all_complete = some succeeded
transitions running agent_failed = some failed
transitions running cancelled = some terminating
transitions succeeded ttl_expired = some terminating
transitions failed ttl_expired = some terminating
transitions succeeded cancelled = some terminating
transitions failed cancelled = some terminating
transitions _ _ = none

-- Go returns the phase and the error; the phase is the old one beside an error.
unfoldable pub transition : Phase → Event → Phase × Option InvalidTransition
unfolding transitions
transition current e = elim (transitions current e) [
  | none ↦ (current, some (record { current = current; event = e }))
  | some next ↦ (next, none)
]

-- The life of a job, independent of events: the edges between phases.
infix 40 ◌⟶◌ ◌⟶*◌
pub data ◌⟶◌ : Phase → Phase → Type 0 where
  start : pending ⟶ running
  succeed : running ⟶ succeeded
  fail : running ⟶ failed
  stop : running ⟶ terminating
  clean_succeeded : succeeded ⟶ terminating
  clean_failed : failed ⟶ terminating

pub data ◌⟶*◌ : Phase → Phase → Type 0 where
  stay : {p : Phase} → p ⟶* p
  next : {p q r : Phase} → p ⟶* q → q ⟶ r → p ⟶* r

pub ⟶*-trans : {p q r : Phase} → p ⟶* q → q ⟶* r → p ⟶* r
⟶*-trans s stay = s
⟶*-trans s (next t e) = next (⟶*-trans s t) e

-- No edge leaves Terminating.
pub terminating-no_edge : {p q : Phase} → p ⟶ q → p ≢ terminating
terminating-no_edge start e = cc
terminating-no_edge succeed e = cc
terminating-no_edge fail e = cc
terminating-no_edge stop e = cc
terminating-no_edge clean_succeeded e = cc
terminating-no_edge clean_failed e = cc

ruleset edges = (start, succeed, fail, stop, clean_succeeded, clean_failed)

-- `Transition` accepts an event only along an edge of the life cycle, and every edge is taken by
-- some event.
transition-⟶ : (p q : Phase) → (p ⟶ q) ↔ ((e : Event) × (transition p e ≡ (q, none)))
unfolding transition
transition-⟶ p q = (there, λ w. back p w.0 q w.1)
  where
    there : {a b : Phase} → a ⟶ b → (e : Event) × (transition a e ≡ (b, none))
    there start = (spawned, refl)
    there succeed = (all_complete, refl)
    there fail = (agent_failed, refl)
    there stop = (cancelled, refl)
    there clean_succeeded = (cancelled, refl)
    there clean_failed = (cancelled, refl)

    back : (a : Phase) (e : Event) (b : Phase) → transition a e ≡ (b, none) → a ⟶ b
    back a e b h = grind (arith, edges)

-- A refused event leaves the phase as it was, and the error names both.
pub transition_refused :
    (p : Phase) (e : Event) {x : InvalidTransition}
    → (transition p e).1 ≡ some x
    → ((transition p e).0 ≡ p) × (x ≡ record { current = p; event = e })
unfolding transition
transition_refused p e h = ground arith

-- Nothing leaves `Terminating`.
pub transition-terminating :
    (e : Event)
    → transition terminating e ≡ (terminating, some (record { current = terminating; event = e }))
unfolding transition
transition-terminating spawned = refl
transition-terminating _ = refl
