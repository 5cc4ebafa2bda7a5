-- ===== src/K8s/AgentJob/Bounded.antt =====
-- platform/k8s/reconcilers/agentjob_reconciler.go: the Reconcile calls on one job come to rest.
use muto.Prelude.{
  ℕ, suc, ◌+◌, ◌≤◌, String, Option, none, some, ◌≡◌, ◌≢◌, refl, arith, ◌⊎◌, inl, inr, ◌∙◌, sym, ap,
  Result-cases,
}
use muto.Agent.{Phase, unset, pending, running, succeeded, failed, terminating}
use muto.Scheduler.{initial_phase}
use muto.Scheduler.StateMachine.{◌⟶◌, start, succeed, fail, stop, clean_succeeded, clean_failed}
use muto.K8s.Types.{AgentJob}
use muto.K8s.Objects.{ApiError, not_found, already_exists}
use muto.K8s.Client.{Client}
use muto.K8s.Answer.{status_label, observe_reconcile, ignore_not_found}
use muto.K8s.AgentJob.{reconcile}
use muto.K8s.AgentJob.Store.{JobStore, Next}
use muto.K8s.AgentJob.Reconciled.{reconcile-Next}

-- How many steps of its life cycle are left.
abbrev pub phase_rank : Phase → ℕ
phase_rank unset = 4
phase_rank pending = 4
phase_rank running = 3
phase_rank succeeded = 2
phase_rank failed = 2
phase_rank terminating = 1
phase_rank (Phase.other p) = 0

abbrev rank : Option AgentJob → ℕ
rank none = 0
rank (some j) = phase_rank j.status.phase

pub initial_phase-rank : (p : Phase) → phase_rank (initial_phase p) ≡ phase_rank p
unfolding initial_phase
initial_phase-rank unset = refl
initial_phase-rank pending = refl
initial_phase-rank running = refl
initial_phase-rank succeeded = refl
initial_phase-rank failed = refl
initial_phase-rank terminating = refl
initial_phase-rank (Phase.other p) = refl

pub edge-rank : {p q : Phase} → p ⟶ q → suc (phase_rank q) ≤ phase_rank p
edge-rank start = omega arith
edge-rank succeed = omega arith
edge-rank fail = omega arith
edge-rank stop = omega arith
edge-rank clean_succeeded = omega arith
edge-rank clean_failed = omega arith

phase_rank-le : (p : Phase) → phase_rank p ≤ 4
phase_rank-le unset = omega arith
phase_rank-le pending = omega arith
phase_rank-le running = omega arith
phase_rank-le succeeded = omega arith
phase_rank-le failed = omega arith
phase_rank-le terminating = omega arith
phase_rank-le (Phase.other p) = omega arith

rank-le : (o : Option AgentJob) → rank o ≤ 4
rank-le none = omega arith
rank-le (some j) = phase_rank-le j.status.phase

-- A change uses up a step.
Next-rank :
    (j : AgentJob) (o : Option AgentJob)
    → Next j o
    → (o ≡ some j) ⊎ (suc (rank o) ≤ phase_rank j.status.phase)
Next-rank j o (inl same) = inl same
Next-rank j o (inr (inl (j', moved, edge, spec))) =
    inr (rw moved (omega (arith, edge-rank edge, initial_phase-rank j.status.phase)))
Next-rank j o (inr (inr (gone, last))) = inr (rw (gone, last) (omega arith))

module _ {W : Type 0} (c : Client W) (namespace name : String)
    (store : JobStore c namespace name) where
  open store use {stored}

  ignore_not_found-keeps : (w : W) (e : ApiError) → stored (ignore_not_found w e).world ≡ stored w
  ignore_not_found-keeps w not_found = refl
  ignore_not_found-keeps w already_exists = refl
  ignore_not_found-keeps w (ApiError.failure m) = refl

  -- A job that is gone stays gone.
  reconcile-gone : (w : W) → stored w ≡ none → stored (reconcile c w namespace name).world ≡ none
  unfolding reconcile observe_reconcile
  reconcile-gone w h = elim (Result-cases (c.get_job w namespace name).1) [
    | inl (j, k) ↦ ground (arith, store.got w k)
    | inr (e, k) ↦
        let w' = (c.get_job w namespace name).0 in
        rw k (
          store.observe_keeps (ignore_not_found w' e).world "agentjob"
            (status_label (ignore_not_found w' e).error)
          ∙ ignore_not_found-keeps w' e
          ∙ store.get_job_keeps w namespace name
          ∙ h)
  ]

  -- What happens to the cluster, one event after another: a Reconcile call that leaves the stored job as
  -- it is, one that changes it, which the number counts, or anything else that leaves it.
  pub data History : ℕ → W → W → Type 0 where
    begun : {w : W} → History 0 w w
    idle :
        {n : ℕ} {w v : W}
        → History n w v
        → stored (reconcile c v namespace name).world ≡ stored v
        → History n w (reconcile c v namespace name).world
    changing :
        {n : ℕ} {w v : W}
        → History n w v
        → stored (reconcile c v namespace name).world ≢ stored v
        → History (suc n) w (reconcile c v namespace name).world
    elsewhere : {n : ℕ} {w v v' : W} → History n w v → stored v' ≡ stored v → History n w v'

  change-rank :
      (v : W) (o : Option AgentJob)
      → stored v ≡ o
      → stored (reconcile c v namespace name).world ≢ stored v
      → suc (rank (stored (reconcile c v namespace name).world)) ≤ rank (stored v)
  change-rank v none h changed = elim (changed (reconcile-gone v h ∙ sym h)) [ ]
  change-rank v (some j) h changed =
      elim (Next-rank j (stored (reconcile c v namespace name).world)
        (reconcile-Next c namespace name store v j h)) [
          | inl same ↦ elim (changed (same ∙ sym h)) [ ]
          | inr less ↦ rw h less
        ]

  -- Each change has used up a step of the life cycle.
  History-rank : {n : ℕ} {w v : W} → History n w v → n + rank (stored v) ≤ rank (stored w)
  History-rank begun = omega arith
  History-rank (idle past same) = omega (arith, History-rank past, ap rank same)
  History-rank (changing {v = v} past changed) =
      omega (arith, History-rank past, change-rank v (stored v) refl changed)
  History-rank (elsewhere past same) = omega (arith, History-rank past, ap rank same)

  -- While nobody else writes the stored AgentJob (JobStore), at most four of all the Reconcile calls that
  -- are ever made for it change it, its deletion included, whatever the API server answers and whatever
  -- happens to other objects in between; every other call leaves it as it is.
  pub History-bounded : {n : ℕ} {w v : W} → History n w v → n ≤ 4
  History-bounded {n} {w} {v} past = omega (arith, History-rank past, rank-le (stored w))
