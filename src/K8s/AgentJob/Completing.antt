-- ===== src/K8s/AgentJob/Completing.antt =====
-- platform/k8s/reconcilers/agentjob_reconciler.go: how many calls take a job to its end.
use mathlib.Core.Option.{some-injective}
use muto.Prelude.{
  ℕ, suc, ◌+◌, ◌≤◌, String, none, some, ok, ◌≡◌, refl, arith, inl, inr, ◌∙◌, sym, ap,
}
use muto.Agent.{Phase, unset, pending, running, succeeded, failed, terminating}
use muto.Scheduler.{initial_phase}
use muto.Scheduler.StateMachine.{◌⟶◌, start, succeed, fail, stop, clean_succeeded, clean_failed}
use muto.K8s.Types.{AgentJob}
use muto.K8s.Client.{Client}
use muto.K8s.Answer.{status_label, observe_reconcile}
use muto.K8s.AgentJob.{dispatch, reconcile}
use muto.K8s.AgentJob.Store.{JobStore}
use muto.K8s.AgentJob.Advancing.{IsAdvanced}
use muto.K8s.AgentJob.Progress.{IsAtRest, Waits, dispatch-IsNext}
use muto.K8s.AgentJob.Bounded.{phase_rank, initial_phase-rank, edge-rank}

-- An edge leads into the life cycle, never out of it.
edge-positive : {p q : Phase} → p ⟶ q → 1 ≤ phase_rank q
edge-positive start = omega arith
edge-positive succeed = omega arith
edge-positive fail = omega arith
edge-positive stop = omega arith
edge-positive clean_succeeded = omega arith
edge-positive clean_failed = omega arith

last_phase : (p : Phase) → 1 ≤ phase_rank p → phase_rank p ≤ 1 → p ≡ terminating
last_phase unset h k = absurd (omega (arith, k))
last_phase pending h k = absurd (omega (arith, k))
last_phase running h k = absurd (omega (arith, k))
last_phase succeeded h k = absurd (omega (arith, k))
last_phase failed h k = absurd (omega (arith, k))
last_phase terminating h k = refl
last_phase (Phase.other p) h k = absurd (omega (arith, h))

new_phase-rank : (p : Phase) → initial_phase p ≡ pending → phase_rank p ≡ 4
new_phase-rank p h = sym (initial_phase-rank p) ∙ ap phase_rank h

module _ {W : Type 0} (c : Client W) (namespace name : String)
    (store : JobStore c namespace name) where
  open store use {stored}

  -- A Reconcile call that reads the job and that nothing hinders: it returns no error, has no reason to
  -- wait, and something is left to do.
  pub record Unhindered (w : W) : Type 0 where
    pub job : AgentJob
    pub read : (c.get_job w namespace name).1 ≡ ok job
    pub quiet : (reconcile c w namespace name).error ≡ none
    pub awake : ¬ Waits c namespace name store (c.get_job w namespace name).0 job
    pub unfinished : ¬ IsAtRest c namespace name store job

  Unhindered-IsAdvanced :
      (w : W) (u : Unhindered w)
      → IsAdvanced c namespace name store u.job (reconcile c w namespace name).world
  unfolding reconcile observe_reconcile
  Unhindered-IsAdvanced w u =
      let w' = (c.get_job w namespace name).0 in
      let (there, ns, n) = store.got w u.read in
      let b = dispatch c u.job.status.phase w' u.job in
      let kept = store.observe_keeps b.world "agentjob" (status_label b.error) in
      let quiet : b.error ≡ none = rw u.read at u.quiet in
      elim (dispatch-IsNext c namespace name store u.job ns n w' quiet) [
        | inl (_, why) ↦ absurd (u.awake why)
        | inr (inl (j', moved, edge, ns', n')) ↦ rw u.read (j', kept ∙ moved, edge, ns', n')
        | inr (inr rest) ↦ absurd (u.unfinished rest)
      ]

  -- What happens to the cluster: an unhindered call, which the number counts, a call that leaves the
  -- stored job as it is, or anything else that does.
  pub data Course : ℕ → W → W → Type 0 where
    begun : {w : W} → Course 0 w w
    served :
        {n : ℕ} {w v : W}
        → Course n w v
        → Unhindered v
        → Course (suc n) w (reconcile c v namespace name).world
    idle :
        {n : ℕ} {w v : W}
        → Course n w v
        → stored (reconcile c v namespace name).world ≡ stored v
        → Course n w (reconcile c v namespace name).world
    elsewhere : {n : ℕ} {w v v' : W} → Course n w v → stored v' ≡ stored v → Course n w v'

  -- Each unhindered call has used up a step.
  abbrev IsWithin : ℕ → W → Type 0
  IsWithin n v =
      (j : AgentJob) × (stored v ≡ some j)
      × (1 ≤ phase_rank j.status.phase)
      × (n + phase_rank j.status.phase ≤ 4)

  Course-IsWithin :
      {n : ℕ} {w v : W}
      → Course n w v
      → (j : AgentJob) → stored w ≡ some j
      → initial_phase j.status.phase ≡ pending
      → IsWithin n v
  Course-IsWithin begun j h p =
      let r = new_phase-rank j.status.phase p in (j, h, omega (arith, r), omega (arith, r))
  Course-IsWithin (served {n = n} {v = v} past u) j h p =
      let (k, there, _, left) = Course-IsWithin past j h p in
      let (j', moved, edge, _, _) = Unhindered-IsAdvanced v u in
      let same : u.job ≡ k = some-injective u.job k (sym (store.got v u.read).0 ∙ there) in
      let less = edge-rank edge in
      let before = initial_phase-rank u.job.status.phase in
      let equal : phase_rank u.job.status.phase ≡ phase_rank k.status.phase =
        ap (λ x. phase_rank x.status.phase) same in
      (j', moved, edge-positive edge, omega (arith, less, before, equal, left))
  Course-IsWithin (idle past same) j h p =
      let (k, there, some_left, left) = Course-IsWithin past j h p in
      (k, same ∙ there, some_left, left)
  Course-IsWithin (elsewhere past same) j h p =
      let (k, there, some_left, left) = Course-IsWithin past j h p in
      (k, same ∙ there, some_left, left)

  -- While nobody else writes the stored AgentJob (JobStore), three unhindered Reconcile calls take a new
  -- job to its end: it is Terminating after them, whatever calls that leave it as it is, and whatever
  -- else, come in between. Unhindered is a call that reads the job and returns no error, for a job that is
  -- not running with no pods or a pod that is not over, is not finished with its time to live not passed,
  -- and is not one with nothing left to do.
  pub Course-terminates :
      {w v : W}
      → Course 3 w v
      → (j : AgentJob) → stored w ≡ some j
      → initial_phase j.status.phase ≡ pending
      → (j' : AgentJob) × (stored v ≡ some j') × (j'.status.phase ≡ terminating)
  Course-terminates course j h p =
      let (j', there, some_left, few_left) = Course-IsWithin course j h p in
      (j', there, last_phase j'.status.phase some_left (omega (arith, few_left)))
