-- ===== src/K8s/AgentJob/Ttl.antt =====
-- platform/k8s/reconcilers/agentjob_reconciler.go, reconcileTerminal: when a finished job is taken
-- down.
use mathlib.Core.Option
use muto.Prelude.{true, Option, none, some, ◌≡◌, refl, arith, ◌⊎◌, inl, inr, Bool-cases}
use muto.Prelude.Int.{ℤ, pos, ◌-ℤ◌, ◌≤ℤ◌, leb_ℤ, ltb_ℤ}
use muto.K8s.Types.{AgentJob}
use muto.K8s.Client.{Client}
use muto.K8s.Answer.{Answer, api, seconds}
use muto.K8s.AgentJob.{completed, expire, reconcile_terminal, as_terminating}

-- The time to live is set, and has passed since the completion.
pub record IsExpired (now : ℤ) (j : AgentJob) : Type 0 where
  pub at : ℤ
  pub limited : ltb_ℤ (pos 0) j.spec.ttl_after_completion ≡ true
  pub finished_at : j.status.completed_at ≡ some at
  pub passed : seconds j.spec.ttl_after_completion ≤ℤ (now -ℤ at)

-- The time to live has not passed: it is not set, the completion is not known, or time is left.
abbrev pub IsKept : ℤ → AgentJob → Type 0
IsKept now j =
    (j.spec.ttl_after_completion ≤ℤ pos 0)
    ⊎ (j.status.completed_at ≡ none)
    ⊎ ((t : ℤ) × (j.status.completed_at ≡ some t)
        × (ltb_ℤ (now -ℤ t) (seconds j.spec.ttl_after_completion) ≡ true))

module _ {W : Type 0} (c : Client W) (w : W) (j : AgentJob) where
  abbrev Outcome : Answer W → Type 0
  Outcome a =
      (IsKept (c.now w) j × (a.world ≡ w) × (a.error ≡ none))
      ⊎ (IsExpired (c.now w) j
          × (a.world ≡ (c.update_job_status w (as_terminating j)).0)
          × (a.error ≡ Option.map api (c.update_job_status w (as_terminating j)).1))

  completed-Outcome :
      ltb_ℤ (pos 0) j.spec.ttl_after_completion ≡ true
      → (o : Option ℤ) → j.status.completed_at ≡ o
      → Outcome (completed c w j o)
  unfolding completed expire
  completed-Outcome limited none e = inl (inr (inl e), refl, refl)
  completed-Outcome limited (some t) e =
      elim (Bool-cases (ltb_ℤ (c.now w -ℤ t) (seconds j.spec.ttl_after_completion))) [
        | inl b ↦ rw b (inl (inr (inr (t, e, b)), refl, refl))
        | inr b ↦ rw b (
            inr (
              record { at = t; limited = limited; finished_at = e; passed = ground arith },
              refl,
              refl,
            ))
      ]

  -- reconcileTerminal touches nothing while the time to live has not passed, and once it has it
  -- makes exactly one call, which stores the job as Terminating, and returns that call's error. It
  -- is one or the other.
  pub reconcile_terminal_ttl :
      (IsKept (c.now w) j
        × ((reconcile_terminal c w j).world ≡ w)
        × ((reconcile_terminal c w j).error ≡ none))
      ⊎ (IsExpired (c.now w) j
          × ((reconcile_terminal c w j).world ≡ (c.update_job_status w (as_terminating j)).0)
          × ((reconcile_terminal c w j).error
              ≡ Option.map api (c.update_job_status w (as_terminating j)).1))
  unfolding reconcile_terminal
  reconcile_terminal_ttl = elim (Bool-cases (leb_ℤ j.spec.ttl_after_completion (pos 0))) [
    | inl b ↦ rw b (inl (inl (ground arith), refl, refl))
    | inr b ↦ rw b (completed-Outcome (ground arith) j.status.completed_at refl)
  ]
