-- ===== src/K8s/AgentJob/Verdict.antt =====
-- platform/k8s/reconcilers/agentjob_reconciler.go, reconcileRunning: when a running job is over, and
-- with which result.
use muto.Prelude.{
  ℕ, zero, suc, String, some, none, Bool, true, false, ◌&&◌, ◌||◌, List, [], ◌∷◌, Result, ok, err,
  ◌≡◌, refl, arith, ap, length, count, count-le-length, ltb, eqb, ◌∙◌, if◌then◌else◌,
}
use muto.K8s.Objects.{Pod, ApiError}
use muto.Prelude.{◌*◌}
use muto.Prelude.Int.{pos}
use muto.K8s.Types.{AgentJob}
use muto.K8s.Client.{Client}
use muto.K8s.Answer.{Answer, api, fails, requeue, second, seconds}
use muto.Agent.{Phase, succeeded, failed}
use muto.K8s.AgentJob.{
  scan, is_over, has_failed, judge, judge_listed, finished, outcome, reconcile_running,
}

abbrev pub over : Pod → Bool
over p = is_over p.phase

abbrev pub broken : Pod → Bool
broken p = has_failed p.phase

-- The loop's two flags, by counting: all pods are over, and some pod failed.
pub scan_lem :
    (ps : List Pod) (d f : Bool)
    → scan ps d f ≡ (d && eqb (count over ps) (length ps), f || ltb 0 (count broken ps))
unfolding scan
scan_lem [] d f = ground arith
scan_lem (p ∷ ps) d f =
    ground
      (arith, scan_lem ps (d && is_over p.phase) (f || has_failed p.phase), count-le-length over ps)

-- What reconcileRunning answers to a listing, by three numbers: the pods, those that are over, and
-- those that failed.
abbrev pub by_flags : {W : Type 0} → Client W → AgentJob → W × Result ApiError (List Pod) → Answer W
by_flags c job (w, err e) = fails w (api e)
by_flags c job (w, ok pods) =
    if eqb (length pods) 0
    then requeue w (pos second)
    else if eqb (count over pods) (length pods)
    then finished c w job (ltb 0 (count broken pods))
    else requeue w (pos (5 * second))

pub reconcile_running-flags :
    {W : Type 0} (c : Client W) (w : W) (job : AgentJob)
    → reconcile_running c w job
      ≡ by_flags c job (c.list_pods w job.namespace "muto.io/job" job.name)
unfolding reconcile_running
reconcile_running-flags {W} c w job = answered (c.list_pods w job.namespace "muto.io/job" job.name)
  where
    judged : (v : W) (pods : List Pod) → judge c v job pods ≡ by_flags c job (v, ok pods)
    judged v [] = refl
    judged v (p ∷ ps) = ground (arith, scan_lem (p ∷ ps) true false)

    answered : (r : W × Result ApiError (List Pod)) → judge_listed c job r ≡ by_flags c job r
    answered (v, err e) = refl
    answered (v, ok pods) = judged v pods

-- How a job is closed: with the phase and the label that are given, the completion at the clock's reading
-- and no agents; then the job counts as finished, and is looked at again after its time to live.
abbrev pub closes : {W : Type 0} → Client W → AgentJob → W → Phase → String → Answer W
closes c job w phase label =
    let (w', failure) = c.update_job_status w (record job {
      status = record {
        phase = phase;
        active_agents = pos 0;
        started_at = job.status.started_at;
        completed_at = some (c.now w);
      };
    }) in
    elim failure [
      | some e ↦ record { world = w'; requeue_after = pos 0; error = some (api e) }
      | none ↦ record {
        world =
            c.job_finished w' job.spec.tenant_ref label job.status.started_at
              job.status.active_agents;
        requeue_after = seconds job.spec.ttl_after_completion;
        error = none;
      }
    ]

-- What reconcileRunning answers to a listing, by three numbers: the pods, those that are over, and
-- those that failed.
abbrev pub by_counts :
    {W : Type 0} → Client W → AgentJob → W × Result ApiError (List Pod) → Answer W
by_counts c job (w, err e) = fails w (api e)
by_counts c job (w, ok pods) =
    if eqb (length pods) 0
    then requeue w (pos second)
    else if eqb (count over pods) (length pods)
    then (if eqb (count broken pods) 0
        then closes c job w succeeded "succeeded"
        else closes c job w failed "failed")
    else requeue w (pos (5 * second))

finished-closes :
    {W : Type 0} (c : Client W) (job : AgentJob) (w : W) (n : ℕ)
    → finished c w job (ltb 0 n)
      ≡ (if eqb n 0 then closes c job w succeeded "succeeded" else closes c job w failed "failed")
unfolding finished outcome
finished-closes c job w zero = refl
finished-closes c job w (suc n) =
    let positive : ltb 0 (suc n) ≡ true = ground arith in
    let unequal : eqb (suc n) 0 ≡ false = ground arith in
    ap (finished c w job) positive ∙ rw unequal refl

-- reconcileRunning returns an error of the listing. With no pod it waits a second, and with a pod
-- that is not over it waits five. Otherwise it stores the job, completed now and with no agents, as
-- Succeeded if no pod failed and as Failed if one did, counts it as finished under that outcome, and
-- waits for its time to live; an error of the store is returned.
pub reconcile_running_counts :
    {W : Type 0} (c : Client W) (w : W) (job : AgentJob)
    → reconcile_running c w job
      ≡ by_counts c job (c.list_pods w job.namespace "muto.io/job" job.name)
reconcile_running_counts {W} c w job =
    reconcile_running-flags c w job ∙ answered (c.list_pods w job.namespace "muto.io/job" job.name)
  where
    answered : (r : W × Result ApiError (List Pod)) → by_flags c job r ≡ by_counts c job r
    answered (v, err e) = refl
    answered (v, ok pods) = rw (finished-closes c job v (count broken pods)) refl
