-- ===== src/K8s/AgentFleet/Counts.antt =====
-- platform/k8s/reconcilers/agentfleet_reconciler.go: what the three counters count.
use muto.Prelude.{
  ℕ, suc, Option, ◌+◌, ◌≤◌, ◌<◌, ◌^◌, String, Bool, true, false, List, [], ◌∷◌, Result, ok, err,
  ◌≡◌, refl, arith, length, count, ap, ◌∙◌,
}
use muto.Prelude.Int.{pos, ◌+ℤ◌, int32, int32_exact}
use muto.Agent.{Phase, unset, pending, running, succeeded, failed, terminating}
use muto.K8s.Types.{AgentJob, AgentFleet, AgentFleetStatus}
use muto.K8s.Objects.{ApiError}
use muto.K8s.Client.{Client}
use muto.K8s.Answer.{Answer, api, observe_reconcile}
use muto.K8s.AgentFleet.{incr, zero_counts, count_phase, tally, count_jobs, store, reconcile}
use mathlib.Core.Option

-- The API server's answers to the reads of the loop, in order.
abbrev pub answers :
    {W : Type 0} → Client W → W → String → List String → List (Result ApiError AgentJob)
answers c w namespace [] = []
answers c w namespace (ref ∷ refs) =
    (c.get_job w namespace ref).1 ∷ answers c (c.get_job w namespace ref).0 namespace refs

abbrev is_running_phase : Phase → Bool
is_running_phase running = true
is_running_phase _ = false

abbrev is_completed_phase : Phase → Bool
is_completed_phase succeeded = true
is_completed_phase failed = true
is_completed_phase _ = false

abbrev pub is_found : Result ApiError AgentJob → Bool
is_found (ok job) = true
is_found (err e) = false

abbrev pub is_running : Result ApiError AgentJob → Bool
is_running (ok job) = is_running_phase job.status.phase
is_running (err e) = false

abbrev pub is_completed : Result ApiError AgentJob → Bool
is_completed (ok job) = is_completed_phase job.status.phase
is_completed (err e) = false

abbrev pub counts : ℕ → ℕ → ℕ → AgentFleetStatus
counts a b d = record { total_jobs = pos a; running_jobs = pos b; completed_jobs = pos d }

abbrev bit : Bool → ℕ
bit true = 1
bit false = 0

counts_equal : {a a' b b' d d' : ℕ} → a ≡ a' → b ≡ b' → d ≡ d' → counts a b d ≡ counts a' b' d'
counts_equal p q r = rw (p, q, r) refl

incr_exact : (n : ℕ) → suc n < 2 ^ 31 → incr (pos n) ≡ pos (suc n)
unfolding ◌+ℤ◌
incr_exact n h = ap int32 (ground arith) ∙ int32_exact (pos (suc n)) h

count_phase_exact :
    (p : Phase) (a b d : ℕ)
    → suc a < 2 ^ 31
    → suc b < 2 ^ 31
    → suc d < 2 ^ 31
    → count_phase p (counts a b d)
      ≡ counts (1 + a) (bit (is_running_phase p) + b) (bit (is_completed_phase p) + d)
unfolding count_phase
count_phase_exact unset a b d h k l =
    rw (incr_exact a h) (counts_equal (omega arith) (omega arith) (omega arith))
count_phase_exact pending a b d h k l =
    rw (incr_exact a h) (counts_equal (omega arith) (omega arith) (omega arith))
count_phase_exact running a b d h k l =
    rw (incr_exact a h, incr_exact b k) (counts_equal (omega arith) (omega arith) (omega arith))
count_phase_exact succeeded a b d h k l =
    rw (incr_exact a h, incr_exact d l) (counts_equal (omega arith) (omega arith) (omega arith))
count_phase_exact failed a b d h k l =
    rw (incr_exact a h, incr_exact d l) (counts_equal (omega arith) (omega arith) (omega arith))
count_phase_exact terminating a b d h k l =
    rw (incr_exact a h) (counts_equal (omega arith) (omega arith) (omega arith))
count_phase_exact (Phase.other t) a b d h k l =
    rw (incr_exact a h) (counts_equal (omega arith) (omega arith) (omega arith))

tally_exact :
    (r : Result ApiError AgentJob) (a b d : ℕ)
    → suc a < 2 ^ 31
    → suc b < 2 ^ 31
    → suc d < 2 ^ 31
    → tally (counts a b d) r
      ≡ counts (bit (is_found r) + a) (bit (is_running r) + b) (bit (is_completed r) + d)
unfolding tally
tally_exact (err e) a b d h k l = counts_equal (omega arith) (omega arith) (omega arith)
tally_exact (ok job) a b d h k l = count_phase_exact job.status.phase a b d h k l

bit-bound : (x : Bool) → bit x ≤ 1
bit-bound true = omega arith
bit-bound false = omega arith

count-step :
    {A : Type 0} (p : A → Bool) (x : A) (xs : List A) (n : ℕ)
    → count p xs + (bit (p x) + n) ≡ count p (x ∷ xs) + n
count-step p x xs n = ground arith

pairs : {A B : Type 0} {x : A × B} {a : A} {b : B} → x.0 ≡ a → x.1 ≡ b → x ≡ (a, b)
pairs {x = (u, v)} h k = rw (h, k) refl

module _ {W : Type 0} (c : Client W) where
  counted :
      (w : W) (namespace : String) (refs : List String) (a b d : ℕ)
      → a + length refs < 2 ^ 31
      → b + length refs < 2 ^ 31
      → d + length refs < 2 ^ 31
      → (count_jobs c w namespace (counts a b d) refs).1
        ≡ counts
            (count is_found (answers c w namespace refs) + a)
            (count is_running (answers c w namespace refs) + b)
            (count is_completed (answers c w namespace refs) + d)
  unfolding count_jobs
  counted w namespace [] a b d h k l = counts_equal (omega arith) (omega arith) (omega arith)
  counted w namespace (ref ∷ refs) a b d h k l =
      let w' = (c.get_job w namespace ref).0 in
      let rest = answers c w' namespace refs in
      let r = (c.get_job w namespace ref).1 in
      let later =
        counted w' namespace refs (bit (is_found r) + a) (bit (is_running r) + b)
          (bit (is_completed r) + d) (omega (arith, bit-bound (is_found r)))
          (omega (arith, bit-bound (is_running r))) (omega (arith, bit-bound (is_completed r))) in
      ap (λ t. (count_jobs c w' namespace t refs).1)
        (tally_exact r a b d (omega arith) (omega arith) (omega arith))
      ∙ later
      ∙ counts_equal (count-step is_found r rest a) (count-step is_running r rest b)
          (count-step is_completed r rest d)

  -- The loop counts what was read.
  count_jobs_exact :
      (w : W) (namespace : String) (refs : List String)
      → length refs < 2 ^ 31
      → (count_jobs c w namespace zero_counts refs).1
        ≡ counts
            (count is_found (answers c w namespace refs))
            (count is_running (answers c w namespace refs))
            (count is_completed (answers c w namespace refs))
  count_jobs_exact w namespace refs h =
      counted w namespace refs 0 0 0 (omega arith) (omega arith) (omega arith)
      ∙ counts_equal (omega arith) (omega arith) (omega arith)

  -- The cluster after the reads of the loop.
  abbrev pub after_reads : W → String → List String → W
  after_reads w namespace [] = w
  after_reads w namespace (ref ∷ refs) = after_reads (c.get_job w namespace ref).0 namespace refs

  count_jobs-world :
      (w : W) (namespace : String) (t : AgentFleetStatus) (refs : List String)
      → (count_jobs c w namespace t refs).0 ≡ after_reads w namespace refs
  unfolding count_jobs
  count_jobs-world w namespace t [] = refl
  count_jobs-world w namespace t (ref ∷ refs) =
      count_jobs-world (c.get_job w namespace ref).0 namespace
        (tally t (c.get_job w namespace ref).1) refs

  -- The answer to a write of the fleet.
  abbrev pub written : W × Option ApiError → Answer W
  written (w, failure) = record { world = w; requeue_after = pos 0; error = Option.map api failure }

  -- A Reconcile call that reads a fleet with fewer than 2^31 references reads each of them once, in
  -- order, and then makes one write of the fleet, whose status has three exact counts: the jobs that
  -- could be read, among these the ones in phase Running, and the ones in phase Succeeded or Failed. A
  -- reference that could not be read, whatever the error, is in none of them. The error of the
  -- write is returned, and the call does not ask to be made again.
  pub reconcile_exact :
      (w : W) (namespace name : String) (fleet : AgentFleet)
      → (c.get_fleet w namespace name).1 ≡ ok fleet
      → length fleet.spec.job_refs < 2 ^ 31
      → let w' = (c.get_fleet w namespace name).0 in
        let read = answers c w' namespace fleet.spec.job_refs in
        reconcile c w namespace name
        ≡ observe_reconcile c "agentfleet" (
            written (
              c.update_fleet_status (after_reads w' namespace fleet.spec.job_refs) (record fleet {
                status =
                    counts (count is_found read) (count is_running read) (count is_completed read);
              })))
  unfolding reconcile store
  reconcile_exact w namespace name fleet found h =
      let w' = (c.get_fleet w namespace name).0 in
      let refs = fleet.spec.job_refs in
      rw (found, reconcile)
        (ap (λ x. observe_reconcile c "agentfleet" (store c fleet x))
          (pairs (count_jobs-world w' namespace zero_counts refs)
            (count_jobs_exact w' namespace refs h)))
