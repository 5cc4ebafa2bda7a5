-- ===== src/Examples/Cluster.antt =====
-- An API server in memory, with one AgentJob, one Tenant and one AgentFleet, and any pods.
pub mod Graceful
use muto.Prelude.{
  or-false, ap, ◌∙◌, Bool-cases, inl, inr, ◌≢◌, eq_refl, String, ◌==◌, eq_iff, Bool, true, false,
  ◌&&◌, ◌||◌, Option, none, some, List, [], ◌∷◌, Result, ok, err, if◌then◌else◌, ◌≡◌, arith, refl,
}
use muto.Prelude.Int.{ℤ}
use muto.K8s.Types.{AgentJob, AgentFleet, Tenant}
use muto.K8s.Objects.{Pod, ApiError, not_found, already_exists}
use muto.K8s.Client.{Client}
use muto.K8s.Adapter.Collision.{CreatesOnce}
use muto.K8s.PodStore.{PodStore, CreatesExactly}
use muto.K8s.AgentJob.Store.{JobStore}

pub record Cluster : Type 0 where
  pub clock : ℤ
  pub pods : List Pod
  pub job : Option AgentJob
  pub tenant : Option Tenant
  pub fleet : Option AgentFleet

abbrev same : String → String → String → String → Bool
same ns n ns' n' = (ns == ns') && (n == n')

abbrev has_pod : String → String → List Pod → Bool
has_pod ns n [] = false
has_pod ns n (p ∷ ps) = same p.namespace p.name ns n || has_pod ns n ps

abbrev find_pod : String → String → List Pod → Result ApiError Pod
find_pod ns n [] = err not_found
find_pod ns n (p ∷ ps) = if same p.namespace p.name ns n then ok p else find_pod ns n ps

abbrev without : String → String → List Pod → List Pod
without ns n [] = []
without ns n (p ∷ ps) =
    let rest = without ns n ps in if same p.namespace p.name ns n then rest else p ∷ rest

abbrev carries : String → String → List (String × String) → Bool
carries l v [] = false
carries l v ((k, u) ∷ ls) = ((k == l) && (u == v)) || carries l v ls

abbrev labelled : String → String → String → List Pod → List Pod
labelled ns l v [] = []
labelled ns l v (p ∷ ps) =
    let rest = labelled ns l v ps in
    if (p.namespace == ns) && carries l v p.labels then p ∷ rest else rest

abbrev read_job : Option AgentJob → String → String → Result ApiError AgentJob
read_job none ns n = err not_found
read_job (some j) ns n = if same j.namespace j.name ns n then ok j else err not_found

abbrev pub read_tenant : Option Tenant → String → Result ApiError Tenant
read_tenant none n = err not_found
read_tenant (some t) n = if t.name == n then ok t else err not_found

abbrev read_fleet : Option AgentFleet → String → String → Result ApiError AgentFleet
read_fleet none ns n = err not_found
read_fleet (some f) ns n = if same f.namespace f.name ns n then ok f else err not_found

abbrev write_job : Cluster → AgentJob → Result ApiError AgentJob → Cluster × Option ApiError
write_job w j (ok old) = (record w { job = some j }, none)
write_job w j (err e) = (w, some e)

abbrev remove_job : Cluster → Result ApiError AgentJob → Cluster × Option ApiError
remove_job w (ok old) = (record w { job = none }, none)
remove_job w (err e) = (w, some e)

abbrev create : Cluster → Pod → Cluster × Option ApiError
create w p =
    if has_pod p.namespace p.name w.pods
    then (w, some already_exists)
    else (record w { pods = p ∷ w.pods }, none)

abbrev pub server : Client Cluster
server = record {
  now = λ w. w.clock;
  get_pod = λ w ns n. (w, find_pod ns n w.pods);
  create_pod = create;
  delete_pod = λ w ns n.
      if has_pod ns n w.pods
      then (record w { pods = without ns n w.pods }, none)
      else (w, some not_found);
  list_pods = λ w ns l v. (w, ok (labelled ns l v w.pods));
  get_tenant = λ w ns n. (w, read_tenant w.tenant n);
  get_job = λ w ns n. (w, read_job w.job ns n);
  update_job_status = λ w j. write_job w j (read_job w.job j.namespace j.name);
  delete_job = λ w ns n. remove_job w (read_job w.job ns n);
  get_fleet = λ w ns n. (w, read_fleet w.fleet ns n);
  update_fleet_status = λ w f. (record w { fleet = some f }, none);
  job_started = λ w t n. w;
  job_finished = λ w t l s n. w;
  observe = λ w l s. w;
}

pub server-CreatesOnce : CreatesOnce server
server-CreatesOnce w p q h ns n =
    ground (arith, eq_iff p.namespace q.namespace, eq_iff p.name q.name)

pub read_job-names :
    (o : Option AgentJob) (ns n : String) {j : AgentJob}
    → read_job o ns n ≡ ok j
    → (o ≡ some j) × (j.namespace ≡ ns) × (j.name ≡ n)
read_job-names none ns n h = ground arith
read_job-names (some k) ns n h = ground (arith, eq_iff k.namespace ns, eq_iff k.name n)

unfoldable pub server_job_store : (ns n : String) → JobStore server ns n
server_job_store ns n = record {
  stored = λ w. w.job;
  got = λ w {j} h. read_job-names w.job ns n h;
  get_job_keeps = λ w a b. refl;
  updated = λ w j a b h. ground arith;
  not_updated = λ w j {e} h. ground arith;
  deletes = λ w a b h k. ground arith;
  get_tenant_keeps = λ w a b. refl;
  create_pod_keeps = λ w p. ground arith;
  delete_pod_keeps = λ w a b. ground arith;
  list_pods_keeps = λ w a l v. refl;
  job_started_keeps = λ w t k. refl;
  job_finished_keeps = λ w t l s k. refl;
  observe_keeps = λ w l s. refl;
}

has-without : (ns n : String) (ps : List Pod) → has_pod ns n (without ns n ps) ≡ false
has-without ns n [] = refl
has-without ns n (p ∷ ps) = ground (arith, has-without ns n ps)

-- A walk that drops some pods: what does not stand before does not stand after, and what is not dropped
-- still does.
has-choice :
    (drop : Bool) (p : Pod) (ps : List Pod) (ns n : String)
    → same p.namespace p.name ns n ≡ false
    → has_pod ns n ps ≡ false
    → has_pod ns n (if drop then ps else p ∷ ps) ≡ false
has-choice true p ps ns n q h = h
has-choice false p ps ns n q h = ap (λ b. b || has_pod ns n ps) q ∙ h

has-without_absent :
    (ns n ns' n' : String) (ps : List Pod)
    → has_pod ns' n' ps ≡ false
    → has_pod ns' n' (without ns n ps) ≡ false
has-without_absent ns n ns' n' [] h = refl
has-without_absent ns n ns' n' (p ∷ ps) h =
    let (q, rest) = or-false (same p.namespace p.name ns' n') (has_pod ns' n' ps) h in
    has-choice (same p.namespace p.name ns n) p (without ns n ps) ns' n' q
      (has-without_absent ns n ns' n' ps rest)

has-without_other :
    (ns n n' : String) (ps : List Pod)
    → n ≢ n'
    → has_pod ns n' ps ≡ true
    → has_pod ns n' (without ns n ps) ≡ true
has-without_other ns n n' [] d h = h
has-without_other ns n n' (p ∷ ps) d h =
    ground (arith, has-without_other ns n n' ps d, eq_iff p.name n, eq_iff p.name n')

same_self : (ns n : String) → same ns n ns n ≡ true
same_self ns n = ground (arith, eq_refl ns, eq_refl n)

delete_keeps :
    (w : Cluster) (ns n ns' n' : String)
    → has_pod ns' n' w.pods ≡ false
    → has_pod ns' n' (server.delete_pod w ns n).0.pods ≡ false
delete_keeps w ns n ns' n' h = elim (Bool-cases (has_pod ns n w.pods)) [
  | inl b ↦ rw b (has-without_absent ns n ns' n' w.pods h)
  | inr b ↦ rw b h
]

delete_keeps_other :
    (w : Cluster) (ns n n' : String)
    → n ≢ n'
    → has_pod ns n' w.pods ≡ true
    → has_pod ns n' (server.delete_pod w ns n).0.pods ≡ true
delete_keeps_other w ns n n' d h = elim (Bool-cases (has_pod ns n w.pods)) [
  | inl b ↦ rw b (has-without_other ns n n' w.pods d h)
  | inr b ↦ rw b h
]

pub server-PodStore : PodStore server
server-PodStore = record {
  standing = λ w ns n. has_pod ns n w.pods;
  created = λ w p h. ground (arith, same_self p.namespace p.name);
  create_keeps = λ w p ns n h. ground arith;
  deleted = λ w ns n h. ground (arith, has-without ns n w.pods);
  gone = λ w ns n h. ground arith;
  delete_keeps = delete_keeps;
  delete_keeps_other = delete_keeps_other;
  update_keeps = λ w j ns n. ground arith;
  started_keeps = λ w t k ns n. refl;
  delete_job_keeps = λ w ns n ns' n' h. ground (arith, h);
}

pub server-CreatesExactly : CreatesExactly server server-PodStore
unfolding server-PodStore
server-CreatesExactly = record {
  created_new = λ w p h. ground arith;
  creates_only = λ w p n h differ absent. ground (arith, eq_iff p.name n);
}

pub server-deletes :
    (w : Cluster) (ns n : String)
    → server-PodStore.standing w ns n ≡ true
    → (server.delete_pod w ns n).1 ≡ none
unfolding server-PodStore
server-deletes w ns n h = rw h refl
