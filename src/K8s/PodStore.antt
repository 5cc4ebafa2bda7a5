-- ===== src/K8s/PodStore.antt =====
-- The pods that the API server holds, as platform/k8s relies on it for, while nobody else writes them.
use muto.Prelude.{String, Bool, true, false, none, some, ◌≡◌, ◌≢◌}
use muto.Prelude.Int.{ℤ}
use muto.K8s.Types.{AgentJob}
use muto.K8s.Objects.{Pod, not_found}
use muto.K8s.Client.{Client}

-- `standing`: there is a pod of that name, and no deletion of it was accepted. An accepted deletion is graceful:
-- the pod stops standing at once, and it may go on running and hold its name for some time. A successful
-- call does its work on the one pod that it names, and not_found tells the truth. Nothing is said of a
-- Create that is answered already_exists: the pod of that name may be any, also one on its way out.
pub record PodStore {W : Type 0} (c : Client W) : Type 0 where
  pub standing : W → String → String → Bool
  pub created :
      (w : W) (p : Pod)
      → (c.create_pod w p).1 ≡ none
      → standing (c.create_pod w p).0 p.namespace p.name ≡ true
  pub create_keeps :
      (w : W) (p : Pod) (ns n : String)
      → standing w ns n ≡ true
      → standing (c.create_pod w p).0 ns n ≡ true
  pub deleted :
      (w : W) (ns n : String)
      → (c.delete_pod w ns n).1 ≡ none
      → standing (c.delete_pod w ns n).0 ns n ≡ false
  pub gone :
      (w : W) (ns n : String)
      → (c.delete_pod w ns n).1 ≡ some not_found
      → standing (c.delete_pod w ns n).0 ns n ≡ false
  pub delete_keeps :
      (w : W) (ns n ns' n' : String)
      → standing w ns' n' ≡ false
      → standing (c.delete_pod w ns n).0 ns' n' ≡ false
  pub delete_keeps_other :
      (w : W) (ns n n' : String)
      → n ≢ n'
      → standing w ns n' ≡ true
      → standing (c.delete_pod w ns n).0 ns n' ≡ true
  pub update_keeps :
      (w : W) (j : AgentJob) (ns n : String)
      → standing (c.update_job_status w j).0 ns n ≡ standing w ns n
  pub started_keeps :
      (w : W) (t : String) (k : ℤ) (ns n : String)
      → standing (c.job_started w t k) ns n ≡ standing w ns n
  pub delete_job_keeps :
      (w : W) (ns n ns' n' : String)
      → standing w ns' n' ≡ false
      → standing (c.delete_job w ns n).0 ns' n' ≡ false

-- What Kubernetes documents of Create besides: it is accepted under a name only that no pod of the namespace
-- has, and makes the one pod.
pub record CreatesExactly {W : Type 0} (c : Client W) (store : PodStore c) : Type 0 where
  pub created_new :
      (w : W) (p : Pod) → (c.create_pod w p).1 ≡ none → store.standing w p.namespace p.name ≡ false
  pub creates_only :
      (w : W) (p : Pod) (n : String)
      → (c.create_pod w p).1 ≡ none
      → p.name ≢ n
      → store.standing w p.namespace n ≡ false
      → store.standing (c.create_pod w p).0 p.namespace n ≡ false
