-- ===== src/K8s/Adapter/Promises/Undoing.antt =====
-- platform/k8s/adapter.go under core/scheduler/scheduler.go: what a job that was scheduled and
-- cancelled leaves on the cluster.
use muto.Prelude.{ℕ, String, none, List, [], ◌∷◌, ok, ◌≡◌, ◌≢◌, true, false, refl, arith}
use muto.Agent.{Spec, AgentRole, Job}
use muto.Scheduler.{State, schedule, cancel}
use muto.Scheduler.Adapter.{Exact, Reliable}
use muto.Scheduler.Undoing.{schedule-cancel}
use muto.K8s.Client.{Client}
use muto.K8s.PodStore.{PodStore, CreatesExactly}
use muto.K8s.Adapter.{agent_pod, spawn_agent, terminate_agent, k8s_adapter}
use muto.K8s.Adapter.Promises.{k8s_adapter-Lawful}

module _ {W : Type 0} (c : Client W) (namespace : String) (store : PodStore c)
    (exactly : CreatesExactly c store) where
  open store use {standing}

  spawned_new :
      (w : W) (s : Spec) (id : String)
      → (spawn_agent c namespace w s).1 ≡ ok id
      → standing w namespace id ≡ false
  unfolding spawn_agent agent_pod
  spawned_new w s id = by_roles s.agents refl
    where
      by_roles :
          (roles : List AgentRole)
          → s.agents ≡ roles
          → (spawn_agent c namespace w s).1 ≡ ok id
          → standing w namespace id ≡ false
      by_roles [] e h = ground (arith, e, h)
      by_roles (r ∷ rs) e h =
          ground (arith, e, h, exactly.created_new w (agent_pod namespace s.tenant_ref r))

  spawns_only :
      (w : W) (s : Spec) (id n : String)
      → (spawn_agent c namespace w s).1 ≡ ok id
      → standing w namespace n ≡ false
      → id ≢ n
      → standing (spawn_agent c namespace w s).0 namespace n ≡ false
  unfolding spawn_agent agent_pod
  spawns_only w s id n h absent differ = by_roles s.agents refl
    where
      by_roles :
          (roles : List AgentRole)
          → s.agents ≡ roles
          → standing (spawn_agent c namespace w s).0 namespace n ≡ false
      by_roles [] e = ground (arith, e)
      by_roles (r ∷ rs) e =
          ground (arith, e, exactly.creates_only w (agent_pod namespace s.tenant_ref r) n)

  pub k8s_adapter-Exact : Exact (k8s_adapter c namespace) (k8s_adapter-Lawful c namespace store)
  unfolding k8s_adapter k8s_adapter-Lawful
  k8s_adapter-Exact = record { spawned_new = spawned_new; spawns_only = spawns_only }

  pub k8s_adapter-Reliable :
      ((w : W) (n : String) → standing w namespace n ≡ true → (c.delete_pod w namespace n).1 ≡ none)
      → Reliable (k8s_adapter c namespace) (k8s_adapter-Lawful c namespace store)
  unfolding k8s_adapter k8s_adapter-Lawful terminate_agent
  k8s_adapter-Reliable accepted = record { stops = λ w n there. rw (accepted w n there) refl }

  -- While nobody else writes the pods (PodStore, CreatesExactly), a Schedule over the Kubernetes
  -- adapter and a Cancel of the same job right after, when both return no error, leave in the
  -- adapter's namespace the same pods standing as before, where a pod stands until its deletion is
  -- accepted: every pod that was made is gone or on its way out, and no other one was touched.
  pub k8s_schedule-cancel :
      (s : State (String × ℕ)) (w : W) (job : Job)
      → (schedule (k8s_adapter c namespace) s w job).2 ≡ none
      → (cancel
          (k8s_adapter c namespace)
          (schedule (k8s_adapter c namespace) s w job).0
          (schedule (k8s_adapter c namespace) s w job).1
          job.id).2
        ≡ none
      → (n : String)
      → standing
          (cancel
            (k8s_adapter c namespace)
            (schedule (k8s_adapter c namespace) s w job).0
            (schedule (k8s_adapter c namespace) s w job).1
            job.id).1
          namespace
          n
        ≡ standing w namespace n
  unfolding k8s_adapter-Lawful
  k8s_schedule-cancel s w job h g n =
      schedule-cancel (k8s_adapter c namespace) (k8s_adapter-Lawful c namespace store)
        k8s_adapter-Exact s w job h g n
