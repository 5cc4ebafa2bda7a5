-- ===== src/K8s/Adapter/Promises.antt =====
-- platform/k8s/adapter.go: K8sAdapter keeps what the scheduler relies on, when the API server keeps what
-- K8s/PodStore says.
pub mod Undoing
use muto.Prelude.{
  ℕ, String, true, false, none, some, List, [], ◌∷◌, ok, ◌≡◌, refl, arith, All, ap, sym, ◌∙◌, subst,
}
use mathlib.Core.Option.{some-injective}
use muto.Prelude.Dict.{lookup}
use muto.Agent.{Spec, AgentRole, terminating}
use muto.Scheduler.{State, JobRecord, with_phase, cancel}
use muto.Scheduler.Adapter.{Lawful}
use muto.Scheduler.Cancelling.{cancel_ok}
use muto.K8s.Client.{Client}
use muto.K8s.PodStore.{PodStore}
use muto.K8s.Adapter.{agent_pod, spawn_agent, terminate_agent, k8s_adapter}

module _ {W : Type 0} (c : Client W) (namespace : String) (store : PodStore c) where
  open store use {standing}

  spawned_alive :
      (w : W) (s : Spec) (id : String)
      → (spawn_agent c namespace w s).1 ≡ ok id
      → standing (spawn_agent c namespace w s).0 namespace id ≡ true
  unfolding spawn_agent agent_pod
  spawned_alive w s id h = by_roles s.agents refl
    where
      by_roles :
          (roles : List AgentRole)
          → s.agents ≡ roles
          → standing (spawn_agent c namespace w s).0 namespace id ≡ true
      by_roles [] e = ground (arith, e)
      by_roles (r ∷ rs) e = ground (arith, e, store.created w (agent_pod namespace s.tenant_ref r))

  spawn_keeps :
      (w : W) (s : Spec) (id : String)
      → standing w namespace id ≡ true
      → standing (spawn_agent c namespace w s).0 namespace id ≡ true
  unfolding spawn_agent
  spawn_keeps w s id h = by_roles s.agents refl
    where
      by_roles :
          (roles : List AgentRole)
          → s.agents ≡ roles
          → standing (spawn_agent c namespace w s).0 namespace id ≡ true
      by_roles [] e = ground (arith, e)
      by_roles (r ∷ rs) e =
          ground
            (arith, e, store.create_keeps w (agent_pod namespace s.tenant_ref r) namespace id h)

  terminated_dead :
      (w : W) (id : String)
      → (terminate_agent c namespace w id).1 ≡ none
      → standing (terminate_agent c namespace w id).0 namespace id ≡ false
  unfolding terminate_agent
  terminated_dead w id h = ground (arith, store.deleted w namespace id)

  pub k8s_adapter-Lawful : Lawful (k8s_adapter c namespace)
  unfolding k8s_adapter
  k8s_adapter-Lawful = record {
    alive = λ w id. standing w namespace id;
    spawned_alive = λ w s {id} h. spawned_alive w s id h;
    spawn_keeps = λ w s j h. spawn_keeps w s j h;
    terminated_dead = λ w id h. terminated_dead w id h;
    terminate_keeps_dead = λ w id j h. store.delete_keeps w namespace id namespace j h;
    terminate_keeps_other = λ w id j n h. store.delete_keeps_other w namespace id j n h;
    watch_keeps = λ w ctx id j. refl;
  }

  -- While nobody else writes the pods (PodStore), a Cancel over the Kubernetes adapter that finds
  -- the job and returns no error leaves the job Terminating with all else as before, and each pod
  -- of its agents in the adapter's namespace is gone or its deletion was accepted; such a pod may take its
  -- grace period to end.
  pub k8s_cancel_ok :
      (s : State (String × ℕ)) (w : W) (id : String) (r : JobRecord)
      → lookup id s.jobs ≡ some r
      → (cancel (k8s_adapter c namespace) s w id).2 ≡ none
      → let (t, w', _) = cancel (k8s_adapter c namespace) s w id in
        (lookup id t.jobs ≡ some (with_phase terminating r))
        × All (λ agent. standing w' namespace agent ≡ false) r.agent_ids
  unfolding k8s_adapter-Lawful
  k8s_cancel_ok s w id r found h =
      let done = cancel_ok (k8s_adapter c namespace) k8s_adapter-Lawful s w id h in
      let same : done.before ≡ r = some-injective done.before r (sym done.found ∙ found) in
      (
        done.after ∙ ap (λ x. some (with_phase terminating x)) same,
        subst
            (λ x.
              All
                (λ agent.
                  standing (cancel (k8s_adapter c namespace) s w id).1 namespace agent ≡ false)
                x.agent_ids)
            same done.stopped,
      )
