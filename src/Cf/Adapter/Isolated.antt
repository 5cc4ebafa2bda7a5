-- ===== src/Cf/Adapter/Isolated.antt =====
-- platform/cf/adapter.go: in whose space an agent runs.
use muto.Prelude.{
  String, List, [], ◌∷◌, Result, ok, err, ◌≡◌, ◌≢◌, refl, arith, ap, sym, ◌∙◌, subst,
}
use muto.Agent.{Spec, AgentRole}
use muto.Cf.Cache.{GuidCache}
use muto.Cf.Client.{CfClient}
use muto.Cf.Adapter.{
  CfAdapterConfig, Error, new_cf_adapter, resolve_space_guid, started, in_space, spawn_agent,
  terminate_agent,
}
use muto.Cf.Adapter.Steady.{Steady, IsSound, new_guid_cache-IsSound}
use muto.Cf.Adapter.Spaces.{
  OwnSpace, OwnSpace-injective, resolve_space_guid-IsSound, resolve_space_guid-OwnSpace,
}
use muto.Cf.Adapter.Starting.{Started, in_space_ok}

module _ {W E : Type 0} (c : CfClient W E) (config : CfAdapterConfig) where
  -- The caches that calls of the adapter make from a new one, whatever Cloud Foundry does between them.
  pub data Reach : GuidCache → Type 0 where
    made : Reach new_cf_adapter
    spawned :
        (cache : GuidCache)
        → Reach cache
        → (w : W) (spec : Spec) → Reach (spawn_agent c config (w, cache) spec).0.1
    terminated :
        (cache : GuidCache)
        → Reach cache
        → (w : W) (agent_id : String) → Reach (terminate_agent c config (w, cache) agent_id).0.1

module _ {W E : Type 0} (c : CfClient W E) (config : CfAdapterConfig) (steady : Steady c) where
  in_space_cache :
      (spec : Spec) (role : AgentRole) (r : W × GuidCache × Result (Error E) String)
      → (in_space c config spec role r).0.1 ≡ r.1
  unfolding in_space
  in_space_cache spec role (w, cache, err e) = refl
  in_space_cache spec role (w, cache, ok space) = refl

  spawn_agent-IsSound :
      (w : W) (cache : GuidCache) (spec : Spec)
      → IsSound c steady cache
      → IsSound c steady (spawn_agent c config (w, cache) spec).0.1
  unfolding spawn_agent
  spawn_agent-IsSound w cache spec sound = by_roles spec.agents refl
    where
      by_roles :
          (roles : List AgentRole)
          → spec.agents ≡ roles
          → IsSound c steady (spawn_agent c config (w, cache) spec).0.1
      by_roles [] e = rw (e, spawn_agent) sound
      by_roles (role ∷ rest) e =
          rw (e, spawn_agent)
            (rw (in_space_cache spec role (resolve_space_guid c config w cache spec.tenant_ref))
              (resolve_space_guid-IsSound c config steady w cache spec.tenant_ref sound))

  Reach-IsSound : (cache : GuidCache) → Reach c config cache → IsSound c steady cache
  unfolding new_cf_adapter terminate_agent
  Reach-IsSound _ made = new_guid_cache-IsSound c steady _
  Reach-IsSound _ (spawned cache r w spec) =
      spawn_agent-IsSound w cache spec (Reach-IsSound cache r)
  Reach-IsSound _ (terminated cache r w agent_id) = Reach-IsSound cache r

  -- An agent that was started in its tenant's own space.
  pub record InOwnSpace (spec : Spec) (task : String) (end : W) : Type 0 where
    pub role : AgentRole
    pub rest : List AgentRole
    pub roles : spec.agents ≡ role ∷ rest
    pub space : String
    pub own : OwnSpace c config steady spec.tenant_ref space
    pub started : Started c config spec role space task end

  spawn_agent_ok :
      (cache : GuidCache) (w : W) (spec : Spec) (task : String)
      → Reach c config cache
      → (spawn_agent c config (w, cache) spec).1 ≡ ok task
      → InOwnSpace spec task (spawn_agent c config (w, cache) spec).0.0
  unfolding spawn_agent
  spawn_agent_ok cache w spec task reach = by_roles spec.agents refl
    where
      by_roles :
          (roles : List AgentRole)
          → spec.agents ≡ roles
          → (spawn_agent c config (w, cache) spec).1 ≡ ok task
          → InOwnSpace spec task (spawn_agent c config (w, cache) spec).0.0
      by_roles [] e h = ground (arith, e, h)
      by_roles (role ∷ rest) e h =
          let found = resolve_space_guid c config w cache spec.tenant_ref in
          let is : spawn_agent c config (w, cache) spec ≡ in_space c config spec role found =
            rw (e, spawn_agent) refl in
          let (space, answered, started) =
            in_space_ok c config spec role found (spawn_agent c config (w, cache) spec).0 task
              (sym is ∙ ap (λ x. ((spawn_agent c config (w, cache) spec).0, x)) h) in
          record {
            role = role;
            rest = rest;
            roles = e;
            space = space;
            own =
                resolve_space_guid-OwnSpace c config steady w cache spec.tenant_ref space
                  (Reach-IsSound cache reach) answered;
            started = started;
          }

  -- On a Cloud Foundry whose names keep their GUIDs (Steady), and after any calls of the adapter:
  -- a SpawnAgent that returns a task has run the command of the first role as a task of that
  -- name, in the app of the tenant and the role in the space that the configuration gives the
  -- tenant; the app was found there, or pushed with no image. Two such calls for two different
  -- tenants, with no order between them, have run in different spaces.
  pub spawn_agent-IsIsolated :
      (cache cache' : GuidCache) (w w' : W) (spec spec' : Spec) (task task' : String)
      → Reach c config cache
      → Reach c config cache'
      → (spawn_agent c config (w, cache) spec).1 ≡ ok task
      → (spawn_agent c config (w', cache') spec').1 ≡ ok task'
      → spec.tenant_ref ≢ spec'.tenant_ref
      → (one : InOwnSpace spec task (spawn_agent c config (w, cache) spec).0.0)
        × (other : InOwnSpace spec' task' (spawn_agent c config (w', cache') spec').0.0)
        × (one.space ≢ other.space)
  spawn_agent-IsIsolated cache cache' w w' spec spec' task task' r r' h h' differ =
      let one = spawn_agent_ok cache w spec task r h in
      let other = spawn_agent_ok cache' w' spec' task' r' h' in
      (
        one,
        other,
        λ same. differ (
            OwnSpace-injective c config steady spec.tenant_ref spec'.tenant_ref other.space
              (subst (OwnSpace c config steady spec.tenant_ref) same one.own) other.own),
      )
