-- ===== src/Cf/Adapter/Starting.antt =====
-- platform/cf/adapter.go, SpawnAgent: the calls that start an agent in a space.
use muto.Prelude.{String, ◌<>◌, some, [], ◌∷◌, Result, ok, err, ◌≡◌, ◌⊎◌, inl, inr, refl, arith, ap}
use muto.Prelude.Int.{pos}
use muto.Agent.{Spec, AgentRole}
use muto.Cf.Cache.{GuidCache}
use muto.Cf.Client.{CfClient, PushRequest, TaskRequest}
use muto.Cf.Adapter.{CfAdapterConfig, Error, ensure_runner_app, pushed, started, with_app, in_space}

-- What is pushed when the app is not there: the tenant and the role, and no image.
abbrev pub runner_push : String → String → String → String → PushRequest
runner_push name space tenant role = record {
  name = name;
  space_guid = space;
  docker_image = "";
  buildpacks = [];
  env_vars = some (("MUTO_TENANT", tenant) ∷ ("MUTO_ROLE", role) ∷ []);
}

abbrev pub agent_task : Spec → AgentRole → TaskRequest
agent_task spec role = record {
  command = role.command;
  name = spec.tenant_ref <> ("-" <> role.role);
  memory_in_mb = pos 0;
  disk_in_mb = pos 0;
}

module _ {W E : Type 0} (c : CfClient W E) (config : CfAdapterConfig) where
  -- An app of a name in a space: it was found there, or pushed there as it was not.
  abbrev pub AppIn : W → W → String → String → String → String → String → Type 0
  AppIn w w' name space tenant role app =
      (c.get_app_by_name w name space ≡ (w', ok app))
      ⊎ ((e : E) × ((c.get_app_by_name w name space).1 ≡ err e)
          × (c.push_app (c.get_app_by_name w name space).0 (runner_push name space tenant role)
              ≡ (w', ok app)))

  -- The calls that start an agent of a role in a space, and its task.
  pub record Started (spec : Spec) (role : AgentRole) (space task : String) (end : W) : Type 0 where
    pub resolved : W
    pub readied : W
    pub app : String
    pub app_in :
        AppIn resolved readied
          ("muto-" <> (spec.tenant_ref <> ("-" <> role.role)))
          space
          spec.tenant_ref
          role.role
          app
    pub runs : c.run_task readied app (agent_task spec role) ≡ (end, ok task)

  pushed_ok :
      (r q : W × Result E String) (w' : W) (app : String)
      → q ≡ r
      → pushed c config r ≡ (w', ok app)
      → q ≡ (w', ok app)
  unfolding pushed
  pushed_ok (u, ok guid) q w' app e h = ground (arith, e, h)
  pushed_ok (u, err x) q w' app e h = ground (arith, e, h)

  ensure_runner_app_ok :
      (w : W) (name space tenant role : String) (w' : W) (app : String)
      → ensure_runner_app c config w name space tenant role ≡ (w', ok app)
      → AppIn w w' name space tenant role app
  unfolding ensure_runner_app pushed
  ensure_runner_app_ok w name space tenant role w' app =
      by_found (c.get_app_by_name w name space) refl
    where
      by_found :
          (r : W × Result E String)
          → c.get_app_by_name w name space ≡ r
          → ensure_runner_app c config w name space tenant role ≡ (w', ok app)
          → AppIn w w' name space tenant role app
      by_found (v, ok guid) e h = inl (ground (arith, e, h))
      by_found (v, err x) e h =
          let v' = (c.get_app_by_name w name space).0 in
          let done : pushed c config (c.push_app v' (runner_push name space tenant role))
              ≡ (w', ok app) =
            rw (e, ensure_runner_app) at h in
          inr (x, ap (λ r. r.1) e, pushed_ok _ _ w' app refl done)

  with_app_ok :
      (spec : Spec) (role : AgentRole) (r : W × Result (Error E) String) (end : W) (task : String)
      → with_app c config spec role r ≡ (end, ok task)
      → (v : W) × (app : String) × (r ≡ (v, ok app))
        × (c.run_task v app (agent_task spec role) ≡ (end, ok task))
  unfolding with_app started
  with_app_ok spec role (v, err e) end task h = ground (arith, h)
  with_app_ok spec role (v, ok app) end task h =
      (v, app, refl, by_run (c.run_task v app (agent_task spec role)) refl h)
    where
      by_run :
          (r : W × Result E String)
          → c.run_task v app (agent_task spec role) ≡ r
          → started c config r ≡ (end, ok task)
          → c.run_task v app (agent_task spec role) ≡ (end, ok task)
      by_run (u, ok t) f h = ground (arith, f, h)
      by_run (u, err y) f h = ground (arith, f, h)

  pub in_space_ok :
      (spec : Spec) (role : AgentRole) (r : W × GuidCache × Result (Error E) String)
      (end : W × GuidCache) (task : String)
      → in_space c config spec role r ≡ (end, ok task)
      → (space : String) × (r.2 ≡ ok space) × Started spec role space task end.0
  unfolding in_space
  in_space_ok spec role (w, cache, err e) end task h = ground (arith, h)
  in_space_ok spec role (w, cache, ok space) end task h =
      let name = "muto-" <> (spec.tenant_ref <> ("-" <> role.role)) in
      let ready = ensure_runner_app c config w name space spec.tenant_ref role.role in
      let (v, app, app_ready, runs) =
        with_app_ok spec role ready end.0 task (ap (λ x. (x.0.0, x.1)) h) in
      (
        space,
        refl,
        record {
          resolved = w;
          readied = v;
          app = app;
          app_in = ensure_runner_app_ok w name space spec.tenant_ref role.role v app app_ready;
          runs = runs;
        },
      )
