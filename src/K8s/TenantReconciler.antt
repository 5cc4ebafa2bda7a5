-- ===== src/K8s/TenantReconciler.antt =====
-- platform/k8s/reconcilers/tenant_reconciler.go: TenantReconciler. One call of Reconcile is a function
-- of the cluster's state, as in K8s/AgentJob.
pub mod Api
pub mod Gateway
pub mod Store
pub mod Cleanup
pub mod Ready
use mathlib.Core.Option
use muto.Prelude.{
  ℕ, ◌%◌, String, ◌<>◌, ◌==◌, Bool, true, false, not, Option, none, some, List, [], ◌∷◌, Result, ok,
  err, if◌then◌else◌,
}
use muto.Prelude.Int.{pos}
use muto.K8s.Types.{Tenant}
use muto.K8s.Objects.{Kind, namespaces, secrets, deployments, services, Object, ApiError}
use muto.K8s.Client.{Client}
use muto.K8s.Answer.{
  Answer, GatewayError, Error, add_finalizer_failed, remove_finalizer_failed,
  ensure_namespace_failed, gateway_failed, cleanup_failed, api, done, fails, is_not_found,
  ignore_not_found, observe_reconcile,
}
use muto.K8s.AgentJob.Pods.{bus_type_a2a}
use Api.{Calls}
use Gateway.{reconcile_a2a_gateway}

abbrev pub tenant_finalizer : String
tenant_finalizer = "muto.io/tenant-cleanup"

abbrev pub as_ready : Tenant → Tenant
as_ready t = record t { status = record t.status { ready = true } }

module _ {W : Type 0} (g : Calls W) where
  absent_namespace : Tenant → W × Option ApiError → W × Option ApiError
  absent_namespace tenant (w, none) = (w, none)
  absent_namespace tenant (w, some e) =
      if not (is_not_found e)
      then (w, some e)
      else g.create w (
          Object.namespace (record {
            name = tenant.spec.namespace;
            labels = ("muto.io/tenant", tenant.name) ∷ [];
          }))

  unfoldable pub ensure_namespace : W → Tenant → W × Option ApiError
  unfolding absent_namespace
  ensure_namespace w tenant = absent_namespace tenant (g.get w namespaces "" tenant.spec.namespace)

  -- One deletion of the clean-up: an object that is gone counts as deleted.
  deleting : Kind → W × Option ApiError → (W → W × Option Error) → W × Option Error
  deleting kind (w, none) k = k w
  deleting kind (w, some e) k =
      if not (is_not_found e) then (w, some (cleanup_failed kind e)) else k w

  unfoldable pub delete_a2a_gateway_resources : W → String → W × Option Error
  unfolding deleting
  delete_a2a_gateway_resources w ns =
      if ns == ""
      then (w, none)
      else deleting deployments (g.delete w deployments ns "a2a-gateway") (λ w₁.
        deleting services (g.delete w₁ services ns "a2a-gateway")
          (λ w₂. deleting secrets (g.delete w₂ secrets ns "muto-a2a-token") (λ w₃. (w₃, none))))

  -- The end of a call: a write and its error.
  written : (ApiError → Error) → W × Option ApiError → Answer W
  written wrap (w, none) = done w
  written wrap (w, some e) = fails w (wrap e)

  cleaned : Tenant → W × Option Error → Answer W
  unfolding written
  cleaned tenant (w, some e) = fails w e
  cleaned tenant (w, none) =
      written remove_finalizer_failed
        (g.update_tenant w (g.remove_finalizer tenant tenant_finalizer))

  unfoldable pub finalize_tenant : W → Tenant → Answer W
  unfolding cleaned
  finalize_tenant w tenant =
      if not (g.contains_finalizer tenant tenant_finalizer)
      then done w
      else cleaned tenant (delete_a2a_gateway_resources w tenant.spec.namespace)

  -- The finalizer is added before anything is made for the tenant.
  unfoldable pub with_finalizer : W → Tenant → W × Tenant × Option ApiError
  with_finalizer w tenant =
      if not (g.contains_finalizer tenant tenant_finalizer)
      then (let tenant' = g.add_finalizer tenant tenant_finalizer in
          let (w', failure) = g.update_tenant w tenant' in (w', tenant', failure))
      else (w, tenant, none)

  -- The switch on the bus: only a dedicated A2A bus has a gateway.
  unfoldable pub reconcile_bus : W → Tenant → W × Option GatewayError
  reconcile_bus w tenant =
      if tenant.spec.message_bus.type == bus_type_a2a
      then (if tenant.spec.message_bus.dedicated
          then reconcile_a2a_gateway g w tenant
          else (w, none))
      else (w, none)

  set_ready : Tenant → W × Option GatewayError → Answer W
  unfolding written
  set_ready tenant (w, some e) = fails w (gateway_failed e)
  set_ready tenant (w, none) = written api (g.update_tenant_status w (as_ready tenant))

  after_namespace : Tenant → W × Option ApiError → Answer W
  unfolding set_ready
  after_namespace tenant (w, some e) = fails w (ensure_namespace_failed e)
  after_namespace tenant (w, none) = set_ready tenant (reconcile_bus w tenant)

  after_finalizer : W × Tenant × Option ApiError → Answer W
  unfolding after_namespace
  after_finalizer (w, tenant, some e) = fails w (add_finalizer_failed e)
  after_finalizer (w, tenant, none) = after_namespace tenant (ensure_namespace w tenant)

  unfoldable pub reconcile_tenant : W → Tenant → Answer W
  unfolding after_finalizer
  reconcile_tenant w tenant =
      if tenant.deleting
      then finalize_tenant w tenant
      else after_finalizer (with_finalizer w tenant)

module _ {W : Type 0} (c : Client W) (g : Calls W) where
  unfoldable pub reconcile : W → String → Answer W
  reconcile w name =
      let (w', found) = c.get_tenant w "" name in
      observe_reconcile c "tenant"
        (elim found [ err e ↦ ignore_not_found w' e | ok tenant ↦ reconcile_tenant g w' tenant ])
