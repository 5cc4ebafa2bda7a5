-- ===== src/K8s/TenantReconciler/Ready.antt =====
-- platform/k8s/reconcilers/tenant_reconciler.go, Reconcile of a live tenant: what is there when it is
-- marked as ready.
use muto.Prelude.{
  String, ◌==◌, Bool, true, false, ◌&&◌, Option, none, some, ◌≡◌, refl, arith, ap, sym, ◌∙◌,
  if◌then◌else◌, Bool-cases, inl, inr, subst,
}
use muto.K8s.Types.{Tenant}
use muto.K8s.Objects.{namespaces, ApiError, not_found, already_exists}
use muto.K8s.Answer.{GatewayError, api}
use muto.K8s.AgentJob.Pods.{bus_type_a2a}
use muto.K8s.TenantReconciler.Api.{Calls}
use muto.K8s.TenantReconciler.Store.{ObjectStore}
use muto.K8s.TenantReconciler.Gateway.{reconcile_a2a_gateway}
use muto.K8s.TenantReconciler.Gateway.Ensures.{
  Keeps, Makes, get-Makes, create-Makes, IsProvisioned, gateway-IsProvisioned, gateway-Keeps,
}
use muto.K8s.TenantReconciler.{
  absent_namespace, ensure_namespace, with_finalizer, reconcile_bus, set_ready, after_namespace,
  after_finalizer, finalize_tenant, reconcile_tenant, tenant_finalizer, as_ready, written,
}

module _ {W : Type 0} (g : Calls W) (store : ObjectStore g) where
  open store use {present}

  ensure_namespace-Makes :
      (w : W) (tenant : Tenant)
      → Makes g store w (ensure_namespace g w tenant) namespaces "" tenant.spec.namespace
  unfolding ensure_namespace
  ensure_namespace-Makes w tenant =
      get-Makes g store w namespaces "" tenant.spec.namespace (absent_namespace g tenant)
        (λ v. refl) absent
    where
      absent :
          (v : W) (e : ApiError)
          → Makes g store v
              (absent_namespace g tenant (v, some e))
              namespaces
              ""
              tenant.spec.namespace
      absent v not_found = create-Makes g store v _
      absent v already_exists = (λ h. cc, λ k ns' n h. h)
      absent v (ApiError.failure m) = (λ h. cc, λ k ns' n h. h)

  -- A tenant wants a gateway when its bus is A2A and dedicated.
  abbrev pub wants_gateway : Tenant → Bool
  wants_gateway tenant =
      (tenant.spec.message_bus.type == bus_type_a2a) && tenant.spec.message_bus.dedicated

  abbrev pub GatewayIf : Bool → W → String → Type 0
  GatewayIf true w ns = IsProvisioned g store w ns
  GatewayIf false w ns = Unit

  bus-GatewayIf :
      (w : W) (tenant : Tenant)
      → (reconcile_bus g w tenant).1 ≡ none
      → GatewayIf (wants_gateway tenant) (reconcile_bus g w tenant).0 tenant.spec.namespace
  unfolding reconcile_bus
  bus-GatewayIf w tenant h =
      by_type (tenant.spec.message_bus.type == bus_type_a2a) tenant.spec.message_bus.dedicated h
    where
      made_if : Bool → Bool → W × Option GatewayError
      made_if a d =
          if a then (if d then reconcile_a2a_gateway g w tenant else (w, none)) else (w, none)

      by_type :
          (a d : Bool)
          → (made_if a d).1 ≡ none
          → GatewayIf (a && d) (made_if a d).0 tenant.spec.namespace
      by_type true true k = gateway-IsProvisioned g store w tenant k
      by_type true false k = tt
      by_type false d k = tt

  bus-Keeps : (w : W) (tenant : Tenant) → Keeps g store w (reconcile_bus g w tenant).0
  unfolding reconcile_bus
  bus-Keeps w tenant k ns n h = ground (arith, gateway-Keeps g store w tenant k ns n h)

  -- What a reconcile that returned no error leaves behind: `before` is the state in which the tenant is
  -- marked as ready.
  pub record IsReady (w : W) (tenant : Tenant) : Type 0 where
    pub before : W
    pub stored : Tenant
    pub spec : stored.spec ≡ tenant.spec
    pub guarded : g.contains_finalizer stored tenant_finalizer ≡ true
    pub housed : present before namespaces "" tenant.spec.namespace ≡ true
    pub served : GatewayIf (wants_gateway tenant) before tenant.spec.namespace
    pub marked : g.update_tenant_status before (as_ready stored) ≡ (w, none)

  with_finalizer_lem :
      (w : W) (tenant : Tenant)
      → ((with_finalizer g w tenant).1.spec ≡ tenant.spec)
        × (g.contains_finalizer (with_finalizer g w tenant).1 tenant_finalizer ≡ true)
  unfolding with_finalizer
  with_finalizer_lem w tenant = elim (Bool-cases (g.contains_finalizer tenant tenant_finalizer)) [
    | inl b ↦ rw b (refl, b)
    | inr b ↦
        rw b (store.add_finalizer_spec tenant tenant_finalizer, store.added tenant tenant_finalizer)
  ]

  set_ready-marked :
      (tenant : Tenant) (r : W × Option GatewayError)
      → (set_ready g tenant r).error ≡ none
      → (r.1 ≡ none)
        × (g.update_tenant_status r.0 (as_ready tenant) ≡ ((set_ready g tenant r).world, none))
  unfolding set_ready
  set_ready-marked tenant (w, some e) h = cc
  set_ready-marked tenant (w, none) h =
      (refl, stored (g.update_tenant_status w (as_ready tenant)) h)
    where
      stored :
          (r : W × Option ApiError)
          → (written g api r).error ≡ none
          → r ≡ ((written g api r).world, none)
      stored (v, some e) k = cc
      stored (v, none) k = refl

  after_namespace-IsReady :
      (tenant t : Tenant) (r : W × Option ApiError)
      → t.spec ≡ tenant.spec
      → g.contains_finalizer t tenant_finalizer ≡ true
      → (r.1 ≡ none → present r.0 namespaces "" tenant.spec.namespace ≡ true)
      → (after_namespace g t r).error ≡ none
      → IsReady (after_namespace g t r).world tenant
  unfolding after_namespace
  after_namespace-IsReady tenant t (w, some e) same has there h = cc
  after_namespace-IsReady tenant t (w, none) same has there h =
      let (fine, marked) = set_ready-marked t (reconcile_bus g w t) h in
      record {
        before = (reconcile_bus g w t).0;
        stored = t;
        spec = same;
        guarded = has;
        housed = bus-Keeps w t namespaces "" tenant.spec.namespace (there refl);
        served =
            subst
              (λ s.
                GatewayIf ((s.message_bus.type == bus_type_a2a) && s.message_bus.dedicated)
                  (reconcile_bus g w t).0 s.namespace)
              same (bus-GatewayIf w t fine);
        marked = marked;
      }

  after_finalizer-IsReady :
      (tenant : Tenant) (r : W × Tenant × Option ApiError)
      → r.1.spec ≡ tenant.spec
      → g.contains_finalizer r.1 tenant_finalizer ≡ true
      → (after_finalizer g r).error ≡ none
      → IsReady (after_finalizer g r).world tenant
  unfolding after_finalizer
  after_finalizer-IsReady tenant (w, t, some e) same has h = cc
  after_finalizer-IsReady tenant (w, t, none) same has h =
      after_namespace-IsReady tenant t (ensure_namespace g w t) same has
        (subst
          (λ s.
            (ensure_namespace g w t).1 ≡ none
            → present (ensure_namespace g w t).0 namespaces "" s.namespace ≡ true)
          same (ensure_namespace-Makes w t).0)
        h

  -- While nobody else writes the objects (ObjectStore), a reconcile of a tenant that is not being
  -- deleted, if it returns no error, ends by marking the tenant as ready, with its specification
  -- as it was and with the finalizer, in a state in which its namespace exists, and, if its bus
  -- is A2A and dedicated, also the secret, the deployment and the service of the gateway. That
  -- they exist is all: no RBAC, no bus of another type, and no running gateway is among what is
  -- shown to be there.
  pub reconcile_tenant-IsReady :
      (w : W) (tenant : Tenant)
      → tenant.deleting ≡ false
      → (reconcile_tenant g w tenant).error ≡ none
      → IsReady (reconcile_tenant g w tenant).world tenant
  unfolding reconcile_tenant
  reconcile_tenant-IsReady w tenant live h =
      let (same, has) = with_finalizer_lem w tenant in
      let path : reconcile_tenant g w tenant ≡ after_finalizer g (with_finalizer g w tenant) =
        ap
          (λ b.
            if b then finalize_tenant g w tenant else after_finalizer g (with_finalizer g w tenant))
          live in
      subst (λ a. IsReady a.world tenant) (sym path)
        (after_finalizer-IsReady tenant (with_finalizer g w tenant) same has
          (sym (ap (λ a. a.error) path) ∙ h))
