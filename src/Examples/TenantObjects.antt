-- ===== src/Examples/TenantObjects.antt =====
-- Reconciles of a tenant (platform/k8s/reconcilers/tenant_reconciler.go) on a store that keeps the
-- places of its objects.
use mathlib.Core.Bool.{true≢false}
use muto.Prelude.{
  or-false, String, ◌==◌, eq_refl, Bool, true, false, ◌&&◌, ◌||◌, none, some, List, [], ◌∷◌, ok,
  if◌then◌else◌, Bool-cases, ◌≡◌, ◌≢◌, arith, refl, inl, inr, sym, ap, ◌∙◌,
}
use muto.K8s.Types.{Tenant}
use muto.K8s.Objects.{Kind, namespaces, secrets, deployments, services, not_found, already_exists}
use muto.K8s.TenantReconciler.{
  reconcile_tenant, finalize_tenant, ensure_namespace, with_finalizer, reconcile_bus,
}
use muto.K8s.TenantReconciler.Api.{Calls}
use muto.K8s.TenantReconciler.Store.{ObjectStore, place}
use muto.K8s.TenantReconciler.Gateway.{
  reconcile_a2a_gateway, ensure_a2a_secret, ensure_a2a_deployment, ensure_a2a_service,
  generate_token, encode_to_string,
}
use muto.K8s.TenantReconciler.Cleanup.{Finalized, finalize_tenant_cases}
use muto.K8s.TenantReconciler.Ready.{IsReady, reconcile_tenant-IsReady}

abbrev same_kind : Kind → Kind → Bool
same_kind namespaces namespaces = true
same_kind secrets secrets = true
same_kind deployments deployments = true
same_kind services services = true
same_kind _ _ = false

abbrev Places : Type 0
Places = List (Kind × String × String)

abbrev at : Kind × String × String → Kind → String → String → Bool
at p k ns n = same_kind p.0 k && ((p.1 == ns) && (p.2 == n))

abbrev has : Places → Kind → String → String → Bool
has [] k ns n = false
has (p ∷ ps) k ns n = at p k ns n || has ps k ns n

abbrev without : Places → Kind → String → String → Places
without [] k ns n = []
without (p ∷ ps) k ns n = let rest = without ps k ns n in if at p k ns n then rest else p ∷ rest

abbrev carries : List String → String → Bool
carries [] f = false
carries (x ∷ xs) f = (x == f) || carries xs f

abbrev dropped : List String → String → List String
dropped [] f = []
dropped (x ∷ xs) f = let rest = dropped xs f in if x == f then rest else x ∷ rest

abbrev objects : Calls Places
objects = record {
  get = λ w k ns n. (w, if has w k ns n then none else some not_found);
  create = λ w o.
      if has w (place o).0 (place o).1 (place o).2
      then (w, some already_exists)
      else (place o ∷ w, none);
  delete = λ w k ns n. if has w k ns n then (without w k ns n, none) else (w, some not_found);
  update_tenant = λ w t. (w, none);
  update_tenant_status = λ w t. (w, none);
  contains_finalizer = λ t f. carries t.finalizers f;
  add_finalizer = λ t f. record t { finalizers = f ∷ t.finalizers };
  remove_finalizer = λ t f. record t { finalizers = dropped t.finalizers f };
  random_bytes = λ w len. (w, ok (171 ∷ 5 ∷ []));
  getenv = λ w name. "muto/a2a-gateway:1";
}

same_kind_self : (k : Kind) → same_kind k k ≡ true
same_kind_self namespaces = refl
same_kind_self secrets = refl
same_kind_self deployments = refl
same_kind_self services = refl

at_self : (p : Kind × String × String) → at p p.0 p.1 p.2 ≡ true
at_self p = ground (arith, same_kind_self p.0, eq_refl p.1, eq_refl p.2)

has-without : (ps : Places) (k : Kind) (ns n : String) → has (without ps k ns n) k ns n ≡ false
has-without [] k ns n = refl
has-without (p ∷ ps) k ns n = ground (arith, has-without ps k ns n)

has-choice :
    (drop : Bool) (p : Kind × String × String) (ps : Places) (k : Kind) (ns n : String)
    → at p k ns n ≡ false
    → has ps k ns n ≡ false
    → has (if drop then ps else p ∷ ps) k ns n ≡ false
has-choice true p ps k ns n q h = h
has-choice false p ps k ns n q h = ap (λ b. b || has ps k ns n) q ∙ h

has-without_other :
    (ps : Places) (k k' : Kind) (ns n ns' n' : String)
    → has ps k' ns' n' ≡ false
    → has (without ps k ns n) k' ns' n' ≡ false
has-without_other [] k k' ns n ns' n' h = refl
has-without_other (p ∷ ps) k k' ns n ns' n' h =
    let (q, rest) = or-false (at p k' ns' n') (has ps k' ns' n') h in
    has-choice (at p k ns n) p (without ps k ns n) k' ns' n' q
      (has-without_other ps k k' ns n ns' n' rest)

delete_keeps :
    (w : Places) (k k' : Kind) (ns n ns' n' : String)
    → has w k' ns' n' ≡ false
    → has (objects.delete w k ns n).0 k' ns' n' ≡ false
delete_keeps w k k' ns n ns' n' h = elim (Bool-cases (has w k ns n)) [
  | inl b ↦ rw b (has-without_other w k k' ns n ns' n' h)
  | inr b ↦ rw b h
]

objects_store : ObjectStore objects
objects_store = record {
  present = has;
  got = λ w k ns n h. ground arith;
  get_keeps = λ w k k' ns n ns' n'. refl;
  created = λ w o h. ground (arith, at_self (place o));
  create_keeps = λ w o k ns n h. ground arith;
  deleted = λ w k ns n h. ground (arith, has-without w k ns n);
  deleted_absent = λ w k ns n h. ground arith;
  delete_keeps = delete_keeps;
  random_keeps = λ w len k ns n. refl;
  added = λ t f. ground (arith, eq_refl f);
  add_finalizer_spec = λ t f. refl;
}

abbrev tenant : Bool → List String → Tenant
tenant deleting finalizers = record {
  name = "acme";
  deleting = deleting;
  finalizers = finalizers;
  spec = record {
    namespace = "acme-ns";
    isolation_tier = "dedicated";
    message_bus = record { type = "a2a"; dedicated = true };
  };
  status = record { ready = false };
}

-- A new tenant, with no object in the cluster.
reconcile_tenant-IsReady_example :
    IsReady objects objects_store
      (reconcile_tenant objects [] (tenant false [])).world
      (tenant false [])
unfolding reconcile_tenant ensure_namespace with_finalizer reconcile_bus reconcile_a2a_gateway
    ensure_a2a_secret ensure_a2a_deployment ensure_a2a_service generate_token encode_to_string
reconcile_tenant-IsReady_example =
    reconcile_tenant-IsReady objects objects_store [] (tenant false []) refl refl

abbrev leaving : Tenant
leaving = tenant true ("muto.io/tenant-cleanup" ∷ [])

abbrev provisioned : Places
provisioned =
    (namespaces, "", "acme-ns")
    ∷ (secrets, "acme-ns", "muto-a2a-token")
    ∷ (deployments, "acme-ns", "a2a-gateway")
    ∷ (services, "acme-ns", "a2a-gateway")
    ∷ []

abbrev acme_ns : String
acme_ns = "acme-ns"

acme_ns_named : acme_ns ≢ ""
acme_ns_named h = absurd (true≢false (sym (eq_refl acme_ns) ∙ ap (◌==◌ acme_ns) h))

finalize_tenant_cases_example :
    Finalized objects objects_store provisioned leaving
      (finalize_tenant objects provisioned leaving)
finalize_tenant_cases_example =
    finalize_tenant_cases objects objects_store provisioned leaving refl acme_ns_named
