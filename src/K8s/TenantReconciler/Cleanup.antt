-- ===== src/K8s/TenantReconciler/Cleanup.antt =====
-- platform/k8s/reconcilers/tenant_reconciler.go, finalizeTenant: what is gone when the finalizer goes.
use mathlib.Core.Option
use muto.Prelude.{
  String, ◌==◌, eq_iff, true, false, Option, none, some, ◌≡◌, ◌≢◌, refl, arith, ◌⊎◌, inl, inr, ap,
  sym, ◌∙◌, Bool-cases,
}
use muto.K8s.Types.{Tenant}
use muto.K8s.Objects.{Kind, secrets, deployments, services, ApiError, not_found, already_exists}
use muto.K8s.Answer.{Answer, Error, fails, remove_finalizer_failed}
use muto.K8s.TenantReconciler.Api.{Calls}
use muto.K8s.TenantReconciler.Store.{ObjectStore}
use muto.K8s.TenantReconciler.{
  deleting, written, cleaned, delete_a2a_gateway_resources, finalize_tenant, tenant_finalizer,
}

module _ {W : Type 0} (g : Calls W) (store : ObjectStore g) where
  open store use {present}

  -- No part of the gateway is left in the namespace.
  abbrev pub IsClean : W → String → Type 0
  IsClean w ns =
      (present w deployments ns "a2a-gateway" ≡ false)
      × (present w services ns "a2a-gateway" ≡ false)
      × (present w secrets ns "muto-a2a-token" ≡ false)

  -- A deletion that does not end the clean-up has left the object absent.
  deleting_ok :
      (kind : Kind) (w : W) (ns n : String) (k : W → W × Option Error)
      → (deleting g kind (g.delete w kind ns n) k).1 ≡ none
      → (present (g.delete w kind ns n).0 kind ns n ≡ false)
        × (deleting g kind (g.delete w kind ns n) k ≡ k (g.delete w kind ns n).0)
  unfolding deleting
  deleting_ok kind w ns n k h = answered (g.delete w kind ns n).1 refl
    where
      answered :
          (o : Option ApiError)
          → (g.delete w kind ns n).1 ≡ o
          → (present (g.delete w kind ns n).0 kind ns n ≡ false)
            × (deleting g kind (g.delete w kind ns n) k ≡ k (g.delete w kind ns n).0)
      answered none e = (store.deleted w kind ns n e, rw e refl)
      answered (some not_found) e = (store.deleted_absent w kind ns n e, rw e refl)
      answered (some already_exists) e = ground (arith, e)
      answered (some (ApiError.failure m)) e = ground (arith, e)

  -- The three deletions, one after the other.
  abbrev no_secret : W → String → W × Option Error
  no_secret w ns = deleting g secrets (g.delete w secrets ns "muto-a2a-token") (λ v. (v, none))

  abbrev no_service : W → String → W × Option Error
  no_service w ns = deleting g services (g.delete w services ns "a2a-gateway") (λ v. no_secret v ns)

  abbrev no_deployment : W → String → W × Option Error
  no_deployment w ns =
      deleting g deployments (g.delete w deployments ns "a2a-gateway") (λ v. no_service v ns)

  all-IsClean :
      (w : W) (ns : String) → (no_deployment w ns).1 ≡ none → IsClean (no_deployment w ns).0 ns
  all-IsClean w ns h =
      let (a, first) = deleting_ok deployments w ns "a2a-gateway" (λ v. no_service v ns) h in
      let w₁ = (g.delete w deployments ns "a2a-gateway").0 in
      let (b, second) =
        deleting_ok services w₁ ns "a2a-gateway" (λ v. no_secret v ns)
          (sym (ap (λ x. x.1) first) ∙ h) in
      let w₂ = (g.delete w₁ services ns "a2a-gateway").0 in
      let (d, third) =
        deleting_ok secrets w₂ ns "muto-a2a-token" (λ v. (v, none))
          (sym (ap (λ x. x.1) (first ∙ second)) ∙ h) in
      rw (first ∙ second ∙ third) (
        store.delete_keeps w₂ secrets deployments ns "muto-a2a-token" ns "a2a-gateway"
            (store.delete_keeps w₁ services deployments ns "a2a-gateway" ns "a2a-gateway" a),
        store.delete_keeps w₂ secrets services ns "muto-a2a-token" ns "a2a-gateway" b,
        d,
      )

  delete_resources-IsClean :
      (w : W) (ns : String)
      → ns ≢ ""
      → (delete_a2a_gateway_resources g w ns).1 ≡ none
      → IsClean (delete_a2a_gateway_resources g w ns).0 ns
  unfolding delete_a2a_gateway_resources
  delete_resources-IsClean w ns named h = elim (Bool-cases (ns == "")) [
    | inl e ↦ absurd (named ((eq_iff ns "").0 e))
    | inr e ↦ rw e (all-IsClean w ns (rw e at h))
  ]

  written_lem :
      (wrap : ApiError → Error) (r : W × Option ApiError)
      → ((written g wrap r).world ≡ r.0) × ((written g wrap r).error ≡ Option.map wrap r.1)
  unfolding written
  written_lem wrap (w, none) = (refl, refl)
  written_lem wrap (w, some e) = (refl, refl)

  -- How finalizeTenant may end: with the error of a clean-up that failed, or with the write of the
  -- tenant without the finalizer, from a state without any part of the gateway.
  abbrev pub Finalized : W → Tenant → Answer W → Type 0
  Finalized w tenant a =
      ((v : W) × (e : Error) × (delete_a2a_gateway_resources g w tenant.spec.namespace
          ≡ (v, some e))
        × (a ≡ fails v e))
      ⊎ ((v : W) × IsClean v tenant.spec.namespace
          × (a.world ≡ (g.update_tenant v (g.remove_finalizer tenant tenant_finalizer)).0)
          × (a.error
              ≡ Option.map remove_finalizer_failed
                  (g.update_tenant v (g.remove_finalizer tenant tenant_finalizer)).1))

  -- While nobody else writes the objects (ObjectStore), finalizing a tenant that has the
  -- finalizer, and a namespace, ends in one of two ways: the clean-up failed, its error is
  -- returned, and the tenant is not written; or no part of the gateway is left, and from there the
  -- one write is that of the tenant without the finalizer, whose error is returned.
  pub finalize_tenant_cases :
      (w : W) (tenant : Tenant)
      → g.contains_finalizer tenant tenant_finalizer ≡ true
      → tenant.spec.namespace ≢ ""
      → Finalized w tenant (finalize_tenant g w tenant)
  unfolding finalize_tenant
  finalize_tenant_cases w tenant has named = rw has (
      answered (delete_a2a_gateway_resources g w tenant.spec.namespace)
        (delete_resources-IsClean w tenant.spec.namespace named) refl)
    where
      answered :
          (r : W × Option Error)
          → (r.1 ≡ none → IsClean r.0 tenant.spec.namespace)
          → delete_a2a_gateway_resources g w tenant.spec.namespace ≡ r
          → Finalized w tenant (cleaned g tenant r)
      answered (v, some e) clean h = inl (v, e, h, refl)
      answered (v, none) clean h =
          let removal = g.update_tenant v (g.remove_finalizer tenant tenant_finalizer) in
          inr (
            v,
            clean refl,
            (written_lem remove_finalizer_failed removal).0,
            (written_lem remove_finalizer_failed removal).1,
          )
