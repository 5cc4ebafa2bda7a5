-- ===== src/K8s/TenantReconciler/Gateway/Ensures.antt =====
-- platform/k8s/reconcilers/tenant_reconciler.go: what the steps that make the gateway leave behind.
use muto.Prelude.{
  ℕ, String, ◌==◌, true, Option, none, some, Result, ok, err, List, ◌≡◌, refl, arith, ap, sym, ◌∙◌,
  Bool-cases, inl, inr,
}
use muto.K8s.Types.{Tenant}
use muto.K8s.Objects.{
  Kind, secrets, deployments, services, Object, ApiError, not_found, already_exists,
}
use muto.K8s.Answer.{GatewayError}
use muto.K8s.TenantReconciler.Api.{Calls}
use muto.K8s.TenantReconciler.Store.{ObjectStore, place}
use muto.K8s.TenantReconciler.Gateway.{
  ensure_a2a_secret, ensure_a2a_deployment, ensure_a2a_service, reconcile_a2a_gateway, owner_ref,
  and_then, absent_secret, absent_deployment, absent_service, with_token, made, generate_token,
  encoded,
}

module _ {W : Type 0} (g : Calls W) (store : ObjectStore g) where
  open store use {present}

  -- What is there before is there afterwards.
  abbrev pub Keeps : W → W → Type 0
  Keeps v w = (k : Kind) (ns n : String) → present v k ns n ≡ true → present w k ns n ≡ true

  -- A step that makes one object: it is there afterwards, unless the step failed, and what was there
  -- before still is.
  abbrev pub Makes : {E : Type 0} → W → W × Option E → Kind → String → String → Type 0
  Makes w r k ns n = (r.1 ≡ none → present r.0 k ns n ≡ true) × Keeps w r.0

  -- Reading an object, and making it if it is absent.
  pub get-Makes :
      {E : Type 0} (w : W) (k : Kind) (ns n : String) (f : W × Option ApiError → W × Option E)
      → ((v : W) → f (v, none) ≡ (v, none))
      → ((v : W) (e : ApiError) → Makes v (f (v, some e)) k ns n)
      → Makes w (f (g.get w k ns n)) k ns n
  get-Makes {E} w k ns n f there absent = answered (g.get w k ns n).1 refl
    where
      v : W
      v = (g.get w k ns n).0

      kept : Keeps w v
      kept k' ns' n' h = store.get_keeps w k k' ns n ns' n' ∙ h

      answered :
          (o : Option ApiError) → (g.get w k ns n).1 ≡ o → Makes w (f (g.get w k ns n)) k ns n
      answered none e =
          rw (ap (λ x. f (v, x)) e ∙ there v) (λ h. kept k ns n (store.got w k ns n e), kept)
      answered (some x) e =
          rw (ap (λ y. f (v, y)) e)
            ((absent v x).0, λ k' ns' n' h. (absent v x).1 k' ns' n' (kept k' ns' n' h))

  pub create-Makes :
      (w : W) (o : Object) → Makes w (g.create w o) (place o).0 (place o).1 (place o).2
  create-Makes w o = (store.created w o, store.create_keeps w o)

  made-Makes :
      (w : W) (o : Object) → Makes w (made g (g.create w o)) (place o).0 (place o).1 (place o).2
  unfolding made
  made-Makes w o = ground (arith, create-Makes w o)

  generate_token-Keeps : (w : W) → Keeps w (generate_token g w).0
  unfolding generate_token
  generate_token-Keeps w k ns n h = drawn (g.random_bytes w 32) (store.random_keeps w 32 k ns n ∙ h)
    where
      drawn :
          (r : W × Result String (List ℕ))
          → present r.0 k ns n ≡ true
          → present (encoded g r).0 k ns n ≡ true
      drawn (v, err e) there = there
      drawn (v, ok bytes) there = there

  token-Makes :
      (w : W) (ns : String) (owner : String × String) (r : W × Result String String)
      → Keeps w r.0
      → Makes w (with_token g ns owner r) secrets ns "muto-a2a-token"
  unfolding with_token
  token-Makes w ns owner (v, err e) kept = (λ h. cc, kept)
  token-Makes w ns owner (v, ok token) kept =
      let (there, later) = made-Makes v _ in (there, λ k ns' n h. later k ns' n (kept k ns' n h))

  secret-Makes :
      (w : W) (ns : String) (owner : String × String)
      → Makes w (ensure_a2a_secret g w ns owner) secrets ns "muto-a2a-token"
  unfolding ensure_a2a_secret
  secret-Makes w ns owner =
      get-Makes w secrets ns "muto-a2a-token" (absent_secret g ns owner) (λ v. refl) absent
    where
      absent :
          (v : W) (e : ApiError)
          → Makes v (absent_secret g ns owner (v, some e)) secrets ns "muto-a2a-token"
      absent v not_found =
          token-Makes v ns owner (generate_token g v)
            (λ k ns' n h. generate_token-Keeps v k ns' n h)
      absent v already_exists = (λ h. cc, λ k ns' n h. h)
      absent v (ApiError.failure m) = (λ h. cc, λ k ns' n h. h)

  deployment-Makes :
      (w : W) (ns : String) (owner : String × String)
      → Makes w (ensure_a2a_deployment g w ns owner) deployments ns "a2a-gateway"
  unfolding ensure_a2a_deployment
  deployment-Makes w ns owner =
      get-Makes w deployments ns "a2a-gateway" (absent_deployment g ns owner) (λ v. refl) absent
    where
      absent :
          (v : W) (e : ApiError)
          → Makes v (absent_deployment g ns owner (v, some e)) deployments ns "a2a-gateway"
      absent v not_found = elim (Bool-cases (g.getenv v "MUTO_A2A_GATEWAY_IMAGE" == "")) [
        | inl b ↦ rw b (λ h. cc, λ k ns' n h. h)
        | inr b ↦ rw b (made-Makes v _)
      ]
      absent v already_exists = (λ h. cc, λ k ns' n h. h)
      absent v (ApiError.failure m) = (λ h. cc, λ k ns' n h. h)

  service-Makes :
      (w : W) (ns : String) (owner : String × String)
      → Makes w (ensure_a2a_service g w ns owner) services ns "a2a-gateway"
  unfolding ensure_a2a_service
  service-Makes w ns owner =
      get-Makes w services ns "a2a-gateway" (absent_service g ns owner) (λ v. refl) absent
    where
      absent :
          (v : W) (e : ApiError)
          → Makes v (absent_service g ns owner (v, some e)) services ns "a2a-gateway"
      absent v not_found = made-Makes v _
      absent v already_exists = (λ h. cc, λ k ns' n h. h)
      absent v (ApiError.failure m) = (λ h. cc, λ k ns' n h. h)

  -- The three parts of the gateway.
  abbrev pub IsProvisioned : W → String → Type 0
  IsProvisioned w ns =
      (present w secrets ns "muto-a2a-token" ≡ true)
      × (present w deployments ns "a2a-gateway" ≡ true)
      × (present w services ns "a2a-gateway" ≡ true)

  and_then-none :
      (r : W × Option GatewayError) (k : W → W × Option GatewayError)
      → (and_then g r k).1 ≡ none
      → (r.1 ≡ none) × (and_then g r k ≡ k r.0)
  unfolding and_then
  and_then-none (w, some e) k h = cc
  and_then-none (w, none) k h = (refl, refl)

  and_then-Keeps :
      (w : W) (r : W × Option GatewayError) (k : W → W × Option GatewayError)
      → Keeps w r.0
      → ((v : W) → Keeps v (k v).0)
      → Keeps w (and_then g r k).0
  unfolding and_then
  and_then-Keeps w (v, some e) k kept next x ns n h = kept x ns n h
  and_then-Keeps w (v, none) k kept next x ns n h = next v x ns n (kept x ns n h)

  -- When the gateway was made without an error all its parts are there.
  pub gateway-IsProvisioned :
      (w : W) (tenant : Tenant)
      → (reconcile_a2a_gateway g w tenant).1 ≡ none
      → IsProvisioned (reconcile_a2a_gateway g w tenant).0 tenant.spec.namespace
  unfolding reconcile_a2a_gateway
  gateway-IsProvisioned w tenant h =
      let ns = tenant.spec.namespace in
      let owner = owner_ref tenant in
      let first = ensure_a2a_secret g w ns owner in
      let second = ensure_a2a_deployment g first.0 ns owner in
      let (a, ea) =
        and_then-none first
          (λ v.
            and_then g (ensure_a2a_deployment g v ns owner) (λ u. ensure_a2a_service g u ns owner))
          h in
      let (b, eb) =
        and_then-none second (λ u. ensure_a2a_service g u ns owner) (sym (ap (λ x. x.1) ea) ∙ h) in
      let done = sym (ap (λ x. x.1) (ea ∙ eb)) ∙ h in
      let made_service = service-Makes second.0 ns owner in
      let made_deployment = deployment-Makes first.0 ns owner in
      let made_secret = secret-Makes w ns owner in
      rw (ea ∙ eb) (
        made_service.1 secrets ns "muto-a2a-token"
            (made_deployment.1 secrets ns "muto-a2a-token" (made_secret.0 a)),
        made_service.1 deployments ns "a2a-gateway" (made_deployment.0 b),
        made_service.0 done,
      )

  pub gateway-Keeps : (w : W) (tenant : Tenant) → Keeps w (reconcile_a2a_gateway g w tenant).0
  unfolding reconcile_a2a_gateway
  gateway-Keeps w tenant =
      let ns = tenant.spec.namespace in
      let owner = owner_ref tenant in
      and_then-Keeps w (ensure_a2a_secret g w ns owner) _ (secret-Makes w ns owner).1 (λ v.
        and_then-Keeps v (ensure_a2a_deployment g v ns owner) _ (deployment-Makes v ns owner).1
          (λ u. (service-Makes u ns owner).1))
