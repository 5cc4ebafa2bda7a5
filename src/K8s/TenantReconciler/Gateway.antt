-- ===== src/K8s/TenantReconciler/Gateway.antt =====
-- platform/k8s/reconcilers/tenant_reconciler.go: the A2A gateway of a tenant, which is a secret, a
-- deployment and a service in the tenant's namespace.
pub mod Ensures
use Prim.Native.Nat.{◌/◌}
use muto.Prelude.{
  ℕ, ◌%◌, String, ◌<>◌, ◌==◌, Bool, not, Option, none, some, List, [], ◌∷◌, Result, ok, err,
  if◌then◌else◌, eqb,
}
use muto.Prelude.Int.{pos}
use muto.K8s.Types.{Tenant}
use muto.K8s.Objects.{secrets, deployments, services, Object, ApiError}
use muto.K8s.Answer.{GatewayError, call_failed, token_failed, image_unset, is_not_found}
use muto.K8s.TenantReconciler.Api.{Calls}
use muto.K8s.AgentJob.Pods.{digit}

-- hex.EncodeToString: two digits for each byte.
hex_digit : ℕ → String
hex_digit n =
    if eqb n 10
    then "a"
    else if eqb n 11
    then "b"
    else if eqb n 12
    then "c"
    else if eqb n 13
    then "d"
    else if eqb n 14
    then "e"
    else if eqb n 15
    then "f"
    else digit n

unfoldable pub encode_to_string : List ℕ → String
unfolding hex_digit
encode_to_string [] = ""
encode_to_string (b ∷ bs) = hex_digit (b / 16) <> (hex_digit (b % 16) <> encode_to_string bs)

-- The controller reference of a tenant, and the label that joins the gateway's parts.
abbrev pub owner_ref : Tenant → String × String
owner_ref tenant = ("Tenant", tenant.name)

abbrev component : String × String
component = ("muto.io/component", "a2a-gateway")

module _ {W : Type 0} (g : Calls W) where
  encoded : W × Result String (List ℕ) → W × Result String String
  encoded (w, err e) = (w, err e)
  encoded (w, ok bytes) = (w, ok (encode_to_string bytes))

  unfoldable pub generate_token : W → W × Result String String
  unfolding encoded
  generate_token w = encoded (g.random_bytes w 32)

  -- `return r.Create(ctx, …)`
  made : W × Option ApiError → W × Option GatewayError
  made (w, none) = (w, none)
  made (w, some e) = (w, some (call_failed e))

  with_token : String → String × String → W × Result String String → W × Option GatewayError
  unfolding made
  with_token ns owner (w, err e) = (w, some (token_failed e))
  with_token ns owner (w, ok token) = made (
      g.create w (
        Object.secret (record {
          name = "muto-a2a-token";
          namespace = ns;
          owner = owner;
          data_fields = ("token", token) ∷ [];
        })))

  absent_secret : String → String × String → W × Option ApiError → W × Option GatewayError
  unfolding with_token
  absent_secret ns owner (w, none) = (w, none)
  absent_secret ns owner (w, some e) =
      if not (is_not_found e)
      then (w, some (call_failed e))
      else with_token ns owner (generate_token w)

  unfoldable pub ensure_a2a_secret : W → String → String × String → W × Option GatewayError
  unfolding absent_secret
  ensure_a2a_secret w ns owner = absent_secret ns owner (g.get w secrets ns "muto-a2a-token")

  absent_deployment : String → String × String → W × Option ApiError → W × Option GatewayError
  unfolding made
  absent_deployment ns owner (w, none) = (w, none)
  absent_deployment ns owner (w, some e) =
      let image = g.getenv w "MUTO_A2A_GATEWAY_IMAGE" in
      if not (is_not_found e)
      then (w, some (call_failed e))
      else if image == ""
      then (w, some image_unset)
      else made (
          g.create w (
            Object.deployment (record {
              name = "a2a-gateway";
              namespace = ns;
              owner = owner;
              replicas = pos 1;
              selector = component;
              container = "a2a-gateway";
              image = image;
              port = 8080;
            })))

  unfoldable pub ensure_a2a_deployment : W → String → String × String → W × Option GatewayError
  unfolding absent_deployment
  ensure_a2a_deployment w ns owner =
      absent_deployment ns owner (g.get w deployments ns "a2a-gateway")

  absent_service : String → String × String → W × Option ApiError → W × Option GatewayError
  unfolding made
  absent_service ns owner (w, none) = (w, none)
  absent_service ns owner (w, some e) =
      if not (is_not_found e)
      then (w, some (call_failed e))
      else made (
          g.create w (
            Object.service (record {
              name = "a2a-gateway";
              namespace = ns;
              owner = owner;
              selector = component;
              port = 8080;
              target_port = 8080;
            })))

  unfoldable pub ensure_a2a_service : W → String → String × String → W × Option GatewayError
  unfolding absent_service
  ensure_a2a_service w ns owner = absent_service ns owner (g.get w services ns "a2a-gateway")

  -- `if err := …; err != nil { return err }`
  and_then : W × Option GatewayError → (W → W × Option GatewayError) → W × Option GatewayError
  and_then (w, some e) k = (w, some e)
  and_then (w, none) k = k w

  unfoldable pub reconcile_a2a_gateway : W → Tenant → W × Option GatewayError
  unfolding and_then
  reconcile_a2a_gateway w tenant =
      let ns = tenant.spec.namespace in
      let owner = owner_ref tenant in
      and_then (ensure_a2a_secret w ns owner)
        (λ w₁. and_then (ensure_a2a_deployment w₁ ns owner) (λ w₂. ensure_a2a_service w₂ ns owner))
