-- ===== src/Tenant.antt =====
-- core/tenant: the tenant's fields, its validation, and the topics that belong to it.
pub mod Isolation
use muto.Prelude.{String, ◌<>◌, Bool, true, false, Option, some, none, ◌==◌, if◌then◌else◌}
use text.Mathlib.Text.{starts_with}

pub data IsolationTier : Type 0 where
  shared dedicated : IsolationTier
  other : String → IsolationTier

pub record Tenant : Type 0 where
  pub id : String
  pub namespace : String
  pub isolation_tier : IsolationTier
  pub bus_type : String
  pub bus_dedicated : Bool

-- The errors, each with the values that its text quotes.
pub data Error : Type 0 where
  topic_foreign : String → String → String → Error
  empty_id empty_namespace : Error
  unknown_tier : IsolationTier → Error

unfoldable pub topic_prefix : String → String
topic_prefix tenant_id = "tenant." <> (tenant_id <> ".")

unfoldable pub validate_topic : String → String → Option Error
unfolding topic_prefix
validate_topic tenant_id topic =
    let prefix = topic_prefix tenant_id in
    if starts_with topic prefix then none else some (topic_foreign topic tenant_id prefix)

is_known : IsolationTier → Bool
is_known shared = true
is_known dedicated = true
is_known (other t) = false

unfoldable pub validate : Tenant → Option Error
unfolding is_known
validate t =
    if t.id == ""
    then some empty_id
    else if t.namespace == ""
    then some empty_namespace
    else if is_known t.isolation_tier
    then none
    else some (unknown_tier t.isolation_tier)
