-- ===== src/Cf/Client.antt =====
-- platform/cf/client.go: the interface CFClient, as a parameter. `W` is the state of Cloud Foundry and `E`
-- its errors; of each resource the fields are kept that the adapter reads. `now` reads the clock.
use muto.Prelude.{String, List, Option, Result}
use muto.Prelude.Int.{ℤ}

pub record PushRequest : Type 0 where
  pub name : String
  pub space_guid : String
  pub docker_image : String
  pub buildpacks : List String
  pub env_vars : Option (List (String × String))

pub record TaskRequest : Type 0 where
  pub command : String
  pub name : String
  pub memory_in_mb : ℤ
  pub disk_in_mb : ℤ

pub record CfClient (W E : Type 0) : Type 0 where
  pub now : W → ℤ
  pub get_app_by_name : W → String → String → W × Result E String
  pub push_app : W → PushRequest → W × Result E String
  pub run_task : W → String → TaskRequest → W × Result E String
  pub cancel_task : W → String → W × Option E
  pub get_org_by_name : W → String → W × Result E String
  pub get_space_by_name : W → String → String → W × Result E String
  pub error : E → String
