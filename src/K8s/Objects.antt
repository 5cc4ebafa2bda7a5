-- ===== src/K8s/Objects.antt =====
-- The objects of Kubernetes itself that platform/k8s builds, with the fields that it sets or reads.
use muto.Prelude.{ℕ, String, List, Option}
use muto.Prelude.Int.{ℤ}

pub data PodPhase : Type 0 where
  succeeded failed : PodPhase
  other : String → PodPhase

pub data EnvValue : Type 0 where
  literal : String → EnvValue
  secret : String → String → EnvValue

pub record EnvVar : Type 0 where
  pub name : String
  pub value : EnvValue

pub record Container : Type 0 where
  pub name : String
  pub image : String
  pub env : List EnvVar
  pub command : List String

-- `owner` is the controller's kind and name; every pod that is built here is never restarted.
pub record Pod : Type 0 where
  pub name : String
  pub namespace : String
  pub labels : List (String × String)
  pub owner : Option (String × String)
  pub containers : List Container
  pub phase : PodPhase

-- The error classes that the source asks about, and any other error with its text.
pub data ApiError : Type 0 where
  not_found already_exists : ApiError
  failure : String → ApiError

-- The other kinds of object that the operator makes, and the objects themselves. `owner` is the
-- controller's kind and name.
pub data Kind : Type 0 where
  namespaces secrets deployments services : Kind

pub record Secret : Type 0 where
  pub name : String
  pub namespace : String
  pub owner : String × String
  pub data_fields : List (String × String)

-- A deployment of one container with one port, whose pods carry the selector's label.
pub record Deployment : Type 0 where
  pub name : String
  pub namespace : String
  pub owner : String × String
  pub replicas : ℤ
  pub selector : String × String
  pub container : String
  pub image : String
  pub port : ℕ

pub record Service : Type 0 where
  pub name : String
  pub namespace : String
  pub owner : String × String
  pub selector : String × String
  pub port : ℕ
  pub target_port : ℕ

pub record Namespace : Type 0 where
  pub name : String
  pub labels : List (String × String)

pub data Object : Type 0 where
  namespace : Namespace → Object
  secret : Secret → Object
  deployment : Deployment → Object
  service : Service → Object
