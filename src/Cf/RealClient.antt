-- ===== src/Cf/RealClient.antt =====
-- platform/cf/client.go: realCFClient, over go-cfclient.
pub mod Dropping
use muto.Prelude.{
  String, ◌==◌, Bool, Option, none, some, List, [], ◌∷◌, Result, ok, err, not, if◌then◌else◌, ◌<>◌,
}
use muto.Prelude.Int.{ℤ, pos, ltb_ℤ}
use muto.Cf.Client.{CfClient, PushRequest, TaskRequest}

-- resource.Lifecycle, and resource.AppCreate as far as PushApp fills it in.
pub data Lifecycle : Type 0 where
  docker : String → Lifecycle
  buildpack : List String → Lifecycle

pub record AppCreate : Type 0 where
  pub name : String
  pub space_guid : String
  pub environment_variables : Option (List (String × String))
  pub lifecycle : Option Lifecycle

-- resource.TaskCreate, with what RunTask sets.
pub record TaskCreate : Type 0 where
  pub command : String
  pub name : Option String
  pub memory_in_mb : Option ℤ
  pub disk_in_mb : Option ℤ

-- The options of a list call: what the fields are set equal to.
pub record ListOptions : Type 0 where
  pub names : Option String
  pub space_guids : Option String
  pub organization_guids : Option String

-- go-cfclient: `W` is Cloud Foundry, `X` the library's errors; of a resource its GUID is kept, of a
-- task that is got its state.
pub record GoCfClient (W X : Type 0) : Type 0 where
  pub clock : W → ℤ
  pub applications_first : W → ListOptions → W × Result X String
  pub applications_create : W → AppCreate → W × Result X String
  pub tasks_create : W → String → TaskCreate → W × Result X String
  pub tasks_get : W → String → W × Result X String
  pub tasks_cancel : W → String → W × Result X String
  pub organizations_first : W → ListOptions → W × Result X String
  pub spaces_first : W → ListOptions → W × Result X String
  pub text : X → String

-- The errors, with what their texts quote and wrap.
pub data Error (X : Type 0) : Type 0 where
  get_app_failed get_space_failed : String → String → X → Error X
  push_app_failed run_task_failed get_task_failed cancel_task_failed get_org_failed :
      String → X → Error X

abbrev no_options : ListOptions
no_options = record { names = none; space_guids = none; organization_guids = none }

unfoldable pub lifecycle_of : PushRequest → Option Lifecycle
lifecycle_of req =
    if not (req.docker_image == "")
    then some (docker req.docker_image)
    else elim req.buildpacks [ [] ↦ none | b ∷ bs ↦ some (buildpack (b ∷ bs)) ]

unfoldable pub app_create : PushRequest → AppCreate
unfolding lifecycle_of
app_create req = record {
  name = req.name;
  space_guid = req.space_guid;
  environment_variables = req.env_vars;
  lifecycle = lifecycle_of req;
}

abbrev positive : ℤ → Option ℤ
positive n = if ltb_ℤ (pos 0) n then some n else none

unfoldable pub task_create : TaskRequest → TaskCreate
task_create req = record {
  command = req.command;
  name = if req.name == "" then none else some req.name;
  memory_in_mb = positive req.memory_in_mb;
  disk_in_mb = positive req.disk_in_mb;
}

-- `fmt.Errorf("…: %w", …, err)`, or the value.
abbrev wrapped : {W X A : Type 0} → (X → Error X) → W × Result X A → W × Result (Error X) A
wrapped wrap (w, err e) = (w, err (wrap e))
wrapped wrap (w, ok a) = (w, ok a)

-- The task that CancelTask gets is dropped.
abbrev dropped : {W X A : Type 0} → (X → Error X) → W × Result X A → W × Option (Error X)
dropped wrap (w, err e) = (w, some (wrap e))
dropped wrap (w, ok a) = (w, none)

-- `%q` is a parameter.
module _ {W X : Type 0} (cf : GoCfClient W X) (quoted : String → String) where
  unfoldable pub error_text : Error X → String
  error_text (get_app_failed name space e) =
      "get app " <> (quoted name <> (" in space " <> (quoted space <> (": " <> cf.text e))))
  error_text (push_app_failed name e) = "push app " <> (quoted name <> (": " <> cf.text e))
  error_text (run_task_failed app e) = "run task on app " <> (quoted app <> (": " <> cf.text e))
  error_text (get_task_failed task e) = "get task " <> (quoted task <> (": " <> cf.text e))
  error_text (cancel_task_failed task e) = "cancel task " <> (quoted task <> (": " <> cf.text e))
  error_text (get_org_failed name e) = "get org " <> (quoted name <> (": " <> cf.text e))
  error_text (get_space_failed name org e) =
      "get space " <> (quoted name <> (" in org " <> (quoted org <> (": " <> cf.text e))))

  unfoldable pub get_app_by_name : W → String → String → W × Result (Error X) String
  get_app_by_name w name space_guid = wrapped (get_app_failed name space_guid) (
      cf.applications_first w
        (record no_options { names = some name; space_guids = some space_guid }))

  unfoldable pub push_app : W → PushRequest → W × Result (Error X) String
  unfolding app_create
  push_app w req = wrapped (push_app_failed req.name) (cf.applications_create w (app_create req))

  unfoldable pub run_task : W → String → TaskRequest → W × Result (Error X) String
  unfolding task_create
  run_task w app_guid req =
      wrapped (run_task_failed app_guid) (cf.tasks_create w app_guid (task_create req))

  unfoldable pub get_task : W → String → W × Result (Error X) String
  get_task w task_guid = wrapped (get_task_failed task_guid) (cf.tasks_get w task_guid)

  unfoldable pub cancel_task : W → String → W × Option (Error X)
  cancel_task w task_guid = dropped (cancel_task_failed task_guid) (cf.tasks_cancel w task_guid)

  unfoldable pub get_org_by_name : W → String → W × Result (Error X) String
  get_org_by_name w name =
      wrapped (get_org_failed name)
        (cf.organizations_first w (record no_options { names = some name }))

  unfoldable pub get_space_by_name : W → String → String → W × Result (Error X) String
  get_space_by_name w org_guid name = wrapped (get_space_failed name org_guid) (
      cf.spaces_first w
        (record no_options { names = some name; organization_guids = some org_guid }))

  -- realCFClient as the adapter's CFClient.
  unfoldable pub real_cf_client : CfClient W (Error X)
  unfolding error_text get_app_by_name push_app run_task cancel_task get_org_by_name
      get_space_by_name
  real_cf_client = record {
    now = cf.clock;
    get_app_by_name = get_app_by_name;
    push_app = push_app;
    run_task = run_task;
    cancel_task = cancel_task;
    get_org_by_name = get_org_by_name;
    get_space_by_name = get_space_by_name;
    error = error_text;
  }
