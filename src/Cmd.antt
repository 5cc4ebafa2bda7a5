-- ===== src/Cmd.antt =====
-- cmd/muto-operator/main.go and cmd/muto-mcp/main.go: run, which gives the exit code.
pub mod ShutDown
use muto.Prelude.{
  ℕ, String, ◌==◌, Option, none, some, List, [], ◌∷◌, Result, ok, err, if◌then◌else◌,
}
use muto.Logging.{Logger, or_default, build_logger}
use muto.Telemetry.{Sdk, Shutdown, Acts, InitError, init_tracing, init_metrics, run_all}
use muto.Logging.{Error}

pub data Reconciler : Type 0 where
  tenant agent_job agent_fleet : Reconciler

-- How the calls of controller-runtime, client-go and go-cfclient come out in one run, each with the
-- arguments that the program chooses.
pub record Outside : Type 0 where
  pub sdk : Sdk
  pub get_config : Option String
  pub new_manager : String → String → Option String
  pub add_healthz_check : Option String
  pub add_readyz_check : Option String
  pub new_client : Option String
  pub new_cf_client : String → String → String → Option String
  pub setup_with_manager : Reconciler → Option String
  pub start : Option String
  pub serve_stdio : Option String

-- The next step, if this one has not failed.
abbrev and_then : Option String → Option String → Option String
and_then (some e) next = some e
and_then none next = next

abbrev exit_code : Option String → ℕ
exit_code none = 0
exit_code (some e) = 1

-- What run gives back: the acts of telemetry, and the exit code.
abbrev pub Run : Type 0
Run = Acts × ℕ

module _ (o : Outside) where
  -- env.OrDefault
  abbrev setting : String → String → String
  setting key fallback = or_default (Sdk.getenv o.sdk) key fallback

  abbrev pub logger : Result Error Logger
  logger = build_logger (setting "MUTO_LOG_FORMAT" "json") (setting "MUTO_LOG_LEVEL" "info")

  -- newManager.
  unfoldable pub manager_failure : Option String
  manager_failure =
      and_then
        (o.new_manager (setting "MUTO_METRICS_BIND_ADDRESS" ":8080")
          (setting "MUTO_HEALTH_PROBE_BIND_ADDRESS" ":8081"))
        (and_then o.add_healthz_check o.add_readyz_check)

  -- The adapter that MUTO_PLATFORM names.
  unfoldable pub adapter_failure : Option String
  adapter_failure =
      let platform = setting "MUTO_PLATFORM" "k8s" in
      if platform == "k8s"
      then o.new_client
      else if platform == "cf"
      then o.new_cf_client (Sdk.getenv o.sdk "CF_API_URL") (Sdk.getenv o.sdk "CF_USERNAME")
          (Sdk.getenv o.sdk "CF_PASSWORD")
      else some platform

  unfoldable pub operator_failure : Option String
  operator_failure = and_then o.get_config (
      and_then manager_failure (
        and_then adapter_failure (
          and_then (o.setup_with_manager tenant) (
            and_then (o.setup_with_manager agent_job)
              (and_then (o.setup_with_manager agent_fleet) o.start)))))

  operator_metered : Shutdown → Acts × Result InitError Shutdown → Run
  operator_metered t (acts, err e) = (run_all (t ∷ []) acts, 1)
  operator_metered t (acts, ok m) = (run_all (t ∷ m ∷ []) acts, exit_code operator_failure)

  operator_traced : Acts × Result InitError Shutdown → Run
  unfolding operator_metered
  operator_traced (acts, err e) = (run_all [] acts, 1)
  operator_traced (acts, ok t) = operator_metered t (init_metrics o.sdk acts)

  operator_logged : Result Error Logger → Run
  unfolding operator_traced
  operator_logged (err e) = ([], 1)
  operator_logged (ok log) = operator_traced (init_tracing o.sdk [])

  -- run of muto-operator; the deferred shutdown.All is `run_all`.
  unfoldable pub operator_run : Run
  unfolding operator_logged
  operator_run = operator_logged logger

  unfoldable pub mcp_failure : Option String
  mcp_failure = and_then o.get_config (and_then o.new_client o.serve_stdio)

  mcp_traced : Acts × Result InitError Shutdown → Run
  mcp_traced (acts, err e) = (acts, 1)
  mcp_traced (acts, ok t) = (run_all (t ∷ []) acts, exit_code mcp_failure)

  mcp_logged : Result Error Logger → Run
  unfolding mcp_traced
  mcp_logged (err e) = ([], 1)
  mcp_logged (ok log) = mcp_traced (init_tracing o.sdk [])

  -- run of muto-mcp.
  unfoldable pub mcp_run : Run
  unfolding mcp_logged
  mcp_run = mcp_logged logger
