-- ===== src/Examples/CmdRuns.antt =====
-- Runs of the executables, with telemetry on and an instrument that cannot be made.
use muto.Prelude.{◌==◌, none, some, if◌then◌else◌}
use muto.Telemetry.{
  Sdk, init_tracing, init_metrics, build_resource, new_instruments, run_all, run_shutdown,
}
use muto.Logging.{build_logger, level_of, encoder_of, or_default, warn, Encoder, invalid_level}
use muto.Cmd.{Outside, operator_run, mcp_run, mcp_failure}
use muto.Prelude.{ok, err, ◌≡◌, refl}
use muto.Cmd.ShutDown.{IsShutDown, runs-IsShutDown}

abbrev sdk : Sdk
sdk = record {
  getenv = λ key. if key == "OTEL_EXPORTER_OTLP_ENDPOINT" then "http://collector" else "";
  new_exporter = λ signal. none;
  new_resource = λ signal. none;
  new_instrument = λ name. if name == "muto.jobs.total" then some "refused" else none;
}

abbrev outside : Outside
outside = record {
  sdk = sdk;
  get_config = none;
  new_manager = λ metrics_addr probe_addr. none;
  add_healthz_check = none;
  add_readyz_check = none;
  new_client = none;
  new_cf_client = λ url user password. none;
  setup_with_manager = λ r. none;
  start = none;
  serve_stdio = none;
}

runs-IsShutDown_example : IsShutDown (operator_run outside).0 × IsShutDown (mcp_run outside).0
runs-IsShutDown_example = runs-IsShutDown outside

logger_run : build_logger "JSON" "Warn" ≡ ok (record { level = warn; encoder = Encoder.json })
unfolding build_logger level_of encoder_of
logger_run = refl

no_level_run : build_logger "json" "verbose" ≡ err (invalid_level "verbose")
unfolding build_logger level_of
no_level_run = refl

-- The instrument that cannot be made ends the operator, after the exporters have been shut down.
operator_exit_run : (operator_run outside).1 ≡ 1
unfolding operator_run build_logger level_of encoder_of or_default init_tracing init_metrics
    build_resource new_instruments run_all run_shutdown
operator_exit_run = refl

mcp_exit_run : (mcp_run outside).1 ≡ 0
unfolding mcp_run build_logger level_of encoder_of or_default init_tracing mcp_failure
    build_resource run_all run_shutdown
mcp_exit_run = refl
