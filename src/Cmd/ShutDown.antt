-- ===== src/Cmd/ShutDown.antt =====
-- cmd/muto-operator/main.go and cmd/muto-mcp/main.go: nothing that was made is left running.
use muto.Prelude.{
  ◌≤◌, ◌≡◌, ◌⊎◌, inl, inr, refl, Bool, true, false, [], ◌∷◌, ok, err, Result-cases, Option-cases,
  Bool-cases, count, arith, if◌then◌else◌,
}
use muto.Telemetry.{
  Signal, traces, metrics, Act, exporter_made, exporter_shut, provider_made, provider_shut,
  provider_set, active_set, Acts, InitError, exporter_failed, instruments_failed, nothing, provider,
  Sdk, init_tracing, init_metrics, build_resource, new_instruments, is_off, run_all, run_shutdown,
}
use muto.Cmd.{Outside, logger, operator_run, mcp_run}

abbrev same_signal : Signal → Signal → Bool
same_signal traces traces = true
same_signal metrics metrics = true
same_signal traces metrics = false
same_signal metrics traces = false

-- The exporter of a signal is running, by the last act that is about it; shutting its provider down
-- shuts it down too.
abbrev pub is_running : Signal → Acts → Bool
is_running signal [] = false
is_running signal (exporter_made s ∷ acts) =
    if same_signal s signal then true else is_running signal acts
is_running signal (exporter_shut s ∷ acts) =
    if same_signal s signal then false else is_running signal acts
is_running signal (provider_shut s ∷ acts) =
    if same_signal s signal then false else is_running signal acts
is_running signal (provider_made s ∷ acts) = is_running signal acts
is_running signal (provider_set s ∷ acts) = is_running signal acts
is_running signal (active_set s ∷ acts) = is_running signal acts

abbrev pub shuts : Signal → Act → Bool
shuts signal (exporter_shut s) = same_signal s signal
shuts signal (provider_shut s) = same_signal s signal
shuts signal _ = false

-- Neither exporter is running, and none was shut down twice.
abbrev pub IsShutDown : Acts → Type 0
IsShutDown acts =
    (is_running traces acts ≡ false)
    × (is_running metrics acts ≡ false)
    × (count (shuts traces) acts ≤ 1)
    × (count (shuts metrics) acts ≤ 1)

module _ (sdk : Sdk) where
  -- How the set-up of the traces can end.
  init_tracing_cases :
      (acts : Acts)
      → (init_tracing sdk acts ≡ (acts, ok nothing))
        ⊎ ((e : InitError) × (init_tracing sdk acts ≡ (acts, err e)))
        ⊎ ((e : InitError) × (init_tracing sdk acts
              ≡ (exporter_shut traces ∷ exporter_made traces ∷ acts, err e)))
        ⊎ (init_tracing sdk acts ≡ (
          provider_set traces ∷ provider_made traces ∷ exporter_made traces ∷ acts,
          ok (provider traces),
        ))
  unfolding init_tracing
  init_tracing_cases acts = elim (Bool-cases (is_off sdk "OTEL_EXPORTER_OTLP_TRACES_ENDPOINT")) [
    | inl h ↦ inl (rw h refl)
    | inr h ↦ elim (Option-cases (sdk.new_exporter traces)) [
      | inr (e, k) ↦ inr (inl (exporter_failed e, rw (h, k) refl))
      | inl k ↦ elim (Option-cases (build_resource sdk traces)) [
        | inr (e, l) ↦ inr (inr (inl (e, rw (h, k, l) refl)))
        | inl l ↦ inr (inr (inr (rw (h, k, l) refl)))
      ]
    ]
  ]

  -- The same of the metrics.
  init_metrics_cases :
      (acts : Acts)
      → (init_metrics sdk acts ≡ (acts, ok nothing))
        ⊎ ((e : InitError) × (init_metrics sdk acts ≡ (acts, err e)))
        ⊎ ((e : InitError) × (init_metrics sdk acts
              ≡ (exporter_shut metrics ∷ exporter_made metrics ∷ acts, err e)))
        ⊎ ((e : InitError) × (init_metrics sdk acts ≡ (
          provider_shut metrics ∷ provider_made metrics ∷ exporter_made metrics ∷ acts,
          err e,
        )))
        ⊎ (init_metrics sdk acts ≡ (
          active_set metrics
              ∷ provider_set metrics
              ∷ provider_made metrics
              ∷ exporter_made metrics
              ∷ acts,
          ok (provider metrics),
        ))
  unfolding init_metrics
  init_metrics_cases acts = elim (Bool-cases (is_off sdk "OTEL_EXPORTER_OTLP_METRICS_ENDPOINT")) [
    | inl h ↦ inl (rw h refl)
    | inr h ↦ elim (Option-cases (sdk.new_exporter metrics)) [
      | inr (e, k) ↦ inr (inl (exporter_failed e, rw (h, k) refl))
      | inl k ↦ elim (Option-cases (build_resource sdk metrics)) [
        | inr (e, l) ↦ inr (inr (inl (e, rw (h, k, l) refl)))
        | inl l ↦ elim (Option-cases (new_instruments sdk)) [
          | inr (e, m) ↦ inr (inr (inr (inl (instruments_failed e, rw (h, k, l, m) refl))))
          | inl m ↦ inr (inr (inr (inr (rw (h, k, l, m) refl))))
        ]
      ]
    ]
  ]

operator_run-IsShutDown : (o : Outside) → IsShutDown (operator_run o).0
unfolding operator_run run_all run_shutdown
operator_run-IsShutDown o = elim (Result-cases (logger o)) [
  | inr (e, h) ↦ rw h (refl, refl, omega arith, omega arith)
  | inl (log, h) ↦ elim (init_tracing_cases o.sdk []) [
    | inl k ↦ elim (init_metrics_cases o.sdk []) [
      | inl m ↦ rw (h, k, m) (refl, refl, omega arith, omega arith)
      | inr (inl (e, m)) ↦ rw (h, k, m) (refl, refl, omega arith, omega arith)
      | inr (inr (inl (e, m))) ↦ rw (h, k, m) (refl, refl, omega arith, omega arith)
      | inr (inr (inr (inl (e, m)))) ↦ rw (h, k, m) (refl, refl, omega arith, omega arith)
      | inr (inr (inr (inr m))) ↦ rw (h, k, m) (refl, refl, omega arith, omega arith)
    ]
    | inr (inl (e, k)) ↦ rw (h, k) (refl, refl, omega arith, omega arith)
    | inr (inr (inl (e, k))) ↦ rw (h, k) (refl, refl, omega arith, omega arith)
    | inr (inr (inr k)) ↦
        elim (init_metrics_cases o.sdk
          (provider_set traces ∷ provider_made traces ∷ exporter_made traces ∷ [])) [
            | inl m ↦ rw (h, k, m) (refl, refl, omega arith, omega arith)
            | inr (inl (e, m)) ↦ rw (h, k, m) (refl, refl, omega arith, omega arith)
            | inr (inr (inl (e, m))) ↦ rw (h, k, m) (refl, refl, omega arith, omega arith)
            | inr (inr (inr (inl (e, m)))) ↦ rw (h, k, m) (refl, refl, omega arith, omega arith)
            | inr (inr (inr (inr m))) ↦ rw (h, k, m) (refl, refl, omega arith, omega arith)
          ]
  ]
]

mcp_run-IsShutDown : (o : Outside) → IsShutDown (mcp_run o).0
unfolding mcp_run run_all run_shutdown
mcp_run-IsShutDown o = elim (Result-cases (logger o)) [
  | inr (e, h) ↦ rw h (refl, refl, omega arith, omega arith)
  | inl (log, h) ↦ elim (init_tracing_cases o.sdk []) [
    | inl k ↦ rw (h, k) (refl, refl, omega arith, omega arith)
    | inr (inl (e, k)) ↦ rw (h, k) (refl, refl, omega arith, omega arith)
    | inr (inr (inl (e, k))) ↦ rw (h, k) (refl, refl, omega arith, omega arith)
    | inr (inr (inr k)) ↦ rw (h, k) (refl, refl, omega arith, omega arith)
  ]
]

-- On every path through run, of the operator and of the MCP server, whatever fails, every exporter that
-- was made has been told to shut down by the end, itself or through its provider, and no more than once.
pub runs-IsShutDown : (o : Outside) → IsShutDown (operator_run o).0 × IsShutDown (mcp_run o).0
runs-IsShutDown o = (operator_run-IsShutDown o, mcp_run-IsShutDown o)
