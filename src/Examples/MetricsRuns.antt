-- ===== src/Examples/MetricsRuns.antt =====
-- Runs of the metrics: two jobs of one tenant.
use muto.Prelude.{◌≡◌, refl, some, List, [], ◌∷◌}
use muto.Prelude.Int.{pos, ◌+ℤ◌}
use muto.Metrics.{Meters, Call, reconciled, started, finished, take_calls}
use muto.Metrics.Gauges.{gauge, is_depth, is_agents, depth_change, agents_change, sum}
use muto.Metrics.Balance.{jobs_counted, jobs_change, take_calls-balance}

abbrev unused : Meters
unused = record { prometheus = []; otlp = some [] }

abbrev calls : List Call
calls =
    reconciled "agentjob" "success" (pos 5)
    ∷ started "acme" (pos 3)
    ∷ finished (pos 9) "acme" "failed" (some (pos 2)) (pos 3)
    ∷ []

take_calls-balance_example :
    ((take_calls calls unused).otlp ≡ some (take_calls calls unused).prometheus)
    × (gauge is_depth "acme" (take_calls calls unused).prometheus
        ≡ sum (depth_change "acme") calls +ℤ gauge is_depth "acme" [])
    × (gauge is_agents "acme" (take_calls calls unused).prometheus
        ≡ sum (agents_change "acme") calls +ℤ gauge is_agents "acme" [])
    × (jobs_counted "acme" "failed" (take_calls calls unused).prometheus
        ≡ sum (jobs_change "acme" "failed") calls +ℤ jobs_counted "acme" "failed" [])
take_calls-balance_example = take_calls-balance "acme" "failed" calls unused refl
