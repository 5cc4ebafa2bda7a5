-- ===== src/Lib.antt =====
-- muto runs the agents of its tenants as jobs. A job has a life cycle (pending, running, succeeded or
-- failed, terminating); its agents are started on a platform, watched, and stopped. Two parts drive
-- that life cycle. The scheduler of core/scheduler serves the MCP tools and keeps its jobs in memory
-- behind a mutex; it talks to the platform through the interface PlatformAdapter. The operator of
-- platform/k8s reconciles custom resources: AgentJob, AgentFleet and Tenant.
--
-- The parts and their files, with the source's paths from the repository's root:
--   Agent, Tenant: core/agent/types.go, core/tenant/types.go and validator.go. Tenant/Isolation is
--     about the topics of different tenants.
--   Scheduler: core/scheduler/scheduler.go. The record `State` is DefaultScheduler (the map, the
--     watch contexts that were made and ended, the watchers that were started). `schedule`,
--     `cancel`, `status` and `list_active` are the methods of these names; `commit` and
--     `commit_cancel` are their sections under the mutex. Scheduler/Watch is watchJob, with its
--     fan-in goroutines as the relation `Merge`. Scheduler/StateMachine is
--     core/scheduler/statemachine.go, Scheduler/Adapter the interface PlatformAdapter and what a
--     platform promises (`Lawful`). Scheduler/Interleaving lets any number of calls and watchers
--     meet at the mutex in any order; the other children are the lemmas and theorems on whole
--     calls.
--   Tools: mcp/tools/tools.go, over any record `Scheduler` (the interface of core/scheduler);
--     Tools/Served fills it with DefaultScheduler; Tools/Stopped is about a cancelled job.
--   Server: mcp/server/server.go and tracing.go, the tools as they are declared and registered,
--     their handlers over Tools, and the span around each call.
--   Tracing: core/tracing/tracing.go and scheduler.go, platform/k8s/tracing/tracing.go. The spans
--     that ended are part of the state (`Traced`).
--   K8s/Adapter: platform/k8s/adapter.go, an implementation of PlatformAdapter.
--   K8s/AgentJob, K8s/AgentFleet, K8s/TenantReconciler: the reconcilers of
--     platform/k8s/reconcilers. A Reconcile call is a function from the cluster's state to
--     `Answer`, the state with ctrl.Result and the error. K8s/Types is
--     platform/k8s/types/v1alpha1, K8s/Objects the objects of Kubernetes that are read or built,
--     K8s/Controllers what SetupWithManager watches, K8s/Answer also ObserveReconcile of
--     platform/k8s/metrics/metrics.go. K8s/DeepCopy is zz_generated.deepcopy.go of types/v1alpha1,
--     over the heap of K8s/Memory: K8s/DeepCopy has the statements that its functions are made of,
--     Generated the functions, Structs the types with their slices and pointers; Deep, Statements
--     and Pointers say what a deep copy is and prove it.
--   Cf: platform/cf. Cf/Cache is cache.go, Cf/Client the interface CFClient of client.go,
--     Cf/RealClient its implementation over go-cfclient, Cf/Adapter adapter.go, another
--     implementation of PlatformAdapter. Cf/Adapter/Steady says what a sound cache is, Starting what
--     calls start an agent.
--   Messaging: core/messaging. Messaging/Kafka is kafka/kafka.go; the goroutine of a subscription
--     is a `Pump`, with a function for each of its ends, and Kafka/Live a relation on their steps.
--     Messaging/Nats is nats/nats.go, with the callback of a subscription as `deliver`.
--     `EventWatcher` is platform/k8s/eventwatcher.go.
--   A2a: core/a2a/client.go.
--   Metrics: core/metrics/metrics.go (Record*) and platform/k8s/metrics/metrics.go; what was
--     recorded is a list; Metrics/Collectors has the collectors and instruments. Telemetry: Init
--     of core/metrics/metrics.go and core/tracing/tracing.go, and core/shutdown/shutdown.go.
--     Logging: core/logging/logging.go, core/env/env.go.
--   Cmd: run of cmd/muto-operator/main.go and cmd/muto-mcp/main.go.
--   Prelude: shared types and lemmas; Examples: concrete platforms and clusters, and runs on them.
--
-- Parameters. The API server's client (K8s/Client, K8s/TenantReconciler/Api, Cf/Client), the brokers
-- (Messaging), HTTP (A2a), mcp-go and encoding/json (Server/Library) and the platform stand for code
-- outside the repository: their calls take a state and return a state, with any answer. What a
-- theorem relies on is a record of laws (`Lawful`, `Exact`, `Reliable`, `PodStore`, `CreatesExactly`,
-- `JobStore`, `ObjectStore`, `Ticks`, `Steady`, `Documented`, `Queueing`, `IsDeep`) or the hypothesis
-- `CreatesOnce`; Examples has an instance of each.
--
-- Numbers. int32 values are integers with the wrap-around of the conversion written out where the
-- source converts or increments. Go's int and time values are unbounded integers; times are in
-- nanoseconds. A float64 is a sign, a whole number and a number of units of 2^-1074, or infinite, or
-- NaN. The map of jobs is an association list, whose order stands for one of Go's iteration
-- orders. Loops run over lists or count down, so nothing runs on fuel but the printing of a replica's
-- index, where the number plus one bounds its digits.
--
-- Left out: log lines, the texts of errors where no other part reads them (their wrapped values are
-- kept), the cancellation of a caller's own context, the registration of
-- schemes and types, and NewRealCFClient. A panic of a handler or a callback is not modelled. The
-- executables are modelled by their early returns, their exit code and what they shut down; the
-- answers of the libraries in one run are a record (`Outside`, `Sdk`).
pub mod Prelude
pub mod Agent
pub mod Tenant
pub mod Messaging
pub mod A2a
pub mod Scheduler
pub mod Tools
pub mod K8s
pub mod Cf
pub mod Examples
pub mod Cmd
pub mod Logging
pub mod Metrics
pub mod Server
pub mod Telemetry
pub mod Tracing
