-- ===== src/Examples.antt =====
-- Concrete platforms, clusters and runs, on which the library's theorems are applied.
mod Platform
mod Cluster
mod SchedulerRuns
mod TenantRuns
mod Fixtures
mod JobRuns
mod AdapterRuns
mod CfRuns
mod TenantObjects
mod GaugeRuns
mod CmdRuns
mod MetricsRuns
mod BusRuns
mod ServerRuns
mod CopyRuns
mod CourseRuns
