-- ===== src/K8s.antt =====
-- platform/k8s: the objects, the API server's client, the scheduler's adapter and the reconcilers.
pub mod Types
pub mod Objects
pub mod Client
pub mod PodStore
pub mod Answer
pub mod Controllers
pub mod Memory
pub mod DeepCopy
pub mod Adapter
pub mod AgentJob
pub mod AgentFleet
pub mod TenantReconciler
