-- ===== src/Cf.antt =====
-- platform/cf: the scheduler's platform on Cloud Foundry.
pub mod Cache
pub mod Client
pub mod RealClient
pub mod Adapter
