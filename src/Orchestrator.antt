-- ===== src/Orchestrator.antt =====
-- gateway/orchestrator.py
pub mod Exec
pub mod Outside
pub mod Command
pub mod Settings
pub mod Ray
pub mod Spark
pub mod Lifecycle
pub mod Swap
pub mod Startup
pub mod Cluster
pub mod Ownership
pub mod Outcome
pub mod RayStatus
pub mod Waiting
pub mod Readiness
pub mod Tests
