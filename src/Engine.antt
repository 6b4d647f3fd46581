-- ===== src/Engine.antt =====
-- src/z4j_celery/engine.py: the adapter that the agent runtime drives.
pub mod EventQueue
pub mod WorkerConf
pub mod Submit
pub mod Reconcile
pub mod Workers
pub mod Health
pub mod Wiring
pub mod Actions
pub mod Lifecycle
pub mod Pipeline
