-- ===== src/Bootstrap.antt =====
-- src/z4j_celery/worker_bootstrap.py: whether an agent is started in this process.
pub mod Argv
pub mod Lifecycle
pub mod Framework
