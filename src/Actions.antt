-- ===== src/Actions.antt =====
-- src/z4j_celery/actions: the operator's commands against the broker.
pub mod Bulk
pub mod Control
pub mod Purge
pub mod Retry
