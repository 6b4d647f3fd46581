-- ===== src/Events.antt =====
-- src/z4j_celery/events: from Celery's signals and broker events to the brain's events.
pub mod Mapper
pub mod Broker
pub mod Signals
