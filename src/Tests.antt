-- ===== src/Tests.antt =====
-- Tests of the definitions, and the theorems at concrete inputs.
pub mod Demo
mod Queue
mod Broker
mod Worker
mod Commands
mod Events
mod Tasks
mod Scan
mod Adapter
mod Publish
mod Lifecycle
mod Sending
