-- ===== src/Worker.antt =====
-- workers/ingestion-worker: dedup, the item store, the pipeline of one job, and the queue policy.
pub mod Witnesses
pub mod Dedup
pub mod Ports
pub mod Store
pub mod Adapters
pub mod Processor
pub mod Runner
