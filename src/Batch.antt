-- ===== src/Batch.antt =====
-- src/modules/shared/batch-processing.service.ts: jobs in batches and chunks, with a time limit,
-- retries and a bounded history, and the registry of the batches that are running.
pub mod Chunks
pub mod Jobs
pub mod Service
mod Tests
