-- ===== src/Concurrency.antt =====
-- src/utils/concurrency.utils.ts: a pool of workers over a shared index, and chunks in turn.
-- A worker runs between two awaits without interruption, so a run of the pool is a sequence of
-- worker numbers: the worker that the event loop resumes next.
pub mod Pool
pub mod Chunks
mod Tests
