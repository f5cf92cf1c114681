-- ===== src/Lease.antt =====
-- src/modules/crawling/browser-lease-manager.service.ts: the slots for browsers, the queue of those
-- who wait for one, and the processes that belong to a browser.
pub mod Slots
pub mod Tree
pub mod Ownership
mod Tests
