-- ===== src/Change.antt =====
-- src/modules/change-tracking: the field-level differences of a notice, the append-only chain of
-- change events, its audit, and the queue of change notifications.
pub mod Text
pub mod Value
pub mod Diff
pub mod Event
pub mod Append
pub mod Audit
pub mod Notify
mod Tests
