-- ===== src/Change/Notify.antt =====
-- The queue of change notifications (`dispatchChangeNotification` and what follows it in
-- src/modules/change-tracking/change-tracking.service.ts; the payload is that of
-- src/modules/notification/notification.service.ts). A handler runs up to its `await`; the flush goes
-- on in `finish_flush`, after the batch service answered or failed: either way the batch is not
-- queued again. Logging is left out.
pub mod Delivery
use law_cast_backend.Base.{
  ℕ, zero, suc, ◌+◌, ◌-◌, List, [], ◌∷◌, ◌++◌, Option, none, some, Bool, true, false, not, ltb,
  ◌==◌, ◌&&◌, ◌||◌, if◌then◌else◌, length, any, String, str_eq,
}
use law_cast_backend.Change.Text.{starts_with, Text, codes}
use law_cast_backend.Change.Diff.{Source, ChangeType, added}
use law_cast_backend.Change.Event.{
  EventType, created, Event, same_type, same_change, source_name, lower,
}

pub record ChangeNotificationPayload : Type 0 where
  pub notice_num : ℕ
  pub subject : Text
  pub event_type : EventType
  pub source : Option Source
  pub changed_fields : List String
  pub event_hash : Text
  pub event_height : ℕ
  pub event_id : ℕ
  pub detected_at : Text
  pub is_nsm_to_pal_transition : Bool

pub record FieldChange : Type 0 where
  pub field_path : String
  pub change_type : ChangeType

pub record DispatchInput : Type 0 where
  pub event : Event
  pub subject : Text
  pub changed_fields : List String
  pub change_details : Option (List FieldChange)

-- The service's fields; `dispatched` holds the batches that the batch service was given, in order.
pub record Queue : Type 0 where
  pub has_batch_service : Bool
  pub queued : List ChangeNotificationPayload
  pub flush_timer : Bool
  pub is_flushing : Bool
  pub collection_depth : ℕ
  pub suppression_depth : ℕ
  pub dispatched : List (List ChangeNotificationPayload)

abbrev pub is_collecting : Queue → Bool
is_collecting q = ltb 0 q.collection_depth

abbrev pub is_suppressing : Queue → Bool
is_suppressing q = ltb 0 q.suppression_depth

unfoldable pub is_notification_suppressed : Option Source → Bool
unfolding starts_with lower
is_notification_suppressed none = false
is_notification_suppressed (some s) =
    starts_with (codes "bootstrap:") (lower (codes (source_name s)))

abbrev marks_transition : Option (List FieldChange) → Bool
marks_transition none = false
marks_transition (some details) =
    any (λ d. str_eq d.field_path "contentId" && same_change d.change_type added) details

abbrev pub payload_of : DispatchInput → ChangeNotificationPayload
payload_of input = record {
  notice_num = input.event.notice_num;
  subject = input.subject;
  event_type = input.event.event_type;
  source = input.event.source;
  changed_fields = input.changed_fields;
  event_hash = input.event.event_hash;
  event_height = input.event.event_height;
  event_id = input.event.id;
  detected_at = input.event.detected_at;
  is_nsm_to_pal_transition = marks_transition input.change_details;
}

-- `scheduleQueuedChangeNotificationFlush`.
unfoldable pub schedule_flush : Queue → Queue
schedule_flush q =
    if q.flush_timer || q.is_flushing || is_collecting q then q else record q { flush_timer = true }

-- What the early returns of `dispatchChangeNotification` leave out.
unfoldable pub is_skipped : Queue → Event → Bool
unfolding is_notification_suppressed same_type
is_skipped q event =
    not q.has_batch_service
    || is_suppressing q
    || same_type event.event_type created
    || is_notification_suppressed event.source

abbrev pub push : ChangeNotificationPayload → Queue → Queue
push payload q = record q { queued = q.queued ++ payload ∷ [] }

unfoldable pub dispatch_change_notification : Queue → DispatchInput → Queue
unfolding schedule_flush is_skipped same_change
dispatch_change_notification q input =
    if is_skipped q input.event
    then q
    else if is_collecting q
    then push (payload_of input) q
    else schedule_flush (push (payload_of input) q)

-- `flushQueuedChangeNotifications` up to its `await`: the queue is spliced out and handed over.
unfoldable pub flush_queued : Queue → Queue
flush_queued q =
    if not q.has_batch_service || q.is_flushing || (length q.queued == 0) || is_collecting q
    then q
    else record q { is_flushing = true; queued = []; dispatched = q.dispatched ++ q.queued ∷ [] }

-- Its `finally` block.
unfoldable pub finish_flush : Queue → Queue
unfolding schedule_flush
finish_flush q =
    if ltb 0 (length q.queued) && not (is_collecting q)
    then schedule_flush (record q { is_flushing = false })
    else record q { is_flushing = false }

unfoldable pub flush_now : Queue → Queue
unfolding flush_queued
flush_now q = flush_queued (record q { flush_timer = false })

unfoldable pub begin_collection : Queue → Queue
begin_collection q = record q { collection_depth = q.collection_depth + 1; flush_timer = false }

unfoldable pub end_collection : Queue → Queue
unfolding flush_now
end_collection q =
    if q.collection_depth == 0
    then q
    else if q.collection_depth - 1 == 0
    then flush_now (record q { collection_depth = q.collection_depth - 1 })
    else record q { collection_depth = q.collection_depth - 1 }

unfoldable pub begin_suppression : Queue → Queue
begin_suppression q = record q { suppression_depth = q.suppression_depth + 1 }

unfoldable pub end_suppression : Queue → Queue
end_suppression q =
    if q.suppression_depth == 0 then q else record q { suppression_depth = q.suppression_depth - 1 }

-- What can happen to the queue. The timer fires only when it is set, and a flush ends only after it
-- began.
pub data Call : Type 0 where
  dispatches : DispatchInput → Call
  begins_collection ends_collection begins_suppression ends_suppression : Call
  flushes_now timer_fires flush_ends : Call

unfoldable pub handle : Queue → Call → Queue
unfolding dispatch_change_notification begin_collection end_collection begin_suppression
    end_suppression flush_now flush_queued finish_flush
handle q (dispatches input) = dispatch_change_notification q input
handle q begins_collection = begin_collection q
handle q ends_collection = end_collection q
handle q begins_suppression = begin_suppression q
handle q ends_suppression = end_suppression q
handle q flushes_now = flush_now q
handle q timer_fires = if q.flush_timer then flush_queued (record q { flush_timer = false }) else q
handle q flush_ends = if q.is_flushing then finish_flush q else q

unfoldable pub handle_all : Queue → List Call → Queue
unfolding handle
handle_all q [] = q
handle_all q (c ∷ cs) = handle_all (handle q c) cs

-- The queue of a new service.
abbrev pub change_tracking_service : Queue
change_tracking_service = record {
  has_batch_service = true;
  queued = [];
  flush_timer = false;
  is_flushing = false;
  collection_depth = 0;
  suppression_depth = 0;
  dispatched = [];
}
