-- ===== src/Notification.antt =====
-- Sending to webhooks and to web push subscriptions, in src/modules/notification. Here:
-- `dispatchToWebhooks` and `dispatchToWebPush` of notification-batch.service.ts, over the table of
-- webhooks and the flags of notification.service.ts. What a send answers is a parameter, and so is
-- which removals the database refuses; `now` is the time of the clock. Logs are left out.
pub mod Deactivation
pub mod Plan
pub mod Summary
mod Tests
use law_cast_backend.Base.{
  ℕ, zero, suc, ◌+◌, List, [], ◌∷◌, Option, none, some, Bool, true, false, not, ◌==◌, ◌&&◌,
  if◌then◌else◌, keep, map, length, String,
}
use law_cast_backend.Promises.{Result, ok, err}
use law_cast_backend.Webhooks.{Table, HttpError, remove}

pub record NotificationResult : Type 0 where
  pub webhook_id : ℕ
  pub success : Bool
  pub should_delete : Bool

-- The table of webhooks and the ids with a flag for a permanent failure.
pub record Receivers : Type 0 where
  pub webhooks : Table
  pub permanent_failure_flags : List ℕ

pub record WebhookDispatch : Type 0 where
  pub success_count : ℕ
  pub failed_count : ℕ
  pub deactivated : ℕ
  pub temporary_failures : ℕ

pub record WebPushDispatchSummary : Type 0 where
  pub target_count : ℕ
  pub success_count : ℕ
  pub failed_count : ℕ
  pub deactivated_count : ℕ

abbrev pub permanent_failures : List NotificationResult → List NotificationResult
permanent_failures results = keep (λ r. not r.success && r.should_delete) results

abbrev pub temporary_failures_of : List NotificationResult → List NotificationResult
temporary_failures_of results = keep (λ r. not r.success && not r.should_delete) results

abbrev pub failed_ids : List NotificationResult → List ℕ
failed_ids results = map (λ r. r.webhook_id) (permanent_failures results)

-- One round of the loop over the permanent failures: an error of `remove` is logged, and leaves the
-- flag.
unfoldable pub deactivate : (ℕ → Bool) → ℕ → Receivers → ℕ → Receivers
unfolding remove
deactivate refuses now s id = if refuses id then s else elim (remove s.webhooks id now) [
  | err e ↦ s
  | ok t ↦ record {
    webhooks = t;
    permanent_failure_flags = keep (λ k. not (k == id)) s.permanent_failure_flags;
  }
]

unfoldable pub deactivate_each : (ℕ → Bool) → ℕ → Receivers → List ℕ → Receivers
unfolding deactivate
deactivate_each refuses now s [] = s
deactivate_each refuses now s (id ∷ ids) =
    deactivate_each refuses now (deactivate refuses now s id) ids

-- What is counted of the results.
unfoldable pub count_results : List NotificationResult → WebhookDispatch
count_results results = record {
  success_count = length (keep (λ r. r.success) results);
  failed_count = length (permanent_failures results) + length (temporary_failures_of results);
  deactivated = length (permanent_failures results);
  temporary_failures = length (temporary_failures_of results);
}

-- `webhooks` are the active webhooks that the batch began with; an error of the send goes on to the
-- job.
unfoldable pub dispatch_to_webhooks :
    {W E : Type 0}
    → (ℕ → Bool)
    → ℕ
    → Receivers
    → List W
    → Result E (List NotificationResult)
    → Receivers × Result E WebhookDispatch
unfolding deactivate_each count_results
dispatch_to_webhooks refuses now s [] sent = (
  s,
  ok (record { success_count = 0; failed_count = 0; deactivated = 0; temporary_failures = 0 }),
)
dispatch_to_webhooks refuses now s (w ∷ ws) (err e) = (s, err e)
dispatch_to_webhooks refuses now s (w ∷ ws) (ok results) =
    (deactivate_each refuses now s (failed_ids results), ok (count_results results))

-- An error of the send counts as a failure of every subscription.
unfoldable pub dispatch_to_web_push :
    {S E : Type 0} → List S → Result E WebPushDispatchSummary → WebPushDispatchSummary
dispatch_to_web_push [] sent = record {
  target_count = 0;
  success_count = 0;
  failed_count = 0;
  deactivated_count = 0;
}
dispatch_to_web_push (s ∷ ss) (ok summary) = summary
dispatch_to_web_push (s ∷ ss) (err e) = record {
  target_count = length (s ∷ ss);
  success_count = 0;
  failed_count = length (s ∷ ss);
  deactivated_count = 0;
}
