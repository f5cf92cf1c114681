-- ===== src/Notification/Summary.antt =====
-- What `processNotificationBatch` and `processChangeNotificationBatch` of
-- src/modules/notification/notification-batch.service.ts do with the rows of a batch once they are
-- there: the sums go to the metadata of the batch's record. The printing of a number is a parameter.
-- A row without data makes the sums throw, and the error is only logged; `none` stands for it.
pub mod Metadata
use law_cast_backend.Base.{ℕ, ◌+◌, List, [], ◌∷◌, Option, none, some, Bool, String}
use law_cast_backend.Promises.{Result, ok, err}
use law_cast_backend.Change.Notify.{ChangeNotificationPayload}
use law_cast_backend.Batch.Jobs.{Error, Job, BatchJobResult}
use law_cast_backend.Batch.Service.{Service, BatchProcessingOptions, update_recent_job_metadata}
use law_cast_backend.Notification.Plan.{
  Message, NotificationJobResult, execute_notification_batch, execute_change_notification_batch,
}

pub record Sums : Type 0 where
  pub total_webhooks : ℕ
  pub deactivated : ℕ
  pub temporary_failures : ℕ
  pub total_push_subscriptions : ℕ
  pub web_push_success_count : ℕ
  pub web_push_dispatch_failures : ℕ
  pub web_push_deactivated : ℕ

abbrev pub no_sums : Sums
no_sums = record {
  total_webhooks = 0;
  deactivated = 0;
  temporary_failures = 0;
  total_push_subscriptions = 0;
  web_push_success_count = 0;
  web_push_dispatch_failures = 0;
  web_push_deactivated = 0;
}

module _ {N : Type 0} where
  abbrev pub with_row : NotificationJobResult N → Sums → Sums
  with_row d s = record {
    total_webhooks = d.total_webhooks + s.total_webhooks;
    deactivated = d.deactivated + s.deactivated;
    temporary_failures = d.temporary_failures + s.temporary_failures;
    total_push_subscriptions = d.total_push_subscriptions + s.total_push_subscriptions;
    web_push_success_count = d.web_push_success_count + s.web_push_success_count;
    web_push_dispatch_failures = d.web_push_failed_count + s.web_push_dispatch_failures;
    web_push_deactivated = d.web_push_deactivated_count + s.web_push_deactivated;
  }

  -- The seven calls of `reduce`, each of which reads `r.data`.
  unfoldable pub summarize : List (BatchJobResult (NotificationJobResult N)) → Option Sums
  summarize [] = some no_sums
  summarize (r ∷ rows) = elim r.result [
    | none ↦ none
    | some d ↦ elim (summarize rows) [ none ↦ none | some s ↦ some (with_row d s) ]
  ]

abbrev pub entries : (ℕ → String) → Sums → List (String × String)
entries show s =
    ("totalWebhooks", show s.total_webhooks)
    ∷ ("deactivated", show s.deactivated)
    ∷ ("temporaryFailures", show s.temporary_failures)
    ∷ ("totalPushSubscriptions", show s.total_push_subscriptions)
    ∷ ("webPushSuccessCount", show s.web_push_success_count)
    ∷ ("webPushDispatchFailures", show s.web_push_dispatch_failures)
    ∷ ("webPushDeactivated", show s.web_push_deactivated)
    ∷ []

module _ {N : Type 0} (show : ℕ → String) (id : String) where
  -- The `then` of the batch's promise, and the `catch` after it.
  unfoldable pub after_batch :
      Service → Result Error (List (BatchJobResult (NotificationJobResult N))) → Service
  unfolding summarize
  after_batch s (err e) = s
  after_batch s (ok rows) = elim (summarize rows) [
    | none ↦ s
    | some sums ↦ update_recent_job_metadata s id (entries show sums)
  ]

  module _ (settles : Message N → Job (NotificationJobResult N)) (load_fails : Bool) where
    -- The whole of the work, to the end of the promise; `none` means that it never settles.
    unfoldable pub process_notification_batch :
        Service → List N → BatchProcessingOptions → ℕ → Option Service
    unfolding execute_notification_batch after_batch
    process_notification_batch s notices options now =
        elim (execute_notification_batch settles load_fails s notices options id now) [
          | none ↦ none
          | some (s', rows) ↦ some (after_batch s' rows)
        ]

    unfoldable pub process_change_notification_batch :
        Service → List ChangeNotificationPayload → BatchProcessingOptions → ℕ → Option Service
    unfolding execute_change_notification_batch after_batch
    process_change_notification_batch s payloads options now =
        elim (execute_change_notification_batch settles load_fails s payloads options id now) [
          | none ↦ none
          | some (s', rows) ↦ some (after_batch s' rows)
        ]
