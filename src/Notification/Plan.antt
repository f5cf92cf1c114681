-- ===== src/Notification/Plan.antt =====
-- The jobs of `executeNotificationBatch` and `executeChangeNotificationBatch` of
-- src/modules/notification/notification-batch.service.ts. A job is the message that it sends: one
-- notice, one change, or a digest. How its attempts settle is a parameter, as is the loading of the
-- webhooks. What a failed load of the push subscriptions leaves out is part of how a job settles.
pub mod Groups
use law_cast_backend.Base.{
  ℕ, zero, suc, ◌+◌, List, [], ◌∷◌, ◌++◌, Option, none, some, Bool, true, false, not, ltb, ◌==◌,
  ◌&&◌, if◌then◌else◌, keep, map, length, any, String, str_eq,
}
use law_cast_backend.Base.Filters.{has}
use law_cast_backend.Promises.{Result, ok, err}
use law_cast_backend.Change.Notify.{ChangeNotificationPayload}
use law_cast_backend.Batch.Jobs.{Error, Job, BatchJobResult}
use law_cast_backend.Batch.Service.{Service, BatchProcessingOptions, execute_batch}
use law_cast_backend.Notification.{WebhookDispatch, WebPushDispatchSummary}

pub data Kind : Type 0 where
  regular notice_period_ended nsm_to_pal_transition : Kind

pub data Message (N : Type 0) : Type 0 where
  notice : N → Message N
  notice_digest : List N → Message N
  change : Kind → ChangeNotificationPayload → Message N
  change_digest : Kind → List ChangeNotificationPayload → Message N

-- A job's row. The subject follows from the message.
pub record NotificationJobResult (N : Type 0) : Type 0 where
  pub message : Message N
  pub total_webhooks : ℕ
  pub total_push_subscriptions : ℕ
  pub success_count : ℕ
  pub failed_count : ℕ
  pub deactivated : ℕ
  pub temporary_failures : ℕ
  pub web_push_success_count : ℕ
  pub web_push_failed_count : ℕ
  pub web_push_deactivated_count : ℕ
  pub aggregated_event_count : Option ℕ
  pub aggregated_notice_count : Option ℕ

abbrev pub ends_period : ChangeNotificationPayload → Bool
ends_period p = any (λ f. str_eq f "isDone") p.changed_fields

abbrev pub is_transition : ChangeNotificationPayload → Bool
is_transition p = not (ends_period p) && p.is_nsm_to_pal_transition

abbrev pub is_regular : ChangeNotificationPayload → Bool
is_regular p = not (ends_period p) && not p.is_nsm_to_pal_transition

-- `new Set(nums).size`.
unfoldable pub unique_count : List ℕ → ℕ
unique_count [] = 0
unique_count (k ∷ ks) = let rest = unique_count ks in if has k ks then rest else suc rest

module _ {N : Type 0} where
  abbrev pub event_count : Message N → Option ℕ
  event_count (change_digest kind ps) = some (length ps)
  event_count _ = none

  abbrev pub notice_count : Message N → Option ℕ
  notice_count (notice_digest ns) = some (length ns)
  notice_count (change_digest kind ps) = some (unique_count (map (λ p. p.notice_num) ps))
  notice_count _ = none

  -- What a job returns, given the number of webhooks that the batch began with.
  unfoldable pub job_row :
      ℕ → Message N → WebhookDispatch → WebPushDispatchSummary → NotificationJobResult N
  unfolding unique_count
  job_row webhooks m d p = record {
    message = m;
    total_webhooks = webhooks;
    total_push_subscriptions = p.target_count;
    success_count = d.success_count;
    failed_count = d.failed_count;
    deactivated = d.deactivated;
    temporary_failures = d.temporary_failures;
    web_push_success_count = p.success_count;
    web_push_failed_count = p.failed_count;
    web_push_deactivated_count = p.deactivated_count;
    aggregated_event_count = event_count m;
    aggregated_notice_count = notice_count m;
  }

  unfoldable pub notification_jobs : List N → List (Message N)
  notification_jobs notices =
      if ltb 1 (length notices) then notice_digest notices ∷ [] else map notice notices

  -- A group of changes: no job, a job for its only change, or one for a digest.
  unfoldable pub group_jobs : Kind → List ChangeNotificationPayload → List (Message N)
  group_jobs kind [] = []
  group_jobs kind (p ∷ []) = change kind p ∷ []
  group_jobs kind (p ∷ q ∷ ps) = change_digest kind (p ∷ q ∷ ps) ∷ []

  unfoldable pub change_jobs : List ChangeNotificationPayload → List (Message N)
  unfolding group_jobs
  change_jobs payloads =
      group_jobs regular (keep is_regular payloads)
      ++ group_jobs notice_period_ended (keep ends_period payloads)
      ++ group_jobs nsm_to_pal_transition (keep is_transition payloads)

  module _ (settles : Message N → Job (NotificationJobResult N)) (load_fails : Bool) where
    -- `none` means that the call never returns.
    unfoldable pub execute_notification_batch :
        Service
        → List N
        → BatchProcessingOptions
        → String
        → ℕ
        → Option (Service × Result Error (List (BatchJobResult (NotificationJobResult N))))
    unfolding notification_jobs
    execute_notification_batch s notices options id now =
        if load_fails
        then some (s, ok [])
        else execute_batch s (map settles (notification_jobs notices)) options id now

    unfoldable pub execute_change_notification_batch :
        Service
        → List ChangeNotificationPayload
        → BatchProcessingOptions
        → String
        → ℕ
        → Option (Service × Result Error (List (BatchJobResult (NotificationJobResult N))))
    unfolding change_jobs
    execute_change_notification_batch s [] options id now = some (s, ok [])
    execute_change_notification_batch s (p ∷ ps) options id now =
        if load_fails
        then some (s, ok [])
        else execute_batch s (map settles (change_jobs (p ∷ ps))) options id now
