-- ===== src/Notification/Tests.antt =====
-- Runs of src/modules/notification at concrete inputs.
use law_cast_backend.Base.{
  ℕ, ◌+◌, ◌≤◌, ◌≡◌, refl, List, [], ◌∷◌, none, some, Bool, true, false, map, length, keep, arith,
  String, ◌==◌, if◌then◌else◌,
}
use law_cast_backend.Promises.{Result, ok, err}
use law_cast_backend.Change.Event.{updated}
use law_cast_backend.Change.Text.{codes}
use law_cast_backend.Change.Notify.{ChangeNotificationPayload}
use law_cast_backend.Batch.Jobs.{Error, Job, BatchJobResult, job_error}
use law_cast_backend.Batch.Service.{Service, BatchProcessingOptions, BatchRunRecord}
use law_cast_backend.Batch.Service.History.{RunReports}
use law_cast_backend.Webhooks.{Webhook}
use law_cast_backend.Notification.{
  NotificationResult, Receivers, WebhookDispatch, dispatch_to_webhooks, failed_ids,
  dispatch_to_web_push, count_results,
}
use law_cast_backend.Notification.Deactivation.{dispatch_to_webhooks_lem, switched_off, accepted}
use law_cast_backend.Notification.Plan.{
  regular, notice_period_ended, nsm_to_pal_transition, Message, notice, NotificationJobResult,
  change_jobs, is_regular, ends_period, is_transition, job_row, notification_jobs,
  execute_notification_batch,
}
use law_cast_backend.Notification.Plan.Groups.{all_told, change_jobs_lem}
use law_cast_backend.Notification.Summary.{process_notification_batch}
use law_cast_backend.Notification.Summary.Metadata.{summed, process_notification_batch_lem}

abbrev hook : ℕ → Bool → Webhook
hook id is_active = record {
  id = id;
  url = codes "https://discord.com/api";
  is_active = is_active;
  created_at = 0;
  updated_at = 0;
}

abbrev receivers : Receivers
receivers = record {
  webhooks = record { rows = hook 1 true ∷ hook 2 true ∷ hook 3 true ∷ []; next_id = 4 };
  permanent_failure_flags = 1 ∷ 2 ∷ [];
}

abbrev results : List NotificationResult
results =
    record { webhook_id = 1; success = false; should_delete = true }
    ∷ record { webhook_id = 2; success = false; should_delete = true }
    ∷ record { webhook_id = 3; success = false; should_delete = false }
    ∷ []

-- The database refuses the removal of webhook 2.
abbrev refuses : ℕ → Bool
refuses k = k == 2

dispatch_run :
    let s =
      (dispatch_to_webhooks {W = ℕ} {E = Error} refuses 9 receivers
        (1 ∷ 2 ∷ 3 ∷ [])
        (ok results)).0 in
    (map (λ r. r.is_active) s.webhooks.rows ≡ false ∷ true ∷ true ∷ [])
    × (s.permanent_failure_flags ≡ 2 ∷ [])
unfolding dispatch_to_webhooks
dispatch_run = (refl, refl)

dispatch_to_webhooks_lem_example :
    let sent : Result Error (List NotificationResult) = ok results in
    let (s', answer) = dispatch_to_webhooks {W = ℕ} refuses 9 receivers (1 ∷ 2 ∷ 3 ∷ []) sent in
    (c : WebhookDispatch) × (answer ≡ ok c)
    × (s'.webhooks.rows
        ≡ map (switched_off 9 (accepted refuses (failed_ids results))) receivers.webhooks.rows)
    × (c.success_count + c.deactivated + c.temporary_failures ≡ 3)
    × (c.failed_count ≡ c.deactivated + c.temporary_failures)
dispatch_to_webhooks_lem_example =
    dispatch_to_webhooks_lem refuses 9 receivers 1 (2 ∷ 3 ∷ []) results (refl, (refl, (refl, tt)))

abbrev payload : ℕ → List String → Bool → ChangeNotificationPayload
payload num fields moved = record {
  notice_num = num;
  subject = codes "Act";
  event_type = updated;
  source = none;
  changed_fields = fields;
  event_hash = [];
  event_height = 2;
  event_id = num;
  detected_at = [];
  is_nsm_to_pal_transition = moved;
}

abbrev payloads : List ChangeNotificationPayload
payloads =
    payload 1 ("subject" ∷ []) false
    ∷ payload 2 ("contentId" ∷ []) true
    ∷ payload 3 ("isDone" ∷ []) true
    ∷ payload 4 ("committee" ∷ []) false
    ∷ []

jobs_run : length (change_jobs {N = ℕ} payloads) ≡ 3
unfolding change_jobs
jobs_run = refl

change_jobs_lem_example :
    let jobs = change_jobs {N = ℕ} payloads in
    (length jobs ≤ 3)
    × (all_told ℕ regular jobs ≡ keep is_regular payloads)
    × (all_told ℕ notice_period_ended jobs ≡ keep ends_period payloads)
    × (all_told ℕ nsm_to_pal_transition jobs ≡ keep is_transition payloads)
    × (length (keep is_regular payloads)
          + length (keep ends_period payloads)
          + length (keep is_transition payloads)
        ≡ 4)
change_jobs_lem_example = change_jobs_lem ℕ payloads

-- Every attempt sends to nobody, and the notice 7 fails, after 5 milliseconds.
abbrev outcome : Message ℕ → Result Error (NotificationJobResult ℕ)
outcome (notice n) =
    if n == 7
    then err (job_error "down")
    else ok (
        job_row 3 (notice n) (count_results results)
          (dispatch_to_web_push {S = ℕ} {E = Error} [] (err (job_error "unused"))))
outcome m = err (job_error "unused")

abbrev settles : Message ℕ → Job (NotificationJobResult ℕ)
settles m attempt = some (record { after = 5; outcome = outcome m })

abbrev idle : Service
idle = record {
  job_queue = [];
  timers = record { active = []; next = 0 };
  is_shutting_down = false;
  recent_job_history = [];
}

abbrev defaults : BatchProcessingOptions
defaults = record {
  concurrency = none;
  timeout = none;
  retry_count = none;
  retry_delay = none;
  batch_size = none;
  metadata = [];
}

abbrev plain : ℕ → String
plain k = "n"

process_notification_batch_lem_example :
    (s' : Service) × (rows : List (BatchJobResult (NotificationJobResult ℕ))) × (r : BatchRunRecord)
    × (rest : List BatchRunRecord) × (final : Service) × (process_notification_batch plain "b1"
          settles false idle
          (7 ∷ [])
          defaults
          0
        ≡ some final)
    × (final.recent_job_history ≡ summed plain r rows ∷ rest)
    × RunReports (map settles (notification_jobs {N = ℕ} (7 ∷ []))) defaults rows
    × (s'.recent_job_history ≡ r ∷ rest)
    × (r.id ≡ "b1")
    × (r.success_count + r.failed_count ≡ length (notification_jobs {N = ℕ} (7 ∷ [])))
    × (execute_notification_batch settles false idle (7 ∷ []) defaults "b1" 0 ≡ some (s', ok rows))
process_notification_batch_lem_example =
    process_notification_batch_lem plain settles idle (7 ∷ []) defaults "b1" 0 refl tt (omega arith)
      refl
