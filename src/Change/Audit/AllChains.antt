-- ===== src/Change/Audit/AllChains.antt =====
-- The audit of all chains and its report (src/modules/change-tracking/change-tracking-chain-audit.utils.ts).
use law_cast_backend.Base.{
  ℕ, ◌+◌, List, [], ◌∷◌, ◌++◌, Option, none, some, ltb, ◌==◌, if◌then◌else◌, length, map,
}
use law_cast_backend.Change.Text.{Text}
use law_cast_backend.Change.Value.{
  Value, null, number, text, object, array, Items, nil, cons, end, field, canonical_stringify,
}
use law_cast_backend.Change.Event.{Event}
use law_cast_backend.Change.Append.{Store}
use law_cast_backend.Change.Audit.{Issue, Report, verify_notice_chain}

-- The report without its time and its scope.
pub record AuditReport : Type 0 where
  pub notice_count : ℕ
  pub event_count : ℕ
  pub failure_count : ℕ
  pub checkpoint_root_hash : Text
  pub failures : List Issue

-- The distinct notice numbers in ascending order.
unfoldable pub put_notice : ℕ → List ℕ → List ℕ
put_notice n [] = n ∷ []
put_notice n (m ∷ ms) =
    if ltb n m then n ∷ m ∷ ms else if n == m then m ∷ ms else m ∷ put_notice n ms

unfoldable pub notices_of : List Event → List ℕ
unfolding put_notice
notices_of [] = []
notices_of (e ∷ es) = put_notice e.notice_num (notices_of es)

abbrev hash_value : Option Text → Value
hash_value none = null
hash_value (some h) = text h

abbrev report_values : List Report → Items
report_values [] = nil
report_values (r ∷ rs) =
    cons
      (object (
        field "noticeNum" (number r.notice_num) (
          field "eventCount" (number r.event_count) (
            field "latestEventHash" (hash_value r.latest_event_hash)
              (field "issueCount" (number (length r.issues)) end)))))
      (report_values rs)

unfoldable pub all_issues : List Report → List Issue
all_issues [] = []
all_issues (r ∷ rs) = r.issues ++ all_issues rs

unfoldable pub count_events : List Report → ℕ
count_events [] = 0
count_events (r ∷ rs) = r.event_count + count_events rs

module _ (sha256_hex : Text → Text) where
  unfoldable pub verify_all_chains : Store → List Report
  unfolding verify_notice_chain notices_of
  verify_all_chains s = map (verify_notice_chain sha256_hex s) (notices_of s.events)

  unfoldable pub compute_checkpoint_root_hash : List Report → Text
  unfolding canonical_stringify
  compute_checkpoint_root_hash reports =
      sha256_hex (canonical_stringify (array (report_values reports)))

  unfoldable pub run_scheduled_chain_audit_internal : Store → AuditReport
  unfolding verify_all_chains compute_checkpoint_root_hash all_issues count_events
  run_scheduled_chain_audit_internal s =
      let reports = verify_all_chains s in
      let failures = all_issues reports in
      record {
        notice_count = length reports;
        event_count = count_events reports;
        failure_count = length failures;
        checkpoint_root_hash = compute_checkpoint_root_hash reports;
        failures = failures;
      }
