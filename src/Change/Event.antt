-- ===== src/Change/Event.antt =====
-- The rows of the change chain (src/modules/change-tracking/notice-change-event.entity.ts and
-- notice-change-detail.entity.ts), and `buildDiffEvent` of change-tracking.service.ts. Dates are ISO
-- texts. The columns that no rule reads (crawlerRunId, createdAt, updatedAt) are left out.
use law_cast_backend.Base.{
  ℕ, ◌+◌, List, [], ◌∷◌, Option, none, some, Bool, true, false, ltb, leb, ◌&&◌, ◌||◌, if◌then◌else◌,
  length, String, str_eq,
}
use law_cast_backend.Change.Text.{Text, codes, text_eq, trim}
use law_cast_backend.Change.Value.{
  Value, undefined, null, number, text, array, object, Items, nil, cons, Fields, end, field,
  canonical_stringify,
}
use law_cast_backend.Change.Diff.{
  Source, archive_upsert, archive_is_done_sync, archive_renumbered, archive_source_missing,
  archive_update_source_html, archive_update_nsm_html_and_detail, bootstrap_legacy_seed, ChangeType,
  added, removed, modified, Detail, Diff, get_path_value, compute_diff,
}

pub data EventType : Type 0 where
  created updated invalidated : EventType

pub record Event : Type 0 where
  pub id : ℕ
  pub notice_num : ℕ
  pub detected_at : Text
  pub event_type : EventType
  pub source : Option Source
  pub event_height : ℕ
  pub prev_event_hash : Option Text
  pub event_hash : Text
  pub changed_field_count : ℕ
  pub diff_summary_json : Option Text
  pub hash_algo : Text
  pub canon_version : ℕ

pub record DetailRow : Type 0 where
  pub event_id : ℕ
  pub detail : Detail

-- `a === b` on event types and on sources.
unfoldable pub same_type : EventType → EventType → Bool
same_type created created = true
same_type updated updated = true
same_type invalidated invalidated = true
same_type _ _ = false

abbrev type_name : EventType → String
type_name created = "created"
type_name updated = "updated"
type_name invalidated = "invalidated"

abbrev pub source_name : Source → String
source_name archive_upsert = "archive:upsert"
source_name archive_is_done_sync = "archive:isDoneSync"
source_name archive_renumbered = "archive:renumbered"
source_name archive_source_missing = "archive:source-missing"
source_name archive_update_source_html = "archive:updateSourceHtml"
source_name archive_update_nsm_html_and_detail = "archive:updateNsmHtmlAndDetail"
source_name bootstrap_legacy_seed = "bootstrap:legacy-seed"

abbrev change_name : ChangeType → String
change_name added = "added"
change_name removed = "removed"
change_name modified = "modified"

unfoldable pub same_source : Option Source → Option Source → Bool
same_source none none = true
same_source none (some t) = false
same_source (some s) none = false
same_source (some s) (some t) = str_eq (source_name s) (source_name t)

unfoldable pub same_change : ChangeType → ChangeType → Bool
same_change added added = true
same_change removed removed = true
same_change modified modified = true
same_change _ _ = false

pub record BuildInput : Type 0 where
  pub notice_num : ℕ
  pub before_snapshot : Option Fields
  pub after_snapshot : Fields
  pub detected_at : Text
  pub source : Option Source
  pub tracked_fields : List String
  pub hash_algo : Text
  pub canon_version : ℕ
  pub preferred_event_type : Option EventType

pub record BuildOutput : Type 0 where
  pub should_append : Bool
  pub event_type : EventType
  pub diff : Diff
  pub event_hash : Text

-- `toLowerCase` on the letters that a lifecycle status is made of.
unfoldable pub lower : Text → Text
lower [] = []
lower (c ∷ s) = (if leb 65 c && leb c 90 then c + 32 else c) ∷ lower s

abbrev lifecycle_status : Value → Text
lifecycle_status (text s) = lower (trim s)
lifecycle_status _ = []

-- `String(value).trim().length > 0` for a value that is neither null nor undefined. No snapshot holds
-- an array here.
abbrev has_text : Value → Bool
has_text null = false
has_text undefined = false
has_text (text s) = ltb 0 (length (trim s))
has_text _ = true

unfoldable pub invalidates : Fields → Bool
unfolding lower trim get_path_value text_eq
invalidates snapshot =
    let status = lifecycle_status (get_path_value snapshot "lifecycleStatus") in
    text_eq status (codes "source_deleted")
    || text_eq status (codes "renumbered")
    || text_eq status (codes "invalidated")
    || has_text (get_path_value snapshot "sourceDeletedAt")

unfoldable pub resolve_event_type : Option Fields → Option EventType → Fields → EventType
unfolding invalidates
resolve_event_type none preferred after = created
resolve_event_type (some before) (some preferred) after = preferred
resolve_event_type (some before) none after = if invalidates after then invalidated else updated

abbrev nullable : Option Text → Value
nullable none = null
nullable (some s) = text s

abbrev detail_value : Detail → Value
detail_value d = object (
    field "fieldPath" (text (codes d.field_path)) (
      field "changeType" (text (codes (change_name d.change_type))) (
        field "beforeValue" (nullable d.before_value) (
          field "afterValue" (nullable d.after_value) (
            field "beforeHash" (nullable d.before_hash)
              (field "afterHash" (nullable d.after_hash) end))))))

abbrev detail_values : List Detail → Items
detail_values [] = nil
detail_values (d ∷ ds) = cons (detail_value d) (detail_values ds)

abbrev source_value : Option Source → Value
source_value none = null
source_value (some s) = text (codes (source_name s))

abbrev snapshot_value : Option Fields → Value
snapshot_value none = null
snapshot_value (some fs) = object fs

-- What is hashed: not the height of the event, nor the hash of the one before it.
abbrev pub hash_payload : BuildInput → EventType → Diff → Value
hash_payload input event_type diff = object (
    field "noticeNum" (number input.notice_num) (
      field "detectedAt" (text input.detected_at) (
        field "eventType" (text (codes (type_name event_type))) (
          field "source" (source_value input.source) (
            field "hashAlgo" (text input.hash_algo) (
              field "canonVersion" (number input.canon_version) (
                field "before" (snapshot_value diff.normalized_before) (
                  field "after" (object diff.normalized_after)
                    (field "details" (array (detail_values diff.details)) end)))))))))

abbrev is_created : EventType → Bool
is_created created = true
is_created _ = false

unfoldable pub build_diff_event : (Text → Text) → BuildInput → BuildOutput
unfolding compute_diff resolve_event_type canonical_stringify
build_diff_event sha256_hex input =
    let diff =
      compute_diff sha256_hex input.before_snapshot input.after_snapshot input.tracked_fields
        input.canon_version in
    let event_type =
      resolve_event_type input.before_snapshot input.preferred_event_type input.after_snapshot in
    record {
      should_append = is_created event_type || diff.changed;
      event_type = event_type;
      diff = diff;
      event_hash = sha256_hex (canonical_stringify (hash_payload input event_type diff));
    }
