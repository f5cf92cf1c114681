-- ===== src/Change/Diff.antt =====
-- `computeDiff` and the tracked fields of src/modules/change-tracking/change-tracking-diff.utils.ts.
-- The hash is a parameter: Node's `createHash('sha256')`.
pub mod Canonical
pub mod Tracked
use law_cast_backend.Base.{
  ℕ, zero, suc, ◌+◌, List, [], ◌∷◌, ◌++◌, Option, none, some, Bool, true, false, not, ltb, leb,
  ◌==◌, ◌&&◌, ◌||◌, if◌then◌else◌, length, map, String, str_eq,
}
use law_cast_backend.Change.Text.{
  Text, codes, same_text, normalize_string, canonicalize_proposal_reason,
  canonicalize_proposal_reason_for_comparison,
}
use law_cast_backend.Change.Value.{
  Value, undefined, null, not_finite, bool, number, text, date, array, object, Items, nil, cons,
  Fields, end, field, normalize_fields, stringify, canonical_stringify,
}

pub data Source : Type 0 where
  archive_upsert archive_is_done_sync archive_renumbered archive_source_missing : Source
  archive_update_source_html archive_update_nsm_html_and_detail bootstrap_legacy_seed : Source

pub data ChangeType : Type 0 where
  added removed modified : ChangeType

pub record Detail : Type 0 where
  pub field_path : String
  pub change_type : ChangeType
  pub before_value : Option Text
  pub after_value : Option Text
  pub before_hash : Option Text
  pub after_hash : Option Text

pub record Diff : Type 0 where
  pub changed : Bool
  pub changed_field_count : ℕ
  pub details : List Detail
  pub normalized_before : Option Fields
  pub normalized_after : Fields
  pub diff_summary_json : Text

abbrev pub current_canon_version : ℕ
current_canon_version = 2

-- What follows `num` in both lists of tracked fields.
abbrev pub common_fields : List String
common_fields =
    "subject" ∷ "proposerCategory" ∷ "committee" ∷ "proposalReason" ∷ "billNumber" ∷ "proposer"
    ∷ "proposalDate" ∷ "contentCommittee" ∷ "referralDate" ∷ "noticePeriod" ∷ "proposalSession"
    ∷ "isDone" ∷ "lifecycleStatus" ∷ "sourceDeletedAt" ∷ []

abbrev pub legacy_tracked_fields_v1 : List String
legacy_tracked_fields_v1 = "num" ∷ common_fields

abbrev pub default_tracked_fields : List String
default_tracked_fields = "num" ∷ "contentId" ∷ common_fields

unfoldable pub get_tracked_fields_for_canon_version : ℕ → List String
get_tracked_fields_for_canon_version canon_version =
    if leb canon_version 1 then legacy_tracked_fields_v1 else default_tracked_fields

abbrev pub is_archive_upsert : Option Source → Bool
is_archive_upsert (some archive_upsert) = true
is_archive_upsert _ = false

unfoldable pub get_tracked_fields_for_change_event : Option Source → ℕ → Bool → List String
unfolding get_tracked_fields_for_canon_version
get_tracked_fields_for_change_event source canon_version pre_versioned =
    if pre_versioned && is_archive_upsert source && leb canon_version 1
    then default_tracked_fields
    else get_tracked_fields_for_canon_version canon_version

-- `source[path] ?? null` for a path without a dot, as all the tracked ones are: the value of the
-- property, and null for one that is missing or undefined.
unfoldable pub get_path_value : Fields → String → Value
get_path_value end path = null
get_path_value (field k undefined fs) path = if str_eq k path then null else get_path_value fs path
get_path_value (field k v fs) path = if str_eq k path then v else get_path_value fs path

unfoldable pub normalize_tracked_string : String → Text → Text
unfolding canonicalize_proposal_reason normalize_string
normalize_tracked_string path input =
    if str_eq path "proposalReason"
    then elim (canonicalize_proposal_reason (some input)) [ none ↦ [] | some s ↦ s ]
    else normalize_string input

unfoldable pub to_comparable_string : Value → String → Option Text
unfolding normalize_tracked_string canonical_stringify
to_comparable_string null path = none
to_comparable_string undefined path = none
to_comparable_string (text s) path = some (normalize_tracked_string path s)
to_comparable_string v path = some (canonical_stringify v)

-- Whether a field counts as unchanged.
unfoldable pub values_match : ℕ → String → Option Text → Option Text → Bool
unfolding canonicalize_proposal_reason_for_comparison
values_match canon_version path before after =
    if leb 2 canon_version && str_eq path "proposalReason"
    then same_text (canonicalize_proposal_reason_for_comparison before)
        (canonicalize_proposal_reason_for_comparison after)
    else same_text before after

unfoldable pub change_type_of : Option Text → Option Text → ChangeType
change_type_of none (some after) = added
change_type_of (some before) none = removed
change_type_of none none = modified
change_type_of (some before) (some after) = modified

abbrev names : List String → Items
names [] = nil
names (f ∷ fs) = cons (text (codes f)) (names fs)

module _ (sha256_hex : Text → Text) where
  abbrev pub hash_comparable : Option Text → Option Text
  hash_comparable none = none
  hash_comparable (some s) = some (sha256_hex s)

  abbrev pub detail_of : String → Option Text → Option Text → Detail
  detail_of path before after = record {
    field_path = path;
    change_type = change_type_of before after;
    before_value = before;
    after_value = after;
    before_hash = hash_comparable before;
    after_hash = hash_comparable after;
  }

  -- The comparable value of a field before and after.
  abbrev pub before_value_of : Option Fields → String → Option Text
  before_value_of none path = to_comparable_string null path
  before_value_of (some before) path = to_comparable_string (get_path_value before path) path

  abbrev pub after_value_of : Fields → String → Option Text
  after_value_of after path = to_comparable_string (get_path_value after path) path

  -- The loop over the tracked fields.
  unfoldable pub diff_details : Option Fields → Fields → List String → ℕ → List Detail
  unfolding values_match change_type_of to_comparable_string get_path_value
  diff_details before after [] canon_version = []
  diff_details before after (path ∷ paths) canon_version =
      let b = before_value_of before path in
      let a = after_value_of after path in
      let rest = diff_details before after paths canon_version in
      if values_match canon_version path b a then rest else detail_of path b a ∷ rest

  abbrev pub summary_json : List Detail → Text
  summary_json details = stringify (
      object (
        field "changedFields" (array (names (map (λ d. d.field_path) details)))
          (field "total" (number (length details)) end)))

  unfoldable pub compute_diff : Option Fields → Fields → List String → ℕ → Diff
  unfolding diff_details normalize_fields stringify
  compute_diff before after tracked_fields canon_version =
      let details = diff_details before after tracked_fields canon_version in
      record {
        changed = ltb 0 (length details);
        changed_field_count = length details;
        details = details;
        normalized_before = elim before [ none ↦ none | some fs ↦ some (normalize_fields fs) ];
        normalized_after = normalize_fields after;
        diff_summary_json = summary_json details;
      }
