-- ===== src/Change/Audit/Legacy.antt =====
-- Which wrong hashes of the first version the audit tolerates (src/modules/change-tracking/change-tracking-chain-audit.utils.ts).
use law_cast_backend.Base.{
  List, [], ◌∷◌, Option, none, some, Bool, true, false, ◌==◌, ◌&&◌, if◌then◌else◌, length, String,
  str_eq,
}
use law_cast_backend.Change.Text.{text_eq, same_text}
use law_cast_backend.Change.Diff.{Detail}
use law_cast_backend.Change.Event.{Event, BuildOutput, same_type, same_change}

-- `expectedByField.get(path)`: the last detail with the path.
unfoldable pub expected_by_field : String → List Detail → Option Detail
expected_by_field path [] = none
expected_by_field path (d ∷ ds) = elim (expected_by_field path ds) [
  | some later ↦ some later
  | none ↦ if str_eq d.field_path path then some d else none
]

abbrev agrees : Detail → Option Detail → Bool
agrees d none = false
agrees d (some e) =
    same_change d.change_type e.change_type
    && same_text d.before_value e.before_value
    && same_text d.after_value e.after_value
    && same_text d.before_hash e.before_hash
    && same_text d.after_hash e.after_hash

unfoldable pub all_agree : List Detail → List Detail → Bool
unfolding expected_by_field same_change text_eq
all_agree [] expected = true
all_agree (d ∷ ds) expected =
    agrees d (expected_by_field d.field_path expected) && all_agree ds expected

unfoldable pub is_legacy_canonical_hash_compatible : Event → BuildOutput → List Detail → Bool
unfolding all_agree same_type text_eq
is_legacy_canonical_hash_compatible event rebuilt details =
    same_type event.event_type rebuilt.event_type
    && (event.changed_field_count == rebuilt.diff.changed_field_count)
    && same_text event.diff_summary_json (some rebuilt.diff.diff_summary_json)
    && (length details == length rebuilt.diff.details)
    && all_agree details rebuilt.diff.details
