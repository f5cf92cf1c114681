-- ===== src/Errors/Kinds.antt =====
-- The four tests with which `appendChangeEventWithDetailsCore` of
-- src/modules/change-tracking/change-tracking.service.ts tells the errors of a transaction apart.
use law_cast_backend.Base.{List, [], ◌∷◌, Option, none, some, Bool, ◌&&◌, ◌||◌, any, map, String}
use law_cast_backend.Change.Text.{Text, codes, text_eq}
use law_cast_backend.Change.Event.{lower}
use law_cast_backend.Errors.{
  RawError, ErrorFields, includes, lower_field, is_unique_constraint_conflict_error,
}

abbrev pub height_targets : List Text
height_targets = map codes (
    "idx_notice_change_events_notice_num_event_height_unique"
    ∷ "notice_change_events.notice_num, notice_change_events.event_height"
    ∷ "notice_num_event_height" ∷ [])

abbrev pub hash_targets : List Text
hash_targets = map codes (
    "idx_notice_change_events_event_hash_unique" ∷ "notice_change_events.event_hash" ∷ "event_hash"
    ∷ [])

unfoldable pub is_event_height_conflict_error : RawError → Bool
unfolding is_unique_constraint_conflict_error
is_event_height_conflict_error error = is_unique_constraint_conflict_error error height_targets

unfoldable pub is_event_hash_conflict_error : RawError → Bool
unfolding is_unique_constraint_conflict_error
is_event_hash_conflict_error error = is_unique_constraint_conflict_error error hash_targets

abbrev driver_field : (ErrorFields → Option Text) → RawError → Text
driver_field field error = elim error.driver_error [
  | none ↦ lower_field none
  | some d ↦ lower_field (field d)
]

abbrev says : String → Text → Bool
says words message = includes (codes words) message

unfoldable pub is_sqlite_transaction_start_conflict_error : RawError → Bool
unfolding includes lower text_eq
is_sqlite_transaction_start_conflict_error error =
    let message = lower_field error.fields.message in
    let code = lower_field error.fields.code in
    let driver_message = driver_field (λ d. d.message) error in
    let driver_code = driver_field (λ d. d.code) error in
    let target_message : String = "cannot start a transaction within a transaction" in
    says target_message message
    || says target_message driver_message
    || (text_eq code (codes "sqlite_error") && says "begin transaction" message)
    || (text_eq driver_code (codes "sqlite_error")
        && (says "begin transaction" driver_message || says target_message driver_message))

abbrev state_targets : List Text
state_targets = map codes (
    "transaction is not started yet" ∷ "start transaction before committing or rolling it back"
    ∷ "cannot commit - no transaction is active" ∷ "no such savepoint" ∷ "release savepoint"
    ∷ "cannot rollback - no transaction is active" ∷ [])

-- The words of a failed end of a transaction.
abbrev ends_transaction : Text → Bool
ends_transaction message =
    says "commit" message
    || says "savepoint" message
    || says "rollback" message
    || says "transaction is not started yet" message

unfoldable pub is_sqlite_transaction_state_conflict_error : RawError → Bool
unfolding includes lower text_eq
is_sqlite_transaction_state_conflict_error error =
    let message = lower_field error.fields.message in
    let code = lower_field error.fields.code in
    let driver_message = driver_field (λ d. d.message) error in
    let driver_code = driver_field (λ d. d.code) error in
    any (λ target. includes target message || includes target driver_message) state_targets
    || (text_eq code (codes "sqlite_error") && ends_transaction message)
    || (text_eq driver_code (codes "sqlite_error") && ends_transaction driver_message)
