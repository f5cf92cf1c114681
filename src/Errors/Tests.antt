-- ===== src/Errors/Tests.antt =====
-- Runs of src/utils/db-error.utils.ts and of the service's tests at errors that databases report.
use law_cast_backend.Base.{◌≡◌, ◌↔◌, refl, none, some, true, false, String}
use law_cast_backend.Change.Text.{codes, is_space}
use law_cast_backend.Errors.{
  RawError, ErrorFields, RawErrno, absent, digits, parse_errno, default_retryable_codes,
  is_unique_constraint_conflict_error, is_retryable_network_or_system_error,
}
use law_cast_backend.Errors.Kinds.{
  height_targets, is_event_height_conflict_error, is_event_hash_conflict_error,
  is_sqlite_transaction_start_conflict_error, is_sqlite_transaction_state_conflict_error,
}
use law_cast_backend.Errors.Reports.{is_unique_constraint_conflict_error_iff, IsAnyConflict}

abbrev reported : String → String → RawErrno → ErrorFields
reported code message errno = record {
  code = some (codes code);
  constraint = none;
  message = some (codes message);
  detail = none;
  errno = errno;
}

abbrev no_code : ErrorFields
no_code = record { code = none; constraint = none; message = none; detail = none; errno = absent }

-- The second event of a height, as SQLite's driver reports it.
abbrev height_error : RawError
height_error = record {
  fields = no_code;
  driver_error = some (
      reported "SQLITE_CONSTRAINT"
        "UNIQUE constraint failed: notice_change_events.notice_num, notice_change_events.event_height"
        absent);
}

-- A hash that stands in the table already, as MySQL reports it, the number given as a text.
abbrev hash_error : RawError
hash_error = record {
  fields = reported "" "Duplicate entry for key 'event_hash'" (digits (codes " 1062"));
  driver_error = none;
}

abbrev nested : RawError
nested = record {
  fields = reported "SQLITE_ERROR" "Cannot start a transaction within a transaction" absent;
  driver_error = none;
}

abbrev rolled_back : RawError
rolled_back = record {
  fields = reported "SQLITE_ERROR" "cannot ROLLBACK" absent;
  driver_error = none;
}

height_run : is_event_height_conflict_error height_error ≡ true
unfolding is_event_height_conflict_error
height_run = refl

height_is_no_hash : is_event_hash_conflict_error height_error ≡ false
unfolding is_event_hash_conflict_error
height_is_no_hash = refl

hash_run : is_event_hash_conflict_error hash_error ≡ true
unfolding is_event_hash_conflict_error is_space
hash_run = refl

hash_is_no_height : is_event_height_conflict_error hash_error ≡ false
unfolding is_event_height_conflict_error
hash_is_no_height = refl

start_run : is_sqlite_transaction_start_conflict_error nested ≡ true
unfolding is_sqlite_transaction_start_conflict_error
start_run = refl

state_run : is_sqlite_transaction_state_conflict_error rolled_back ≡ true
unfolding is_sqlite_transaction_state_conflict_error
state_run = refl

state_is_no_start : is_sqlite_transaction_start_conflict_error rolled_back ≡ false
unfolding is_sqlite_transaction_start_conflict_error
state_is_no_start = refl

parse_run : parse_errno (codes " -12ab") ≡ some (record { negative = true; size = 12 })
unfolding parse_errno is_space
parse_run = refl

no_digits : parse_errno (codes "x1") ≡ none
unfolding parse_errno is_space
no_digits = refl

retryable_run :
    is_retryable_network_or_system_error true
      (reported "" "connect etimedout" absent)
      default_retryable_codes
    ≡ true
unfolding is_retryable_network_or_system_error
retryable_run = refl

is_unique_constraint_conflict_error_iff_example :
    (is_unique_constraint_conflict_error height_error height_targets ≡ true)
    ↔ IsAnyConflict height_targets height_error
is_unique_constraint_conflict_error_iff_example =
    is_unique_constraint_conflict_error_iff height_error height_targets
