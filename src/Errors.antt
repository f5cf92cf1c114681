-- ===== src/Errors.antt =====
-- src/utils/db-error.utils.ts: what a database's error says, and which errors are conflicts of a
-- unique index or worth another try. An error is what its readers read: its fields and those of its
-- `driverError`. A value that is missing (no error at all included) has no field.
pub mod Kinds
pub mod Reports
mod Tests
use mathlib.Core.Option
use law_cast_backend.Base.{
  ℕ, ◌+◌, ◌-◌, ◌*◌, List, [], ◌∷◌, ◌++◌, Option, none, some, Bool, true, false, ltb, leb, ◌==◌,
  ◌&&◌, ◌||◌, if◌then◌else◌, any, map, length,
}
use law_cast_backend.Change.Text.{Text, codes, text_eq, trim_start, starts_with}
use law_cast_backend.Change.Event.{lower}

-- `toUpperCase` on the letters of codes and messages that matter here.
unfoldable pub upper : Text → Text
upper [] = []
upper (c ∷ s) = (if leb 97 c && leb c 122 then c - 32 else c) ∷ upper s

-- `s.includes(t)`, the part sought first.
unfoldable pub includes : Text → Text → Bool
unfolding starts_with
includes t [] = starts_with t []
includes t (c ∷ s) = starts_with t (c ∷ s) || includes t s

-- A whole number with its sign.
pub record Errno : Type 0 where
  pub negative : Bool
  pub size : ℕ

-- The field `errno`: missing or of another type, a number, or a text.
pub data RawErrno : Type 0 where
  absent : RawErrno
  number : Errno → RawErrno
  digits : Text → RawErrno

pub record ErrorFields : Type 0 where
  pub code : Option Text
  pub constraint : Option Text
  pub message : Option Text
  pub detail : Option Text
  pub errno : RawErrno

pub record RawError : Type 0 where
  pub fields : ErrorFields
  pub driver_error : Option ErrorFields

pub record DbErrorMeta : Type 0 where
  pub code : Text
  pub constraint : Text
  pub message : Text
  pub detail : Text
  pub errno : Option Errno

-- The decimal digits that a text starts with, after the number so far.
unfoldable pub read_decimal : Option ℕ → Text → Option ℕ
read_decimal so_far [] = so_far
read_decimal so_far (c ∷ s) =
    let rest = read_decimal (some (Option.get_or so_far 0 * 10 + (c - 48))) s in
    if leb 48 c && leb c 57 then rest else so_far

abbrev pub signed : Bool → Option ℕ → Option Errno
signed negative none = none
signed negative (some n) = some (record { negative = negative; size = n })

-- `Number.parseInt(text, 10)`, nothing for `NaN`.
unfoldable pub parse_errno : Text → Option Errno
unfolding trim_start read_decimal
parse_errno t = elim (trim_start t) [
  | [] ↦ none
  | ◌∷◌ c s ↦
      if c == 45
      then signed true (read_decimal none s)
      else signed false (read_decimal none (if c == 43 then s else c ∷ s))
]

unfoldable pub get_db_error_candidates : RawError → List ErrorFields
get_db_error_candidates error =
    error.fields ∷ elim error.driver_error [ none ↦ [] | some d ↦ d ∷ [] ]

abbrev pub errno_of : RawErrno → Option Errno
errno_of absent = none
errno_of (number n) = some n
errno_of (digits t) = parse_errno t

-- `String(field ?? '').toLowerCase()`
abbrev pub lower_field : Option Text → Text
lower_field field = lower (Option.get_or field [])

unfoldable pub extract_db_error_meta : ErrorFields → DbErrorMeta
unfolding lower parse_errno
extract_db_error_meta obj = record {
  code = lower_field obj.code;
  constraint = lower_field obj.constraint;
  message = lower_field obj.message;
  detail = lower_field obj.detail;
  errno = errno_of obj.errno;
}

abbrev pub is_dup_entry : Option Errno → Bool
is_dup_entry none = false
is_dup_entry (some n) = if n.negative then false else n.size == 1062

unfoldable pub is_known_unique_constraint_code : DbErrorMeta → Bool
unfolding text_eq
is_known_unique_constraint_code meta =
    text_eq meta.code (codes "23505")
    || text_eq meta.code (codes "sqlite_constraint")
    || text_eq meta.code (codes "sqlite_constraint_unique")
    || text_eq meta.code (codes "er_dup_entry")
    || is_dup_entry meta.errno

abbrev pub joined_text : DbErrorMeta → Text
joined_text meta = meta.constraint ++ codes " " ++ meta.detail ++ codes " " ++ meta.message

abbrev pub has_unique_violation_text : DbErrorMeta → Bool
has_unique_violation_text meta =
    includes (codes "unique constraint") meta.message
    || includes (codes "unique constraint") meta.detail
    || includes (codes "duplicate key") meta.detail

-- One round of the loop: a candidate that is no conflict leaves the loop to go on.
abbrev pub is_conflict : List Text → DbErrorMeta → Bool
is_conflict targets meta =
    any (λ target. includes target (joined_text meta)) targets
    && (is_known_unique_constraint_code meta || has_unique_violation_text meta)

unfoldable pub is_unique_constraint_conflict_error : RawError → List Text → Bool
unfolding get_db_error_candidates extract_db_error_meta includes is_known_unique_constraint_code
is_unique_constraint_conflict_error error target_constraints =
    any (λ candidate. is_conflict target_constraints (extract_db_error_meta candidate))
      (get_db_error_candidates error)

abbrev pub default_retryable_codes : List Text
default_retryable_codes = map codes (
    "ECONNRESET" ∷ "ECONNREFUSED" ∷ "ETIMEDOUT" ∷ "EPIPE" ∷ "EAI_AGAIN" ∷ "EAGAIN" ∷ "EBUSY"
    ∷ "EMFILE" ∷ "ENFILE" ∷ "SQLITE_BUSY" ∷ "SQLITE_LOCKED" ∷ [])

-- The code, unless it is missing or empty, is one of the codes; or the message has one of them.
unfoldable pub is_retryable_network_or_system_error : Bool → ErrorFields → List Text → Bool
unfolding upper includes text_eq
is_retryable_network_or_system_error is_error error retryable_codes =
    let code = upper (Option.get_or error.code []) in
    let message = upper (Option.get_or error.message []) in
    if is_error
    then (ltb 0 (length code) && any (λ c. text_eq code c) retryable_codes)
      || any (λ c. includes c message) retryable_codes
    else false
