-- ===== src/Change/Audit/State.antt =====
-- The tracked state that the audit replays (src/modules/change-tracking/change-tracking-chain-audit.utils.ts).
-- A number in a detail is read without a minus sign: a notice's number has none.
use law_cast_backend.Base.{
  ℕ, ◌+◌, ◌*◌, ◌-◌, List, [], ◌∷◌, Option, none, some, Bool, true, false, leb, ◌==◌, ◌&&◌, ◌||◌,
  if◌then◌else◌, String, str_eq,
}
use law_cast_backend.Change.Text.{Text, codes, text_eq, trim_start}
use law_cast_backend.Change.Value.{Value, null, bool, number, text, Fields, end, field}
use law_cast_backend.Change.Diff.{Detail}
use law_cast_backend.Change.Diff.Canonical.{some_digits, set_field}

-- `Object.prototype.hasOwnProperty.call(state, key)`.
unfoldable pub has_field : Fields → String → Bool
has_field end key = false
has_field (field k v fs) key = str_eq k key || has_field fs key

unfoldable pub ensure_tracked_state_fields : Fields → List String → ℕ → Fields
unfolding has_field set_field
ensure_tracked_state_fields state [] canon_version = state
ensure_tracked_state_fields state (path ∷ paths) canon_version =
    let seed = if leb 2 canon_version && str_eq path "proposalReason" then text [] else null in
    let state' = if has_field state path then state else set_field path seed state in
    ensure_tracked_state_fields state' paths canon_version

-- The value of decimal digits, after those in `acc`.
unfoldable pub read_digits : ℕ → Text → ℕ
read_digits acc [] = acc
read_digits acc (c ∷ cs) = read_digits (acc * 10 + (c - 48)) cs

abbrev skip_plus : Text → Text
skip_plus [] = []
skip_plus (c ∷ s) = if c == 43 then s else c ∷ s

-- `Number.parseInt(value, 10)`; `none` for NaN.
unfoldable pub parse_int : Text → Option ℕ
unfolding some_digits read_digits trim_start
parse_int s = elim (some_digits (skip_plus (trim_start s))) [
  | none ↦ none
  | some (digits, rest) ↦ some (read_digits 0 digits)
]

abbrev number_or_text : Text → Option ℕ → Value
number_or_text s none = text s
number_or_text s (some n) = number n

unfoldable pub coerce_tracked_field_value : String → Option Text → Value
unfolding parse_int text_eq
coerce_tracked_field_value path none = null
coerce_tracked_field_value path (some s) =
    if str_eq path "num"
    then number_or_text s (parse_int s)
    else if str_eq path "isDone" && text_eq s (codes "true")
    then bool true
    else if str_eq path "isDone" && text_eq s (codes "false")
    then bool false
    else text s

unfoldable pub apply_details_to_tracked_state : Fields → List Detail → Fields
unfolding coerce_tracked_field_value set_field
apply_details_to_tracked_state state [] = state
apply_details_to_tracked_state state (d ∷ ds) =
    apply_details_to_tracked_state
      (set_field d.field_path (coerce_tracked_field_value d.field_path d.after_value) state) ds
