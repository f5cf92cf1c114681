-- ===== src/Change/Diff/Canonical.antt =====
-- The canonical form of an `archive:upsert` snapshot since canon version 2, in
-- src/modules/change-tracking/change-tracking-diff.utils.ts. Each regular expression is a walk; a
-- part that it captures is an option, `none` if it does not match.
use mathlib.Core.List.{reverse}
use law_cast_backend.Base.{
  ℕ, [], ◌∷◌, ◌++◌, Option, none, some, Bool, leb, ◌==◌, ◌&&◌, if◌then◌else◌, String, str_eq,
}
use law_cast_backend.Change.Text.{
  Text, codes, is_space, trim_start, trim, normalize_string, non_empty,
}
use law_cast_backend.Change.Value.{Value, null, text, Fields, end, field}
use law_cast_backend.Change.Diff.{Source, is_archive_upsert, get_path_value}

infixl 5 ◌>>=◌
abbrev ◌>>=◌ : {A B : Type 0} → Option A → (A → Option B) → Option B
none >>= k = none
some a >>= k = k a

-- The text after a given beginning.
unfoldable pub expect : Text → Text → Option Text
expect [] s = some s
expect (p ∷ ps) [] = none
expect (p ∷ ps) (c ∷ s) = if p == c then expect ps s else none

abbrev is_digit : ℕ → Bool
is_digit c = leb 48 c && leb c 57

-- The digits that a text begins with, and what follows them.
unfoldable pub span_digits : Text → Text × Text
span_digits [] = ([], [])
span_digits (c ∷ s) =
    let (ds, rest) = span_digits s in if is_digit c then (c ∷ ds, rest) else ([], c ∷ s)

abbrev non_empty_digits : Text × Text → Option (Text × Text)
non_empty_digits ([], rest) = none
non_empty_digits (c ∷ ds, rest) = some (c ∷ ds, rest)

-- `\d+`.
unfoldable pub some_digits : Text → Option (Text × Text)
unfolding span_digits
some_digits s = non_empty_digits (span_digits s)

-- `\s+`.
unfoldable pub some_spaces : Text → Option Text
unfolding trim_start
some_spaces [] = none
some_spaces (c ∷ s) = if is_space c then some (trim_start s) else none

-- What stands before the last opening parenthesis, of a reversed text that has no closing one.
unfoldable pub before_parenthesis : Text → Option Text
before_parenthesis [] = none
before_parenthesis (c ∷ s) =
    if c == 40 then some s else if c == 41 then none else before_parenthesis s

-- `/\s*\([^()]*의원\s+등\s+\d+인\)\s*$/u` read from the end of the text: the reversed text before it.
unfoldable pub sponsor_suffix : Text → Option Text
unfolding expect some_digits some_spaces before_parenthesis trim_start
sponsor_suffix reversed = do
  s ← expect (codes ")인") (trim_start reversed)
  (count, rest) ← some_digits s
  t ← some_spaces rest
  u ← expect (codes "등") t
  v ← some_spaces u
  w ← expect (codes "원의") v
  prefix ← before_parenthesis w
  some (trim_start prefix)

-- `typeof value === 'string' ? value.replace(/\s+/g, ' ').trim() : null`, the empty text as null.
unfoldable pub tracked_text : Value → Option Text
unfolding normalize_string
tracked_text (text s) = non_empty (normalize_string s)
tracked_text _ = none

-- `a || b` for texts.
abbrev or_text : Text → Text → Text
or_text [] t = t
or_text (c ∷ s) t = c ∷ s

unfoldable pub canonicalize_subject : Text → Text
unfolding sponsor_suffix trim
canonicalize_subject normalized = elim (sponsor_suffix (reverse normalized)) [
  | none ↦ or_text (trim normalized) normalized
  | some prefix ↦ or_text (trim (reverse prefix)) normalized
]

-- `\d{1,2}`, padded to two digits.
abbrev pad_two : Text × Text → Option (Text × Text)
pad_two (d ∷ [], rest) = some (48 ∷ d ∷ [], rest)
pad_two (d ∷ e ∷ [], rest) = some (d ∷ e ∷ [], rest)
pad_two (ds, rest) = none

-- `\d{4}`.
abbrev four_digits : Text × Text → Option (Text × Text)
four_digits (a ∷ b ∷ c ∷ d ∷ [], rest) = some (a ∷ b ∷ c ∷ d ∷ [], rest)
four_digits (ds, rest) = none

abbrev at_end : Text → Option (Unit {0})
at_end [] = some tt
at_end (c ∷ s) = none

-- `/^(\d{4})\.\s*(\d{1,2})\.\s*(\d{1,2})\.$/`.
unfoldable pub dotted_date : Text → Option Text
unfolding span_digits expect trim_start
dotted_date s = do
  (year, s1) ← four_digits (span_digits s)
  s2 ← expect (codes ".") s1
  (month, s3) ← pad_two (span_digits (trim_start s2))
  s4 ← expect (codes ".") s3
  (day, s5) ← pad_two (span_digits (trim_start s4))
  s6 ← expect (codes ".") s5
  over ← at_end s6
  some (year ++ 45 ∷ (month ++ 45 ∷ day))

-- `/^(\d{4})-(\d{1,2})-(\d{1,2})$/`.
unfoldable pub dashed_date : Text → Option Text
unfolding span_digits expect
dashed_date s = do
  (year, s1) ← four_digits (span_digits s)
  s2 ← expect (codes "-") s1
  (month, s3) ← pad_two (span_digits s2)
  s4 ← expect (codes "-") s3
  (day, s5) ← pad_two (span_digits s4)
  over ← at_end s5
  some (year ++ 45 ∷ (month ++ 45 ∷ day))

unfoldable pub canonicalize_proposal_date : Text → Text
unfolding dotted_date dashed_date
canonicalize_proposal_date normalized = elim (dotted_date normalized) [
  | some date ↦ date
  | none ↦ elim (dashed_date normalized) [ some date ↦ date | none ↦ normalized ]
]

-- `/제\s*(\d+)\s*회/u` at the beginning of a text.
unfoldable pub session_here : Text → Option Text
unfolding expect trim_start some_digits
session_here s = do
  s1 ← expect (codes "제") s
  (number, s2) ← some_digits (trim_start s1)
  s3 ← expect (codes "회") (trim_start s2)
  some number

-- Its first match.
unfoldable pub session_match : Text → Option Text
unfolding session_here
session_match [] = none
session_match (c ∷ s) =
    let rest = session_match s in elim (session_here (c ∷ s)) [ none ↦ rest | some n ↦ some n ]

unfoldable pub canonicalize_proposal_session : Text → Text
unfolding session_match
canonicalize_proposal_session normalized = elim (session_match normalized) [
  | none ↦ normalized
  | some number ↦ codes "제" ++ (number ++ codes "회")
]

abbrev or_null : (Text → Text) → Option Text → Value
or_null f none = null
or_null f (some s) = text (f s)

-- `record[key] = value`: a property that is there keeps its place.
unfoldable pub set_field : String → Value → Fields → Fields
set_field key value end = field key value end
set_field key value (field k v fs) =
    if str_eq k key then field k value fs else field k v (set_field key value fs)

unfoldable pub canonicalize_archive_upsert_snapshot : Fields → Fields
unfolding tracked_text canonicalize_subject canonicalize_proposal_date canonicalize_proposal_session
    set_field get_path_value
canonicalize_archive_upsert_snapshot s0 =
    let s1 =
      set_field "subject"
        (or_null canonicalize_subject (tracked_text (get_path_value s0 "subject"))) s0 in
    let s2 =
      set_field "proposalDate"
        (or_null canonicalize_proposal_date (tracked_text (get_path_value s1 "proposalDate"))) s1 in
    set_field "proposalSession"
      (or_null canonicalize_proposal_session (tracked_text (get_path_value s2 "proposalSession")))
      s2

unfoldable pub canonicalize_change_snapshot_for_source : Option Source → ℕ → Fields → Fields
unfolding canonicalize_archive_upsert_snapshot
canonicalize_change_snapshot_for_source source canon_version snapshot =
    if is_archive_upsert source && leb 2 canon_version
    then canonicalize_archive_upsert_snapshot snapshot
    else snapshot
