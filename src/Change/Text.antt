-- ===== src/Change/Text.antt =====
-- Texts as lists of UTF-16 code units, and the text functions of
-- src/modules/change-tracking/change-tracking-diff.utils.ts and src/utils/proposal-reason.utils.ts.
-- Their regular expressions are written out as walks over the text.
pub mod Spaces
use Prim.Native.Char.{code}
use law_cast_backend.Base.{
  ℕ, zero, suc, ◌+◌, ◌-◌, ◌*◌, ◌/◌, ◌%◌, List, [], ◌∷◌, ◌++◌, Option, none, some, Bool, true, false,
  not, ltb, leb, ◌==◌, ◌&&◌, ◌||◌, if◌then◌else◌, any, keep, String,
}

abbrev pub Text : Type 0
Text = List ℕ

-- The code units of a text whose characters lie in the basic plane.
abbrev pub codes : String → Text
codes String.[] = []
codes (String.◌∷◌ c s) = code c ∷ codes s

unfoldable pub text_eq : Text → Text → Bool
text_eq [] [] = true
text_eq [] (d ∷ t) = false
text_eq (c ∷ s) [] = false
text_eq (c ∷ s) (d ∷ t) = (c == d) && text_eq s t

-- `s.startsWith(prefix)`, the prefix first.
unfoldable pub starts_with : Text → Text → Bool
starts_with [] s = true
starts_with (c ∷ prefix) [] = false
starts_with (c ∷ prefix) (d ∷ s) = (c == d) && starts_with prefix s

-- `a === b` for texts or null.
abbrev pub same_text : Option Text → Option Text → Bool
same_text none none = true
same_text none (some t) = false
same_text (some s) none = false
same_text (some s) (some t) = text_eq s t

-- `\s`, and what `trim` takes off.
unfoldable pub is_space : ℕ → Bool
is_space c =
    (leb 9 c && leb c 13)
    || c == 32
    || c == 160
    || c == 5760
    || (leb 8192 c && leb c 8202)
    || c == 8232
    || c == 8233
    || c == 8239
    || c == 8287
    || c == 12288
    || c == 65279

-- `replace(/\s+/g, ' ')`; the flag says that the character before was a space.
unfoldable pub collapse : Bool → Text → Text
collapse within [] = []
collapse within (c ∷ s) =
    let rest = collapse (is_space c) s in
    if is_space c then (if within then rest else 32 ∷ rest) else c ∷ rest

unfoldable pub trim_start : Text → Text
trim_start [] = []
trim_start (c ∷ s) = if is_space c then trim_start s else c ∷ s

-- A character before what is left of the end of a text.
unfoldable pub keep_end : ℕ → Text → Text
keep_end c [] = if is_space c then [] else c ∷ []
keep_end c (d ∷ t) = c ∷ d ∷ t

unfoldable pub trim_end : Text → Text
unfolding keep_end
trim_end [] = []
trim_end (c ∷ s) = keep_end c (trim_end s)

unfoldable pub trim : Text → Text
unfolding trim_start trim_end
trim s = trim_end (trim_start s)

unfoldable pub normalize_string : Text → Text
unfolding collapse trim
normalize_string s = trim (collapse false s)

-- `replace(/\r\n?|[\u2028\u2029]/g, '\n')`; the flag says that a carriage return came just before.
unfoldable pub line_ends : Bool → Text → Text
line_ends after_return [] = []
line_ends after_return (c ∷ s) =
    let rest = line_ends (c == 13) s in
    if c == 13 || c == 8232 || c == 8233
    then 10 ∷ rest
    else if c == 10 && after_return
    then rest
    else c ∷ rest

-- `split('\n')`: the first line and the others.
unfoldable pub split_lines : Text → Text × List Text
split_lines [] = ([], [])
split_lines (c ∷ s) =
    let (line, more) = split_lines s in if c == 10 then ([], line ∷ more) else (c ∷ line, more)

-- One line: zero-width characters go, white space collapses, the ends are trimmed.
unfoldable pub clean_line : Text → Text
unfolding normalize_string
clean_line line = normalize_string (keep (λ c. not (c == 8203 || c == 8288)) line)

unfoldable pub join_lines : Text → List Text → Text
join_lines line [] = line
join_lines line (next ∷ more) = line ++ 10 ∷ join_lines next more

unfoldable pub clean_all : List Text → List Text
unfolding clean_line
clean_all [] = []
clean_all (line ∷ lines) = clean_line line ∷ clean_all lines

abbrev pub non_empty : Text → Option Text
non_empty [] = none
non_empty (c ∷ s) = some (c ∷ s)

unfoldable pub canonicalize_proposal_reason : Option Text → Option Text
unfolding line_ends split_lines clean_line join_lines clean_all trim
canonicalize_proposal_reason none = none
canonicalize_proposal_reason (some value) =
    let (line, more) = split_lines (line_ends false value) in
    non_empty (trim (join_lines (clean_line line) (clean_all more)))

unfoldable pub canonicalize_proposal_reason_for_comparison : Option Text → Option Text
unfolding canonicalize_proposal_reason collapse
canonicalize_proposal_reason_for_comparison value = elim (canonicalize_proposal_reason value) [
  | none ↦ none
  | some s ↦ some (collapse false s)
]

-- A number in decimal. A number below 10 ^ fuel needs no more rounds than the fuel.
unfoldable pub digits_from : ℕ → ℕ → Text → Text
digits_from zero n acc = acc
digits_from (suc fuel) n acc =
    let rest = digits_from fuel (n / 10) ((48 + n % 10) ∷ acc) in
    if ltb n 10 then (48 + n) ∷ acc else rest

unfoldable pub decimal : ℕ → Text
unfolding digits_from
decimal n = digits_from (suc n) n []
