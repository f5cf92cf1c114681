-- ===== src/Errors/Reports.antt =====
-- About the texts and the errors of src/utils/db-error.utils.ts: what `includes` finds, and what
-- makes an error a conflict of an index.
use law_cast_backend.Base.{
  ◌≡◌, ◌↔◌, ◌⊎◌, inl, inr, refl, ap, List, [], ◌∷◌, ◌++◌, Option, none, some, Bool, true, false,
  ◌&&◌, ◌||◌, any, arith, ==_iff, Bool-cases,
}
use law_cast_backend.Change.Text.{Text, codes, starts_with, text_eq}
use law_cast_backend.Change.Diff.Tracked.{text_eq→eq, text_eq_refl}
use law_cast_backend.Errors.{
  RawError, ErrorFields, DbErrorMeta, includes, extract_db_error_meta, joined_text, Errno,
  is_dup_entry, get_db_error_candidates, is_known_unique_constraint_code,
  is_unique_constraint_conflict_error, is_conflict,
}

-- A text stands somewhere within another.
abbrev pub Contains : Text → Text → Type 0
Contains t s = (before : Text) × (after : Text) × (s ≡ before ++ t ++ after)

abbrev pub Has {ℓ} : {A : Type ℓ} → (A → Type 0) → List A → Type 0
Has P [] = ⊥
Has P (x ∷ xs) = P x ⊎ Has P xs

or_iff : {a b : Bool} {P Q : Type 0} → (a ≡ true) ↔ P → (b ≡ true) ↔ Q → ((a || b) ≡ true) ↔ (P ⊎ Q)
or_iff {a = true} (f, f') (g, g') = (λ h. inl (f refl), λ h. refl)
or_iff {a = false} (f, f') (g, g') =
    (λ h. inr (g h), λ h. elim h [ inl p ↦ absurd (ground (arith, f' p)) | inr q ↦ g' q ])

and_iff :
    {a b : Bool} {P Q : Type 0} → (a ≡ true) ↔ P → (b ≡ true) ↔ Q → ((a && b) ≡ true) ↔ (P × Q)
and_iff {a = true} (f, f') (g, g') = (λ h. (f refl, g h), λ h. g' h.1)
and_iff {a = false} (f, f') (g, g') = (λ h. absurd (ground (arith, h)), λ h. f' h.0)

nothing_iff : (false ≡ true) ↔ ⊥
nothing_iff = (λ h. absurd (ground (arith, h)), λ h. absurd h)

last_iff : {b : Bool} {P : Type 0} → (b ≡ true) ↔ P → ((b || false) ≡ true) ↔ P
last_iff {b = true} h = h
last_iff {b = false} h = h

any_iff {ℓ} :
    {A : Type ℓ} (p : A → Bool) (P : A → Type 0) (xs : List A)
    → ((x : A) → (p x ≡ true) ↔ P x)
    → (any p xs ≡ true) ↔ Has P xs
any_iff p P [] f = nothing_iff
any_iff p P (x ∷ xs) f = or_iff (f x) (any_iff p P xs f)

starts_with-append : (t s : Text) → starts_with t (t ++ s) ≡ true
unfolding starts_with
starts_with-append [] s = refl
starts_with-append (c ∷ t) s = ground (arith, starts_with-append t s, ==_iff c c)

starts_with_splits : (t s : Text) → starts_with t s ≡ true → (after : Text) × (s ≡ t ++ after)
unfolding starts_with
starts_with_splits [] s h = (s, refl)
starts_with_splits (c ∷ t) [] h = absurd (ground (arith, h))
starts_with_splits (c ∷ t) (d ∷ s) h =
    let same : c ≡ d = ground (arith, h, ==_iff c d) in
    let (after, k) = starts_with_splits t s (ground (arith, h)) in (after, cc)

includes_at_start : (t s : Text) → starts_with t s ≡ true → includes t s ≡ true
unfolding includes
includes_at_start t [] h = h
includes_at_start t (c ∷ s) h = ground (arith, h)

includes-append : (t before after : Text) → includes t (before ++ t ++ after) ≡ true
unfolding includes
includes-append t [] after = includes_at_start t (t ++ after) (starts_with-append t after)
includes-append t (c ∷ before) after = ground (arith, includes-append t before after)

includes_splits : (t s : Text) → includes t s ≡ true → Contains t s
unfolding includes
includes_splits t [] h = let (after, e) = starts_with_splits t [] h in ([], after, e)
includes_splits t (c ∷ s) h = elim (Bool-cases (starts_with t (c ∷ s))) [
  | inl k ↦ let (after, e) = starts_with_splits t (c ∷ s) k in ([], after, e)
  | inr k ↦
      let (before, after, e) = includes_splits t s (ground (arith, h, k)) in
      (c ∷ before, after, ap (◌∷◌ c) e)
]

pub includes_iff : (t s : Text) → (includes t s ≡ true) ↔ Contains t s
includes_iff t s =
    (includes_splits t s, λ h. let (before, after, e) = h in rw e (includes-append t before after))

-- The codes of a broken unique index: PostgreSQL's, the two of SQLite, and MySQL's, as a text or as a
-- number.
abbrev pub IsKnownCode : DbErrorMeta → Type 0
IsKnownCode meta =
    ((((meta.code ≡ codes "23505") ⊎ (meta.code ≡ codes "sqlite_constraint"))
        ⊎ (meta.code ≡ codes "sqlite_constraint_unique"))
      ⊎ (meta.code ≡ codes "er_dup_entry"))
    ⊎ (meta.errno ≡ some (record { negative = false; size = 1062 }))

abbrev pub IsUniqueViolation : DbErrorMeta → Type 0
IsUniqueViolation meta =
    IsKnownCode meta
    ⊎ ((Contains (codes "unique constraint") meta.message
          ⊎ Contains (codes "unique constraint") meta.detail)
        ⊎ Contains (codes "duplicate key") meta.detail)

-- An error names one of the targets and speaks of a unique index.
abbrev pub IsConflict : List Text → ErrorFields → Type 0
IsConflict targets e =
    let meta = extract_db_error_meta e in
    Has (λ target. Contains target (joined_text meta)) targets × IsUniqueViolation meta

-- A conflict of the error or of its driver's error.
abbrev pub IsAnyConflict : List Text → RawError → Type 0
IsAnyConflict targets error =
    IsConflict targets error.fields
    ⊎ elim error.driver_error [ none ↦ ⊥ | some d ↦ IsConflict targets d ]

text_eq_iff : (s t : Text) → (text_eq s t ≡ true) ↔ (s ≡ t)
text_eq_iff s t = (text_eq→eq s t, λ h. rw h (text_eq_refl t))

errno_path :
    (n : Errno) → n.negative ≡ false → n.size ≡ 1062 → n ≡ record { negative = false; size = 1062 }
errno_path n h k = cc

is_dup_entry_iff :
    (errno : Option Errno)
    → (is_dup_entry errno ≡ true) ↔ (errno ≡ some (record { negative = false; size = 1062 }))
is_dup_entry_iff none = (λ h. absurd (ground (arith, h)), λ h. absurd cc)
is_dup_entry_iff (some n) =
    (λ h. ap some (errno_path n (ground (arith, h)) (ground (arith, h))), λ h. ap is_dup_entry h)

is_known_unique_constraint_code_iff :
    (meta : DbErrorMeta) → (is_known_unique_constraint_code meta ≡ true) ↔ IsKnownCode meta
unfolding is_known_unique_constraint_code
is_known_unique_constraint_code_iff meta =
    or_iff
      (or_iff (or_iff (or_iff (text_eq_iff _ _) (text_eq_iff _ _)) (text_eq_iff _ _))
        (text_eq_iff _ _))
      (is_dup_entry_iff meta.errno)

is_conflict_iff :
    (targets : List Text) (e : ErrorFields)
    → (is_conflict targets (extract_db_error_meta e) ≡ true) ↔ IsConflict targets e
is_conflict_iff targets e =
    let meta = extract_db_error_meta e in
    and_iff
      (any_iff (λ t. includes t (joined_text meta)) (λ t. Contains t (joined_text meta)) targets
        (λ t. includes_iff t (joined_text meta)))
      (or_iff (is_known_unique_constraint_code_iff meta)
        (or_iff (or_iff (includes_iff _ _) (includes_iff _ _)) (includes_iff _ _)))

either_iff :
    (targets : List Text) (e : ErrorFields) (driver : Option ErrorFields)
    → (any
          (λ c. is_conflict targets (extract_db_error_meta c))
          (get_db_error_candidates (record { fields = e; driver_error = driver }))
        ≡ true)
      ↔ IsAnyConflict targets (record { fields = e; driver_error = driver })
unfolding get_db_error_candidates
either_iff targets e none = or_iff (is_conflict_iff targets e) nothing_iff
either_iff targets e (some d) =
    or_iff (is_conflict_iff targets e) (last_iff (is_conflict_iff targets d))

-- `isUniqueConstraintConflictError` holds of an error exactly when the error itself or its driver's
-- error is a conflict: one of the targets stands somewhere in its constraint, detail and message,
-- written after each other with spaces between, and either its code is one of the known ones or its
-- message or detail has the words of a broken unique constraint.
pub is_unique_constraint_conflict_error_iff :
    (error : RawError) (targets : List Text)
    → (is_unique_constraint_conflict_error error targets ≡ true) ↔ IsAnyConflict targets error
unfolding is_unique_constraint_conflict_error get_db_error_candidates
is_unique_constraint_conflict_error_iff error targets =
    either_iff targets error.fields error.driver_error
