-- ===== src/Change/Diff/Tracked.antt =====
-- Which details `computeDiff` records, and what they say.
use law_cast_backend.Base.{
  ℕ, ◌≡◌, refl, sym, ap, ◌∙◌, ◌≢◌, ◌↔◌, ◌⊎◌, inl, inr, List, [], ◌∷◌, Option, none, some, Bool,
  true, false, not, arith, ltb, keep, All, length, length-map, map, String, Bool-cases,
}
use law_cast_backend.Change.Text.{
  Text, text_eq, same_text, canonicalize_proposal_reason_for_comparison,
}
use law_cast_backend.Change.Value.{Fields}
use law_cast_backend.Change.Diff.{
  added, removed, modified, Detail, values_match, change_type_of, detail_of, before_value_of,
  after_value_of, diff_details, compute_diff, hash_comparable,
}

pub text_eq_refl : (s : Text) → text_eq s s ≡ true
unfolding text_eq
text_eq_refl [] = refl
text_eq_refl (c ∷ s) = ground (arith, text_eq_refl s)

pub text_eq→eq : (s t : Text) → text_eq s t ≡ true → s ≡ t
unfolding text_eq
text_eq→eq [] [] h = refl
text_eq→eq [] (d ∷ t) h = cc
text_eq→eq (c ∷ s) [] h = cc
text_eq→eq (c ∷ s) (d ∷ t) h = ground (arith, text_eq→eq s t)

pub same_text_refl : (o : Option Text) → same_text o o ≡ true
same_text_refl none = refl
same_text_refl (some s) = text_eq_refl s

pub same_text→eq : (o p : Option Text) → same_text o p ≡ true → o ≡ p
same_text→eq none none h = refl
same_text→eq none (some t) h = cc
same_text→eq (some s) none h = cc
same_text→eq (some s) (some t) h = ap some (text_eq→eq s t h)

pub values_match_refl : (v : ℕ) (path : String) (o : Option Text) → values_match v path o o ≡ true
unfolding values_match
values_match_refl v path o =
    ground (arith, same_text_refl o, same_text_refl (canonicalize_proposal_reason_for_comparison o))

-- The change type tells which side has a value: only the new one, only the old one, or both.
abbrev pub Classified : Detail → Type 0
Classified d =
    ((d.change_type ≡ added) × (d.before_value ≡ none) × (d.after_value ≢ none))
    ⊎ ((d.change_type ≡ removed) × (d.before_value ≢ none) × (d.after_value ≡ none))
    ⊎ ((d.change_type ≡ modified) × (d.before_value ≢ none) × (d.after_value ≢ none))

change_type_of-Classified :
    (sha256_hex : Text → Text) (v : ℕ) (path : String) (b a : Option Text)
    → values_match v path b a ≡ false
    → Classified (detail_of sha256_hex path b a)
unfolding change_type_of
change_type_of-Classified h v path none none e = absurd (cc (values_match_refl v path none))
change_type_of-Classified h v path none (some a) e = inl (refl, refl, λ q. cc)
change_type_of-Classified h v path (some b) none e = inr (inl (refl, (λ q. cc), refl))
change_type_of-Classified h v path (some b) (some a) e = inr (inr (refl, (λ q. cc), (λ q. cc)))

mapped-count :
    {A B : Type 0} (f : A → B) (xs : List A)
    → (length (map f xs) ≡ length xs) × ((ltb 0 (length xs) ≡ false) ↔ (map f xs ≡ []))
mapped-count f [] = (refl, ((λ e. refl), (λ e. refl)))
mapped-count f (x ∷ xs) = (length-map f (x ∷ xs), ((λ e. absurd (ground arith)), (λ e. cc)))

module _ (sha256_hex : Text → Text) (before : Option Fields) (after : Fields) (v : ℕ) where
  -- Whether a field differs.
  abbrev pub differs : String → Bool
  differs path = not (
      values_match v path (before_value_of sha256_hex before path)
        (after_value_of sha256_hex after path))

  -- A detail holds its field's two comparable values with their hashes, and is classified.
  abbrev pub IsTrue : Detail → Type 0
  IsTrue d =
      (d.before_value ≡ before_value_of sha256_hex before d.field_path)
      × (d.after_value ≡ after_value_of sha256_hex after d.field_path)
      × (d.before_hash ≡ hash_comparable sha256_hex d.before_value)
      × (d.after_hash ≡ hash_comparable sha256_hex d.after_value)
      × Classified d

  diff_details_lem :
      (paths : List String)
      → let details = diff_details sha256_hex before after paths v in
        (map (λ d. d.field_path) details ≡ keep differs paths) × All IsTrue details
  unfolding diff_details
  diff_details_lem [] = (refl, tt)
  diff_details_lem (path ∷ paths) =
      let (fields, true_all) = diff_details_lem paths in
      elim (Bool-cases (
        values_match v path (before_value_of sha256_hex before path)
          (after_value_of sha256_hex after path))) [
            | inl e ↦ rw (e, diff_details) (fields, true_all)
            | inr e ↦
                rw (e, diff_details)
                  (
                    ap (◌∷◌ path) fields,
                    (
                      (refl, refl, refl, refl, change_type_of-Classified sha256_hex v path _ _ e),
                      true_all,
                    ),
                  )
          ]

  -- `compute_diff` records a detail for exactly the tracked fields that differ, in their order; it
  -- says "changed" exactly when there is one; each detail holds the two values with their hashes and
  -- the change type that these values call for.
  pub compute_diff_lem :
      (tracked : List String)
      → let d = compute_diff sha256_hex before after tracked v in
        (map (λ x. x.field_path) d.details ≡ keep differs tracked)
        × All IsTrue d.details
        × (d.changed_field_count ≡ length (keep differs tracked))
        × ((d.changed ≡ false) ↔ (keep differs tracked ≡ []))
  unfolding compute_diff
  compute_diff_lem tracked =
      let (fields, true_all) = diff_details_lem tracked in
      let (count, empty) =
        mapped-count (λ d. d.field_path) (diff_details sha256_hex before after tracked v) in
      (
        fields,
        true_all,
        sym count ∙ ap length fields,
        ((λ e. sym fields ∙ empty.0 e), (λ e. empty.1 (fields ∙ e))),
      )

diff_details_self :
    (sha256_hex : Text → Text) (snapshot : Fields) (tracked : List String) (v : ℕ)
    → diff_details sha256_hex (some snapshot) snapshot tracked v ≡ []
unfolding diff_details
diff_details_self h snapshot [] v = refl
diff_details_self h snapshot (path ∷ paths) v =
    rw (values_match_refl v path (after_value_of h snapshot path), diff_details)
      (diff_details_self h snapshot paths v)

-- A snapshot does not differ from itself.
pub compute_diff_self :
    (sha256_hex : Text → Text) (snapshot : Fields) (tracked : List String) (v : ℕ)
    → let d = compute_diff sha256_hex (some snapshot) snapshot tracked v in
      (d.changed ≡ false) × (d.details ≡ [])
unfolding compute_diff
compute_diff_self h snapshot tracked v =
    let e = diff_details_self h snapshot tracked v in (ap (λ ds. ltb 0 (length ds)) e, e)
