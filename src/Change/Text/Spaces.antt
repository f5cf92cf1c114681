-- ===== src/Change/Text/Spaces.antt =====
-- About `normalize_string` and white space.
use law_cast_backend.Base.{
  ℕ, ◌≡◌, refl, ap, ◌∙◌, [], ◌∷◌, Bool, true, false, if◌then◌else◌, Bool-cases, inl, inr, ◌⊎◌,
}
use law_cast_backend.Change.Text.{
  Text, is_space, collapse, trim_start, keep_end, trim_end, trim, normalize_string,
}

-- No white space but single spaces that follow no space; the flag as in `collapse`.
abbrev pub IsClean : Bool → Text → Type 0
IsClean within [] = Unit
IsClean within (c ∷ s) =
    ((is_space c ≡ false) × IsClean false s) ⊎ ((c ≡ 32) × (within ≡ false) × IsClean true s)

spaced-IsClean :
    (b : Bool) (rest : Text) → IsClean true rest → IsClean b (if b then rest else 32 ∷ rest)
spaced-IsClean true rest h = h
spaced-IsClean false rest h = inr (refl, refl, h)

collapse-IsClean : (within : Bool) (s : Text) → IsClean within (collapse within s)
unfolding collapse
collapse-IsClean within [] = tt
collapse-IsClean within (c ∷ s) = elim (Bool-cases (is_space c)) [
  | inl e ↦ rw (e, collapse) (spaced-IsClean within (collapse true s) (collapse-IsClean true s))
  | inr e ↦ rw (e, collapse) (inl (e, collapse-IsClean false s))
]

collapse_clean : (within : Bool) (s : Text) → IsClean within s → collapse within s ≡ s
unfolding collapse is_space
collapse_clean within [] h = refl
collapse_clean within (c ∷ s) (inl (e, h)) =
    rw (e, collapse) (ap (◌∷◌ c) (collapse_clean false s h))
collapse_clean within (c ∷ s) (inr (e, f, h)) =
    rw (e, f, collapse) (ap (◌∷◌ 32) (collapse_clean true s h))

trim_start-IsClean : (within : Bool) (s : Text) → IsClean within s → IsClean false (trim_start s)
unfolding trim_start is_space
trim_start-IsClean within [] h = tt
trim_start-IsClean within (c ∷ s) (inl (e, h)) = rw (e, trim_start) (inl (e, h))
trim_start-IsClean within (c ∷ s) (inr (e, f, h)) = rw (e, trim_start) (trim_start-IsClean true s h)

keep_end-IsClean :
    (within b : Bool) (c : ℕ) (t : Text)
    → IsClean within (c ∷ [])
    → ((s : Text) → IsClean b s → IsClean within (c ∷ s))
    → IsClean b t
    → IsClean within (keep_end c t)
unfolding keep_end
keep_end-IsClean within b c [] one more h = elim (Bool-cases (is_space c)) [
  | inl e ↦ rw (e, keep_end) tt
  | inr e ↦ rw (e, keep_end) one
]
keep_end-IsClean within b c (d ∷ t) one more h = more (d ∷ t) h

trim_end-IsClean : (within : Bool) (s : Text) → IsClean within s → IsClean within (trim_end s)
unfolding trim_end
trim_end-IsClean within [] h = tt
trim_end-IsClean within (c ∷ s) (inl (e, h)) =
    keep_end-IsClean within false c (trim_end s) (inl (e, tt)) (λ t k. inl (e, k))
      (trim_end-IsClean false s h)
trim_end-IsClean within (c ∷ s) (inr (e, f, h)) =
    keep_end-IsClean within true c (trim_end s) (inr (e, f, tt)) (λ t k. inr (e, f, k))
      (trim_end-IsClean true s h)

abbrev pub StartsWell : Text → Type 0
StartsWell [] = Unit
StartsWell (c ∷ s) = is_space c ≡ false

trim_start-StartsWell : (s : Text) → StartsWell (trim_start s)
unfolding trim_start
trim_start-StartsWell [] = tt
trim_start-StartsWell (c ∷ s) = elim (Bool-cases (is_space c)) [
  | inl e ↦ rw (e, trim_start) (trim_start-StartsWell s)
  | inr e ↦ rw (e, trim_start) e
]

trim_start_same : (s : Text) → StartsWell s → trim_start s ≡ s
unfolding trim_start
trim_start_same [] h = refl
trim_start_same (c ∷ s) h = rw (h, trim_start) refl

keep_end-StartsWell : (c : ℕ) (t : Text) → is_space c ≡ false → StartsWell (keep_end c t)
unfolding keep_end
keep_end-StartsWell c [] h = rw (h, keep_end) h
keep_end-StartsWell c (d ∷ t) h = h

keep_end_idem : (c : ℕ) (t : Text) → trim_end t ≡ t → trim_end (keep_end c t) ≡ keep_end c t
unfolding trim_end
keep_end_idem c [] h = elim (Bool-cases (is_space c)) [
  | inl e ↦ rw (e, keep_end) refl
  | inr e ↦ rw (e, keep_end) (rw (e, keep_end) refl)
]
keep_end_idem c (d ∷ t) h = ap (keep_end c) h

trim_end-StartsWell : (s : Text) → StartsWell s → StartsWell (trim_end s)
unfolding trim_end
trim_end-StartsWell [] h = tt
trim_end-StartsWell (c ∷ s) h = keep_end-StartsWell c (trim_end s) h

trim_end_idem : (s : Text) → trim_end (trim_end s) ≡ trim_end s
unfolding trim_end
trim_end_idem [] = refl
trim_end_idem (c ∷ s) = keep_end_idem c (trim_end s) (trim_end_idem s)

trim_idem : (s : Text) → trim (trim s) ≡ trim s
unfolding trim
trim_idem s =
    ap trim_end (trim_start_same _ (trim_end-StartsWell _ (trim_start-StartsWell s)))
    ∙ trim_end_idem (trim_start s)

-- `normalizeString` is idempotent, and its result has no white space at its ends and none inside
-- but single spaces.
pub normalize_string_idem :
    (s : Text)
    → (normalize_string (normalize_string s) ≡ normalize_string s)
      × IsClean false (normalize_string s)
      × StartsWell (normalize_string s)
      × (trim_end (normalize_string s) ≡ normalize_string s)
unfolding normalize_string trim
normalize_string_idem s =
    let clean = trim_end-IsClean false _ (trim_start-IsClean false _ (collapse-IsClean false s)) in
    (
      ap trim (collapse_clean false (trim (collapse false s)) clean) ∙ trim_idem (collapse false s),
      clean,
      trim_end-StartsWell _ (trim_start-StartsWell (collapse false s)),
      trim_end_idem (trim_start (collapse false s)),
    )
