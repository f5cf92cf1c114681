-- ===== src/Change/Audit/Integrity.antt =====
-- What it means that the audit of a chain has nothing to report.
use law_cast_backend.Base.{
  ℕ, suc, ◌+◌, ◌≤◌, ◌≡◌, refl, sym, ◌∙◌, ◌↔◌, List, [], ◌∷◌, ◌++◌, Option, none, some, Bool, true,
  false, not, arith, leb, ◌==◌, ◌&&◌, if◌then◌else◌, ==_iff, All, Bool-cases, inl, inr, subst,
}
use law_cast_backend.Change.Text.{Text, text_eq, same_text}
use law_cast_backend.Change.Diff.{Detail, hash_comparable}
use law_cast_backend.Change.Diff.Tracked.{text_eq→eq, text_eq_refl, same_text→eq, same_text_refl}
use law_cast_backend.Change.Event.{
  Event, EventType, created, updated, invalidated, DetailRow, BuildOutput, same_type,
}
use law_cast_backend.Change.Append.{details_of}
use law_cast_backend.Change.Append.Linked.{IsLinked}
use law_cast_backend.Change.Audit.Legacy.{is_legacy_canonical_hash_compatible}
use law_cast_backend.Change.Audit.{
  Issue, ErrorCode, Progress, at_start, issue_at, when, rebuild, event_issues, detail_issues,
  advance, verify_from, verify_chain, has_pre_versioned_archive_upsert,
}

append_nil_iff {ℓ} : {A : Type ℓ} (xs ys : List A) → (xs ++ ys ≡ []) ↔ ((xs ≡ []) × (ys ≡ []))
append_nil_iff [] ys = (λ h. (refl, h), λ h. h.1)
append_nil_iff (x ∷ xs) ys = (λ h. cc, λ (h, k). cc)

when_nil_iff : (b : Bool) (i : Issue) → (when (not b) i ≡ []) ↔ (b ≡ true)
unfolding when
when_nil_iff true i = (λ h. refl, λ h. refl)
when_nil_iff false i = (λ h. cc, λ h. cc)

same_type_iff : (a b : EventType) → (same_type a b ≡ true) ↔ (a ≡ b)
unfolding same_type
same_type_iff created created = (λ h. refl, λ h. refl)
same_type_iff created updated = (λ h. cc, λ h. cc)
same_type_iff created invalidated = (λ h. cc, λ h. cc)
same_type_iff updated created = (λ h. cc, λ h. cc)
same_type_iff updated updated = (λ h. refl, λ h. refl)
same_type_iff updated invalidated = (λ h. cc, λ h. cc)
same_type_iff invalidated created = (λ h. cc, λ h. cc)
same_type_iff invalidated updated = (λ h. cc, λ h. cc)
same_type_iff invalidated invalidated = (λ h. refl, λ h. refl)

text_eq_iff : (s t : Text) → (text_eq s t ≡ true) ↔ (s ≡ t)
text_eq_iff s t = (text_eq→eq s t, λ h. rw h (text_eq_refl t))

same_text_iff : (o p : Option Text) → (same_text o p ≡ true) ↔ (o ≡ p)
same_text_iff o p = (same_text→eq o p, λ h. rw h (same_text_refl p))

-- A test that reports an issue when it fails is silent exactly when what it tests holds.
silent_iff {ℓ} : {P : Type ℓ} (b : Bool) (i : Issue) → ((b ≡ true) ↔ P) → (when (not b) i ≡ []) ↔ P
silent_iff b i (to, from) =
    let (go, back) = when_nil_iff b i in (λ h. to (go h), λ p. back (from p))

-- The same for a test that a flag switches off.
guarded_iff {ℓ} :
    {P : Type ℓ} (b off : Bool) (i : Issue)
    → off ≡ false
    → ((b ≡ true) ↔ P)
    → (when (not b && not off) i ≡ []) ↔ P
unfolding when
guarded_iff true off i on (to, from) = (λ h. to refl, λ p. refl)
guarded_iff false true i on (to, from) = (λ h. cc, λ p. cc)
guarded_iff false false i on (to, from) = (λ h. cc, λ p. cc (from p))

both_iff {ℓ κ} :
    {P : Type ℓ} {Q : Type κ} (xs ys : List Issue)
    → ((xs ≡ []) ↔ P)
    → ((ys ≡ []) ↔ Q)
    → (xs ++ ys ≡ []) ↔ (P × Q)
both_iff xs ys (f, f') (g, g') =
    let (go, back) = append_nil_iff xs ys in
    (λ h. (f (go h).0, g (go h).1), λ (p, q). back (f' p, g' q))

-- What the loop expects as the previous hash is the one that it carries, once the height is right.
pub expected_prev :
    (height index : ℕ) (previous : Option Text)
    → height ≡ index + 1
    → (index ≡ 0 → previous ≡ none)
    → (if height == 1 then none else previous) ≡ previous
expected_prev height index previous right first = elim (Bool-cases (height == 1)) [
  | inl hit ↦ rw hit (sym (first (ground arith)))
  | inr miss ↦ rw miss refl
]

the_next : (n : ℕ) → n + 1 ≡ suc n
the_next n = omega arith

module _ (sha256_hex : Text → Text) where
  -- Each detail holds the hashes of its own values.
  abbrev pub AreHashed : List Detail → Type 0
  AreHashed [] = Unit
  AreHashed (d ∷ ds) =
      (d.before_hash ≡ hash_comparable sha256_hex d.before_value)
      × ((d.after_hash ≡ hash_comparable sha256_hex d.after_value) × AreHashed ds)

  -- The stored event is what its own details rebuild.
  abbrev pub IsRebuilt : Event → BuildOutput → Type 0
  IsRebuilt e r =
      (e.event_hash ≡ r.event_hash)
      × ((e.event_type ≡ r.event_type)
          × ((e.changed_field_count ≡ r.diff.changed_field_count)
              × (e.diff_summary_json ≡ some r.diff.diff_summary_json)))

  -- Every event of a chain is what the details so far rebuild.
  abbrev pub AreRebuilt : ℕ → List DetailRow → Progress → List Event → Type 0
  AreRebuilt notice rows p [] = Unit
  AreRebuilt notice rows p (e ∷ es) =
      let details = details_of e.id rows in
      (IsRebuilt e (rebuild sha256_hex false notice p e details) × AreHashed details)
      × AreRebuilt notice rows (advance sha256_hex false p e details) es

  detail_issues_iff :
      (issue : ErrorCode → Issue) (ds : List Detail)
      → (detail_issues sha256_hex issue ds ≡ []) ↔ AreHashed ds
  unfolding detail_issues
  detail_issues_iff issue [] = (λ h. tt, λ h. refl)
  detail_issues_iff issue (d ∷ ds) =
      both_iff _ _ (silent_iff _ _ (same_text_iff _ _))
        (both_iff _ _ (silent_iff _ _ (same_text_iff _ _)) (detail_issues_iff issue ds))

  event_issues_iff :
      (notice : ℕ) (p : Progress) (e : Event) (ds : List Detail) (r : BuildOutput)
      → 2 ≤ e.canon_version
      → (event_issues sha256_hex notice p e ds r ≡ []) ↔ (
          (e.event_height ≡ p.index + 1)
          × ((e.prev_event_hash ≡ (if e.event_height == 1 then none else p.previous_hash))
              × (IsRebuilt e r × AreHashed ds)))
  unfolding event_issues
  event_issues_iff notice p e ds r new =
      let old : leb e.canon_version 1 ≡ false = ground arith in
      let off : Bool =
        leb e.canon_version 1
        && not (text_eq e.event_hash r.event_hash)
        && is_legacy_canonical_hash_compatible e r ds in
      let modern : off ≡ false = rw old refl in
      let (go, back) = both_iff _ _ (silent_iff _ _ (==_iff _ _)) (
        both_iff _ _ (guarded_iff _ off _ modern (same_text_iff _ _)) (
          both_iff _ _ (guarded_iff _ off _ modern (text_eq_iff _ _)) (
            both_iff _ _ (silent_iff _ _ (same_type_iff _ _)) (
              both_iff _ _ (silent_iff _ _ (==_iff _ _)) (
                both_iff _ _ (silent_iff _ _ (same_text_iff _ _))
                  (detail_issues_iff (issue_at notice e) ds)))))) in
      (
        λ h. let (a, (b, (c, (d, (f, (g, k)))))) = go h in (a, (b, ((c, (d, (f, g))), k))),
        λ h. let (a, (b, ((c, (d, (f, g))), k))) = h in back (a, (b, (c, (d, (f, (g, k)))))),
      )

  -- The chain part and the content part of a silent audit, from any point of the loop.
  verify_from_iff :
      (notice : ℕ) (rows : List DetailRow) (p : Progress) (es : List Event)
      → All (λ e. 2 ≤ e.canon_version) es
      → (p.index ≡ 0 → p.previous_hash ≡ none)
      → (verify_from sha256_hex false notice rows p es ≡ [])
        ↔ (IsLinked p.index p.previous_hash es × AreRebuilt notice rows p es)
  unfolding verify_from
  verify_from_iff notice rows p [] new first = (λ h. (tt, tt), λ h. refl)
  verify_from_iff notice rows p (e ∷ es) (new, news) first =
      let details = details_of e.id rows in
      let p' = advance sha256_hex false p e details in
      let (go, back) =
        both_iff _ _
          (event_issues_iff notice p e details (rebuild sha256_hex false notice p e details) new)
          (verify_from_iff notice rows p' es news (λ eq. absurd (omega (arith, eq)))) in
      (
        λ h.
            let ((height, (prev, (fresh, hashed))), (linked, rest)) = go h in
            (
              (
                omega arith,
                prev ∙ expected_prev _ p.index _ height first,
                subst (λ n. IsLinked n (some e.event_hash) es) (the_next p.index) linked,
              ),
              ((fresh, hashed), rest),
            ),
        λ h.
            let ((height, prev, linked), ((fresh, hashed), rest)) = h in
            let up : e.event_height ≡ p.index + 1 = omega arith in
            back (
              (up, (prev ∙ sym (expected_prev _ p.index _ up first), (fresh, hashed))),
              (
                subst (λ n. IsLinked n (some e.event_hash) es) (sym (the_next p.index)) linked,
                rest,
              ),
            ),
      )

pub modern-pre_versioned :
    (events : List Event) (rows : List DetailRow)
    → All (λ e. 2 ≤ e.canon_version) events
    → has_pre_versioned_archive_upsert events rows ≡ false
unfolding has_pre_versioned_archive_upsert
modern-pre_versioned [] rows new = refl
modern-pre_versioned (e ∷ es) rows (new, news) =
    let old : leb e.canon_version 1 ≡ false = ground arith in
    rw old (modern-pre_versioned es rows news)

-- The audit of a chain whose events all have canon version 2 or more reports no issue exactly when
-- the chain is linked from height 1 with no predecessor, every event has the hash, the type, the
-- count and the summary that the details so far rebuild, and every detail the hashes of its values.
pub verify_chain_iff :
    (sha256_hex : Text → Text) (notice : ℕ) (events : List Event) (rows : List DetailRow)
    → All (λ e. 2 ≤ e.canon_version) events
    → ((verify_chain sha256_hex notice events rows).issues ≡ [])
      ↔ (IsLinked 0 none events × AreRebuilt sha256_hex notice rows at_start events)
unfolding verify_chain
verify_chain_iff sha256_hex notice events rows new =
    rw (modern-pre_versioned events rows new)
      (verify_from_iff sha256_hex notice rows at_start events new (λ eq. refl))
