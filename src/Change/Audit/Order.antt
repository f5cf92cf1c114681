-- ===== src/Change/Audit/Order.antt =====
-- What the audit finds on the tables that `appendChangeEventWithDetails` leaves.
use law_cast_backend.Base.{
  ℕ, suc, ◌+◌, ◌≤◌, ◌≡◌, refl, sym, ap, ◌∙◌, inl, inr, List, [], ◌∷◌, ◌++◌, Option, none, some,
  Bool, true, false, not, arith, ltb, leb, ◌==◌, ◌&&◌, if◌then◌else◌, Bool-cases, subst,
}
use law_cast_backend.Change.Text.{Text, text_eq, same_text}
use law_cast_backend.Change.Diff.{Detail, hash_comparable}
use law_cast_backend.Change.Diff.Tracked.{same_text_refl}
use law_cast_backend.Change.Event.{Event, DetailRow, BuildOutput, same_type}
use law_cast_backend.Change.Append.{Store, details_of}
use law_cast_backend.Change.Append.Linked.{IsLinked, WellFormed, chain}
use law_cast_backend.Change.Audit.Legacy.{is_legacy_canonical_hash_compatible}
use law_cast_backend.Change.Audit.{
  Issue, ErrorCode, event_height_gap, prev_hash_mismatch, event_hash_mismatch, event_type_mismatch,
  changed_field_count_mismatch, diff_summary_mismatch, detail_before_hash_mismatch,
  detail_after_hash_mismatch, Progress, at_start, when, rebuild, event_issues, detail_issues,
  advance, verify_from, verify_chain, verify_notice_chain, put_in_order, events_of, issue_at,
  has_pre_versioned_archive_upsert,
}
use law_cast_backend.Change.Audit.Integrity.{expected_prev}

-- An issue on the links between the events.
abbrev is_link_code : ErrorCode → Bool
is_link_code event_height_gap = true
is_link_code prev_hash_mismatch = true
is_link_code _ = false

unfoldable pub has_no_link_issue : List Issue → Bool
has_no_link_issue [] = true
has_no_link_issue (i ∷ is) = not (is_link_code i.code) && has_no_link_issue is

put-linked :
    (e : Event) (h : ℕ) (p : Option Text) (es : List Event)
    → e.event_height ≤ h
    → IsLinked h p es
    → put_in_order e es ≡ e ∷ es
unfolding put_in_order
put-linked e h p [] le l = refl
put-linked e h p (f ∷ es) le (up, prev, l) =
    let first : ltb e.event_height f.event_height ≡ true = ground arith in rw first refl

-- A linked chain is read in the order of insertion.
events_of-linked :
    (notice h : ℕ) (p : Option Text) (events : List Event)
    → IsLinked h p (chain notice events)
    → events_of notice events ≡ chain notice events
unfolding events_of
events_of-linked notice h p [] l = refl
events_of-linked notice h p (e ∷ es) l = elim (Bool-cases (e.notice_num == notice)) [
  | inr miss ↦ rw miss (events_of-linked notice h p es (rw miss at l))
  | inl hit ↦
      let (up, prev, rest) : IsLinked h p (e ∷ chain notice es) = (rw hit at l) in
      rw hit (
        ap (put_in_order e) (events_of-linked notice (suc h) (some e.event_hash) es rest)
        ∙ put-linked e (suc h) (some e.event_hash) (chain notice es) (omega arith) rest)
]

no_issue : has_no_link_issue [] ≡ true
unfolding has_no_link_issue
no_issue = refl

-- An issue of another code may be there or not, and one of these codes is not there.
other_code :
    (b : Bool) (i : Issue) (is : List Issue)
    → is_link_code i.code ≡ false
    → has_no_link_issue is ≡ true
    → has_no_link_issue (when b i ++ is) ≡ true
unfolding when has_no_link_issue
other_code true i is h k = rw (h, k) refl
other_code false i is h k = k

not_raised :
    (b : Bool) (i : Issue) (is : List Issue)
    → b ≡ true
    → has_no_link_issue is ≡ true
    → has_no_link_issue (when (not b) i ++ is) ≡ true
unfolding when
not_raised b i is h k = rw h k

not_raised_guarded :
    (b c : Bool) (i : Issue) (is : List Issue)
    → b ≡ true
    → has_no_link_issue is ≡ true
    → has_no_link_issue (when (not b && c) i ++ is) ≡ true
unfolding when
not_raised_guarded b c i is h k = rw h k

has_no_link_issue-append :
    (is js : List Issue)
    → has_no_link_issue is ≡ true
    → has_no_link_issue js ≡ true
    → has_no_link_issue (is ++ js) ≡ true
unfolding has_no_link_issue
has_no_link_issue-append [] js h k = k
has_no_link_issue-append (i ∷ is) js h k = ground (arith, has_no_link_issue-append is js)

module _ (sha256_hex : Text → Text) where
  detail_issues-content :
      (notice : ℕ) (e : Event) (ds : List Detail)
      → has_no_link_issue (detail_issues sha256_hex (issue_at notice e) ds) ≡ true
  unfolding detail_issues
  detail_issues-content notice e [] = no_issue
  detail_issues-content notice e (d ∷ ds) =
      let before = same_text d.before_hash (hash_comparable sha256_hex d.before_value) in
      let after = same_text d.after_hash (hash_comparable sha256_hex d.after_value) in
      other_code (not before) (issue_at notice e detail_before_hash_mismatch) _ refl (
        other_code (not after) (issue_at notice e detail_after_hash_mismatch) _ refl
          (detail_issues-content notice e ds))

  event_issues-linked :
      (notice : ℕ) (p : Progress) (e : Event) (ds : List Detail) (r : BuildOutput)
      → e.event_height ≡ p.index + 1
      → e.prev_event_hash ≡ p.previous_hash
      → (p.index ≡ 0 → p.previous_hash ≡ none)
      → has_no_link_issue (event_issues sha256_hex notice p e ds r) ≡ true
  unfolding event_issues
  event_issues-linked notice p e ds r height prev first =
      let expected : e.prev_event_hash ≡ (if e.event_height == 1 then none else p.previous_hash) =
        prev ∙ sym (expected_prev _ p.index _ height first) in
      let hash_ok = text_eq e.event_hash r.event_hash in
      let legacy =
        leb e.canon_version 1 && not hash_ok && is_legacy_canonical_hash_compatible e r ds in
      let summary = same_text e.diff_summary_json (some r.diff.diff_summary_json) in
      not_raised (e.event_height == p.index + 1) (issue_at notice e event_height_gap) _
        (ground arith)
        (not_raised_guarded
          (same_text e.prev_event_hash (if e.event_height == 1 then none else p.previous_hash))
          (not legacy) (issue_at notice e prev_hash_mismatch) _
          (rw expected (same_text_refl (if e.event_height == 1 then none else p.previous_hash)))
          (other_code (not hash_ok && not legacy) (issue_at notice e event_hash_mismatch) _ refl (
            other_code (not (same_type e.event_type r.event_type))
              (issue_at notice e event_type_mismatch) _ refl
              (other_code (not (e.changed_field_count == r.diff.changed_field_count))
                (issue_at notice e changed_field_count_mismatch) _ refl
                (other_code (not summary) (issue_at notice e diff_summary_mismatch) _ refl
                  (detail_issues-content notice e ds))))))

  verify_from-linked :
      (has_pre : Bool) (notice : ℕ) (rows : List DetailRow) (p : Progress) (es : List Event)
      → (p.index ≡ 0 → p.previous_hash ≡ none)
      → IsLinked p.index p.previous_hash es
      → has_no_link_issue (verify_from sha256_hex has_pre notice rows p es) ≡ true
  unfolding verify_from
  verify_from-linked has_pre notice rows p [] first l = no_issue
  verify_from-linked has_pre notice rows p (e ∷ es) first (up, prev, l) =
      let details = details_of e.id rows in
      let next : suc p.index ≡ p.index + 1 = omega arith in
      has_no_link_issue-append _ _
        (event_issues-linked notice p e details (rebuild sha256_hex has_pre notice p e details)
          (omega arith) prev first)
        (verify_from-linked has_pre notice rows (advance sha256_hex has_pre p e details) es
          (λ eq. absurd (omega (arith, eq)))
          (subst (λ n. IsLinked n (some e.event_hash) es) next l))

  -- On tables whose chains are all linked the audit of a notice reports neither a gap between the
  -- heights nor a wrong hash of the event before.
  pub WellFormed-audit :
      (s : Store) (notice : ℕ)
      → WellFormed s.events
      → has_no_link_issue (verify_notice_chain sha256_hex s notice).issues ≡ true
  unfolding verify_notice_chain verify_chain
  WellFormed-audit s notice linked = rw (events_of-linked notice 0 none s.events (linked notice)) (
      verify_from-linked (has_pre_versioned_archive_upsert (chain notice s.events) s.details) notice
        s.details at_start (chain notice s.events) (λ eq. refl) (linked notice))
