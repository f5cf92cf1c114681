-- ===== src/Change/Audit/Before.antt =====
-- About the audit of a chain whose details have other values from before their changes.
use law_cast_backend.Base.{
  ℕ, ◌≤◌, ◌≡◌, refl, sym, ap, List, [], ◌∷◌, Option, none, some, false, All, map, subst,
  if◌then◌else◌, ◌==◌, Bool-cases, inl, inr,
}
use law_cast_backend.Change.Text.{Text}
use law_cast_backend.Change.Value.{Fields}
use law_cast_backend.Change.Diff.{hash_comparable}
use law_cast_backend.Change.Event.{Event, DetailRow, build_diff_event}
use law_cast_backend.Change.Append.{details_of}
use law_cast_backend.Change.Diff.Canonical.{canonicalize_change_snapshot_for_source}
use law_cast_backend.Change.Audit.State.{apply_details_to_tracked_state}
use law_cast_backend.Change.Audit.{
  Progress, at_start, advance, ensured, tracked, next_state, rebuild, verify_chain,
}
use law_cast_backend.Change.Audit.Integrity.{AreHashed, AreRebuilt, IsRebuilt, verify_chain_iff}

module _ (sha256_hex : Text → Text) (value : DetailRow → Option Text) where
  -- The row with another value from before the change, and with that value's hash.
  abbrev pub with_before : DetailRow → DetailRow
  with_before r = record r {
    detail = record r.detail {
      before_value = value r;
      before_hash = hash_comparable sha256_hex (value r);
    };
  }

  same_state :
      (id : ℕ) (rows : List DetailRow) (state : Fields)
      → apply_details_to_tracked_state state (details_of id (map with_before rows))
        ≡ apply_details_to_tracked_state state (details_of id rows)
  unfolding details_of apply_details_to_tracked_state
  same_state id [] state = refl
  same_state id (r ∷ rows) state = elim (Bool-cases (r.event_id == id)) [
    | inl h ↦ rw (h, details_of) (same_state id rows _)
    | inr h ↦ rw (h, details_of) (same_state id rows state)
  ]

  hashed :
      (id : ℕ) (rows : List DetailRow)
      → AreHashed sha256_hex (details_of id rows)
      → AreHashed sha256_hex (details_of id (map with_before rows))
  unfolding details_of
  hashed id [] h = tt
  hashed id (r ∷ rows) h = elim (Bool-cases (r.event_id == id)) [
    | inl k ↦
        let h' : AreHashed sha256_hex (r.detail ∷ details_of id rows) = (rw (k, details_of) at h) in
        rw (k, details_of) (refl, (h'.1.0, hashed id rows h'.1.1))
    | inr k ↦ rw (k, details_of) (hashed id rows (rw (k, details_of) at h))
  ]

  same_next :
      (p : Progress) (e : Event) (rows : List DetailRow)
      → next_state sha256_hex false p e (details_of e.id rows)
        ≡ next_state sha256_hex false p e (details_of e.id (map with_before rows))
  unfolding next_state
  same_next p e rows = sym (same_state e.id rows _)

  same_rebuild :
      (notice : ℕ) (p : Progress) (e : Event) (rows : List DetailRow)
      → rebuild sha256_hex false notice p e (details_of e.id rows)
        ≡ rebuild sha256_hex false notice p e (details_of e.id (map with_before rows))
  unfolding rebuild
  same_rebuild notice p e rows =
      ap
        (λ state. build_diff_event sha256_hex (record {
          notice_num = notice;
          before_snapshot =
              if p.index == 0
              then none
              else some (
                  canonicalize_change_snapshot_for_source e.source e.canon_version
                    (ensured sha256_hex false p e));
          after_snapshot = canonicalize_change_snapshot_for_source e.source e.canon_version state;
          detected_at = e.detected_at;
          source = e.source;
          tracked_fields = tracked sha256_hex false e;
          hash_algo = e.hash_algo;
          canon_version = e.canon_version;
          preferred_event_type = none;
        }))
        (same_next p e rows)

  still_rebuilt :
      (notice : ℕ) (p : Progress) (rows : List DetailRow) (es : List Event)
      → AreRebuilt sha256_hex notice rows p es
      → AreRebuilt sha256_hex notice (map with_before rows) p es
  still_rebuilt notice p rows [] h = tt
  still_rebuilt notice p rows (e ∷ es) ((here, hashes), rest) = (
    (subst (IsRebuilt sha256_hex e) (same_rebuild notice p e rows) here, hashed e.id rows hashes),
    subst (λ q. AreRebuilt sha256_hex notice (map with_before rows) q es)
        (ap (λ state. record (advance sha256_hex false p e []) { current_state = state })
          (same_next p e rows))
        (still_rebuilt notice (advance sha256_hex false p e (details_of e.id rows)) rows es rest),
  )

-- When the events of a chain all have canon version 2 or more and the audit is silent, it stays
-- silent after the values from before the changes are replaced by any others in all stored details,
-- each together with its own hash.
pub verify_chain_blind_to_before :
    (sha256_hex : Text → Text) (value : DetailRow → Option Text) (notice : ℕ) (events : List Event)
    (rows : List DetailRow)
    → All (λ e. 2 ≤ e.canon_version) events
    → (verify_chain sha256_hex notice events rows).issues ≡ []
    → (verify_chain sha256_hex notice events (map (with_before sha256_hex value) rows)).issues ≡ []
verify_chain_blind_to_before sha256_hex value notice events rows new clean =
    let (linked, rebuilt) = (verify_chain_iff sha256_hex notice events rows new).0 clean in
    (verify_chain_iff sha256_hex notice events (map (with_before sha256_hex value) rows) new).1
      (linked, still_rebuilt sha256_hex value notice at_start rows events rebuilt)
