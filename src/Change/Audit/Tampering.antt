-- ===== src/Change/Audit/Tampering.antt =====
-- About the audit of a chain in which a stored hash was changed.
use law_cast_backend.Base.{ℕ, ◌≤◌, ◌≡◌, ◌≢◌, sym, ◌∙◌, List, [], ◌∷◌, ◌++◌, All, false}
use law_cast_backend.Change.Text.{Text}
use law_cast_backend.Change.Event.{Event, DetailRow}
use law_cast_backend.Change.Append.{details_of}
use law_cast_backend.Change.Audit.{Progress, at_start, advance, rebuild, verify_chain}
use law_cast_backend.Change.Audit.Integrity.{AreRebuilt, verify_chain_iff}

-- The event with another hash in its row.
abbrev pub with_hash : Event → Text → Event
with_hash e hash = record e { event_hash = hash }

All-with_hash :
    (xs ys : List Event) (e : Event) (hash : Text)
    → All (λ e. 2 ≤ e.canon_version) (xs ++ e ∷ ys)
    → All (λ e. 2 ≤ e.canon_version) (xs ++ with_hash e hash ∷ ys)
All-with_hash [] ys e hash h = h
All-with_hash (x ∷ xs) ys e hash (h, hs) = (h, All-with_hash xs ys e hash hs)

-- What is rebuilt does not depend on the stored hash.
same_hash :
    (sha256_hex : Text → Text) (notice : ℕ) (rows : List DetailRow) (p : Progress)
    (xs ys : List Event) (e : Event) (hash : Text)
    → AreRebuilt sha256_hex notice rows p (xs ++ e ∷ ys)
    → AreRebuilt sha256_hex notice rows p (xs ++ with_hash e hash ∷ ys)
    → hash ≡ e.event_hash
unfolding details_of rebuild
same_hash sha256_hex notice rows p [] ys e hash ((here, _), _) ((there, _), _) =
    there.0 ∙ sym here.0
same_hash sha256_hex notice rows p (x ∷ xs) ys e hash (_, hs) (_, ks) =
    same_hash sha256_hex notice rows (advance sha256_hex false p x (details_of x.id rows)) xs ys e
      hash hs ks

-- If a chain whose events all have canon version 2 or more has no issue, and the stored hash of one
-- of its events is replaced by another one, the audit reports an issue.
pub verify_chain_tampered :
    (sha256_hex : Text → Text) (notice : ℕ) (xs ys : List Event) (e : Event) (hash : Text)
    (rows : List DetailRow)
    → All (λ e. 2 ≤ e.canon_version) (xs ++ e ∷ ys)
    → (verify_chain sha256_hex notice (xs ++ e ∷ ys) rows).issues ≡ []
    → hash ≢ e.event_hash
    → (verify_chain sha256_hex notice (xs ++ with_hash e hash ∷ ys) rows).issues ≢ []
verify_chain_tampered sha256_hex notice xs ys e hash rows new clean other silent =
    let (linked, rebuilt) = (verify_chain_iff sha256_hex notice (xs ++ e ∷ ys) rows new).0 clean in
    let (linked', rebuilt') =
      (verify_chain_iff sha256_hex notice (xs ++ with_hash e hash ∷ ys) rows
          (All-with_hash xs ys e hash new)).0
        silent in
    other (same_hash sha256_hex notice rows at_start xs ys e hash rebuilt rebuilt')
