-- ===== src/Notification/Plan/Groups.antt =====
-- About the groups of changes in `executeChangeNotificationBatch` of
-- src/modules/notification/notification-batch.service.ts.
use mathlib.Core.Path.{ap₂}
use law_cast_backend.Base.{
  ◌+◌, ◌≤◌, ◌≡◌, refl, sym, ap, ◌∙◌, List, [], ◌∷◌, ◌++◌, Bool, true, false, if◌then◌else◌, keep,
  map, length, concat, arith, append-nil, append_assoc, length-append,
}
use law_cast_backend.Change.Notify.{ChangeNotificationPayload}
use law_cast_backend.Notification.Plan.{
  Kind, regular, notice_period_ended, nsm_to_pal_transition, Message, change, change_digest,
  ends_period, is_transition, is_regular, group_jobs, change_jobs,
}

abbrev same_kind : Kind → Kind → Bool
same_kind regular regular = true
same_kind notice_period_ended notice_period_ended = true
same_kind nsm_to_pal_transition nsm_to_pal_transition = true
same_kind _ _ = false

module _ (N : Type 0) where
  -- The changes that a message tells as changes of a kind.
  abbrev tells : Kind → Message N → List ChangeNotificationPayload
  tells kind (change k p) = if same_kind kind k then p ∷ [] else []
  tells kind (change_digest k ps) = if same_kind kind k then ps else []
  tells kind _ = []

  abbrev pub all_told : Kind → List (Message N) → List ChangeNotificationPayload
  all_told kind jobs = concat (map (tells kind) jobs)

  all_told-group_jobs :
      (kind k : Kind) (ps : List ChangeNotificationPayload)
      → all_told kind (group_jobs {N = N} k ps) ≡ (if same_kind kind k then ps else [])
  unfolding group_jobs
  all_told-group_jobs kind k [] = ground arith
  all_told-group_jobs kind k (p ∷ []) = append-nil _
  all_told-group_jobs kind k (p ∷ q ∷ ps) = append-nil _

  all_told-append :
      (kind : Kind) (xs ys : List (Message N))
      → all_told kind (xs ++ ys) ≡ all_told kind xs ++ all_told kind ys
  all_told-append kind [] ys = refl
  all_told-append kind (x ∷ xs) ys =
      ap (◌++◌ (tells kind x)) (all_told-append kind xs ys)
      ∙ sym (append_assoc (tells kind x) (all_told kind xs) (all_told kind ys))

  group_jobs-length-le :
      (k : Kind) (ps : List ChangeNotificationPayload) → length (group_jobs {N = N} k ps) ≤ 1
  unfolding group_jobs
  group_jobs-length-le k [] = omega arith
  group_jobs-length-le k (p ∷ []) = omega arith
  group_jobs-length-le k (p ∷ q ∷ ps) = omega arith

  groups_length :
      (ps : List ChangeNotificationPayload)
      → length (keep is_regular ps) + length (keep ends_period ps) + length (keep is_transition ps)
        ≡ length ps
  groups_length [] = refl
  groups_length (p ∷ ps) = ground (arith, groups_length ps)

  told :
      (kind : Kind) (ps : List ChangeNotificationPayload)
      → all_told kind (change_jobs {N = N} ps)
        ≡ (if same_kind kind regular then keep is_regular ps else [])
          ++ (if same_kind kind notice_period_ended then keep ends_period ps else [])
          ++ (if same_kind kind nsm_to_pal_transition then keep is_transition ps else [])
  unfolding change_jobs
  told kind ps =
      let a : List (Message N) = group_jobs regular (keep is_regular ps) in
      let b : List (Message N) = group_jobs notice_period_ended (keep ends_period ps) in
      let c : List (Message N) = group_jobs nsm_to_pal_transition (keep is_transition ps) in
      all_told-append kind (a ++ b) c
      ∙ ap₂ ◌++◌
          (all_told-append kind a b
            ∙ ap₂ ◌++◌ (all_told-group_jobs kind regular (keep is_regular ps))
                (all_told-group_jobs kind notice_period_ended (keep ends_period ps)))
          (all_told-group_jobs kind nsm_to_pal_transition (keep is_transition ps))

  -- A batch of changes has at most three jobs. They tell each change once and under its own kind, in
  -- the order of the changes: as the end of a notice's period, or else as a move to the other
  -- source, or else as a regular change.
  pub change_jobs_lem :
      (ps : List ChangeNotificationPayload)
      → let jobs = change_jobs {N = N} ps in
        (length jobs ≤ 3)
        × (all_told regular jobs ≡ keep is_regular ps)
        × (all_told notice_period_ended jobs ≡ keep ends_period ps)
        × (all_told nsm_to_pal_transition jobs ≡ keep is_transition ps)
        × (length (keep is_regular ps)
              + length (keep ends_period ps)
              + length (keep is_transition ps)
            ≡ length ps)
  unfolding change_jobs
  change_jobs_lem ps =
      let a : List (Message N) = group_jobs regular (keep is_regular ps) in
      let b : List (Message N) = group_jobs notice_period_ended (keep ends_period ps) in
      let c : List (Message N) = group_jobs nsm_to_pal_transition (keep is_transition ps) in
      (
        omega (
          arith,
          length-append (a ++ b) c,
          length-append a b,
          group_jobs-length-le regular (keep is_regular ps),
          group_jobs-length-le notice_period_ended (keep ends_period ps),
          group_jobs-length-le nsm_to_pal_transition (keep is_transition ps),
        ),
        told regular ps ∙ append-nil (keep is_regular ps ++ []) ∙ append-nil (keep is_regular ps),
        told notice_period_ended ps ∙ append-nil (keep ends_period ps),
        told nsm_to_pal_transition ps,
        groups_length ps,
      )
