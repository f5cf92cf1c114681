-- ===== src/Notification/Deactivation.antt =====
-- About `dispatchToWebhooks` of src/modules/notification/notification-batch.service.ts.
use mathlib.Core.Path.{ap₂}
use law_cast_backend.Base.{
  ℕ, ◌+◌, ◌≡◌, inl, inr, Bool-cases, Option-cases, refl, sym, ap, subst, ◌∙◌, List, [], ◌∷◌, none,
  Bool, true, false, not, ◌==◌, ◌&&◌, ◌||◌, if◌then◌else◌, find_by, keep, map, length, All, arith,
}
use law_cast_backend.Base.Filters.{has, Distinct, All-imp, All-always}
use law_cast_backend.Promises.{Result, ok}
use law_cast_backend.Webhooks.{Webhook, find_one, remove, save, deactivated}
use law_cast_backend.Webhooks.Urls.{IsOnly, found-IsOnly, find_by-holds}
use law_cast_backend.Notification.{
  NotificationResult, Receivers, WebhookDispatch, failed_ids, deactivate, deactivate_each,
  count_results, dispatch_to_webhooks,
}

-- The ids whose removal the database does not refuse.
abbrev pub accepted : (ℕ → Bool) → List ℕ → List ℕ
accepted refuses ids = keep (λ id. not (refuses id)) ids

-- A row after the webhooks of some ids are deactivated.
abbrev pub switched_off : ℕ → List ℕ → Webhook → Webhook
switched_off now ids r = if r.is_active && has r.id ids then deactivated now r else r

abbrev id_of : Webhook → ℕ
id_of r = r.id

map_same : {A : Type 0} (f g : A → A) (xs : List A) → All (λ x. f x ≡ g x) xs → map f xs ≡ map g xs
map_same f g [] h = refl
map_same f g (x ∷ xs) h = ap₂ ◌∷◌ h.0 (map_same f g xs h.1)

map_self : {A : Type 0} (f : A → A) (xs : List A) → All (λ x. f x ≡ x) xs → map f xs ≡ xs
map_self f [] h = refl
map_self f (x ∷ xs) h = ap₂ ◌∷◌ h.0 (map_self f xs h.1)

none_holds :
    (p : Webhook → Bool) (rows : List Webhook) → find_by p rows ≡ none → All (λ r. p r ≡ false) rows
none_holds p [] h = tt
none_holds p (x ∷ rows) h = ground (arith, none_holds p rows)

-- What an accepted removal does to the rows, if the row is there.
switched_row :
    (now id : ℕ) (r q : Webhook)
    → (r.id == id) ≡ true
    → r.is_active ≡ true
    → IsOnly r q
    → (if q.id == (deactivated now r).id then deactivated now r else q)
      ≡ switched_off now (id ∷ []) q
switched_row now id r q h a only = elim (Bool-cases (q.id == r.id)) [
  | inl k ↦ rw (only k) (ground (arith, h, a))
  | inr k ↦ ground (arith, h, k)
]

inactive_row :
    (now id : ℕ) (r q : Webhook)
    → (r.id == id) ≡ true
    → r.is_active ≡ false
    → IsOnly r q
    → q ≡ switched_off now (id ∷ []) q
inactive_row now id r q h a only = elim (Bool-cases (q.id == r.id)) [
  | inl k ↦ rw (only k) (ground (arith, h, a))
  | inr k ↦ ground (arith, h, k)
]

deactivate_accepted :
    (refuses : ℕ → Bool) (now : ℕ) (s : Receivers) (id : ℕ)
    → Distinct id_of s.webhooks.rows
    → refuses id ≡ false
    → (deactivate refuses now s id).webhooks.rows ≡ map (switched_off now (id ∷ [])) s.webhooks.rows
unfolding deactivate remove find_one save
deactivate_accepted refuses now s id d taken =
    let rows = s.webhooks.rows in
    let p : Webhook → Bool = λ r. r.id == id in
    elim (Option-cases (find_by p rows)) [
      | inl h ↦
          rw (taken, h, find_one, remove, deactivate)
            (sym
              (map_self _ rows (All-imp _ _ rows (λ r k. ground (arith, k)) (none_holds p rows h))))
      | inr found ↦
          let (r, h) = found in
          let at = find_by-holds p rows r h in
          let only = found-IsOnly p rows r h d in
          elim (Bool-cases r.is_active) [
            | inl k ↦
                rw (taken, h, find_one, remove, k, deactivate)
                  (map_same _ _ rows
                    (All-imp _ _ rows (λ q o. switched_row now id r q at k o) only))
            | inr k ↦
                rw (taken, h, find_one, remove, k, deactivate)
                  (sym (
                    map_self _ rows
                      (All-imp _ _ rows (λ q o. sym (inactive_row now id r q at k o)) only)))
          ]
    ]

switched_none : (now : ℕ) (r : Webhook) → switched_off now [] r ≡ r
switched_none now r = ground arith

switched_both :
    (now id : ℕ) (ids : List ℕ) (r : Webhook)
    → switched_off now ids (switched_off now (id ∷ []) r) ≡ switched_off now (id ∷ ids) r
switched_both now id ids r = elim (Bool-cases r.is_active) [
  | inl a ↦ elim (Bool-cases (r.id == id)) [
    | inl e ↦ ground (arith, a, e)
    | inr e ↦ ground (arith, a, e)
  ]
  | inr a ↦ ground (arith, a)
]

switched_id : (now : ℕ) (ids : List ℕ) (r : Webhook) → (switched_off now ids r).id ≡ r.id
switched_id now ids r = ground arith

has-switched :
    (k now : ℕ) (ids : List ℕ) (rows : List Webhook)
    → has k (map id_of (map (switched_off now ids) rows)) ≡ has k (map id_of rows)
has-switched k now ids [] = refl
has-switched k now ids (r ∷ rows) =
    ap₂ (λ i b. k == i || b) (switched_id now ids r) (has-switched k now ids rows)

Distinct-switched :
    (now : ℕ) (ids : List ℕ) (rows : List Webhook)
    → Distinct id_of rows
    → Distinct id_of (map (switched_off now ids) rows)
Distinct-switched now ids [] d = tt
Distinct-switched now ids (r ∷ rows) d = (
  rw (switched_id now ids r) (has-switched r.id now ids rows ∙ d.0),
  Distinct-switched now ids rows d.1,
)

map-map :
    {A : Type 0} (f g h : A → A) (xs : List A)
    → ((x : A) → f (g x) ≡ h x)
    → map f (map g xs) ≡ map h xs
map-map f g h [] e = refl
map-map f g h (x ∷ xs) e = ap₂ ◌∷◌ (e x) (map-map f g h xs e)

deactivate_refused :
    (refuses : ℕ → Bool) (now : ℕ) (s : Receivers) (id : ℕ)
    → refuses id ≡ true
    → deactivate refuses now s id ≡ s
unfolding deactivate
deactivate_refused refuses now s id h = rw (h, deactivate) refl

deactivate_each_rows :
    (refuses : ℕ → Bool) (now : ℕ) (s : Receivers) (ids : List ℕ)
    → Distinct id_of s.webhooks.rows
    → (deactivate_each refuses now s ids).webhooks.rows
      ≡ map (switched_off now (accepted refuses ids)) s.webhooks.rows
unfolding deactivate_each
deactivate_each_rows refuses now s [] d =
    sym (map_self _ s.webhooks.rows (All-always _ s.webhooks.rows (switched_none now)))
deactivate_each_rows refuses now s (id ∷ ids) d = elim (Bool-cases (refuses id)) [
  | inl k ↦ rw k (
      ap (λ x. (deactivate_each refuses now x ids).webhooks.rows)
        (deactivate_refused refuses now s id k)
      ∙ deactivate_each_rows refuses now s ids d)
  | inr k ↦
      let s' = deactivate refuses now s id in
      let e = deactivate_accepted refuses now s id d k in
      rw k (
        deactivate_each_rows refuses now s' ids
          (subst (Distinct id_of) (sym e) (Distinct-switched now (id ∷ []) s.webhooks.rows d))
        ∙ ap (map (switched_off now (accepted refuses ids))) e
        ∙ map-map _ _ _ s.webhooks.rows (switched_both now id (accepted refuses ids)))
]

counted_all :
    (results : List NotificationResult)
    → (count_results results).success_count + (count_results results).failed_count ≡ length results
unfolding count_results
counted_all [] = refl
counted_all (r ∷ results) = ground (arith, counted_all results)

-- When there is a webhook to send to and the send answers, the dispatch deactivates exactly the
-- active webhooks whose send failed for good and whose removal the database does not refuse, keeps
-- every other row as it was, and counts every result once: as a success, as a deactivation or as a
-- temporary failure. The ids of the table are unique.
pub dispatch_to_webhooks_lem :
    {W E : Type 0} (refuses : ℕ → Bool) (now : ℕ) (s : Receivers) (w : W) (ws : List W)
    (results : List NotificationResult)
    → Distinct id_of s.webhooks.rows
    → let sent : Result E (List NotificationResult) = ok results in
      let (s', answer) = dispatch_to_webhooks refuses now s (w ∷ ws) sent in
      (c : WebhookDispatch) × (answer ≡ ok c)
      × (s'.webhooks.rows
          ≡ map (switched_off now (accepted refuses (failed_ids results))) s.webhooks.rows)
      × (c.success_count + c.deactivated + c.temporary_failures ≡ length results)
      × (c.failed_count ≡ c.deactivated + c.temporary_failures)
unfolding dispatch_to_webhooks count_results
dispatch_to_webhooks_lem refuses now s w ws results d = (
  count_results results,
  refl,
  deactivate_each_rows refuses now s (failed_ids results) d,
  omega (arith, counted_all results),
  refl,
)
