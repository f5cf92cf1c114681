-- ===== src/Webhooks/Create.antt =====
-- About `create`, `createBulk` and `findByUrl` of src/modules/webhook/webhook.service.ts together.
use law_cast_backend.Base.{
  ℕ, ◌+◌, ◌≡◌, inl, inr, Bool-cases, Option-cases, refl, sym, ap, ◌∙◌, List, [], ◌∷◌, ◌++◌, Option,
  none, some, Bool, true, false, ◌&&◌, ◌==◌, ==_iff, if◌then◌else◌, if_elim, find_by, keep, map,
  All, arith, length,
}
use law_cast_backend.Base.Filters.{has, Distinct, others_differ}
use law_cast_backend.Change.Text.{Text, text_eq}
use law_cast_backend.Change.Diff.Tracked.{text_eq→eq, text_eq_refl}
use law_cast_backend.Webhooks.{
  Webhook, Table, Location, find_url, save, insert, activated, new_webhook, create_normalized,
  create, normalize_webhook_url, find_by_url,
}
use law_cast_backend.Webhooks.Urls.{IsValid, find_by-has, find_by-holds}

abbrev pub id_of : Webhook → ℕ
id_of r = r.id

abbrev pub active_count : List Webhook → ℕ
active_count rows = length (keep (λ r. r.is_active) rows)

abbrev pub weight : Webhook → ℕ
weight r = if r.is_active then 1 else 0

save_other :
    (w : Webhook) (rows : List Webhook)
    → All (λ q. (q.id == w.id) ≡ false) rows
    → save w rows ≡ rows
unfolding save
save_other w [] h = refl
save_other w (x ∷ rows) h = ground (arith, h.0, save_other w rows h.1)

differs :
    (p : Webhook → Bool) (x r : Webhook) (rows : List Webhook)
    → find_by p rows ≡ some r
    → has x.id (map id_of rows) ≡ false
    → (x.id == r.id) ≡ false
differs p x r rows h n = ground (arith, n, find_by-has p rows r h, ==_iff x.id r.id)

-- The head is the row that is saved.
save_head :
    (w x : Webhook) (rows : List Webhook)
    → w.id ≡ x.id
    → has x.id (map id_of rows) ≡ false
    → save w (x ∷ rows) ≡ w ∷ rows
unfolding save
save_head w x rows e n =
    ground (arith, ==_iff x.id w.id, save_other w rows (rw e (others_differ id_of x.id rows n)))

save_tail :
    (w x : Webhook) (rows : List Webhook)
    → (x.id == w.id) ≡ false
    → save w (x ∷ rows) ≡ x ∷ save w rows
unfolding save
save_tail w x rows e = rw e refl

pub active_count-save :
    (p : Webhook → Bool) (w r : Webhook) (rows : List Webhook)
    → find_by p rows ≡ some r
    → w.id ≡ r.id
    → Distinct id_of rows
    → active_count (save w rows) + weight r ≡ active_count rows + weight w
active_count-save p w r [] h e d = cc
active_count-save p w r (x ∷ rows) h e d = elim (Bool-cases (p x)) [
  | inl k ↦
      let found : x ≡ r = ground (arith, h, k) in
      rw (save_head w x rows (e ∙ ap id_of (sym found)) d.0) (ground (arith, found))
  | inr k ↦
      rw (save_tail w x rows (rw e (differs p x r rows (ground (arith, h, k)) d.0)))
        (ground (arith, active_count-save p w r rows (ground (arith, h, k)) e d.1))
]

find_by-save :
    (p q : Webhook → Bool) (w r : Webhook) (rows : List Webhook)
    → find_by p rows ≡ some r
    → w.id ≡ r.id
    → Distinct id_of rows
    → ((x : Webhook) → p x ≡ false → q x ≡ false)
    → q w ≡ true
    → find_by q (save w rows) ≡ some w
find_by-save p q w r [] h e d f g = cc
find_by-save p q w r (x ∷ rows) h e d f g = elim (Bool-cases (p x)) [
  | inl k ↦
      let found : x ≡ r = ground (arith, h, k) in
      rw (save_head w x rows (e ∙ ap id_of (sym found)) d.0) (rw g refl)
  | inr k ↦
      rw (save_tail w x rows (rw e (differs p x r rows (ground (arith, h, k)) d.0)), f x k)
        (find_by-save p q w r rows (ground (arith, h, k)) e d.1 f g)
]

find_by-snoc :
    (q : Webhook → Bool) (rows : List Webhook) (w : Webhook)
    → find_by q rows ≡ none
    → q w ≡ true
    → find_by q (rows ++ w ∷ []) ≡ some w
find_by-snoc q [] w h g = rw g refl
find_by-snoc q (x ∷ rows) w h g = ground (arith, find_by-snoc q rows w)

find_by-imp :
    (p q : Webhook → Bool) (rows : List Webhook)
    → ((x : Webhook) → p x ≡ false → q x ≡ false)
    → find_by p rows ≡ none
    → find_by q rows ≡ none
find_by-imp p q [] f h = refl
find_by-imp p q (x ∷ rows) f h = ground (arith, f x, find_by-imp p q rows f)

find_by-same :
    (p q : Webhook → Bool) (rows : List Webhook) (r : Webhook)
    → ((x : Webhook) → p x ≡ false → q x ≡ false)
    → find_by p rows ≡ some r
    → q r ≡ true
    → find_by q rows ≡ some r
find_by-same p q [] r f h g = cc
find_by-same p q (x ∷ rows) r f h g = ground (arith, f x, find_by-same p q rows r f)

abbrev is_at : Text → Webhook → Bool
is_at url r = text_eq r.url url

abbrev pub is_active_at : Text → Webhook → Bool
is_active_at url r = text_eq r.url url && r.is_active

pub create_normalized_lem :
    (t : Table) (url : Text) (now : ℕ)
    → IsValid t
    → let (t', w) = create_normalized t url now in
      (find_by (is_active_at url) t'.rows ≡ some w) × (w.is_active ≡ true) × (w.url ≡ url)
unfolding create_normalized find_url insert
create_normalized_lem t url now v =
    let weaker : (x : Webhook) → is_at url x ≡ false → is_active_at url x ≡ false =
      λ x k. ground (arith, k) in
    elim (Option-cases (find_url url t.rows)) [
      | inl h ↦
          rw (h, create_normalized)
            (
              find_by-snoc (is_active_at url) t.rows (new_webhook t.next_id url now)
                  (find_by-imp (is_at url) (is_active_at url) t.rows weaker h)
                  (ground (arith, text_eq_refl url)),
              refl,
              refl,
            )
      | inr found ↦
          let (r, h) = found in
          let at = find_by-holds (is_at url) t.rows r h in
          rw (h, create_normalized)
            (if_elim
              (λ (x : Table × Webhook).
                (find_by (is_active_at url) x.0.rows ≡ some x.1)
                × (x.1.is_active ≡ true)
                × (x.1.url ≡ url))
              r.is_active _ _
              (λ k. (
                find_by-same (is_at url) (is_active_at url) t.rows r weaker h
                    (ground (arith, at, k)),
                k,
                text_eq→eq r.url url at,
              ))
              (λ k. (
                find_by-save (is_at url) (is_active_at url) (activated now r) r t.rows h refl v.ids
                    weaker (ground (arith, at)),
                refl,
                text_eq→eq r.url url at,
              )))
    ]

-- On a table with unique ids, `findByUrl` gives back the webhook that `create` returned for the same
-- url, new, known or reactivated; it is active.
pub find_by_url-create :
    (parse : Text → Option Location) (t : Table) (url : Text) (now : ℕ)
    → IsValid t
    → (find_by_url parse (create parse t url now).0 url ≡ some (create parse t url now).1)
      × ((create parse t url now).1.is_active ≡ true)
unfolding create find_by_url
find_by_url-create parse t url now v =
    let made = create_normalized_lem t (normalize_webhook_url parse url) now v in (made.0, made.1)
