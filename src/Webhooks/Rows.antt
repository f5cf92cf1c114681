-- ===== src/Webhooks/Rows.antt =====
-- About the rows that src/modules/webhook/webhook.service.ts saves, inserts and deletes.
use mathlib.Core.Path.{ap₂}
use law_cast_backend.Base.{
  ℕ, ◌<◌, ◌≡◌, inl, inr, Bool-cases, refl, sym, ap, ◌∙◌, List, [], ◌∷◌, ◌++◌, none, some, Bool,
  false, ◌||◌, ◌==◌, if◌then◌else◌, if_elim, find_by, keep, map, any, All, All-append, arith,
}
use law_cast_backend.Base.Filters.{has, Distinct, Distinct-keep, All-keep, All-imp}
use law_cast_backend.Change.Text.{Text, text_eq}
use law_cast_backend.Change.Diff.Tracked.{text_eq→eq, text_eq_refl}
use law_cast_backend.Webhooks.{Webhook, Table, find_url, save, insert, new_webhook}
use law_cast_backend.Webhooks.Urls.{has_url, UrlsDistinct, IsValid, IsOnly, found-IsOnly}

-- A row as it is to be saved: the id and the url of the row that was read.
pub record IsUpdate (w r : Webhook) : Type 0 where
  pub same_id : w.id ≡ r.id
  pub same_url : w.url ≡ r.url

has-save :
    (k : ℕ) (w : Webhook) (rows : List Webhook)
    → has k (map (λ q. q.id) (save w rows)) ≡ has k (map (λ q. q.id) rows)
unfolding save
has-save k w [] = refl
has-save k w (x ∷ rows) = ground (arith, has-save k w rows)

Distinct-save :
    (w : Webhook) (rows : List Webhook)
    → Distinct (λ q. q.id) rows
    → Distinct (λ q. q.id) (save w rows)
unfolding save
Distinct-save w [] d = tt
Distinct-save w (x ∷ rows) d =
    ground (arith, Distinct-save w rows d.1, has-save x.id w rows, has-save w.id w rows)

below-save :
    (n : ℕ) (w : Webhook) (rows : List Webhook)
    → All (λ q. q.id < n) rows
    → All (λ q. q.id < n) (save w rows)
unfolding save
below-save n w [] h = tt
below-save n w (x ∷ rows) h = ground (arith, below-save n w rows h.1)

saved_url :
    (w r x : Webhook) → IsUpdate w r → IsOnly r x → (if x.id == w.id then w else x).url ≡ x.url
saved_url w r x e h =
    if_elim (λ (q : Webhook). q.url ≡ x.url) (x.id == w.id) w x
      (λ k. e.same_url ∙ ap (λ (q : Webhook). q.url) (sym (h (rw (sym e.same_id) k)))) (λ k. refl)

has_url-save :
    (u : Text) (w r : Webhook) (rows : List Webhook)
    → IsUpdate w r
    → All (IsOnly r) rows
    → has_url u (save w rows) ≡ has_url u rows
unfolding save
has_url-save u w r [] e h = refl
has_url-save u w r (x ∷ rows) e h =
    ap₂ (λ v b. text_eq v u || b) (saved_url w r x e h.0) (has_url-save u w r rows e h.1)

UrlsDistinct-save :
    (w r : Webhook) (rows : List Webhook)
    → IsUpdate w r
    → All (IsOnly r) rows
    → UrlsDistinct rows
    → UrlsDistinct (save w rows)
unfolding save
UrlsDistinct-save w r [] e h d = tt
UrlsDistinct-save w r (x ∷ rows) e h d = (
  rw (saved_url w r x e h.0) (has_url-save x.url w r rows e h.1 ∙ d.0),
  UrlsDistinct-save w r rows e h.1 d.1,
)

has_url-keep :
    (u : Text) (p : Webhook → Bool) (rows : List Webhook)
    → has_url u rows ≡ false
    → has_url u (keep p rows) ≡ false
has_url-keep u p [] h = refl
has_url-keep u p (x ∷ rows) h = ground (arith, has_url-keep u p rows)

UrlsDistinct-keep :
    (p : Webhook → Bool) (rows : List Webhook) → UrlsDistinct rows → UrlsDistinct (keep p rows)
UrlsDistinct-keep p [] d = tt
UrlsDistinct-keep p (x ∷ rows) d =
    ground (arith, UrlsDistinct-keep p rows d.1, has_url-keep x.url p rows)

abbrev id_of : Webhook → ℕ
id_of r = r.id

has-snoc :
    (k : ℕ) (rows : List Webhook) (r : Webhook)
    → has k (map id_of rows) ≡ false
    → (k == r.id) ≡ false
    → has k (map id_of (rows ++ r ∷ [])) ≡ false
has-snoc k [] r h e = ground (arith, e)
has-snoc k (x ∷ rows) r h e = ground (arith, has-snoc k rows r)

text_eq_sym : (s t : Text) → text_eq s t ≡ false → text_eq t s ≡ false
text_eq_sym s t h = elim (Bool-cases (text_eq t s)) [
  | inl e ↦ absurd (ground (arith, h, text_eq_refl s, ap (text_eq s) (text_eq→eq t s e)))
  | inr e ↦ e
]

has_url-snoc :
    (u : Text) (rows : List Webhook) (r : Webhook)
    → has_url u rows ≡ false
    → text_eq r.url u ≡ false
    → has_url u (rows ++ r ∷ []) ≡ false
has_url-snoc u [] r h e = ground (arith, e)
has_url-snoc u (x ∷ rows) r h e = ground (arith, has_url-snoc u rows r)

pub none_found :
    (p : Webhook → Bool) (rows : List Webhook) → find_by p rows ≡ none → any p rows ≡ false
none_found p [] h = refl
none_found p (x ∷ rows) h = ground (arith, none_found p rows)

Distinct-snoc :
    (rows : List Webhook) (r : Webhook)
    → All (λ q. q.id < r.id) rows
    → Distinct id_of rows
    → Distinct id_of (rows ++ r ∷ [])
Distinct-snoc [] r h d = (refl, tt)
Distinct-snoc (x ∷ rows) r h d =
    (has-snoc x.id rows r d.0 (ground (arith, h.0)), Distinct-snoc rows r h.1 d.1)

UrlsDistinct-snoc :
    (rows : List Webhook) (r : Webhook)
    → has_url r.url rows ≡ false
    → UrlsDistinct rows
    → UrlsDistinct (rows ++ r ∷ [])
UrlsDistinct-snoc [] r h d = (refl, tt)
UrlsDistinct-snoc (x ∷ rows) r h d = (
  has_url-snoc x.url rows r d.0 (ground (arith, h, text_eq_sym x.url r.url)),
  UrlsDistinct-snoc rows r (ground (arith, h)) d.1,
)

pub save-IsValid :
    (t : Table) (w r : Webhook) (p : Webhook → Bool)
    → find_by p t.rows ≡ some r
    → IsUpdate w r
    → IsValid t
    → IsValid (record t { rows = save w t.rows })
save-IsValid t w r p h e v = record {
  ids = Distinct-save w t.rows v.ids;
  below = below-save t.next_id w t.rows v.below;
  urls = UrlsDistinct-save w r t.rows e (found-IsOnly p t.rows r h v.ids) v.urls;
}

pub keep-IsValid :
    (t : Table) (p : Webhook → Bool) → IsValid t → IsValid (record t { rows = keep p t.rows })
keep-IsValid t p v = record {
  ids = Distinct-keep id_of p t.rows v.ids;
  below = All-keep (λ r. r.id < t.next_id) p t.rows v.below;
  urls = UrlsDistinct-keep p t.rows v.urls;
}

pub insert-IsValid :
    (t : Table) (url : Text) (now : ℕ)
    → find_url url t.rows ≡ none
    → IsValid t
    → IsValid (insert t url now)
unfolding insert find_url
insert-IsValid t url now h v = record {
  ids = Distinct-snoc t.rows (new_webhook t.next_id url now) v.below v.ids;
  below = All-append _ t.rows _ (All-imp _ _ t.rows (λ r k. omega arith) v.below) (omega arith, tt);
  urls = UrlsDistinct-snoc t.rows (new_webhook t.next_id url now) (none_found _ t.rows h) v.urls;
}
