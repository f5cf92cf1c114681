-- ===== src/Webhooks/Urls.antt =====
-- About the rows that `create` and `remove` of src/modules/webhook/webhook.service.ts find and write.
use mathlib.Core.Option
use law_cast_backend.Base.{
  ◌<◌, ◌≡◌, inl, inr, Bool-cases, ap, List, [], ◌∷◌, some, Bool, true, false, ◌==◌, ==_iff, find_by,
  map, any, All, arith,
}
use law_cast_backend.Base.Filters.{has, Distinct, All-imp, others_differ}
use law_cast_backend.Change.Text.{Text, text_eq}
use law_cast_backend.Webhooks.{Webhook, Table}

-- Whether a url stands in some row.
abbrev pub has_url : Text → List Webhook → Bool
has_url url rows = any (λ r. text_eq r.url url) rows

-- No two rows have the same url.
abbrev pub UrlsDistinct : List Webhook → Type 0
UrlsDistinct [] = Unit
UrlsDistinct (r ∷ rs) = (has_url r.url rs ≡ false) × UrlsDistinct rs

-- Unique ids below the next one, and unique urls.
pub record IsValid (t : Table) : Type 0 where
  pub ids : Distinct (λ r. r.id) t.rows
  pub below : All (λ r. r.id < t.next_id) t.rows
  pub urls : UrlsDistinct t.rows

abbrev pub IsOnly : Webhook → Webhook → Type 0
IsOnly r q = (q.id == r.id) ≡ true → q ≡ r

pub find_by-has :
    (p : Webhook → Bool) (rows : List Webhook) (r : Webhook)
    → find_by p rows ≡ some r
    → has r.id (map (λ q. q.id) rows) ≡ true
find_by-has p [] r h = cc
find_by-has p (x ∷ rows) r h =
    ground (arith, find_by-has p rows r, ap (Option.map (λ (w : Webhook). w.id)) h)

pub find_by-holds :
    (p : Webhook → Bool) (rows : List Webhook) (r : Webhook) → find_by p rows ≡ some r → p r ≡ true
find_by-holds p [] r h = cc
find_by-holds p (x ∷ rows) r h = ground (arith, find_by-holds p rows r, ap (Option.map p) h)

-- A row that was found is the only one with its id.
pub found-IsOnly :
    (p : Webhook → Bool) (rows : List Webhook) (r : Webhook)
    → find_by p rows ≡ some r
    → Distinct (λ q. q.id) rows
    → All (IsOnly r) rows
found-IsOnly p [] r h d = tt
found-IsOnly p (x ∷ rows) r h d = elim (Bool-cases (p x)) [
  | inl k ↦
      let e : x ≡ r = ground (arith, h, k) in
      (
        λ _. e,
        All-imp (λ y. (y.id == x.id) ≡ false) (IsOnly r) rows
            (λ y n m. absurd (ground (arith, n, m, ap (λ (w : Webhook). w.id) e)))
            (others_differ (λ q. q.id) x.id rows d.0),
      )
  | inr k ↦ (
    λ m. absurd (ground (arith, k, h, m, d.0, find_by-has p rows r, ==_iff x.id r.id)),
    found-IsOnly p rows r (ground (arith, h, k)) d.1,
  )
]
