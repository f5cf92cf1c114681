-- ===== src/Webhooks/Bulk.antt =====
-- `createBulk` of src/modules/webhook/webhook.service.ts: the urls that differ, one after the other.
pub mod Counts
use law_cast_backend.Base.{
  ℕ, zero, suc, ◌+◌, ◌-◌, List, [], ◌∷◌, ◌++◌, Option, none, some, Bool, true, false, not,
  if◌then◌else◌, keep, find_by, map, length, any,
}
use law_cast_backend.Change.Text.{Text, text_eq}
use law_cast_backend.Webhooks.{Table, Location, normalize_webhook_url, find_url, create_normalized}

-- `[...new Set(urls)]`: the first of those that are equal stays.
unfoldable pub unique_urls : List Text → List Text → List Text
unfolding text_eq
unique_urls seen [] = []
unique_urls seen (u ∷ us) =
    let rest = unique_urls (u ∷ seen) us in
    if any (text_eq u) seen then unique_urls seen us else u ∷ rest

pub record BulkResult : Type 0 where
  pub created : ℕ
  pub reactivated : ℕ
  pub duplicates : ℕ

-- What one url adds to the counts.
unfoldable pub counted : Table → Text → BulkResult → BulkResult
unfolding find_url
counted t url b = elim (find_url url t.rows) [
  | none ↦ record b { created = b.created + 1 }
  | some r ↦ if r.is_active then b else record b { reactivated = b.reactivated + 1 }
]

unfoldable pub create_each : Table → List Text → ℕ → BulkResult → Table × BulkResult
unfolding counted create_normalized
create_each t [] now b = (t, b)
create_each t (url ∷ urls) now b =
    create_each (create_normalized t url now).0 urls now (counted t url b)

unfoldable pub create_bulk : (Text → Option Location) → Table → List Text → ℕ → Table × BulkResult
unfolding create_each unique_urls normalize_webhook_url
create_bulk parse t urls now =
    let unique = unique_urls [] (map (normalize_webhook_url parse) urls) in
    create_each t unique now
      (record { created = 0; reactivated = 0; duplicates = length urls - length unique })
