-- ===== src/Webhooks.antt =====
-- `WebhookService` of src/modules/webhook/webhook.service.ts over the table of
-- src/modules/webhook/webhook.entity.ts. The table is a list of rows in the order of insertion. Each
-- method is taken as a whole: nothing else writes to the table while it runs. The parser of URLs is a
-- parameter, and so is the clock, in milliseconds.
pub mod Urls
pub mod Bulk
pub mod Cleanup
pub mod Create
pub mod Interleaved
pub mod Registry
pub mod Removal
pub mod Rows
mod Tests
use law_cast_backend.Base.{
  ℕ, zero, suc, ◌+◌, ◌-◌, List, [], ◌∷◌, ◌++◌, Option, none, some, Bool, true, false, not, ltb, leb,
  ◌==◌, ◌&&◌, if◌then◌else◌, keep, find_by, map, length, take, drop, any,
}
use law_cast_backend.Base.Filters.{has}
use law_cast_backend.Promises.{Result, ok, err}
use law_cast_backend.Change.Text.{Text, codes, text_eq}
use law_cast_backend.Change.Event.{lower}

pub record Webhook : Type 0 where
  pub id : ℕ
  pub url : Text
  pub is_active : Bool
  pub created_at : ℕ
  pub updated_at : ℕ

-- `next_id` is the next number of the generated column.
pub record Table : Type 0 where
  pub rows : List Webhook
  pub next_id : ℕ

-- What `new URL` reads.
pub record Location : Type 0 where
  pub protocol : Text
  pub hostname : Text
  pub pathname : Text

pub data HttpError : Type 0 where
  not_found : HttpError

unfoldable pub normalize_discord_webhook_host : Text → Text
unfolding lower text_eq
normalize_discord_webhook_host hostname =
    let normalized = lower hostname in
    if text_eq normalized (codes "discordapp.com") then codes "discord.com" else normalized

-- The path without the last character, if that is a slash and not all of it.
unfoldable pub without_slash : Text → Text
without_slash [] = []
without_slash (c ∷ []) = c ∷ []
without_slash (c ∷ d ∷ []) = if d == 47 then c ∷ [] else c ∷ d ∷ []
without_slash (c ∷ d ∷ e ∷ s) = c ∷ without_slash (d ∷ e ∷ s)

-- The parser gives nothing where `new URL` throws.
unfoldable pub normalize_webhook_url : (Text → Option Location) → Text → Text
unfolding normalize_discord_webhook_host without_slash
normalize_webhook_url parse url = elim (parse url) [
  | none ↦ url
  | some l ↦
      l.protocol
      ++ codes "//"
      ++ normalize_discord_webhook_host l.hostname
      ++ without_slash l.pathname
]

unfoldable pub find_url : Text → List Webhook → Option Webhook
unfolding text_eq
find_url url rows = find_by (λ r. text_eq r.url url) rows

abbrev pub activated : ℕ → Webhook → Webhook
activated now r = record r { is_active = true; updated_at = now }

abbrev pub deactivated : ℕ → Webhook → Webhook
deactivated now r = record r { is_active = false; updated_at = now }

-- `save` of a row that was read: the row with its id is written.
unfoldable pub save : Webhook → List Webhook → List Webhook
save row rows = map (λ r. if r.id == row.id then row else r) rows

-- `repository.create({ url })`, once it is saved.
abbrev pub new_webhook : ℕ → Text → ℕ → Webhook
new_webhook id url now = record {
  id = id;
  url = url;
  is_active = true;
  created_at = now;
  updated_at = now;
}

unfoldable pub insert : Table → Text → ℕ → Table
insert t url now = record {
  rows = t.rows ++ new_webhook t.next_id url now ∷ [];
  next_id = suc t.next_id;
}

-- What `create` and each round of `createBulk` do with a normalized url.
unfoldable pub create_normalized : Table → Text → ℕ → Table × Webhook
unfolding find_url save insert
create_normalized t url now = elim (find_url url t.rows) [
  | none ↦ (insert t url now, new_webhook t.next_id url now)
  | some r ↦
      if r.is_active
      then (t, r)
      else (record t { rows = save (activated now r) t.rows }, activated now r)
]

unfoldable pub create : (Text → Option Location) → Table → Text → ℕ → Table × Webhook
unfolding create_normalized normalize_webhook_url
create parse t url now = create_normalized t (normalize_webhook_url parse url) now

abbrev pub find_all : Table → List Webhook
find_all t = keep (λ r. r.is_active) t.rows

unfoldable pub find_one : Table → ℕ → Result HttpError Webhook
find_one t id = elim (find_by (λ r. r.id == id) t.rows) [ none ↦ err not_found | some r ↦ ok r ]

unfoldable pub find_by_url : (Text → Option Location) → Table → Text → Option Webhook
unfolding normalize_webhook_url text_eq
find_by_url parse t url =
    let normalized = normalize_webhook_url parse url in
    find_by (λ r. text_eq r.url normalized && r.is_active) t.rows

-- The row of an inactive webhook does not change, so that its time stays as well.
unfoldable pub remove : Table → ℕ → ℕ → Result HttpError Table
unfolding find_one save
remove t id now = elim (find_one t id) [
  | err e ↦ err e
  | ok r ↦ ok (if r.is_active then record t { rows = save (deactivated now r) t.rows } else t)
]

-- `delete({ id: In(ids) })` and the number of rows that it affects.
unfoldable pub delete_ids : List ℕ → List Webhook → List Webhook
delete_ids ids rows = keep (λ r. not (has r.id ids)) rows

-- The rounds of `removeFailedWebhooks`, with the number of rows deleted so far. None is given when
-- the fuel ends first.
unfoldable pub remove_from : ℕ → ℕ → List ℕ → List Webhook → ℕ → Option (List Webhook × ℕ)
unfolding delete_ids
remove_from fuel size [] rows total = some (rows, total)
remove_from zero size (i ∷ ids) rows total = none
remove_from (suc fuel) size (i ∷ ids) rows total =
    let left = delete_ids (take size (i ∷ ids)) rows in
    remove_from fuel size (drop size (i ∷ ids)) left (total + (length rows - length left))

abbrev pub remove_batch_size : ℕ
remove_batch_size = 500

pub remove_failed_webhooks : List ℕ → List Webhook → Option (List Webhook × ℕ)
unfolding remove_from
remove_failed_webhooks ids rows = remove_from (length ids) remove_batch_size ids rows 0
