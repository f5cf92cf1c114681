-- ===== src/Cache.antt =====
-- The recent notices of src/modules/cache/cache.service.ts, with src/utils/notice-num.utils.ts and the
-- types of src/types/cache.types.ts. Redis is a record of what it holds under the service's keys; a
-- fault says which of its answers are errors. What the crawler's package puts into a notice beside its
-- number is a parameter. A summary that is missing and one that is null are both none.
pub mod Order
pub mod Reads
pub mod Contents
pub mod Entries
pub mod Lifetime
pub mod Summaries
mod Tests
use mathlib.Core.Option
use law_cast_backend.Base.{
  ℕ, zero, suc, min, List, [], ◌∷◌, ◌++◌, Option, none, some, Bool, true, false, not, ltb, ◌==◌,
  ◌&&◌, ◌||◌, if◌then◌else◌, keep, map, length, take,
}
use law_cast_backend.Base.Filters.{has}
use law_cast_backend.Promises.{Result, ok, err}
use law_cast_backend.Change.Text.{Text}

pub data AiSummaryStatus : Type 0 where
  ready unavailable not_supported not_requested : AiSummaryStatus

pub record CachedNotice (A : Type 0) : Type 0 where
  pub num : ℕ
  pub base : A
  pub num_comments : Option ℕ
  pub ai_summary : Option Text
  pub ai_summary_status : Option AiSummaryStatus
  pub proposal_reason : Option Text

-- `CACHE.MAX_SIZE` of src/config/app.config.ts.
abbrev pub max_size : ℕ
max_size = 5000

-- `normalizeNoticeNum` of a number that is not negative.
unfoldable pub normalize_notice_num : ℕ → Option ℕ
normalize_notice_num zero = none
normalize_notice_num (suc n) = some (suc n)

-- `Boolean(aiSummary)`: an empty text counts as none.
abbrev pub has_text : Option Text → Bool
has_text none = false
has_text (some []) = false
has_text (some (c ∷ s)) = true

abbrev pub is_ready : Option AiSummaryStatus → Bool
is_ready (some ready) = true
is_ready _ = false

module _ {A : Type 0} where
  unfoldable pub sanitize_notice : CachedNotice A → CachedNotice A
  sanitize_notice n = record n { num_comments = none }

  abbrev pub has_summary : CachedNotice A → Bool
  has_summary n = has_text n.ai_summary

  -- `sort((a, b) => b.num - a.num)`, which is stable: a notice goes before those of its number.
  unfoldable pub place : CachedNotice A → List (CachedNotice A) → List (CachedNotice A)
  place n [] = n ∷ []
  place n (m ∷ ms) = let rest = place n ms in if ltb n.num m.num then m ∷ rest else n ∷ m ∷ ms

  unfoldable pub sort_notices : List (CachedNotice A) → List (CachedNotice A)
  unfolding place
  sort_notices [] = []
  sort_notices (n ∷ ns) = place n (sort_notices ns)

  -- What stays under a number when another notice of the number comes.
  unfoldable pub upgrade : CachedNotice A → CachedNotice A → CachedNotice A
  upgrade old new =
      if not (has_summary old) && has_summary new
      then record old {
        ai_summary = new.ai_summary;
        ai_summary_status = some (Option.get_or new.ai_summary_status ready);
      }
      else if not (is_ready old.ai_summary_status) && is_ready new.ai_summary_status
      then record old {
        ai_summary_status = some ready;
        ai_summary = elim new.ai_summary [ none ↦ old.ai_summary | some s ↦ some s ];
      }
      else old

  -- One round of the loop over the merged notices: `Map.set` keeps the place of a number.
  unfoldable pub add_notice : List (CachedNotice A) → CachedNotice A → List (CachedNotice A)
  unfolding upgrade
  add_notice [] n = n ∷ []
  add_notice (m ∷ ms) n =
      let rest = add_notice ms n in if m.num == n.num then upgrade m n ∷ ms else m ∷ rest

  unfoldable pub dedupe : List (CachedNotice A) → List (CachedNotice A) → List (CachedNotice A)
  unfolding add_notice
  dedupe seen [] = seen
  dedupe seen (n ∷ ns) = dedupe (add_notice seen n) ns

  -- The list that `updateCache` writes.
  unfoldable pub merge_notices :
      List (CachedNotice A) → List (CachedNotice A) → List (CachedNotice A)
  unfolding sort_notices dedupe sanitize_notice
  merge_notices notices existing =
      let sorted = sort_notices (map sanitize_notice notices) in
      take max_size (sort_notices (dedupe [] (sorted ++ map sanitize_notice existing)))

pub data CacheError : Type 0 where
  redis_unavailable : CacheError

-- Which calls of Redis fail.
pub record Faults : Type 0 where
  pub reads : Bool
  pub writes_notices : Bool
  pub writes_time : Bool
  pub deletes_keywords : Bool

pub record CacheService (A : Type 0) : Type 0 where
  pub recent_notices_snapshot : Option (List (CachedNotice A))
  pub recent_notices : Option (List (CachedNotice A))
  pub last_updated : Option ℕ

pub record CacheInfo : Type 0 where
  pub size : ℕ
  pub updated_at : Option ℕ
  pub size_limit : ℕ
  pub is_initialized : Bool

-- Whether the number of a crawled notice is none that is known.
unfoldable pub is_new : List ℕ → ℕ → Bool
unfolding normalize_notice_num
is_new known k = elim (normalize_notice_num k) [ none ↦ true | some k' ↦ not (has k' known) ]

module _ {A : Type 0} where
  -- The snapshot, read from Redis if there is none yet; an error of Redis gives none.
  unfoldable pub load_snapshot :
      Bool
      → Option (List (CachedNotice A))
      → Option (List (CachedNotice A))
      → Option (List (CachedNotice A))
  unfolding sanitize_notice
  load_snapshot fails (some ns) stored = some ns
  load_snapshot true none stored = none
  load_snapshot false none none = some []
  load_snapshot false none (some ns) = some (map sanitize_notice ns)

  unfoldable pub get_recent_notices :
      Bool → CacheService A → ℕ → CacheService A × List (CachedNotice A)
  unfolding load_snapshot
  get_recent_notices fails c limit =
      elim (load_snapshot fails c.recent_notices_snapshot c.recent_notices) [
        | none ↦ (c, [])
        | some notices ↦ (
          record c { recent_notices_snapshot = some notices },
          map sanitize_notice (take (min limit max_size) notices),
        )
      ]

  abbrev pub cached_or_none : Option (List (CachedNotice A)) → List (CachedNotice A)
  cached_or_none none = []
  cached_or_none (some ns) = ns

  -- The two writes run side by side, and either may go through when the other fails.
  unfoldable pub write_cache : Faults → CacheService A → List (CachedNotice A) → ℕ → CacheService A
  write_cache f c notices now = record c {
    recent_notices = if f.writes_notices then c.recent_notices else some notices;
    last_updated = if f.writes_time then c.last_updated else some now;
  }

  -- What the new notices are merged with; an error of Redis gives none.
  unfoldable pub existing_notices :
      Bool
      → Option (List (CachedNotice A))
      → Option (List (CachedNotice A))
      → Option (List (CachedNotice A))
  existing_notices fails (some ns) stored = some ns
  existing_notices true none stored = none
  existing_notices false none stored = some (cached_or_none stored)

  unfoldable pub update_cache :
      Faults
      → CacheService A
      → List (CachedNotice A)
      → ℕ
      → CacheService A × Result CacheError (Unit {0})
  unfolding write_cache merge_notices existing_notices
  update_cache f c notices now =
      elim (existing_notices f.reads c.recent_notices_snapshot c.recent_notices) [
        | none ↦ (c, err redis_unavailable)
        | some ns ↦
            let merged = merge_notices notices ns in
            let c' = write_cache f c merged now in
            if f.writes_notices || f.writes_time
            then (c', err redis_unavailable)
            else (record c' { recent_notices_snapshot = some merged }, ok tt)
      ]

  -- The numbers that are positive.
  unfoldable pub known_nums : List (CachedNotice A) → List ℕ
  unfolding normalize_notice_num
  known_nums [] = []
  known_nums (n ∷ ns) = elim (normalize_notice_num n.num) [
    | none ↦ known_nums ns
    | some k ↦ k ∷ known_nums ns
  ]

  unfoldable pub find_new_notices :
      {B : Type 0} → (B → ℕ) → Bool → CacheService A → List B → Result CacheError (List B)
  unfolding known_nums is_new
  find_new_notices num fails c crawled =
      if fails then err redis_unavailable else elim (cached_or_none c.recent_notices) [
        | [] ↦ ok crawled
        | n ∷ ns ↦
            ok
              (keep (λ item. is_new (known_nums (map sanitize_notice (n ∷ ns))) (num item)) crawled)
      ]

  unfoldable pub get_cache_info : Bool → CacheService A → CacheInfo
  get_cache_info fails c =
      if fails
      then record { size = 0; updated_at = none; size_limit = max_size; is_initialized = false }
      else record {
        size = length (cached_or_none c.recent_notices);
        updated_at = c.last_updated;
        size_limit = max_size;
        is_initialized = ltb 0 (length (cached_or_none c.recent_notices));
      }

  -- Deletions that fail may have taken place in part: `Faults` says which.
  unfoldable pub clear_cache :
      Faults → CacheService A → CacheService A × Result CacheError (Unit {0})
  clear_cache f c =
      let c' : CacheService A = record c {
        recent_notices = if f.writes_notices then c.recent_notices else none;
        last_updated = if f.writes_time then c.last_updated else none;
      } in
      if f.writes_notices || f.writes_time || f.deletes_keywords
      then (c', err redis_unavailable)
      else (record c' { recent_notices_snapshot = none }, ok tt)
