-- ===== src/Cache/Tests.antt =====
-- Runs of src/modules/cache/cache.service.ts at concrete inputs.
use mathlib.Core.Option
use law_cast_backend.Base.{
  ℕ, ◌≡◌, ◌⊎◌, min, refl, List, [], ◌∷◌, ◌++◌, Option, none, some, true, false, not, ◌||◌, ◌==◌,
  keep, map, take, All, String,
}
use law_cast_backend.Promises.{ok}
use law_cast_backend.Base.Filters.{has}
use law_cast_backend.Change.Text.{Text, codes}
use law_cast_backend.Cache.{
  CachedNotice, CacheService, Faults, redis_unavailable, not_requested, update_cache, merge_notices,
  get_recent_notices, find_new_notices, max_size, has_summary,
}
use law_cast_backend.Cache.Contents.{nums}
use law_cast_backend.Cache.Lifetime.{
  Call, updates, reads_recent, clears, handle_all, handle_all-IsBounded, IsBounded, empty_cache,
}
use law_cast_backend.Cache.Entries.{entry, without_comments}
use law_cast_backend.Cache.Reads.{nums_after, update_then_read, update_cache_fails}
use law_cast_backend.Cache.Summaries.{is_summarized, merge_notices_summaries}

abbrev notice : ℕ → Option Text → CachedNotice String
notice num summary = record {
  num = num;
  base = "a bill";
  num_comments = some 5;
  ai_summary = summary;
  ai_summary_status = some not_requested;
  proposal_reason = none;
}

abbrev came : List (CachedNotice String)
came = notice 3 none ∷ notice 7 none ∷ notice 3 (some (codes "x")) ∷ []

abbrev held : List (CachedNotice String)
held = notice 7 (some (codes "y")) ∷ notice 5 none ∷ []

abbrev no_fault : Faults
no_fault = record {
  reads = false;
  writes_notices = false;
  writes_time = false;
  deletes_keywords = false;
}

abbrev time_fault : Faults
time_fault = record no_fault { writes_time = true }

abbrev cache : CacheService String
cache = record {
  recent_notices_snapshot = some held;
  recent_notices = some held;
  last_updated = none;
}

merge_run :
    map (λ n. n.ai_summary) (merge_notices came held)
    ≡ some (codes "y") ∷ none ∷ some (codes "x") ∷ []
unfolding merge_notices
merge_run = refl

merge_notices_summaries_example :
    All
      (λ n. has_summary n ≡ (is_summarized n.num came || is_summarized n.num held))
      (merge_notices came held)
merge_notices_summaries_example =
    merge_notices_summaries came held (refl, (refl, (refl, tt))) (refl, (refl, tt))

abbrev calls : List (Call String)
calls =
    updates no_fault came 1
    ∷ reads_recent true 2
    ∷ clears time_fault
    ∷ updates time_fault held 2
    ∷ []

handle_all-IsBounded_example :
    IsBounded (handle_all empty_cache calls).recent_notices_snapshot
    × IsBounded (handle_all empty_cache calls).recent_notices
handle_all-IsBounded_example = handle_all-IsBounded calls

update_then_read_example :
    let c' = (update_cache no_fault cache came 1).0 in
    let read = (get_recent_notices true c' 2).1 in
    let numbers = take (min 2 max_size) (nums_after cache came) in
    (nums read ≡ numbers)
    × (map some read ≡ map (λ k. Option.map without_comments (entry (came ++ held) k)) numbers)
    × (find_new_notices (λ k. k) false c' (7 ∷ 9 ∷ 0 ∷ [])
        ≡ ok (keep (λ k. k == 0 || not (has k (nums_after cache came))) (7 ∷ 9 ∷ 0 ∷ [])))
unfolding update_cache
update_then_read_example =
    update_then_read (λ k. k) no_fault cache came 1 refl true 2 (7 ∷ 9 ∷ 0 ∷ [])

update_cache_fails_example :
    let c' = (update_cache time_fault cache came 1).0 in
    ((time_fault.reads || time_fault.writes_notices || time_fault.writes_time) ≡ true)
    × (c'.recent_notices_snapshot ≡ some held)
    × ((c'.recent_notices ≡ some held) ⊎ (c'.recent_notices ≡ some (merge_notices came held)))
unfolding update_cache
update_cache_fails_example = update_cache_fails time_fault cache came 1 redis_unavailable refl
