-- ===== src/Change/Append.antt =====
-- `appendChangeEventWithDetails` of src/modules/change-tracking/change-tracking.service.ts over the
-- two tables. The database is a parameter of each attempt: the rows that other writers commit
-- between this transaction's read and its insert, and a fault that it may raise. It keeps its two
-- unique indexes: an insert that breaks one raises that index's error and changes nothing.
pub mod Linked
pub mod Outcomes
use mathlib.Core.Option
use law_cast_backend.Base.{
  ℕ, zero, suc, ◌+◌, max, List, [], ◌∷◌, ◌++◌, Option, none, some, Bool, true, false, not, ltb, leb,
  ◌==◌, ◌&&◌, ◌||◌, if◌then◌else◌, length, map, any, keep, find_by, String, str_eq,
}
use law_cast_backend.Promises.{Result, ok, err}
use law_cast_backend.Change.Text.{Text, text_eq, same_text}
use law_cast_backend.Change.Diff.{Source, ChangeType, Detail}
use law_cast_backend.Change.Event.{EventType, Event, DetailRow, same_type, same_source, same_change}

-- The tables in order of insertion.
pub record Store : Type 0 where
  pub events : List Event
  pub details : List DetailRow
  pub next_id : ℕ

-- How `appendChangeEventWithDetailsCore` tells errors apart.
pub data DbError : Type 0 where
  height_conflict hash_conflict start_conflict state_conflict other attempts_exhausted : DbError

pub record AppendInput : Type 0 where
  pub notice_num : ℕ
  pub event_type : EventType
  pub event_hash : Text
  pub detected_at : Text
  pub source : Option Source
  pub changed_field_count : ℕ
  pub diff_summary_json : Option Text
  pub hash_algo : Text
  pub canon_version : ℕ
  pub details : List Detail
  pub max_retries : Option ℕ

abbrev pub append_event_max_retries : ℕ
append_event_max_retries = 3

-- `order: { eventHeight: 'DESC' }`, the first row: the greatest height.
abbrev pub higher : Event → Option Event → Event
higher e none = e
higher e (some f) = if leb e.event_height f.event_height then f else e

unfoldable pub latest : ℕ → List Event → Option Event
latest notice [] = none
latest notice (e ∷ es) =
    if e.notice_num == notice then some (higher e (latest notice es)) else latest notice es

abbrev pub height_of : Option Event → ℕ
height_of none = 0
height_of (some e) = e.event_height

abbrev pub hash_of : Option Event → Option Text
hash_of none = none
hash_of (some e) = some e.event_hash

unfoldable pub create_change_event_entity : ℕ → AppendInput → Option Event → Event
create_change_event_entity id input last = record {
  id = id;
  notice_num = input.notice_num;
  detected_at = input.detected_at;
  event_type = input.event_type;
  source = input.source;
  event_height = height_of last + 1;
  prev_event_hash = hash_of last;
  event_hash = input.event_hash;
  changed_field_count = input.changed_field_count;
  diff_summary_json = input.diff_summary_json;
  hash_algo = input.hash_algo;
  canon_version = input.canon_version;
}

abbrev pub detail_rows : ℕ → List Detail → List DetailRow
detail_rows id details = map (λ d. record { event_id = id; detail = d }) details

-- The unique index on the notice and the height, and the one on the hash.
unfoldable pub takes_height : Event → Event → Bool
takes_height new e = (e.notice_num == new.notice_num) && (e.event_height == new.event_height)

unfoldable pub takes_hash : Event → Event → Bool
takes_hash new e = text_eq e.event_hash new.event_hash

-- What the database does during one attempt: the rows that others commit depend on the store.
pub record Attempt : Type 0 where
  pub others : Store → List Event
  pub other_details : Store → List DetailRow
  pub fault : Option DbError

-- The store once the other writers have committed.
abbrev pub joined : Store → Attempt → Store
joined s a = record {
  events = s.events ++ a.others s;
  details = s.details ++ a.other_details s;
  next_id = s.next_id + length (a.others s);
}

-- The insert of the event and its details into the store that the other writers left: all or nothing.
unfoldable pub commit : Store → Event → List Detail → Option DbError → Store × Result DbError Event
unfolding takes_height takes_hash
commit s event details (some e) = (s, err e)
commit s event details none =
    if any (takes_hash event) s.events
    then (s, err hash_conflict)
    else if any (takes_height event) s.events
    then (s, err height_conflict)
    else (
      record {
        events = s.events ++ event ∷ [];
        details = s.details ++ detail_rows event.id details;
        next_id = suc s.next_id;
      },
      ok event,
    )

-- `appendEventAndDetailsInTransaction`: the last event is read before the others commit.
unfoldable pub transaction : Store → AppendInput → Attempt → Store × Result DbError Event
unfolding latest create_change_event_entity commit
transaction s input a =
    let s' = joined s a in
    let event = create_change_event_entity s'.next_id input (latest input.notice_num s.events) in
    commit s' event input.details a.fault

-- `find({ where: { eventId: latest.id }, order: { id: 'ASC' } })`.
unfoldable pub details_of : ℕ → List DetailRow → List Detail
details_of id [] = []
details_of id (r ∷ rs) = if r.event_id == id then r.detail ∷ details_of id rs else details_of id rs

unfoldable pub same_detail : Detail → Detail → Bool
unfolding same_change text_eq
same_detail c d =
    str_eq c.field_path d.field_path
    && same_change c.change_type d.change_type
    && same_text c.before_value d.before_value
    && same_text c.after_value d.after_value
    && same_text c.before_hash d.before_hash
    && same_text c.after_hash d.after_hash

unfoldable pub same_details : List Detail → List Detail → Bool
unfolding same_detail
same_details [] [] = true
same_details [] (d ∷ ds) = false
same_details (c ∷ cs) [] = false
same_details (c ∷ cs) (d ∷ ds) = same_detail c d && same_details cs ds

abbrev repeats : Store → AppendInput → Event → Bool
repeats s input e =
    same_type e.event_type input.event_type
    && same_source e.source input.source
    && (e.changed_field_count == input.changed_field_count)
    && same_text e.diff_summary_json input.diff_summary_json
    && same_details (details_of e.id s.details) input.details

unfoldable pub find_latest_duplicate_event : Store → AppendInput → Option Event
unfolding latest details_of same_details same_type same_source text_eq
find_latest_duplicate_event s input = elim (latest input.notice_num s.events) [
  | none ↦ none
  | some e ↦ if repeats s input e then some e else none
]

-- Whether the loop goes on after an error, at an attempt that is or is not the last.
abbrev retries : DbError → Bool → Bool
retries height_conflict more = more
retries start_conflict more = more
retries state_conflict more = more
retries hash_conflict more = false
retries other more = false
retries attempts_exhausted more = false

abbrev is_hash_conflict : DbError → Bool
is_hash_conflict hash_conflict = true
is_hash_conflict _ = false

-- `findOne({ where: { eventHash } })` after a hash conflict.
unfoldable pub find_by_hash : Text → List Event → Option Event
unfolding text_eq
find_by_hash hash events = find_by (λ e. text_eq e.event_hash hash) events

-- What the `catch` block does with an error; `again` is the next round of the loop.
abbrev recover :
    Store
    → AppendInput
    → DbError
    → Bool
    → Store × Result DbError Event
    → Store × Result DbError Event
recover s input e more again =
    elim (if is_hash_conflict e then find_by_hash input.event_hash s.events else none) [
      | some existing ↦ (s, ok existing)
      | none ↦ if retries e more then again else (s, err e)
    ]

-- The loop with `left` attempts to go; `attempts` says what the database does in an
-- attempt, by the number of attempts that are left after it.
unfoldable pub append_loop : ℕ → Store → AppendInput → (ℕ → Attempt) → Store × Result DbError Event
unfolding transaction find_by_hash
append_loop zero s input attempts = (s, err attempts_exhausted)
append_loop (suc left) s input attempts =
    let (s', r) = transaction s input (attempts left) in
    let again = append_loop left s' input attempts in
    elim r [ ok saved ↦ (s', ok saved) | err e ↦ recover s' input e (ltb 0 left) again ]

unfoldable pub append_change_event_with_details_core :
    Store → AppendInput → (ℕ → Attempt) → Store × Result DbError Event
unfolding append_loop find_latest_duplicate_event
append_change_event_with_details_core s input attempts =
    let max_retries = max (Option.get_or input.max_retries append_event_max_retries) 1 in
    elim (find_latest_duplicate_event s input) [
      | some duplicated ↦ (s, ok duplicated)
      | none ↦ append_loop max_retries s input attempts
    ]
