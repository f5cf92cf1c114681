-- ===== src/Change/Append/Outcomes.antt =====
-- What a caller of `appendChangeEventWithDetails` gets.
use mathlib.Core.Option
use law_cast_backend.Base.{
  ℕ, zero, suc, ◌+◌, ◌-◌, ◌<◌, ◌≤◌, ◌≡◌, refl, sym, ap, ◌∙◌, inl, inr, List, [], ◌∷◌, ◌++◌, Option,
  none, some, false, arith, ltb, ◌==◌, any, max, Bool-cases, Option-cases, append_assoc, append-nil,
  map, if◌then◌else◌,
}
use law_cast_backend.Base.Filters.{pair_path}
use law_cast_backend.Change.Text.{text_eq}
use law_cast_backend.Promises.{ok, Result-cases}
use law_cast_backend.Change.Event.{Event}
use law_cast_backend.Change.Append.{
  Store, AppendInput, Attempt, latest, create_change_event_entity, takes_height, takes_hash, joined,
  transaction, append_loop, append_change_event_with_details_core, find_latest_duplicate_event,
  commit, height_of, higher, detail_rows, hash_of, append_event_max_retries,
}
use law_cast_backend.Change.Append.Linked.{transaction_cases, recover_cases}

-- Rows are added at the end, and none is changed or taken away.
abbrev pub Extends : Store → Store → Type 0
Extends s t = (more : List Event) × (t.events ≡ s.events ++ more)

Extends-refl : (s : Store) → Extends s s
Extends-refl s = ([], sym (append-nil s.events))

Extends-trans : (s t u : Store) → Extends s t → Extends t u → Extends s u
Extends-trans s t u (xs, e) (ys, f) =
    (xs ++ ys, f ∙ ap (λ zs. zs ++ ys) e ∙ append_assoc s.events xs ys)

transaction-Extends :
    (s : Store) (input : AppendInput) (a : Attempt) → Extends s (transaction s input a).0
transaction-Extends s input a =
    transaction_cases (λ t r. Extends s t) s input a (λ e. (a.others s, refl))
      (λ t eq free_height free_hash. (_, eq ∙ append_assoc s.events (a.others s) _))

append_loop-Extends :
    (left : ℕ) (s : Store) (input : AppendInput) (attempts : ℕ → Attempt)
    → Extends s (append_loop left s input attempts).0
unfolding append_loop
append_loop-Extends zero s input attempts = Extends-refl s
append_loop-Extends (suc left) s input attempts =
    let (s', r) = transaction s input (attempts left) in
    let here = transaction-Extends s input (attempts left) in
    elim (Result-cases (transaction s input (attempts left)).1) [
      | inl (saved, done) ↦ rw (done, append_loop) here
      | inr (e, raised) ↦
          rw (raised, append_loop)
            (recover_cases (Extends s) s' input e (ltb 0 left) _ here (
              Extends-trans s s' (append_loop left s' input attempts).0 here
                (append_loop-Extends left s' input attempts)))
    ]

-- The event table is append-only: whatever happens in the attempts, every row that was there before
-- the call is there after it, unchanged and in its place.
pub append-Extends :
    (s : Store) (input : AppendInput) (attempts : ℕ → Attempt)
    → Extends s (append_change_event_with_details_core s input attempts).0
unfolding append_change_event_with_details_core
append-Extends s input attempts = elim (Option-cases (find_latest_duplicate_event s input)) [
  | inr (e, found) ↦ rw (found, append_change_event_with_details_core) (Extends-refl s)
  | inl missing ↦
      rw (missing, append_change_event_with_details_core) (append_loop-Extends _ s input attempts)
]

-- An attempt that meets nobody and no fault.
abbrev pub quiet : Attempt
quiet = record { others = λ s. []; other_details = λ s. []; fault = none }

joined-quiet : (s : Store) → joined s quiet ≡ s
joined-quiet s =
    let same : s.next_id + 0 ≡ s.next_id = omega arith in
    λ i. record {
      events = append-nil s.events i;
      details = append-nil s.details i;
      next_id = same i;
    }

-- The row that an undisturbed call inserts.
abbrev pub inserted : Store → AppendInput → Event
inserted s input = create_change_event_entity s.next_id input (latest input.notice_num s.events)

abbrev pub stored : Store → AppendInput → Store
stored s input = record {
  events = s.events ++ inserted s input ∷ [];
  details = s.details ++ detail_rows s.next_id input.details;
  next_id = suc s.next_id;
}

higher-height :
    (e : Event) (o : Option Event)
    → (e.event_height ≤ height_of (some (higher e o)))
      × (height_of o ≤ height_of (some (higher e o)))
higher-height e none = (omega arith, omega arith)
higher-height e (some f) = ground arith

no_height :
    (notice : ℕ) (events : List Event) (new : Event)
    → new.notice_num ≡ notice
    → height_of (latest notice events) < new.event_height
    → any (takes_height new) events ≡ false
unfolding latest takes_height
no_height notice [] new same lt = refl
no_height notice (e ∷ es) new same lt = elim (Bool-cases (e.notice_num == notice)) [
  | inl hit ↦
      let (le, le') = higher-height e (latest notice es) in
      let lt' : height_of (some (higher e (latest notice es))) < new.event_height =
        (rw (hit, latest) at lt) in
      ground (arith, no_height notice es new same (omega arith))
  | inr miss ↦ ground (arith, no_height notice es new same (rw (miss, latest) at lt))
]

transaction-quiet :
    (s : Store) (input : AppendInput)
    → any (takes_hash (inserted s input)) s.events ≡ false
    → transaction s input quiet ≡ (stored s input, ok (inserted s input))
unfolding transaction
transaction-quiet s input free =
    ap (λ t. commit t (create_change_event_entity t.next_id input last) input.details none)
      (joined-quiet s)
    ∙ committed
  where
    last : Option Event
    last = latest input.notice_num s.events

    committed :
        commit s (inserted s input) input.details none ≡ (stored s input, ok (inserted s input))
    committed =
        rw (free, no_height input.notice_num s.events (inserted s input) refl (omega arith), commit)

-- The greatest height among a notice's events, 0 when it has none.
abbrev pub greatest_height : ℕ → List Event → ℕ
greatest_height notice [] = 0
greatest_height notice (e ∷ es) =
    let rest = greatest_height notice es in
    if e.notice_num == notice then max e.event_height rest else rest

height_of-higher :
    (e : Event) (o : Option Event)
    → height_of (some (higher e o)) ≡ max e.event_height (height_of o)
height_of-higher e none = omega arith
height_of-higher e (some f) = ground arith

height_of-latest :
    (notice : ℕ) (es : List Event) → height_of (latest notice es) ≡ greatest_height notice es
unfolding latest
height_of-latest notice [] = refl
height_of-latest notice (e ∷ es) = elim (Bool-cases (e.notice_num == notice)) [
  | inl hit ↦
      rw (hit, latest)
        (height_of-higher e (latest notice es)
          ∙ ap (λ n. max e.event_height n) (height_of-latest notice es))
  | inr miss ↦ rw (miss, latest) (height_of-latest notice es)
]

-- The row of a new event, with what the caller gave and the next place of its notice's chain.
abbrev pub next_row : Store → AppendInput → Event
next_row s input = record {
  id = s.next_id;
  notice_num = input.notice_num;
  detected_at = input.detected_at;
  event_type = input.event_type;
  source = input.source;
  event_height = greatest_height input.notice_num s.events + 1;
  prev_event_hash = hash_of (latest input.notice_num s.events);
  event_hash = input.event_hash;
  changed_field_count = input.changed_field_count;
  diff_summary_json = input.diff_summary_json;
  hash_algo = input.hash_algo;
  canon_version = input.canon_version;
}

-- The store with the row and its details behind what was there.
abbrev pub with_next_row : Store → AppendInput → Store
with_next_row s input = record {
  events = s.events ++ next_row s input ∷ [];
  details = s.details ++ map (λ d. record { event_id = s.next_id; detail = d }) input.details;
  next_id = s.next_id + 1;
}

inserted_lem : (s : Store) (input : AppendInput) → inserted s input ≡ next_row s input
unfolding create_change_event_entity
inserted_lem s input =
    ap (λ h. record (next_row s input) { event_height = h + 1 })
      (height_of-latest input.notice_num s.events)

stored_lem : (s : Store) (input : AppendInput) → stored s input ≡ with_next_row s input
stored_lem s input =
    let count : suc s.next_id ≡ s.next_id + 1 = omega arith in
    λ i. record {
      events = s.events ++ inserted_lem s input i ∷ [];
      details = s.details ++ detail_rows s.next_id input.details;
      next_id = count i;
    }

-- If the call's event does not repeat the notice's latest event, no stored event has its hash and the
-- attempts are undisturbed, the call returns and inserts one row: what the caller gave, under the
-- next id, one above the greatest height of the notice's events (1 when there is none), and pointing
-- to the latest one's hash. Its details are inserted under that id, in order, and nothing else
-- changes.
pub append_succeeds :
    (s : Store) (input : AppendInput)
    → find_latest_duplicate_event s input ≡ none
    → any (λ e. text_eq e.event_hash input.event_hash) s.events ≡ false
    → append_change_event_with_details_core s input (λ k. quiet)
      ≡ (with_next_row s input, ok (next_row s input))
unfolding append_change_event_with_details_core takes_hash create_change_event_entity
append_succeeds s input fresh free =
    let more : max (Option.get_or input.max_retries append_event_max_retries) 1
        ≡ suc (max (Option.get_or input.max_retries append_event_max_retries) 1 - 1) =
      omega arith in
    let done = transaction-quiet s input free in
    rw (fresh, append_change_event_with_details_core)
      (rw more (rw (ap (λ t. t.1) done, append_loop) (ap (λ t. (t.0, ok (inserted s input))) done)))
    ∙ pair_path (stored_lem s input) (ap ok (inserted_lem s input))
