-- ===== src/Change/Append/Linked.antt =====
-- About the links between the events of a notice over an append and its attempts.
use law_cast_backend.Base.{
  ℕ, zero, suc, ◌<◌, ◌≡◌, refl, sym, ap, ◌∙◌, subst, ◌≢◌, ◌⊎◌, inl, inr, List, [], ◌∷◌, ◌++◌,
  Option, none, some, Bool, false, arith, ltb, ◌==◌, if◌then◌else◌, keep, any, Bool-cases,
  Option-cases, append-nil, ==_iff, All,
}
use law_cast_backend.Promises.{Result, ok, err, Result-cases}
use law_cast_backend.Change.Text.{Text}
use law_cast_backend.Change.Event.{Event}
use law_cast_backend.Change.Append.{
  Store, AppendInput, Attempt, DbError, latest, higher, height_of, hash_of,
  create_change_event_entity, takes_height, takes_hash, joined, transaction, append_loop,
  append_change_event_with_details_core, find_latest_duplicate_event, recover, commit, find_by_hash,
  retries, is_hash_conflict, hash_conflict, height_conflict,
}

-- The events of a notice, in the order of insertion.
abbrev pub chain : ℕ → List Event → List Event
chain notice events = keep (λ e. e.notice_num == notice) events

-- Heights count up from the one before, and each event points to the hash of the one before it.
abbrev pub IsLinked : ℕ → Option Text → List Event → Type 0
IsLinked height prev [] = Unit
IsLinked height prev (e ∷ es) =
    (e.event_height ≡ suc height)
    × (e.prev_event_hash ≡ prev)
    × IsLinked (suc height) (some e.event_hash) es

-- Every notice's chain is linked from height 1 and no predecessor.
abbrev pub WellFormed : List Event → Type 0
WellFormed events = (notice : ℕ) → IsLinked 0 none (chain notice events)

abbrev last_height : ℕ → List Event → ℕ
last_height height [] = height
last_height height (e ∷ es) = last_height (suc height) es

abbrev last_hash : Option Text → List Event → Option Text
last_hash prev [] = prev
last_hash prev (e ∷ es) = last_hash (some e.event_hash) es

chain-append :
    (notice : ℕ) (xs ys : List Event) → chain notice (xs ++ ys) ≡ chain notice xs ++ chain notice ys
chain-append notice [] ys = refl
chain-append notice (x ∷ xs) ys = ground (arith, chain-append notice xs ys)

IsLinked-append :
    (h : ℕ) (p : Option Text) (xs ys : List Event)
    → IsLinked h p xs
    → IsLinked (last_height h xs) (last_hash p xs) ys
    → IsLinked h p (xs ++ ys)
IsLinked-append h p [] ys hx hy = hy
IsLinked-append h p (x ∷ xs) ys (a, b, hx) hy =
    (a, b, IsLinked-append (suc h) (some x.event_hash) xs ys hx hy)

IsLinked-split :
    (h : ℕ) (p : Option Text) (xs ys : List Event)
    → IsLinked h p (xs ++ ys)
    → IsLinked h p xs × IsLinked (last_height h xs) (last_hash p xs) ys
IsLinked-split h p [] ys l = (tt, l)
IsLinked-split h p (x ∷ xs) ys (a, b, l) =
    let (l1, l2) = IsLinked-split (suc h) (some x.event_hash) xs ys l in ((a, b, l1), l2)

WellFormed-prefix : (xs ys : List Event) → WellFormed (xs ++ ys) → WellFormed xs
WellFormed-prefix xs ys w notice =
    (IsLinked-split 0 none (chain notice xs) (chain notice ys)
      (subst (IsLinked 0 none) (chain-append notice xs ys) (w notice))).0

-- In a linked chain the row with the greatest height is the last one.
abbrev Tip : ℕ → Option Text → List Event → Option Event → Type 0
Tip h p c o =
    ((c ≡ []) × (o ≡ none))
    ⊎ ((e : Event) × (o ≡ some e)
        × (e.event_height ≡ last_height h c)
        × (some e.event_hash ≡ last_hash p c)
        × (h < e.event_height))

Tip-cons :
    (h : ℕ) (p : Option Text) (e : Event) (c : List Event) (o : Option Event)
    → e.event_height ≡ suc h
    → Tip (suc h) (some e.event_hash) c o
    → Tip h p (e ∷ c) (some (higher e o))
Tip-cons h p e c o eq (inl (empty, nothing)) =
    inr (e, rw (nothing, higher) refl, rw empty eq, rw empty refl, omega arith)
Tip-cons h p e c o eq (inr (f, there, height, hash, above)) =
    inr (f, ground arith, height, hash, omega arith)

latest-Tip :
    (notice h : ℕ) (p : Option Text) (events : List Event)
    → IsLinked h p (chain notice events)
    → Tip h p (chain notice events) (latest notice events)
unfolding latest
latest-Tip notice h p [] l = inl (refl, refl)
latest-Tip notice h p (e ∷ es) l = elim (Bool-cases (e.notice_num == notice)) [
  | inl hit ↦
      let l' = rw hit at l in
      rw (hit, latest)
        (Tip-cons h p e (chain notice es) (latest notice es) l'.0
          (latest-Tip notice (suc h) (some e.event_hash) es l'.2))
  | inr miss ↦ rw (miss, latest) (latest-Tip notice h p es (rw miss at l))
]

latest_last :
    (notice : ℕ) (events : List Event)
    → WellFormed events
    → (height_of (latest notice events) ≡ last_height 0 (chain notice events))
      × (hash_of (latest notice events) ≡ last_hash none (chain notice events))
latest_last notice events w = elim (latest-Tip notice 0 none events (w notice)) [
  | inl (empty, nothing) ↦ (rw (nothing, empty) refl, rw (nothing, empty) refl)
  | inr (e, there, height, hash, above) ↦ (rw there height, rw there hash)
]

-- A row that would not break the height index: nobody else has appended to the notice's chain.
no_conflict :
    (new : Event) (others : List Event)
    → any (takes_height new) others ≡ false
    → All (λ e. e.event_height ≢ new.event_height) (chain new.notice_num others)
unfolding takes_height
no_conflict new [] h = tt
no_conflict new (e ∷ es) h = elim (Bool-cases (e.notice_num == new.notice_num)) [
  | inl hit ↦ rw hit (ground arith, no_conflict new es (ground arith))
  | inr miss ↦ rw miss (no_conflict new es (ground arith))
]

any-append-false :
    (p : Event → Bool) (xs ys : List Event) → any p (xs ++ ys) ≡ false → any p ys ≡ false
any-append-false p [] ys h = h
any-append-false p (x ∷ xs) ys h = any-append-false p xs ys (ground arith)

no_others :
    (h : ℕ) (p : Option Text) (c : List Event)
    → IsLinked h p c
    → All (λ e. e.event_height ≢ suc h) c
    → c ≡ []
no_others h p [] l a = refl
no_others h p (e ∷ c) l a = absurd (a.0 l.0)

-- The new row goes to the end of its notice's chain, and to no other chain.
WellFormed-insert :
    (events : List Event) (new : Event)
    → WellFormed events
    → new.event_height ≡ suc (last_height 0 (chain new.notice_num events))
    → new.prev_event_hash ≡ last_hash none (chain new.notice_num events)
    → WellFormed (events ++ new ∷ [])
WellFormed-insert events new w height prev notice =
    rw (chain-append notice events (new ∷ [])) (elim (Bool-cases (new.notice_num == notice)) [
      | inl hit ↦
          let same : new.notice_num ≡ notice = (==_iff new.notice_num notice).0 hit in
          rw hit (
            IsLinked-append 0 none (chain notice events) (new ∷ []) (w notice)
              (rw (← same) (height, prev, tt)))
      | inr miss ↦ rw miss (rw (append-nil (chain notice events)) (w notice))
    ])

module _ (s : Store) (input : AppendInput) (id : ℕ) (others : List Event) where
  abbrev new_event : Event
  new_event = create_change_event_entity id input (latest input.notice_num s.events)

  -- Without a height conflict the others have appended nothing to this notice's chain.
  alone :
      WellFormed (s.events ++ others)
      → any (takes_height new_event) (s.events ++ others) ≡ false
      → chain input.notice_num (s.events ++ others) ≡ chain input.notice_num s.events
  unfolding create_change_event_entity
  alone w free =
      let n = input.notice_num in
      let (before, after) =
        IsLinked-split 0 none (chain n s.events) (chain n others)
          (subst (IsLinked 0 none) (chain-append n s.events others) (w n)) in
      let (height, hash) = latest_last n s.events (WellFormed-prefix s.events others w) in
      let clear = no_conflict new_event others (any-append-false _ s.events others free) in
      let up : new_event.event_height ≡ suc (last_height 0 (chain n s.events)) =
        omega (arith, height) in
      let none_left =
        no_others (last_height 0 (chain n s.events)) _ (chain n others) after
          (subst (λ k. All (λ e. e.event_height ≢ k) (chain n others)) up clear) in
      chain-append n s.events others
      ∙ ap (λ c. chain n s.events ++ c) none_left
      ∙ append-nil (chain n s.events)

  insert-WellFormed :
      WellFormed (s.events ++ others)
      → any (takes_height new_event) (s.events ++ others) ≡ false
      → WellFormed ((s.events ++ others) ++ new_event ∷ [])
  unfolding create_change_event_entity
  insert-WellFormed w free =
      let n = input.notice_num in
      let same = alone w free in
      let (height, hash) = latest_last n s.events (WellFormed-prefix s.events others w) in
      WellFormed-insert (s.events ++ others) new_event w (rw same (omega (arith, height)))
        (rw same hash)

-- The other writers of an attempt keep every chain linked.
abbrev pub Honest : Attempt → Type 0
Honest a = (s : Store) → WellFormed s.events → WellFormed (s.events ++ a.others s)

-- The store after a transaction is the one that the others left, or that with the new row.
pub transaction_cases {ℓ} :
    (P : Store → Result DbError Event → Type ℓ) (s : Store) (input : AppendInput) (a : Attempt)
    → ((e : DbError) → P (joined s a) (err e))
    → ((s' : Store)
        → let new =
            create_change_event_entity
              (joined s a).next_id
              input
              (latest input.notice_num s.events) in
          s'.events ≡ (s.events ++ a.others s) ++ new ∷ []
          → any (takes_height new) (s.events ++ a.others s) ≡ false
          → any (takes_hash new) (s.events ++ a.others s) ≡ false
          → P s' (ok new))
    → P (transaction s input a).0 (transaction s input a).1
unfolding transaction
transaction_cases P s input a fails commits = elim (Option-cases a.fault) [
  | inr (e, raised) ↦ rw (raised, commit) (fails e)
  | inl quiet ↦ elim (Bool-cases (any (takes_hash new) (s.events ++ a.others s))) [
    | inl clash ↦ rw (quiet, clash, commit) (fails hash_conflict)
    | inr new_hash ↦ elim (Bool-cases (any (takes_height new) (s.events ++ a.others s))) [
      | inl clash ↦ rw (quiet, new_hash, clash, commit) (fails height_conflict)
      | inr new_height ↦
          rw (quiet, new_hash, new_height, commit) (commits _ refl new_height new_hash)
    ]
  ]
]
  where
    new : Event
    new = create_change_event_entity (joined s a).next_id input (latest input.notice_num s.events)

transaction-WellFormed :
    (s : Store) (input : AppendInput) (a : Attempt)
    → Honest a
    → WellFormed s.events
    → WellFormed (transaction s input a).0.events
transaction-WellFormed s input a honest w =
    transaction_cases (λ t r. WellFormed t.events) s input a (λ e. honest s w)
      (λ t eq free_height free_hash.
        subst WellFormed (sym eq)
          (insert-WellFormed s input _ (a.others s) (honest s w) free_height))

-- What the `catch` block leaves is the store as it was, or that of the next round.
pub recover_cases {ℓ} :
    (P : Store → Type ℓ) (s : Store) (input : AppendInput) (e : DbError) (more : Bool)
    (again : Store × Result DbError Event)
    → P s
    → P again.0
    → P (recover s input e more again).0
recover_cases P s input e more again here there =
    elim (Option-cases
      (if is_hash_conflict e then find_by_hash input.event_hash s.events else none)) [
        | inr (existing, found) ↦ rw (found, recover) here
        | inl missing ↦
            rw (missing, recover)
              (elim (Bool-cases (retries e more)) [
                | inl go ↦ rw go there
                | inr stop ↦ rw stop here
              ])
      ]

append_loop-WellFormed :
    (left : ℕ) (s : Store) (input : AppendInput) (attempts : ℕ → Attempt)
    → ((k : ℕ) → Honest (attempts k))
    → WellFormed s.events
    → WellFormed (append_loop left s input attempts).0.events
unfolding append_loop
append_loop-WellFormed zero s input attempts honest w = w
append_loop-WellFormed (suc left) s input attempts honest w =
    let (s', r) = transaction s input (attempts left) in
    let w' = transaction-WellFormed s input (attempts left) (honest left) w in
    elim (Result-cases (transaction s input (attempts left)).1) [
      | inl (saved, done) ↦ rw (done, append_loop) w'
      | inr (e, raised) ↦
          rw (raised, append_loop)
            (recover_cases (λ t. WellFormed t.events) s' input e (ltb 0 left) _ w'
              (append_loop-WellFormed left s' input attempts honest w'))
    ]

-- If every notice's chain is linked, and each other writer keeps it so, then it is so after the
-- call, whatever the attempts ran into: heights count up from 1 with no gap and no repetition, and
-- each event holds the hash of the one before it.
pub append-WellFormed :
    (s : Store) (input : AppendInput) (attempts : ℕ → Attempt)
    → ((k : ℕ) → Honest (attempts k))
    → WellFormed s.events
    → WellFormed (append_change_event_with_details_core s input attempts).0.events
unfolding append_change_event_with_details_core
append-WellFormed s input attempts honest w =
    elim (Option-cases (find_latest_duplicate_event s input)) [
      | inr (e, found) ↦ rw (found, append_change_event_with_details_core) w
      | inl missing ↦
          rw (missing, append_change_event_with_details_core)
            (append_loop-WellFormed _ s input attempts honest w)
    ]
