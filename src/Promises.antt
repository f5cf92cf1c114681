-- ===== src/Promises.antt =====
-- What the program uses of JavaScript promises. A promise is how it settles: after how many
-- milliseconds, and with a value or an error; one that never settles is `none`.
use law_cast_backend.Base.{
  ℕ, List, [], ◌∷◌, Option, none, some, Bool, true, false, max, ltb, leb, if◌then◌else◌, ◌≡◌, ◌⊎◌,
  inl, inr, refl,
}

pub data Result (E A : Type 0) : Type 0 where
  ok : A → Result E A
  err : E → Result E A

pub record Settled (E A : Type 0) : Type 0 where
  pub after : ℕ
  pub outcome : Result E A

abbrev pub Promise : Type 0 → Type 0 → Type 0
Promise E A = Option (Settled E A)

module _ {E A : Type 0} where
  abbrev pub is_ok : Result E A → Bool
  is_ok (ok a) = true
  is_ok (err e) = false

  pub Result-cases : (r : Result E A) → ((a : A) × (r ≡ ok a)) ⊎ ((e : E) × (r ≡ err e))
  Result-cases (ok a) = inl (a, refl)
  Result-cases (err e) = inr (e, refl)

  -- `Promise.all` over two: both values at the later time, or the error that comes first.
  abbrev pub join : Settled E A → Settled E (List A) → Settled E (List A)
  join p q = elim p.outcome [
    | ok a ↦ elim q.outcome [
      | ok vs ↦ record { after = max p.after q.after; outcome = ok (a ∷ vs) }
      | err f ↦ record { after = q.after; outcome = err f }
    ]
    | err e ↦ elim q.outcome [
      | ok vs ↦ record { after = p.after; outcome = err e }
      | err f ↦
          if leb p.after q.after
          then record { after = p.after; outcome = err e }
          else record { after = q.after; outcome = err f }
    ]
  ]

  -- `Promise.all` over promises that settle.
  abbrev pub all : List (Settled E A) → Settled E (List A)
  all [] = record { after = 0; outcome = ok [] }
  all (p ∷ ps) = join p (all ps)

  -- `Promise.race` against a timer of `ms` milliseconds that was started first: the promise wins
  -- only if it settles before the timer fires.
  abbrev pub race_timer : ℕ → E → Promise E A → Settled E A
  race_timer ms e none = record { after = ms; outcome = err e }
  race_timer ms e (some p) = if ltb p.after ms then p else record { after = ms; outcome = err e }
