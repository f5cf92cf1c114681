-- ===== src/Cache/Order.antt =====
-- About the lists of src/modules/cache/cache.service.ts: sorted by number, one notice for a number.
use law_cast_backend.Base.{
  ℕ, zero, suc, ◌<◌, ◌≡◌, inl, inr, Bool-cases, refl, sym, ap, ◌∙◌, List, [], ◌∷◌, false, ◌||◌, ltb,
  ltb→lt, ◌⊎◌, ◌==◌, ==_iff, if◌then◌else◌, if_elim, arith, take,
}
use law_cast_backend.Base.Filters.{has}

-- Each number is above the next.
abbrev pub IsBelow : ℕ → List ℕ → Type 0
IsBelow k [] = Unit
IsBelow k (j ∷ js) = j < k

abbrev pub Descends : List ℕ → Type 0
Descends [] = Unit
Descends (k ∷ ks) = IsBelow k ks × Descends ks

-- A set of numbers in descending order.
unfoldable pub insert_num : ℕ → List ℕ → List ℕ
insert_num k [] = k ∷ []
insert_num k (j ∷ js) =
    let rest = insert_num k js in
    if ltb k j then j ∷ rest else if k == j then j ∷ js else k ∷ j ∷ js

unfoldable pub descending : List ℕ → List ℕ
unfolding insert_num
descending [] = []
descending (k ∷ ks) = insert_num k (descending ks)

has_above : (k j : ℕ) (js : List ℕ) → j < k → IsBelow j js → Descends js → has k js ≡ false
has_above k j [] h b d = refl
has_above k j (i ∷ js) h b d = ground (arith, has_above k i js (omega arith) d.0 d.1)

has-insert_num : (k j : ℕ) (js : List ℕ) → has k (insert_num j js) ≡ (k == j || has k js)
unfolding insert_num
has-insert_num k j [] = refl
has-insert_num k j (i ∷ js) = ground (arith, has-insert_num k j js)

pub has-descending : (k : ℕ) (ks : List ℕ) → has k (descending ks) ≡ has k ks
unfolding descending
has-descending k [] = refl
has-descending k (j ∷ ks) =
    has-insert_num k j (descending ks) ∙ ap (◌||◌ (k == j)) (has-descending k ks)

IsBelow-insert_num : (m k : ℕ) (ks : List ℕ) → IsBelow m ks → k < m → IsBelow m (insert_num k ks)
unfolding insert_num
IsBelow-insert_num m k [] b h = h
IsBelow-insert_num m k (j ∷ ks) b h = ground (arith, b)

Descends-insert_num : (k : ℕ) (ks : List ℕ) → Descends ks → Descends (insert_num k ks)
unfolding insert_num
Descends-insert_num k [] d = (tt, tt)
Descends-insert_num k (j ∷ ks) d =
    if_elim Descends (ltb k j) _ _
      (λ h.
        (IsBelow-insert_num j k ks d.0 (omega (arith, ltb→lt k j h)), Descends-insert_num k ks d.1))
      (λ h. if_elim Descends (k == j) _ _ (λ e. d) (λ e. (ground (arith, h, e), d)))

pub Descends-descending : (ks : List ℕ) → Descends (descending ks)
unfolding descending
Descends-descending [] = tt
Descends-descending (k ∷ ks) = Descends-insert_num k (descending ks) (Descends-descending ks)

pub has_head : (k : ℕ) (ks : List ℕ) → IsBelow k ks → Descends ks → has k ks ≡ false
has_head k [] b d = refl
has_head k (j ∷ ks) b d = ground (arith, b, has_above k j ks b d.0 d.1)

trichotomy : (x y : ℕ) → (x < y) ⊎ ((y < x) ⊎ (x ≡ y))
trichotomy x y = elim (Bool-cases (ltb x y)) [
  | inl h ↦ inl (ltb→lt x y h)
  | inr h ↦ elim (Bool-cases (ltb y x)) [
    | inl k ↦ inr (inl (ltb→lt y x k))
    | inr k ↦ inr (inr (ground (arith, h, k)))
  ]
]

-- Two descending lists of the same numbers are equal.
pub Descends-ext :
    (xs ys : List ℕ) → Descends xs → Descends ys → ((k : ℕ) → has k xs ≡ has k ys) → xs ≡ ys
Descends-ext [] [] d e h = refl
Descends-ext [] (y ∷ ys) d e h = absurd (ground (arith, h y))
Descends-ext (x ∷ xs) [] d e h = absurd (ground (arith, h x))
Descends-ext (x ∷ xs) (y ∷ ys) d e h = elim (trichotomy x y) [
  | inl l ↦ absurd (ground (arith, h y, has_above y x xs l d.0 d.1))
  | inr m ↦ elim m [
    | inl g ↦ absurd (ground (arith, h x, has_above x y ys g e.0 e.1))
    | inr q ↦ ground (
      arith,
      Descends-ext xs ys d.1 e.1 (λ k. elim (Bool-cases (k == x)) [
        | inl a ↦
            let c : k ≡ x = (==_iff k x).0 a in
            rw (c, has_head x xs d.0 d.1) (rw q (sym (has_head y ys e.0 e.1)))
        | inr a ↦ ground (arith, h k, a, q)
      ]),
    )
  ]
]

IsBelow-take : (m n : ℕ) (ks : List ℕ) → IsBelow m ks → IsBelow m (take n ks)
IsBelow-take m zero ks b = tt
IsBelow-take m (suc n) [] b = tt
IsBelow-take m (suc n) (k ∷ ks) b = b

pub Descends-take : (n : ℕ) (ks : List ℕ) → Descends ks → Descends (take n ks)
Descends-take zero ks d = tt
Descends-take (suc n) [] d = tt
Descends-take (suc n) (k ∷ ks) d = (IsBelow-take k n ks d.0, Descends-take n ks d.1)
