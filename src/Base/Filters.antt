-- ===== src/Base/Filters.antt =====
-- `xs.filter(p)` and keys: lists whose items carry a number that names them.
use Prim.Native.Nat.{ℕ, ◌+◌, ◌≤◌, ◌<◌, zero, suc}
use mathlib.Core.Path.{◌≡◌, refl, ap}
use mathlib.Core.Bool.{Bool, true, false, not, ◌||◌, ◌&&◌}
use mathlib.Core.List.{List, [], ◌∷◌, ◌++◌, map}
use native.Mathlib.Omega.{arith}
use law_cast_backend.Base.Tests.{◌==◌, ==_iff}
use law_cast_backend.Base.Lists.{keep, any, All, length, take, length-keep-le}

module _ {ℓ} {A : Type ℓ} where
  pub All-both {κ κ' κ''} :
      (P : A → Type κ) (Q : A → Type κ') (R : A → Type κ'') (xs : List A)
      → ((x : A) → P x → Q x → R x)
      → All P xs
      → All Q xs
      → All R xs
  All-both P Q R [] f h k = tt
  All-both P Q R (x ∷ xs) f h k = (f x h.0 k.0, All-both P Q R xs f h.1 k.1)

  pub All-imp {κ κ'} :
      (P : A → Type κ) (Q : A → Type κ') (xs : List A) → ((x : A) → P x → Q x) → All P xs → All Q xs
  All-imp P Q [] f h = tt
  All-imp P Q (x ∷ xs) f h = (f x h.0, All-imp P Q xs f h.1)

  pub All-always {κ} : (P : A → Type κ) (xs : List A) → ((x : A) → P x) → All P xs
  All-always P [] f = tt
  All-always P (x ∷ xs) f = (f x, All-always P xs f)

  pub All-keep {κ} : (P : A → Type κ) (p : A → Bool) (xs : List A) → All P xs → All P (keep p xs)
  All-keep P p [] h = tt
  All-keep P p (x ∷ xs) h = ground (arith, All-keep P p xs h.1)

  pub keep_congr : (p q : A → Bool) (xs : List A) → All (λ x. p x ≡ q x) xs → keep p xs ≡ keep q xs
  keep_congr p q [] h = refl
  keep_congr p q (x ∷ xs) h = ground (arith, keep_congr p q xs h.1)

  pub keep-All : (p : A → Bool) (xs : List A) → All (λ x. p x ≡ true) xs → keep p xs ≡ xs
  keep-All p [] h = refl
  keep-All p (x ∷ xs) h = ground (arith, keep-All p xs h.1)

  -- A filter after a weaker one.
  pub keep-keep :
      (p q : A → Bool) (xs : List A)
      → All (λ x. q x ≡ false → p x ≡ false) xs
      → keep p (keep q xs) ≡ keep p xs
  keep-keep p q [] h = refl
  keep-keep p q (x ∷ xs) h = ground (arith, keep-keep p q xs h.1)

  pub keep-keep_and :
      (p q : A → Bool) (xs : List A) → keep p (keep q xs) ≡ keep (λ x. p x && q x) xs
  keep-keep_and p q [] = refl
  keep-keep_and p q (x ∷ xs) = ground (arith, keep-keep_and p q xs)

  pub length-keep-not :
      (p : A → Bool) (xs : List A)
      → length (keep p xs) + length (keep (λ x. not (p x)) xs) ≡ length xs
  length-keep-not p [] = refl
  length-keep-not p (x ∷ xs) = ground (arith, length-keep-not p xs)

  pub none_kept : (p : A → Bool) (xs : List A) → length (keep p xs) ≡ 0 → All (λ x. p x ≡ false) xs
  none_kept p [] h = tt
  none_kept p (x ∷ xs) h = ground (arith, none_kept p xs)

  pub take_all : (n : ℕ) (xs : List A) → length xs ≤ n → take n xs ≡ xs
  take_all zero [] h = refl
  take_all (suc n) [] h = refl
  take_all zero (x ∷ xs) h = absurd (omega arith)
  take_all (suc n) (x ∷ xs) h = ap (◌∷◌ x) (take_all n xs (omega arith))

pub pair_path {ℓ} :
    {A B : Type ℓ} {a a' : A} {b b' : B} → a ≡ a' → b ≡ b' → ◌≡◌ {A = A × B} (a, b) (a', b')
pair_path h k = cc

abbrev pub has : ℕ → List ℕ → Bool
has k ks = any (λ j. k == j) ks

pub has-append : (k : ℕ) (xs ys : List ℕ) → has k (xs ++ ys) ≡ (has k xs || has k ys)
has-append k [] ys = refl
has-append k (x ∷ xs) ys = ground (arith, has-append k xs ys)

module _ {ℓ} {A : Type ℓ} (key : A → ℕ) where
  -- No two items have the same key.
  abbrev pub Distinct : List A → Type 0
  Distinct [] = Unit
  Distinct (x ∷ xs) = (has (key x) (map key xs) ≡ false) × Distinct xs

  pub has-keep :
      (p : A → Bool) (k : ℕ) (xs : List A)
      → has k (map key (keep p xs)) ≡ true
      → has k (map key xs) ≡ true
  has-keep p k [] h = h
  has-keep p k (x ∷ xs) h = ground (arith, has-keep p k xs)

  pub has-take :
      (n k : ℕ) (xs : List A) → has k (map key (take n xs)) ≡ true → has k (map key xs) ≡ true
  has-take zero k xs h = cc
  has-take (suc n) k [] h = h
  has-take (suc n) k (x ∷ xs) h = ground (arith, has-take n k xs)

  pub Distinct-keep : (p : A → Bool) (xs : List A) → Distinct xs → Distinct (keep p xs)
  Distinct-keep p [] d = tt
  Distinct-keep p (x ∷ xs) d = ground (arith, Distinct-keep p xs d.1, has-keep p (key x) xs)

  pub others_differ :
      (k : ℕ) (xs : List A) → has k (map key xs) ≡ false → All (λ y. (key y == k) ≡ false) xs
  others_differ k [] h = tt
  others_differ k (x ∷ xs) h = ground (arith, others_differ k xs)

  -- With distinct keys, a filtered list has the key of an item exactly when it has the item.
  pub has-keep_lem :
      (p : A → Bool) (xs : List A)
      → Distinct xs
      → All (λ x. has (key x) (map key (keep p xs)) ≡ p x) xs
  has-keep_lem p [] d = tt
  has-keep_lem p (x ∷ xs) d = (
    ground (arith, has-keep p (key x) xs),
    All-both (λ y. (key y == key x) ≡ false) (λ y. has (key y) (map key (keep p xs)) ≡ p y)
        (λ y. has (key y) (map key (keep p (x ∷ xs))) ≡ p y) xs (λ y n h. ground arith)
        (others_differ (key x) xs d.0) (has-keep_lem p xs d.1),
  )

  -- Taking out items by their keys makes the list shorter, if it had one of the keys.
  pub length-keep-lt :
      (ks : List ℕ) (k : ℕ) (xs : List A)
      → has k (map key xs) ≡ true
      → has k ks ≡ true
      → length (keep (λ x. not (has (key x) ks)) xs) < length xs
  length-keep-lt ks k [] h m = cc
  length-keep-lt ks k (x ∷ xs) h m = ground (
    arith,
    length-keep-lt ks k xs,
    length-keep-le (λ x. not (has (key x) ks)) xs,
    ==_iff k (key x),
  )
