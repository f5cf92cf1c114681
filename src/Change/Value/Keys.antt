-- ===== src/Change/Value/Keys.antt =====
-- About `canonical_stringify` and the order of an object's properties.
use law_cast_backend.Base.{◌≡◌, refl, ap, ◌∙◌, ◌≢◌, [], ◌∷◌, true, false, arith, String}
use law_cast_backend.Change.Text.{Text, codes}
use law_cast_backend.Change.Value.{
  Value, object, Fields, end, field, precedes, place, normalize_value, normalize_fields,
  canonical_stringify, stringify, canonicalize,
}

precedes_asymm : (s t : Text) → precedes s t ≡ true → precedes t s ≡ false
unfolding precedes
precedes_asymm [] [] h = refl
precedes_asymm [] (d ∷ t) h = refl
precedes_asymm (c ∷ s) [] h = cc
precedes_asymm (c ∷ s) (d ∷ t) h = ground (arith, precedes_asymm s t)

precedes_total : (s t : Text) → s ≢ t → precedes s t ≡ false → precedes t s ≡ true
unfolding precedes
precedes_total [] [] n h = absurd (n refl)
precedes_total [] (d ∷ t) n h = cc
precedes_total (c ∷ s) [] n h = refl
precedes_total (c ∷ s) (d ∷ t) n h = ground (arith, precedes_total s t)

precedes_trans : (s t u : Text) → precedes s t ≡ true → precedes t u ≡ true → precedes s u ≡ true
unfolding precedes
precedes_trans [] [] u h k = cc
precedes_trans [] (d ∷ t) [] h k = cc
precedes_trans [] (d ∷ t) (e ∷ u) h k = refl
precedes_trans (c ∷ s) [] u h k = cc
precedes_trans (c ∷ s) (d ∷ t) [] h k = cc
precedes_trans (c ∷ s) (d ∷ t) (e ∷ u) h k = ground (arith, precedes_trans s t u)

place_comm :
    (k j : String) (a b : Value) (fs : Fields)
    → codes k ≢ codes j
    → place k a (place j b fs) ≡ place j b (place k a fs)
unfolding place
place_comm k j a b end n =
    ground (arith, precedes_asymm (codes k) (codes j), precedes_total (codes k) (codes j))
place_comm k j a b (field i w fs) n = ground (
  arith,
  precedes_asymm (codes k) (codes j),
  precedes_total (codes k) (codes j),
  precedes_trans (codes k) (codes j) (codes i),
  precedes_trans (codes j) (codes k) (codes i),
  place_comm k j a b fs n,
)

-- The same properties in another order.
pub data Reordered : Fields → Fields → Type 0 where
  same : (fs : Fields) → Reordered fs fs
  under :
      (k : String) (v : Value) {fs gs : Fields}
      → Reordered fs gs
      → Reordered (field k v fs) (field k v gs)
  swap :
      (k j : String) (a b : Value) (fs : Fields)
      → codes k ≢ codes j
      → Reordered (field k a (field j b fs)) (field j b (field k a fs))
  andthen : {fs gs hs : Fields} → Reordered fs gs → Reordered gs hs → Reordered fs hs

normalize_fields-Reordered :
    {fs gs : Fields} → Reordered fs gs → normalize_fields fs ≡ normalize_fields gs
unfolding normalize_value
normalize_fields-Reordered (same fs) = refl
normalize_fields-Reordered (under k v r) =
    ap (place k (normalize_value v)) (normalize_fields-Reordered r)
normalize_fields-Reordered (swap k j a b fs n) =
    place_comm k j (normalize_value a) (normalize_value b) (normalize_fields fs) n
normalize_fields-Reordered (andthen r q) =
    normalize_fields-Reordered r ∙ normalize_fields-Reordered q

-- Two objects with the same properties in different orders have the same canonical text.
pub canonical_stringify-Reordered :
    {fs gs : Fields}
    → Reordered fs gs
    → canonical_stringify (object fs) ≡ canonical_stringify (object gs)
unfolding canonical_stringify
canonical_stringify-Reordered r =
    ap (λ hs. stringify (canonicalize (object hs))) (normalize_fields-Reordered r)
