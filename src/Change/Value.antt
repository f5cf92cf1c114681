-- ===== src/Change/Value.antt =====
-- JavaScript values as the change tracking sees them, and `normalizeValue`, `canonicalize` and
-- `canonicalStringify` of src/modules/change-tracking/change-tracking-diff.utils.ts.
-- Numbers are natural numbers, or `not_finite`; a date carries its ISO text, an invalid one none.
-- An object is its own enumerable properties in order, with no key twice and none that is an
-- array index (JavaScript would move such a key to the front).
pub mod Keys
use law_cast_backend.Base.{
  ℕ, zero, suc, ◌+◌, ◌-◌, ◌*◌, ◌/◌, ◌%◌, List, [], ◌∷◌, ◌++◌, Option, none, some, Bool, true, false,
  not, ltb, leb, ◌==◌, ◌&&◌, ◌||◌, if◌then◌else◌, String, str_eq,
}
use law_cast_backend.Change.Text.{Text, codes, normalize_string, decimal}

mutual
  pub data Value : Type 0 where
    undefined null not_finite : Value
    bool : Bool → Value
    number : ℕ → Value
    text : Text → Value
    date : Option Text → Value
    array : Items → Value
    object : Fields → Value

  pub data Items : Type 0 where
    nil : Items
    cons : Value → Items → Items

  pub data Fields : Type 0 where
    end : Fields
    field : String → Value → Fields → Fields

-- The order of `keys.sort()`: by code units.
unfoldable pub precedes : Text → Text → Bool
precedes [] [] = false
precedes [] (d ∷ t) = true
precedes (c ∷ s) [] = false
precedes (c ∷ s) (d ∷ t) = ltb c d || ((c == d) && precedes s t)

-- A property put at its place in the order.
unfoldable pub place : String → Value → Fields → Fields
place k v end = field k v end
place k v (field j w fs) =
    if precedes (codes k) (codes j) then field k v (field j w fs) else field j w (place k v fs)

unfoldable mutual
  unfolding normalize_string place

  pub normalize_value : Value → Value
  normalize_value undefined = null
  normalize_value null = null
  normalize_value not_finite = null
  normalize_value (bool b) = bool b
  normalize_value (number n) = number n
  normalize_value (text s) = text (normalize_string s)
  normalize_value (date none) = null
  normalize_value (date (some iso)) = text iso
  normalize_value (array xs) = array (normalize_items xs)
  normalize_value (object fs) = object (normalize_fields fs)

  pub normalize_items : Items → Items
  normalize_items nil = nil
  normalize_items (cons x xs) = cons (normalize_value x) (normalize_items xs)

  -- The properties, each normalised, in the order of the keys.
  pub normalize_fields : Fields → Fields
  normalize_fields end = end
  normalize_fields (field k v fs) = place k (normalize_value v) (normalize_fields fs)

unfoldable mutual
  unfolding place

  pub canonicalize : Value → Value
  canonicalize (array xs) = array (canonicalize_items xs)
  canonicalize (object fs) = object (canonicalize_fields fs)
  canonicalize undefined = undefined
  canonicalize null = null
  canonicalize not_finite = not_finite
  canonicalize (bool b) = bool b
  canonicalize (number n) = number n
  canonicalize (text s) = text s
  canonicalize (date d) = date d

  pub canonicalize_items : Items → Items
  canonicalize_items nil = nil
  canonicalize_items (cons x xs) = cons (canonicalize x) (canonicalize_items xs)

  pub canonicalize_fields : Fields → Fields
  canonicalize_fields end = end
  canonicalize_fields (field k v fs) = place k (canonicalize v) (canonicalize_fields fs)

-- A hexadecimal digit.
abbrev hex : ℕ → ℕ
hex n = if ltb n 10 then 48 + n else 87 + n

-- One character of a JSON text.
unfoldable pub escape : ℕ → Text
escape c =
    if c == 34
    then 92 ∷ 34 ∷ []
    else if c == 92
    then 92 ∷ 92 ∷ []
    else if c == 8
    then 92 ∷ 98 ∷ []
    else if c == 9
    then 92 ∷ 116 ∷ []
    else if c == 10
    then 92 ∷ 110 ∷ []
    else if c == 12
    then 92 ∷ 102 ∷ []
    else if c == 13
    then 92 ∷ 114 ∷ []
    else if ltb c 32
    then 92 ∷ 117 ∷ 48 ∷ 48 ∷ hex (c / 16) ∷ hex (c % 16) ∷ []
    else c ∷ []

unfoldable pub escape_all : Text → Text
unfolding escape
escape_all [] = []
escape_all (c ∷ s) = escape c ++ escape_all s

unfoldable pub quote : Text → Text
unfolding escape_all
quote s = 34 ∷ (escape_all s ++ 34 ∷ [])

-- `JSON.stringify`. A property that is undefined is left out, an item that is becomes null, and a
-- date is its ISO text.
unfoldable mutual
  unfolding quote decimal

  pub stringify : Value → Text
  stringify undefined = codes "null"
  stringify null = codes "null"
  stringify not_finite = codes "null"
  stringify (bool true) = codes "true"
  stringify (bool false) = codes "false"
  stringify (number n) = decimal n
  stringify (text s) = quote s
  stringify (date none) = codes "null"
  stringify (date (some iso)) = quote iso
  stringify (array xs) = 91 ∷ stringify_items false xs
  stringify (object fs) = 123 ∷ stringify_fields false fs

  -- The flag says that an item came before.
  pub stringify_items : Bool → Items → Text
  stringify_items after nil = 93 ∷ []
  stringify_items after (cons x xs) =
      (if after then 44 ∷ [] else []) ++ stringify x ++ stringify_items true xs

  pub stringify_fields : Bool → Fields → Text
  stringify_fields after end = 125 ∷ []
  stringify_fields after (field k undefined fs) = stringify_fields after fs
  stringify_fields after (field k v fs) =
      (if after then 44 ∷ [] else [])
      ++ quote (codes k)
      ++ 58 ∷ (stringify v ++ stringify_fields true fs)

unfoldable pub canonical_stringify : Value → Text
unfolding stringify canonicalize normalize_value
canonical_stringify v = stringify (canonicalize (normalize_value v))
