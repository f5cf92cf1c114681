-- ===== src/Base/Maps.antt =====
-- JavaScript objects with text keys: association lists in the order of insertion.
use Prim.Native.String.{String}
use mathlib.Core.List.{List, [], ◌∷◌}
use text.Mathlib.Text.{◌==◌ as str_eq}
use law_cast_backend.Base.Tests.{if◌then◌else◌}

-- `object[key] = value`. A key that is there keeps its place; a new key goes to the end.
unfoldable pub put_entry {ℓ} : {V : Type ℓ} → List (String × V) → String → V → List (String × V)
put_entry [] key value = (key, value) ∷ []
put_entry ((name, old) ∷ entries) key value =
    let others = put_entry entries key value in
    if str_eq name key then (name, value) ∷ entries else (name, old) ∷ others
