-- ===== src/Domain/Config/Merge.antt =====
-- The merged configuration: the call's writes over what the app already holds.
use deployer.Base.{
  List, Option, Text, [], arith, if◌then◌else◌, none, refl, some, text_eq, text_eq_sound,
  text_eq_refl, ◌∙◌, ◌∷◌, ◌≡◌,
}
use deployer.Domain.Config.{lookup, ConfigWrite, merge, put, Table}

-- One write of a Go map.
pub lookup-put :
    (k j : Text) (v : Text) (m : Table)
    → lookup j (put k v m) ≡ (if text_eq k j then some v else lookup j m)
unfolding lookup put
lookup-put k j v [] = refl
lookup-put k j v ((i, w) ∷ m) = ground (
  arith,
  text_eq_sound i k,
  text_eq_sound i j,
  text_eq_sound k j,
  text_eq_refl k,
  text_eq_refl i,
  lookup-put k j v m,
)

-- The last write of a key in the call, if it names the key.
unfoldable pub last_write : Text → List ConfigWrite → Option Text
last_write k [] = none
last_write k (w ∷ ws) = elim (last_write k ws) [
  | some v ↦ some v
  | none ↦ if text_eq w.key k then some w.value else none
]

abbrev pub or_else : Option Text → Option Text → Option Text
or_else (some v) o = some v
or_else none o = o

-- A key has the value that the call wrote last, or the one it had before the call.
pub lookup-merge :
    (k : Text) (m : Table) (ws : List ConfigWrite)
    → lookup k (merge m ws) ≡ or_else (last_write k ws) (lookup k m)
unfolding merge last_write
lookup-merge k m [] = refl
lookup-merge k m (w ∷ ws) =
    lookup-merge k (put w.key w.value m) ws ∙ ground (arith, lookup-put w.key k w.value m)
