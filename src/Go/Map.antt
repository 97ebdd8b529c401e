-- ===== src/Go/Map.antt =====
-- Go's `map` as an association list: a write takes the place of the key's older binding. Which key a
-- `range` over a map comes to first is not fixed by the language, and no caller depends on it.
use candi_plugin.Go.Outcome.{Outcome, ok, panics}
use candi_plugin.Go.Text.{Bytes, codes}
use candi_plugin.Base.{
  ◌≡◌, refl, List, [], ◌∷◌, Option, none, some, arith, if◌then◌else◌, HasEq, ◌==◌, ==_iff, bytes_eq,
}

module _ {ℓ κ} {Key : Type ℓ} {Value : Type κ} ⦃c : HasEq Key⦄ where
  -- value, ok := m[key]
  unfoldable pub lookup : Key → List (Key × Value) → Option Value
  lookup key [] = none
  lookup key (entry ∷ rest) = if key == entry.0 then some entry.1 else lookup key rest

  -- m[key] = value
  unfoldable pub insert : Key → Value → List (Key × Value) → List (Key × Value)
  insert key value [] = (key, value) ∷ []
  insert key value (entry ∷ rest) =
      if key == entry.0 then (key, value) ∷ rest else entry ∷ insert key value rest

  pub lookup-insert :
      (key other : Key) (value : Value) (entries : List (Key × Value))
      → lookup other (insert key value entries)
        ≡ (if other == key then some value else lookup other entries)
  unfolding insert lookup
  lookup-insert key other value [] = refl
  lookup-insert key other value (entry ∷ rest) = ground (
    arith,
    lookup-insert key other value rest,
    ==_iff other key,
    ==_iff other entry.0,
    ==_iff key entry.0,
  )

-- A map that is nil, as the zero value of a field is, or that `make` made.
abbrev pub GoMap : Type 0 → Type 0
GoMap V = Option (List (Bytes × V))

-- m[key] = value: on a nil map the run-time panics.
unfoldable pub store : {V : Type 0} → Bytes → V → GoMap V → Outcome (GoMap V)
store key value none = panics (codes "assignment to entry in nil map")
store key value (some m) = ok (some (insert key value m))

-- m[key], on a nil map too.
unfoldable pub load : {V : Type 0} → Bytes → GoMap V → Option V
load key none = none
load key (some m) = lookup key m

-- The keys and values that a range over m comes to.
unfoldable pub entries : {V : Type 0} → GoMap V → List (Bytes × V)
entries none = []
entries (some m) = m

-- The last value that a list of entries has for a key, or `x` where it has none.
abbrev pub last_value {ℓ} : {V : Type ℓ} → Bytes → List (Bytes × V) → Option V → Option V
last_value key [] x = x
last_value key (entry ∷ entries) x =
    last_value key entries (if key == entry.0 then some entry.1 else x)
