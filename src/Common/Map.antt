-- ===== src/Common/Map.antt =====
-- `BTreeMap<u8, V>` as an association list in the order of its keys.
pub mod Order
use Prim.Native.Nat.{ℕ}
use mathlib.Core.Path.{◌≡◌, refl}
use mathlib.Core.Bool.{Bool, true, false}
use mathlib.Core.Option.{Option, none, some}
use mathlib.Core.List.{List, [], ◌∷◌, map}
use native.Mathlib.Omega.{arith}
use kohdalab_iv.Common.Tests.{◌==◌, ltb, if◌then◌else◌}

abbrev pub Map {ℓ} : Type ℓ → Type ℓ
Map V = List (ℕ × V)

module _ {ℓ} {V : Type ℓ} where
  unfoldable pub lookup : ℕ → Map V → Option V
  lookup key [] = none
  lookup key ((x, old) ∷ rest) = if x == key then some old else lookup key rest

  -- A new key goes before the first larger one.
  unfoldable pub insert : ℕ → V → Map V → Map V
  insert key new [] = (key, new) ∷ []
  insert key new ((x, old) ∷ rest) =
      if ltb x key
      then (x, old) ∷ insert key new rest
      else (if x == key then (key, new) ∷ rest else (key, new) ∷ (x, old) ∷ rest)

  unfoldable pub remove : ℕ → Map V → Map V
  remove key [] = []
  remove key ((x, old) ∷ rest) = if x == key then remove key rest else (x, old) ∷ remove key rest

  unfoldable pub contains_key : ℕ → Map V → Bool
  contains_key key [] = false
  contains_key key ((x, old) ∷ rest) = if x == key then true else contains_key key rest

  abbrev pub keys : Map V → List ℕ
  keys = map (λ e. e.0)

  pub lookup-insert :
      (key other : ℕ) (new : V) (entries : Map V)
      → lookup other (insert key new entries)
        ≡ (if key == other then some new else lookup other entries)
  unfolding lookup insert
  lookup-insert key other new [] = refl
  lookup-insert key other new (entry ∷ rest) = ground (arith, lookup-insert key other new rest)

  pub lookup-remove :
      (key other : ℕ) (entries : Map V)
      → lookup other (remove key entries) ≡ (if key == other then none else lookup other entries)
  unfolding lookup remove
  lookup-remove key other [] = ground arith
  lookup-remove key other (entry ∷ rest) = ground (arith, lookup-remove key other rest)

  pub contains_key-false :
      (key : ℕ) (entries : Map V) → contains_key key entries ≡ false → lookup key entries ≡ none
  unfolding lookup contains_key
  contains_key-false key [] h = refl
  contains_key-false key (entry ∷ rest) h = ground (arith, contains_key-false key rest)
