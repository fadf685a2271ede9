-- ===== src/Common/Map/Order.antt =====
-- The keys of a map are in strict order, as in a `BTreeMap`.
use kohdalab_iv.Common.Lists.{All, filter}
use kohdalab_iv.Common.Map.{Map, lookup, insert, remove, keys}
use Prim.Native.Nat.{ℕ, ◌<◌}
use mathlib.Core.Path.{◌≡◌}
use mathlib.Core.Logic.{◌≢◌}
use mathlib.Core.Bool.{Bool, false}
use mathlib.Core.Option.{some}
use mathlib.Core.List.{[], ◌∷◌}
use native.Mathlib.Omega.{arith}

module _ {ℓ} {V : Type ℓ} where
  abbrev pub Above : ℕ → Map V → Type 0
  Above k [] = Unit
  Above k ((j, v) ∷ m) = (k < j) × Above k m

  abbrev pub IsMap : Map V → Type 0
  IsMap [] = Unit
  IsMap ((k, v) ∷ m) = Above k m × IsMap m

  Above-mono : (j k : ℕ) (m : Map V) → j < k → Above k m → Above j m
  Above-mono j k [] lt h = tt
  Above-mono j k ((i, v) ∷ m) lt h = (omega arith, Above-mono j k m lt h.1)

  Above-insert : (j k : ℕ) (v : V) (m : Map V) → j < k → Above j m → Above j (insert k v m)
  unfolding insert
  Above-insert j k v [] lt h = (lt, tt)
  Above-insert j k v ((i, w) ∷ m) lt h = ground (arith, Above-insert j k v m lt h.1)

  Above-remove : (j k : ℕ) (m : Map V) → Above j m → Above j (remove k m)
  unfolding remove
  Above-remove j k [] h = tt
  Above-remove j k ((i, w) ∷ m) h = ground (arith, Above-remove j k m h.1)

  pub insert-IsMap : (k : ℕ) (v : V) (m : Map V) → IsMap m → IsMap (insert k v m)
  unfolding insert
  insert-IsMap k v [] h = (tt, tt)
  insert-IsMap k v ((j, w) ∷ m) h =
      ground (arith, insert-IsMap k v m h.1, Above-insert j k v m, Above-mono k j m)

  pub remove-IsMap : (k : ℕ) (m : Map V) → IsMap m → IsMap (remove k m)
  unfolding remove
  remove-IsMap k [] h = tt
  remove-IsMap k ((j, w) ∷ m) h = ground (arith, remove-IsMap k m h.1, Above-remove j k m h.0)

  -- A key is not among the smaller ones' followers.
  Above-keys :
      (p : ℕ × V → Bool) (a k : ℕ) (m : Map V)
      → Above k m
      → (a < k)
      → All (λ x. x ≢ a) (keys (filter p m))
  unfolding filter
  Above-keys p a k [] h lt = tt
  Above-keys p a k ((j, v) ∷ m) h lt = ground (arith, Above-keys p a k m h.1 lt)

  Above-keys_self :
      (p : ℕ × V → Bool) (k : ℕ) (m : Map V) → Above k m → All (λ x. x ≢ k) (keys (filter p m))
  unfolding filter
  Above-keys_self p k [] h = tt
  Above-keys_self p k ((j, v) ∷ m) h = ground (arith, Above-keys_self p k m h.1)

  -- The keys of the entries that pass a test leave out a key whose entry does not.
  pub keys-filter_ne :
      (p : ℕ × V → Bool) (a : ℕ) (v : V) (m : Map V)
      → IsMap m
      → lookup a m ≡ some v
      → p (a, v) ≡ false
      → All (λ x. x ≢ a) (keys (filter p m))
  unfolding filter lookup
  keys-filter_ne p a v [] h e f = tt
  keys-filter_ne p a v ((j, w) ∷ m) h e f =
      ground (arith, keys-filter_ne p a v m h.1, Above-keys_self p j m h.0)
