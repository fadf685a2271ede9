-- ===== src/Plan/Decimal.antt =====
-- The decimal numbers of the sweep planner, `rust_decimal::Decimal`: a type `N` with the operations
-- that crates/iv-core/src/lib.rs calls.
use kohdalab_iv.Common.{ℕ, ◌+◌, ◌*◌, ◌≤◌, ◌≡◌, Bool, ltb, ◌==◌}

pub record Decimal (N : Type 0) : Type 0 where
  pub zero : N
  pub add : N → N → N
  pub sub : N → N → N
  pub neg : N → N
  pub abs : N → N
  pub lt : N → N → Bool
  pub eq : N → N → Bool
  pub is_sign_negative : N → Bool

-- The values on a decimal grid, within `centre` grid steps of zero: `place` counts the steps from the
-- least of them. There the arithmetic is exact if the result is on the grid too, and the comparisons
-- are those of the places.
pub record IsGrid {N : Type 0} (d : Decimal N) (On : N → Type 0) (place : N → ℕ) (centre : ℕ)
    : Type 0 where
  pub place_bounded : (a : N) → On a → place a ≤ 2 * centre
  pub zero_on : On d.zero
  pub zero_place : place d.zero ≡ centre
  pub add_on :
      (a b : N)
      → On a
      → On b
      → centre ≤ place a + place b
      → place a + place b ≤ 3 * centre
      → On (d.add a b)
  pub add_place :
      (a b : N)
      → On a
      → On b
      → centre ≤ place a + place b
      → place a + place b ≤ 3 * centre
      → place (d.add a b) + centre ≡ place a + place b
  pub sub_on :
      (a b : N)
      → On a
      → On b
      → place b ≤ place a + centre
      → place a ≤ place b + centre
      → On (d.sub a b)
  pub sub_place :
      (a b : N)
      → On a
      → On b
      → place b ≤ place a + centre
      → place a ≤ place b + centre
      → place (d.sub a b) + place b ≡ place a + centre
  pub neg_on : (a : N) → On a → On (d.neg a)
  pub neg_place : (a : N) → On a → place (d.neg a) + place a ≡ 2 * centre
  pub abs_on : (a : N) → On a → On (d.abs a)
  pub abs_place_above : (a : N) → On a → centre ≤ place a → place (d.abs a) ≡ place a
  pub abs_place_below : (a : N) → On a → place a ≤ centre → place (d.abs a) + place a ≡ 2 * centre
  pub lt_place : (a b : N) → On a → On b → d.lt a b ≡ ltb (place a) (place b)
  pub eq_place : (a b : N) → On a → On b → d.eq a b ≡ (place a == place b)
  pub negative_place : (a : N) → On a → d.is_sign_negative a ≡ ltb (place a) centre
