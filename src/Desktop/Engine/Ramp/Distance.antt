-- ===== src/Desktop/Engine/Ramp/Distance.antt =====
-- How far a ramp of crates/iv-desktop/src/engine/workflow.rs has to go, where its arithmetic is exact.
use kohdalab_iv.Common.{ℕ, ◌+◌, ◌-◌, ◌*◌, ◌≤◌, ◌<◌, ◌≡◌, ltb, leb, ◌==◌}
use kohdalab_iv.Common.Exec.{Exec}
use kohdalab_iv.Common.Float.{Float}
use kohdalab_iv.Desktop.Engine.Ramp.{RampPolicy, approach_target, return_to_zero}
use kohdalab_iv.Desktop.Engine.Ramp.Finished.{Finished}

-- The numbers on a grid within `centre` grid steps of zero: `place` counts the steps from the least
-- of them, and `step` is `width` grid steps. There the operations are exact, as they are for
-- multiples of a power of two that are not too large.
pub record IsGrid {F : Type 0} (x : Float F) (On : F → Type 0) (place : F → ℕ) (centre : ℕ)
    (step : F) (width : ℕ) : Type 0 where
  pub zero_on : On (x.literal "0.0")
  pub zero_place : place (x.literal "0.0") ≡ centre
  pub step_on : On step
  pub step_place : place step ≡ centre + width
  pub add_on :
      (a b : F)
      → On a
      → On b
      → centre ≤ place a + place b
      → place a + place b ≤ 3 * centre
      → On (x.add a b) × (place (x.add a b) + centre ≡ place a + place b)
  pub sub_on :
      (a b : F)
      → On a
      → On b
      → place b ≤ place a + centre
      → place a ≤ place b + centre
      → On (x.sub a b) × (place (x.sub a b) + place b ≡ place a + centre)
  pub abs_above : (a : F) → On a → centre ≤ place a → On (x.abs a) × (place (x.abs a) ≡ place a)
  pub abs_below :
      (a : F) → On a → place a ≤ centre → On (x.abs a) × (place (x.abs a) + place a ≡ 2 * centre)
  -- `signum` of a number, times the step.
  pub forth :
      (a : F)
      → On a
      → centre < place a
      → On (x.mul (x.signum a) step) × (place (x.mul (x.signum a) step) ≡ centre + width)
  pub back :
      (a : F)
      → On a
      → place a < centre
      → On (x.mul (x.signum a) step) × (place (x.mul (x.signum a) step) + width ≡ centre)
  pub lt_place : (a b : F) → On a → On b → x.lt a b ≡ ltb (place a) (place b)
  pub le_place : (a b : F) → On a → On b → x.le a b ≡ leb (place a) (place b)
  pub eq_place : (a b : F) → On a → On b → x.eq a b ≡ (place a == place b)

abbrev pub distance : ℕ → ℕ → ℕ
distance a b = (a - b) + (b - a)

module _ {F : Type 0} (x : Float F) {On : F → Type 0} (place : F → ℕ) (centre : ℕ) (step : F)
    (width : ℕ) (g : IsGrid x On place centre step width) where
  -- On the grid, and in its inner half.
  abbrev pub Inner : F → Type 0
  Inner a = On a × (centre ≤ 2 * place a) × (2 * place a ≤ 3 * centre)

  abbrev pub end_of : RampPolicy → F → F
  end_of approach_target target = target
  end_of return_to_zero target = x.literal "0.0"

  -- The level is within so many steps of the end of its ramp.
  abbrev pub Within : RampPolicy → F → ℕ → F → Type 0
  Within policy target n level =
      Inner level × (distance (place level) (place (end_of policy target)) ≤ n * width)
