-- ===== src/Common/Float.antt =====
-- The operations on `f64` that the program calls: a parameter, with the type of the numbers.
use mathlib.Core.Bool.{Bool}
use mathlib.Core.Option.{Option}
use Prim.Native.String.{String}
use kohdalab_iv.Common.Text.{Text}

pub record Float (F : Type 0) : Type 0 where
  -- The number that a literal of the source stands for.
  pub literal : String → F
  pub parse : Text → Option F
  pub is_finite : F → Bool
  -- `fract() != 0.0`.
  pub has_fraction : F → Bool
  pub le : F → F → Bool
  pub lt : F → F → Bool
  pub eq : F → F → Bool
  pub add : F → F → F
  pub sub : F → F → F
  pub mul : F → F → F
  pub div : F → F → F
  pub max : F → F → F
  pub abs : F → F
  pub signum : F → F
  -- `{:.0}` and `{:.12e}`.
  pub show_integer : F → Text
  pub show_scientific : F → Text
