-- ===== src/Desktop/Engine/Readings.antt =====
-- The checks of a source's numbers in crates/iv-desktop/src/engine/safety.rs.
use kohdalab_iv.Common.{String, ◌&&◌, Option, none, some, Result, ok, err, if◌then◌else◌}
use kohdalab_iv.Common.Text.{Text}
use kohdalab_iv.Common.Float.{Float}
use kohdalab_iv.Transport.Replies.{trim}
use kohdalab_iv.Desktop.Safety.{Mode}
use kohdalab_iv.Desktop.Engine.{Planner}

module _ {F : Type 0} (x : Float F) where
  abbrev pub nought : F
  nought = x.literal "0.0"

  -- `parse().ok().filter(|v| v.is_finite() && *v > 0.0)`.
  unfoldable pub positive_number : Text → Option F
  positive_number reply = elim (x.parse (trim reply)) [
    | none ↦ none
    | some v ↦ if x.is_finite v && x.lt nought v then some v else none
  ]

  -- `(actual / expected - 1.0).abs()`.
  abbrev pub deviation : F → F → F
  deviation actual expected = x.abs (x.sub (x.div actual expected) (x.literal "1.0"))

  unfoldable pub verify_range : Planner F → String → Mode → F → Text → Result F (Unit {0})
  verify_range p model mode expected reply = elim (positive_number reply) [
    | none ↦ err tt
    | some actual ↦
        if x.lt (x.literal "1e-9") (deviation actual expected)
        then err tt
        else elim (p.source_display_resolution model mode actual) [
          | err _ ↦ err tt
          | ok none ↦ err tt
          | ok (some resolution) ↦ ok resolution
        ]
  ]

  unfoldable pub verify_zero : F → F → Result (Unit {0}) (Unit {0})
  verify_zero reply resolution =
      if x.is_finite reply && x.le (x.abs reply) (x.mul resolution (x.literal "0.5"))
      then ok tt
      else err tt

  unfoldable pub verify_hardware_limit : F → Text → Result (Unit {0}) (Unit {0})
  verify_hardware_limit expected reply = elim (positive_number reply) [
    | none ↦ err tt
    | some actual ↦ if x.lt (deviation actual expected) (x.literal "1e-6") then ok tt else err tt
  ]
