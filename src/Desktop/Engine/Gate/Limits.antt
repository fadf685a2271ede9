-- ===== src/Desktop/Engine/Gate/Limits.antt =====
-- The checks of a gate voltage before anything is sent, in crates/iv-desktop/src/engine/gate.rs.
use kohdalab_iv.Common.Results.{◌>>=◌, ◌>>◌}
use kohdalab_iv.Common.{
  String, Bool, true, ◌&&◌, Option, none, some, List, [], ◌∷◌, not, Result, ok, err, is_ok, require,
  if◌then◌else◌,
}
use kohdalab_iv.Common.Float.{Float}
use kohdalab_iv.Desktop.Safety.{iv}
use kohdalab_iv.Desktop.Engine.{
  EngineFault, not_finite, not_positive, unknown_profile, unknown_range, range_change, off_grid,
  weaker_protection, planner, or_fault, DcLimits, DcConfig, Planned, Setup, SourceRange,
}

module _ {F : Type 0} (n : Float F) where
  unfoldable pub finite : F → Result (Unit {0}) EngineFault
  finite value = require (n.is_finite value) not_finite

  unfoldable pub finite_positive : F → Result (Unit {0}) EngineFault
  unfolding finite
  finite_positive value = do finite value; require (n.lt (n.literal "0.0") value) not_positive

  unfoldable pub same_setting : F → F → Bool
  same_setting left right =
      n.le (n.abs (n.sub left right))
        (n.mul (n.max (n.max (n.abs left) (n.abs right)) (n.literal "1.0")) (n.literal "1e-9"))

  -- `ranges.iter().find(..)`.
  unfoldable pub find_range : F → List (SourceRange F) → Option (SourceRange F)
  find_range range [] = none
  find_range range (r ∷ rs) =
      if same_setting r.command_value range then some r else find_range range rs

module _ {F W : Type 0} (x : Setup F W) where
  unfoldable pub range_limits : String → F → Result (DcLimits F) EngineFault
  range_limits model range = do
    found ← or_fault planner (x.planner.source_ranges model iv)
    elim found [
      | none ↦ err unknown_profile
      | some ranges ↦ elim (find_range x.numbers range ranges) [
        | none ↦ err unknown_range
        | some r ↦
            ok (record { range = r.command_value; maximum = r.maximum; resolution = r.resolution })
      ]
    ]

  unfoldable pub validate_held_value : DcLimits F → F → Result (Unit {0}) EngineFault
  validate_held_value limits value = do
    _ ← or_fault range_change (
        x.planner.nudge_source_value value (x.numbers.literal "0.0") limits.resolution
          limits.maximum)
    ok tt

  -- Whether the range of an output that is on serves for a new level.
  unfoldable pub fits : F → F → Option F → DcLimits F → Bool
  fits voltage ramp_step requested held =
      is_ok (validate_held_value held voltage)
      && (is_ok (validate_held_value held ramp_step)
          && elim requested [ none ↦ true | some range ↦ same_setting x.numbers range held.range ])

  abbrev pub gate_config : String → F → F → F → DcConfig F
  gate_config model voltage compliance ramp_step = record {
    source_model = model;
    mode = iv;
    stop = voltage;
    step = ramp_step;
    source_limit = x.numbers.max (x.numbers.abs voltage) (x.numbers.literal "f64::MIN_POSITIVE");
    compliance = x.numbers.literal "1e-3";
    source_compliance = compliance;
    ramp_step = ramp_step;
  }

  -- The range that was asked for, if it was; otherwise one must exist.
  unfoldable pub fixed_range :
      String → F → F → F → Option F → Result (Option (SourceRange F)) EngineFault
  fixed_range model voltage compliance ramp_step none = do
    _ ← or_fault planner (x.planner.manual_source_range model iv voltage compliance)
    ok none
  fixed_range model voltage compliance ramp_step (some range) = do
    r ← or_fault planner (x.planner.fixed_manual_source_range model iv voltage compliance range)
    _ ←
        or_fault planner
          (x.planner.nudge_source_value (x.numbers.literal "0.0") ramp_step r.resolution r.maximum)
    ok (some r)

  abbrev on_range : Option (SourceRange F) → Planned F → Planned F
  on_range none planned = planned
  on_range (some r) planned = record planned { source_range = r.command_value }

  unfoldable pub gate_plan : String → F → F → F → Option F → Result (Planned F) EngineFault
  gate_plan model voltage compliance ramp_step requested = do
    finite x.numbers voltage
    finite_positive x.numbers compliance
    finite_positive x.numbers ramp_step
    fixed ← fixed_range model voltage compliance ramp_step requested
    step ←
        or_fault planner (x.planner.prepare_config (gate_config model voltage compliance ramp_step))
    require (same_setting x.numbers (x.numbers.abs step) ramp_step) off_grid
    planned ← or_fault planner (x.planner.plan (gate_config model voltage compliance ramp_step))
    require
        (not (
          x.numbers.lt (x.numbers.add compliance (x.numbers.literal "f64::EPSILON"))
            planned.hardware_compliance))
        weaker_protection
    ok (on_range fixed planned)
