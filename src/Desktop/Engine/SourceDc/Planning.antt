-- ===== src/Desktop/Engine/SourceDc/Planning.antt =====
-- The checks of a fixed output before anything is sent, in
-- crates/iv-desktop/src/engine/source_dc.rs.
use kohdalab_iv.Common.Results.{◌>>=◌, ◌>>◌}
use kohdalab_iv.Common.{
  String, Bool, true, false, ◌&&◌, Option, none, some, not, Result, ok, err, require,
}
use kohdalab_iv.Desktop.Safety.{Mode, iv, vi}
use kohdalab_iv.Desktop.Engine.{
  EngineFault, unknown_profile, unknown_range, off_grid, weaker_protection, voltage_only, planner,
  or_fault, DcLimits, DcConfig, DcOutputState, Planned, Setup, SourceRange,
}
use kohdalab_iv.Desktop.Engine.Gate.Limits.{finite, finite_positive, same_setting, find_range}

abbrev pub is_iv : Mode → Bool
is_iv iv = true
is_iv vi = false

-- `source_function` and `protection_function` of `measurement_definition` in
-- crates/iv-core/src/measurements.rs.
unfoldable pub source_function : Mode → String
source_function iv = "VOLT"
source_function vi = "CURR"

unfoldable pub protection_function : Mode → String
protection_function iv = "CURR"
protection_function vi = "VOLT"

module _ {F W : Type 0} (x : Setup F W) where
  unfoldable pub range_limits : String → Mode → F → Result (DcLimits F) EngineFault
  range_limits model mode range = do
    found ← or_fault planner (x.planner.source_ranges model mode)
    elim found [
      | none ↦ err unknown_profile
      | some ranges ↦ elim (find_range x.numbers range ranges) [
        | none ↦ err unknown_range
        | some r ↦
            ok (record { range = r.command_value; maximum = r.maximum; resolution = r.resolution })
      ]
    ]

  abbrev pub dc_config : String → DcOutputState F → DcConfig F
  dc_config model request = record {
    source_model = model;
    mode = request.mode;
    stop = request.value;
    step = request.ramp_step;
    source_limit =
        x.numbers.max (x.numbers.abs request.value) (x.numbers.literal "f64::MIN_POSITIVE");
    compliance = request.compliance;
    source_compliance = request.compliance;
    ramp_step = request.ramp_step;
  }

  -- The range that was asked for, if it was; otherwise one must exist.
  unfoldable pub requested_range :
      String → DcOutputState F → Option F → Result (Option (SourceRange F)) EngineFault
  requested_range model request none = do
    _ ←
        or_fault planner
          (x.planner.manual_source_range model request.mode request.value request.compliance)
    ok none
  requested_range model request (some range) = do
    r ← or_fault planner (
        x.planner.fixed_manual_source_range model request.mode request.value request.compliance
          range)
    _ ← or_fault planner (
        x.planner.nudge_source_value (x.numbers.literal "0.0") request.ramp_step r.resolution
          r.maximum)
    ok (some r)

  abbrev on_range : Option (SourceRange F) → Planned F → Planned F
  on_range none planned = planned
  on_range (some r) planned = record planned { source_range = r.command_value }

  unfoldable pub dc_plan : String → Bool → DcOutputState F → Result (Planned F) EngineFault
  dc_plan model secondary request = do
    finite x.numbers request.value
    finite_positive x.numbers request.compliance
    finite_positive x.numbers request.ramp_step
    require (not (secondary && not (is_iv request.mode))) voltage_only
    fixed ← requested_range model request request.range
    step ← or_fault planner (x.planner.prepare_config (dc_config model request))
    require (same_setting x.numbers (x.numbers.abs step) request.ramp_step) off_grid
    planned ← or_fault planner (x.planner.plan (dc_config model request))
    require
        (not (
          x.numbers.lt (x.numbers.add request.compliance (x.numbers.literal "f64::EPSILON"))
            planned.hardware_compliance))
        weaker_protection
    ok (on_range fixed planned)
