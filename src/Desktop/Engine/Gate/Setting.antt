-- ===== src/Desktop/Engine/Gate/Setting.antt =====
-- The setting of a gate voltage, `set_voltage` of crates/iv-desktop/src/engine/gate.rs.
use kohdalab_iv.Common.Exec.{Exec, ◌>>=◌, ◌>>◌, pure, fail, lift, gets, check}
use kohdalab_iv.Common.{
  String, Bool, true, false, not, ◌&&◌, Option, none, some, Result, ok, err, if◌then◌else◌,
}
use kohdalab_iv.Common.Text.{text_of}
use kohdalab_iv.Transport.Instruments.{gate}
use kohdalab_iv.Transport.Replies.{trim}
use kohdalab_iv.Desktop.States.{on, is_empty}
use kohdalab_iv.Desktop.Engine.{
  EngineFault, not_connected, previous_error, no_transport, no_identity, cancelled, range_change,
  compliance_change, range_unknown, bad_zero, not_on, DcLimits, Snapshot, Bench, DevicePair,
  Planned, Setup, M, in_world, update, ensure_not_cancelled, or_fault, some_or, is_on, is_some,
}
use kohdalab_iv.Desktop.Engine.Ramp.{ramp, approach_target}
use kohdalab_iv.Desktop.Engine.Readings.{nought, verify_zero}
use kohdalab_iv.Desktop.Engine.Gate.Limits.{
  same_setting, range_limits, validate_held_value, fits, gate_plan,
}
use kohdalab_iv.Desktop.Engine.Exchange.{
  tell, tell_number, verify_identity, verify_existing_settings, verify_held_settings, check_limiter,
  set_level, verify_on, read_number, read_level, verify_final_level,
}
use kohdalab_iv.Desktop.Engine.Gate.{next_revision, force_off, fail_closed}
use kohdalab_iv.Desktop.Safety.{iv}

module _ {F W : Type 0} (x : Setup F W) where
  module _ (d : DevicePair W) where
    unfoldable pub ensure_gate : M F W (Unit {0})
    ensure_gate = do
      connected ← gets (λ b. b.state.gate_connected && d.is_connected gate b.world)
      check connected not_connected
      anonymous ← gets (λ b. is_empty (trim (d.identity gate b.world)))
      check (not anonymous) no_identity

    -- The configuration of an output that is off and at zero.
    unfoldable pub configure : Planned F → Exec W EngineFault (Unit {0})
    configure planned = do
      ensure_not_cancelled x
      tell x d gate (text_of "*CLS")
      ensure_not_cancelled x
      tell x d gate (text_of ":SOUR:FUNC VOLT")
      ensure_not_cancelled x
      tell_number x d gate ":SOUR:RANG " planned.source_range
      ensure_not_cancelled x
      tell_number x d gate ":SOUR:PROT:CURR " planned.hardware_compliance
      ensure_not_cancelled x
      tell x d gate (text_of ":SOUR:LEV:FIX 0")
      ensure_not_cancelled x

    unfoldable pub switch_on : F → Exec W EngineFault (Unit {0})
    switch_on resolution = do
      zero ← read_number x d gate
      lift (or_fault bad_zero (verify_zero x.numbers zero resolution))
      check_limiter x d gate
      ensure_not_cancelled x
      tell x d gate (text_of ":OUTP ON")
      ensure_not_cancelled x
      verify_on x d gate not_on

    unfoldable pub start_up : Planned F → M F W F
    start_up planned = do
      force_off x (some d)
      in_world (configure planned)
      resolution ← in_world (verify_existing_settings x d gate iv planned)
      model ← gets (λ b. d.model gate b.world)
      held ← lift (range_limits x model planned.source_range)
      in_world (switch_on resolution)
      update (λ s. record s { gate_dc_limits = some held })
      pure resolution

    module _ (voltage compliance ramp_step : F) (requested : Option F) where
      -- An output whose range does not serve is switched off, unless a range was asked for.
      unfoldable pub keep_or_restart : Planned F → M F W Bool
      keep_or_restart planned = do
        limits ← gets (λ b. b.state.gate_dc_limits)
        held ← some_or range_unknown limits
        (if fits x voltage ramp_step requested held
            then pure true
            else (if is_some requested then fail range_change else (do
              in_world (verify_held_settings x d gate iv held planned.hardware_compliance)
              force_off x (some d)
              pure false)))

      unfoldable pub hold_on : Planned F → M F W F
      hold_on planned = do
        previous ← gets (λ b. b.state.gate_compliance)
        check
            (elim previous [
              | none ↦ true
              | some p ↦ same_setting x.numbers p planned.hardware_compliance
            ])
            compliance_change
        limits ← gets (λ b. b.state.gate_dc_limits)
        held ← some_or range_unknown limits
        lift (validate_held_value x held voltage)
        lift (validate_held_value x held ramp_step)
        in_world (verify_held_settings x d gate iv held planned.hardware_compliance)
        pure held.resolution

      unfoldable pub ramp_gate : F → Exec W EngineFault Bool
      ramp_gate current w =
          let ((w', _), r) =
            ramp x.numbers x.steps approach_target voltage ramp_step x.cancelled
              (λ level. do ensure_not_cancelled x; set_level x d gate level; pure true)
              (w, current) in
          (w', r)

      unfoldable pub finish : F → F → Exec W EngineFault (Unit {0})
      finish current resolution = do
        reached ← ramp_gate current
        check reached cancelled
        ensure_not_cancelled x
        set_level x d gate voltage
        verify_final_level x d gate voltage resolution

      -- The resolution of the range, and the level that the ramp starts at.
      unfoldable pub prepare : Bool → Planned F → M F W F
      prepare true planned = hold_on planned
      prepare false planned = start_up planned

      unfoldable pub initial_level : Bool → Exec W EngineFault F
      initial_level true = read_level x d gate
      initial_level false = pure (nought x.numbers)

      -- The closure `operation` of `set_voltage`.
      unfoldable pub operation : Bool → Planned F → M F W (Unit {0})
      unfolding prepare initial_level
      operation was_on planned = do
        in_world (ensure_not_cancelled x)
        in_world (verify_identity x d gate)
        still_on ← if was_on then keep_or_restart planned else pure false
        resolution ← prepare still_on planned
        current ← in_world (initial_level still_on)
        in_world (finish current resolution)

      abbrev pub switched_on : F → Snapshot F → Snapshot F
      switched_on limit s = record s {
        gate_output = on;
        gate_voltage = some voltage;
        gate_compliance = some limit;
        gate_revision = next_revision s.gate_revision;
      }

      abbrev pub concluded :
          Planned F
          → Bench F W × Result (Unit {0}) EngineFault
          → Bench F W × Result (Unit {0}) EngineFault
      concluded planned (b, ok _) = update (switched_on planned.hardware_compliance) b
      concluded planned (b, err fault) = fail_closed x (some d) fault b

      unfoldable pub apply_plan : Planned F → M F W (Unit {0})
      apply_plan planned b = concluded planned (operation (is_on b.state.gate_output) planned b)

      unfoldable pub planned_result : Result (Planned F) EngineFault → M F W (Unit {0})
      planned_result (err fault) = fail_closed x (some d) fault
      planned_result (ok planned) = apply_plan planned

      unfoldable pub set_hardware : M F W (Unit {0})
      unfolding planned_result
      set_hardware = do
        ensure_gate
        model ← gets (λ b. d.model gate b.world)
        planned_result (gate_plan x model voltage compliance ramp_step requested)

  module _ (voltage compliance ramp_step : F) (requested : Option F) where
    unfoldable pub simulated_limits : String → Planned F → M F W (DcLimits F)
    simulated_limits model planned b =
        if is_on b.state.gate_output
        then elim b.state.gate_dc_limits [
          | none ↦ (b, err range_unknown)
          | some held ↦
              if fits x voltage ramp_step requested held
              then (b, ok held)
              else (if is_some requested
                  then fail_closed x none range_change b
                  else (b, range_limits x model planned.source_range))
        ]
        else (b, range_limits x model planned.source_range)

    unfoldable pub set_simulated : Option (DevicePair W) → M F W (Unit {0})
    set_simulated pair = do
      model ← gets (λ b. elim pair [ none ↦ "YOKOGAWA_GS210" | some d ↦ d.model gate b.world ])
      planned ← lift (gate_plan x model voltage compliance ramp_step requested)
      held ← simulated_limits model planned
      in_world (ensure_not_cancelled x)
      update (λ s. record s {
        gate_output = on;
        gate_voltage = some voltage;
        gate_compliance = some compliance;
        gate_dc_limits = some held;
        gate_revision = next_revision s.gate_revision;
      })

    unfoldable pub set_pair : Option (DevicePair W) → M F W (Unit {0})
    set_pair pair = do
      d ← some_or no_transport pair
      set_hardware d voltage compliance ramp_step requested

    unfoldable pub set_voltage : Option (DevicePair W) → M F W (Unit {0})
    set_voltage pair = do
      connected ← gets (λ b. b.state.gate_connected)
      check connected not_connected
      failed ← gets (λ b. is_some b.state.error)
      check (not failed) previous_error
      simulated ← gets (λ b. b.state.gate_simulation)
      (if simulated then set_simulated pair else set_pair pair)
