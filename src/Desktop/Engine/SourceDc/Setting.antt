-- ===== src/Desktop/Engine/SourceDc/Setting.antt =====
-- The setting of a fixed output, `set` of crates/iv-desktop/src/engine/source_dc.rs.
use kohdalab_iv.Common.Exec.{Exec, ◌>>=◌, ◌>>◌, pure, fail, lift, gets, check}
use kohdalab_iv.Common.{
  String, Bool, true, false, not, ◌&&◌, ◌++◌, Option, none, some, Result, ok, err, if◌then◌else◌,
}
use kohdalab_iv.Common.Text.{text_of}
use kohdalab_iv.Transport.Replies.{trim}
use kohdalab_iv.Desktop.States.{on, is_empty}
use kohdalab_iv.Desktop.Safety.{Mode, iv, vi}
use kohdalab_iv.Desktop.Engine.{
  EngineFault, not_connected, previous_error, no_transport, no_identity, cancelled, voltage_only,
  range_change, compliance_change, range_unknown, bad_zero, bad_level, bad_number, not_on, DcLimits,
  DcOutputState, Snapshot, Bench, DevicePair, Planned, Setup, M, in_world, update,
  ensure_not_cancelled, or_fault, some_or, is_on, is_some,
}
use kohdalab_iv.Desktop.Engine.Ramp.{ramp, approach_target}
use kohdalab_iv.Desktop.Engine.Readings.{nought, verify_zero}
use kohdalab_iv.Desktop.Engine.Exchange.{tell, tell_number, verify_on, read_number, is_near}
use kohdalab_iv.Desktop.Engine.Gate.Limits.{same_setting, validate_held_value, fits}
use kohdalab_iv.Desktop.Engine.SourceDc.{
  role, connected, simulation, output, dc, limits, set_limits, put, verify_held_settings,
  verify_identity, check_limiter, verify_error_queue_clear, verify_settings, set_level, force_off,
  fail_closed,
}
use kohdalab_iv.Desktop.Engine.SourceDc.Planning.{
  is_iv, source_function, protection_function, range_limits, dc_plan,
}

abbrev pub same_mode : Mode → Mode → Bool
same_mode iv iv = true
same_mode vi vi = true
same_mode _ _ = false

module _ {F W : Type 0} (x : Setup F W) where
  module _ (d : DevicePair W) (secondary : Bool) (request : DcOutputState F) where
    -- An output whose range does not serve is switched off, unless a range was asked for.
    unfoldable pub keep_or_restart : Planned F → M F W Bool
    keep_or_restart planned = do
      known ← gets (λ b. limits secondary b.state)
      held ← some_or range_unknown known
      (if fits x request.value request.ramp_step request.range held
          then pure true
          else (if is_some request.range then fail range_change else (do
            in_world
                (verify_held_settings x d secondary request.mode held planned.hardware_compliance)
            force_off x secondary (some d)
            pure false)))

    -- Whether the function and the protection stay as they were.
    abbrev pub is_unchanged : Planned F → Option (DcOutputState F) → Bool
    is_unchanged planned none = true
    is_unchanged planned (some previous) =
        same_mode previous.mode request.mode
        && same_setting x.numbers previous.compliance planned.hardware_compliance

    unfoldable pub hold_on : Planned F → M F W F
    hold_on planned = do
      previous ← gets (λ b. dc secondary b.state)
      check (is_unchanged planned previous) compliance_change
      known ← gets (λ b. limits secondary b.state)
      held ← some_or range_unknown known
      lift (validate_held_value x held request.value)
      lift (validate_held_value x held request.ramp_step)
      in_world (verify_held_settings x d secondary request.mode held planned.hardware_compliance)
      pure held.resolution

    -- The configuration of an output that is off and at zero.
    unfoldable pub configure : Planned F → Exec W EngineFault (Unit {0})
    configure planned = do
      ensure_not_cancelled x
      tell x d (role secondary) (text_of "*CLS")
      ensure_not_cancelled x
      tell x d (role secondary) (text_of ":SOUR:FUNC " ++ text_of (source_function request.mode))
      ensure_not_cancelled x
      tell_number x d (role secondary) ":SOUR:RANG " planned.source_range
      ensure_not_cancelled x
      tell x d (role secondary) (
          text_of ":SOUR:PROT:"
          ++ (text_of (protection_function request.mode)
              ++ (text_of " " ++ x.numbers.show_scientific planned.hardware_compliance)))
      ensure_not_cancelled x
      tell x d (role secondary) (text_of ":SOUR:LEV:FIX 0")

    unfoldable pub switch_on : F → Exec W EngineFault (Unit {0})
    switch_on resolution = do
      zero ← read_number x d (role secondary)
      lift (or_fault bad_zero (verify_zero x.numbers zero resolution))
      check_limiter x d secondary
      ensure_not_cancelled x
      tell x d (role secondary) (text_of ":OUTP ON")
      verify_on x d (role secondary) not_on

    unfoldable pub start_up : Planned F → M F W F
    start_up planned = do
      force_off x secondary (some d)
      in_world (configure planned)
      resolution ← in_world (verify_settings x d secondary request.mode planned)
      model ← gets (λ b. d.model (role secondary) b.world)
      held ← lift (range_limits x model request.mode planned.source_range)
      in_world (switch_on resolution)
      update (set_limits secondary (some held))
      pure resolution

    -- The resolution of the range, and the level that the ramp starts at.
    unfoldable pub prepare : Bool → Planned F → M F W F
    prepare true planned = hold_on planned
    prepare false planned = start_up planned

    unfoldable pub initial_level : Bool → Exec W EngineFault F
    initial_level true = read_number x d (role secondary)
    initial_level false = pure (nought x.numbers)

    unfoldable pub ramp_source : F → Exec W EngineFault Bool
    ramp_source current w =
        let ((w', _), r) =
          ramp x.numbers x.steps approach_target request.value request.ramp_step x.cancelled
            (λ level. do ensure_not_cancelled x; set_level x d secondary level; pure true)
            (w, current) in
        (w', r)

    -- The checks after the last level was set.
    unfoldable pub confirm : F → Exec W EngineFault (Unit {0})
    confirm resolution = do
      actual ← read_number x d (role secondary)
      check (x.numbers.is_finite actual && is_near x actual request.value resolution) bad_level
      verify_on x d (role secondary) not_on
      verify_error_queue_clear x d secondary
      check_limiter x d secondary

    unfoldable pub finish : F → F → Exec W EngineFault (Unit {0})
    finish current resolution = do
      check (x.numbers.is_finite current) bad_number
      reached ← ramp_source current
      check reached cancelled
      ensure_not_cancelled x
      set_level x d secondary request.value
      confirm resolution

    -- The closure `operation` of `set`.
    unfoldable pub operation : Bool → Planned F → M F W (Unit {0})
    unfolding prepare initial_level
    operation was_on planned = do
      in_world (ensure_not_cancelled x)
      in_world (verify_identity x d secondary)
      still_on ← if was_on then keep_or_restart planned else pure false
      resolution ← prepare still_on planned
      current ← in_world (initial_level still_on)
      in_world (finish current resolution)

    abbrev pub verified : Planned F → DcOutputState F
    verified planned = record request { compliance = planned.hardware_compliance }

    abbrev pub switched_on : Planned F → Snapshot F → Snapshot F
    switched_on planned s = put secondary on (some (verified planned)) (limits secondary s) s

    unfoldable pub concluded :
        Bool
        → Planned F
        → Bench F W × Result (Unit {0}) EngineFault
        → Bench F W × Result (Unit {0}) EngineFault
    concluded was_on planned (b, err fault) = fail_closed x secondary (some d) fault b
    concluded was_on planned (b, ok _) =
        let b' : Bench F W = record b { state = switched_on planned b.state } in
        if not was_on && not (is_some (limits secondary b'.state))
        then fail_closed x secondary (some d) range_unknown b'
        else (b', ok tt)

    unfoldable pub apply_plan : Result (Planned F) EngineFault → M F W (Unit {0})
    unfolding concluded
    apply_plan (err fault) b = fail_closed x secondary (some d) fault b
    apply_plan (ok planned) b =
        let was_on = is_on (output secondary b.state) in
        concluded was_on planned (operation was_on planned b)

    unfoldable pub set_hardware : M F W (Unit {0})
    unfolding apply_plan
    set_hardware = do
      attached ← gets (λ b. d.is_connected (role secondary) b.world)
      anonymous ← gets (λ b. is_empty (trim (d.identity (role secondary) b.world)))
      check (attached && not anonymous) no_identity
      model ← gets (λ b. d.model (role secondary) b.world)
      apply_plan (dc_plan x model secondary request)

  module _ (secondary : Bool) (request : DcOutputState F) where
    unfoldable pub simulated_limits : String → Planned F → M F W (DcLimits F)
    simulated_limits model planned b =
        if is_on (output secondary b.state)
        then elim (limits secondary b.state) [
          | none ↦ (b, err range_unknown)
          | some held ↦
              if fits x request.value request.ramp_step request.range held
              then (b, ok held)
              else (if is_some request.range
                  then fail_closed x secondary none range_change b
                  else (b, range_limits x model request.mode planned.source_range))
        ]
        else (b, range_limits x model request.mode planned.source_range)

    unfoldable pub set_simulated : Option (DevicePair W) → M F W (Unit {0})
    set_simulated pair = do
      check (not (secondary && not (is_iv request.mode))) voltage_only
      model ←
          gets
            (λ b. elim pair [ none ↦ "YOKOGAWA_GS210" | some d ↦ d.model (role secondary) b.world ])
      planned ← lift (dc_plan x model secondary request)
      held ← simulated_limits model planned
      in_world (ensure_not_cancelled x)
      update (put secondary on (some request) (some held))

    unfoldable pub set_pair : Option (DevicePair W) → M F W (Unit {0})
    set_pair pair = do d ← some_or no_transport pair; set_hardware d secondary request

    unfoldable pub set : Option (DevicePair W) → M F W (Unit {0})
    set pair = do
      attached ← gets (λ b. connected secondary b.state)
      check attached not_connected
      failed ← gets (λ b. is_some b.state.error)
      check (not failed) previous_error
      simulated ← gets (λ b. simulation secondary b.state)
      (if simulated then set_simulated pair else set_pair pair)
