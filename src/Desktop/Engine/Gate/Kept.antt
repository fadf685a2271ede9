-- ===== src/Desktop/Engine/Gate/Kept.antt =====
-- No part of `set_voltage` in crates/iv-desktop/src/engine/gate.rs makes the gate a simulated one.
use kohdalab_iv.Common.{refl, Bool, true, false, Option, none, some, if◌then◌else◌}
use kohdalab_iv.Common.Exec.{pure, lift, gets, check}
use kohdalab_iv.Common.Runs.{Keeps, Keeps-bind, Keeps-pure, Keeps-fail, Keeps-gets, Keeps-if}
use kohdalab_iv.Transport.Instruments.{gate}
use kohdalab_iv.Desktop.Safety.{iv}
use kohdalab_iv.Desktop.Engine.{
  compliance_change, range_unknown, DevicePair, Planned, Setup, M, in_world, update,
  ensure_not_cancelled, some_or, is_some,
}
use kohdalab_iv.Desktop.Engine.Evidence.{
  Keeps-in_world, Keeps-lift, Keeps-some_or, Keeps-check, Keeps-update,
}
use kohdalab_iv.Desktop.Engine.Exchange.{verify_identity}
use kohdalab_iv.Desktop.Engine.Gate.{force_off}
use kohdalab_iv.Desktop.Engine.Gate.Setting.{finish, operation, keep_or_restart, hold_on, start_up}
use kohdalab_iv.Desktop.Engine.Gate.Closed.{simulated, force_off-Keeps}
use kohdalab_iv.Desktop.Engine.Gate.Limits.{fits, range_limits, validate_held_value, same_setting}
use kohdalab_iv.Desktop.Engine.Exchange.{verify_held_settings, verify_existing_settings}
use kohdalab_iv.Desktop.Engine.Gate.Setting.{prepare, initial_level, configure, switch_on}
use kohdalab_iv.Desktop.Engine.{range_change}

module _ {F W : Type 0} (x : Setup F W) (d : DevicePair W) where
  module _ (voltage compliance ramp_step : F) (requested : Option F) where
    keep_or_restart-Keeps :
        (planned : Planned F)
        → Keeps simulated (keep_or_restart x d voltage compliance ramp_step requested planned)
    unfolding keep_or_restart
    keep_or_restart-Keeps planned =
        Keeps-bind simulated (gets (λ b. b.state.gate_dc_limits)) _
          (Keeps-gets simulated (λ b. b.state.gate_dc_limits))
          λ limits.
            Keeps-bind simulated (some_or range_unknown limits) _
              (Keeps-some_or simulated range_unknown limits)
              λ held.
                Keeps-if simulated (fits x voltage ramp_step requested held)
                  (Keeps-pure simulated true)
                  (Keeps-if simulated (is_some requested) (Keeps-fail simulated range_change) (
                    Keeps-bind simulated
                      (in_world (verify_held_settings x d gate iv held planned.hardware_compliance))
                      _
                      (Keeps-in_world (λ s. s.gate_simulation)
                        (verify_held_settings x d gate iv held planned.hardware_compliance))
                      λ _.
                        Keeps-bind simulated (force_off x (some d)) _ (force_off-Keeps x d (some d))
                          λ _. Keeps-pure simulated false))

    hold_on-Keeps :
        (planned : Planned F)
        → Keeps simulated (hold_on x d voltage compliance ramp_step requested planned)
    unfolding hold_on
    hold_on-Keeps planned =
        Keeps-bind simulated (gets (λ b. b.state.gate_compliance)) _
          (Keeps-gets simulated (λ b. b.state.gate_compliance))
          λ previous.
            Keeps-bind simulated
              (check
                (elim previous [
                  | none ↦ true
                  | some p ↦ same_setting x.numbers p planned.hardware_compliance
                ])
                compliance_change)
              _ (Keeps-check simulated _ compliance_change)
              λ _.
                Keeps-bind simulated (gets (λ b. b.state.gate_dc_limits)) _
                  (Keeps-gets simulated (λ b. b.state.gate_dc_limits))
                  λ limits.
                    Keeps-bind simulated (some_or range_unknown limits) _
                      (Keeps-some_or simulated range_unknown limits)
                      λ held.
                        Keeps-bind simulated (lift (validate_held_value x held voltage)) _
                          (Keeps-lift simulated (validate_held_value x held voltage))
                          λ _.
                            Keeps-bind simulated (lift (validate_held_value x held ramp_step)) _
                              (Keeps-lift simulated (validate_held_value x held ramp_step))
                              λ _.
                                Keeps-bind simulated
                                  (in_world (
                                    verify_held_settings x d gate iv held
                                      planned.hardware_compliance))
                                  _
                                  (Keeps-in_world (λ s. s.gate_simulation)
                                    (verify_held_settings x d gate iv held
                                      planned.hardware_compliance))
                                  λ _. Keeps-pure simulated held.resolution

    start_up-Keeps : (planned : Planned F) → Keeps simulated (start_up x d planned)
    unfolding start_up
    start_up-Keeps planned =
        Keeps-bind simulated (force_off x (some d)) _ (force_off-Keeps x d (some d)) λ _.
          Keeps-bind simulated (in_world (configure x d planned)) _
            (Keeps-in_world (λ s. s.gate_simulation) (configure x d planned))
            λ _.
              Keeps-bind simulated (in_world (verify_existing_settings x d gate iv planned)) _
                (Keeps-in_world (λ s. s.gate_simulation)
                  (verify_existing_settings x d gate iv planned))
                λ resolution.
                  Keeps-bind simulated (gets (λ b. d.model gate b.world)) _
                    (Keeps-gets simulated (λ b. d.model gate b.world))
                    λ model.
                      Keeps-bind simulated (lift (range_limits x model planned.source_range)) _
                        (Keeps-lift simulated (range_limits x model planned.source_range))
                        λ held.
                          Keeps-bind simulated (in_world (switch_on x d resolution)) _
                            (Keeps-in_world (λ s. s.gate_simulation) (switch_on x d resolution))
                            λ _.
                              Keeps-bind simulated
                                (update (λ s. record s { gate_dc_limits = some held })) _
                                (Keeps-update (λ s. s.gate_simulation)
                                  (λ s. record s { gate_dc_limits = some held }) (λ s. refl))
                                λ _. Keeps-pure simulated resolution

    abbrev pub run_operation : Bool → Planned F → M F W (Unit {0})
    run_operation = operation x d voltage compliance ramp_step requested

    prepare-Keeps :
        (still_on : Bool) (planned : Planned F)
        → Keeps simulated (prepare x d voltage compliance ramp_step requested still_on planned)
    unfolding prepare
    prepare-Keeps true planned = hold_on-Keeps planned
    prepare-Keeps false planned = start_up-Keeps planned

    unfoldable pub restart : Bool → Planned F → M F W Bool
    restart was_on planned =
        if was_on
        then keep_or_restart x d voltage compliance ramp_step requested planned
        else pure false

    pub operation-Keeps :
        (was_on : Bool) (planned : Planned F) → Keeps simulated (run_operation was_on planned)
    unfolding operation restart
    operation-Keeps was_on planned =
        Keeps-bind simulated (in_world (ensure_not_cancelled x)) _
          (Keeps-in_world (λ s. s.gate_simulation) (ensure_not_cancelled x))
          λ _.
            Keeps-bind simulated (in_world (verify_identity x d gate)) _
              (Keeps-in_world (λ s. s.gate_simulation) (verify_identity x d gate))
              λ _.
                Keeps-bind simulated (restart was_on planned) _
                  (Keeps-if simulated was_on (keep_or_restart-Keeps planned)
                    (Keeps-pure simulated false))
                  λ still_on.
                    Keeps-bind simulated
                      (prepare x d voltage compliance ramp_step requested still_on planned) _
                      (prepare-Keeps still_on planned)
                      λ resolution.
                        Keeps-bind simulated
                          (in_world
                            (initial_level x d voltage compliance ramp_step requested still_on))
                          _
                          (Keeps-in_world (λ s. s.gate_simulation)
                            (initial_level x d voltage compliance ramp_step requested still_on))
                          λ current.
                            Keeps-in_world (λ s. s.gate_simulation)
                              (finish x d voltage compliance ramp_step requested current resolution)
