-- ===== src/Desktop/Engine/SourceDc/Kept.antt =====
-- No part of `set` in crates/iv-desktop/src/engine/source_dc.rs makes a source a simulated one.
use kohdalab_iv.Common.{Bool, true, false, some, if◌then◌else◌}
use kohdalab_iv.Common.Exec.{pure, lift, gets, check}
use kohdalab_iv.Common.Runs.{Keeps, Keeps-bind, Keeps-pure, Keeps-fail, Keeps-gets, Keeps-if}
use kohdalab_iv.Desktop.Engine.{
  compliance_change, range_change, range_unknown, DcOutputState, DevicePair, Planned, Setup, M,
  in_world, update, ensure_not_cancelled, some_or, is_some,
}
use kohdalab_iv.Desktop.Engine.Evidence.{
  Keeps-in_world, Keeps-lift, Keeps-some_or, Keeps-check, Keeps-update,
}
use kohdalab_iv.Desktop.Engine.Gate.Limits.{fits, validate_held_value}
use kohdalab_iv.Desktop.Engine.SourceDc.{
  role, simulation, dc, limits, set_limits, verify_identity, verify_held_settings, verify_settings,
  force_off,
}
use kohdalab_iv.Desktop.Engine.SourceDc.Planning.{range_limits}
use kohdalab_iv.Desktop.Engine.SourceDc.Setting.{
  is_unchanged, configure, switch_on, finish, operation, keep_or_restart, hold_on, start_up,
  prepare, initial_level,
}
use kohdalab_iv.Desktop.Engine.SourceDc.Closed.{simulated, simulation-set_limits, force_off-Keeps}

module _ {F W : Type 0} (x : Setup F W) (d : DevicePair W) (secondary : Bool)
    (request : DcOutputState F) where
  keep_or_restart-Keeps :
      (planned : Planned F)
      → Keeps (simulated secondary) (keep_or_restart x d secondary request planned)
  unfolding keep_or_restart
  keep_or_restart-Keeps planned =
      Keeps-bind (simulated secondary) (gets (λ b. limits secondary b.state)) _
        (Keeps-gets (simulated secondary) (λ b. limits secondary b.state))
        λ known.
          Keeps-bind (simulated secondary) (some_or range_unknown known) _
            (Keeps-some_or (simulated secondary) range_unknown known)
            λ held.
              Keeps-if (simulated secondary)
                (fits x request.value request.ramp_step request.range held)
                (Keeps-pure (simulated secondary) true)
                (Keeps-if (simulated secondary) (is_some request.range)
                  (Keeps-fail (simulated secondary) range_change)
                  (Keeps-bind (simulated secondary)
                    (in_world (
                      verify_held_settings x d secondary request.mode held
                        planned.hardware_compliance))
                    _
                    (Keeps-in_world (simulation secondary) (
                      verify_held_settings x d secondary request.mode held
                        planned.hardware_compliance))
                    λ _.
                      Keeps-bind (simulated secondary) (force_off x secondary (some d)) _
                        (force_off-Keeps x d secondary (some d))
                        λ _. Keeps-pure (simulated secondary) false))

  hold_on-Keeps :
      (planned : Planned F) → Keeps (simulated secondary) (hold_on x d secondary request planned)
  unfolding hold_on
  hold_on-Keeps planned =
      Keeps-bind (simulated secondary) (gets (λ b. dc secondary b.state)) _
        (Keeps-gets (simulated secondary) (λ b. dc secondary b.state))
        λ previous.
          Keeps-bind (simulated secondary)
            (check (is_unchanged x d secondary request planned previous) compliance_change) _
            (Keeps-check (simulated secondary) _ compliance_change)
            λ _.
              Keeps-bind (simulated secondary) (gets (λ b. limits secondary b.state)) _
                (Keeps-gets (simulated secondary) (λ b. limits secondary b.state))
                λ known.
                  Keeps-bind (simulated secondary) (some_or range_unknown known) _
                    (Keeps-some_or (simulated secondary) range_unknown known)
                    λ held.
                      Keeps-bind (simulated secondary)
                        (lift (validate_held_value x held request.value)) _
                        (Keeps-lift (simulated secondary)
                          (validate_held_value x held request.value))
                        λ _.
                          Keeps-bind (simulated secondary)
                            (lift (validate_held_value x held request.ramp_step)) _
                            (Keeps-lift (simulated secondary)
                              (validate_held_value x held request.ramp_step))
                            λ _.
                              Keeps-bind (simulated secondary)
                                (in_world (
                                  verify_held_settings x d secondary request.mode held
                                    planned.hardware_compliance))
                                _
                                (Keeps-in_world (simulation secondary) (
                                  verify_held_settings x d secondary request.mode held
                                    planned.hardware_compliance))
                                λ _. Keeps-pure (simulated secondary) held.resolution

  start_up-Keeps :
      (planned : Planned F) → Keeps (simulated secondary) (start_up x d secondary request planned)
  unfolding start_up
  start_up-Keeps planned =
      Keeps-bind (simulated secondary) (force_off x secondary (some d)) _
        (force_off-Keeps x d secondary (some d))
        λ _.
          Keeps-bind (simulated secondary) (in_world (configure x d secondary request planned)) _
            (Keeps-in_world (simulation secondary) (configure x d secondary request planned))
            λ _.
              Keeps-bind (simulated secondary)
                (in_world (verify_settings x d secondary request.mode planned)) _
                (Keeps-in_world (simulation secondary)
                  (verify_settings x d secondary request.mode planned))
                λ resolution.
                  Keeps-bind (simulated secondary) (gets (λ b. d.model (role secondary) b.world)) _
                    (Keeps-gets (simulated secondary) (λ b. d.model (role secondary) b.world))
                    λ model.
                      Keeps-bind (simulated secondary)
                        (lift (range_limits x model request.mode planned.source_range)) _
                        (Keeps-lift (simulated secondary)
                          (range_limits x model request.mode planned.source_range))
                        λ held.
                          Keeps-bind (simulated secondary)
                            (in_world (switch_on x d secondary request resolution)) _
                            (Keeps-in_world (simulation secondary)
                              (switch_on x d secondary request resolution))
                            λ _.
                              Keeps-bind (simulated secondary)
                                (update (set_limits secondary (some held))) _
                                (Keeps-update (simulation secondary)
                                  (set_limits secondary (some held))
                                  (simulation-set_limits secondary (some held)))
                                λ _. Keeps-pure (simulated secondary) resolution

  prepare-Keeps :
      (still_on : Bool) (planned : Planned F)
      → Keeps (simulated secondary) (prepare x d secondary request still_on planned)
  unfolding prepare
  prepare-Keeps true planned = hold_on-Keeps planned
  prepare-Keeps false planned = start_up-Keeps planned

  unfoldable pub restart : Bool → Planned F → M F W Bool
  restart was_on planned =
      if was_on then keep_or_restart x d secondary request planned else pure false

  pub operation-Keeps :
      (was_on : Bool) (planned : Planned F)
      → Keeps (simulated secondary) (operation x d secondary request was_on planned)
  unfolding operation restart
  operation-Keeps was_on planned =
      Keeps-bind (simulated secondary) (in_world (ensure_not_cancelled x)) _
        (Keeps-in_world (simulation secondary) (ensure_not_cancelled x))
        λ _.
          Keeps-bind (simulated secondary) (in_world (verify_identity x d secondary)) _
            (Keeps-in_world (simulation secondary) (verify_identity x d secondary))
            λ _.
              Keeps-bind (simulated secondary) (restart was_on planned) _
                (Keeps-if (simulated secondary) was_on (keep_or_restart-Keeps planned)
                  (Keeps-pure (simulated secondary) false))
                λ still_on.
                  Keeps-bind (simulated secondary) (prepare x d secondary request still_on planned)
                    _ (prepare-Keeps still_on planned)
                    λ resolution.
                      Keeps-bind (simulated secondary)
                        (in_world (initial_level x d secondary request still_on)) _
                        (Keeps-in_world (simulation secondary)
                          (initial_level x d secondary request still_on))
                        λ current.
                          Keeps-in_world (simulation secondary)
                            (finish x d secondary request current resolution)
