-- ===== src/Desktop/Engine/Gate/Settled.antt =====
-- A gate voltage is set and confirmed, or the gate is closed: `set_voltage` of
-- crates/iv-desktop/src/engine/gate.rs.
use kohdalab_iv.Common.{
  ◌≡◌, refl, sym, subst, ap, ◌∙◌, Bool, true, false, Option, none, some, Result, ok, err, arith,
}
use kohdalab_iv.Common.Runs.{Ends, Ends-bind, Ends-check}
use kohdalab_iv.Transport.Instruments.{gate}
use kohdalab_iv.Transport.Replies.{trim}
use kohdalab_iv.Desktop.States.{on, is_empty}
use kohdalab_iv.Desktop.Engine.{
  EngineFault, cancelled, Bench, DevicePair, Planned, Setup, in_world, ensure_not_cancelled, is_on,
}
use kohdalab_iv.Desktop.Engine.Evidence.{Confirmed, Ends-in_world}
use kohdalab_iv.Desktop.Engine.Exchange.{set_level, verify_identity}
use kohdalab_iv.Desktop.Engine.Exchange.Confirmed.{verify_final_level-Confirmed}
use kohdalab_iv.Desktop.Engine.Gate.{fail_closed}
use kohdalab_iv.Desktop.Engine.Gate.Setting.{
  finish, operation, apply_plan, set_hardware, set_pair, set_voltage, ramp_gate,
}
use kohdalab_iv.Desktop.Engine.Gate.Setting.{planned_result}
use kohdalab_iv.Desktop.Engine.Gate.Closed.{IsClosed, fail_closed-IsClosed}
use kohdalab_iv.Desktop.Engine.Gate.Limits.{gate_plan}
use kohdalab_iv.Desktop.Engine.Gate.Setting.{prepare, initial_level, ensure_gate, concluded}
use kohdalab_iv.Desktop.Engine.Gate.Steps.{IsGateStep, prepare-IsGateStep}
use kohdalab_iv.Desktop.Engine.Gate.Kept.{run_operation, restart, operation-Keeps}

module _ {F W : Type 0} (x : Setup F W) (d : DevicePair W) where
  -- The snapshot says that the gate is on at the level that was confirmed last, with the protection
  -- of the plan; and the level was confirmed to within the step of the range.
  pub record Applied (plan : Result (Planned F) EngineFault) (voltage : F) (b : Bench F W)
      : Type 0 where
    pub is_on : b.state.gate_output ≡ on
    pub voltage_known : b.state.gate_voltage ≡ some voltage
    pub planned : Planned F
    pub is_planned : plan ≡ ok planned
    pub compliance_known : b.state.gate_compliance ≡ some planned.hardware_compliance
    pub resolution : F
    pub is_step : IsGateStep x d planned b.state.gate_dc_limits resolution
    pub confirmed : Confirmed x d gate voltage resolution b.world

  abbrev pub Settled :
      Result (Planned F) EngineFault → F → Bench F W × Result (Unit {0}) EngineFault → Type 0
  Settled plan voltage (b, ok _) = Applied plan voltage b
  Settled plan voltage (b, err _) = IsClosed d b

  closed-Settled :
      (plan : Result (Planned F) EngineFault) (voltage : F)
      (z : Bench F W × Result (Unit {0}) EngineFault)
      → (e : EngineFault) × (z.1 ≡ err e) × IsClosed d z.0
      → Settled plan voltage z
  closed-Settled plan voltage (b, ok u) (e, q, closed) = absurd (ground arith)
  closed-Settled plan voltage (b, err e') (e, q, closed) = closed

  module _ (voltage compliance ramp_step : F) (requested : Option F) where
    finish-Confirmed :
        (current resolution : F) (w : W)
        → Ends
            (λ w' _. Confirmed x d gate voltage resolution w')
            (finish x d voltage compliance ramp_step requested current resolution)
            w
    unfolding finish
    finish-Confirmed current resolution w =
        Ends-bind (ramp_gate x d voltage compliance ramp_step requested current) _ w λ w₁ reached _.
          Ends-check reached cancelled _ w₁ λ _. Ends-bind (ensure_not_cancelled x) _ w₁ λ w₂ _ _.
            Ends-bind (set_level x d gate voltage) _ w₂
              λ w₃ _ _. verify_final_level-Confirmed x d gate voltage resolution w₃

    -- The level was confirmed to within the step of the range that the snapshot knows.
    abbrev Reached : Planned F → Bench F W → Type 0
    Reached planned b =
        (resolution : F) × IsGateStep x d planned b.state.gate_dc_limits resolution
        × Confirmed x d gate voltage resolution b.world

    operation-Confirmed :
        (was_on : Bool) (planned : Planned F) (b : Bench F W)
        → Ends
            (λ b' _. Reached planned b')
            (run_operation x d voltage compliance ramp_step requested was_on planned)
            b
    unfolding operation restart
    operation-Confirmed was_on planned b =
        Ends-bind (in_world (ensure_not_cancelled x)) _ b λ b₁ _ _.
          Ends-bind (in_world (verify_identity x d gate)) _ b₁ λ b₂ _ _.
            Ends-bind (restart x d voltage compliance ramp_step requested was_on planned) _ b₂
              λ b₃ still_on _.
                Ends-bind (prepare x d voltage compliance ramp_step requested still_on planned) _ b₃
                  λ b₄ resolution prepared.
                    let m = initial_level x d voltage compliance ramp_step requested still_on in
                    let step =
                      (prepare-IsGateStep x d voltage compliance ramp_step requested still_on
                          planned b₃).ended
                        b₄ resolution prepared in
                    Ends-bind (in_world m) _ b₄ λ b₅ current started.
                      Ends-in_world
                        (finish x d voltage compliance ramp_step requested current resolution) b₅
                        (record {
                          ended = λ w u h. (
                            resolution,
                            subst (λ s. IsGateStep x d planned s.gate_dc_limits resolution)
                                (ap (λ z. z.0.state) started) step,
                            (finish-Confirmed current resolution b₅.world).ended w u h,
                          );
                        })

    concluded-Settled :
        (planned : Planned F) (z : Bench F W × Result (Unit {0}) EngineFault)
        → z.0.state.gate_simulation ≡ false
        → ((u : Unit {0}) → z.1 ≡ ok u → Reached planned z.0)
        → Settled
            (ok planned)
            voltage
            (concluded x d voltage compliance ramp_step requested planned z)
    concluded-Settled planned (b, ok u) real confirmed =
        let (resolution, step, last) = confirmed u refl in
        record {
          is_on = refl;
          voltage_known = refl;
          planned = planned;
          is_planned = refl;
          compliance_known = refl;
          resolution = resolution;
          is_step = step;
          confirmed = last;
        }
    concluded-Settled planned (b, err fault) real confirmed =
        closed-Settled _ voltage (fail_closed x (some d) fault b)
          (fail_closed-IsClosed x d fault b real)

    planned_result-Settled :
        (plan : Result (Planned F) EngineFault) (b : Bench F W)
        → b.state.gate_simulation ≡ false
        → Settled plan voltage (planned_result x d voltage compliance ramp_step requested plan b)
    unfolding planned_result apply_plan
    planned_result-Settled (err fault) b real =
        closed-Settled _ voltage (fail_closed x (some d) fault b)
          (fail_closed-IsClosed x d fault b real)
    planned_result-Settled (ok planned) b real =
        let was_on = is_on b.state.gate_output in
        concluded-Settled planned
          (run_operation x d voltage compliance ramp_step requested was_on planned b)
          ((operation-Keeps x d voltage compliance ramp_step requested was_on planned).kept b
            ∙ real)
          (λ u q.
            (operation-Confirmed was_on planned b).ended
              (run_operation x d voltage compliance ramp_step requested was_on planned b).0 u
              (ap
                (λ r. (
                  (run_operation x d voltage compliance ramp_step requested was_on planned b).0,
                  r,
                ))
                q))

    -- What a call does with a gate that is ready.
    set_voltage-planned :
        (b : Bench F W)
        → b.state.gate_connected ≡ true
        → b.state.error ≡ none
        → b.state.gate_simulation ≡ false
        → d.is_connected gate b.world ≡ true
        → is_empty (trim (d.identity gate b.world)) ≡ false
        → set_voltage x voltage compliance ramp_step requested (some d) b
          ≡ planned_result x d voltage compliance ramp_step requested
              (gate_plan x (d.model gate b.world) voltage compliance ramp_step requested)
              b
    unfolding set_voltage set_pair set_hardware ensure_gate
    set_voltage-planned b connected faultless real attached named = ground arith

    -- Setting a voltage, where the gate is connected, not simulated, without an error before, and
    -- its identity is known, ends in one of two ways. It succeeds, the snapshot says that the
    -- gate is on at this voltage with the protection of the plan, and the last answers of the
    -- gate were: a level within half a step and 1e-12 of it, an output that is on, an empty error
    -- queue, and, if it has a condition register, no active limiter. The step is that of the
    -- limits that the snapshot has, in whose range the gate told that it is; or it is the step of
    -- the planned range as the gate told it, and the snapshot has the limits of the planned
    -- range. Or it fails, and the snapshot says that the output is unknown, or that it is off,
    -- and then the last thing done to the pair was an output-off of the gate that was verified.
    pub set_voltage-Settled :
        (b : Bench F W)
        → b.state.gate_connected ≡ true
        → b.state.error ≡ none
        → b.state.gate_simulation ≡ false
        → d.is_connected gate b.world ≡ true
        → is_empty (trim (d.identity gate b.world)) ≡ false
        → Settled
            (gate_plan x (d.model gate b.world) voltage compliance ramp_step requested)
            voltage
            (set_voltage x voltage compliance ramp_step requested (some d) b)
    set_voltage-Settled b connected faultless real attached named =
        subst
          (Settled (gate_plan x (d.model gate b.world) voltage compliance ramp_step requested)
            voltage)
          (sym (set_voltage-planned b connected faultless real attached named))
          (planned_result-Settled
            (gate_plan x (d.model gate b.world) voltage compliance ramp_step requested) b real)
