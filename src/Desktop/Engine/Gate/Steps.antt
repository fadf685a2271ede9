-- ===== src/Desktop/Engine/Gate/Steps.antt =====
-- The step that `set_voltage` of crates/iv-desktop/src/engine/gate.rs holds the level to.
use kohdalab_iv.Common.{
  ◌≡◌, refl, sym, ap, subst, ◌∙◌, inl, inr, Bool, true, false, Option, none, some,
}
use kohdalab_iv.Common.Exec.{◌>>=◌, ◌>>◌, pure, lift, gets, check}
use kohdalab_iv.Common.Runs.{
  Ends, Ends-bind, Ends-gets, Ends-lift, Ends-lifted, Ends-check, Ends-pure,
}
use kohdalab_iv.Transport.Instruments.{gate}
use kohdalab_iv.Desktop.Safety.{iv}
use kohdalab_iv.Desktop.Engine.{
  compliance_change, range_unknown, Bench, DevicePair, Planned, Setup, in_world, update, some_or,
  DcLimits, M,
}
use kohdalab_iv.Desktop.Engine.Exchange.{verify_held_settings, verify_existing_settings}
use kohdalab_iv.Desktop.Engine.Exchange.Ranges.{
  TellsRange, IsStep, some_or-ok, existing-TellsRange, held-TellsRange,
}
use kohdalab_iv.Desktop.Engine.Gate.{force_off}
use kohdalab_iv.Desktop.Engine.Gate.Limits.{range_limits, validate_held_value, same_setting}
use kohdalab_iv.Desktop.Engine.Gate.Setting.{prepare, hold_on, start_up, configure, switch_on}

module _ {F W : Type 0} (x : Setup F W) (d : DevicePair W) where
  -- The step of the range that is known.
  abbrev pub IsGateStep : Planned F → Option (DcLimits F) → F → Type 0
  IsGateStep planned = IsStep x d gate iv (range_limits x) planned.source_range

  abbrev IsGateStepAfter : Planned F → Bench F W → F → Type 0
  IsGateStepAfter planned b = IsGateStep planned (b.state.gate_dc_limits)

  -- The steps of `start_up` after the range was told.
  abbrev started : F → DcLimits F → M F W F
  started resolution held = do
    in_world (switch_on x d resolution)
    update (λ s. record s { gate_dc_limits = some held })
    pure resolution

  abbrev ranged : Planned F → F → M F W F
  ranged planned resolution = do
    model ← gets (λ b. d.model gate b.world)
    held ← lift (range_limits x model planned.source_range)
    started resolution held

  ranged-IsGateStep :
      (planned : Planned F) (resolution : F) (b : Bench F W)
      → TellsRange x d gate iv planned.source_range resolution
      → Ends (IsGateStepAfter planned) (ranged planned resolution) b
  ranged-IsGateStep planned resolution b told =
      Ends-gets (λ b. d.model gate b.world)
        (λ model. lift (range_limits x model planned.source_range) >>= started resolution) b
        (Ends-lift (range_limits x (d.model gate b.world) planned.source_range) (started resolution)
          b
          λ held found.
            Ends-bind (in_world (switch_on x d resolution))
              (λ _. update (λ s. record s { gate_dc_limits = some held }) >> pure resolution) b
              λ b₁ _ _.
                Ends-bind (update (λ s. record s { gate_dc_limits = some held }))
                  (λ _. pure resolution) b₁
                  λ b₂ _ updated. Ends-pure resolution b₂ (
                    held,
                    sym (ap (λ z. z.0.state.gate_dc_limits) updated),
                    inr (told, (b.world, found)),
                  ))

  abbrev verified : Planned F → M F W F
  verified planned = in_world (verify_existing_settings x d gate iv planned) >>= ranged planned

  start_up-IsGateStep :
      (planned : Planned F) (b : Bench F W)
      → Ends (IsGateStepAfter planned) (start_up x d planned) b
  unfolding start_up
  start_up-IsGateStep planned b =
      Ends-bind (force_off x (some d)) (λ _. in_world (configure x d planned) >> verified planned) b
        λ b₁ _ _.
          Ends-bind (in_world (configure x d planned)) (λ _. verified planned) b₁
            λ b₂ _ _.
              Ends-bind (in_world (verify_existing_settings x d gate iv planned)) (ranged planned)
                b₂
                λ b₃ resolution told.
                  ranged-IsGateStep planned resolution b₃
                    ((existing-TellsRange x d gate iv planned b₂).ended b₃ resolution told)

  module _ (voltage compliance ramp_step : F) (requested : Option F) where
    -- The steps of `hold_on` with the limits that are known.
    abbrev checked : Planned F → DcLimits F → M F W F
    checked planned held = do
      in_world (verify_held_settings x d gate iv held planned.hardware_compliance)
      pure held.resolution

    abbrev kept : Planned F → DcLimits F → M F W F
    kept planned held = do
      lift (validate_held_value x held voltage)
      lift (validate_held_value x held ramp_step)
      checked planned held

    kept-IsGateStep :
        (planned : Planned F) (held : DcLimits F) (b : Bench F W)
        → b.state.gate_dc_limits ≡ some held
        → Ends (IsGateStepAfter planned) (kept planned held) b
    kept-IsGateStep planned held b known =
        Ends-lifted (validate_held_value x held voltage)
          (lift (validate_held_value x held ramp_step) >> checked planned held) b
          (Ends-lifted (validate_held_value x held ramp_step) (checked planned held) b (
            Ends-bind (in_world (verify_held_settings x d gate iv held planned.hardware_compliance))
              (λ _. pure held.resolution) b
              λ b₁ u told. Ends-pure held.resolution b₁ (
                held,
                sym (ap (λ z. z.0.state.gate_dc_limits) told) ∙ known,
                inl (
                  refl,
                  (held-TellsRange x d gate iv held planned.hardware_compliance b).ended b₁ u told,
                ),
              )))

    abbrev recalled : Planned F → M F W F
    recalled planned = do
      limits ← gets (λ b. b.state.gate_dc_limits)
      held ← some_or range_unknown limits
      kept planned held

    abbrev compared : Planned F → Option F → M F W F
    compared planned previous = do
      check
          (elim previous [
            | none ↦ true
            | some p ↦ same_setting x.numbers p planned.hardware_compliance
          ])
          compliance_change
      recalled planned

    recalled-IsGateStep :
        (planned : Planned F) (b : Bench F W) → Ends (IsGateStepAfter planned) (recalled planned) b
    recalled-IsGateStep planned b =
        Ends-gets (λ b. b.state.gate_dc_limits)
          (λ known. some_or range_unknown known >>= kept planned) b
          (Ends-bind (some_or range_unknown (b.state.gate_dc_limits)) (kept planned) b
            λ b₁ held given.
              let (known, same) =
                some_or-ok range_unknown (b.state.gate_dc_limits) b b₁ held given in
              kept-IsGateStep planned held b₁
                (subst (λ (v : Bench F W). v.state.gate_dc_limits ≡ some held) same known))

    hold_on-IsGateStep :
        (planned : Planned F) (b : Bench F W)
        → Ends
            (IsGateStepAfter planned)
            (hold_on x d voltage compliance ramp_step requested planned)
            b
    unfolding hold_on
    hold_on-IsGateStep planned b =
        Ends-gets (λ b. b.state.gate_compliance) (compared planned) b
          (Ends-check
            (elim (b.state.gate_compliance) [
              | none ↦ true
              | some p ↦ same_setting x.numbers p planned.hardware_compliance
            ])
            compliance_change (recalled planned) b λ _. recalled-IsGateStep planned b)

    pub prepare-IsGateStep :
        (still_on : Bool) (planned : Planned F) (b : Bench F W)
        → Ends
            (IsGateStepAfter planned)
            (prepare x d voltage compliance ramp_step requested still_on planned)
            b
    unfolding prepare
    prepare-IsGateStep true planned b = hold_on-IsGateStep planned b
    prepare-IsGateStep false planned b = start_up-IsGateStep planned b
