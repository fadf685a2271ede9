-- ===== src/Desktop/Engine/SourceDc/Steps.antt =====
-- The step that `set` of crates/iv-desktop/src/engine/source_dc.rs holds the level to.
use kohdalab_iv.Common.{◌≡◌, refl, sym, ap, subst, ◌∙◌, inl, inr, Bool, true, false, Option, some}
use kohdalab_iv.Common.Exec.{◌>>=◌, ◌>>◌, pure, lift, gets, check}
use kohdalab_iv.Common.Runs.{
  Ends, Ends-bind, Ends-gets, Ends-lift, Ends-lifted, Ends-check, Ends-pure,
}
use kohdalab_iv.Desktop.Engine.{
  compliance_change, range_unknown, Bench, DevicePair, Planned, Setup, in_world, update, some_or,
  DcLimits, DcOutputState, Snapshot, M,
}
use kohdalab_iv.Desktop.Engine.Exchange.{verify_held_settings, verify_existing_settings}
use kohdalab_iv.Desktop.Engine.Exchange.Ranges.{
  TellsRange, IsStep, some_or-ok, existing-TellsRange, held-TellsRange,
}
use kohdalab_iv.Desktop.Engine.SourceDc.{role, dc, limits, set_limits, force_off}
use kohdalab_iv.Desktop.Engine.Gate.Limits.{validate_held_value}
use kohdalab_iv.Desktop.Engine.SourceDc.Planning.{range_limits}
use kohdalab_iv.Desktop.Engine.SourceDc.Setting.{
  prepare, hold_on, start_up, configure, switch_on, is_unchanged,
}

limits-set_limits :
    {F : Type 0} (secondary : Bool) (held : DcLimits F) (s : Snapshot F)
    → limits secondary (set_limits secondary (some held) s) ≡ some held
unfolding limits set_limits
limits-set_limits true held s = refl
limits-set_limits false held s = refl

module _ {F W : Type 0} (x : Setup F W) (d : DevicePair W) (secondary : Bool)
    (request : DcOutputState F) where
  -- The step of the range that is known of the output.
  abbrev pub IsSourceStep : Planned F → Option (DcLimits F) → F → Type 0
  IsSourceStep planned =
      IsStep x d (role secondary) request.mode (λ model. range_limits x model request.mode)
        planned.source_range

  abbrev IsSourceStepAfter : Planned F → Bench F W → F → Type 0
  IsSourceStepAfter planned b = IsSourceStep planned (limits secondary b.state)

  -- The steps of `start_up` after the range was told.
  abbrev started : F → DcLimits F → M F W F
  started resolution held = do
    in_world (switch_on x d secondary request resolution)
    update (set_limits secondary (some held))
    pure resolution

  abbrev ranged : Planned F → F → M F W F
  ranged planned resolution = do
    model ← gets (λ b. d.model (role secondary) b.world)
    held ← lift (range_limits x model request.mode planned.source_range)
    started resolution held

  ranged-IsSourceStep :
      (planned : Planned F) (resolution : F) (b : Bench F W)
      → TellsRange x d (role secondary) request.mode planned.source_range resolution
      → Ends (IsSourceStepAfter planned) (ranged planned resolution) b
  ranged-IsSourceStep planned resolution b told =
      Ends-gets (λ b. d.model (role secondary) b.world)
        (λ model.
          lift (range_limits x model request.mode planned.source_range) >>= started resolution)
        b
        (Ends-lift
          (range_limits x (d.model (role secondary) b.world) request.mode planned.source_range)
          (started resolution) b
          λ held found.
            Ends-bind (in_world (switch_on x d secondary request resolution))
              (λ _. update (set_limits secondary (some held)) >> pure resolution) b
              λ b₁ _ _.
                Ends-bind (update (set_limits secondary (some held))) (λ _. pure resolution) b₁
                  λ b₂ _ updated. Ends-pure resolution b₂ (
                    held,
                    sym (ap (λ z. limits secondary z.0.state) updated)
                        ∙ limits-set_limits secondary held b₁.state,
                    inr (told, (b.world, found)),
                  ))

  abbrev verified : Planned F → M F W F
  verified planned =
      in_world (verify_existing_settings x d (role secondary) request.mode planned)
      >>= ranged planned

  start_up-IsSourceStep :
      (planned : Planned F) (b : Bench F W)
      → Ends (IsSourceStepAfter planned) (start_up x d secondary request planned) b
  unfolding start_up
  start_up-IsSourceStep planned b =
      Ends-bind (force_off x secondary (some d))
        (λ _. in_world (configure x d secondary request planned) >> verified planned) b
        λ b₁ _ _.
          Ends-bind (in_world (configure x d secondary request planned)) (λ _. verified planned) b₁
            λ b₂ _ _.
              Ends-bind
                (in_world (verify_existing_settings x d (role secondary) request.mode planned))
                (ranged planned) b₂
                λ b₃ resolution told. ranged-IsSourceStep planned resolution b₃ (
                  (existing-TellsRange x d (role secondary) request.mode planned b₂).ended b₃
                    resolution told)

  -- The steps of `hold_on` with the limits that are known.
  abbrev checked : Planned F → DcLimits F → M F W F
  checked planned held = do
    in_world
        (verify_held_settings x d (role secondary) request.mode held planned.hardware_compliance)
    pure held.resolution

  abbrev kept : Planned F → DcLimits F → M F W F
  kept planned held = do
    lift (validate_held_value x held request.value)
    lift (validate_held_value x held request.ramp_step)
    checked planned held

  kept-IsSourceStep :
      (planned : Planned F) (held : DcLimits F) (b : Bench F W)
      → limits secondary b.state ≡ some held
      → Ends (IsSourceStepAfter planned) (kept planned held) b
  kept-IsSourceStep planned held b known =
      Ends-lifted (validate_held_value x held request.value)
        (lift (validate_held_value x held request.ramp_step) >> checked planned held) b
        (Ends-lifted (validate_held_value x held request.ramp_step) (checked planned held) b (
          Ends-bind
            (in_world (
              verify_held_settings x d (role secondary) request.mode held
                planned.hardware_compliance))
            (λ _. pure held.resolution) b
            λ b₁ u told. Ends-pure held.resolution b₁ (
              held,
              sym (ap (λ z. limits secondary z.0.state) told) ∙ known,
              inl (
                refl,
                (held-TellsRange x d (role secondary) request.mode held planned.hardware_compliance
                      b).ended
                    b₁ u told,
              ),
            )))

  abbrev recalled : Planned F → M F W F
  recalled planned = do
    known ← gets (λ b. limits secondary b.state)
    held ← some_or range_unknown known
    kept planned held

  abbrev compared : Planned F → Option (DcOutputState F) → M F W F
  compared planned previous = do
    check (is_unchanged x d secondary request planned previous) compliance_change
    recalled planned

  recalled-IsSourceStep :
      (planned : Planned F) (b : Bench F W) → Ends (IsSourceStepAfter planned) (recalled planned) b
  recalled-IsSourceStep planned b =
      Ends-gets (λ b. limits secondary b.state)
        (λ known. some_or range_unknown known >>= kept planned) b
        (Ends-bind (some_or range_unknown (limits secondary b.state)) (kept planned) b
          λ b₁ held given.
            let (known, same) =
              some_or-ok range_unknown (limits secondary b.state) b b₁ held given in
            kept-IsSourceStep planned held b₁
              (subst (λ (v : Bench F W). limits secondary v.state ≡ some held) same known))

  hold_on-IsSourceStep :
      (planned : Planned F) (b : Bench F W)
      → Ends (IsSourceStepAfter planned) (hold_on x d secondary request planned) b
  unfolding hold_on
  hold_on-IsSourceStep planned b =
      Ends-gets (λ b. dc secondary b.state) (compared planned) b
        (Ends-check (is_unchanged x d secondary request planned (dc secondary b.state))
          compliance_change (recalled planned) b λ _. recalled-IsSourceStep planned b)

  pub prepare-IsSourceStep :
      (still_on : Bool) (planned : Planned F) (b : Bench F W)
      → Ends (IsSourceStepAfter planned) (prepare x d secondary request still_on planned) b
  unfolding prepare
  prepare-IsSourceStep true planned b = hold_on-IsSourceStep planned b
  prepare-IsSourceStep false planned b = start_up-IsSourceStep planned b
