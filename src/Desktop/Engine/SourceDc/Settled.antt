-- ===== src/Desktop/Engine/SourceDc/Settled.antt =====
-- A fixed output is set and confirmed, or it is closed: `set` of
-- crates/iv-desktop/src/engine/source_dc.rs.
use kohdalab_iv.Common.{
  ◌≡◌, refl, sym, subst, ap, ◌∙◌, Bool, true, false, inl, inr, not, ◌&&◌, none, some, Result, ok,
  err, arith, Bool-cases,
}
use kohdalab_iv.Common.Runs.{Ends, Ends-bind, Ends-check}
use kohdalab_iv.Transport.Replies.{trim}
use kohdalab_iv.Desktop.States.{on, is_empty}
use kohdalab_iv.Desktop.Engine.{
  EngineFault, cancelled, bad_level, bad_number, range_unknown, DcOutputState, Bench, DevicePair,
  Planned, Setup, in_world, ensure_not_cancelled, is_on, is_some,
}
use kohdalab_iv.Desktop.Engine.Evidence.{Confirmed, Ends-in_world}
use kohdalab_iv.Desktop.Engine.Exchange.{read_number, is_near}
use kohdalab_iv.Desktop.Engine.Exchange.Confirmed.{read_number-Confirmed}
use kohdalab_iv.Desktop.Engine.SourceDc.{
  role, connected, simulation, output, dc, limits, set_level, verify_identity, fail_closed,
}
use kohdalab_iv.Desktop.Engine.SourceDc.Planning.{dc_plan}
use kohdalab_iv.Desktop.Engine.SourceDc.Setting.{
  ramp_source, confirm, finish, prepare, initial_level, operation, verified, switched_on, concluded,
  apply_plan, set_hardware, set_pair, set,
}
use kohdalab_iv.Desktop.Engine.SourceDc.Closed.{
  IsClosed, put-output, simulation-put, fail_closed-IsClosed,
}
use kohdalab_iv.Desktop.Engine.SourceDc.Steps.{IsSourceStep, prepare-IsSourceStep}
use kohdalab_iv.Desktop.Engine.SourceDc.Kept.{restart, operation-Keeps}

module _ {F W : Type 0} (x : Setup F W) (d : DevicePair W) (secondary : Bool)
    (request : DcOutputState F) where
  -- The snapshot says that the output is on as it was asked for, with the protection of the plan,
  -- at the level that was confirmed last; and it was confirmed to within the step of the range.
  pub record Applied (plan : Result (Planned F) EngineFault) (b : Bench F W) : Type 0 where
    pub is_on : output secondary b.state ≡ on
    pub planned : Planned F
    pub is_planned : plan ≡ ok planned
    pub dc_known :
        dc secondary b.state ≡ some (record request { compliance = planned.hardware_compliance })
    pub resolution : F
    pub is_step : IsSourceStep x d secondary request planned (limits secondary b.state) resolution
    pub confirmed : Confirmed x d (role secondary) request.value resolution b.world

  abbrev pub Settled :
      Result (Planned F) EngineFault → Bench F W × Result (Unit {0}) EngineFault → Type 0
  Settled plan (b, ok _) = Applied plan b
  Settled plan (b, err _) = IsClosed d secondary b

  closed-Settled :
      (plan : Result (Planned F) EngineFault) (z : Bench F W × Result (Unit {0}) EngineFault)
      → (e : EngineFault) × (z.1 ≡ err e) × IsClosed d secondary z.0
      → Settled plan z
  closed-Settled plan (b, ok u) (e, q, closed) = absurd (ground arith)
  closed-Settled plan (b, err e') (e, q, closed) = closed

  confirm-Confirmed :
      (resolution : F) (w : W)
      → Ends
          (λ w' _. Confirmed x d (role secondary) request.value resolution w')
          (confirm x d secondary request resolution)
          w
  unfolding confirm
  confirm-Confirmed resolution w =
      Ends-bind (read_number x d (role secondary)) _ w λ w₁ actual read.
        Ends-check (x.numbers.is_finite actual && is_near x actual request.value resolution)
          bad_level _ w₁
          λ near.
            read_number-Confirmed x d (role secondary) request.value resolution w w₁ actual read
              near

  finish-Confirmed :
      (current resolution : F) (w : W)
      → Ends
          (λ w' _. Confirmed x d (role secondary) request.value resolution w')
          (finish x d secondary request current resolution)
          w
  unfolding finish
  finish-Confirmed current resolution w =
      Ends-check (x.numbers.is_finite current) bad_number _ w λ _.
        Ends-bind (ramp_source x d secondary request current) _ w λ w₁ reached _.
          Ends-check reached cancelled _ w₁ λ _. Ends-bind (ensure_not_cancelled x) _ w₁ λ w₂ _ _.
            Ends-bind (set_level x d secondary request.value) _ w₂
              λ w₃ _ _. confirm-Confirmed resolution w₃

  -- The level was confirmed to within the step of the range that the snapshot knows.
  abbrev Reached : Planned F → Bench F W → Type 0
  Reached planned b =
      (resolution : F) × IsSourceStep x d secondary request planned (limits secondary b.state)
        resolution
      × Confirmed x d (role secondary) request.value resolution b.world

  operation-Confirmed :
      (was_on : Bool) (planned : Planned F) (b : Bench F W)
      → Ends (λ b' _. Reached planned b') (operation x d secondary request was_on planned) b
  unfolding operation restart
  operation-Confirmed was_on planned b = Ends-bind (in_world (ensure_not_cancelled x)) _ b λ b₁ _ _.
      Ends-bind (in_world (verify_identity x d secondary)) _ b₁ λ b₂ _ _.
        Ends-bind (restart x d secondary request was_on planned) _ b₂ λ b₃ still_on _.
          Ends-bind (prepare x d secondary request still_on planned) _ b₃ λ b₄ resolution prepared.
            let m = initial_level x d secondary request still_on in
            let step =
              (prepare-IsSourceStep x d secondary request still_on planned b₃).ended b₄ resolution
                prepared in
            Ends-bind (in_world m) _ b₄ λ b₅ current started.
              Ends-in_world (finish x d secondary request current resolution) b₅ (record {
                ended = λ w u h. (
                  resolution,
                  subst
                      (λ s.
                        IsSourceStep x d secondary request planned (limits secondary s) resolution)
                      (ap (λ z. z.0.state) started) step,
                  (finish-Confirmed current resolution b₅.world).ended w u h,
                );
              })

  concluded-Settled :
      (was_on : Bool) (planned : Planned F) (z : Bench F W × Result (Unit {0}) EngineFault)
      → simulation secondary z.0.state ≡ false
      → ((u : Unit {0}) → z.1 ≡ ok u → Reached planned z.0)
      → Settled (ok planned) (concluded x d secondary request was_on planned z)
  unfolding concluded
  concluded-Settled was_on planned (b, err fault) real confirmed =
      closed-Settled _ (fail_closed x secondary (some d) fault b)
        (fail_closed-IsClosed x d secondary fault b real)
  concluded-Settled was_on planned (b, ok u) real confirmed =
      let now = some (verified x d secondary request planned) in
      let held = limits secondary b.state in
      let b' : Bench F W = record b { state = switched_on x d secondary request planned b.state } in
      let (resolution, step, last) = confirmed u refl in
      let (is_on, known, kept) = put-output secondary on now held b.state in
      elim (Bool-cases (not was_on && not (is_some (limits secondary b'.state)))) [
        | inl lacks ↦ rw lacks (
            closed-Settled _ (fail_closed x secondary (some d) range_unknown b') (
              fail_closed-IsClosed x d secondary range_unknown b'
                (simulation-put secondary on now held b.state ∙ real)))
        | inr has ↦ rw has (record {
          is_on = is_on;
          planned = planned;
          is_planned = refl;
          dc_known = known;
          resolution = resolution;
          is_step =
              subst (λ l. IsSourceStep x d secondary request planned l resolution) (sym kept) step;
          confirmed = last;
        })
      ]

  apply_plan-Settled :
      (plan : Result (Planned F) EngineFault) (b : Bench F W)
      → simulation secondary b.state ≡ false
      → Settled plan (apply_plan x d secondary request plan b)
  unfolding apply_plan
  apply_plan-Settled (err fault) b real =
      closed-Settled _ (fail_closed x secondary (some d) fault b)
        (fail_closed-IsClosed x d secondary fault b real)
  apply_plan-Settled (ok planned) b real =
      let was_on = is_on (output secondary b.state) in
      let run = operation x d secondary request was_on planned b in
      concluded-Settled was_on planned run
        ((operation-Keeps x d secondary request was_on planned).kept b ∙ real)
        (λ u q. (operation-Confirmed was_on planned b).ended run.0 u (ap (λ r. (run.0, r)) q))

  -- What a call does with a source that is ready.
  set-planned :
      (b : Bench F W)
      → connected secondary b.state ≡ true
      → b.state.error ≡ none
      → simulation secondary b.state ≡ false
      → d.is_connected (role secondary) b.world ≡ true
      → is_empty (trim (d.identity (role secondary) b.world)) ≡ false
      → set x secondary request (some d) b
        ≡ apply_plan x d secondary request
            (dc_plan x (d.model (role secondary) b.world) secondary request)
            b
  unfolding set set_pair set_hardware
  set-planned b attached faultless real present named = ground arith

  -- Setting a fixed output, where the source is connected, not simulated, without an error
  -- before, and its identity is known, ends in one of two ways. It succeeds, the snapshot says
  -- that the output is on as it was asked for, with the protection limit of the plan, and the
  -- last answers of the source were: a level within half a step and 1e-12 of the one asked for,
  -- an output that is on, an empty error queue, and, if it has a condition register, no active
  -- limiter. The step is that of the limits that the snapshot has, in whose range the source told
  -- that it is; or it is the step of the planned range as the source told it, and the snapshot
  -- has the limits of the planned range. Or it fails, the snapshot has no level and no range of
  -- the output and says that it is unknown, or that it is off, and then the last thing done to
  -- the pair was an output-off of this source that was verified.
  pub set-Settled :
      (b : Bench F W)
      → connected secondary b.state ≡ true
      → b.state.error ≡ none
      → simulation secondary b.state ≡ false
      → d.is_connected (role secondary) b.world ≡ true
      → is_empty (trim (d.identity (role secondary) b.world)) ≡ false
      → Settled
          (dc_plan x (d.model (role secondary) b.world) secondary request)
          (set x secondary request (some d) b)
  set-Settled b attached faultless real present named =
      subst (Settled (dc_plan x (d.model (role secondary) b.world) secondary request))
        (sym (set-planned b attached faultless real present named))
        (apply_plan-Settled (dc_plan x (d.model (role secondary) b.world) secondary request) b real)
