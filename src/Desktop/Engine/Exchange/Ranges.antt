-- ===== src/Desktop/Engine/Exchange/Ranges.antt =====
-- The step of a range that a level is held to, in crates/iv-desktop/src/engine/gate.rs and
-- source_dc.rs: where it comes from.
use kohdalab_iv.Common.{◌≡◌, ap, ◌⊎◌, Option, none, some, Result, ok, arith}
use kohdalab_iv.Common.Exec.{Exec, ◌>>=◌, ◌>>◌, pure, lift, gets}
use kohdalab_iv.Common.Runs.{Ends, Ends-bind, Ends-gets, Ends-lift, Ends-lifted, Ends-pure}
use kohdalab_iv.Common.Text.{Text, text_of}
use kohdalab_iv.Common.{String}
use kohdalab_iv.Transport.Instruments.{Role}
use kohdalab_iv.Desktop.Safety.{Mode, verify_function}
use kohdalab_iv.Desktop.Engine.Readings.{verify_range, verify_hardware_limit}
use kohdalab_iv.Desktop.Engine.{
  EngineFault, bad_function, bad_range, bad_limit, planner, DcLimits, DevicePair, Bench, Setup,
  on_pair, or_fault, some_or, Planned, in_world,
}
use kohdalab_iv.Desktop.Engine.Exchange.{
  ask, protection_query, verify_settings, verify_existing_settings, verify_held_settings,
}
use kohdalab_iv.Desktop.Engine.Evidence.{on_pair-ok, or_fault-ok, Ends-in_world}

abbrev pub range_query : Option Text → Text
range_query special = elim special [ none ↦ text_of ":SOUR:RANG?" | some query ↦ query ]

pub some_or-ok :
    {F W A : Type 0} (fault : EngineFault) (o : Option A) (b b' : Bench F W) (a : A)
    → some_or fault o b ≡ (b', ok a)
    → (o ≡ some a) × (b ≡ b')
some_or-ok fault none b b' a h = absurd (ground arith)
some_or-ok fault (some c) b b' a h = (ground arith, ap (λ z. z.0) h)

module _ {F W : Type 0} (x : Setup F W) (d : DevicePair W) (role : Role) (mode : Mode) where
  -- The source told that it is in this range, and the planner knows the step of what it told.
  pub record TellsRange (range resolution : F) : Type 0 where
    pub before : W
    pub after : W
    pub special : Option Text
    pub reply : Text
    pub known : x.planner.source_range_query (d.model role before) ≡ ok special
    pub answered : d.query role (range_query special) before ≡ (after, ok reply)
    pub read :
        verify_range x.numbers x.planner (d.model role before) mode range reply ≡ ok resolution

  -- The step belongs to the limits that are known in the end: it is the step of limits that were
  -- kept, in whose range the source told that it is; or the source told the planned range, it is
  -- the step of what it told, and the limits are those of the planned range.
  abbrev pub IsStep :
      (String → F → Result (DcLimits F) EngineFault) → F → Option (DcLimits F) → F → Type 0
  IsStep find range limits resolution =
      (held : DcLimits F) × (limits ≡ some held)
      × (((held.resolution ≡ resolution) × ((step : F) × TellsRange held.range step))
          ⊎ (TellsRange range resolution × ((w : W) × (find (d.model role w) range ≡ ok held))))

  abbrev after_range : {P : Type 0} → F → F → Option P → Exec W EngineFault F
  after_range compliance resolution profile = elim profile [
    | none ↦ pure resolution
    | some _ ↦ do
      limit ← ask x d role (protection_query mode)
      lift (or_fault bad_limit (verify_hardware_limit x.numbers compliance limit))
      pure resolution
  ]

  -- What is left after the range was told.
  limit_asked :
      {P : Type 0} (range compliance resolution : F) (told : TellsRange range resolution)
      (profile : Option P) (w : W)
      → Ends (λ _ step. TellsRange range step) (after_range compliance resolution profile) w
  limit_asked range compliance resolution told none w = Ends-pure resolution w told
  limit_asked range compliance resolution told (some _) w =
      Ends-bind (ask x d role (protection_query mode)) _ w λ w' limit _.
        Ends-lifted (or_fault bad_limit (verify_hardware_limit x.numbers compliance limit)) _ w'
          (Ends-pure resolution w' told)

  -- The steps of `verify_settings` after the function was told.
  abbrev ranged : F → F → String → Exec W EngineFault F
  ranged range compliance model = do
    special ← lift (or_fault planner (x.planner.source_range_query model))
    reply ← on_pair (d.query role (range_query special))
    resolution ← lift (or_fault bad_range (verify_range x.numbers x.planner model mode range reply))
    profile ← lift (or_fault planner (x.planner.source_protection_profile model))
    after_range compliance resolution profile

  ranged-TellsRange :
      (range compliance : F) (w : W)
      → Ends
          (λ _ resolution. TellsRange range resolution)
          (ranged range compliance (d.model role w))
          w
  ranged-TellsRange range compliance w =
      Ends-lift (or_fault planner (x.planner.source_range_query (d.model role w))) _ w
        λ special known.
          Ends-bind (on_pair (d.query role (range_query special))) _ w λ w' reply asked.
            let checked = verify_range x.numbers x.planner (d.model role w) mode range reply in
            Ends-lift (or_fault bad_range checked) _ w' λ resolution read.
              Ends-lift (or_fault planner (x.planner.source_protection_profile (d.model role w))) _
                w'
                λ profile _.
                  limit_asked range compliance resolution
                    (record {
                      before = w;
                      after = w';
                      special = special;
                      reply = reply;
                      known = or_fault-ok planner _ special known;
                      answered = on_pair-ok (d.query role (range_query special)) w w' reply asked;
                      read = or_fault-ok bad_range checked resolution read;
                    })
                    profile w'

  verify_settings-TellsRange :
      (range compliance : F) (w : W)
      → Ends
          (λ _ resolution. TellsRange range resolution)
          (verify_settings x d role mode range compliance)
          w
  unfolding verify_settings
  verify_settings-TellsRange range compliance w =
      Ends-bind (ask x d role ":SOUR:FUNC?")
        (λ function.
          lift (or_fault bad_function (verify_function function mode))
          >> (gets (d.model role) >>= ranged range compliance))
        w
        λ w₁ function _. Ends-lifted (or_fault bad_function (verify_function function mode)) _ w₁ (
          Ends-gets (d.model role) (ranged range compliance) w₁
            (ranged-TellsRange range compliance w₁))

  verify_existing_settings-TellsRange :
      (planned : Planned F) (w : W)
      → Ends
          (λ _ resolution. TellsRange planned.source_range resolution)
          (verify_existing_settings x d role mode planned)
          w
  unfolding verify_existing_settings
  verify_existing_settings-TellsRange planned w =
      verify_settings-TellsRange planned.source_range planned.hardware_compliance w

  verify_held_settings-TellsRange :
      (held : DcLimits F) (compliance : F) (w : W)
      → Ends
          (λ _ _. (step : F) × TellsRange held.range step)
          (verify_held_settings x d role mode held compliance)
          w
  unfolding verify_held_settings
  verify_held_settings-TellsRange held compliance w =
      Ends-bind (verify_settings x d role mode held.range compliance) _ w λ w' step verified.
        Ends-pure tt w'
          (step, (verify_settings-TellsRange held.range compliance w).ended w' step verified)

  -- The same on the bench.
  pub existing-TellsRange :
      (planned : Planned F) (b : Bench F W)
      → Ends
          (λ _ step. TellsRange planned.source_range step)
          (in_world (verify_existing_settings x d role mode planned))
          b
  existing-TellsRange planned b =
      Ends-in_world (verify_existing_settings x d role mode planned) b
        (record { ended = (verify_existing_settings-TellsRange planned b.world).ended })

  pub held-TellsRange :
      (held : DcLimits F) (compliance : F) (b : Bench F W)
      → Ends
          (λ _ _. (step : F) × TellsRange held.range step)
          (in_world (verify_held_settings x d role mode held compliance))
          b
  held-TellsRange held compliance b =
      Ends-in_world (verify_held_settings x d role mode held compliance) b
        (record { ended = (verify_held_settings-TellsRange held compliance b.world).ended })
