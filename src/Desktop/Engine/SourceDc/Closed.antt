-- ===== src/Desktop/Engine/SourceDc/Closed.antt =====
-- The shutdown of a fixed output after an error, `fail_closed` of
-- crates/iv-desktop/src/engine/source_dc.rs.
use kohdalab_iv.Common.{
  ◌≡◌, refl, sym, subst, ap, ◌∙◌, ◌⊎◌, inl, inr, Bool, true, false, Option, none, some, Result, ok,
  err, arith, Result-cases, Bool-cases, Option-cases,
}
use kohdalab_iv.Common.Exec.{fail, gets}
use kohdalab_iv.Common.Runs.{Keeps, Keeps-bind, Keeps-fail, Keeps-gets, Keeps-if}
use kohdalab_iv.Transport.Instruments.{Role}
use kohdalab_iv.Transport.Pair.Shutdown.{OutputOffReport}
use kohdalab_iv.Desktop.States.{OutputState, unknown, off}
use kohdalab_iv.Desktop.Engine.{
  EngineFault, no_transport, not_off, on_pair, off_failed, DcLimits, DcOutputState, Snapshot, Bench,
  DevicePair, Setup, in_world, update, some_or, warn,
}
use kohdalab_iv.Desktop.Engine.Evidence.{ForcedOff, Keeps-in_world, Keeps-some_or, Keeps-update}
use kohdalab_iv.Desktop.Engine.SourceDc.{
  role, simulation, output, dc, limits, put, set_output, set_dc, set_limits, record_off, lost,
  after_off, force_off, fail_closed, switched_off,
}

-- The snapshot does not say that the output is on, nor at what level: it is unknown, or it is off
-- and the last thing done to the pair was the output-off of this source, verified.
pub record IsClosed {F W : Type 0} (d : DevicePair W) (secondary : Bool) (b : Bench F W)
    : Type 0 where
  pub unset : dc secondary b.state ≡ none
  pub forgotten : limits secondary b.state ≡ none
  pub closed :
      (output secondary b.state ≡ unknown)
      ⊎ ((output secondary b.state ≡ off) × ForcedOff d (role secondary) b.world)

abbrev pub simulated : {F W : Type 0} → Bool → Bench F W → Bool
simulated secondary b = simulation secondary b.state

module _ {F : Type 0} where
  -- What was put is read back.
  pub put-output :
      (secondary : Bool) (o : OutputState) (v : Option (DcOutputState F)) (l : Option (DcLimits F))
      (s : Snapshot F)
      → (output secondary (put secondary o v l s) ≡ o)
        × (dc secondary (put secondary o v l s) ≡ v)
        × (limits secondary (put secondary o v l s) ≡ l)
  unfolding put output dc limits set_output set_dc set_limits
  put-output true o v l s = (refl, refl, refl)
  put-output false o v l s = (refl, refl, refl)

  pub simulation-put :
      (secondary : Bool) (o : OutputState) (v : Option (DcOutputState F)) (l : Option (DcLimits F))
      (s : Snapshot F)
      → simulation secondary (put secondary o v l s) ≡ simulation secondary s
  unfolding put simulation set_output set_dc set_limits
  simulation-put true o v l s = refl
  simulation-put false o v l s = refl

  pub simulation-set_limits :
      (secondary : Bool) (l : Option (DcLimits F)) (s : Snapshot F)
      → simulation secondary (set_limits secondary l s) ≡ simulation secondary s
  unfolding simulation set_limits
  simulation-set_limits true l s = refl
  simulation-set_limits false l s = refl

  -- A warning changes none of these fields.
  warn-fields :
      (secondary : Bool) (r : Role) (report : OutputOffReport) (s : Snapshot F)
      → (output secondary (warn r report s) ≡ output secondary s)
        × (dc secondary (warn r report s) ≡ dc secondary s)
        × (limits secondary (warn r report s) ≡ limits secondary s)
        × (simulation secondary (warn r report s) ≡ simulation secondary s)
  unfolding output dc limits simulation
  warn-fields true r report s = elim (Option-cases report.zeroing_warning) [
    | inl q ↦ ground arith
    | inr (w, q) ↦ ground arith
  ]
  warn-fields false r report s = elim (Option-cases report.zeroing_warning) [
    | inl q ↦ ground arith
    | inr (w, q) ↦ ground arith
  ]

module _ {F W : Type 0} (x : Setup F W) (d : DevicePair W) (secondary : Bool) where
  -- What a forced output-off does where the pair reports.
  force_off-reported :
      (b : Bench F W) (report : OutputOffReport)
      → simulation secondary b.state ≡ false
      → (d.force_output_off_role (role secondary) b.world).1 ≡ ok report
      → report.output_off_verified ≡ true
      → force_off x secondary (some d) b ≡ (
        record {
          world = (d.force_output_off_role (role secondary) b.world).0;
          state = warn (role secondary) report (switched_off secondary b.state);
        },
        ok tt,
      )
  unfolding force_off record_off
  force_off-reported b report real q verified = ground arith

  -- A forced output-off that succeeds.
  force_off-IsClosed :
      (b : Bench F W) (u : Unit {0})
      → simulation secondary b.state ≡ false
      → (force_off x secondary (some d) b).1 ≡ ok u
      → IsClosed d secondary (force_off x secondary (some d) b).0
  unfolding force_off record_off switched_off
  force_off-IsClosed b u real h =
      let forced = d.force_output_off_role (role secondary) b.world in
      elim (Result-cases forced.1) [
        | inr (e, q) ↦ absurd (ground arith)
        | inl (report, q) ↦ elim (Bool-cases report.output_off_verified) [
          | inr unverified ↦ absurd (ground arith)
          | inl verified ↦
              let s : Snapshot F = switched_off secondary b.state in
              let (output_as, dc_as, limits_as, _) =
                warn-fields secondary (role secondary) report s in
              let (is_off, no_dc, no_limits) = put-output secondary off none none b.state in
              subst (λ (z : Bench F W × Result (Unit {0}) EngineFault). IsClosed d secondary z.0)
                (sym (force_off-reported b report real q verified))
                (record {
                  unset = dc_as ∙ no_dc;
                  forgotten = limits_as ∙ no_limits;
                  closed = inr (
                    output_as ∙ is_off,
                    record {
                      before = b.world;
                      report = report;
                      forced = ap (λ r. (forced.0, r)) q;
                      verified = verified;
                    },
                  );
                })
        ]
      ]

  after_off-IsClosed :
      {A : Type 0} (fault : EngineFault) (z : Bench F W × Result (Unit {0}) EngineFault)
      → ((u : Unit {0}) → z.1 ≡ ok u → IsClosed d secondary z.0)
      → (e : EngineFault) × ((after_off {A = A} secondary fault z).1 ≡ err e)
        × IsClosed d secondary (after_off {A = A} secondary fault z).0
  unfolding lost
  after_off-IsClosed fault (b, ok u) h = (fault, refl, h u refl)
  after_off-IsClosed fault (b, err e) h =
      let (is_unknown, no_dc, no_limits) = put-output secondary unknown none none b.state in
      (
        off_failed fault e,
        refl,
        record { unset = no_dc; forgotten = no_limits; closed = inl is_unknown },
      )

  -- An output that fails closed.
  pub fail_closed-IsClosed :
      {A : Type 0} (fault : EngineFault) (b : Bench F W)
      → simulation secondary b.state ≡ false
      → (e : EngineFault) × ((fail_closed x secondary {A = A} (some d) fault b).1 ≡ err e)
        × IsClosed d secondary (fail_closed x secondary {A = A} (some d) fault b).0
  unfolding fail_closed
  fail_closed-IsClosed fault b real =
      after_off-IsClosed fault (force_off x secondary (some d) b)
        (λ u q. force_off-IsClosed b u real q)

  record_off-Keeps :
      (report : OutputOffReport) → Keeps (simulated secondary) (record_off x secondary report)
  unfolding record_off switched_off lost
  record_off-Keeps report =
      Keeps-if (simulated secondary) report.output_off_verified
        (Keeps-update (simulation secondary)
          (λ s. warn (role secondary) report (switched_off secondary s))
          (λ s.
            let (_, _, _, same) =
              warn-fields secondary (role secondary) report (switched_off secondary s) in
            same ∙ simulation-put secondary off none none s))
        (Keeps-bind (simulated secondary) (update (lost secondary)) (λ _. fail not_off)
          (Keeps-update (simulation secondary) (lost secondary)
            (simulation-put secondary unknown none none))
          (λ u. Keeps-fail (simulated secondary) not_off))

  pub force_off-Keeps :
      (pair : Option (DevicePair W)) → Keeps (simulated secondary) (force_off x secondary pair)
  unfolding force_off switched_off
  force_off-Keeps pair =
      Keeps-bind (simulated secondary) (gets (simulated secondary)) _
        (Keeps-gets (simulated secondary) (simulated secondary))
        λ is_simulated.
          Keeps-if (simulated secondary) is_simulated
            (Keeps-update (simulation secondary) (switched_off secondary)
              (simulation-put secondary off none none))
            (Keeps-bind (simulated secondary) (some_or no_transport pair) _
              (Keeps-some_or (simulated secondary) no_transport pair)
              λ device.
                Keeps-bind (simulated secondary)
                  (in_world (on_pair (device.force_output_off_role (role secondary))))
                  (record_off x secondary)
                  (Keeps-in_world (simulation secondary)
                    (on_pair (device.force_output_off_role (role secondary))))
                  record_off-Keeps)
