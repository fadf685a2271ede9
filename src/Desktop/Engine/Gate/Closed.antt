-- ===== src/Desktop/Engine/Gate/Closed.antt =====
-- The shutdown of the gate after an error, `fail_closed` of crates/iv-desktop/src/engine/gate.rs.
use kohdalab_iv.Common.{
  ◌≡◌, refl, sym, subst, ap, ◌⊎◌, inl, inr, Bool, true, false, Option, none, some, Result, ok, err,
  arith, Result-cases, Bool-cases, Option-cases,
}
use kohdalab_iv.Common.Exec.{fail, gets}
use kohdalab_iv.Common.Runs.{Keeps, Keeps-bind, Keeps-fail, Keeps-gets, Keeps-if}
use kohdalab_iv.Transport.Instruments.{gate}
use kohdalab_iv.Transport.Pair.Shutdown.{OutputOffReport}
use kohdalab_iv.Desktop.States.{unknown, off}
use kohdalab_iv.Desktop.Engine.{
  EngineFault, no_transport, not_off, on_pair, off_failed, Snapshot, Bench, DevicePair, Setup,
  in_world, update, some_or, warn,
}
use kohdalab_iv.Desktop.Engine.Evidence.{ForcedOff, Keeps-in_world, Keeps-some_or, Keeps-update}
use kohdalab_iv.Desktop.Engine.Gate.{
  record_off, lost, after_off, force_off, fail_closed, switched_off,
}

-- The snapshot does not say that the gate is on: its output is unknown, or it is off and the last
-- thing done to the pair was the output-off of the gate, verified.
pub record IsClosed {F W : Type 0} (d : DevicePair W) (b : Bench F W) : Type 0 where
  pub forgotten : b.state.gate_dc_limits ≡ none
  pub closed :
      (b.state.gate_output ≡ unknown) ⊎ ((b.state.gate_output ≡ off) × ForcedOff d gate b.world)

abbrev pub simulated : {F W : Type 0} → Bench F W → Bool
simulated b = b.state.gate_simulation

module _ {F W : Type 0} (x : Setup F W) (d : DevicePair W) where
  warn-output :
      (report : OutputOffReport) (s : Snapshot F)
      → ((warn gate report s).gate_output ≡ s.gate_output)
        × ((warn gate report s).gate_dc_limits ≡ s.gate_dc_limits)
  warn-output report s = elim (Option-cases report.zeroing_warning) [
    | inl q ↦ ground arith
    | inr (w, q) ↦ ground arith
  ]

  -- What a forced output-off does where the pair reports.
  force_off-reported :
      (b : Bench F W) (report : OutputOffReport)
      → b.state.gate_simulation ≡ false
      → (d.force_output_off_role gate b.world).1 ≡ ok report
      → report.output_off_verified ≡ true
      → force_off x (some d) b ≡ (
        record {
          world = (d.force_output_off_role gate b.world).0;
          state = warn gate report (switched_off x b.state);
        },
        ok tt,
      )
  unfolding force_off record_off
  force_off-reported b report real q verified = ground arith

  -- A forced output-off that succeeds.
  force_off-IsClosed :
      (b : Bench F W) (u : Unit {0})
      → b.state.gate_simulation ≡ false
      → (force_off x (some d) b).1 ≡ ok u
      → IsClosed d (force_off x (some d) b).0
  unfolding force_off record_off
  force_off-IsClosed b u real h = elim (Result-cases (d.force_output_off_role gate b.world).1) [
    | inr (e, q) ↦ absurd (ground arith)
    | inl (report, q) ↦ elim (Bool-cases report.output_off_verified) [
      | inr unverified ↦ absurd (ground arith)
      | inl verified ↦
          let (output, limits) = warn-output report (switched_off x b.state) in
          subst (λ (z : Bench F W × Result (Unit {0}) EngineFault). IsClosed d z.0)
            (sym (force_off-reported b report real q verified))
            (record {
              forgotten = limits;
              closed = inr (
                output,
                record {
                  before = b.world;
                  report = report;
                  forced = ap (λ r. ((d.force_output_off_role gate b.world).0, r)) q;
                  verified = verified;
                },
              );
            })
    ]
  ]

  after_off-IsClosed :
      {A : Type 0} (fault : EngineFault) (z : Bench F W × Result (Unit {0}) EngineFault)
      → ((u : Unit {0}) → z.1 ≡ ok u → IsClosed d z.0)
      → (e : EngineFault) × ((after_off {A = A} fault z).1 ≡ err e)
        × IsClosed d (after_off {A = A} fault z).0
  after_off-IsClosed fault (b, ok u) h = (fault, refl, h u refl)
  after_off-IsClosed fault (b, err e) h =
      (off_failed fault e, refl, record { forgotten = refl; closed = inl refl })

  -- A gate that fails closed.
  pub fail_closed-IsClosed :
      {A : Type 0} (fault : EngineFault) (b : Bench F W)
      → b.state.gate_simulation ≡ false
      → (e : EngineFault) × ((fail_closed x {A = A} (some d) fault b).1 ≡ err e)
        × IsClosed d (fail_closed x {A = A} (some d) fault b).0
  unfolding fail_closed
  fail_closed-IsClosed fault b real =
      after_off-IsClosed fault (force_off x (some d) b) (λ u q. force_off-IsClosed b u real q)

  warn-simulated :
      (report : OutputOffReport) (s : Snapshot F)
      → (warn gate report s).gate_simulation ≡ s.gate_simulation
  warn-simulated report s = elim (Option-cases report.zeroing_warning) [
    | inl q ↦ ground arith
    | inr (w, q) ↦ ground arith
  ]

  record_off-Keeps : (report : OutputOffReport) → Keeps simulated (record_off x report)
  unfolding record_off
  record_off-Keeps report =
      Keeps-if simulated report.output_off_verified
        (Keeps-update (λ s. s.gate_simulation) (λ s. warn gate report (switched_off x s))
          (λ s. warn-simulated report (switched_off x s)))
        (Keeps-bind simulated (update lost) (λ _. fail not_off)
          (Keeps-update (λ s. s.gate_simulation) lost (λ s. refl))
          (λ u. Keeps-fail simulated not_off))

  pub force_off-Keeps : (pair : Option (DevicePair W)) → Keeps simulated (force_off x pair)
  unfolding force_off
  force_off-Keeps pair =
      Keeps-bind simulated (gets simulated) _ (Keeps-gets simulated simulated) λ simulation.
        Keeps-if simulated simulation
          (Keeps-update (λ s. s.gate_simulation) (switched_off x) (λ s. refl))
          (Keeps-bind simulated (some_or no_transport pair) _
            (Keeps-some_or simulated no_transport pair)
            λ device.
              Keeps-bind simulated (in_world (on_pair (device.force_output_off_role gate)))
                (record_off x)
                (Keeps-in_world (λ s. s.gate_simulation)
                  (on_pair (device.force_output_off_role gate)))
                record_off-Keeps)
