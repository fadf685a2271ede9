-- ===== src/Desktop/Engine/SourceDc.antt =====
-- The fixed outputs of the two ordinary sources, crates/iv-desktop/src/engine/source_dc.rs. The
-- small checks that gate.rs has in the same words are those of Gate/Limits.
pub mod Planning
pub mod Setting
pub mod Closed
pub mod Kept
pub mod Settled
pub mod Steps
pub mod Checked
use kohdalab_iv.Common.Exec.{Exec, ◌>>=◌, ◌>>◌, pure, fail, gets, check}
use kohdalab_iv.Common.{
  Bool, true, false, not, ◌||◌, Option, none, some, Result, ok, err, if◌then◌else◌,
}
use kohdalab_iv.Transport.Instruments.{Role, source, source2}
use kohdalab_iv.Transport.Pair.Shutdown.{OutputOffReport}
use kohdalab_iv.Desktop.States.{OutputState, unknown, off}
use kohdalab_iv.Desktop.Safety.{Mode}
use kohdalab_iv.Desktop.Engine.{
  EngineFault, not_connected, no_transport, went_off, not_off, off_failed, DcLimits, DcOutputState,
  Snapshot, Bench, DevicePair, Planned, Setup, M, in_world, update, on_pair, some_or, is_on, warn,
}
use kohdalab_iv.Desktop.Engine.Exchange

unfoldable pub role : Bool → Role
role true = source2
role false = source

module _ {F : Type 0} where
  unfoldable pub connected : Bool → Snapshot F → Bool
  connected true s = s.source2_connected
  connected false s = s.source_connected

  unfoldable pub simulation : Bool → Snapshot F → Bool
  simulation true s = s.source2_simulation
  simulation false s = s.source_simulation

  unfoldable pub output : Bool → Snapshot F → OutputState
  output true s = s.source2_output
  output false s = s.output

  unfoldable pub set_output : Bool → OutputState → Snapshot F → Snapshot F
  set_output true value s = record s { source2_output = value }
  set_output false value s = record s { output = value }

  unfoldable pub dc : Bool → Snapshot F → Option (DcOutputState F)
  dc true s = s.source2_dc
  dc false s = s.source_dc

  unfoldable pub set_dc : Bool → Option (DcOutputState F) → Snapshot F → Snapshot F
  set_dc true value s = record s { source2_dc = value }
  set_dc false value s = record s { source_dc = value }

  unfoldable pub limits : Bool → Snapshot F → Option (DcLimits F)
  limits true s = s.source2_dc_limits
  limits false s = s.source_dc_limits

  unfoldable pub set_limits : Bool → Option (DcLimits F) → Snapshot F → Snapshot F
  set_limits true value s = record s { source2_dc_limits = value }
  set_limits false value s = record s { source_dc_limits = value }

  -- The three fields of one source together.
  unfoldable pub put :
      Bool → OutputState → Option (DcOutputState F) → Option (DcLimits F) → Snapshot F → Snapshot F
  unfolding set_output set_dc set_limits
  put secondary o v l s = set_limits secondary l (set_dc secondary v (set_output secondary o s))

  unfoldable pub switched_off : Bool → Snapshot F → Snapshot F
  unfolding put
  switched_off secondary s = put secondary off none none s

  unfoldable pub lost : Bool → Snapshot F → Snapshot F
  unfolding put
  lost secondary s = put secondary unknown none none s

-- The error of an operation after the output-off that followed it.
abbrev pub after_off :
    {F W A : Type 0}
    → Bool
    → EngineFault
    → Bench F W × Result (Unit {0}) EngineFault
    → Bench F W × Result A EngineFault
after_off secondary fault (b, ok _) = (b, err fault)
after_off secondary fault (b, err off_fault) =
    (record b { state = lost secondary b.state }, err (off_failed fault off_fault))

module _ {F W : Type 0} (x : Setup F W) where
  module _ (d : DevicePair W) (secondary : Bool) where
    abbrev pub verify_held_settings : Mode → DcLimits F → F → Exec W EngineFault (Unit {0})
    verify_held_settings = Exchange.verify_held_settings x d (role secondary)

    abbrev pub verify_identity : Exec W EngineFault (Unit {0})
    verify_identity = Exchange.verify_identity x d (role secondary)

    abbrev pub check_limiter : Exec W EngineFault (Unit {0})
    check_limiter = Exchange.check_limiter x d (role secondary)

    abbrev pub verify_error_queue_clear : Exec W EngineFault (Unit {0})
    verify_error_queue_clear = Exchange.verify_error_queue_clear x d (role secondary)

    abbrev pub verify_settings : Mode → Planned F → Exec W EngineFault F
    verify_settings = Exchange.verify_existing_settings x d (role secondary)

    abbrev pub set_level : F → Exec W EngineFault (Unit {0})
    set_level = Exchange.set_level x d (role secondary)

  module _ (secondary : Bool) where
    unfoldable pub record_off : OutputOffReport → M F W (Unit {0})
    record_off report =
        if report.output_off_verified
        then update (λ s. warn (role secondary) report (switched_off secondary s))
        else (do update (lost secondary); fail not_off)

    unfoldable pub force_off : Option (DevicePair W) → M F W (Unit {0})
    unfolding record_off
    force_off pair = do
      simulated ← gets (λ b. simulation secondary b.state)
      (if simulated then update (switched_off secondary) else (do
        d ← some_or no_transport pair
        report ← in_world (on_pair (d.force_output_off_role (role secondary)))
        record_off report))

    unfoldable pub fail_closed : {A : Type 0} → Option (DevicePair W) → EngineFault → M F W A
    fail_closed pair fault b = after_off secondary fault (force_off pair b)

    unfoldable pub output_off : Option (DevicePair W) → M F W (Unit {0})
    output_off pair = do
      attached ← gets (λ b. connected secondary b.state)
      check attached not_connected
      force_off pair

    -- `if let Err(error) = .. { return fail_closed(..) }`.
    abbrev pub or_close :
        DevicePair W
        → Bench F W × Result (Unit {0}) EngineFault
        → Bench F W × Result (Unit {0}) EngineFault
    or_close d (b, ok _) = (b, ok tt)
    or_close d (b, err fault) = fail_closed (some d) fault b

    abbrev pub health : DevicePair W → Exec W EngineFault (Unit {0})
    health d = do verify_error_queue_clear d secondary; check_limiter d secondary

    unfoldable pub check_health : DevicePair W → M F W (Unit {0})
    check_health d b = or_close d (in_world (health d) b)

    unfoldable pub check_state : DevicePair W → OutputState → M F W (Unit {0})
    unfolding check_health
    check_state d state = if is_on state then check_health d else fail_closed (some d) went_off

    unfoldable pub check_source : Option (DevicePair W) → M F W (Unit {0})
    check_source pair b =
        if not (connected secondary b.state)
          || (simulation secondary b.state || not (is_on (output secondary b.state)))
        then (b, ok tt)
        else ((do
          d ← some_or no_transport pair
          state ← in_world (Exchange.read_output x d (role secondary))
          check_state d state)
            b)
