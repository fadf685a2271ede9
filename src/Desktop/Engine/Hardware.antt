-- ===== src/Desktop/Engine/Hardware.antt =====
-- The pair of crates/iv-transport/src/lib.rs as the one that the engine uses, and what the safety of
-- the outputs comes to with it.
use kohdalab_iv.Common.{
  ◌≡◌, subst, ◌⊎◌, inl, inr, Bool, true, false, Option, none, some, Result, ok, err, arith,
}
use kohdalab_iv.Common.Text.{Text}
use kohdalab_iv.Common.Float.{Float}
use kohdalab_iv.Transport.Instruments.{Role, gate}
use kohdalab_iv.Transport.Replies.{trim}
use kohdalab_iv.Transport.Pair.{Pair, Sessions, slot, is_connected}
use kohdalab_iv.Transport.Pair.Endpoints.{write, query_role}
use kohdalab_iv.Transport.Pair.Shutdown.{
  OutputOffReport, force_output_off_role, force_sources_output_off,
}
use kohdalab_iv.Transport.Pair.Confirmed.{SwitchedOff, Confirms, force_output_off_role-Confirms}
use kohdalab_iv.Desktop.States.{unknown, off, is_empty}
use kohdalab_iv.Desktop.Engine.{EngineFault, Bench, DevicePair, Planned, Setup}
use kohdalab_iv.Desktop.Engine.Evidence.{ForcedOff}
use kohdalab_iv.Desktop.Engine.Gate.Setting.{set_voltage}
use kohdalab_iv.Desktop.Engine.Gate.Settled.{Settled, set_voltage-Settled}

module _ {F W L : Type 0} (n : Float F) (in_bounds : Text → Bool) (s : Sessions W L) where
  abbrev pub hardware : DevicePair (Pair W)
  hardware = record {
    write = write s n in_bounds;
    query = query_role s n in_bounds;
    force_output_off_role = force_output_off_role s;
    force_sources_output_off = force_sources_output_off s;
    is_connected = is_connected;
    identity = λ role p. (slot role p).identity;
    model = λ role p. (slot role p).model;
  }

  -- The command to switch off was sent to the role, and its very next reply told that it is off.
  ForcedOff-SwitchedOff :
      (role : Role) (p : Pair W)
      → ForcedOff hardware role p
      → (report : OutputOffReport) × SwitchedOff s role p report
  ForcedOff-SwitchedOff role p forced = (
    forced.report,
    subst (Confirms s role) forced.forced (force_output_off_role-Confirms s role forced.before),
  )

  -- What the snapshot says after an error is unknown, or off and shown by the pair.
  abbrev pub IsOffOrUnknown : Bench F (Pair W) → Type 0
  IsOffOrUnknown b =
      (b.state.gate_output ≡ unknown)
      ⊎ ((b.state.gate_output ≡ off)
          × ((report : OutputOffReport) × SwitchedOff s gate b.world report))

  Settled-SwitchedOff :
      (x : Setup F (Pair W)) (plan : Result (Planned F) EngineFault) (voltage : F)
      (z : Bench F (Pair W) × Result (Unit {0}) EngineFault) (fault : EngineFault)
      → Settled x hardware plan voltage z
      → z.1 ≡ err fault
      → IsOffOrUnknown z.0
  Settled-SwitchedOff x plan voltage (b, ok u) fault settled q = absurd (ground arith)
  Settled-SwitchedOff x plan voltage (b, err e) fault settled q = elim settled.closed [
    | inl is_unknown ↦ inl is_unknown
    | inr (is_off, forced) ↦ inr (is_off, ForcedOff-SwitchedOff gate b.world forced)
  ]

  -- With the pair of the program: if setting the voltage of a gate fails that is connected, not
  -- simulated, without an error before and with a known identity, then the snapshot says that its
  -- output is unknown, or that it is off, and then the gate was sent the command to switch off
  -- and its very next reply told that its output is off.
  pub set_voltage-SwitchedOff :
      (x : Setup F (Pair W)) (voltage compliance ramp_step : F) (requested : Option F)
      (b : Bench F (Pair W)) (fault : EngineFault)
      → b.state.gate_connected ≡ true
      → b.state.error ≡ none
      → b.state.gate_simulation ≡ false
      → is_connected gate b.world ≡ true
      → is_empty (trim (slot gate b.world).identity) ≡ false
      → (set_voltage x voltage compliance ramp_step requested (some hardware) b).1 ≡ err fault
      → IsOffOrUnknown (set_voltage x voltage compliance ramp_step requested (some hardware) b).0
  set_voltage-SwitchedOff x voltage compliance ramp_step requested b fault connected faultless real
        attached named failed =
      Settled-SwitchedOff x _ voltage
        (set_voltage x voltage compliance ramp_step requested (some hardware) b) fault
        (set_voltage-Settled x hardware voltage compliance ramp_step requested b connected faultless
          real attached named)
        failed
