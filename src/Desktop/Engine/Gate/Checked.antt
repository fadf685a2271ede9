-- ===== src/Desktop/Engine/Gate/Checked.antt =====
-- The poll of the gate, `check` of crates/iv-desktop/src/engine/gate.rs.
use kohdalab_iv.Common.{
  ◌≡◌, refl, sym, ap, subst, ◌⊎◌, inl, inr, true, false, some, Result, ok, err, arith, Result-cases,
}
use kohdalab_iv.Common.Exec.{pure}
use kohdalab_iv.Transport.Instruments.{gate}
use kohdalab_iv.Desktop.States.{OutputState, unknown, off, on}
use kohdalab_iv.Desktop.Engine.{EngineFault, went_off, Bench, DevicePair, Setup, M, in_world}
use kohdalab_iv.Desktop.Engine.Evidence.{TellsOn, TellsNoError}
use kohdalab_iv.Desktop.Engine.Exchange.{read_output, check_limiter, verify_error_queue_clear}
use kohdalab_iv.Desktop.Engine.Exchange.Confirmed.{
  Unlimited, check_limiter-Unlimited, verify_error_queue_clear-TellsNoError, read_output-TellsOn,
}
use kohdalab_iv.Desktop.Engine.Gate.{or_close, fail_closed, check_health, check_state, check_gate}
use kohdalab_iv.Desktop.Engine.Gate.Closed.{IsClosed, fail_closed-IsClosed}

module _ {F W : Type 0} (x : Setup F W) (d : DevicePair W) where
  -- The answers to a poll that finds nothing wrong.
  pub record IsHealthy (before after : W) : Type 0 where
    pub with_output : W
    pub with_queue : W
    pub is_on : TellsOn d gate before with_output
    pub clear : TellsNoError d gate with_output with_queue
    pub unlimited : Unlimited x d gate with_queue after

  -- The ways in which a poll of the bench `b` may end.
  abbrev pub Polled : Bench F W → Bench F W × Result (Unit {0}) EngineFault → Type 0
  Polled b (b', ok _) = (b'.state ≡ b.state) × IsHealthy b.world b'.world
  Polled b (b', err fault) =
      IsClosed d b'
      ⊎ ((read_output x d gate b.world ≡ (b'.world, err fault)) × (b'.state ≡ b.state))

  Polled-closed :
      (b : Bench F W) (z : Bench F W × Result (Unit {0}) EngineFault)
      → (e : EngineFault) × (z.1 ≡ err e) × IsClosed d z.0
      → Polled b z
  Polled-closed b (b', ok u) (e, q, closed) = absurd (ground arith)
  Polled-closed b (b', err e') (e, q, closed) = inl closed

  or_close-Polled :
      (b : Bench F W) (next : M F W (Unit {0})) (z : Bench F W × Result (Unit {0}) EngineFault)
      → z.0.state.gate_simulation ≡ false
      → (z.1 ≡ ok tt → Polled b (next z.0))
      → Polled b (or_close x d next z)
  or_close-Polled b next (b', ok u) real h = h refl
  or_close-Polled b next (b', err fault) real h =
      Polled-closed b (fail_closed x (some d) fault b') (fail_closed-IsClosed x d fault b' real)

  check_health-Polled :
      (b : Bench F W) (w : W)
      → b.state.gate_simulation ≡ false
      → TellsOn d gate b.world w
      → Polled b (check_health x d (record b { world = w }))
  unfolding check_health
  check_health-Polled b w real told =
      let queue = verify_error_queue_clear x d gate w in
      let limiter = check_limiter x d gate queue.0 in
      or_close-Polled b (λ b'. or_close x d (pure tt) (in_world (check_limiter x d gate) b'))
        (record b { world = queue.0 }, queue.1) real
        λ clear.
          or_close-Polled b (pure tt) (record b { world = limiter.0 }, limiter.1) real
            λ unlimited. (
              refl,
              record {
                with_output = w;
                with_queue = queue.0;
                is_on = told;
                clear =
                    (verify_error_queue_clear-TellsNoError x d gate w).ended queue.0 tt
                      (ap (λ r. (queue.0, r)) clear);
                unlimited =
                    (check_limiter-Unlimited x d gate queue.0).ended limiter.0 tt
                      (ap (λ r. (limiter.0, r)) unlimited);
              },
            )

  check_state-Polled :
      (b : Bench F W) (w : W) (output : OutputState)
      → b.state.gate_simulation ≡ false
      → read_output x d gate b.world ≡ (w, ok output)
      → Polled b (check_state x d output (record b { world = w }))
  unfolding check_state
  check_state-Polled b w on real asked =
      check_health-Polled b w real (read_output-TellsOn x d gate b.world w asked)
  check_state-Polled b w off real asked =
      Polled-closed b _ (fail_closed-IsClosed x d went_off (record b { world = w }) real)
  check_state-Polled b w unknown real asked =
      Polled-closed b _ (fail_closed-IsClosed x d went_off (record b { world = w }) real)

  -- A poll of a gate that is connected, not simulated, and on according to the snapshot. If it
  -- succeeds, it leaves the snapshot as it was, and the gate has told that its output is on, that
  -- its error queue is empty and, if it has a condition register, that no limiter is active. If
  -- it fails, the gate fails closed: the snapshot says that the output is unknown, or that it is
  -- off, and then the last thing done to the pair was an output-off of the gate that was
  -- verified; except where the query of the output is not answered, or not with a state: then the
  -- snapshot still says that the gate is on, and nothing but this query was sent.
  pub check_gate-Polled :
      (b : Bench F W)
      → b.state.gate_connected ≡ true
      → b.state.gate_simulation ≡ false
      → b.state.gate_output ≡ on
      → Polled b (check_gate x (some d) b)
  unfolding check_gate
  check_gate-Polled b connected real enabled =
      let asked = read_output x d gate b.world in
      elim (Result-cases asked.1) [
        | inr (fault, q) ↦
            let run : check_gate x (some d) b ≡ (record b { world = asked.0 }, err fault) =
              ground arith in
            subst (Polled b) (sym run) (inr (ap (λ r. (asked.0, r)) q, refl))
        | inl (output, q) ↦
            let run : check_gate x (some d) b
                ≡ check_state x d output (record b { world = asked.0 }) =
              ground arith in
            subst (Polled b) (sym run)
              (check_state-Polled b asked.0 output real (ap (λ r. (asked.0, r)) q))
      ]
