-- ===== src/Desktop/Engine/SourceDc/Checked.antt =====
-- The poll of a fixed output, `check` of crates/iv-desktop/src/engine/source_dc.rs.
use kohdalab_iv.Common.{
  ◌≡◌, refl, sym, ap, subst, ◌⊎◌, inl, inr, true, false, some, Result, ok, err, arith, Bool,
  Result-cases,
}
use kohdalab_iv.Common.Runs.{Ends, Ends-bind}
use kohdalab_iv.Desktop.States.{OutputState, unknown, off, on}
use kohdalab_iv.Desktop.Engine.{EngineFault, went_off, Bench, DevicePair, Setup}
use kohdalab_iv.Desktop.Engine.Evidence.{TellsOn, TellsNoError}
use kohdalab_iv.Desktop.Engine.Exchange.{read_output}
use kohdalab_iv.Desktop.Engine.Exchange.Confirmed.{
  read_output-TellsOn, verify_error_queue_clear-TellsNoError, Unlimited, check_limiter-Unlimited,
}
use kohdalab_iv.Desktop.Engine.SourceDc.{
  role, connected, simulation, output, verify_error_queue_clear, or_close, health, fail_closed,
  check_health, check_state, check_source,
}
use kohdalab_iv.Desktop.Engine.SourceDc.Closed.{IsClosed, fail_closed-IsClosed}

module _ {F W : Type 0} (x : Setup F W) (d : DevicePair W) (secondary : Bool) where
  -- The answers to a poll that finds nothing wrong.
  pub record IsHealthy (before after : W) : Type 0 where
    pub with_output : W
    pub with_queue : W
    pub is_on : TellsOn d (role secondary) before with_output
    pub clear : TellsNoError d (role secondary) with_output with_queue
    pub unlimited : Unlimited x d (role secondary) with_queue after

  -- The ways in which a poll of the bench `b` may end.
  abbrev pub Polled : Bench F W → Bench F W × Result (Unit {0}) EngineFault → Type 0
  Polled b (b', ok _) = (b'.state ≡ b.state) × IsHealthy b.world b'.world
  Polled b (b', err fault) =
      IsClosed d secondary b'
      ⊎ ((read_output x d (role secondary) b.world ≡ (b'.world, err fault)) × (b'.state ≡ b.state))

  Polled-closed :
      (b : Bench F W) (z : Bench F W × Result (Unit {0}) EngineFault)
      → (e : EngineFault) × (z.1 ≡ err e) × IsClosed d secondary z.0
      → Polled b z
  Polled-closed b (b', ok u) (e, q, closed) = absurd (ground arith)
  Polled-closed b (b', err e') (e, q, closed) = inl closed

  or_close-Polled :
      (b : Bench F W) (z : Bench F W × Result (Unit {0}) EngineFault)
      → simulation secondary z.0.state ≡ false
      → (z.1 ≡ ok tt → Polled b (z.0, ok tt))
      → Polled b (or_close x secondary d z)
  or_close-Polled b (b', ok u) real h = h refl
  or_close-Polled b (b', err fault) real h =
      Polled-closed b (fail_closed x secondary (some d) fault b')
        (fail_closed-IsClosed x d secondary fault b' real)

  health-IsHealthy :
      (before w : W)
      → TellsOn d (role secondary) before w
      → Ends (λ w' _. IsHealthy before w') (health x secondary d) w
  health-IsHealthy before w told =
      Ends-bind (verify_error_queue_clear x d secondary) _ w λ w₁ _ clear. record {
        ended = λ w₂ u unlimited. record {
          with_output = w;
          with_queue = w₁;
          is_on = told;
          clear = (verify_error_queue_clear-TellsNoError x d (role secondary) w).ended w₁ tt clear;
          unlimited = (check_limiter-Unlimited x d (role secondary) w₁).ended w₂ tt unlimited;
        };
      }

  check_health-Polled :
      (b : Bench F W) (w : W)
      → simulation secondary b.state ≡ false
      → TellsOn d (role secondary) b.world w
      → Polled b (check_health x secondary d (record b { world = w }))
  unfolding check_health
  check_health-Polled b w real told =
      let run = health x secondary d w in
      or_close-Polled b (record b { world = run.0 }, run.1) real
        λ good. (refl, (health-IsHealthy b.world w told).ended run.0 tt (ap (λ r. (run.0, r)) good))

  check_state-Polled :
      (b : Bench F W) (w : W) (state : OutputState)
      → simulation secondary b.state ≡ false
      → read_output x d (role secondary) b.world ≡ (w, ok state)
      → Polled b (check_state x secondary d state (record b { world = w }))
  unfolding check_state
  check_state-Polled b w on real asked =
      check_health-Polled b w real (read_output-TellsOn x d (role secondary) b.world w asked)
  check_state-Polled b w off real asked =
      Polled-closed b _ (fail_closed-IsClosed x d secondary went_off (record b { world = w }) real)
  check_state-Polled b w unknown real asked =
      Polled-closed b _ (fail_closed-IsClosed x d secondary went_off (record b { world = w }) real)

  -- A poll of a source that is connected, not simulated, and on according to the snapshot. If it
  -- succeeds, it leaves the snapshot as it was, and the source has told that its output is on, that
  -- its error queue is empty and, if it has a condition register, that no limiter is active. If it fails, the output fails closed: the
  -- snapshot has no level and no range of it and says that it is unknown, or that it is off, and then
  -- the last thing done to the pair was an output-off of this source that was verified; except where
  -- the query of the output is not answered, or not with a state: then the snapshot is as it was, and
  -- nothing but this query was sent.
  pub check_source-Polled :
      (b : Bench F W)
      → connected secondary b.state ≡ true
      → simulation secondary b.state ≡ false
      → output secondary b.state ≡ on
      → Polled b (check_source x secondary (some d) b)
  unfolding check_source
  check_source-Polled b attached real enabled =
      let asked = read_output x d (role secondary) b.world in
      elim (Result-cases asked.1) [
        | inr (fault, q) ↦
            let run : check_source x secondary (some d) b
                ≡ (record b { world = asked.0 }, err fault) =
              ground arith in
            subst (Polled b) (sym run) (inr (ap (λ r. (asked.0, r)) q, refl))
        | inl (state, q) ↦
            let run : check_source x secondary (some d) b
                ≡ check_state x secondary d state (record b { world = asked.0 }) =
              ground arith in
            subst (Polled b) (sym run)
              (check_state-Polled b asked.0 state real (ap (λ r. (asked.0, r)) q))
      ]
