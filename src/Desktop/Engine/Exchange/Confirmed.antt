-- ===== src/Desktop/Engine/Exchange/Confirmed.antt =====
-- What the checks of a source in crates/iv-desktop/src/engine/gate.rs and source_dc.rs have read
-- when they pass.
use kohdalab_iv.Common.{
  arith, Bool, ◌&&◌, true, ◌≡◌, refl, ap, ◌∙◌, none, some, ok, ok_or, not, Option,
}
use kohdalab_iv.Common.Exec.{◌>>=◌, ◌>>◌, lift}
use kohdalab_iv.Common.Runs.{
  Ends, Ends-bind, Ends-gets, Ends-lift, Ends-check, Ends-last, Ends-checked, Ends-pure,
}
use kohdalab_iv.Common.Text.{Text, text_of}
use kohdalab_iv.Transport.Instruments.{Role}
use kohdalab_iv.Transport.Replies.{trim}
use kohdalab_iv.Desktop.States.{on}
use kohdalab_iv.Desktop.Safety.{SourceProtectionProfile, output_state, source_condition, stopped}
use kohdalab_iv.Desktop.Engine.{
  EngineFault, bad_number, bad_state, bad_condition, bad_level, not_on, planner, limiter_reached,
  instrument_error, DevicePair, Setup, or_fault, is_on, on_pair,
}
use kohdalab_iv.Desktop.Engine.Exchange.{
  ask, is_clear, is_near, read_number, read_level, read_output, verify_on, verify_error_queue_clear,
  check_condition, check_limiter, verify_final_level,
}
use kohdalab_iv.Desktop.Engine.Evidence.{
  on_pair-ok, or_fault-ok, ok_or-ok, is_on_sound, not_sound, TellsOn, TellsNoError, NoLimit,
  Confirmed,
}

and_intro : {a b : Bool} → a ≡ true → b ≡ true → a && b ≡ true
and_intro h k = ground arith

module _ {F W : Type 0} (x : Setup F W) (d : DevicePair W) (role : Role) where
  read_output-told :
      (w : W) → Ends (λ w' output. output ≡ on → TellsOn d role w w') (read_output x d role) w
  unfolding read_output
  read_output-told w = Ends-bind (ask x d role ":OUTP?") _ w λ w' reply asked.
      Ends-last (or_fault bad_state (output_state reply)) w' λ output read is_it. record {
        reply = reply;
        answered = on_pair-ok (d.query role (text_of ":OUTP?")) w w' reply asked;
        told = or_fault-ok bad_state (output_state reply) output read ∙ ap ok is_it;
      }

  -- The output as the source tells it, if it is on.
  pub read_output-TellsOn : (w w' : W) → read_output x d role w ≡ (w', ok on) → TellsOn d role w w'
  read_output-TellsOn w w' h = (read_output-told w).ended w' on h refl

  verify_on-TellsOn :
      (fault : EngineFault) (w : W)
      → Ends (λ w' _. TellsOn d role w w') (verify_on x d role fault) w
  unfolding verify_on
  verify_on-TellsOn fault w = Ends-bind (read_output x d role) _ w λ w' output asked.
      Ends-checked (is_on output) fault w'
        λ told. (read_output-told w).ended w' output asked (is_on_sound output told)

  pub verify_error_queue_clear-TellsNoError :
      (w : W) → Ends (λ w' _. TellsNoError d role w w') (verify_error_queue_clear x d role) w
  unfolding verify_error_queue_clear
  verify_error_queue_clear-TellsNoError w =
      Ends-bind (ask x d role "SYST:ERR?") _ w λ w' reply asked.
        Ends-checked (is_clear reply) instrument_error w' λ told. record {
          reply = reply;
          answered = on_pair-ok (d.query role (text_of "SYST:ERR?")) w w' reply asked;
          told = told;
        }

  -- The number that a passed reading of the level gives.
  abbrev Reads : W → W → F → Type 0
  Reads w w' actual =
      (reply : Text) × (d.query role (text_of ":SOUR:LEV?") w ≡ (w', ok reply))
      × (x.numbers.parse (trim reply) ≡ some actual)

  read_number-Reads : (w : W) → Ends (Reads w) (read_number x d role) w
  unfolding read_number
  read_number-Reads w = Ends-bind (ask x d role ":SOUR:LEV?") _ w λ w' reply asked.
      Ends-last (ok_or bad_number (x.numbers.parse (trim reply))) w' λ actual read. (
        reply,
        on_pair-ok (d.query role (text_of ":SOUR:LEV?")) w w' reply asked,
        ok_or-ok bad_number (x.numbers.parse (trim reply)) actual read,
      )

  read_level-read :
      (w : W)
      → Ends
          (λ w' actual.
            (read_number x d role w ≡ (w', ok actual)) × (x.numbers.is_finite actual ≡ true))
          (read_level x d role)
          w
  unfolding read_level
  read_level-read w = Ends-bind (read_number x d role) _ w λ w' actual read.
      Ends-check (x.numbers.is_finite actual) bad_number _ w'
        λ finite. Ends-pure actual w' (read, finite)

  check_condition-NoLimit :
      (profile : Option (Text × SourceProtectionProfile)) (w : W)
      → Ends (λ w' _. NoLimit x d role profile w w') (check_condition x d role profile) w
  unfolding check_condition
  check_condition-NoLimit none w = Ends-pure tt w refl
  check_condition-NoLimit (some (query, masks)) w =
      Ends-bind (on_pair (d.query role query)) _ w λ w' reply asked.
        Ends-lift (or_fault bad_condition (source_condition reply masks)) _ w' λ condition read.
          Ends-checked (not (stopped condition)) limiter_reached w' λ told. record {
            reply = reply;
            condition = condition;
            answered = on_pair-ok (d.query role query) w w' reply asked;
            read = or_fault-ok bad_condition (source_condition reply masks) condition read;
            told = not_sound (stopped condition) told;
          }

  -- The condition of a source whose check has passed.
  abbrev pub Unlimited : W → W → Type 0
  Unlimited w w' =
      (profile : Option (Text × SourceProtectionProfile)) × (x.planner.source_protection_profile
          (d.model role w)
        ≡ ok profile)
      × NoLimit x d role profile w w'

  pub check_limiter-Unlimited : (w : W) → Ends (λ w' _. Unlimited w w') (check_limiter x d role) w
  unfolding check_limiter
  check_limiter-Unlimited w =
      let fault_free = or_fault planner (x.planner.source_protection_profile (d.model role w)) in
      Ends-gets (d.model role)
        (λ model.
          lift (or_fault planner (x.planner.source_protection_profile model))
          >>= check_condition x d role)
        w
        (Ends-lift fault_free (check_condition x d role) w λ profile known. record {
          ended = λ w' u h. (
            profile,
            or_fault-ok planner (x.planner.source_protection_profile (d.model role w)) profile
                known,
            (check_condition-NoLimit profile w).ended w' u h,
          );
        })

  -- The checks after a level was read that is near the one asked for.
  pub read_number-Confirmed :
      (expected resolution : F) (w w₁ : W) (actual : F)
      → read_number x d role w ≡ (w₁, ok actual)
      → x.numbers.is_finite actual && is_near x actual expected resolution ≡ true
      → Ends
          (λ w' _. Confirmed x d role expected resolution w')
          (do verify_on x d role not_on; verify_error_queue_clear x d role; check_limiter x d role)
          w₁
  read_number-Confirmed expected resolution w w₁ actual read near =
      Ends-bind (verify_on x d role not_on) _ w₁ λ w₂ _ is_on.
        Ends-bind (verify_error_queue_clear x d role) _ w₂ λ w₃ _ clear. record {
          ended = λ w₄ u h.
              let (reply, answered, parsed) = (read_number-Reads w).ended w₁ actual read in
              let (profile, known, unlimited) = (check_limiter-Unlimited w₃).ended w₄ u h in
              record {
                before = w;
                with_level = w₁;
                with_output = w₂;
                with_queue = w₃;
                profile = profile;
                near = record {
                  reply = reply;
                  actual = actual;
                  answered = answered;
                  read = parsed;
                  is_near = near;
                };
                is_on = (verify_on-TellsOn not_on w₁).ended w₂ tt is_on;
                clear = (verify_error_queue_clear-TellsNoError w₂).ended w₃ tt clear;
                known = known;
                unlimited = unlimited;
              };
        }

  -- A final check that passes has confirmed the level and the output.
  pub verify_final_level-Confirmed :
      (expected resolution : F) (w : W)
      → Ends
          (λ w' _. Confirmed x d role expected resolution w')
          (verify_final_level x d role expected resolution)
          w
  unfolding verify_final_level read_level
  verify_final_level-Confirmed expected resolution w =
      Ends-bind (read_level x d role) _ w λ w₁ actual asked.
        Ends-check (is_near x actual expected resolution) bad_level _ w₁ λ near.
          let (read, finite) = (read_level-read w).ended w₁ actual asked in
          read_number-Confirmed expected resolution w w₁ actual read (and_intro finite near)
