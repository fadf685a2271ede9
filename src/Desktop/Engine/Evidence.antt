-- ===== src/Desktop/Engine/Evidence.antt =====
-- What the exchanges with a source show, for crates/iv-desktop/src/engine/gate.rs and source_dc.rs:
-- the replies on which a confirmed output rests.
use kohdalab_iv.Common.{
  ◌≡◌, refl, ap, subst, Bool, ◌&&◌, true, false, not, Option, none, some, arith, Result, ok, err,
  ok_or,
}
use mathlib.Core.Path.{ap₂}
use kohdalab_iv.Common.Exec.{Exec, check, lift}
use kohdalab_iv.Common.Runs.{Ends, Keeps}
use kohdalab_iv.Common.Text.{Text, text_of}
use kohdalab_iv.Transport.Instruments.{Role}
use kohdalab_iv.Transport.Replies.{trim}
use kohdalab_iv.Transport.Fault.{Fault}
use kohdalab_iv.Transport.Pair.Shutdown.{OutputOffReport}
use kohdalab_iv.Desktop.States.{OutputState, unknown, off, on}
use kohdalab_iv.Desktop.Safety.{
  SourceProtectionProfile, SourceCondition, output_state, source_condition, stopped,
}
use kohdalab_iv.Desktop.Engine.{
  EngineFault, as_engine_fault, Snapshot, Bench, DevicePair, Setup, on_pair, or_fault, is_on,
  in_world, some_or, update,
}
use kohdalab_iv.Desktop.Engine.Exchange.{is_clear, is_near}

as_engine_fault-ok : {A : Type 0} (r : Result A Fault) (a : A) → as_engine_fault r ≡ ok a → r ≡ ok a
as_engine_fault-ok (ok b) a h = ground arith
as_engine_fault-ok (err e) a h = absurd (ground arith)

pub on_pair-ok :
    {W A : Type 0} (m : Exec W Fault A) (w w' : W) (a : A)
    → on_pair m w ≡ (w', ok a)
    → m w ≡ (w', ok a)
on_pair-ok m w w' a h =
    ap₂ (λ v r. (v, r)) (ap (λ z. z.0) h) (as_engine_fault-ok (m w).1 a (ap (λ z. z.1) h))

pub or_fault-ok :
    {A : Type 0} (fault : EngineFault) (r : Result A (Unit {0})) (a : A)
    → or_fault fault r ≡ ok a
    → r ≡ ok a
or_fault-ok fault (ok b) a h = ground arith
or_fault-ok fault (err _) a h = absurd (ground arith)

pub ok_or-ok : {A E : Type 0} (e : E) (o : Option A) (a : A) → ok_or e o ≡ ok a → o ≡ some a
ok_or-ok e none a h = absurd (ground arith)
ok_or-ok e (some b) a h = ground arith

pub is_on_sound : (output : OutputState) → is_on output ≡ true → output ≡ on
is_on_sound unknown h = absurd (ground arith)
is_on_sound off h = absurd (ground arith)
is_on_sound on h = refl

pub not_sound : (test : Bool) → not test ≡ true → test ≡ false
not_sound true h = absurd (ground arith)
not_sound false h = refl

module _ {W : Type 0} (d : DevicePair W) (role : Role) where
  -- The last thing that was done to the pair is a forced output-off that was verified.
  pub record ForcedOff (after : W) : Type 0 where
    pub before : W
    pub report : OutputOffReport
    pub forced : d.force_output_off_role role before ≡ (after, ok report)
    pub verified : report.output_off_verified ≡ true

  -- A query, from one world to the next.
  abbrev pub Answers : Text → Text → W → W → Type 0
  Answers command reply w w' = d.query role command w ≡ (w', ok reply)

  pub record TellsOn (w w' : W) : Type 0 where
    pub reply : Text
    pub answered : Answers (text_of ":OUTP?") reply w w'
    pub told : output_state reply ≡ ok on

  pub record TellsNoError (w w' : W) : Type 0 where
    pub reply : Text
    pub answered : Answers (text_of "SYST:ERR?") reply w w'
    pub told : is_clear reply ≡ true

module _ {F W : Type 0} (x : Setup F W) (d : DevicePair W) (role : Role) where
  pub record TellsNear (expected resolution : F) (w w' : W) : Type 0 where
    pub reply : Text
    pub actual : F
    pub answered : Answers d role (text_of ":SOUR:LEV?") reply w w'
    pub read : x.numbers.parse (trim reply) ≡ some actual
    pub is_near : x.numbers.is_finite actual && is_near x actual expected resolution ≡ true

  -- The condition register, if the source has one.
  pub record TellsNoLimit (profile : Text × SourceProtectionProfile) (w w' : W) : Type 0 where
    pub reply : Text
    pub condition : SourceCondition
    pub answered : Answers d role profile.0 reply w w'
    pub read : source_condition reply profile.1 ≡ ok condition
    pub told : stopped condition ≡ false

  abbrev pub NoLimit : Option (Text × SourceProtectionProfile) → W → W → Type 0
  NoLimit none w w' = w ≡ w'
  NoLimit (some profile) w w' = TellsNoLimit profile w w'

  -- The last four answers of the source: its level is near the one that was asked for, its output
  -- is on, its error queue is empty, and no limiter is active.
  pub record Confirmed (expected resolution : F) (after : W) : Type 0 where
    pub before : W
    pub with_level : W
    pub with_output : W
    pub with_queue : W
    pub profile : Option (Text × SourceProtectionProfile)
    pub near : TellsNear expected resolution before with_level
    pub is_on : TellsOn d role with_level with_output
    pub clear : TellsNoError d role with_output with_queue
    pub known : x.planner.source_protection_profile (d.model role with_queue) ≡ ok profile
    pub unlimited : NoLimit profile with_queue after

-- Actions of the world on the bench.
module _ {F W : Type 0} where
  pub Ends-in_world :
      {A : Type 0} {P : Bench F W → A → Type 0} (m : Exec W EngineFault A) (b : Bench F W)
      → Ends (λ w a. P (record b { world = w }) a) m b.world
      → Ends P (in_world m) b
  Ends-in_world {A} {P} m b h = record {
    ended = λ b' a q.
        subst (λ (v : Bench F W). P v a) (ap (λ z. z.0) q)
          (h.ended (m b.world).0 a (ap (λ r. ((m b.world).0, r)) (ap (λ z. z.1) q)));
  }

  pub Keeps-in_world :
      {A X : Type 0} (f : Snapshot F → X) (m : Exec W EngineFault A)
      → Keeps (λ (b : Bench F W). f b.state) (in_world m)
  Keeps-in_world f m = record { kept = λ b. refl }

  pub Keeps-lift : {A X : Type 0} (f : Bench F W → X) (r : Result A EngineFault) → Keeps f (lift r)
  Keeps-lift f r = record { kept = λ b. refl }

  pub Keeps-some_or :
      {A X : Type 0} (f : Bench F W → X) (fault : EngineFault) (o : Option A)
      → Keeps f (some_or fault o)
  Keeps-some_or f fault none = record { kept = λ b. refl }
  Keeps-some_or f fault (some a) = record { kept = λ b. refl }

  pub Keeps-check :
      {X : Type 0} (f : Bench F W → X) (test : Bool) (fault : EngineFault)
      → Keeps f (check test fault)
  Keeps-check f true fault = record { kept = λ b. refl }
  Keeps-check f false fault = record { kept = λ b. refl }

  pub Keeps-update :
      {X : Type 0} (f : Snapshot F → X) (g : Snapshot F → Snapshot F)
      → ((s : Snapshot F) → f (g s) ≡ f s)
      → Keeps (λ (b : Bench F W). f b.state) (update g)
  Keeps-update f g h = record { kept = λ b. h b.state }
