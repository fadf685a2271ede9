-- ===== src/Desktop/Engine/Ramp.antt =====
-- The ramp of a source level, `ramp` of crates/iv-desktop/src/engine/workflow.rs. The level is part
-- of the state, and `fuel` bounds the steps.
pub mod Finished
pub mod Distance
use kohdalab_iv.Common.Exec.{Exec}
use kohdalab_iv.Common.{ℕ, zero, suc, Bool, true, false, not, Result, ok, err, if◌then◌else◌}
use kohdalab_iv.Common.Float.{Float}
use kohdalab_iv.Desktop.Engine.{EngineFault, endless}

pub data RampPolicy : Type 0 where
  approach_target return_to_zero : RampPolicy

module _ {F : Type 0} (x : Float F) where
  -- The test of the loop.
  unfoldable pub is_away : RampPolicy → F → F → F → Bool
  is_away approach_target target step level = x.lt step (x.abs (x.sub level target))
  is_away return_to_zero target step level = not (x.eq level (x.literal "0.0"))

  unfoldable pub next_level : RampPolicy → F → F → F → F
  next_level approach_target target step level =
      x.add level (x.mul (x.signum (x.sub target level)) step)
  next_level return_to_zero target step level =
      if x.le (x.abs level) step then x.literal "0.0" else x.sub level (x.mul (x.signum level) step)

  -- The rest of the loop after one step.
  abbrev pub after_step :
      {S : Type 0}
      → (S × F → (S × F) × Result Bool EngineFault)
      → (S × Result Bool EngineFault)
      → F
      → (S × F) × Result Bool EngineFault
  after_step continue (s, err e) level = ((s, level), err e)
  after_step continue (s, ok false) level = ((s, level), ok false)
  after_step continue (s, ok true) level = continue (s, level)

  unfoldable pub ramp :
      {S : Type 0}
      → ℕ
      → RampPolicy
      → F
      → F
      → (S → S × Bool)
      → (F → Exec S EngineFault Bool)
      → Exec (S × F) EngineFault Bool
  unfolding is_away next_level
  ramp zero policy target step stop apply (s, level) =
      ((s, level), if is_away policy target step level then err endless else ok true)
  ramp (suc fuel) policy target step stop apply (s, level) =
      let (s', halted) = stop s in
      let next = next_level policy target step level in
      let rest = after_step (ramp fuel policy target step stop apply) (apply next s') next in
      if is_away policy target step level
      then (if halted then ((s', level), ok false) else rest)
      else ((s, level), ok true)
