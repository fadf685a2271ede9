-- ===== src/Desktop/Engine/Ramp/Finished.antt =====
-- How a ramp of crates/iv-desktop/src/engine/workflow.rs ends.
use kohdalab_iv.Common.{
  ℕ, zero, suc, ◌≡◌, refl, ap, ◌⊎◌, inl, inr, Bool, true, false, Result, ok, err, Bool-cases,
}
use kohdalab_iv.Common.Exec.{Exec}
use kohdalab_iv.Common.Float.{Float}
use kohdalab_iv.Desktop.Engine.{EngineFault}
use kohdalab_iv.Desktop.Engine.Ramp.{RampPolicy, is_away, next_level, after_step, ramp}

module _ {F S : Type 0} (x : Float F) (policy : RampPolicy) (target step : F) (stop : S → S × Bool)
    (apply : F → Exec S EngineFault Bool) where
  -- The ramp has arrived, somebody stopped it, or a step failed.
  abbrev pub Finished : (S × F) × Result Bool EngineFault → Type 0
  Finished ((s, level), ok true) = is_away x policy target step level ≡ false
  Finished ((s, level), ok false) =
      ((s' : S) × ((stop s').1 ≡ true)) ⊎ ((s' : S) × ((apply level s').1 ≡ ok false))
  Finished ((s, level), err fault) = (s' : S) × ((apply level s').1 ≡ err fault)

  after_step-Finished :
      (continue : S × F → (S × F) × Result Bool EngineFault) (s : S) (level : F)
      (z : S × Result Bool EngineFault)
      → apply level s ≡ z
      → ((s' : S) → Finished (continue (s', level)))
      → Finished (after_step x continue z level)
  after_step-Finished continue s level (s', ok true) q h = h s'
  after_step-Finished continue s level (s', ok false) q h = inr (s, ap (λ z. z.1) q)
  after_step-Finished continue s level (s', err e) q h = (s, ap (λ z. z.1) q)

  -- A ramp whose level is within as many steps of its end as the ramp may make is never cut short.
  pub ramp-Finished :
      (Within : ℕ → F → Type 0)
      → ((level : F) → Within zero level → is_away x policy target step level ≡ false)
      → ((n : ℕ) (level : F)
          → Within (suc n) level
          → is_away x policy target step level ≡ true
          → Within n (next_level x policy target step level))
      → (fuel : ℕ) (s : S) (level : F) → Within fuel level
      → Finished (ramp x fuel policy target step stop apply (s, level))
  unfolding ramp
  ramp-Finished Within arrived closer zero s level few = rw (arrived level few) (arrived level few)
  ramp-Finished Within arrived closer (suc fuel) s level few =
      elim (Bool-cases (is_away x policy target step level)) [
        | inr near ↦ rw near near
        | inl away ↦ elim (Bool-cases (stop s).1) [
          | inl halted ↦ rw (away, halted) (inl (s, halted))
          | inr runs ↦
              let next = next_level x policy target step level in
              rw (away, runs)
                (after_step-Finished (ramp x fuel policy target step stop apply) (stop s).0 next
                  (apply next (stop s).0) refl
                  (λ s'.
                    ramp-Finished Within arrived closer fuel s' next (closer fuel level few away)))
        ]
      ]
