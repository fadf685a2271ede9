-- ===== src/Examples/RampExamples.antt =====
-- Tests of the ramp of crates/iv-desktop/src/engine/workflow.rs.
use kohdalab_iv.Common.{ℕ, ◌+◌, ◌-◌, Bool, true, ok, err, ltb, leb, ◌==◌, if◌then◌else◌}
use kohdalab_iv.Common.Exec.{Exec}
use kohdalab_iv.Common.Float.{Float}
use kohdalab_iv.Desktop.Engine.{EngineFault, not_off}
use kohdalab_iv.Desktop.Engine.Ramp.Finished.{Finished}
use kohdalab_iv.Examples.EngineExamples.{whole}

-- Whole numbers from -1000 to 1000, each as its distance from -1000; the product is the one with the
-- sign of a number.
abbrev signed : Float ℕ
signed = record whole {
  literal = λ s. 1000;
  add = λ a b. (a + b) - 1000;
  sub = λ a b. (a + 1000) - b;
  mul = λ a b. if a == 1001 then b else (if a == 999 then 2000 - b else 1000);
  abs = λ a. if leb 1000 a then a else 2000 - a;
  signum = λ a. if ltb a 1000 then 999 else (if ltb 1000 a then 1001 else 1000);
}

-- A way from 5 down to -3 in steps of 2, in which the third step fails.
abbrev third_fails : ℕ → Exec ℕ EngineFault Bool
third_fails level n = if n == 2 then (n, err not_off) else (n + 1, ok true)
