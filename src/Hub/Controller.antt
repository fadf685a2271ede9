-- ===== src/Hub/Controller.antt =====
-- The trait `Controller` of crates/instrument-hub/src/core.rs, over the state `B` of a backend: each
-- call returns the backend's next state and its result. An error is its text.
use kohdalab_iv.Common.{ℕ, String, List, Result}
use kohdalab_iv.Common.Text.{Text}

pub record Controller (B : Type 0) : Type 0 where
  pub prepare : B → B × Result (Unit {0}) String
  -- The operation, the address, the time limit in nanoseconds, and the payload.
  pub transfer : B → String → ℕ → ℕ → List ℕ → B × Result Text String
  pub verify_source : B → ℕ → String → B × Result (Unit {0}) String
  pub source_off : B → ℕ → String → B × Result (Unit {0}) String
