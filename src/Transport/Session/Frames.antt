-- ===== src/Transport/Session/Frames.antt =====
-- The loop of `next_protocol_frame` in crates/iv-transport/src/lib.rs ends by itself.
use kohdalab_iv.Common.{
  ℕ, zero, suc, ◌+◌, ◌≤◌, ◌<◌, ◌≡◌, inl, inr, true, [], ◌∷◌, length, arith, Bool-cases,
  Result-cases,
}
use kohdalab_iv.Common.Text.{Text, strip_prefix}
use kohdalab_iv.Transport.Replies.{starts_with}
use kohdalab_iv.Transport.Session.{
  Helper, HelperSession, startup_limit, is_diagnostic, next_line, next_frame, next_protocol_frame,
}

is_diagnostic-length : (text : Text) → is_diagnostic text ≡ true → 1 ≤ length text
unfolding is_diagnostic starts_with strip_prefix
is_diagnostic-length [] d = absurd (ground arith)
is_diagnostic-length (c ∷ s) d = omega arith

module _ {W L : Type 0} (h : Helper W) where
  next_frame-eq :
      (fuel fuel' used deadline : ℕ) (s : HelperSession W L)
      → used ≤ startup_limit
      → startup_limit < used + fuel
      → startup_limit < used + fuel'
      → next_frame h fuel used deadline s ≡ next_frame h fuel' used deadline s
  unfolding next_frame
  next_frame-eq zero fuel' used deadline s le enough enough' = absurd (omega arith)
  next_frame-eq (suc fuel) zero used deadline s le enough enough' = absurd (omega arith)
  next_frame-eq (suc fuel) (suc fuel') used deadline s le enough enough' =
      elim (Result-cases (next_line h deadline s).1) [
        | inr (e, r) ↦ ground arith
        | inl (text, r) ↦ elim (Bool-cases (is_diagnostic text)) [
          | inr other ↦ ground arith
          | inl note ↦
              let longer = is_diagnostic-length text note in
              ground (
                arith,
                next_frame-eq fuel fuel' (used + length text) deadline (next_line h deadline s).0,
              )
        ]
      ]

  -- Whatever the helper prints, the loop ends before the fuel is used up: with any more fuel the
  -- result is the same.
  pub next_protocol_frame-eq :
      (fuel deadline : ℕ) (s : HelperSession W L)
      → startup_limit < fuel
      → next_frame h fuel 0 deadline s ≡ next_protocol_frame h deadline s
  unfolding next_protocol_frame
  next_protocol_frame-eq fuel deadline s more =
      next_frame-eq fuel (suc startup_limit) 0 deadline s (omega arith) (omega arith) (omega arith)
