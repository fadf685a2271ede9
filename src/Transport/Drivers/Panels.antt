-- ===== src/Transport/Drivers/Panels.antt =====
-- The panel of a 7651 that `legacy_panel` of crates/iv-transport/src/drivers.rs reads in pieces.
use kohdalab_iv.Common.{
  ℕ, zero, suc, ◌+◌, ◌≤◌, ◌≡◌, inl, inr, true, List, [], ◌∷◌, ◌++◌, length, ltb, arith, ok,
  Bool-cases, Result-cases,
}
use kohdalab_iv.Common.Text.{Text, text_of, byte_length}
use kohdalab_iv.Transport.Drivers.{InstrumentIo, panel_rounds, legacy_panel, has_end}

-- The panel so far with further replies, each on a new line.
abbrev pub glue : Text → List Text → Text
glue panel [] = panel
glue panel (reply ∷ replies) = glue (panel ++ 10 ∷ reply) replies

module _ {S : Type 0} (io : InstrumentIo S) where
  panel_rounds-Complete :
      (rounds deadline : ℕ) (start : Text) (s : S) (panel : Text)
      → (panel_rounds io rounds deadline start s).1 ≡ ok panel
      → (has_end panel ≡ true)
        × (replies : List Text) × (suc (length replies) ≤ rounds)
        × (panel ≡ glue start replies)
  unfolding panel_rounds
  panel_rounds-Complete zero deadline start s panel h = absurd (ground arith)
  panel_rounds-Complete (suc rounds) deadline start s panel h = elim (Bool-cases (has_end start)) [
    | inl p ↦ (ground arith, [], omega arith, ground arith)
    | inr p ↦ elim (Bool-cases (ltb 4096 (byte_length start))) [
      | inl q ↦ absurd (ground arith)
      | inr q ↦ elim (Result-cases (io.request_before "READ" [] deadline s).1) [
        | inr (e, r) ↦ absurd (ground arith)
        | inl (reply, r) ↦
            let (complete, replies, few, glued) =
              panel_rounds-Complete rounds deadline (start ++ 10 ∷ reply)
                (io.request_before "READ" [] deadline s).0 panel (ground arith) in
            (complete, reply ∷ replies, omega arith, glued)
      ]
    ]
  ]

  -- A panel that is returned has a line `END`, and is made of the reply to the query and of the
  -- replies to four reads at most, each on a new line.
  pub legacy_panel-Complete :
      (s : S) (panel : Text)
      → (legacy_panel io s).1 ≡ ok panel
      → (has_end panel ≡ true)
        × (first : Text) × (replies : List Text) × (length replies ≤ 4)
        × (panel ≡ glue first replies)
  unfolding legacy_panel
  legacy_panel-Complete s panel h =
      let deadline = io.now s + 6000000000 in
      elim (Result-cases (io.request_before "QUERY" (text_of "OS;E\n") deadline s).1) [
        | inr (e, r) ↦ absurd (ground arith)
        | inl (first, r) ↦
            let (complete, replies, few, glued) =
              panel_rounds-Complete 5 deadline first
                (io.request_before "QUERY" (text_of "OS;E\n") deadline s).0 panel (ground arith) in
            (complete, first, replies, omega arith, glued)
      ]
