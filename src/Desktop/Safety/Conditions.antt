-- ===== src/Desktop/Safety/Conditions.antt =====
-- What the condition of a source shows, in crates/iv-desktop/src/engine/safety.rs.
use kohdalab_iv.Common.{
  ℕ, ◌+◌, ◌-◌, ◌*◌, ◌≡◌, ◌≤◌, refl, Bool, true, false, not, ◌||◌, some, [], ◌∷◌, arith, ok,
  Option-cases, inl, inr, str_eq,
}
use kohdalab_iv.Common.Text.{Text, parse_u16, parse_digits_u16}
use kohdalab_iv.Transport.Replies.{trim}
use kohdalab_iv.Desktop.Safety.{
  SourceCondition, SourceProtectionProfile, source_condition, condition_of, indicator, stopped,
  has_bits,
}

shown :
    (r : ℕ) (low high emergency : Bool)
    → str_eq
        (indicator
          (record { register = r; low_limiter = low; high_limiter = high; emergency = emergency }))
        "none"
      ≡ not (low || (high || emergency))
unfolding indicator
shown r true true true = refl
shown r true true false = refl
shown r true false true = refl
shown r true false false = refl
shown r false true true = refl
shown r false true false = refl
shown r false false true = refl
shown r false false false = refl

parse_digits_u16-bounded :
    (n : ℕ) (s : Text) (r : ℕ) → n ≤ 65535 → parse_digits_u16 n s ≡ some r → r ≤ 65535
unfolding parse_digits_u16
parse_digits_u16-bounded n [] r le h = ground arith
parse_digits_u16-bounded n (c ∷ s) r le h =
    ground (arith, parse_digits_u16-bounded (n * 10 + (c - b'0')) s r)

parse_u16-bounded : (s : Text) (r : ℕ) → parse_u16 s ≡ some r → r ≤ 65535
unfolding parse_u16
parse_u16-bounded [] r h = absurd (ground arith)
parse_u16-bounded (c ∷ []) r h = parse_digits_u16-bounded 0 (c ∷ []) r (omega arith) h
parse_u16-bounded (c ∷ d ∷ s) r h =
    ground (arith, parse_digits_u16-bounded 0 (d ∷ s) r, parse_digits_u16-bounded 0 (c ∷ d ∷ s) r)

-- The condition of a source that is read from a reply has a register of 16 bits; it is shown as
-- "none" exactly if it does not stop the source, which it does exactly if the register has a bit of
-- one of the three masks.
pub source_condition-Shown :
    (reply : Text) (p : SourceProtectionProfile) (c : SourceCondition)
    → source_condition reply p ≡ ok c
    → (c.register ≤ 65535)
      × (str_eq (indicator c) "none" ≡ not (stopped c))
      × (stopped c ≡ (
          has_bits c.register p.low_limiter_mask
          || (has_bits c.register p.high_limiter_mask || has_bits c.register p.emergency_mask)))
unfolding source_condition stopped condition_of
source_condition-Shown reply p c h = elim (Option-cases (parse_u16 (trim reply))) [
  | inl q ↦ absurd (ground arith)
  | inr (r, q) ↦
      let same : condition_of p r ≡ c = ground arith in
      rw (← same) (
        parse_u16-bounded (trim reply) r q,
        shown r (has_bits r p.low_limiter_mask) (has_bits r p.high_limiter_mask)
            (has_bits r p.emergency_mask),
        refl,
      )
]
