-- ===== src/Transport/Commands/Switching.antt =====
-- Which commands switch the output of a 7651 on or off, in crates/iv-transport/src/instruments.rs.
use kohdalab_iv.Common.{◌≡◌, ◌≢◌, sym, ◌∙◌, ◌⊎◌, inl, inr, some, arith, ok, Bool-cases}
use kohdalab_iv.Common.Text.{Text, text_of, text_eq, text_eq_sound, split_at, split_at-append}
use kohdalab_iv.Common.Float.{Float}
use kohdalab_iv.Transport.Commands.{
  canonical, output_switch, function_switch, range_code, level, current_limit, voltage_limit,
  translate, source_write,
}

abbrev on : Text
on = text_of "O1;E"

function_switch-on : (value : Text) → function_switch value ≢ ok on
unfolding function_switch
function_switch-on value h = ground arith

output_switch-on :
    (value : Text) → output_switch value ≡ ok on → (value ≡ text_of "ON") ⊎ (value ≡ text_of "1")
unfolding output_switch
output_switch-on value h = elim (Bool-cases (text_eq value (text_of "ON"))) [
  | inl p ↦ inl (text_eq_sound value (text_of "ON") p)
  | inr p ↦ elim (Bool-cases (text_eq value (text_of "1"))) [
    | inl q ↦ inr (text_eq_sound value (text_of "1") q)
    | inr q ↦ absurd (ground arith)
  ]
]

module _ {F : Type 0} (f : Float F) where
  range_code-on : (value : Text) → range_code f value ≢ ok on
  unfolding range_code
  range_code-on value h = ground arith

  level-on : (value : Text) → level f value ≢ ok on
  unfolding level
  level-on value h = ground arith

  current_limit-on : (value : Text) → current_limit f value ≢ ok on
  unfolding current_limit
  current_limit-on value h = ground arith

  voltage_limit-on : (value : Text) → voltage_limit f value ≢ ok on
  unfolding voltage_limit
  voltage_limit-on value h = ground arith

  translate-on :
      (name value : Text)
      → translate f name value ≡ ok on
      → (name ≡ text_of "OUTP") × ((value ≡ text_of "ON") ⊎ (value ≡ text_of "1"))
  unfolding translate
  translate-on name value h = elim (Bool-cases (text_eq name (text_of "OUTP"))) [
    | inl p ↦ (text_eq_sound name (text_of "OUTP") p, output_switch-on value (ground arith))
    | inr p ↦ absurd (
        ground (
          arith,
          function_switch-on value,
          range_code-on value,
          level-on value,
          current_limit-on value,
          voltage_limit-on value,
        ))
  ]

  -- The command that switches the output of a 7651 on is sent only for `OUTP ON` and `OUTP 1`, after
  -- trimming, leading colons and the case of letters.
  pub source_write-on :
      (command : Text)
      → source_write f command ≡ ok (some on)
      → (canonical command ≡ text_of "OUTP ON") ⊎ (canonical command ≡ text_of "OUTP 1")
  unfolding source_write
  source_write-on command h =
      let s = canonical command in
      let (named, switched) = translate-on (split_at b' ' s).0 (split_at b' ' s).1 (ground arith) in
      elim (split_at-append b' ' s) [
        | inr nothing ↦ absurd (ground (arith, nothing, switched))
        | inl joined ↦ elim switched [
          | inl p ↦ inl (sym joined ∙ cc)
          | inr p ↦ inr (sym joined ∙ cc)
        ]
      ]
