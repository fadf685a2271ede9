-- ===== src/Hub/Listing.antt =====
-- The resource list of `Request::List` in crates/instrument-hub/src/core.rs: its lines are parsed
-- from the controller's reply, and printed for the client.
pub mod RoundTrip
use kohdalab_iv.Common.{
  ℕ, String, Bool, true, false, ◌&&◌, Option, none, some, List, [], ◌∷◌, ◌++◌, if◌then◌else◌, ltb,
  ◌==◌,
}
use kohdalab_iv.Common.Text.{Text, text_of, lines, strip_prefix, strip_suffix, parse_u8, show_u8}
use kohdalab_iv.Protocol.{in_range}

-- One line, "GPIB0::5::INSTR".
unfoldable pub parse_resource : Text → Option ℕ
unfolding strip_prefix strip_suffix parse_u8
parse_resource line = elim (strip_prefix (text_of "GPIB0::") line) [
  | none ↦ none
  | some rest ↦ elim (strip_suffix (text_of "::INSTR") rest) [
    | none ↦ none
    | some number ↦ parse_u8 number
  ]
]

unfoldable pub parse_resources : List Text → List ℕ
unfolding in_range
parse_resources [] = []
parse_resources (l ∷ ls) = elim (parse_resource l) [
  | none ↦ parse_resources ls
  | some a ↦ if in_range 1 30 a then a ∷ parse_resources ls else parse_resources ls
]

unfoldable pub parse_listing : Text → List ℕ
parse_listing reply = parse_resources (lines reply)

unfoldable pub format_resource : ℕ → Text
unfolding show_u8
format_resource a = text_of "GPIB0::" ++ (show_u8 a ++ text_of "::INSTR\n")

unfoldable pub format_listing : List ℕ → Text
format_listing [] = []
format_listing (a ∷ rest) = format_resource a ++ format_listing rest

-- `sort_unstable` and `dedup` at once, by insertion.
unfoldable pub insert_sorted : ℕ → List ℕ → List ℕ
insert_sorted a [] = a ∷ []
insert_sorted a (b ∷ bs) =
    if a == b then b ∷ bs else (if ltb a b then a ∷ b ∷ bs else b ∷ insert_sorted a bs)

unfoldable pub sort_dedup : List ℕ → List ℕ
unfolding insert_sorted
sort_dedup [] = []
sort_dedup (a ∷ rest) = insert_sorted a (sort_dedup rest)
