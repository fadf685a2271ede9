-- ===== src/Examples/Drive.antt =====
-- A disk on which no call fails, and an encoding of the journal for the two source models.
use kohdalab_iv.Common.{
  ℕ, ◌≡◌, refl, String, true, Option, none, some, List, [], ◌∷◌, ◌==◌, arith, str_eq, eq_iff,
  if◌then◌else◌, Option-cases, inl, inr,
}
use kohdalab_iv.Hub.Journal.{Disk, IsDisk, Quarantine, ReadFile, bytes, not_found}

pub record Drive : Type 0 where
  pub journal : Option (List ℕ)
  pub temporary : Option (List ℕ)

abbrev tag : String → Option ℕ
tag m =
    if str_eq m "YOKOGAWA_GS210"
    then some 0
    else (if str_eq m "YOKOGAWA_7651" then some 1 else none)

abbrev untag : ℕ → String
untag t = if t == 0 then "YOKOGAWA_GS210" else "YOKOGAWA_7651"

abbrev pub encode : Quarantine → Option (List ℕ)
encode [] = some []
encode ((a, m) ∷ q) =
    let rest = encode q in
    elim (tag m) [ none ↦ none | some t ↦ elim rest [ none ↦ none | some b ↦ some (a ∷ t ∷ b) ] ]

abbrev pub decode : List ℕ → Option Quarantine
decode [] = some []
decode (a ∷ []) = none
decode (a ∷ t ∷ b) =
    let rest = decode b in elim rest [ none ↦ none | some q ↦ some ((a, untag t) ∷ q) ]

untag-tag : (m : String) (t : ℕ) → tag m ≡ some t → untag t ≡ m
untag-tag m t e = ground (arith, eq_iff m "YOKOGAWA_GS210", eq_iff m "YOKOGAWA_7651")

decode-encode : (q : Quarantine) (b : List ℕ) → encode q ≡ some b → decode b ≡ some q
decode-encode [] b e = ground arith
decode-encode ((a, m) ∷ q) b e = elim (Option-cases (tag m)) [
  | inl none_left ↦ absurd (ground arith)
  | inr (t, tagged) ↦ elim (Option-cases (encode q)) [
    | inl none_left ↦ absurd (ground arith)
    | inr (r, coded) ↦ ground (arith, decode-encode q r coded, untag-tag m t tagged)
  ]
]

abbrev read : Option (List ℕ) → ReadFile
read none = not_found
read (some b) = bytes b

abbrev pub drive : Disk Drive
drive = record {
  create_new = λ s. (record s { temporary = some [] }, true);
  write_all = λ s b. (record s { temporary = some b }, true);
  sync_all = λ s. (s, true);
  rename = λ s. (record { journal = s.temporary; temporary = none }, true);
  sync_directory = λ s. (s, true);
  remove_temporary = λ s. record s { temporary = none };
  read_journal = λ s. read s.journal;
  encode = encode;
  decode = decode;
}

read-bytes : (o : Option (List ℕ)) (b : List ℕ) → read o ≡ bytes b → o ≡ some b
read-bytes none b e = ground arith
read-bytes (some c) b e = ground arith

read-not_found : (o : Option (List ℕ)) → read o ≡ not_found → o ≡ none
read-not_found none e = refl
read-not_found (some c) e = ground arith

pub drive-IsDisk : IsDisk drive (λ s. s.journal) (λ s. s.temporary)
drive-IsDisk = record {
  create_keeps = λ s. refl;
  write_keeps = λ s b. refl;
  write_writes = λ s b e. refl;
  sync_keeps = λ s. refl;
  sync_keeps_temporary = λ s. refl;
  rename_moves = λ s e. refl;
  rename_keeps = λ s e. absurd (ground arith);
  sync_directory_keeps = λ s. refl;
  remove_keeps = λ s. refl;
  decode-encode = decode-encode;
  read_exact = λ s b e. read-bytes s.journal b e;
  read_missing = λ s e. read-not_found s.journal e;
}

abbrev pub blank_drive : Drive
blank_drive = record { journal = none; temporary = none }
