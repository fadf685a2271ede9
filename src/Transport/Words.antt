-- ===== src/Transport/Words.antt =====
-- `split_whitespace` of the standard library.
use kohdalab_iv.Common.{ℕ, ◌≡◌, Bool, true, not, List, [], ◌∷◌, ◌++◌, if◌then◌else◌, all, arith}
use kohdalab_iv.Common.Text.{Text}
use kohdalab_iv.Protocol.{is_whitespace}

abbrev pub push_word : Text → List Text → List Text
push_word [] words = words
push_word (c ∷ w) words = (c ∷ w) ∷ words

-- The word that a text begins with, perhaps empty, and the words after it.
unfoldable pub split_words : Text → Text × List Text
split_words [] = ([], [])
split_words (c ∷ s) =
    let (word, words) = split_words s in
    if is_whitespace c then ([], push_word word words) else (c ∷ word, words)

unfoldable pub split_whitespace : Text → List Text
unfolding split_words
split_whitespace s = let (word, words) = split_words s in push_word word words

-- `split_whitespace().last().unwrap_or_default()`.
unfoldable pub last_word : List Text → Text
last_word [] = []
last_word (w ∷ []) = w
last_word (w ∷ v ∷ ws) = last_word (v ∷ ws)

abbrev pub is_ink : ℕ → Bool
is_ink c = not (is_whitespace c)

split_words-append :
    (w : Text) (c : ℕ) (s : Text)
    → all is_ink w ≡ true
    → is_whitespace c ≡ true
    → split_words (w ++ c ∷ s) ≡ (w, split_whitespace s)
unfolding split_words split_whitespace all
split_words-append [] c s ink blank = ground arith
split_words-append (x ∷ w) c s ink blank = ground (arith, split_words-append w c s)

-- A word before white space is the first one.
pub split_whitespace-append :
    (x : ℕ) (w : Text) (c : ℕ) (s : Text)
    → all is_ink (x ∷ w) ≡ true
    → is_whitespace c ≡ true
    → split_whitespace (x ∷ w ++ c ∷ s) ≡ (x ∷ w) ∷ split_whitespace s
unfolding split_whitespace
split_whitespace-append x w c s ink blank = ground (arith, split_words-append (x ∷ w) c s)

-- A text without white space that is not empty.
abbrev pub IsWord : Text → Type 0
IsWord [] = ⊥
IsWord (x ∷ w) = all is_ink (x ∷ w) ≡ true

pub split_whitespace-word :
    (w : Text) (c : ℕ) (s : Text)
    → IsWord w
    → is_whitespace c ≡ true
    → split_whitespace (w ++ c ∷ s) ≡ w ∷ split_whitespace s
split_whitespace-word [] c s ink blank = absurd ink
split_whitespace-word (x ∷ w) c s ink blank = split_whitespace-append x w c s ink blank
