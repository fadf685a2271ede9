-- ===== src/Hub/Listing/RoundTrip.antt =====
-- The resource list of crates/instrument-hub/src/core.rs is in the format that the hub itself reads
-- from its controller, in strict order, with each address once.
use kohdalab_iv.Common.{
  ℕ, zero, suc, ◌≤◌, ◌<◌, ◌≡◌, refl, ap, Bool, true, false, not, ◌&&◌, ◌||◌, Option, none, some,
  List, [], ◌∷◌, ◌++◌, arith, All, all, ◌==◌, ==_iff,
}
use mathlib.Core.List.{append_assoc}
use kohdalab_iv.Common.Text.{Text, text_of, lines, show_u8}
use kohdalab_iv.Protocol.{in_range}
use kohdalab_iv.Hub.Listing.{
  parse_resource, parse_resources, parse_listing, format_resource, format_listing, insert_sorted,
  sort_dedup,
}

is_plain : ℕ → Bool
is_plain c = not (c == 10 || c == 13)

-- A line without line breaks, and its line feed.
lines-line : (s rest : Text) → all is_plain s ≡ true → lines (s ++ 10 ∷ rest) ≡ s ∷ lines rest
unfolding lines all is_plain
lines-line [] rest h = refl
lines-line (c ∷ s) rest h = ground (arith, lines-line s rest)

-- The line of an address, without its line feed.
resource_line : ℕ → Text
unfolding show_u8
resource_line a = text_of "GPIB0::" ++ (show_u8 a ++ text_of "::INSTR")

format_resource-line :
    (a : ℕ) (rest : Text) → format_resource a ++ rest ≡ resource_line a ++ 10 ∷ rest
unfolding format_resource resource_line
format_resource-line a rest = simp append_assoc

abbrev is_some_of : ℕ → Option ℕ → Bool
is_some_of a none = false
is_some_of a (some b) = b == a

is_read_back : ℕ → Bool
unfolding all is_plain parse_resource resource_line
is_read_back a = all is_plain (resource_line a) && is_some_of a (parse_resource (resource_line a))

-- A test holds of every number below a bound.
holds_below : (ℕ → Bool) → ℕ → Bool
holds_below test zero = true
holds_below test (suc n) = holds_below test n && test n

holds_below_sound : (test : ℕ → Bool) {a n : ℕ} → a < n → holds_below test n ≡ true → test a ≡ true
unfolding holds_below
holds_below_sound test {n = zero} lt h = absurd (omega arith)
holds_below_sound test {a} {n = suc n} lt h =
    ground (arith, λ (below : a < n). holds_below_sound test {a = a} {n = n} below)

table : holds_below is_read_back 256 ≡ true
unfolding holds_below is_read_back
table = refl

is_some_of-eq : (a : ℕ) (o : Option ℕ) → is_some_of a o ≡ true → o ≡ some a
is_some_of-eq a none h = ground arith
is_some_of-eq a (some b) h = ap some ((==_iff b a).0 h)

abbrev pub InRange : List ℕ → Type 0
InRange xs = All (λ a. (1 ≤ a) × (a ≤ 30)) xs

parse_resources-line :
    (a : ℕ) (ls : List Text)
    → (1 ≤ a) × (a ≤ 30)
    → (all is_plain (resource_line a) ≡ true)
      × (parse_resources (resource_line a ∷ ls) ≡ a ∷ parse_resources ls)
unfolding parse_resources in_range is_read_back
parse_resources-line a ls h =
    let good = holds_below_sound is_read_back {a = a} {n = 256} (omega arith) table in
    let plain : all is_plain (resource_line a) ≡ true = ground (arith, good) in
    let read : parse_resource (resource_line a) ≡ some a =
      is_some_of-eq a (parse_resource (resource_line a)) (ground (arith, good)) in
    (plain, ground (arith, read))

pub parse_listing-format_listing :
    (xs : List ℕ) → InRange xs → parse_listing (format_listing xs) ≡ xs
unfolding parse_listing format_listing
parse_listing-format_listing [] h = unfold lines parse_resources in refl
parse_listing-format_listing (a ∷ xs) h =
    let (plain, read) = parse_resources-line a (lines (format_listing xs)) h.0 in
    rw
      (
        format_resource-line a (format_listing xs),
        lines-line (resource_line a) (format_listing xs) plain,
        read,
      )
      (ap (◌∷◌ a) (parse_listing-format_listing xs h.1))

abbrev pub Sorted : List ℕ → Type 0
Sorted [] = Unit
Sorted (a ∷ xs) = All (λ b. a < b) xs × Sorted xs

abbrev pub contains : ℕ → List ℕ → Bool
contains a [] = false
contains a (b ∷ xs) = a == b || contains a xs

All-lt_mono : (a b : ℕ) (xs : List ℕ) → a < b → All (λ c. b < c) xs → All (λ c. a < c) xs
All-lt_mono a b [] lt h = tt
All-lt_mono a b (c ∷ xs) lt h = (omega arith, All-lt_mono a b xs lt h.1)

All-insert_sorted {ℓ} :
    (P : ℕ → Type ℓ) (a : ℕ) (xs : List ℕ) → P a → All P xs → All P (insert_sorted a xs)
unfolding insert_sorted
All-insert_sorted P a [] p h = (p, tt)
All-insert_sorted P a (b ∷ xs) p h = ground (arith, All-insert_sorted P a xs p h.1)

insert_sorted-Sorted : (a : ℕ) (xs : List ℕ) → Sorted xs → Sorted (insert_sorted a xs)
unfolding insert_sorted
insert_sorted-Sorted a [] h = (tt, tt)
insert_sorted-Sorted a (b ∷ xs) h =
    ground (
      arith,
      insert_sorted-Sorted a xs h.1,
      All-lt_mono a b xs,
      All-insert_sorted (λ c. b < c) a xs,
    )

contains-insert_sorted :
    (c a : ℕ) (xs : List ℕ) → contains c (insert_sorted a xs) ≡ (c == a || contains c xs)
unfolding insert_sorted
contains-insert_sorted c a [] = refl
contains-insert_sorted c a (b ∷ xs) = ground (arith, contains-insert_sorted c a xs)

pub sort_dedup-Sorted : (xs : List ℕ) → Sorted (sort_dedup xs)
unfolding sort_dedup
sort_dedup-Sorted [] = tt
sort_dedup-Sorted (a ∷ xs) = insert_sorted-Sorted a (sort_dedup xs) (sort_dedup-Sorted xs)

pub contains-sort_dedup : (c : ℕ) (xs : List ℕ) → contains c (sort_dedup xs) ≡ contains c xs
unfolding sort_dedup
contains-sort_dedup c [] = refl
contains-sort_dedup c (a ∷ xs) =
    ground (arith, contains-insert_sorted c a (sort_dedup xs), contains-sort_dedup c xs)
