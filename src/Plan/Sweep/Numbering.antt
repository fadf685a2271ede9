-- ===== src/Plan/Sweep/Numbering.antt =====
-- The points of `sweep_points` in crates/iv-core/src/lib.rs.
use kohdalab_iv.Common.{ℕ, zero, suc, ◌+◌, ◌≡◌, refl, ap, List, [], ◌∷◌, map, length}
use kohdalab_iv.Plan.Decimal.{Decimal}
use kohdalab_iv.Plan.Sweep.{SweepPoint, Direction, later_points, sweep_points, direction_of}

-- `n` numbers from `i` on.
abbrev pub count_from : ℕ → ℕ → List ℕ
count_from i zero = []
count_from i (suc n) = i ∷ count_from (i + 1) n

abbrev pub copies : ℕ → ℕ → List ℕ
copies zero x = []
copies (suc n) x = x ∷ copies n x

module _ {N : Type 0} (d : Decimal N) where
  abbrev pub Numbered : ℕ → ℕ → List (SweepPoint N) → List N → Type 0
  Numbered index total points ps =
      (map (λ (p : SweepPoint N). p.target) points ≡ ps)
      × (map (λ (p : SweepPoint N). p.point_index) points ≡ count_from index (length ps))
      × (map (λ (p : SweepPoint N). p.total_points) points ≡ copies (length ps) total)

  later_points-Numbered :
      (index total : ℕ) (previous : N) (last : Direction) (ps : List N)
      → Numbered index total (later_points d index total previous last ps) ps
  unfolding later_points
  later_points-Numbered index total previous last [] = (refl, refl, refl)
  later_points-Numbered index total previous last (p ∷ ps) =
      let dir = direction_of d (d.sub p previous) last in
      let (targets, indices, totals) = later_points-Numbered (index + 1) total p dir ps in
      (ap (◌∷◌ p) targets, ap (◌∷◌ index) indices, ap (◌∷◌ total) totals)

  -- A sweep has one point for each target, in their order, numbered from 1, each with the number of
  -- all.
  pub sweep_points-Numbered : (ps : List N) → Numbered 1 (length ps) (sweep_points d ps) ps
  unfolding sweep_points
  sweep_points-Numbered [] = (refl, refl, refl)
  sweep_points-Numbered (p ∷ []) = (refl, refl, refl)
  sweep_points-Numbered (p ∷ q ∷ ps) =
      let total = length (p ∷ q ∷ ps) in
      let dir = direction_of d (d.sub q p) Direction.forward in
      let (targets, indices, totals) = later_points-Numbered 2 total p dir (q ∷ ps) in
      (ap (◌∷◌ p) targets, ap (◌∷◌ 1) indices, ap (◌∷◌ total) totals)
