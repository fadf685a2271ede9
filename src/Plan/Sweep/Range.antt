-- ===== src/Plan/Sweep/Range.antt =====
-- `decimal_range` and `forward_points` of crates/iv-core/src/lib.rs: which points they give.
use kohdalab_iv.Common.{
  ℕ, zero, suc, ◌+◌, ◌-◌, ◌*◌, ◌≤◌, ◌<◌, ◌≡◌, refl, false, List, [], ◌∷◌, map, arith, if◌then◌else◌,
  Result, ok, err, leb,
}
use kohdalab_iv.Plan.Decimal.{Decimal, IsGrid}
use kohdalab_iv.Plan.Sweep.{
  PlanError, too_many_points, is_last_interval, next_point, range_loop, decimal_range,
  forward_points, max_points,
}

-- `n` equal steps of `k` up from `c`, and then the target `t`.
abbrev pub climb : ℕ → ℕ → ℕ → ℕ → List ℕ
climb zero c k t = t ∷ []
climb (suc n) c k t = c ∷ climb n (c + k) k t

-- The same, down.
abbrev pub descend : ℕ → ℕ → ℕ → ℕ → List ℕ
descend zero c k t = t ∷ []
descend (suc n) c k t = c ∷ descend n (c - k) k t

-- `n` is the number of steps of `k` that cover the distance `x`, the last of them perhaps shorter.
abbrev pub Covers : ℕ → ℕ → ℕ → Type 0
Covers zero k x = x ≡ 0
Covers (suc n) k x = (n * k < x) × (x ≤ n * k + k)

module _ {N : Type 0} {d : Decimal N} {On : N → Type 0} {place : N → ℕ} {centre : ℕ}
    (g : IsGrid d On place centre) where
  -- The places that a result stands for, if it is a list of points.
  abbrev pub Gives : Result (List N) PlanError → List ℕ → Type 0
  Gives (ok points) ps = map place points ≡ ps
  Gives (err e) ps = ⊥

  step_up :
      (c t s : N) (k : ℕ)
      → On c
      → On t
      → On s
      → place s ≡ centre + k
      → place c ≤ place t
      → place t ≤ place c + centre
      → On (next_point d c t s)
        × (place (next_point d c t s)
            ≡ (if leb (place t) (place c + k) then place t else place c + k))
  unfolding next_point is_last_interval
  step_up c t s k oc ot os ps le near = ground (
    arith,
    g.place_bounded t ot,
    g.sub_on t c ot oc,
    g.sub_place t c ot oc,
    g.abs_on (d.sub t c),
    g.abs_place_above (d.sub t c),
    g.abs_on s os,
    g.abs_place_above s os,
    g.lt_place (d.abs s) (d.abs (d.sub t c)),
    g.add_on c s oc os,
    g.add_place c s oc os,
  )

  step_down :
      (c t s : N) (k : ℕ)
      → On c
      → On t
      → On s
      → place s + k ≡ centre
      → place t ≤ place c
      → place c ≤ place t + centre
      → On (next_point d c t s)
        × (place (next_point d c t s)
            ≡ (if leb (place c) (place t + k) then place t else place c - k))
  unfolding next_point is_last_interval
  step_down c t s k oc ot os ps le near = ground (
    arith,
    g.place_bounded c oc,
    g.sub_on t c ot oc,
    g.sub_place t c ot oc,
    g.abs_on (d.sub t c),
    g.abs_place_below (d.sub t c),
    g.abs_on s os,
    g.abs_place_below s os,
    g.lt_place (d.abs s) (d.abs (d.sub t c)),
    g.add_on c s oc os,
    g.add_place c s oc os,
  )

  -- A point that is not the last is put in front of the rest.
  range_loop-cons :
      (room : ℕ) (c t s : N) (ps : List ℕ)
      → d.eq c t ≡ false
      → Gives (range_loop d room (next_point d c t s) t s) ps
      → Gives (range_loop d (suc room) c t s) (place c ∷ ps)
  unfolding range_loop
  range_loop-cons room c t s ps ne h = ground arith

  range_loop-cons_err :
      (room : ℕ) (c t s : N)
      → d.eq c t ≡ false
      → range_loop d room (next_point d c t s) t s ≡ err too_many_points
      → range_loop d (suc room) c t s ≡ err too_many_points
  unfolding range_loop
  range_loop-cons_err room c t s ne h = ground arith

  range_loop_up :
      (n room : ℕ) (c t s : N) (k : ℕ)
      → On c
      → On t
      → On s
      → place s ≡ centre + k
      → place c ≤ place t
      → place t ≤ place c + centre
      → Covers n k (place t - place c)
      → n < room
      → Gives (range_loop d room c t s) (climb n (place c) k (place t))
  range_loop_up zero (suc room) c t s k oc ot os ps le near cover lt =
      unfold range_loop in ground (arith, g.eq_place c t oc ot)
  range_loop_up (suc zero) (suc room) c t s k oc ot os ps le near cover lt =
      let (on, at) = step_up c t s k oc ot os ps le near in
      let c' = next_point d c t s in
      let reached : place c' ≡ place t = ground (arith, at) in
      range_loop-cons room c t s _ (ground (arith, g.eq_place c t oc ot)) (
        range_loop_up zero room c' t s k on ot os ps (omega (arith, reached))
          (omega (arith, reached)) (omega (arith, reached)) (omega arith))
  range_loop_up (suc (suc n)) (suc room) c t s k oc ot os ps le near cover lt =
      let (on, at) = step_up c t s k oc ot os ps le near in
      let c' = next_point d c t s in
      let moved : place c' ≡ place c + k = ground (arith, at) in
      range_loop-cons room c t s _ (ground (arith, g.eq_place c t oc ot)) (
        rw moved at (
          range_loop_up (suc n) room c' t s k on ot os ps (omega (arith, moved))
            (omega (arith, moved)) (omega (arith, moved)) (omega arith)))
  range_loop_up n zero c t s k oc ot os ps le near cover lt = absurd (omega arith)

  range_loop_down :
      (n room : ℕ) (c t s : N) (k : ℕ)
      → On c
      → On t
      → On s
      → place s + k ≡ centre
      → place t ≤ place c
      → place c ≤ place t + centre
      → Covers n k (place c - place t)
      → n < room
      → Gives (range_loop d room c t s) (descend n (place c) k (place t))
  range_loop_down zero (suc room) c t s k oc ot os ps le near cover lt =
      unfold range_loop in ground (arith, g.eq_place c t oc ot)
  range_loop_down (suc zero) (suc room) c t s k oc ot os ps le near cover lt =
      let (on, at) = step_down c t s k oc ot os ps le near in
      let c' = next_point d c t s in
      let reached : place c' ≡ place t = ground (arith, at) in
      range_loop-cons room c t s _ (ground (arith, g.eq_place c t oc ot)) (
        range_loop_down zero room c' t s k on ot os ps (omega (arith, reached))
          (omega (arith, reached)) (omega (arith, reached)) (omega arith))
  range_loop_down (suc (suc n)) (suc room) c t s k oc ot os ps le near cover lt =
      let (on, at) = step_down c t s k oc ot os ps le near in
      let c' = next_point d c t s in
      let moved : place c' ≡ place c - k = ground (arith, at) in
      range_loop-cons room c t s _ (ground (arith, g.eq_place c t oc ot)) (
        rw moved at (
          range_loop_down (suc n) room c' t s k on ot os ps (omega (arith, moved))
            (omega (arith, moved)) (omega (arith, moved)) (omega arith)))
  range_loop_down n zero c t s k oc ot os ps le near cover lt = absurd (omega arith)

  -- With less room than points the loop gives up.
  range_loop_up_full :
      (n room : ℕ) (c t s : N) (k : ℕ)
      → On c
      → On t
      → On s
      → place s ≡ centre + k
      → place c ≤ place t
      → place t ≤ place c + centre
      → Covers n k (place t - place c)
      → room ≤ n
      → range_loop d room c t s ≡ err too_many_points
  range_loop_up_full n zero c t s k oc ot os ps le near cover lt = unfold range_loop in refl
  range_loop_up_full zero (suc room) c t s k oc ot os ps le near cover lt = absurd (omega arith)
  range_loop_up_full (suc zero) (suc zero) c t s k oc ot os ps le near cover lt =
      unfold range_loop in ground (arith, g.eq_place c t oc ot)
  range_loop_up_full (suc zero) (suc (suc room)) c t s k oc ot os ps le near cover lt =
      absurd (omega arith)
  range_loop_up_full (suc (suc n)) (suc room) c t s k oc ot os ps le near cover lt =
      let (on, at) = step_up c t s k oc ot os ps le near in
      let c' = next_point d c t s in
      let moved : place c' ≡ place c + k = ground (arith, at) in
      range_loop-cons_err room c t s (ground (arith, g.eq_place c t oc ot)) (
        range_loop_up_full (suc n) room c' t s k on ot os ps (omega (arith, moved))
          (omega (arith, moved)) (omega (arith, moved)) (omega arith))

  module _ (start stop step : N) (n k : ℕ) (on_start : On start) (on_stop : On stop)
      (on_step : On step) (size : place (d.abs step) ≡ centre + k) (positive : 0 < k) where
    -- From a start at or below the stop, `forward_points` gives the start, then equal steps of the
    -- size of the step, whatever its sign, and last exactly the stop; the last interval may be
    -- shorter. `n` steps cover the distance, and there are fewer than a million.
    pub forward_points_up :
        place start ≤ place stop
        → place stop ≤ place start + centre
        → Covers n k (place stop - place start)
        → n < max_points
        → Gives (forward_points d start stop step) (climb n (place start) k (place stop))
    unfolding forward_points decimal_range
    forward_points_up le near cover few =
        let s = d.abs step in
        ground (
          arith,
          g.abs_on step on_step,
          g.zero_on,
          g.zero_place,
          g.lt_place stop start on_stop on_start,
          g.eq_place s d.zero,
          g.negative_place s,
          range_loop_up n max_points start stop s k on_start on_stop,
        )

    -- From a start above the stop the same holds downwards.
    pub forward_points_down :
        place stop < place start
        → place start ≤ place stop + centre
        → k ≤ centre
        → Covers n k (place start - place stop)
        → n < max_points
        → Gives (forward_points d start stop step) (descend n (place start) k (place stop))
    unfolding forward_points decimal_range
    forward_points_down lt near small cover few =
        let a = d.abs step in
        let s = d.neg a in
        ground (
          arith,
          g.abs_on step on_step,
          g.neg_on a,
          g.neg_place a,
          g.zero_on,
          g.zero_place,
          g.lt_place stop start on_stop on_start,
          g.lt_place start stop on_start on_stop,
          g.eq_place s d.zero,
          g.negative_place s,
          range_loop_down n max_points start stop s k on_start on_stop,
        )

    -- A sweep upwards of more than a million points is refused.
    pub forward_points_refused :
        place start ≤ place stop
        → place stop ≤ place start + centre
        → Covers n k (place stop - place start)
        → max_points ≤ n
        → forward_points d start stop step ≡ err too_many_points
    unfolding forward_points decimal_range
    forward_points_refused le near cover many =
        let s = d.abs step in
        ground (
          arith,
          g.abs_on step on_step,
          g.zero_on,
          g.zero_place,
          g.lt_place stop start on_stop on_start,
          g.eq_place s d.zero,
          g.negative_place s,
          range_loop_up_full n max_points start stop s k on_start on_stop,
        )
