-- ===== src/Plan/Sweep.antt =====
-- The targets of a sweep in crates/iv-core/src/lib.rs: from decimal start, stop and step, which are
-- aligned to the grid of the source's range, to the list of points with their directions.
pub mod Range
pub mod Numbering
use kohdalab_iv.Common.Results.{◌>>=◌, ◌>>◌}
use kohdalab_iv.Common.{
  ℕ, zero, suc, ◌+◌, ◌≡◌, Bool, true, false, not, ◌&&◌, ◌||◌, Option, none, some, List, [], ◌∷◌,
  ◌++◌, if◌then◌else◌, length, Result, ok, err, require, leb, ltb, ◌==◌,
}
use kohdalab_iv.Plan.Decimal.{Decimal}

pub data PlanError : Type 0 where
  zero_step step_away too_many_points zero_outside no_points : PlanError

pub data Pattern : Type 0 where
  linear round_trip zero_centered custom_list : Pattern

pub data Direction : Type 0 where
  forward backward : Direction

pub record SweepPoint (N : Type 0) : Type 0 where
  pub target : N
  pub direction : Direction
  pub point_index : ℕ
  pub total_points : ℕ

abbrev pub max_points : ℕ
max_points = 1000000

module _ {N : Type 0} (d : Decimal N) where
  -- `(stop - current).abs() <= step.abs()`, written with the strict order.
  unfoldable pub is_last_interval : N → N → N → Bool
  is_last_interval current stop step = not (d.lt (d.abs step) (d.abs (d.sub stop current)))

  unfoldable pub next_point : N → N → N → N
  unfolding is_last_interval
  next_point current stop step =
      if is_last_interval current stop step then stop else d.add current step

  -- The loop, by the number of points that may still be added.
  unfoldable pub range_loop : ℕ → N → N → N → Result (List N) PlanError
  range_loop zero current stop step = err too_many_points
  range_loop (suc room) current stop step =
      let rest = range_loop room (next_point current stop step) stop step in
      if d.eq current stop
      then ok (current ∷ [])
      else elim rest [ ok points ↦ ok (current ∷ points) | err e ↦ err e ]

  unfoldable pub decimal_range : N → N → N → Result (List N) PlanError
  decimal_range start stop step = do
    require (not (d.eq step d.zero)) zero_step
    require (not (not (d.is_sign_negative step) && d.lt stop start)) step_away
    require (not (d.is_sign_negative step && d.lt start stop)) step_away
    range_loop max_points start stop step

  unfoldable pub forward_points : N → N → N → Result (List N) PlanError
  forward_points start stop step =
      decimal_range start stop (if d.lt stop start then d.neg (d.abs step) else d.abs step)

  -- `points.last()`.
  unfoldable pub last_point : List N → Option N
  last_point [] = none
  last_point (p ∷ []) = some p
  last_point (p ∷ q ∷ ps) = last_point (q ∷ ps)

  unfoldable pub skip_joint : Option N → List N → List N
  skip_joint none segment = segment
  skip_joint (some last) [] = []
  skip_joint (some last) (p ∷ ps) = if d.eq p last then ps else p ∷ ps

  -- A segment that starts where the points end does not repeat that point.
  unfoldable pub append_joined : List N → List N → List N
  unfolding last_point skip_joint
  append_joined points segment = points ++ skip_joint (last_point points) segment

  -- `start.min(stop) > 0 || start.max(stop) < 0`.
  unfoldable pub excludes_zero : N → N → Bool
  excludes_zero start stop =
      (d.lt d.zero start && d.lt d.zero stop) || (d.lt start d.zero && d.lt stop d.zero)

  -- `custom` are the aligned custom points.
  unfoldable pub base_points : Pattern → N → N → N → List N → Result (List N) PlanError
  unfolding append_joined excludes_zero
  base_points custom_list start stop step custom = do
    require (ltb 0 (length custom)) no_points
    require (leb (length custom) max_points) too_many_points
    ok custom
  base_points linear start stop step custom = forward_points start stop step
  base_points round_trip start stop step custom = do
    there ← forward_points start stop step
    back ← forward_points stop start step
    ok (append_joined there back)
  base_points zero_centered start stop step custom = do
    require (not (excludes_zero start stop)) zero_outside
    out ← forward_points d.zero stop step
    across ← forward_points stop start step
    home ← forward_points start d.zero step
    ok (append_joined (append_joined (append_joined [] out) across) home)

  -- The direction of a move; a move to the same level keeps the last one.
  unfoldable pub direction_of : N → Direction → Direction
  direction_of delta last =
      if d.lt delta d.zero then backward else (if d.lt d.zero delta then forward else last)

  unfoldable pub later_points : ℕ → ℕ → N → Direction → List N → List (SweepPoint N)
  unfolding direction_of
  later_points index total previous last [] = []
  later_points index total previous last (p ∷ ps) =
      let dir = direction_of (d.sub p previous) last in
      record { target = p; direction = dir; point_index = index; total_points = total }
      ∷ later_points (index + 1) total p dir ps

  -- The first point looks ahead to the second.
  unfoldable pub sweep_points : List N → List (SweepPoint N)
  unfolding later_points direction_of
  sweep_points [] = []
  sweep_points (p ∷ []) =
      record {
        target = p;
        direction = direction_of (d.sub p p) forward;
        point_index = 1;
        total_points = 1;
      }
      ∷ []
  sweep_points (p ∷ q ∷ ps) =
      let total = length (p ∷ q ∷ ps) in
      let dir = direction_of (d.sub q p) forward in
      record { target = p; direction = dir; point_index = 1; total_points = total }
      ∷ later_points 2 total p dir (q ∷ ps)
