-- ===== src/Hub/Sessions.antt =====
-- The sessions of the worker in crates/instrument-hub/src/server.rs: a `BTreeMap` from a session's
-- id to its application. The ids are random; the model keeps them in the order of registration.
use kohdalab_iv.Common.{
  ◌≡◌, refl, String, Bool, true, false, Option, none, some, List, [], ◌∷◌, arith, str_eq, eq_iff,
  if◌then◌else◌,
}

abbrev pub Sessions : Type 0
Sessions = List (String × String)

unfoldable pub find_app : String → Sessions → Option String
find_app i [] = none
find_app i ((j, app) ∷ m) = if str_eq j i then some app else find_app i m

unfoldable pub is_registered : String → Sessions → Bool
is_registered i [] = false
is_registered i ((j, app) ∷ m) = if str_eq j i then true else is_registered i m

unfoldable pub register : String → String → Sessions → Sessions
register i app [] = (i, app) ∷ []
register i app ((j, w) ∷ m) = if str_eq j i then (i, app) ∷ m else (j, w) ∷ register i app m

unfoldable pub forget : String → Sessions → Sessions
forget i [] = []
forget i ((j, w) ∷ m) = if str_eq j i then forget i m else (j, w) ∷ forget i m

pub find_app-is_registered :
    (i : String) (m : Sessions) {app : String} → find_app i m ≡ some app → is_registered i m ≡ true
unfolding find_app is_registered
find_app-is_registered i [] {app} e = ground arith
find_app-is_registered i ((j, w) ∷ m) {app} e =
    ground (arith, find_app-is_registered i m {app = app})

pub is_registered-register :
    (i j : String) (app : String) (m : Sessions)
    → is_registered j (register i app m) ≡ (if str_eq i j then true else is_registered j m)
unfolding is_registered register
is_registered-register i j app [] = refl
is_registered-register i j app ((k, w) ∷ m) =
    ground (arith, eq_iff i j, eq_iff k i, eq_iff k j, is_registered-register i j app m)

pub is_registered-forget :
    (i j : String) (m : Sessions)
    → is_registered j (forget i m) ≡ (if str_eq i j then false else is_registered j m)
unfolding is_registered forget
is_registered-forget i j [] = ground arith
is_registered-forget i j ((k, w) ∷ m) =
    ground (arith, eq_iff i j, eq_iff k i, eq_iff k j, is_registered-forget i j m)
