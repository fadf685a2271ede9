-- ===== src/Transport/Pair/Locked.antt =====
-- What follows a failed emergency shutdown of crates/iv-transport/src/lib.rs.
use kohdalab_iv.Common.Exec.{err-bind}
use kohdalab_iv.Common.{
  ℕ, ◌+◌, ◌≡◌, refl, ap, ◌∙◌, Bool-cases, ◌⊎◌, inl, inr, Bool, true, false, List, [], ◌∷◌, map, any,
  filter, arith, Result, ok, err,
}
use kohdalab_iv.Common.Text.{Text}
use kohdalab_iv.Common.Float.{Float}
use kohdalab_iv.Transport.Instruments.{Role, source, source2, is_source_role}
use kohdalab_iv.Transport.Fault.{Fault, unusable}
use kohdalab_iv.Transport.Pair.{Pair, Sessions, is_connected}
use kohdalab_iv.Transport.Pair.Endpoints.{
  ensure_usable, write_usable, write, query_usable, query_role,
}
use kohdalab_iv.Transport.Pair.Shutdown.{
  OutputOffReport, force_output_off_role, dispatch_all, settle, settle_all, connected_sources,
  mark_failed, force_sources_output_off,
}

abbrev pub is_err : {A B : Type 0} → B × Result A Fault → Bool
is_err (b, ok a) = false
is_err (b, err e) = true

module _ {W L F : Type 0} (x : Sessions W L) (f : Float F) (in_bounds : Text → Bool) where
  -- The pair refuses to write to any instrument and to query it, without any exchange.
  abbrev pub IsLocked : Pair W → Type 0
  IsLocked p =
      (role : Role) (command : Text)
      → (write x f in_bounds role command p ≡ (p, err unusable))
        × (query_role x f in_bounds role command p ≡ (p, err unusable))

  ensure_usable_fails : (p : Pair W) → p.is_usable ≡ false → ensure_usable x p ≡ (p, err unusable)
  unfolding ensure_usable
  ensure_usable_fails p h = ground arith

  unusable-IsLocked : (p : Pair W) → p.is_usable ≡ false → IsLocked p
  unfolding write query_role
  unusable-IsLocked p h role command = (
    err-bind (ensure_usable x) (λ _. write_usable x f in_bounds role command)
        (ensure_usable_fails p h),
    err-bind (ensure_usable x) (λ _. query_usable x f in_bounds role command)
        (ensure_usable_fails p h),
  )

  unusable_after :
      (role : Role) (p : Pair W) (e : Fault)
      → is_source_role role ≡ true
      → is_connected role p ≡ true
      → (force_output_off_role x role p).1 ≡ err e
      → (force_output_off_role x role p).0.is_usable ≡ false
  unfolding force_output_off_role mark_failed
  unusable_after role p e ours there failed = ground (arith)

  -- After a forced output-off of a connected source that fails, no instrument of the pair is written
  -- to or queried.
  pub force_output_off_role-IsLocked :
      (role : Role) (p : Pair W) (e : Fault)
      → is_source_role role ≡ true
      → is_connected role p ≡ true
      → (force_output_off_role x role p).1 ≡ err e
      → IsLocked (force_output_off_role x role p).0
  force_output_off_role-IsLocked role p e ours there failed =
      unusable-IsLocked _ (unusable_after role p e ours there failed)

  dispatch_all-roles :
      (rs : List Role) (deadline : ℕ) (p : Pair W)
      → map (λ (r : Role × Result (Unit {0}) Fault). r.0) (dispatch_all x rs deadline p).1 ≡ rs
  unfolding dispatch_all
  dispatch_all-roles [] deadline p = refl
  dispatch_all-roles (role ∷ rest) deadline p = ap (◌∷◌ role) (dispatch_all-roles rest deadline _)

  settle_all-results :
      (ds : List (Role × Result (Unit {0}) Fault)) (deadline : ℕ) (p : Pair W)
      → ((settle_all x ds deadline p).1 ≡ any is_err (settle_all x ds deadline p).2)
        × (map (λ (r : Role × Result OutputOffReport Fault). r.0) (settle_all x ds deadline p).2
            ≡ map (λ (r : Role × Result (Unit {0}) Fault). r.0) ds)
  unfolding settle_all any
  settle_all-results [] deadline p = (refl, refl)
  settle_all-results ((role, d) ∷ rest) deadline p =
      let (p₁, r) = settle x role d deadline p in
      let (flagged, named) = settle_all-results rest deadline p₁ in
      (ground arith, ap (◌∷◌ role) named)

  -- The two sources that are swept, the first one first, as far as they are connected.
  abbrev pub swept_sources : Pair W → List Role
  swept_sources p = filter (λ role. is_connected role p) (source ∷ source2 ∷ [])

  connected_sources-swept : (p : Pair W) → connected_sources x p ≡ swept_sources p
  unfolding filter
  connected_sources-swept p = elim (Bool-cases (is_connected source p)) [
    | inl first ↦ elim (Bool-cases (is_connected source2 p)) [
      | inl second ↦ ground arith
      | inr single ↦ ground arith
    ]
    | inr none_first ↦ elim (Bool-cases (is_connected source2 p)) [
      | inl second ↦ ground arith
      | inr single ↦ ground arith
    ]
  ]

  -- The shutdown of all sources reports on the first source and then on the second, on each if it
  -- is connected and never otherwise, and on no other role, so not on the gate; and if it failed
  -- for one of them, no instrument of the pair is written to or queried.
  pub force_sources_output_off-results :
      (p : Pair W)
      → (map (λ (r : Role × Result OutputOffReport Fault). r.0) (force_sources_output_off x p).1
          ≡ swept_sources p)
        × ((any is_err (force_sources_output_off x p).1 ≡ false)
            ⊎ IsLocked (force_sources_output_off x p).0)
  unfolding force_sources_output_off
  force_sources_output_off-results p =
      let deadline = x.now p.world + 28000000000 in
      let sent = dispatch_all x (connected_sources x p) deadline p in
      let done = settle_all x sent.1 deadline sent.0 in
      let (flagged, named) = settle_all-results sent.1 deadline sent.0 in
      (
        named ∙ dispatch_all-roles (connected_sources x p) deadline p ∙ connected_sources-swept p,
        elim (Bool-cases (any is_err done.2)) [
          | inr fine ↦ inl fine
          | inl failed ↦ inr (unusable-IsLocked _ (ground arith))
        ],
      )
