-- ===== src/Transport/Pair/Distinct.antt =====
-- The roles of `DevicePair` in crates/iv-transport/src/lib.rs hold different instruments.
use kohdalab_iv.Common.Exec.{◌>>=◌, gets, modify, check}
use kohdalab_iv.Common.{
  ◌≡◌, ◌≢◌, refl, sym, ◌∙◌, inl, inr, String, false, not, ◌&&◌, Option, none, some, List, [], ◌∷◌,
  All, arith, Result, ok, err, Bool-cases, Result-cases, Option-cases,
}
use kohdalab_iv.Common.Text.{Text}
use kohdalab_iv.Transport.Instruments.{
  Role, source, source2, gate, meter, reference_meter, valid_model,
}
use kohdalab_iv.Transport.Resources.{ResourceKind, same_physical}
use kohdalab_iv.Transport.Fault.{Fault, unsupported_model, other_model}
use kohdalab_iv.Transport.Drivers.{is_adc_meter}
use kohdalab_iv.Transport.Resources.Symmetry.{same_physical-sym}
use kohdalab_iv.Transport.Pair.{Pair, Endpoint, Sessions, M, roles, same_role, slot, put_slot, new}
use kohdalab_iv.Transport.Pair.Connecting.{
  is_native_usb, preferred_kind, open_endpoint, claim_and_identify, attach, install, start_discard,
  check_other, check_others, connect_new, connect_kind, connect_preferred, connect_model,
  is_other_model,
}
use kohdalab_iv.Transport.Pair.Disconnecting
use kohdalab_iv.Transport.Pair.Disconnecting.{
  brief, stop_adc, is_adc_meter_role, stop_meter, end_discard, clear_role, close_session, detach,
  other_roles, leave,
}
use kohdalab_iv.Transport.Pair.Kinds.{
  kind_at, same_role_sound, slot-same, Shrunk, Shrunk-same, Joined, Joined-put, Shrinks,
  Shrinks-gets, Shrinks-check, Joins, Joins-bind,
}
use kohdalab_iv.Transport.Pair.Kinds.Released.{disconnect-Shrinks}
use kohdalab_iv.Transport.Pair.Kinds.Kept.{
  preferred_kind-Shrinks, open_endpoint-Shrinks, claim_and_identify-Shrinks,
}

-- No two roles hold the same instrument.
abbrev pub Distinct : {W : Type 0} → Pair W → Type 0
Distinct p =
    (role role' : Role) (kind kind' : ResourceKind)
    → role ≢ role'
    → kind_at role p ≡ some kind
    → kind_at role' p ≡ some kind'
    → same_physical kind kind' ≡ false

pick : (P : Role → Type 0) → All P roles → (role : Role) → P role
pick P h source = h.0
pick P h source2 = h.1.0
pick P h gate = h.1.1.0
pick P h meter = h.1.1.1.0
pick P h reference_meter = h.1.1.1.1.0

-- Another role than `role` has no instrument of this kind.
abbrev Differs : {W : Type 0} → Role → ResourceKind → Pair W → Role → Type 0
Differs role kind p existing =
    existing ≢ role
    → (other : ResourceKind) → kind_at existing p ≡ some other
    → same_physical kind other ≡ false

module _ {W L : Type 0} (x : Sessions W L) where
  check_other_sound :
      (kind : ResourceKind) (found : Option ResourceKind) (other : ResourceKind)
      → check_other x kind found ≡ ok tt
      → found ≡ some other
      → same_physical kind other ≡ false
  unfolding check_other
  check_other_sound kind none other h q = absurd (ground arith)
  check_other_sound kind (some found) other h q = ground arith

  check_others_sound :
      (role : Role) (kind : ResourceKind) (rs : List Role) (p : Pair W)
      → check_others x role kind rs p ≡ ok tt
      → All (Differs role kind p) rs
  unfolding check_others
  check_others_sound role kind [] p h = tt
  check_others_sound role kind (existing ∷ rest) p h = elim (Bool-cases (same_role existing role)) [
    | inl same ↦ (
      (λ different other q. absurd (different (same_role_sound existing role same))),
      check_others_sound role kind rest p (ground arith),
    )
    | inr differs ↦ elim (Result-cases (check_other x kind (kind_at existing p))) [
      | inr (e, r) ↦ absurd (ground arith)
      | inl (u, r) ↦ (
        (λ different other q. check_other_sound kind (kind_at existing p) other r q),
        check_others_sound role kind rest p (ground arith),
      )
    ]
  ]

  Distinct-Shrunk : (p p' : Pair W) → Distinct p → Shrunk p p' → Distinct p'
  Distinct-Shrunk p p' d h role role' kind kind' ne q q' =
      d role role' kind kind' ne (h role kind q) (h role' kind' q')

  Distinct-Joined :
      (role : Role) (kind : ResourceKind) (p p' : Pair W)
      → Distinct p
      → Joined role kind p p'
      → check_others x role kind roles p ≡ ok tt
      → Distinct p'
  Distinct-Joined role kind p p' d joined checked r r' k k' ne q q' =
      let others = pick (Differs role kind p) (check_others_sound role kind roles p checked) in
      elim (joined r k q) [
        | inl held ↦ elim (joined r' k' q') [
          | inl held' ↦ d r r' k k' ne held held'
          | inr (same', now') ↦
              let apart = others r (λ same. ne (same ∙ same')) k held in same_physical-sym k k' ∙ cc
        ]
        | inr (same, now) ↦ elim (joined r' k' q') [
          | inl held' ↦ let apart = others r' (λ same'. ne (sym same ∙ sym same')) k' held' in cc
          | inr (same', now') ↦ absurd (ne (sym same ∙ same'))
        ]
      ]

  pub start_discard-slot :
      (role role' : Role) (model : String) (p : Pair W)
      → slot role' (start_discard x role model p) ≡ slot role' p
  unfolding start_discard
  start_discard-slot source role' model p = refl
  start_discard-slot source2 role' model p = refl
  start_discard-slot gate role' model p = refl
  start_discard-slot meter role' model p = slot-same role' p _ refl refl refl refl refl
  start_discard-slot reference_meter role' model p = slot-same role' p _ refl refl refl refl refl

  install-Joins :
      (role : Role) (kind : ResourceKind) (e : Endpoint) (model : String) (identity : Text)
      → Joins role kind (modify (install x role kind e model identity))
  unfolding install
  install-Joins role kind e model identity = record {
    joined = λ p.
        let s = record (slot role p) {
          identity = identity;
          model = model;
          kind = some kind;
          endpoint = some e;
        } in
        let put = put_slot role s p in
        let p' = install x role kind e model identity p in
        λ role' kind' now. Joined-put role kind s p refl role' kind' (
          Shrunk-same put p'
            (λ r.
              slot-same r (start_discard x role model put) p' refl refl refl refl refl
              ∙ start_discard-slot role r model put)
            role' kind' now);
  }

  attach-Joins :
      (role : Role) (name : Text) (model : String) (kind : ResourceKind)
      → Joins role kind (attach x role name model kind)
  unfolding attach
  attach-Joins role name model kind =
      Joins-bind role kind (open_endpoint x name kind) _ (open_endpoint-Shrinks x name kind) (λ e.
        Joins-bind role kind (claim_and_identify x e role model) _
          (claim_and_identify-Shrinks x e role model)
          (λ identity. install-Joins role kind e model identity))

  connect_new-Distinct :
      (role : Role) (name : Text) (model : String) (kind : ResourceKind) (p : Pair W)
      → Distinct p
      → Distinct (connect_new x role name model kind p).0
  unfolding connect_new
  connect_new-Distinct role name model kind p d =
      elim (Result-cases (check_others x role kind roles p)) [
        | inr (e, r) ↦ rw (r, connect_new) d
        | inl (u, r) ↦
            rw (r, connect_new)
              (Distinct-Joined role kind p (attach x role name model kind p).0 d
                ((attach-Joins role name model kind).joined p) r)
      ]

  connect_kind-Distinct :
      (role : Role) (name : Text) (model : String) (kind : ResourceKind) (p : Pair W)
      → Distinct p
      → Distinct (connect_kind x role name model kind p).0
  unfolding connect_kind
  connect_kind-Distinct role name model kind p d = elim (Option-cases (slot role p).kind) [
    | inl q ↦ rw (q, connect_kind) (connect_new-Distinct role name model kind p d)
    | inr (current, q) ↦
        rw (q, connect_kind)
          (elim (Bool-cases (same_physical current kind)) [
            | inl same ↦ rw same d
            | inr other ↦ rw other d
          ])
  ]

  connect_preferred-Distinct :
      (role : Role) (name : Text) (model : String) (kind : ResourceKind) (p : Pair W)
      → Distinct p
      → Distinct (connect_preferred x role name model kind p).0
  unfolding connect_preferred
  connect_preferred-Distinct role name model kind p d =
      elim (Bool-cases (is_adc_meter model && is_native_usb kind)) [
        | inl refused ↦ rw (refused, connect_preferred) d
        | inr fine ↦ rw (fine, connect_preferred) (connect_kind-Distinct role name model kind p d)
      ]

  -- An action that keeps the instruments of the roles different.
  record Keeps {A : Type 0} (m : M W A) : Type 0 where
    keeps : (p : Pair W) → Distinct p → Distinct (m p).0

  Keeps-bind :
      {A B : Type 0} (m : M W A) (f : A → M W B)
      → Shrinks m
      → ((a : A) → Keeps (f a))
      → Keeps (m >>= f)
  Keeps-bind {A} {B} m f h each = record { keeps = λ p d. by_result p (m p).1 (kept p d) }
    where
      kept : (p : Pair W) → Distinct p → Distinct (m p).0
      kept p d = Distinct-Shrunk p (m p).0 d (h.shrunk p)

      by_result :
          (p : Pair W) (r : Result A Fault)
          → Distinct (m p).0
          → Distinct
              (elim r as (λ _. Pair W × Result B Fault) [
                | ok a ↦ f a (m p).0
                | err e ↦ ((m p).0, err e)
              ]).0
      by_result p (ok a) d = (each a).keeps (m p).0 d
      by_result p (err e) d = d

  connect_model-Keeps :
      (role : Role) (name : Text) (model : String) → Keeps (connect_model x role name model)
  unfolding connect_model
  connect_model-Keeps role name model =
      Keeps-bind (check (valid_model role model) unsupported_model) _
        (Shrinks-check (valid_model role model) unsupported_model)
        (λ _.
          Keeps-bind (gets (is_other_model x role model)) _
            (Shrinks-gets (is_other_model x role model))
            (λ changed.
              Keeps-bind (check (not changed) other_model) _
                (Shrinks-check (not changed) other_model)
                (λ _.
                  Keeps-bind (preferred_kind x name)
                    (λ kind. connect_preferred x role name model kind)
                    (preferred_kind-Shrinks x name)
                    (λ kind. record { keeps = connect_preferred-Distinct role name model kind }))))

-- What is done with the connections of a pair.
pub data Change : Type 0 where
  connect : Role → Text → String → Change
  disconnect : Role → Change

module _ {W L : Type 0} (x : Sessions W L) where
  abbrev pub apply : Change → Pair W → Pair W
  apply (connect role name model) p = (connect_model x role name model p).0
  apply (disconnect role) p = (Disconnecting.disconnect x role p).0

  abbrev pub run : List Change → Pair W → Pair W
  run [] p = p
  run (c ∷ cs) p = run cs (apply c p)

  run-Distinct : (cs : List Change) (p : Pair W) → Distinct p → Distinct (run cs p)
  run-Distinct [] p d = d
  run-Distinct (connect role name model ∷ cs) p d =
      run-Distinct cs _ ((connect_model-Keeps x role name model).keeps p d)
  run-Distinct (disconnect role ∷ cs) p d =
      run-Distinct cs _ (Distinct-Shrunk x p _ d ((disconnect-Shrinks x role).shrunk p))

  new-empty : (role : Role) (kind : ResourceKind) (w : W) → kind_at role (new w) ≢ some kind
  unfolding new slot
  new-empty source kind w q = ground arith
  new-empty source2 kind w q = ground arith
  new-empty gate kind w q = ground arith
  new-empty meter kind w q = ground arith
  new-empty reference_meter kind w q = ground arith

  -- Whatever is connected and disconnected from the start, with success or without, no two roles
  -- hold the same instrument.
  pub run-new-Distinct : (cs : List Change) (w : W) → Distinct (run cs (new w))
  run-new-Distinct cs w = run-Distinct cs (new w) (λ r r' k k' ne q q'. absurd (new-empty r k w q))
