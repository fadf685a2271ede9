-- ===== src/Transport/Pair/Accepted.antt =====
-- What a successful connection of crates/iv-transport/src/lib.rs gives.
use kohdalab_iv.Common.{
  ◌≡◌, refl, ap, subst, ◌∙◌, inl, inr, String, true, none, some, arith, Result, ok, Result-cases,
  Option-cases,
}
use kohdalab_iv.Common.Text.{Text}
use kohdalab_iv.Transport.Instruments.{Role, source, source2, gate, meter, reference_meter}
use kohdalab_iv.Transport.Identity.{verify_model}
use kohdalab_iv.Transport.Resources.{ResourceKind}
use kohdalab_iv.Transport.Fault.{Fault}
use kohdalab_iv.Transport.Drivers.{identify}
use kohdalab_iv.Transport.Pair.{
  Pair, Slot, Endpoint, Sessions, M, roles, same_role, slot, put_slot, in_world,
}
use kohdalab_iv.Transport.Pair.Endpoints.{io_of}
use kohdalab_iv.Transport.Pair.Connecting.{
  preferred_kind, open_endpoint, identify_endpoint, on_error, accept_identity, reject,
  drop_endpoint, claim_and_identify, start_discard, install, attach, check_others, connect_new,
  connect_kind, connect_preferred, connect_model,
}
use kohdalab_iv.Transport.Pair.Kinds.{kind_at, slot-same, slot-put_slot_same}
use kohdalab_iv.Transport.Pair.Kinds.Kept.{preferred_kind-Shrinks}
use kohdalab_iv.Transport.Pair.Distinct.{start_discard-slot}

-- The role is connected to an instrument whose identity passed for the model.
pub record Accepted {W : Type 0} (role : Role) (model : String) (p : Pair W) : Type 0 where
  pub as_model : (slot role p).model ≡ model
  pub connected : (e : Endpoint) × ((slot role p).endpoint ≡ some e)
  pub passed : verify_model role model (slot role p).identity ≡ ok tt
  pub usable : p.is_usable ≡ true

module _ {W L : Type 0} (x : Sessions W L) where
  identify_endpoint-passed :
      (e : Endpoint) (role : Role) (model : String) (p : Pair W) (identity : Text)
      → (identify_endpoint x e role model p).1 ≡ ok identity
      → verify_model role model identity ≡ ok tt
  unfolding identify_endpoint
  identify_endpoint-passed e role model p identity h =
      elim (Result-cases (identify (io_of x e) role model p.world).1) [
        | inr (e', r) ↦ absurd (ground arith)
        | inl (text, r) ↦ elim (Result-cases (verify_model role model text)) [
          | inr (e', q) ↦ absurd (ground arith)
          | inl (u, q) ↦ ground arith
        ]
      ]

  on_error-ok :
      {A : Type 0} (m : M W A) (clean : M W (Unit {0})) (p : Pair W) (a : A)
      → (on_error x m clean p).1 ≡ ok a
      → (m p).1 ≡ ok a
  unfolding on_error
  on_error-ok m clean p a h = ground arith

  claim_and_identify-passed :
      (e : Endpoint) (role : Role) (model : String) (p : Pair W) (identity : Text)
      → (claim_and_identify x e role model p).1 ≡ ok identity
      → verify_model role model identity ≡ ok tt
  unfolding claim_and_identify accept_identity
  claim_and_identify-passed e role model p identity h =
      let claimed = in_world (x.claim e.session e.address role model) p in
      let both = on_error-ok _ (drop_endpoint x e) p identity h in
      elim (Result-cases claimed.1) [
        | inr (e', r) ↦ absurd (ground arith)
        | inl (u, r) ↦ identify_endpoint-passed e role model claimed.0 identity (
            on_error-ok (identify_endpoint x e role model) (reject x e) claimed.0 identity
              (ground arith))
      ]

  same_role_refl : (role : Role) → same_role role role ≡ true
  unfolding same_role
  same_role_refl source = refl
  same_role_refl source2 = refl
  same_role_refl gate = refl
  same_role_refl meter = refl
  same_role_refl reference_meter = refl

  install-Accepted :
      (role : Role) (kind : ResourceKind) (e : Endpoint) (model : String) (identity : Text)
      (p : Pair W)
      → verify_model role model identity ≡ ok tt
      → Accepted role model (install x role kind e model identity p)
  unfolding install
  install-Accepted role kind e model identity p passed =
      let s : Slot = record (slot role p) {
        identity = identity;
        model = model;
        kind = some kind;
        endpoint = some e;
      } in
      let put = put_slot role s p in
      let there : slot role (install x role kind e model identity p) ≡ s =
        slot-same role (start_discard x role model put) (install x role kind e model identity p)
          refl refl refl refl refl
        ∙ start_discard-slot x role role model put
        ∙ slot-put_slot_same role role s p (same_role_refl role) in
      record {
        as_model = ap (λ (s : Slot). s.model) there;
        connected = (e, ap (λ (s : Slot). s.endpoint) there);
        passed = ap (λ (s : Slot). verify_model role model s.identity) there ∙ passed;
        usable = refl;
      }

  attach-Accepted :
      (role : Role) (name : Text) (model : String) (kind : ResourceKind) (p : Pair W)
      → (attach x role name model kind p).1 ≡ ok tt
      → Accepted role model (attach x role name model kind p).0
  unfolding attach
  attach-Accepted role name model kind p h = elim (Result-cases (open_endpoint x name kind p).1) [
    | inr (e', r) ↦ absurd (ground arith)
    | inl (e, r) ↦
        let p₁ = (open_endpoint x name kind p).0 in
        elim (Result-cases (claim_and_identify x e role model p₁).1) [
          | inr (e', q) ↦ absurd (ground arith)
          | inl (identity, q) ↦
              let installed : install x role kind e model identity
                    (claim_and_identify x e role model p₁).0
                  ≡ (attach x role name model kind p).0 =
                ground arith in
              subst (λ (p' : Pair W). Accepted role model p') installed
                (install-Accepted role kind e model identity
                  (claim_and_identify x e role model p₁).0
                  (claim_and_identify-passed e role model p₁ identity q))
        ]
  ]

  connect_kind-Accepted :
      (role : Role) (name : Text) (model : String) (kind : ResourceKind) (p : Pair W)
      → kind_at role p ≡ none
      → (connect_kind x role name model kind p).1 ≡ ok tt
      → Accepted role model (connect_kind x role name model kind p).0
  unfolding connect_kind connect_new
  connect_kind-Accepted role name model kind p empty h =
      elim (Result-cases (check_others x role kind roles p)) [
        | inr (e, r) ↦ absurd (ground arith)
        | inl (u, r) ↦
            let attached : attach x role name model kind p ≡ connect_kind x role name model kind p =
              ground arith in
            subst (λ (m : Pair W × Result (Unit {0}) Fault). Accepted role model m.0) attached
              (attach-Accepted role name model kind p
                (ap (λ (m : Pair W × Result (Unit {0}) Fault). m.1) attached ∙ h))
      ]

  still_empty :
      (role : Role) (name : Text) (p : Pair W)
      → kind_at role p ≡ none
      → kind_at role (preferred_kind x name p).0 ≡ none
  still_empty role name p empty = elim (Option-cases (kind_at role (preferred_kind x name p).0)) [
    | inl q ↦ q
    | inr (kind, q) ↦ absurd (ground (arith, (preferred_kind-Shrinks x name).shrunk p role kind q))
  ]

  -- A role without an instrument that is connected with success holds an instrument whose identity
  -- passed for the model that was asked for, and the pair is usable, even if it was not before.
  pub connect_model-Accepted :
      (role : Role) (name : Text) (model : String) (p : Pair W)
      → kind_at role p ≡ none
      → (connect_model x role name model p).1 ≡ ok tt
      → Accepted role model (connect_model x role name model p).0
  unfolding connect_model connect_preferred
  connect_model-Accepted role name model p empty h =
      let preferred = preferred_kind x name p in
      elim (Result-cases preferred.1) [
        | inr (e, r) ↦ absurd (ground arith)
        | inl (kind, r) ↦
            let chosen : connect_kind x role name model kind preferred.0
                ≡ connect_model x role name model p =
              ground arith in
            subst (λ (m : Pair W × Result (Unit {0}) Fault). Accepted role model m.0) chosen
              (connect_kind-Accepted role name model kind preferred.0
                (still_empty role name p empty)
                (ap (λ (m : Pair W × Result (Unit {0}) Fault). m.1) chosen ∙ h))
      ]
