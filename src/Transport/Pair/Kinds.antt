-- ===== src/Transport/Pair/Kinds.antt =====
-- Which instruments the roles of `DevicePair` in crates/iv-transport/src/lib.rs hold.
pub mod Kept
pub mod Released
use kohdalab_iv.Common.Exec.{Exec, ◌>>=◌, lift, gets, check}
use kohdalab_iv.Common.{
  ℕ, ◌+◌, ◌≡◌, ◌≢◌, refl, sym, ap, subst, ◌∙◌, ◌⊎◌, inl, inr, Bool, true, false, Option, none, some,
  if◌then◌else◌, arith, Result, ok, err, Bool-cases, Result-cases, Option-cases,
}
use kohdalab_iv.Transport.Instruments.{Role, source, source2, gate, meter, reference_meter}
use kohdalab_iv.Transport.Resources.{ResourceKind}
use kohdalab_iv.Transport.Fault.{Fault}
use kohdalab_iv.Transport.Pair.{Pair, Slot, M, same_role, slot, put_slot, in_world}

pub same_role_sound : (r r' : Role) → same_role r r' ≡ true → r ≡ r'
unfolding same_role
same_role_sound source source h = refl
same_role_sound source source2 h = absurd (ground arith)
same_role_sound source gate h = absurd (ground arith)
same_role_sound source meter h = absurd (ground arith)
same_role_sound source reference_meter h = absurd (ground arith)
same_role_sound source2 source h = absurd (ground arith)
same_role_sound source2 source2 h = refl
same_role_sound source2 gate h = absurd (ground arith)
same_role_sound source2 meter h = absurd (ground arith)
same_role_sound source2 reference_meter h = absurd (ground arith)
same_role_sound gate source h = absurd (ground arith)
same_role_sound gate source2 h = absurd (ground arith)
same_role_sound gate gate h = refl
same_role_sound gate meter h = absurd (ground arith)
same_role_sound gate reference_meter h = absurd (ground arith)
same_role_sound meter source h = absurd (ground arith)
same_role_sound meter source2 h = absurd (ground arith)
same_role_sound meter gate h = absurd (ground arith)
same_role_sound meter meter h = refl
same_role_sound meter reference_meter h = absurd (ground arith)
same_role_sound reference_meter source h = absurd (ground arith)
same_role_sound reference_meter source2 h = absurd (ground arith)
same_role_sound reference_meter gate h = absurd (ground arith)
same_role_sound reference_meter meter h = absurd (ground arith)
same_role_sound reference_meter reference_meter h = refl

module _ {W : Type 0} where
  abbrev pub kind_at : Role → Pair W → Option ResourceKind
  kind_at role p = (slot role p).kind

  -- A pair with the same slots.
  pub slot-same :
      (role : Role) (p p' : Pair W)
      → p'.source_slot ≡ p.source_slot
      → p'.source2_slot ≡ p.source2_slot
      → p'.gate_slot ≡ p.gate_slot
      → p'.meter_slot ≡ p.meter_slot
      → p'.reference_slot ≡ p.reference_slot
      → slot role p' ≡ slot role p
  unfolding slot
  slot-same source p p' s s2 g m r = s
  slot-same source2 p p' s s2 g m r = s2
  slot-same gate p p' s s2 g m r = g
  slot-same meter p p' s s2 g m r = m
  slot-same reference_meter p p' s s2 g m r = r

  pub slot-put_slot :
      (role role' : Role) (s : Slot) (p : Pair W)
      → slot role' (put_slot role s p) ≡ (if same_role role role' then s else slot role' p)
  unfolding slot put_slot same_role
  slot-put_slot source source s p = refl
  slot-put_slot source source2 s p = refl
  slot-put_slot source gate s p = refl
  slot-put_slot source meter s p = refl
  slot-put_slot source reference_meter s p = refl
  slot-put_slot source2 source s p = refl
  slot-put_slot source2 source2 s p = refl
  slot-put_slot source2 gate s p = refl
  slot-put_slot source2 meter s p = refl
  slot-put_slot source2 reference_meter s p = refl
  slot-put_slot gate source s p = refl
  slot-put_slot gate source2 s p = refl
  slot-put_slot gate gate s p = refl
  slot-put_slot gate meter s p = refl
  slot-put_slot gate reference_meter s p = refl
  slot-put_slot meter source s p = refl
  slot-put_slot meter source2 s p = refl
  slot-put_slot meter gate s p = refl
  slot-put_slot meter meter s p = refl
  slot-put_slot meter reference_meter s p = refl
  slot-put_slot reference_meter source s p = refl
  slot-put_slot reference_meter source2 s p = refl
  slot-put_slot reference_meter gate s p = refl
  slot-put_slot reference_meter meter s p = refl
  slot-put_slot reference_meter reference_meter s p = refl

  pub slot-put_slot_same :
      (role role' : Role) (s : Slot) (p : Pair W)
      → same_role role role' ≡ true
      → slot role' (put_slot role s p) ≡ s
  slot-put_slot_same role role' s p same =
      slot-put_slot role role' s p ∙ ap (λ (b : Bool). if b then s else slot role' p) same

  slot-put_slot_other :
      (role role' : Role) (s : Slot) (p : Pair W)
      → same_role role role' ≡ false
      → slot role' (put_slot role s p) ≡ slot role' p
  slot-put_slot_other role role' s p other =
      slot-put_slot role role' s p ∙ ap (λ (b : Bool). if b then s else slot role' p) other

  -- Every role that has an instrument in `p'` has it in `p`.
  abbrev pub Shrunk : Pair W → Pair W → Type 0
  Shrunk p p' =
      (role : Role) (kind : ResourceKind) → kind_at role p' ≡ some kind → kind_at role p ≡ some kind

  pub Shrunk-same : (p p' : Pair W) → ((role : Role) → slot role p' ≡ slot role p) → Shrunk p p'
  Shrunk-same p p' same role kind h = ap (λ (s : Slot). s.kind) (sym (same role)) ∙ h

  pub Shrunk-put :
      (role : Role) (s : Slot) (p : Pair W)
      → ((kind : ResourceKind) → s.kind ≡ some kind → kind_at role p ≡ some kind)
      → Shrunk p (put_slot role s p)
  Shrunk-put role s p fewer role' kind h = elim (Bool-cases (same_role role role')) [
    | inl same ↦
        subst (λ (r : Role). kind_at r p ≡ some kind) (same_role_sound role role' same)
          (fewer kind
            (ap (λ (s : Slot). s.kind) (sym (slot-put_slot_same role role' s p same)) ∙ h))
    | inr other ↦ ap (λ (s : Slot). s.kind) (sym (slot-put_slot_other role role' s p other)) ∙ h
  ]

  -- `p'` has the instruments of `p`, and perhaps one more in a role.
  abbrev pub Joined : Role → ResourceKind → Pair W → Pair W → Type 0
  Joined role kind p p' =
      (role' : Role) (kind' : ResourceKind)
      → kind_at role' p' ≡ some kind'
      → (kind_at role' p ≡ some kind') ⊎ ((role ≡ role') × (some kind ≡ some kind'))

  pub Joined-put :
      (role : Role) (kind : ResourceKind) (s : Slot) (p : Pair W)
      → s.kind ≡ some kind
      → Joined role kind p (put_slot role s p)
  Joined-put role kind s p held role' kind' h = elim (Bool-cases (same_role role role')) [
    | inl same ↦ inr (
      same_role_sound role role' same,
      sym held ∙ ap (λ (s : Slot). s.kind) (sym (slot-put_slot_same role role' s p same)) ∙ h,
    )
    | inr other ↦
        inl (ap (λ (s : Slot). s.kind) (sym (slot-put_slot_other role role' s p other)) ∙ h)
  ]

  -- An action after which no role has an instrument that it had not.
  pub record Shrinks {A : Type 0} (m : M W A) : Type 0 where
    pub shrunk : (p : Pair W) → Shrunk p (m p).0

  pub Shrunk-world : (p : Pair W) (w : W) → Shrunk p (record p { world = w })
  Shrunk-world p w =
      Shrunk-same p (record p { world = w })
        (λ role. slot-same role p (record p { world = w }) refl refl refl refl refl)

  -- An action that changes the world only.
  pub Shrinks-world : {A : Type 0} (m : Exec W Fault A) → Shrinks (in_world m)
  Shrinks-world m = record { shrunk = λ p. Shrunk-world p (m p.world).0 }

  pub Shrinks-lift : {A : Type 0} (r : Result A Fault) → Shrinks (lift r)
  Shrinks-lift r = record { shrunk = λ p role kind h. h }

  pub Shrinks-gets : {A : Type 0} (f : Pair W → A) → Shrinks (gets f)
  Shrinks-gets f = record { shrunk = λ p role kind h. h }

  pub Shrinks-check : (b : Bool) (e : Fault) → Shrinks (check b e)
  Shrinks-check true e = record { shrunk = λ p role kind h. h }
  Shrinks-check false e = record { shrunk = λ p role kind h. h }

  pub Shrinks-if :
      {A : Type 0} (b : Bool) {m m' : M W A}
      → Shrinks m
      → Shrinks m'
      → Shrinks (if b then m else m')
  Shrinks-if true h k = h
  Shrinks-if false h k = k

  -- An action that is chosen by the pair.
  pub Shrinks-at :
      {A : Type 0} (f : Pair W → M W A) → ((p : Pair W) → Shrinks (f p)) → Shrinks (λ p. f p p)
  Shrinks-at f h = record { shrunk = λ p. (h p).shrunk p }

module _ {W A B : Type 0} where
  pub Shrinks-bind :
      (m : M W A) (f : A → M W B) → Shrinks m → ((a : A) → Shrinks (f a)) → Shrinks (m >>= f)
  Shrinks-bind m f h each = record { shrunk = λ p role kind. by_result p role kind (m p).1 }
    where
      by_result :
          (p : Pair W) (role : Role) (kind : ResourceKind) (r : Result A Fault)
          → kind_at role
              (elim r as (λ _. Pair W × Result B Fault) [
                | ok a ↦ f a (m p).0
                | err e ↦ ((m p).0, err e)
              ]).0
            ≡ some kind
          → kind_at role p ≡ some kind
      by_result p role kind (ok a) now =
          h.shrunk p role kind ((each a).shrunk (m p).0 role kind now)
      by_result p role kind (err e) now = h.shrunk p role kind now

module _ {W A : Type 0} where
  -- An action and its clean-up.
  pub Shrinks-after :
      (m : M W A) (clean : M W (Unit {0})) (p : Pair W)
      → Shrinks m
      → Shrinks clean
      → (r : Result A Fault)
      → Shrunk p
          (elim r as (λ _. Pair W × Result A Fault) [
            | ok a ↦ ((m p).0, ok a)
            | err e ↦ ((clean (m p).0).0, err e)
          ]).0
  Shrinks-after m clean p h k (ok a) role kind now = h.shrunk p role kind now
  Shrinks-after m clean p h k (err e) role kind now =
      h.shrunk p role kind (k.shrunk (m p).0 role kind now)

-- An action after which the pair may have one more instrument, in a role.
pub record Joins {W A : Type 0} (role : Role) (kind : ResourceKind) (m : M W A) : Type 0 where
  pub joined : (p : Pair W) → Joined role kind p (m p).0

module _ {W A B : Type 0} where
  pub Joins-bind :
      (role : Role) (kind : ResourceKind) (m : M W A) (f : A → M W B)
      → Shrinks m
      → ((a : A) → Joins role kind (f a))
      → Joins role kind (m >>= f)
  Joins-bind role kind m f h each = record {
    joined = λ p role' kind'. by_result p role' kind' (m p).1;
  }
    where
      by_result :
          (p : Pair W) (role' : Role) (kind' : ResourceKind) (r : Result A Fault)
          → kind_at role'
              (elim r as (λ _. Pair W × Result B Fault) [
                | ok a ↦ f a (m p).0
                | err e ↦ ((m p).0, err e)
              ]).0
            ≡ some kind'
          → (kind_at role' p ≡ some kind') ⊎ ((role ≡ role') × (some kind ≡ some kind'))
      by_result p role' kind' (ok a) now = elim ((each a).joined (m p).0 role' kind' now) [
        | inl held ↦ inl (h.shrunk p role' kind' held)
        | inr new ↦ inr new
      ]
      by_result p role' kind' (err e) now = inl (h.shrunk p role' kind' now)
