-- ===== src/Common/Runs.antt =====
-- What a run of an action shows: of the state that it ends in, and of what it leaves unchanged.
use mathlib.Core.Bool.{Bool, true, false}
use mathlib.Core.Path.{◌≡◌, refl, ap, ◌∙◌, subst}
use native.Mathlib.Omega.{arith}
use kohdalab_iv.Common.Tests.{if◌then◌else◌}
use kohdalab_iv.Common.Results.{Result, ok, err}
use kohdalab_iv.Common.Exec.{Exec, ◌>>=◌, ◌>>◌, pure, fail, gets, lift, check}

module _ {S E A : Type 0} where
  -- A run from `s` that succeeds ends in a state and a value with `P`.
  pub record Ends (P : S → A → Type 0) (m : Exec S E A) (s : S) : Type 0 where
    pub ended : (s' : S) (a : A) → m s ≡ (s', ok a) → P s' a

  -- No run changes `f` of the state.
  pub record Keeps {X : Type 0} (f : S → X) (m : Exec S E A) : Type 0 where
    pub kept : (s : S) → f (m s).0 ≡ f s

  pub Keeps-pure : {X : Type 0} (f : S → X) (a : A) → Keeps f (pure {S = S} {E = E} a)
  Keeps-pure f a = record { kept = λ s. refl }

  pub Keeps-fail : {X : Type 0} (f : S → X) (e : E) → Keeps f (fail {S = S} {E = E} {A = A} e)
  Keeps-fail f e = record { kept = λ s. refl }

  pub Keeps-gets : {X : Type 0} (f : S → X) (g : S → A) → Keeps f (gets {S = S} {E = E} g)
  Keeps-gets f g = record { kept = λ s. refl }

  pub Keeps-if :
      {X : Type 0} (f : S → X) (test : Bool) {m m' : Exec S E A}
      → Keeps f m
      → Keeps f m'
      → Keeps f (if test then m else m')
  Keeps-if f true h h' = h
  Keeps-if f false h h' = h'

  pub Ends-if :
      {P : S → A → Type 0} (test : Bool) {m m' : Exec S E A} {s : S}
      → Ends P m s
      → Ends P m' s
      → Ends P (if test then m else m') s
  Ends-if true h h' = h
  Ends-if false h h' = h'

module _ {S E A B : Type 0} where
  bind-kept :
      {X : Type 0} (f : S → X) (z : S × Result A E) (k : A → Exec S E B)
      → ((a : A) → Keeps f (k a))
      → f (elim z.1 as (λ _. S × Result B E) [ ok a ↦ k a z.0 | err e ↦ (z.0, err e) ]).0 ≡ f z.0
  bind-kept f (s, ok a) k each = (each a).kept s
  bind-kept f (s, err e) k each = refl

  pub Keeps-bind :
      {X : Type 0} (f : S → X) (m : Exec S E A) (k : A → Exec S E B)
      → Keeps f m
      → ((a : A) → Keeps f (k a))
      → Keeps f (m >>= k)
  Keeps-bind f m k h each = record { kept = λ s. bind-kept f (m s) k each ∙ h.kept s }

  bind-ended :
      (P : S → B → Type 0) (z : S × Result A E) (k : A → Exec S E B)
      → ((s' : S) (a : A) → z ≡ (s', ok a) → Ends P (k a) s')
      → (s' : S) (b : B)
      → elim z.1 as (λ _. S × Result B E) [ ok a ↦ k a z.0 | err e ↦ (z.0, err e) ] ≡ (s', ok b)
      → P s' b
  bind-ended P (s, ok a) k each s' b h = (each s a refl).ended s' b h
  bind-ended P (s, err e) k each s' b h = absurd (ground arith)

  pub Ends-bind :
      {P : S → B → Type 0} (m : Exec S E A) (k : A → Exec S E B) (s : S)
      → ((s' : S) (a : A) → m s ≡ (s', ok a) → Ends P (k a) s')
      → Ends P (m >>= k) s
  Ends-bind {P} m k s each = record { ended = bind-ended P (m s) k each }

pub lift-ok :
    {S E A : Type 0} (r : Result A E) (s s' : S) (a : A)
    → lift r s ≡ (s', ok a)
    → (r ≡ ok a) × (s ≡ s')
lift-ok r s s' a h = (ap (λ z. z.1) h, ap (λ z. z.0) h)

pub check-ok :
    {S E : Type 0} (test : Bool) (e : E) (s s' : S)
    → check test e s ≡ (s', ok tt)
    → (test ≡ true) × (s ≡ s')
check-ok true e s s' h = (refl, ap (λ z. z.0) h)
check-ok false e s s' h = absurd (ground arith)

module _ {S E : Type 0} where
  -- The steps that do not change the state.
  pub Ends-gets :
      {A B : Type 0} {P : S → B → Type 0} (g : S → A) (k : A → Exec S E B) (s : S)
      → Ends P (k (g s)) s
      → Ends P (gets g >>= k) s
  Ends-gets g k s h = record { ended = h.ended }

  lift-ended :
      {A B : Type 0} (P : S → B → Type 0) (r : Result A E) (k : A → Exec S E B) (s : S)
      → ((a : A) → r ≡ ok a → Ends P (k a) s)
      → (s' : S) (b : B) → (lift r >>= k) s ≡ (s', ok b)
      → P s' b
  lift-ended P (ok a) k s each s' b h = (each a refl).ended s' b h
  lift-ended P (err e) k s each s' b h = absurd (ground arith)

  pub Ends-lift :
      {A B : Type 0} {P : S → B → Type 0} (r : Result A E) (k : A → Exec S E B) (s : S)
      → ((a : A) → r ≡ ok a → Ends P (k a) s)
      → Ends P (lift r >>= k) s
  Ends-lift {P = P} r k s each = record { ended = lift-ended P r k s each }

  lifted-ended :
      {B : Type 0} (P : S → B → Type 0) (r : Result (Unit {0}) E) (k : Exec S E B) (s : S)
      → Ends P k s
      → (s' : S) (b : B) → (lift r >> k) s ≡ (s', ok b)
      → P s' b
  lifted-ended P (ok a) k s rest s' b h = rest.ended s' b h
  lifted-ended P (err e) k s rest s' b h = absurd (ground arith)

  pub Ends-lifted :
      {B : Type 0} {P : S → B → Type 0} (r : Result (Unit {0}) E) (k : Exec S E B) (s : S)
      → Ends P k s
      → Ends P (lift r >> k) s
  Ends-lifted {P = P} r k s rest = record { ended = lifted-ended P r k s rest }

  check-ended :
      {B : Type 0} (P : S → B → Type 0) (test : Bool) (e : E) (k : Exec S E B) (s : S)
      → (test ≡ true → Ends P k s)
      → (s' : S) (b : B) → (check test e >> k) s ≡ (s', ok b)
      → P s' b
  check-ended P true e k s each s' b h = (each refl).ended s' b h
  check-ended P false e k s each s' b h = absurd (ground arith)

  pub Ends-check :
      {B : Type 0} {P : S → B → Type 0} (test : Bool) (e : E) (k : Exec S E B) (s : S)
      → (test ≡ true → Ends P k s)
      → Ends P (check test e >> k) s
  Ends-check {P = P} test e k s each = record { ended = check-ended P test e k s each }

  -- A value that was given, at the end.
  pub Ends-last :
      {A : Type 0} {P : S → A → Type 0} (r : Result A E) (s : S)
      → ((a : A) → r ≡ ok a → P s a)
      → Ends P (lift r) s
  Ends-last {P = P} r s each = record {
    ended =
        λ s' a h. let (given, same) = lift-ok r s s' a h in subst (λ v. P v a) same (each a given);
  }

  pub Ends-checked :
      {P : S → Unit {0} → Type 0} (test : Bool) (e : E) (s : S)
      → (test ≡ true → P s tt)
      → Ends P (check test e) s
  Ends-checked {P = P} test e s each = record {
    ended = λ s' a h.
        let (given, same) = check-ok test e s s' h in subst (λ v. P v tt) same (each given);
  }

  pub Ends-pure :
      {A : Type 0} {P : S → A → Type 0} (a : A) (s : S) → P s a → Ends P (pure {E = E} a) s
  Ends-pure {A = A} {P = P} a s h = record {
    ended = λ s' a' q.
        subst
          (λ (z : S × Result A E). elim z.1 as (λ _. Type 0) [ ok b ↦ P z.0 b | err e ↦ Unit {0} ])
          q h;
  }
