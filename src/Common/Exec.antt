-- ===== src/Common/Exec.antt =====
-- Actions over a state `S` that may fail with an `E`: what was done before a failure stays done.
use mathlib.Core.Bool.{Bool, true, false}
use mathlib.Core.Path.{◌≡◌, ap}
use kohdalab_iv.Common.Results.{Result, ok, err}

abbrev pub Exec : Type 0 → Type 0 → Type 0 → Type 0
Exec S E A = S → S × Result A E

infixl 5 ◌>>=◌ ◌>>◌
abbrev pub ◌>>=◌ : {S E A B : Type 0} → Exec S E A → (A → Exec S E B) → Exec S E B
◌>>=◌ m f s = let (s', r) = m s in elim r [ ok a ↦ f a s' | err e ↦ (s', err e) ]

abbrev pub ◌>>◌ : {S E B : Type 0} → Exec S E (Unit {0}) → Exec S E B → Exec S E B
m >> k = m >>= λ _. k

abbrev pub pure : {S E A : Type 0} → A → Exec S E A
pure a s = (s, ok a)

abbrev pub fail : {S E A : Type 0} → E → Exec S E A
fail e s = (s, err e)

abbrev pub lift : {S E A : Type 0} → Result A E → Exec S E A
lift r s = (s, r)

abbrev pub gets : {S E A : Type 0} → (S → A) → Exec S E A
gets f s = (s, ok (f s))

abbrev pub modify : {S E : Type 0} → (S → S) → Exec S E (Unit {0})
modify f s = (f s, ok tt)

-- `if !test { return Err(e) }`.
abbrev pub check : {S E : Type 0} → Bool → E → Exec S E (Unit {0})
check true e s = (s, ok tt)
check false e s = (s, err e)

-- An action that fails ends the sequence.
pub err-bind :
    {S E A B : Type 0} (m : Exec S E A) (f : A → Exec S E B) {s s' : S} {e : E}
    → m s ≡ (s', err e)
    → (m >>= f) s ≡ (s', err e)
err-bind {S} {E} {A} {B} m f h =
    ap
      (λ (z : S × Result A E). elim z.1 as (λ _. S × Result B E) [
        | ok a ↦ f a z.0
        | err e ↦ (z.0, err e)
      ])
      h
