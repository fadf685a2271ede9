-- ===== src/Transport/Resources/Symmetry.antt =====
-- `same_physical` of crates/iv-transport/src/lib.rs does not depend on the order of the two names.
use kohdalab_iv.Common.{◌≡◌, refl, sym, ◌∙◌, [], ◌∷◌, arith}
use kohdalab_iv.Common.Text.{Text, text_eq}
use kohdalab_iv.Transport.Resources.{ResourceKind, visa, gpib, usb, same_native, same_physical}

text_eq-sym : (s t : Text) → text_eq s t ≡ text_eq t s
unfolding text_eq
text_eq-sym [] [] = refl
text_eq-sym [] (d ∷ t) = refl
text_eq-sym (c ∷ s) [] = refl
text_eq-sym (c ∷ s) (d ∷ t) = ground (arith, text_eq-sym s t)

same_physical-visa :
    (kind : ResourceKind) (name : Text) (native : ResourceKind)
    → same_physical kind (visa name native) ≡ same_physical kind native
unfolding same_physical same_native
same_physical-visa (visa own inner) name native = same_physical-visa inner name native
same_physical-visa (gpib own a) name native = refl
same_physical-visa (usb own serial v p) name native = refl

pub same_physical-sym : (a b : ResourceKind) → same_physical a b ≡ same_physical b a
unfolding same_physical same_native
same_physical-sym (visa name native) b =
    same_physical-sym native b ∙ sym (same_physical-visa b name native)
same_physical-sym (gpib own a) (visa name native) = same_physical-sym (gpib own a) native
same_physical-sym (gpib own a) (gpib name b) = ground arith
same_physical-sym (gpib own a) (usb name serial v p) = refl
same_physical-sym (usb own s v p) (visa name native) = same_physical-sym (usb own s v p) native
same_physical-sym (usb own s v p) (gpib name b) = refl
same_physical-sym (usb own s v p) (usb name t w q) = ground (arith, text_eq-sym s t)
