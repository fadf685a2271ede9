-- ===== src/Transport/Resources/Locks.antt =====
-- Which resources of crates/iv-transport/src/lib.rs share a lock.
use kohdalab_iv.Common.{ℕ, ◌≡◌, refl, true, ◌&&◌, ◌==◌, arith}
use kohdalab_iv.Common.Text.{Text, text_eq, text_eq_sound}
use kohdalab_iv.Transport.Resources.{
  ResourceKind, visa, gpib, usb, lock_key, same_native, same_physical,
}

same_parts :
    (left right : Text) (v w p q : ℕ)
    → (text_eq left right && (v == w && p == q)) ≡ true
    → (left ≡ right) × (v ≡ w) × (p ≡ q)
same_parts left right v w p q h =
    (text_eq_sound left right (ground arith), ground arith, ground arith)

usb_locks :
    (name name' left right : Text) (v w p q : ℕ)
    → left ≡ right
    → v ≡ w
    → p ≡ q
    → lock_key (usb name left v p) ≡ lock_key (usb name' right w q)
unfolding lock_key
usb_locks name name' left right v w p q same_serial same_vid same_pid = cc

same_native-lock_key :
    (this other : ResourceKind) → same_native this other ≡ true → lock_key this ≡ lock_key other
unfolding same_native lock_key
same_native-lock_key (visa own inner) (visa name native) h =
    same_native-lock_key (visa own inner) native h
same_native-lock_key (gpib own a) (visa name native) h = same_native-lock_key (gpib own a) native h
same_native-lock_key (usb own serial v p) (visa name native) h =
    same_native-lock_key (usb own serial v p) native h
same_native-lock_key (gpib _ left) (gpib _ right) h = refl
same_native-lock_key (usb name left v p) (usb name' right w q) h =
    let (serials, vids, pids) = same_parts left right v w p q h in
    usb_locks name name' left right v w p q serials vids pids
same_native-lock_key (visa _ _) (gpib _ _) h = absurd (ground arith)
same_native-lock_key (visa _ _) (usb _ _ _ _) h = absurd (ground arith)
same_native-lock_key (gpib _ _) (usb _ _ _ _) h = absurd (ground arith)
same_native-lock_key (usb _ _ _ _) (gpib _ _) h = absurd (ground arith)

-- Names of the same instrument, with or without `VISA::`, have the same lock.
pub same_physical-lock_key :
    (this other : ResourceKind) → same_physical this other ≡ true → lock_key this ≡ lock_key other
unfolding same_physical lock_key
same_physical-lock_key (visa name native) other h = same_physical-lock_key native other h
same_physical-lock_key (gpib name address) other h =
    same_native-lock_key (gpib name address) other h
same_physical-lock_key (usb name serial vid pid) other h =
    same_native-lock_key (usb name serial vid pid) other h
