-- ===== src/Examples/Bench.antt =====
-- A bus with an instrument at every address, which records the calls that name an address.
use kohdalab_iv.Common.{ℕ, ◌≡◌, ◌≢◌, refl, String, List, [], ◌∷◌, filter, ◌==◌, arith, ok}
use kohdalab_iv.Hub.Controller.{Controller}
use kohdalab_iv.Hub.Core.Isolation.{IsLocal}

abbrev pub Bench : Type 0
Bench = List (ℕ × String)

abbrev pub bench : Controller Bench
bench = record {
  prepare = λ b. (b, ok tt);
  transfer = λ b op a timeout payload. ((a, op) ∷ b, ok []);
  verify_source = λ b a model. ((a, "IDENTITY") ∷ b, ok tt);
  source_off = λ b a model. ((a, "OFF") ∷ b, ok tt);
}

-- The calls that an instrument has seen.
pub calls_at : ℕ → Bench → Bench
calls_at a b = filter (λ (e : ℕ × String). e.0 == a) b

calls_at-other :
    (a x : ℕ) (what : String) (b : Bench) → x ≢ a → calls_at a ((x, what) ∷ b) ≡ calls_at a b
unfolding calls_at filter
calls_at-other a x what b ne = ground arith

pub bench-IsLocal : (a : ℕ) → IsLocal bench (calls_at a) a
bench-IsLocal a = record {
  prepare_keeps = λ b. refl;
  transfer_keeps = λ b op x timeout payload ne. calls_at-other a x op b ne;
  verify_keeps = λ b x m ne. calls_at-other a x "IDENTITY" b ne;
  off_keeps = λ b x m ne. calls_at-other a x "OFF" b ne;
}
