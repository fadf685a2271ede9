-- ===== src/Hub/Core/Restart.antt =====
-- A service that stops at any time between two calls, and starts again on the same disk: the calls
-- of crates/instrument-hub/src/core.rs in sequence, from `Core::new`.
use kohdalab_iv.Common.{
  ℕ, ◌≡◌, refl, String, Bool, false, Option, none, some, List, [], ◌∷◌, Result, ok, err, arith,
  is_ok,
}
use kohdalab_iv.Common.Map.{Map, lookup, contains_key-false}
use kohdalab_iv.Protocol.{SafetyPolicy, source, Request}
use kohdalab_iv.Hub.Controller.{Controller}
use kohdalab_iv.Hub.Journal.{Disk, IsDisk, load_journal}
use kohdalab_iv.Hub.Journal.Durability.{decoded, load_journal-decoded}
use kohdalab_iv.Hub.State.{Owner, Core, healthy}
use kohdalab_iv.Hub.Core.{claim_free, claim_request, disconnect, request, new}
use kohdalab_iv.Hub.Core.Ownership.{Safe, request-Safe, disconnect-Safe}

-- A call that the server makes of the core.
pub data Call : Type 0 where
  requests : String → String → Request → ℕ → Call
  disconnects : String → Bool → Call

module _ {B D : Type 0} (c : Controller B) (d : Disk D) where
  unfoldable pub perform : Call → Core B D → Core B D
  perform (requests session app r timeout) s = (request c d session app r timeout s).0
  perform (disconnects session lost) s = (disconnect c d session lost s).0

  unfoldable pub run : List Call → Core B D → Core B D
  run [] s = s
  run (call ∷ calls) s = run calls (perform call s)

module _ {B D : Type 0} (c : Controller B) {d : Disk D} {journal temporary : D → Option (List ℕ)}
    (h : IsDisk d journal temporary) where
  run-Safe :
      (calls : List Call) (s : Core B D) (a : ℕ) → Safe c h s a → Safe c h (run c d calls s) a
  unfolding run perform
  run-Safe [] s a v = v
  run-Safe (requests session app r timeout ∷ calls) s a v =
      run-Safe calls _ a (request-Safe c h session app r timeout s a v)
  run-Safe (disconnects session lost ∷ calls) s a v =
      run-Safe calls _ a (disconnect-Safe c h session lost s a v)

  new-Safe :
      (backend : B) (disk : D) (devices : Map SafetyPolicy) {s : Core B D} (a : ℕ)
      → new d backend disk devices ≡ ok s
      → Safe c h s a
  unfolding new lookup
  new-Safe backend disk devices {s} a e = ground arith

  -- From a start of the service, after any requests and disconnections: whoever owns an address owns
  -- it under the policy of the device map, and an owned source is named, with its model, in the
  -- quarantine in memory and in the journal on disk.
  pub run-new-Safe :
      (backend : B) (disk : D) (devices : Map SafetyPolicy) (s : Core B D) (calls : List Call)
      (a : ℕ)
      → new d backend disk devices ≡ ok s
      → Safe c h (run c d calls s) a
  run-new-Safe backend disk devices s calls a e =
      run-Safe calls s a (new-Safe backend disk devices a e)

  loaded :
      (backend : B) (disk : D) (devices : Map SafetyPolicy) {t : Core B D}
      → new d backend disk devices ≡ ok t
      → (t.unknown ≡ decoded d (journal disk)) × (t.owners ≡ []) × (t.fault ≡ none)
  unfolding new
  loaded backend disk devices {t} e = by_result (load_journal d disk) refl
    where
      by_result :
          (r : Result _ _)
          → load_journal d disk ≡ r
          → (t.unknown ≡ decoded d (journal disk)) × (t.owners ≡ []) × (t.fault ≡ none)
      by_result (ok q) p = ground (arith, load_journal-decoded h disk p)
      by_result (err x) p = ground arith

  -- An address in the quarantine cannot be claimed, and the attempt does not reach the bus.
  pub claim_request-refused :
      (session app : String) (a : ℕ) (p : SafetyPolicy) (m : String) (t : Core B D)
      → lookup a t.owners ≡ none
      → lookup a t.unknown ≡ some m
      → (is_ok (claim_request c d session app a p t).1 ≡ false)
        × ((claim_request c d session app a p t).0 ≡ t)
  unfolding claim_request claim_free healthy
  claim_request-refused session app a p m t free u = ground (arith, contains_key-false a t.unknown)

  -- If the service stops after any calls while a source is owned, and a new service starts on the
  -- same disk, with any bus and any device map, then the source is in its quarantine, and no session
  -- can claim it: an attempt fails, and changes nothing.
  pub restart_quarantines :
      (backend backend' : B) (disk : D) (devices devices' : Map SafetyPolicy) (s t : Core B D)
      (calls : List Call) (a : ℕ) (o : Owner) (m session app : String) (p : SafetyPolicy)
      → new d backend disk devices ≡ ok s
      → lookup a (run c d calls s).owners ≡ some o
      → o.policy ≡ source m
      → new d backend' (run c d calls s).disk devices' ≡ ok t
      → (lookup a t.unknown ≡ some m)
        × (is_ok (claim_request c d session app a p t).1 ≡ false)
        × ((claim_request c d session app a p t).0 ≡ t)
  unfolding lookup
  restart_quarantines backend backend' disk devices devices' s t calls a o m session app p e own q
        e' =
      let safe = run-new-Safe backend disk devices s calls a e in
      let start = loaded backend' (run c d calls s).disk devices' e' in
      let u : lookup a t.unknown ≡ some m = ground (arith, safe, start) in
      let refused = claim_request-refused session app a p m t (ground (arith, start)) u in
      (u, refused.0, refused.1)
