-- ===== src/Hub/Core/Recovery.antt =====
-- `Request::Recover` of crates/instrument-hub/src/core.rs.
use kohdalab_iv.Common.{ℕ, ◌≡◌, String, true, Option, none, some, List, ok, arith, eq_iff, ap}
use kohdalab_iv.Common.Map.{lookup, remove, lookup-remove, contains_key-false}
use kohdalab_iv.Hub.Controller.{Controller}
use kohdalab_iv.Hub.Journal.{Disk, IsDisk}
use kohdalab_iv.Hub.Journal.Durability.{decoded, write_journal-decoded}
use kohdalab_iv.Hub.State.{Core, Response, matches_model, healthy}
use kohdalab_iv.Hub.Bus.{persist, backend_call}
use kohdalab_iv.Hub.Core.{recover_request}

pub matches_model-eq : (o : Option String) (m : String) → matches_model o m ≡ true → o ≡ some m
unfolding matches_model
matches_model-eq none m h = ground arith
matches_model-eq (some n) m h = ap some ((eq_iff n m).0 h)

module _ {B D : Type 0} (c : Controller B) {d : Disk D} {journal temporary : D → Option (List ℕ)}
    (h : IsDisk d journal temporary) where
  pub record Recovered (a : ℕ) (m : String) (s t : Core B D) : Type 0 where
    pub not_owned : lookup a s.owners ≡ none
    pub quarantined : lookup a s.unknown ≡ some m
    pub identified : (c.verify_source s.backend a m).1 ≡ ok tt
    pub turned_off : (c.source_off (c.verify_source s.backend a m).0 a m).1 ≡ ok tt
    pub not_quarantined : lookup a t.unknown ≡ none
    pub not_journalled : lookup a (decoded d (journal t.disk)) ≡ none

  -- A recovery succeeds only for a source that no session owns and that is in the quarantine under
  -- exactly the given model; its identity is verified and its output switched off, and then neither
  -- the quarantine nor the journal on disk names it.
  pub recover_request-Recovered :
      (a : ℕ) (m : String) (s : Core B D) {r : Response}
      → (recover_request c d a m s).1 ≡ ok r
      → Recovered a m s (recover_request c d a m s).0
  unfolding recover_request backend_call persist healthy
  recover_request-Recovered a m s e = ground (
    arith,
    contains_key-false a s.owners,
    matches_model-eq (lookup a s.unknown) m,
    lookup-remove a a s.unknown,
    write_journal-decoded h s.disk (remove a s.unknown),
  )
