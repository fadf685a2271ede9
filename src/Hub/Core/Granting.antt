-- ===== src/Hub/Core/Granting.antt =====
-- What a successful claim or release of crates/instrument-hub/src/core.rs rests on.
use kohdalab_iv.Common.{
  ℕ, ◌≡◌, String, Bool, true, false, Option, none, some, List, [], ok, arith, is_ok,
}
use kohdalab_iv.Common.Map.{lookup, insert, remove, contains_key, lookup-insert, lookup-remove}
use kohdalab_iv.Protocol.{source}
use kohdalab_iv.Hub.Controller.{Controller}
use kohdalab_iv.Hub.Journal.{Disk, IsDisk}
use kohdalab_iv.Hub.Journal.Durability.{decoded, write_journal-decoded}
use kohdalab_iv.Hub.State.{Owner, Core, Response, healthy, from_millis}
use kohdalab_iv.Hub.Bus.{
  persist, backend_call, transfer_raw, transfer_bus, prepare, quarantine_source,
}
use kohdalab_iv.Hub.Core.{
  restore, claim_free, claim_request, make_safe, clear_quarantine, release_owned, release_address,
}
use kohdalab_iv.Hub.Core.Ownership.{matches_policy-eq}

module _ {B D : Type 0} (c : Controller B) {d : Disk D} {journal temporary : D → Option (List ℕ)}
    (h : IsDisk d journal temporary) where
  -- What the grant of a free source at `a` to a session was preceded by.
  pub record Granted (session app : String) (a : ℕ) (m : String) (s t : Core B D) : Type 0 where
    pub healthy_before : s.fault ≡ none
    pub registered : lookup a s.devices ≡ some (source m)
    pub not_quarantined : contains_key a s.unknown ≡ false
    pub bus_open : (c.prepare s.backend).1 ≡ ok tt
    pub identified : (c.verify_source (c.prepare s.backend).0 a m).1 ≡ ok tt
    pub turned_off : (c.source_off (c.verify_source (c.prepare s.backend).0 a m).0 a m).1 ≡ ok tt
    pub backend_after :
        t.backend ≡ (c.source_off (c.verify_source (c.prepare s.backend).0 a m).0 a m).0
    pub journalled : lookup a (decoded d (journal t.disk)) ≡ some m
    pub owned :
        t.owners ≡ insert a (record { session = session; app = app; policy = source m }) s.owners

  -- A source that has no owner is granted only on a healthy bus, under the policy of the device map,
  -- when it is not quarantined, after its identity is verified, its output is switched off, and the
  -- journal on disk names it. Nothing reaches the bus after the output is off.
  pub claim_request-Granted :
      (session app : String) (a : ℕ) (m : String) (s : Core B D) {r : Response}
      → lookup a s.owners ≡ none
      → (claim_request c d session app a (source m) s).1 ≡ ok r
      → Granted session app a m s (claim_request c d session app a (source m) s).0
  unfolding claim_request claim_free prepare quarantine_source backend_call persist healthy
  claim_request-Granted session app a m s free e = ground (
    arith,
    matches_policy-eq (lookup a s.devices) (source m),
    lookup-insert a a m s.unknown,
    write_journal-decoded h s.disk (insert a m s.unknown),
  )

  -- What the successful release of an owned source at `a` leaves.
  pub record Released (a : ℕ) (m : String) (s t : Core B D) : Type 0 where
    pub turned_off : (c.source_off s.backend a m).1 ≡ ok tt
    pub made_local :
        is_ok (c.transfer (c.source_off s.backend a m).0 "LOCAL" a (from_millis 2000) []).1 ≡ true
    pub owned_by_none : lookup a t.owners ≡ none
    pub not_quarantined : lookup a t.unknown ≡ none
    pub not_journalled : lookup a (decoded d (journal t.disk)) ≡ none

  -- A source leaves the quarantine by a release only when its output was switched off, it was
  -- handed back to its front panel, and the journal on disk no longer names it.
  pub release_address-Released :
      (a : ℕ) (lost : Bool) (m : String) (o : Owner) (s : Core B D)
      → lookup a s.owners ≡ some o
      → o.policy ≡ source m
      → (release_address c d a lost s).1 ≡ ok tt
      → Released a m s (release_address c d a lost s).0
  unfolding release_address release_owned make_safe clear_quarantine transfer_bus transfer_raw
      backend_call persist healthy
  release_address-Released a lost m o s e p r = ground (
    arith,
    lookup-remove a a s.owners,
    lookup-remove a a s.unknown,
    write_journal-decoded h s.disk (remove a s.unknown),
  )

  -- A release that fails leaves the source in the quarantine, in memory, and takes it from its owner.
  pub release_address-quarantined :
      (a : ℕ) (lost : Bool) (m : String) (o : Owner) (s : Core B D)
      → lookup a s.owners ≡ some o
      → o.policy ≡ source m
      → lookup a s.unknown ≡ some m
      → is_ok (release_address c d a lost s).1 ≡ false
      → (lookup a (release_address c d a lost s).0.unknown ≡ some m)
        × (lookup a (release_address c d a lost s).0.owners ≡ none)
  unfolding release_address release_owned make_safe clear_quarantine restore transfer_bus
      transfer_raw backend_call persist healthy
  release_address-quarantined a lost m o s e p u r =
      ground (arith, lookup-remove a a s.owners, lookup-insert a a m (remove a s.unknown))
