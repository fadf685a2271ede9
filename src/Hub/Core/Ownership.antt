-- ===== src/Hub/Core/Ownership.antt =====
-- The ownership invariant of crates/instrument-hub/src/core.rs: who owns an address holds it under
-- the policy of the device map, and an owned source is in the quarantine, in memory and on disk.
use kohdalab_iv.Common.{
  ℕ, ◌≡◌, refl, ap, inl, inr, String, Bool, true, false, Option, none, some, List, [], ◌∷◌, arith,
  eq_iff, Option-cases, ◌==◌,
}
use kohdalab_iv.Common.Map.{
  lookup, insert, remove, lookup-insert, lookup-remove, contains_key-false,
}
use kohdalab_iv.Protocol.{
  SafetyPolicy, instrument, source, Request, claim, transfer, release, list, close, recover, status,
}
use kohdalab_iv.Hub.Controller.{Controller}
use kohdalab_iv.Hub.Journal.{Disk, IsDisk, Quarantine}
use kohdalab_iv.Hub.Journal.Durability.{decoded, write_journal-decoded}
use kohdalab_iv.Hub.State.{
  Owner, Core, policy_eq, matches_policy, check_owner, healthy, from_millis,
}
use kohdalab_iv.Hub.Bus.{
  persist, backend_call, transfer_raw, transfer_bus, prepare, quarantine_source,
}
use kohdalab_iv.Hub.Core.{
  restore, claim_free, claim_owned, claim_request, transfer_request, make_safe, clear_quarantine,
  release_owned, release_address, release_request, release_all, disconnect, refresh_inventory,
  list_request, recover_request, request, addresses_of,
}

abbrev pub SafePolicy : SafetyPolicy → Option String → Option String → Type 0
SafePolicy instrument unknown saved = Unit
SafePolicy (source model) unknown saved = (unknown ≡ some model) × (saved ≡ some model)

-- The device map's entry, the quarantine's and the journal's, for an address and its owner.
abbrev pub SafeOwner : Option Owner → Option SafetyPolicy → Option String → Option String → Type 0
SafeOwner none device unknown saved = Unit
SafeOwner (some o) device unknown saved =
    (device ≡ some o.policy) × SafePolicy o.policy unknown saved

pub policy_eq-eq : (p q : SafetyPolicy) → policy_eq p q ≡ true → p ≡ q
unfolding policy_eq
policy_eq-eq instrument instrument h = refl
policy_eq-eq (source m) (source n) h = ground (arith, eq_iff m n)
policy_eq-eq _ _ h = ground arith

pub matches_policy-eq :
    (o : Option SafetyPolicy) (p : SafetyPolicy) → matches_policy o p ≡ true → o ≡ some p
unfolding matches_policy
matches_policy-eq none p h = ground arith
matches_policy-eq (some q) p h = ap some (policy_eq-eq q p h)

-- The part of the state that the invariant reads.
abbrev SameHolders : {B D : Type 0} → Core B D → Core B D → Type 0
SameHolders s t =
    (s.owners ≡ t.owners) × (s.devices ≡ t.devices) × (s.unknown ≡ t.unknown) × (s.disk ≡ t.disk)

make_safe-frame :
    {B D : Type 0} (c : Controller B) (d : Disk D) (b : ℕ) (lost : Bool) (p : SafetyPolicy)
    (s : Core B D)
    → SameHolders (make_safe c d b lost p s).0 s
unfolding make_safe backend_call transfer_bus transfer_raw healthy
make_safe-frame c d b lost (source m) s = ground arith
make_safe-frame c d b true instrument s = ground arith
make_safe-frame c d b false instrument s = ground arith

lookup-restore :
    (b a : ℕ) (saved : Option String) (q : Quarantine)
    → (b == a) ≡ false
    → lookup a (restore b saved q) ≡ lookup a q
unfolding restore
lookup-restore b a none q ne = refl
lookup-restore b a (some m) q ne = ground (arith, lookup-insert b a m q)

module _ {B D : Type 0} (c : Controller B) {d : Disk D} {journal temporary : D → Option (List ℕ)}
    (h : IsDisk d journal temporary) where
  abbrev pub Safe : Core B D → ℕ → Type 0
  Safe s a =
      SafeOwner (lookup a s.owners) (lookup a s.devices) (lookup a s.unknown)
        (lookup a (decoded d (journal s.disk)))

  claim_free-Safe :
      (session app : String) (b : ℕ) (p : SafetyPolicy) (s : Core B D) (a : ℕ)
      → lookup b s.owners ≡ none
      → Safe s a
      → Safe (claim_free c d session app b p s).0 a
  unfolding claim_free backend_call persist prepare quarantine_source
  claim_free-Safe session app b instrument s a free v = ground (
    arith,
    lookup-insert b a (record { session = session; app = app; policy = instrument }) s.owners,
    matches_policy-eq (lookup b s.devices) instrument,
  )
  claim_free-Safe session app b (source m) s a free v =
      let q = insert b m s.unknown in
      ground (
        arith,
        lookup-insert b a (record { session = session; app = app; policy = source m }) s.owners,
        lookup-insert b a m s.unknown,
        matches_policy-eq (lookup b s.devices) (source m),
        write_journal-decoded h s.disk q,
      )

  claim_request-Safe :
      (session app : String) (b : ℕ) (p : SafetyPolicy) (s : Core B D) (a : ℕ)
      → Safe s a
      → Safe (claim_request c d session app b p s).0 a
  unfolding claim_request claim_owned check_owner healthy
  claim_request-Safe session app b p s a v = ground (arith, claim_free-Safe session app b p s a)

  transfer_request-Safe :
      (session op : String) (b timeout_ms : ℕ) (payload : List ℕ) (timeout : ℕ) (s : Core B D)
      (a : ℕ)
      → Safe s a
      → Safe (transfer_request c d session op b timeout_ms payload timeout s).0 a
  unfolding transfer_request transfer_bus transfer_raw check_owner healthy
  transfer_request-Safe session op b timeout_ms payload timeout s a v = ground arith

  clear_quarantine-Safe :
      (b : ℕ) (p : SafetyPolicy) (s : Core B D) (a : ℕ)
      → lookup b s.owners ≡ none
      → Safe s a
      → Safe (clear_quarantine c d b p s).0 a
  unfolding clear_quarantine persist
  clear_quarantine-Safe b instrument s a free v = v
  clear_quarantine-Safe b (source m) s a free v = ground (
    arith,
    lookup-remove b a s.unknown,
    lookup-restore b a (lookup b s.unknown) (remove b s.unknown),
    write_journal-decoded h s.disk (remove b s.unknown),
  )

  -- An address that is released is no longer owned; every other owner is as safe as before.
  release_owned-Safe :
      (b : ℕ) (lost : Bool) (o : Owner) (s : Core B D) (a : ℕ)
      → Safe s a
      → Safe (release_owned c d b lost o s).0 a
  unfolding release_owned transfer_bus transfer_raw healthy
  release_owned-Safe b lost o s a v =
      let s₁ : Core B D = record s { owners = remove b s.owners } in
      let s₂ = (make_safe c d b lost o.policy s₁).0 in
      let s₃ = (transfer_bus c d "LOCAL" b (from_millis 2000) [] s₂).0 in
      ground (
        arith,
        lookup-remove b b s.owners,
        lookup-remove b a s.owners,
        make_safe-frame c d b lost o.policy s₁,
        clear_quarantine-Safe b o.policy s₃ a,
      )

  release_address-Safe :
      (b : ℕ) (lost : Bool) (s : Core B D) (a : ℕ)
      → Safe s a
      → Safe (release_address c d b lost s).0 a
  unfolding release_address
  release_address-Safe b lost s a v = elim (Option-cases (lookup b s.owners)) [
    | inl e ↦ rw (e, release_address) v
    | inr (o, e) ↦ rw (e, release_address) (release_owned-Safe b lost o s a v)
  ]

  release_all-Safe :
      (lost : Bool) (bs : List ℕ) (s : Core B D) (a : ℕ)
      → Safe s a
      → Safe (release_all c d lost bs s).0 a
  unfolding release_all
  release_all-Safe lost [] s a v = v
  release_all-Safe lost (b ∷ bs) s a v =
      release_all-Safe lost bs (release_address c d b lost s).0 a
        (release_address-Safe b lost s a v)

  pub disconnect-Safe :
      (session : String) (lost : Bool) (s : Core B D) (a : ℕ)
      → Safe s a
      → Safe (disconnect c d session lost s).0 a
  unfolding disconnect
  disconnect-Safe session lost s a v = release_all-Safe lost (addresses_of session s.owners) s a v

  list_request-Safe :
      (timeout : ℕ) (s : Core B D) (a : ℕ) → Safe s a → Safe (list_request c d timeout s).0 a
  unfolding list_request refresh_inventory transfer_bus transfer_raw healthy
  list_request-Safe timeout s a v = ground arith

  recover_request-Safe :
      (b : ℕ) (m : String) (s : Core B D) (a : ℕ) → Safe s a → Safe (recover_request c d b m s).0 a
  unfolding recover_request backend_call persist healthy
  recover_request-Safe b m s a v = ground (
    arith,
    contains_key-false b s.owners,
    lookup-remove b a s.unknown,
    write_journal-decoded h s.disk (remove b s.unknown),
  )

  pub request-Safe :
      (session app : String) (r : Request) (timeout : ℕ) (s : Core B D) (a : ℕ)
      → Safe s a
      → Safe (request c d session app r timeout s).0 a
  unfolding request release_request check_owner
  request-Safe session app status timeout s a v = v
  request-Safe session app (claim b p) timeout s a v = claim_request-Safe session app b p s a v
  request-Safe session app (transfer op b t payload) timeout s a v =
      transfer_request-Safe session op b t payload timeout s a v
  request-Safe session app (release b) timeout s a v =
      ground (arith, release_address-Safe b false s a)
  request-Safe session app close timeout s a v = ground (arith, disconnect-Safe session false s a)
  request-Safe session app list timeout s a v = list_request-Safe timeout s a v
  request-Safe session app (recover b m) timeout s a v = recover_request-Safe b m s a v
