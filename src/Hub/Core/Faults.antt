-- ===== src/Hub/Core/Faults.antt =====
-- A controller fault is final: crates/instrument-hub/src/core.rs makes no further call of the backend.
use kohdalab_iv.Common.{
  ℕ, ◌≡◌, refl, ◌∙◌, inl, inr, String, Bool, true, false, some, List, [], ◌∷◌, arith, Option-cases,
}
use kohdalab_iv.Common.Map.{lookup}
use kohdalab_iv.Protocol.{
  SafetyPolicy, instrument, source, Request, claim, transfer, release, list, close, recover, status,
}
use kohdalab_iv.Hub.Controller.{Controller}
use kohdalab_iv.Hub.Journal.{Disk}
use kohdalab_iv.Hub.State.{Owner, Core, check_owner, healthy}
use kohdalab_iv.Hub.Bus.{transfer_bus}
use kohdalab_iv.Hub.Core.{
  claim_request, transfer_request, make_safe, release_owned, release_address, release_request,
  release_all, disconnect, list_request, recover_request, request, addresses_of,
}

module _ {B D : Type 0} (c : Controller B) (d : Disk D) (e : String) where
  -- The fault `e` stands, the bus is as it was, and so is the record of unverified outputs.
  abbrev pub Frozen : Core B D → Core B D → Type 0
  Frozen s t =
      (t.fault ≡ some e) × (t.backend ≡ s.backend) × (t.unknown ≡ s.unknown) × (t.disk ≡ s.disk)

  release_owned-Frozen :
      (x : ℕ) (lost : Bool) (o : Owner) (p : SafetyPolicy) (s : Core B D)
      → o.policy ≡ p
      → s.fault ≡ some e
      → Frozen s (release_owned c d x lost o s).0
  unfolding release_owned make_safe transfer_bus healthy
  release_owned-Frozen x lost o (source m) s q f = ground arith
  release_owned-Frozen x true o instrument s q f = ground arith
  release_owned-Frozen x false o instrument s q f = ground arith

  release_address-Frozen :
      (x : ℕ) (lost : Bool) (s : Core B D)
      → s.fault ≡ some e
      → Frozen s (release_address c d x lost s).0
  unfolding release_address
  release_address-Frozen x lost s f = elim (Option-cases (lookup x s.owners)) [
    | inl free ↦ rw (free, release_address) (f, refl, refl, refl)
    | inr (o, owned) ↦ rw (owned, release_address) (release_owned-Frozen x lost o o.policy s refl f)
  ]

  release_all-Frozen :
      (lost : Bool) (xs : List ℕ) (s : Core B D)
      → s.fault ≡ some e
      → Frozen s (release_all c d lost xs s).0
  unfolding release_all
  release_all-Frozen lost [] s f = (f, refl, refl, refl)
  release_all-Frozen lost (x ∷ xs) s f =
      let t = (release_address c d x lost s).0 in
      let first = release_address-Frozen x lost s f in
      let rest = release_all-Frozen lost xs t first.0 in
      (rest.0, rest.1 ∙ first.1, rest.2 ∙ first.2, rest.3 ∙ first.3)

  -- After a fault every request leaves the fault, the bus, the quarantine and the journal as they
  -- are: nothing is reset, replayed or written.
  pub request-Frozen :
      (session app : String) (r : Request) (timeout : ℕ) (s : Core B D)
      → s.fault ≡ some e
      → Frozen s (request c d session app r timeout s).0
  unfolding request
  request-Frozen session app status timeout s f = (f, refl, refl, refl)
  request-Frozen session app (claim x p) timeout s f = unfold claim_request healthy in ground arith
  request-Frozen session app (transfer op x t payload) timeout s f =
      unfold transfer_request transfer_bus check_owner healthy in ground arith
  request-Frozen session app (release x) timeout s f =
      unfold release_request check_owner in ground (arith, release_address-Frozen x false s)
  request-Frozen session app close timeout s f =
      unfold disconnect in
      ground (arith, release_all-Frozen false (addresses_of session s.owners) s)
  request-Frozen session app list timeout s f = unfold list_request healthy in ground arith
  request-Frozen session app (recover x m) timeout s f =
      unfold recover_request healthy in ground arith
