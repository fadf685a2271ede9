-- ===== src/Hub/Core/Shutdown.antt =====
-- How the owners change in crates/instrument-hub/src/core.rs: a request adds its own session only,
-- and `disconnect` leaves nothing to the session that is gone.
use kohdalab_iv.Common.{
  ℕ, ◌≡◌, refl, ◌⊎◌, inl, inr, String, Bool, true, false, none, some, List, [], ◌∷◌, arith,
  Option-cases, str_eq, filter,
}
use kohdalab_iv.Common.Map.{Map, lookup, insert, remove, lookup-insert, lookup-remove}
use kohdalab_iv.Common.Map.Order.{IsMap, insert-IsMap, remove-IsMap}
use kohdalab_iv.Protocol.{
  SafetyPolicy, instrument, source, Request, claim, transfer, release, list, close, recover, status,
}
use kohdalab_iv.Hub.Controller.{Controller}
use kohdalab_iv.Hub.Journal.{Disk}
use kohdalab_iv.Hub.State.{Owner, Core, check_owner, healthy}
use kohdalab_iv.Hub.Bus.{
  persist, backend_call, transfer_raw, transfer_bus, prepare, quarantine_source,
}
use kohdalab_iv.Hub.Core.{
  claim_free, claim_owned, claim_request, transfer_request, make_safe, clear_quarantine,
  release_owned, release_address, release_request, release_all, disconnect, refresh_inventory,
  list_request, recover_request, request, addresses_of,
}

-- The owners that are left when those at some addresses are released.
abbrev pub remove_all : List ℕ → Map Owner → Map Owner
remove_all [] m = m
remove_all (x ∷ xs) m = remove_all xs (remove x m)

remove-absent {ℓ} : {V : Type ℓ} (x : ℕ) (m : Map V) → lookup x m ≡ none → remove x m ≡ m
unfolding remove lookup
remove-absent x [] e = refl
remove-absent x ((j, v) ∷ m) e = ground (arith, remove-absent x m)

remove_all-IsMap : (xs : List ℕ) (m : Map Owner) → IsMap m → IsMap (remove_all xs m)
remove_all-IsMap [] m h = h
remove_all-IsMap (x ∷ xs) m h = remove_all-IsMap xs (remove x m) (remove-IsMap x m h)

lookup-remove_all-none :
    (xs : List ℕ) (a : ℕ) (m : Map Owner) → lookup a m ≡ none → lookup a (remove_all xs m) ≡ none
lookup-remove_all-none [] a m e = e
lookup-remove_all-none (x ∷ xs) a m e =
    lookup-remove_all-none xs a (remove x m) (ground (arith, lookup-remove x a m))

-- What is left after a release was there before.
lookup-remove_all :
    (xs : List ℕ) (a : ℕ) (m : Map Owner) {o : Owner}
    → lookup a (remove_all xs m) ≡ some o
    → lookup a m ≡ some o
lookup-remove_all [] a m e = e
lookup-remove_all (x ∷ xs) a m e =
    ground (arith, lookup-remove_all xs a (remove x m) e, lookup-remove x a m)

-- Removing the addresses of a session, listed from an earlier map, removes the session.
remove_addresses :
    (session : String) (a : ℕ) (l m : Map Owner) (o : Owner)
    → lookup a l ≡ some o
    → str_eq o.session session ≡ true
    → lookup a (remove_all (addresses_of session l) m) ≡ none
unfolding lookup filter
remove_addresses session a [] m o e f = ground arith
remove_addresses session a ((j, p) ∷ l) m o e f = ground (
  arith,
  lookup-remove j a m,
  lookup-remove_all-none (addresses_of session l) a (remove j m),
  remove_addresses session a l m o,
  remove_addresses session a l (remove j m) o,
)

-- What a request of a session may do to the owners: nothing, an insertion for that session, or
-- removals.
pub data Change (session : String) (m n : Map Owner) : Type 0 where
  same : n ≡ m → Change session m n
  added : (x : ℕ) (o : Owner) → o.session ≡ session → n ≡ insert x o m → Change session m n
  removed : (xs : List ℕ) → n ≡ remove_all xs m → Change session m n

module _ {B D : Type 0} (c : Controller B) (d : Disk D) where
  release_owned-owners :
      (x : ℕ) (lost : Bool) (o : Owner) (p : SafetyPolicy) (s : Core B D)
      → o.policy ≡ p
      → (release_owned c d x lost o s).0.owners ≡ remove x s.owners
  unfolding release_owned make_safe transfer_bus transfer_raw healthy clear_quarantine persist
      backend_call
  release_owned-owners x lost o (source m) s q = ground arith
  release_owned-owners x true o instrument s q = ground arith
  release_owned-owners x false o instrument s q = ground arith

  release_address-owners :
      (x : ℕ) (lost : Bool) (s : Core B D)
      → (release_address c d x lost s).0.owners ≡ remove x s.owners
  unfolding release_address
  release_address-owners x lost s = elim (Option-cases (lookup x s.owners)) [
    | inl free ↦ ground (arith, remove-absent x s.owners)
    | inr (o, owned) ↦ rw (owned, release_address) (release_owned-owners x lost o o.policy s refl)
  ]

  release_all-owners :
      (lost : Bool) (xs : List ℕ) (s : Core B D)
      → (release_all c d lost xs s).0.owners ≡ remove_all xs s.owners
  unfolding release_all
  release_all-owners lost [] s = refl
  release_all-owners lost (x ∷ xs) s =
      let t = (release_address c d x lost s).0 in
      rw (release_all-owners lost xs t, release_address-owners x lost s)

  pub disconnect-owners :
      (session : String) (lost : Bool) (s : Core B D)
      → (disconnect c d session lost s).0.owners
        ≡ remove_all (addresses_of session s.owners) s.owners
  unfolding disconnect
  disconnect-owners session lost s = release_all-owners lost (addresses_of session s.owners) s

  claim_free-owners :
      (session app : String) (x : ℕ) (p : SafetyPolicy) (s : Core B D)
      → ((claim_free c d session app x p s).0.owners ≡ s.owners)
        ⊎ ((claim_free c d session app x p s).0.owners
            ≡ insert x (record { session = session; app = app; policy = p }) s.owners)
  unfolding claim_free prepare quarantine_source backend_call persist
  claim_free-owners session app x instrument s = ground arith
  claim_free-owners session app x (source m) s = ground arith

  -- After a disconnect no address is owned by the session, and the owners are among those before it.
  pub disconnect-clears :
      (session : String) (lost : Bool) (s : Core B D) (a : ℕ) (o : Owner)
      → lookup a (disconnect c d session lost s).0.owners ≡ some o
      → (str_eq o.session session ≡ false) × (lookup a s.owners ≡ some o)
  disconnect-clears session lost s a o e =
      let e' = rw (disconnect-owners session lost s) at e in
      let before = lookup-remove_all (addresses_of session s.owners) a s.owners e' in
      (ground (arith, remove_addresses session a s.owners s.owners o before, e'), before)

  claim_request-owners :
      (session app : String) (x : ℕ) (p : SafetyPolicy) (s : Core B D)
      → ((claim_request c d session app x p s).0.owners ≡ s.owners)
        ⊎ ((claim_request c d session app x p s).0.owners
            ≡ insert x (record { session = session; app = app; policy = p }) s.owners)
  unfolding claim_request claim_owned check_owner healthy
  claim_request-owners session app x p s = ground (arith, claim_free-owners session app x p s)

  release_request-owners :
      (session : String) (x : ℕ) (s : Core B D)
      → ((release_request c d session x s).0.owners ≡ s.owners)
        ⊎ ((release_request c d session x s).0.owners ≡ remove x s.owners)
  unfolding release_request check_owner
  release_request-owners session x s = ground (arith, release_address-owners x false s)

  pub request-Change :
      (session app : String) (r : Request) (timeout : ℕ) (s : Core B D)
      → Change session s.owners (request c d session app r timeout s).0.owners
  unfolding request
  request-Change session app status timeout s = same refl
  request-Change session app (claim x p) timeout s = elim (claim_request-owners session app x p s) [
    | inl e ↦ same e
    | inr e ↦ added x (record { session = session; app = app; policy = p }) refl e
  ]
  request-Change session app (transfer op x t payload) timeout s =
      same (unfold transfer_request transfer_bus transfer_raw check_owner healthy in ground arith)
  request-Change session app (release x) timeout s = elim (release_request-owners session x s) [
    | inl e ↦ same e
    | inr e ↦ removed (x ∷ []) e
  ]
  request-Change session app close timeout s =
      removed (addresses_of session s.owners) (ground (arith, disconnect-owners session false s))
  request-Change session app list timeout s =
      same (unfold list_request refresh_inventory transfer_bus transfer_raw healthy in ground arith)
  request-Change session app (recover x m) timeout s =
      same (unfold recover_request healthy backend_call persist in ground arith)

  -- The owners stay a map: one entry for each address, in the order of the addresses.
  pub request-IsMap :
      (session app : String) (r : Request) (timeout : ℕ) (s : Core B D)
      → IsMap s.owners
      → IsMap (request c d session app r timeout s).0.owners
  request-IsMap session app r timeout s h = elim (request-Change session app r timeout s) [
    | same e ↦ rw e h
    | added x o _ e ↦ rw e (insert-IsMap x o s.owners h)
    | removed xs e ↦ rw e (remove_all-IsMap xs s.owners h)
  ]

  pub disconnect-IsMap :
      (session : String) (lost : Bool) (s : Core B D)
      → IsMap s.owners
      → IsMap (disconnect c d session lost s).0.owners
  disconnect-IsMap session lost s h =
      rw (disconnect-owners session lost s)
        (remove_all-IsMap (addresses_of session s.owners) s.owners h)

  -- An owner that is there after a request was there before, or is the session that sent it.
  pub request-owner :
      (session app : String) (r : Request) (timeout : ℕ) (s : Core B D) (a : ℕ) (o : Owner)
      → lookup a (request c d session app r timeout s).0.owners ≡ some o
      → (lookup a s.owners ≡ some o) ⊎ (o.session ≡ session)
  request-owner session app r timeout s a o e = elim (request-Change session app r timeout s) [
    | same p ↦ inl (rw p at e)
    | added x o' q p ↦ ground (arith, lookup-insert x a o' s.owners, rw p at e)
    | removed xs p ↦ inl (lookup-remove_all xs a s.owners (rw p at e))
  ]
