-- ===== src/Hub/Core/Isolation.antt =====
-- Clients of crates/instrument-hub/src/core.rs do not reach one another's instruments, and a faulted
-- controller does not reach any.
use kohdalab_iv.Common.{
  ℕ, ◌≡◌, ◌≢◌, refl, ◌∙◌, inl, inr, String, Bool, true, false, none, some, List, [], ◌∷◌, arith,
  str_eq, Option-cases, min, All,
}
use kohdalab_iv.Common.Map.{Map, lookup, remove, lookup-insert, lookup-remove, contains_key-false}
use kohdalab_iv.Common.Map.Order.{IsMap, keys-filter_ne}
use kohdalab_iv.Protocol.{
  SafetyPolicy, instrument, source, Request, claim, transfer, release, list, close, recover, status,
}
use kohdalab_iv.Hub.Controller.{Controller}
use kohdalab_iv.Hub.Journal.{Disk}
use kohdalab_iv.Hub.State.{Owner, Core, check_owner, check_owner_of, healthy, from_millis}
use kohdalab_iv.Hub.Bus.{
  persist, backend_call, transfer_raw, transfer_bus, prepare, quarantine_source,
}
use kohdalab_iv.Hub.Core.{
  claim_free, claim_owned, claim_request, transfer_request, make_safe, clear_quarantine,
  release_owned, release_address, release_request, release_all, disconnect, refresh_inventory,
  list_request, recover_request, request, addresses_of,
}

-- `view` is what can be observed of the instrument at address `a`: the backend changes it only by a
-- call that names that address.
pub record IsLocal {B : Type 0} {V : Type 0} (c : Controller B) (view : B → V) (a : ℕ)
    : Type 0 where
  pub prepare_keeps : (b : B) → view (c.prepare b).0 ≡ view b
  pub transfer_keeps :
      (b : B) (op : String) (x timeout : ℕ) (payload : List ℕ)
      → x ≢ a
      → view (c.transfer b op x timeout payload).0 ≡ view b
  pub verify_keeps : (b : B) (x : ℕ) (m : String) → x ≢ a → view (c.verify_source b x m).0 ≡ view b
  pub off_keeps : (b : B) (x : ℕ) (m : String) → x ≢ a → view (c.source_off b x m).0 ≡ view b

module _ {B D V : Type 0} (c : Controller B) (d : Disk D) (view : B → V) (a : ℕ) (o : Owner)
    (h : IsLocal c view a) where
  -- The address `a` is still owned by `o`, and its instrument is as it was.
  abbrev pub Untouched : Core B D → Core B D → Type 0
  Untouched s t = (lookup a t.owners ≡ some o) × (view t.backend ≡ view s.backend)

  claim_free-Untouched :
      (session app : String) (x : ℕ) (p : SafetyPolicy) (s : Core B D)
      → lookup a s.owners ≡ some o
      → lookup x s.owners ≡ none
      → Untouched s (claim_free c d session app x p s).0
  unfolding claim_free prepare quarantine_source backend_call persist
  claim_free-Untouched session app x instrument s e free = ground (
    arith,
    lookup-insert x a (record { session = session; app = app; policy = instrument }) s.owners,
    h.prepare_keeps s.backend,
  )
  claim_free-Untouched session app x (source m) s e free =
      let b₁ = (c.prepare s.backend).0 in
      let b₂ = (c.verify_source b₁ x m).0 in
      ground (
        arith,
        lookup-insert x a (record { session = session; app = app; policy = source m }) s.owners,
        h.prepare_keeps s.backend,
        h.verify_keeps b₁ x m,
        h.off_keeps b₂ x m,
      )

  transfer_bus-Untouched :
      (op : String) (x timeout : ℕ) (payload : List ℕ) (s : Core B D)
      → x ≢ a
      → lookup a s.owners ≡ some o
      → Untouched s (transfer_bus c d op x timeout payload s).0
  unfolding transfer_bus transfer_raw healthy
  transfer_bus-Untouched op x timeout payload s ne e =
      ground (arith, h.transfer_keeps s.backend op x timeout payload)

  make_safe-Untouched :
      (x : ℕ) (lost : Bool) (p : SafetyPolicy) (s : Core B D)
      → x ≢ a
      → lookup a s.owners ≡ some o
      → Untouched s (make_safe c d x lost p s).0
  unfolding make_safe backend_call healthy
  make_safe-Untouched x lost (source m) s ne e = ground (arith, h.off_keeps s.backend x m)
  make_safe-Untouched x true instrument s ne e =
      ground (arith, transfer_bus-Untouched "CLEAR" x (from_millis 2000) [] s ne e)
  make_safe-Untouched x false instrument s ne e = ground arith

  clear_quarantine-Untouched :
      (x : ℕ) (p : SafetyPolicy) (s : Core B D)
      → lookup a s.owners ≡ some o
      → Untouched s (clear_quarantine c d x p s).0
  unfolding clear_quarantine persist
  clear_quarantine-Untouched x instrument s e = ground arith
  clear_quarantine-Untouched x (source m) s e = ground arith

  release_owned-Untouched :
      (x : ℕ) (lost : Bool) (p : Owner) (s : Core B D)
      → x ≢ a
      → lookup a s.owners ≡ some o
      → Untouched s (release_owned c d x lost p s).0
  unfolding release_owned
  release_owned-Untouched x lost p s ne e =
      let s₁ : Core B D = record s { owners = remove x s.owners } in
      let s₂ = (make_safe c d x lost p.policy s₁).0 in
      let s₃ = (transfer_bus c d "LOCAL" x (from_millis 2000) [] s₂).0 in
      ground (
        arith,
        lookup-remove x a s.owners,
        make_safe-Untouched x lost p.policy s₁ ne,
        transfer_bus-Untouched "LOCAL" x (from_millis 2000) [] s₂ ne,
        clear_quarantine-Untouched x p.policy s₃,
      )

  release_address-Untouched :
      (x : ℕ) (lost : Bool) (s : Core B D)
      → x ≢ a
      → lookup a s.owners ≡ some o
      → Untouched s (release_address c d x lost s).0
  unfolding release_address
  release_address-Untouched x lost s ne e = elim (Option-cases (lookup x s.owners)) [
    | inl free ↦ rw (free, release_address) (e, refl)
    | inr (p, owned) ↦ rw (owned, release_address) (release_owned-Untouched x lost p s ne e)
  ]

  release_all-Untouched :
      (lost : Bool) (xs : List ℕ) (s : Core B D)
      → All (λ x. x ≢ a) xs
      → lookup a s.owners ≡ some o
      → Untouched s (release_all c d lost xs s).0
  unfolding release_all
  release_all-Untouched lost [] s ne e = (e, refl)
  release_all-Untouched lost (x ∷ xs) s ne e =
      let t = (release_address c d x lost s).0 in
      let first = release_address-Untouched x lost s ne.0 e in
      let rest = release_all-Untouched lost xs t ne.1 first.0 in (rest.0, rest.1 ∙ first.1)

  disconnect-Untouched :
      (session : String) (lost : Bool) (s : Core B D)
      → IsMap s.owners
      → lookup a s.owners ≡ some o
      → str_eq o.session session ≡ false
      → Untouched s (disconnect c d session lost s).0
  unfolding disconnect
  disconnect-Untouched session lost s m e other =
      release_all-Untouched lost (addresses_of session s.owners) s
        (keys-filter_ne (λ entry. str_eq entry.1.session session) a o s.owners m e other) e

  transfer_request-Untouched :
      (session op : String) (x t : ℕ) (payload : List ℕ) (timeout : ℕ) (s : Core B D)
      → lookup a s.owners ≡ some o
      → str_eq o.session session ≡ false
      → Untouched s (transfer_request c d session op x t payload timeout s).0
  unfolding transfer_request check_owner check_owner_of
  transfer_request-Untouched session op x t payload timeout s e other = ground (
    arith,
    transfer_bus-Untouched op x (min timeout (from_millis t)) payload s,
    same_key x s.owners,
  )
    where
      same_key : (x : ℕ) (m : Map Owner) → x ≡ a → lookup x m ≡ lookup a m
      same_key x m p = rw p

  release_request-Untouched :
      (session : String) (x : ℕ) (s : Core B D)
      → lookup a s.owners ≡ some o
      → str_eq o.session session ≡ false
      → Untouched s (release_request c d session x s).0
  unfolding release_request check_owner check_owner_of
  release_request-Untouched session x s e other =
      ground (arith, release_address-Untouched x false s)

  list_request-Untouched :
      (timeout : ℕ) (s : Core B D)
      → lookup a s.owners ≡ some o
      → Untouched s (list_request c d timeout s).0
  unfolding list_request refresh_inventory healthy lookup
  list_request-Untouched timeout s e = ground arith

  recover_request-Untouched :
      (x : ℕ) (m : String) (s : Core B D)
      → lookup a s.owners ≡ some o
      → Untouched s (recover_request c d x m s).0
  unfolding recover_request healthy backend_call persist
  recover_request-Untouched x m s e =
      let b₁ = (c.verify_source s.backend x m).0 in
      ground
        (arith, contains_key-false x s.owners, h.verify_keeps s.backend x m, h.off_keeps b₁ x m)

  claim_request-Untouched :
      (session app : String) (x : ℕ) (p : SafetyPolicy) (s : Core B D)
      → lookup a s.owners ≡ some o
      → Untouched s (claim_request c d session app x p s).0
  unfolding claim_request claim_owned check_owner healthy
  claim_request-Untouched session app x p s e =
      ground (arith, claim_free-Untouched session app x p s e)

  -- While a session owns an address, no request of another session takes it away or changes what can
  -- be observed of the instrument there, if the backend touches an instrument only by the calls that
  -- name its address. The owners are a map.
  pub request-Untouched :
      (session app : String) (r : Request) (timeout : ℕ) (s : Core B D)
      → IsMap s.owners
      → lookup a s.owners ≡ some o
      → str_eq o.session session ≡ false
      → Untouched s (request c d session app r timeout s).0
  unfolding request
  request-Untouched session app status timeout s m e other = (e, refl)
  request-Untouched session app (claim x p) timeout s m e other =
      claim_request-Untouched session app x p s e
  request-Untouched session app (transfer op x t payload) timeout s m e other =
      transfer_request-Untouched session op x t payload timeout s e other
  request-Untouched session app (release x) timeout s m e other =
      release_request-Untouched session x s e other
  request-Untouched session app close timeout s m e other =
      ground (arith, disconnect-Untouched session false s m e other)
  request-Untouched session app list timeout s m e other = list_request-Untouched timeout s e
  request-Untouched session app (recover x m') timeout s m e other =
      recover_request-Untouched x m' s e
