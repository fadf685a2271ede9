-- ===== src/Hub/Core.antt =====
-- The requests of crates/instrument-hub/src/core.rs: `Core<B>`, the single owner of the bus.
pub mod Ownership
pub mod Isolation
pub mod Inventory
pub mod Faults
pub mod Granting
pub mod Recovery
pub mod Restart
pub mod Shutdown
use kohdalab_iv.Common.{
  ℕ, ◌*◌, ◌≡◌, String, Bool, true, false, not, ◌&&◌, ◌||◌, Option, none, some, List, [], ◌∷◌, ◌++◌,
  map, if◌then◌else◌, ltb, leb, min, length, any, filter, str_eq, Result, ok, err, map_err,
}
use kohdalab_iv.Common.Map.{Map, lookup, insert, remove, contains_key, keys}
use kohdalab_iv.Common.Text.{Text}
use kohdalab_iv.Protocol.{
  ErrorCode, resource_in_use, deadline, state_unknown, invalid_request, controller_fault,
  SafetyPolicy, instrument, source, Request, claim, transfer, release, list, close, recover, status,
  max_payload, in_range,
}
use kohdalab_iv.Hub.Controller.{Controller}
use kohdalab_iv.Hub.Journal.{Quarantine, Disk, write_journal, load_journal}
use kohdalab_iv.Hub.Listing.{parse_listing, format_listing, sort_dedup}
use kohdalab_iv.Hub.State.{
  Owner, Core, Response, text, report, empty, policy_eq, matches_policy, matches_model,
  valid_source, valid_address, from_millis, is_core_operation, M, ◌>>=◌, ◌>>◌, pure, fail, lift,
  gets, modify, check_owner, healthy, status_report, check_owner_of,
}
use kohdalab_iv.Hub.Bus.{
  persist, backend_call, transfer_raw, transfer_bus, prepare, quarantine_source,
}

abbrev pub addresses_of : String → Map Owner → List ℕ
addresses_of session m = keys (filter (λ (e : ℕ × Owner). str_eq e.1.session session) m)

-- `if let Some(model) = saved { unknown.insert(address, model) }`.
unfoldable pub restore : ℕ → Option String → Quarantine → Quarantine
restore a none unknown = unknown
restore a (some model) unknown = insert a model unknown

module _ {B D : Type 0} (c : Controller B) (d : Disk D) where
  abbrev install : ℕ → Owner → Core B D → Core B D
  install a o s = record s { owners = insert a o s.owners }

  -- A claim of an address that has no owner.
  unfoldable pub claim_free : String → String → ℕ → SafetyPolicy → M B D Response
  unfolding prepare quarantine_source
  claim_free session app a policy = do
    device ← gets (λ s. lookup a s.devices)
    lift (if matches_policy device policy then ok tt else err invalid_request)
    unverified ← gets (λ s. contains_key a s.unknown)
    lift (if unverified then err state_unknown else ok tt)
    prepare c d
    quarantine_source c d a policy
    modify (install a (record { session = session; app = app; policy = policy }))
    pure empty

  -- A claim of an address that has an owner.
  unfoldable pub claim_owned : String → ℕ → SafetyPolicy → Owner → M B D Response
  unfolding check_owner
  claim_owned session a policy o = do
    check_owner session a
    lift (if policy_eq o.policy policy then ok empty else err invalid_request)

  unfoldable pub claim_request : String → String → ℕ → SafetyPolicy → M B D Response
  unfolding claim_free claim_owned healthy
  claim_request session app a policy = do
    lift (valid_address a)
    healthy
    owner ← gets (λ s. lookup a s.owners)
    elim owner [ none ↦ claim_free session app a policy | some o ↦ claim_owned session a policy o ]

  unfoldable pub transfer_request : String → String → ℕ → ℕ → List ℕ → ℕ → M B D Response
  unfolding check_owner transfer_bus in_range is_core_operation
  transfer_request session op a timeout_ms payload timeout = do
    lift (valid_address a)
    check_owner session a
    lift (if ltb timeout (from_millis 1) then err deadline else ok tt)
    lift (
        if is_core_operation op && leb (length payload) max_payload && in_range 1 30000 timeout_ms
        then ok tt
        else err invalid_request)
    reply ← transfer_bus c d op a (min timeout (from_millis timeout_ms)) payload
    pure (text reply)

  -- What happens to the instrument before its owner is forgotten for good.
  unfoldable pub make_safe : ℕ → Bool → SafetyPolicy → M B D (Unit {0})
  unfolding backend_call transfer_bus healthy
  make_safe a lost (source model) = do healthy; backend_call c d (λ b. c.source_off b a model)
  make_safe a true instrument = do _ ← transfer_bus c d "CLEAR" a (from_millis 2000) []; pure tt
  make_safe a false instrument = pure tt

  -- The quarantine ends, unless the journal cannot be written.
  unfoldable pub clear_quarantine : ℕ → SafetyPolicy → M B D (Unit {0})
  unfolding persist
  clear_quarantine a instrument s = (s, ok tt)
  clear_quarantine a (source model) s =
      let (s', r) = persist c d (record s { unknown = remove a s.unknown }) in
      elim r [
        | ok _ ↦ (s', ok tt)
        | err e ↦ (record s' { unknown = restore a (lookup a s.unknown) s'.unknown }, err e)
      ]

  unfoldable pub release_owned : ℕ → Bool → Owner → M B D (Unit {0})
  unfolding make_safe transfer_bus clear_quarantine
  release_owned a lost o = do
    modify (λ s. record s { owners = remove a s.owners })
    make_safe a lost o.policy
    _ ← transfer_bus c d "LOCAL" a (from_millis 2000) []
    clear_quarantine a o.policy

  unfoldable pub release_address : ℕ → Bool → M B D (Unit {0})
  unfolding release_owned
  release_address a lost s = elim (lookup a s.owners) [
    | none ↦ (s, ok tt)
    | some o ↦ release_owned a lost o s
  ]

  unfoldable pub release_request : String → ℕ → M B D Response
  unfolding check_owner release_address
  release_request session a = do
    lift (valid_address a)
    check_owner session a
    release_address a false
    pure empty

  -- The loop of `disconnect`: each address is released, and the failures are counted.
  unfoldable pub release_all : Bool → List ℕ → Core B D → Core B D × Bool
  release_all lost [] s = (s, true)
  release_all lost (a ∷ rest) s =
      let (s₁, r) = release_address a lost s in
      let (s₂, all_ok) = release_all lost rest s₁ in (s₂, elim r [ ok _ ↦ all_ok | err _ ↦ false ])

  unfoldable pub disconnect : String → Bool → M B D (Unit {0})
  unfolding release_all
  disconnect session lost s =
      let (s', all_ok) = release_all lost (addresses_of session s.owners) s in
      (s', if all_ok then ok tt else err state_unknown)

  -- Listeners are probed only while nothing is leased.
  unfoldable pub refresh_inventory : ℕ → M B D (Unit {0})
  unfolding transfer_bus
  refresh_inventory timeout s = elim s.owners [
    | [] ↦
        (do
          reply ← transfer_bus c d "LIST" 1 timeout []
          modify (λ t. record t { inventory = parse_listing reply }))
          s
    | o ∷ os ↦ (s, ok tt)
  ]

  unfoldable pub list_request : ℕ → M B D Response
  unfolding healthy refresh_inventory
  list_request timeout = do
    healthy
    refresh_inventory timeout
    gets (λ s. text (format_listing (sort_dedup (s.inventory ++ keys s.owners))))

  unfoldable pub recover_request : ℕ → String → M B D Response
  unfolding healthy backend_call persist
  recover_request a model = do
    lift (valid_address a)
    healthy
    owned ← gets (λ s. contains_key a s.owners)
    lift (if owned then err resource_in_use else ok tt)
    quarantined ← gets (λ s. lookup a s.unknown)
    lift (if matches_model quarantined model then ok tt else err invalid_request)
    backend_call c d (λ b. c.verify_source b a model)
    backend_call c d (λ b. c.source_off b a model)
    modify (λ s. record s { unknown = remove a s.unknown })
    persist c d
    pure empty

  -- `Core::request`.
  unfoldable pub request : String → String → Request → ℕ → M B D Response
  request session app status timeout = gets status_report
  request session app (claim a policy) timeout = claim_request session app a policy
  request session app (transfer op a timeout_ms payload) timeout =
      transfer_request session op a timeout_ms payload timeout
  request session app (release a) timeout = release_request session a
  request session app close timeout = do disconnect session false; pure empty
  request session app list timeout = list_request timeout
  request session app (recover a model) timeout = recover_request a model

-- The checks that `new` makes of the device map.
unfoldable pub check_devices : Map SafetyPolicy → Result (Unit {0}) ErrorCode
unfolding valid_address
check_devices [] = ok tt
check_devices ((a, instrument) ∷ m) = elim (valid_address a) [
  | ok _ ↦ check_devices m
  | err e ↦ err e
]
check_devices ((a, source model) ∷ m) = elim (valid_address a) [
  | ok _ ↦ if valid_source model then check_devices m else err invalid_request
  | err e ↦ err e
]

-- `Core::new`.
unfoldable pub new :
    {B D : Type 0} → Disk D → B → D → Map SafetyPolicy → Result (Core B D) ErrorCode
unfolding check_devices
new d backend disk devices = elim (check_devices devices) [
  | err e ↦ err e
  | ok _ ↦ elim (load_journal d disk) [
    | err e ↦ err e
    | ok unknown ↦ ok (record {
      backend = backend;
      disk = disk;
      owners = [];
      unknown = unknown;
      inventory = [];
      fault = none;
      devices = devices;
    })
  ]
]
