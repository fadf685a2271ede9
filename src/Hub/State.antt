-- ===== src/Hub/State.antt =====
-- The state of crates/instrument-hub/src/core.rs, and the checks that read it. A handler takes the
-- state and returns the next state with its result; an error keeps its code only. Addresses are
-- `u8` values, durations are nanoseconds.
use kohdalab_iv.Common.{
  ℕ, ◌*◌, String, Bool, true, false, ◌||◌, Option, none, some, List, [], map, if◌then◌else◌, str_eq,
  Result, ok, err,
}
use kohdalab_iv.Common.Map.{Map, lookup, keys}
use kohdalab_iv.Common.Text.{Text}
use kohdalab_iv.Protocol.{
  ErrorCode, resource_in_use, invalid_request, controller_fault, SafetyPolicy, instrument, source,
  in_range,
}
use kohdalab_iv.Transport.Instruments.{Role, valid_model}
use kohdalab_iv.Hub.Journal.{Quarantine}

pub record Owner : Type 0 where
  pub session : String
  pub app : String
  pub policy : SafetyPolicy

-- `disk` stands for the file at the path `journal`.
pub record Core (B D : Type 0) : Type 0 where
  pub backend : B
  pub disk : D
  pub owners : Map Owner
  pub unknown : Quarantine
  pub inventory : List ℕ
  pub fault : Option String
  pub devices : Map SafetyPolicy

-- The reply of a request: a text, or the report that is sent as JSON, with the fault, the owners'
-- addresses and applications, and the addresses of the unverified sources.
pub data Response : Type 0 where
  text : Text → Response
  report : Option String → List (ℕ × String) → List ℕ → Response

abbrev pub empty : Response
empty = text []

unfoldable pub policy_eq : SafetyPolicy → SafetyPolicy → Bool
policy_eq instrument instrument = true
policy_eq (source m) (source n) = str_eq m n
policy_eq _ _ = false

-- `devices.get(&address) == Some(&policy)`.
unfoldable pub matches_policy : Option SafetyPolicy → SafetyPolicy → Bool
unfolding policy_eq
matches_policy none p = false
matches_policy (some q) p = policy_eq q p

-- `unknown.get(&address) == Some(&model)`.
unfoldable pub matches_model : Option String → String → Bool
matches_model none model = false
matches_model (some m) model = str_eq m model

unfoldable pub valid_source : String → Bool
valid_source model = valid_model Role.source model

unfoldable pub valid_address : ℕ → Result (Unit {0}) ErrorCode
unfolding in_range
valid_address a = if in_range 1 30 a then ok tt else err invalid_request

abbrev pub from_millis : ℕ → ℕ
from_millis n = n * 1000000

unfoldable pub is_core_operation : String → Bool
is_core_operation op =
    str_eq op "WRITE"
    || str_eq op "QUERY"
    || str_eq op "READ"
    || str_eq op "LOCAL"
    || str_eq op "CLEAR"

-- A handler's computation over the state, and its `?`.
abbrev pub M : Type 0 → Type 0 → Type 0 → Type 0
M B D A = Core B D → Core B D × Result A ErrorCode

infixl 5 ◌>>=◌ ◌>>◌
abbrev pub ◌>>=◌ : {B D A A' : Type 0} → M B D A → (A → M B D A') → M B D A'
◌>>=◌ m f s = let (s', r) = m s in elim r [ ok a ↦ f a s' | err e ↦ (s', err e) ]

abbrev pub ◌>>◌ : {B D A' : Type 0} → M B D (Unit {0}) → M B D A' → M B D A'
m >> k = m >>= λ _. k

abbrev pub pure : {B D A : Type 0} → A → M B D A
pure a s = (s, ok a)

abbrev pub fail : {B D A : Type 0} → ErrorCode → M B D A
fail e s = (s, err e)

abbrev pub lift : {B D A : Type 0} → Result A ErrorCode → M B D A
lift r s = (s, r)

abbrev pub gets : {B D A : Type 0} → (Core B D → A) → M B D A
gets f s = (s, ok (f s))

abbrev pub modify : {B D : Type 0} → (Core B D → Core B D) → M B D (Unit {0})
modify f s = (f s, ok tt)

unfoldable pub check_owner_of : String → Option Owner → Result (Unit {0}) ErrorCode
check_owner_of session none = err invalid_request
check_owner_of session (some o) = if str_eq o.session session then ok tt else err resource_in_use

module _ {B D : Type 0} where
  unfoldable pub check_owner : String → ℕ → M B D (Unit {0})
  unfolding check_owner_of
  check_owner session a s = (s, check_owner_of session (lookup a s.owners))

  unfoldable pub healthy : M B D (Unit {0})
  healthy s = elim s.fault [ none ↦ (s, ok tt) | some e ↦ (s, err controller_fault) ]

  -- The owners' addresses and applications, as `status` reports them.
  unfoldable pub status_report : Core B D → Response
  status_report s =
      report s.fault (map (λ (e : ℕ × Owner). (e.0, e.1.app)) s.owners) (keys s.unknown)
