-- ===== src/Hub/Core/Inventory.antt =====
-- The answer to `Request::List` in crates/instrument-hub/src/core.rs while nothing is leased.
use mathlib.Core.List.{append-nil}
use kohdalab_iv.Common.{ℕ, ◌≡◌, ap, ◌∙◌, none, List, [], ◌++◌, arith, Result, ok}
use kohdalab_iv.Common.Text.{Text}
use kohdalab_iv.Protocol.{ErrorCode}
use kohdalab_iv.Hub.Controller.{Controller}
use kohdalab_iv.Hub.Journal.{Disk}
use kohdalab_iv.Hub.Listing.{parse_listing, format_listing, sort_dedup}
use kohdalab_iv.Hub.Listing.RoundTrip.{
  InRange, Sorted, contains, parse_listing-format_listing, sort_dedup-Sorted, contains-sort_dedup,
}
use kohdalab_iv.Hub.State.{Core, Response, text, healthy}
use kohdalab_iv.Hub.Bus.{transfer_raw, transfer_bus}
use kohdalab_iv.Hub.Core.{refresh_inventory, list_request}

module _ {B D : Type 0} (c : Controller B) (d : Disk D) where
  -- The answer of a request for the list: the lines of addresses in strict order, which are those
  -- of `xs`; and these are remembered.
  pub record Listed (xs : List ℕ) (z : Core B D × Result Response ErrorCode) : Type 0 where
    pub addresses : List ℕ
    pub answered : z.1 ≡ ok (text (format_listing addresses))
    pub sorted : Sorted addresses
    pub same : (a : ℕ) → contains a addresses ≡ contains a xs
    pub remembered : z.0.inventory ≡ xs

  -- What a list request does with the controller's reply.
  list_request-reply :
      (timeout : ℕ) (s : Core B D) (b : B) (reply : Text)
      → s.fault ≡ none
      → s.owners ≡ []
      → c.transfer s.backend "LIST" 1 timeout [] ≡ (b, ok reply)
      → list_request c d timeout s ≡ (
        record s { backend = b; inventory = parse_listing reply },
        ok (text (format_listing (sort_dedup (parse_listing reply ++ [])))),
      )
  unfolding list_request refresh_inventory transfer_bus transfer_raw healthy
  list_request-reply timeout s b reply fine unleased replied = ground arith

  -- While no instrument is leased and the hub has no fault, a list request whose controller replies
  -- with the lines of some addresses, each of 1 to 30, is answered with the lines of the same
  -- addresses in strict order, so each of them once; and the hub remembers the addresses as the
  -- controller gave them.
  pub list_request-Listed :
      (timeout : ℕ) (s : Core B D) (b : B) (xs : List ℕ)
      → s.fault ≡ none
      → s.owners ≡ []
      → c.transfer s.backend "LIST" 1 timeout [] ≡ (b, ok (format_listing xs))
      → InRange xs
      → Listed xs (list_request c d timeout s)
  list_request-Listed timeout s b xs fine unleased replied valid =
      let read = parse_listing-format_listing xs valid in
      let run = list_request-reply timeout s b (format_listing xs) fine unleased replied in
      record {
        addresses = sort_dedup xs;
        answered =
            ap (λ z. z.1) run
            ∙ ap (λ ys. ok (text (format_listing (sort_dedup ys)))) (append-nil _ ∙ read);
        sorted = sort_dedup-Sorted xs;
        same = λ a. contains-sort_dedup a xs;
        remembered = ap (λ z. z.0.inventory) run ∙ read;
      }
