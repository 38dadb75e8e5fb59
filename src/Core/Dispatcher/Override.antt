-- ===== src/Core/Dispatcher/Override.antt =====
-- default.go: shouldOverride, and what a sniffed result does to the destination. Addresses are
-- texts. `to_lower` is `strings.ToLower`, `compile` and `match_string` are Go's regexp.
pub mod Decides
use Prim.Native.String.{slice, len}
use ccaa.Base.{
  String, string_eq, Bool, true, false, not, ◌&&◌, ◌||◌, List, [], ◌∷◌, Option, none, some, ◌==◌,
  if◌then◌else◌, has_prefix,
}

-- A sniffer's result: `composite` is the answer of ProtocolForDomainResult and `subset` the name
-- that IsProtoSubsetOf compares, where the result has them.
pub record SniffResult : Type 0 where
  pub domain : String
  pub protocol : String
  pub composite : Option String
  pub subset : Option String

-- What the request of the inbound says.
pub record SniffingRequest : Type 0 where
  pub enabled : Bool
  pub exclude_for_domain : List String
  pub override_destination_for_protocol : List String
  pub metadata_only : Bool
  pub route_only : Bool

abbrev pub protocol_string : SniffResult → String
protocol_string r = elim r.composite [ none ↦ r.protocol | some p ↦ p ]

abbrev pub is_subset_of : String → Option String → Bool
is_subset_of p none = false
is_subset_of p (some name) = has_prefix p name

-- `in_pool` says that the fake DNS knows the destination's address as one of its own.
unfoldable pub wants : Bool → SniffResult → String → Bool
wants in_pool r p =
    (has_prefix (protocol_string r) p || has_prefix p (protocol_string r))
    || ((in_pool && (not (protocol_string r == "bittorrent") && p == "fakedns"))
        || is_subset_of p r.subset)

unfoldable pub is_wanted : Bool → SniffResult → List String → Bool
is_wanted in_pool r [] = false
is_wanted in_pool r (p ∷ ps) =
    let rest = is_wanted in_pool r ps in if wants in_pool r p then true else rest

-- The target of the outbound, the target of the routing, if it is another one, and the address
-- that the rules see.
pub record Target : Type 0 where
  pub target : String
  pub route_target : Option String
  pub destination : String

module _ {R : Type 0} (to_lower : String → String) (compile : String → Option R)
    (match_string : R → String → Bool) where
  -- An expression that does not compile excludes nothing.
  abbrev pub excludes_by : String → Option R → Bool
  excludes_by domain none = false
  excludes_by domain (some r) = match_string r domain

  abbrev pub excludes : String → String → Bool
  excludes domain e =
      if has_prefix e "regexp:"
      then excludes_by domain (compile (slice e 7 (len e)))
      else to_lower domain == e

  -- The loop over the excluded domains, which stops at the first that fits.
  unfoldable pub is_excluded : String → List String → Bool
  is_excluded domain [] = false
  is_excluded domain (e ∷ es) =
      let rest = is_excluded domain es in if excludes domain e then true else rest

  unfoldable pub should_override : Bool → SniffResult → SniffingRequest → Bool
  should_override in_pool r request =
      if r.domain == ""
      then false
      else if is_excluded r.domain request.exclude_for_domain
      then false
      else is_wanted in_pool r request.override_destination_for_protocol

  -- `parse_address` is `net.ParseAddress`, back as a text. A route-only request leaves the target as
  -- it is, unless the fake DNS is at work.
  unfoldable pub retarget :
      (String → String) → Bool → SniffingRequest → Option SniffResult → String → Target
  retarget parse_address in_pool request none destination = record {
    target = destination;
    route_target = none;
    destination = destination;
  }
  retarget parse_address in_pool request (some r) destination =
      let sniffed = parse_address r.domain in
      let name = protocol_string r in
      if should_override in_pool r request
      then if request.route_only
          && (not (name == "fakedns") && (not (name == "fakedns+others") && not in_pool))
        then record { target = destination; route_target = some sniffed; destination = sniffed }
        else record { target = sniffed; route_target = none; destination = sniffed }
      else record { target = destination; route_target = none; destination = destination }
