-- ===== src/Panel/Routes.antt =====
-- api/panel/node.go: the loop of GetNodeInfo over the panel's routes, and intervalToTime.
pub mod Blocked
use ccaa.Base.{
  ℕ, ℤ, pos, suc, ◌+◌, itoa, scale, wrap64, String, string_eq, str_append, has_prefix, trim_prefix,
  split, Bool, true, false, List, [], ◌∷◌, ◌++◌, Option, none, some, Assoc, store, ◌==◌,
  if◌then◌else◌,
}
use ccaa.Limiter.Rules.{Rules}
use ccaa.Panel.Node.{DnsServer, RawDns}

-- `Match`, an `interface{}`: a text, a list of texts, a list of values, where `none` is one that is no
-- text, or anything else.
pub data Match : Type 0 where
  text : String → Match
  texts : List String → Match
  elements : List (Option String) → Match
  other : Match

pub record Route : Type 0 where
  pub match : Match
  pub action : String
  pub action_value : String

-- `BaseConfig`'s fields, of type `any`: a float is the number of whole seconds in it.
pub data Interval : Type 0 where
  int : ℤ → Interval
  digits : String → Interval
  float : ℤ → Interval
  nothing : Interval

abbrev pub all_texts : List (Option String) → Option (List String)
all_texts [] = some []
all_texts (none ∷ xs) = none
all_texts (some x ∷ xs) = elim (all_texts xs) [ none ↦ none | some ys ↦ some (x ∷ ys) ]

-- `matchs`; `none` is a panic.
unfoldable pub matches_of : Match → Option (List String)
matches_of (text s) = some (split 44 s)
matches_of (texts ss) = some ss
matches_of (elements xs) = all_texts xs
matches_of other = none

-- What the loop fills in.
pub record Parsed : Type 0 where
  pub rules : Rules
  pub raw_dns : RawDns

abbrev pub add_rule : String → Rules → Rules
add_rule v r =
    if has_prefix v "protocol:"
    then record r { protocol = r.protocol ++ (trim_prefix v "protocol:" ∷ []) }
    else record r { regexp = r.regexp ++ (trim_prefix v "regexp:" ∷ []) }

unfoldable pub add_rules : List String → Rules → Rules
add_rules [] r = r
add_rules (v ∷ vs) r = add_rules vs (add_rule v r)

abbrev pub join : List String → String
join [] = ""
join (s ∷ ss) = str_append s (join ss)

-- The i-th route sends domains to a server, or has all of the DNS; without a match the code panics.
unfoldable pub add_dns : ℕ → Route → List String → RawDns → Option RawDns
add_dns i r [] d = none
add_dns i r (m ∷ ms) d =
    if m == "main"
    then some (record d { dns_json = join ms })
    else some (record d {
      dns_map =
          store (itoa (pos i)) (record { address = r.action_value; domains = m ∷ ms }) d.dns_map;
    })

abbrev pub with_dns : Parsed → Option RawDns → Option Parsed
with_dns p none = none
with_dns p (some d) = some (record p { raw_dns = d })

unfoldable pub act : ℕ → Route → List String → Parsed → Option Parsed
act i r ms p =
    if r.action == "block"
    then some (record p { rules = add_rules ms p.rules })
    else if r.action == "dns"
    then with_dns p (add_dns i r ms p.raw_dns)
    else some p

unfoldable pub parse_route : ℕ → Route → Parsed → Option Parsed
parse_route i r p = elim (matches_of r.match) [ none ↦ none | some ms ↦ act i r ms p ]

-- The loop, from the i-th route on.
unfoldable pub parse_routes : ℕ → List Route → Parsed → Option Parsed
parse_routes i [] p = some p
parse_routes i (r ∷ rs) p = elim (parse_route i r p) [
  | none ↦ none
  | some q ↦ parse_routes (i + 1) rs q
]

abbrev pub empty : Parsed
empty = record {
  rules = record { regexp = []; protocol = [] };
  raw_dns = record { dns_map = []; dns_json = "" };
}

abbrev pub second_ns : ℕ
second_ns = 1_000_000_000

-- `atoi` is strconv.Atoi, whose error is dropped. `none` is a panic.
unfoldable pub interval_to_time : (String → ℤ) → Interval → Option ℤ
interval_to_time atoi (int n) = some (wrap64 (scale second_ns n))
interval_to_time atoi (digits s) = some (wrap64 (scale second_ns (atoi s)))
interval_to_time atoi (float n) = some (wrap64 (scale second_ns n))
interval_to_time atoi nothing = none
