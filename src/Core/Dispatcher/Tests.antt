-- ===== src/Core/Dispatcher/Tests.antt =====
-- The dispatcher at concrete inputs: a node "n" with a user "n|a", where a bucket is its rate, an
-- expression matches the text that it is spelled like, and a handler is its tag.
use ccaa.Base.{
  ℕ, ℤ, pos, Bool, true, false, ◌≡◌, ◌≢◌, ◌⊎◌, refl, ◌↔◌, ◌+◌, ◌≤◌, String, string_eq, nat_eq,
  nat_beq, List, [], ◌∷◌, Option, none, some, load, ◌==◌, if◌then◌else◌, Any,
}
use ccaa.Limiter.{Limiter, UserLimitInfo}
use ccaa.Limiter.Registry.{get_limiter}
use ccaa.Limiter.Check.Reject.{MustReject}
use ccaa.Core.Sing.{blocked}
use ccaa.Core.Sniffer.{found, no_clue, ProtocolSniffer}
use ccaa.Core.Dispatcher.{
  Dispatcher, Link, pipe_writer, given_reader, pipe_reader, managed_writer, size_stat_writer,
  rate_limit_writer, up, down,
}
use ccaa.Core.Dispatcher.Links.{SessionInbound, get_link, close_both, limited}
use ccaa.Core.Dispatcher.Links.Admitted.{get_link_lem, CountsInto, Manages, IsRefused, bucket}
use ccaa.Core.Dispatcher.Override.{SniffResult, SniffingRequest, should_override}
use ccaa.Core.Dispatcher.Override.Decides.{Excludes, Wants, should_override_lem}
use ccaa.Core.Dispatcher.Route.{Request, no_route, dispatch_link, routed_protocol, target_of}
use ccaa.Core.Dispatcher.Route.Chosen.{IsEnabled, Chosen}
use ccaa.Core.Dispatcher.Route.Reaches.{Reaches}
use ccaa.Core.Dispatcher.Route.Safe.{dispatch_link_lem}
use ccaa.Core.Dispatcher.Sniffing.{Attempt, sniffer}
use ccaa.Core.Dispatcher.Sniffing.Ends.{sniffer-ends}
use ccaa.Core.Dispatcher.Sniffing.Handed.{handed_on, inputs}

abbrev user_limit : UserLimitInfo
user_limit = record {
  uid = pos 7;
  speed_limit = pos 8;
  device_limit = pos 1;
  dynamic_speed_limit = pos 0;
  expire_time = pos 0;
  over_limit = false;
}

abbrev node : Limiter String ℤ
node = record {
  domain_rules = "bad.example" ∷ [];
  protocol_rules = "bittorrent" ∷ [];
  speed_limit = pos 0;
  user_online_ip = [];
  old_user_online = [];
  uuid_to_uid = ("a", pos 7) ∷ [];
  user_limit_info = ("n|a", user_limit) ∷ [];
  speed_limiter = [];
  alive_list = [];
}

abbrev dispatcher : Dispatcher String ℤ
dispatcher = record {
  registry = record { limiter = ("n", 0) ∷ []; heap = (0, node) ∷ []; next = 1 };
  counter = [];
  same_tag_outbound = ("n", true) ∷ [];
  link_managers = [];
  next = 0;
}

abbrev session : SessionInbound
session = record { tag = "n"; email = some "n|a"; source = "10.0.0.1"; source_is_tcp = true }

abbrev rate : ℤ → ℤ → ℤ
rate fill capacity = fill

abbrev spelled : String → String → Bool
spelled r s = r == s

abbrev result : SniffResult
result = record { domain = "good.example"; protocol = "tls"; composite = none; subset = none }

abbrev sniffing : SniffingRequest
sniffing = record {
  enabled = true;
  exclude_for_domain = "regexp:other" ∷ [];
  override_destination_for_protocol = "http" ∷ "tls" ∷ [];
  metadata_only = false;
  route_only = false;
}

abbrev request : Request
request = record {
  inbound = some session;
  is_tcp = true;
  is_valid = true;
  destination = "192.0.2.1";
  protocol = "";
  sniffing = sniffing;
  sniffed = some result;
  in_pool = false;
  inbound_tag = "n";
  forced_outbound_tag = "";
  pick_route = λ t. no_route;
}

abbrev link : Link ℤ
link = record { reader = given_reader 4; writer = pipe_writer 5 }

get_link_lem_example :
    let (d', out, links) = get_link rate (pos 100) (some session) true 1 2 dispatcher in
    let b = bucket rate (pos 100) session "n|a" true node in
    (MustReject "n|a" "10.0.0.1" true node
      × (links ≡ none)
      × (out ≡ close_both 1 2)
      × IsRefused rate dispatcher d')
    ⊎ (¬ (MustReject "n|a" "10.0.0.1" true node)
        × (out ≡ [])
        × ((ts : ℕ) × CountsInto "n" "n|a" ts d'
            × (links
                ≡ some (
                  record {
                    reader = pipe_reader 2;
                    writer =
                        size_stat_writer ts up
                          (limited rate_limit_writer b (managed_writer "n|a" 0 (pipe_writer 1)));
                  },
                  record {
                    reader = pipe_reader 1;
                    writer = size_stat_writer ts down (limited rate_limit_writer b (pipe_writer 2));
                  },
                  some 0,
                )))
        × Manages "n|a" 0 (pipe_writer 1) (pipe_reader 1) d')
unfolding load get_limiter
get_link_lem_example =
    get_link_lem rate (pos 100) (some session) session "n|a" true 0 node dispatcher refl refl refl 1
      2

should_override_lem_example :
    (should_override (λ s. s) some spelled false result sniffing ≡ true) ↔ (
      (result.domain ≢ "")
      × ¬ (Any (Excludes (λ s. s) some spelled "good.example") ("regexp:other" ∷ []))
      × Any (Wants false result) ("http" ∷ "tls" ∷ []))
should_override_lem_example = should_override_lem (λ s. s) some spelled false result sniffing

dispatch_link_lem_example :
    let t = target_of (λ s. s) some spelled (λ s. s) request in
    Reaches "n"
      (dispatch_link spelled
        (λ s. if s == "n" then some s else none)
        none
        (λ h. h)
        (λ s. s)
        some
        (λ s. s)
        rate
        (pos 100)
        request
        link
        dispatcher).2
    ↔ ((request.is_valid ≡ true)
        × ¬ (MustReject "n|a" "10.0.0.1" true node)
        × (blocked spelled t.destination (routed_protocol request) node ≡ false)
        × Chosen
            (λ s. if s == "n" then some s else none)
            none
            "n"
            (IsEnabled "n" dispatcher)
            request.forced_outbound_tag
            (request.pick_route t)
            "n")
unfolding load get_limiter
dispatch_link_lem_example =
    dispatch_link_lem spelled (λ s. if s == "n" then some s else none) none (λ h. h) (λ s. s) some
      (λ s. s) rate (pos 100) request session "n|a" 0 node link dispatcher "n" refl refl refl

-- Two bytes at each attempt, and a sniffer that wants four.
abbrev attempts : ℕ → Attempt ℕ
attempts i = record { is_done = false; input = some (i ∷ i ∷ []); elapsed = 1000 }

abbrev sniffers : List (ProtocolSniffer (List ℕ) ℕ SniffResult)
sniffers =
    record {
      protocol_sniffer = λ p. elim p [
        | [] ↦ no_clue
        | a ∷ bs ↦ elim bs [
          | [] ↦ no_clue
          | b ∷ cs ↦ elim cs [ [] ↦ no_clue | c ∷ ds ↦ found result ]
        ]
      ];
      metadata_sniffer = false;
      network = 0;
    }
    ∷ []

sniffer-ends_example :
    (answer : Option SniffResult) × (kept : List ℕ) × (k : ℕ) × (sniffer nat_beq 32768 0 attempts 2
        false sniffers
      ≡ some (answer, kept, k))
    × (k ≤ 2)
    × ((handed_on 4 attempts k kept ≡ inputs attempts (k + 3) 0)
        ⊎ (handed_on 4 attempts k kept ≡ inputs attempts (k + 4) 0))
sniffer-ends_example = sniffer-ends nat_beq 32768 0 attempts false sniffers 3
