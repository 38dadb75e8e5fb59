-- ===== src/Panel/Tests.antt =====
-- The panel's client at concrete answers: one failure, two routes, one list of users.
use ccaa.Base.{
  ℤ, pos, String, string_eq, split, split_from, Bool, true, ◌≡◌, refl, ◌↔◌, List, [], ◌∷◌, none,
  some, inr, ◌==◌, Any,
}
use ccaa.Limiter.{Limiter}
use ccaa.Limiter.Rules.{update_rule, compile_all, check_domain_rule, check_protocol_rule}
use ccaa.Limiter.Rules.Decides.{Matches}
use ccaa.Panel.User.{UserInfo}
use ccaa.Panel.Routes.{
  Route, Parsed, text, elements, matches_of, add_rules, act, parse_route, parse_routes, empty,
}
use ccaa.Panel.Routes.Blocked.{Blocks, Expression, Protocol, update_rule-parse_routes}
use ccaa.Panel.Client.{
  Client, ApiConfig, Decoders, Response, NodeAnswer, fails, unchanged, client_of, new_client,
  decode_node, unknown, get_node_info,
}
use ccaa.Panel.Client.Repeated.{get_node_info-repeated}
use ccaa.Panel.Users.{Token, string, begin_array, end_array, value, other, find_users, read_users}
use ccaa.Panel.Users.Read.{Lists, find_users_iff}

-- A decoder that reads nothing.
abbrev json : Decoders
json = record {
  v_allss_of = λ s. none;
  shadowsocks_of = λ s. none;
  trojan_of = λ s. none;
  tuic_of = λ s. none;
  any_tls_of = λ s. none;
  hysteria_of = λ s. none;
  hysteria2_of = λ s. none;
}

abbrev config : ApiConfig
config = record { api_host = "panel.example"; node_id = pos 1; node_type = "v2ray" }

abbrev client : Client
client = client_of config "vmess"

abbrev failed : Response
failed = record { status = 500; body = "no node"; etag = ""; error = none }

abbrev atoi : String → ℤ
atoi s = pos 0

abbrev hash : String → String
hash s = s

server_error_reported :
    (get_node_info json atoi hash failed client).1 ≡ fails "request failed: no node"
unfolding get_node_info ccaa.Panel.Client.check_response
server_error_reported = refl

get_node_info-repeated_example :
    let d = (get_node_info json atoi hash failed client).0 in
    get_node_info json atoi hash failed d ≡ (d, unchanged)
get_node_info-repeated_example = get_node_info-repeated json atoi hash failed client refl

abbrev routes : List Route
routes =
    record {
      match = text "regexp:bad.example,protocol:bittorrent";
      action = "block";
      action_value = "";
    }
    ∷ record { match = elements (some "worse.example" ∷ []); action = "block"; action_value = "" }
    ∷ []

abbrev parsed : Parsed
parsed = record empty {
  rules = record { regexp = "bad.example" ∷ "worse.example" ∷ []; protocol = "bittorrent" ∷ [] };
}

abbrev limiter : Limiter String ℤ
limiter = record {
  domain_rules = [];
  protocol_rules = [];
  speed_limit = pos 0;
  user_online_ip = [];
  old_user_online = [];
  uuid_to_uid = [];
  user_limit_info = [];
  speed_limiter = [];
  alive_list = [];
}

abbrev ruled : Limiter String ℤ
ruled = record limiter {
  domain_rules = "bad.example" ∷ "worse.example" ∷ [];
  protocol_rules = "bittorrent" ∷ [];
}

abbrev spelled : String → String → Bool
spelled r destination = r == destination

update_rule-parse_routes_example :
    ((check_domain_rule spelled "worse.example" ruled ≡ true)
      ↔ Any (Blocks (Expression (Matches some spelled "worse.example"))) routes)
    × ((check_protocol_rule "bittorrent" ruled ≡ true)
        ↔ Any (Blocks (Protocol (λ v. v ≡ "bittorrent"))) routes)
unfolding parse_routes parse_route matches_of act add_rules split split_from update_rule compile_all
update_rule-parse_routes_example =
    update_rule-parse_routes some spelled routes parsed limiter ruled "worse.example" "bittorrent"
      refl refl

abbrev user : UserInfo
user = record { id = pos 7; uuid = "a"; speed_limit = pos 0; device_limit = pos 0 }

abbrev tokens : List Token
tokens = other ∷ string "users" ∷ begin_array ∷ value (some user) ∷ end_array ∷ other ∷ []

find_users_iff_example : (find_users tokens ≡ inr (user ∷ [])) ↔ Lists (user ∷ []) tokens
find_users_iff_example = find_users_iff (user ∷ []) tokens

find_users_reads : find_users tokens ≡ inr (user ∷ [])
unfolding find_users read_users
find_users_reads = refl
