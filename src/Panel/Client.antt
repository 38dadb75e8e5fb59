-- ===== src/Panel/Client.antt =====
-- api/panel/panel.go, utils.go and node.go: the client, and GetNodeInfo. What resty answers to a
-- request is an argument; so are encoding/json's reading of a body, SHA-256 and strconv.Atoi.
pub mod Answered
pub mod Repeated
use ccaa.Base.{
  ℕ, ℤ, pos, leb, String, string_eq, nat_eq, str_append, Bool, true, false, ◌||◌, List, [], ◌∷◌,
  Option, none, some, Assoc, ◌==◌, if◌then◌else◌,
}
use ccaa.Panel.Node.{
  NodeInfo, Settings, VAllssNode, ShadowsocksNode, TrojanNode, TuicNode, AnyTlsNode, HysteriaNode,
  Hysteria2Node, v_allss, shadowsocks, trojan, tuic, any_tls, hysteria, hysteria2, CommonNode,
  RawDns,
}
use ccaa.Panel.Routes.{Route, Interval, Parsed, empty, parse_routes, interval_to_time}

-- The client's fields that a request reads or changes.
pub record Client : Type 0 where
  pub api_host : String
  pub node_type : String
  pub node_id : ℤ
  pub node_etag : String
  pub user_etag : String
  pub response_body_hash : String
  pub alive_map : Assoc ℤ ℤ

-- The parts of conf.ApiConfig that New reads, but for the timeout and the address to send from.
pub record ApiConfig : Type 0 where
  pub api_host : String
  pub node_id : ℤ
  pub node_type : String

abbrev pub is_supported : String → Bool
is_supported t =
    (t == "vmess" || (t == "trojan" || (t == "shadowsocks" || t == "hysteria")))
    || (t == "hysteria2" || (t == "tuic" || (t == "anytls" || t == "vless")))

abbrev pub client_of : ApiConfig → String → Client
client_of c node_type = record {
  api_host = c.api_host;
  node_type = node_type;
  node_id = c.node_id;
  node_etag = "";
  user_etag = "";
  response_body_hash = "";
  alive_map = [];
}

-- `New`; `none` is the error of a type that is not supported.
unfoldable pub new_client : (String → String) → ApiConfig → Option Client
new_client to_lower c =
    let node_type = to_lower c.node_type in
    if node_type == "v2ray"
    then some (client_of c "vmess")
    else if is_supported node_type
    then some (client_of c node_type)
    else none

-- An answer, or the error of the request; a request without an answer has the status 0 and no body.
pub record Response : Type 0 where
  pub status : ℕ
  pub body : String
  pub etag : String
  pub error : Option String

unfoldable pub check_response : Response → Option String
check_response r = elim r.error [
  | some e ↦ some (str_append "request failed: " e)
  | none ↦ if leb 400 r.status then some (str_append "request failed: " r.body) else none
]

-- What a body has of CommonNode.
pub record Body : Type 0 where
  pub common : CommonNode
  pub routes : List Route
  pub base_config : Option (Interval × Interval)

-- `json.Unmarshal` into the types of the nodes; `none` is an error.
pub record Decoders : Type 0 where
  pub v_allss_of : String → Option (Body × VAllssNode)
  pub shadowsocks_of : String → Option (Body × ShadowsocksNode)
  pub trojan_of : String → Option (Body × TrojanNode)
  pub tuic_of : String → Option (Body × TuicNode)
  pub any_tls_of : String → Option (Body × AnyTlsNode)
  pub hysteria_of : String → Option (Body × HysteriaNode)
  pub hysteria2_of : String → Option (Body × Hysteria2Node)

-- A type that the switch does not know leaves the pointers nil; an error of the decoder; or the
-- body, the settings and the security.
pub data Decoded : Type 0 where
  unknown undecodable : Decoded
  decoded : Body → Settings → ℤ → Decoded

abbrev pub none_security : ℤ
none_security = pos 0

abbrev pub tls_security : ℤ
tls_security = pos 1

abbrev pub with_settings : {A : Type 0} → (A → Settings) → (A → ℤ) → Option (Body × A) → Decoded
with_settings settings security none = undecodable
with_settings settings security (some (b, a)) = decoded b (settings a) (security a)

-- The older names of two fields, where the panel sends them.
abbrev pub network_back : VAllssNode → VAllssNode
network_back v =
    if v.network_settings_back == ""
    then v
    else record v { network_settings = v.network_settings_back; network_settings_back = "" }

abbrev pub tls_back : VAllssNode → VAllssNode
tls_back v = elim v.tls_settings_back [
  | none ↦ v
  | some t ↦ record v { tls_settings = t; tls_settings_back = none }
]

module _ (json : Decoders) where
  unfoldable pub decode_node : String → String → Decoded
  decode_node t body =
      if t == "vmess" || t == "vless"
      then with_settings (λ v. v_allss (tls_back (network_back v))) VAllssNode.tls
          (json.v_allss_of body)
      else if t == "shadowsocks"
      then with_settings shadowsocks (λ s. none_security) (json.shadowsocks_of body)
      else if t == "trojan"
      then with_settings trojan (λ s. tls_security) (json.trojan_of body)
      else if t == "tuic"
      then with_settings tuic (λ s. tls_security) (json.tuic_of body)
      else if t == "anytls"
      then with_settings any_tls (λ s. tls_security) (json.any_tls_of body)
      else if t == "hysteria"
      then with_settings hysteria (λ s. tls_security) (json.hysteria_of body)
      else if t == "hysteria2"
      then with_settings hysteria2 (λ s. tls_security) (json.hysteria2_of body)
      else unknown

-- GetNodeInfo gives an error, a nil node, a node, or it panics.
pub data NodeAnswer : Type 0 where
  fails : String → NodeAnswer
  unchanged : NodeAnswer
  gives : NodeInfo → NodeAnswer
  panics : NodeAnswer

abbrev pub node_of : Client → Body → Settings → ℤ → Parsed → Option ℤ → Option ℤ → NodeAnswer
node_of c b s security p none pull = panics
node_of c b s security p (some push) none = panics
node_of c b s security p (some push) (some pull) = gives (record {
  id = c.node_id;
  node_type = c.node_type;
  security = security;
  push_interval = push;
  pull_interval = pull;
  raw_dns = p.raw_dns;
  rules = p.rules;
  settings = s;
  common = b.common;
})

abbrev pub with_intervals :
    (String → ℤ) → Client → Body → Settings → ℤ → Option (Interval × Interval) → Parsed → NodeAnswer
with_intervals atoi c b s security none p = panics
with_intervals atoi c b s security (some (push, pull)) p =
    node_of c b s security p (interval_to_time atoi push) (interval_to_time atoi pull)

module _ (json : Decoders) (atoi : String → ℤ) where
  -- From the body on.
  abbrev pub read_node : Client → Decoded → NodeAnswer
  read_node c unknown = panics
  read_node c undecodable = fails "decode params error"
  read_node c (decoded b s security) = elim (parse_routes 0 b.routes empty) [
    | none ↦ panics
    | some p ↦ with_intervals atoi c b s security b.base_config p
  ]

  -- The hash and the ETag are kept before the answer is looked at.
  unfoldable pub get_node_info : (String → String) → Response → Client → Client × NodeAnswer
  get_node_info hash r c =
      if r.status == 304
      then (c, unchanged)
      else if c.response_body_hash == hash r.body
      then (c, unchanged)
      else (let d = record c { response_body_hash = hash r.body; node_etag = r.etag } in
          (
            d,
            elim (check_response r) [
              | some e ↦ fails e
              | none ↦ read_node d (decode_node json d.node_type r.body)
            ],
          ))
