-- ===== src/Panel/Node.antt =====
-- The data types of api/panel/node.go. A `json.RawMessage` is its text.
use ccaa.Base.{ℕ, ℤ, String, Bool, List, Option, Assoc}
use ccaa.Limiter.Rules.{Rules}

pub record TlsSettings : Type 0 where
  pub server_name : String
  pub dest : String
  pub server_port : String
  pub short_id : String
  pub private_key : String
  pub mldsa65_seed : String
  pub xver : ℕ

pub record EncSettings : Type 0 where
  pub mode : String
  pub ticket : String
  pub server_padding : String
  pub private_key : String

pub record VAllssNode : Type 0 where
  pub tls : ℤ
  pub tls_settings : TlsSettings
  pub tls_settings_back : Option TlsSettings
  pub network : String
  pub network_settings : String
  pub network_settings_back : String
  pub encryption : String
  pub encryption_settings : EncSettings
  pub server_name : String
  pub flow : String

pub record ShadowsocksNode : Type 0 where
  pub cipher : String
  pub server_key : String

pub record TrojanNode : Type 0 where
  pub network : String
  pub network_settings : String

pub record TuicNode : Type 0 where
  pub congestion_control : String
  pub zero_rtt_handshake : Bool

pub record AnyTlsNode : Type 0 where
  pub padding_scheme : List String

pub record HysteriaNode : Type 0 where
  pub up_mbps : ℤ
  pub down_mbps : ℤ
  pub obfs : String

pub record Hysteria2Node : Type 0 where
  pub ignore_client_bandwidth : Bool
  pub up_mbps : ℤ
  pub down_mbps : ℤ
  pub obfs_type : String
  pub obfs_password : String

-- Of the seven pointers of NodeInfo, the one that is not nil.
pub data Settings : Type 0 where
  v_allss : VAllssNode → Settings
  shadowsocks : ShadowsocksNode → Settings
  trojan : TrojanNode → Settings
  tuic : TuicNode → Settings
  any_tls : AnyTlsNode → Settings
  hysteria : HysteriaNode → Settings
  hysteria2 : Hysteria2Node → Settings

-- What is left of CommonNode when the routes and the base config are cleared.
pub record CommonNode : Type 0 where
  pub host : String
  pub server_port : ℤ
  pub server_name : String

pub record DnsServer : Type 0 where
  pub address : String
  pub domains : List String

pub record RawDns : Type 0 where
  pub dns_map : Assoc String DnsServer
  pub dns_json : String

-- `node_type` is Go's field Type.
pub record NodeInfo : Type 0 where
  pub id : ℤ
  pub node_type : String
  pub security : ℤ
  pub push_interval : ℤ
  pub pull_interval : ℤ
  pub raw_dns : RawDns
  pub rules : Rules
  pub settings : Settings
  pub common : CommonNode
