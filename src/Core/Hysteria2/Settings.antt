-- ===== src/Core/Hysteria2/Settings.antt =====
-- core/hy2/serverConfig.go: the settings of a server that the code reads; the struct has others, which
-- mapstructure fills in and nothing reads. A `time.Duration` is its nanoseconds.
use ccaa.Base.{ℕ, ℤ, String, Bool, List, Assoc}

pub record QuicSettings : Type 0 where
  pub init_stream_receive_window : ℕ
  pub max_stream_receive_window : ℕ
  pub init_connection_receive_window : ℕ
  pub max_connection_receive_window : ℕ
  pub max_idle_timeout : ℤ
  pub max_incoming_streams : ℤ

-- Of a resolver over TCP or UDP, which has no more, `sni` and `insecure` are not read.
pub record ResolverAddr : Type 0 where
  pub addr : String
  pub timeout : ℤ
  pub sni : String
  pub insecure : Bool

pub record ResolverSettings : Type 0 where
  pub resolver_type : String
  pub tcp : ResolverAddr
  pub udp : ResolverAddr
  pub tls : ResolverAddr
  pub https : ResolverAddr

pub record SniffSettings : Type 0 where
  pub enable : Bool
  pub timeout : ℤ
  pub rewrite_domain : Bool
  pub tcp_ports : String
  pub udp_ports : String

pub record AclSettings : Type 0 where
  pub file : String
  pub inline : List String
  pub geo_ip : String
  pub geo_site : String
  pub geo_update_interval : ℤ

pub record DirectSettings : Type 0 where
  pub mode : String
  pub bind_ipv4 : String
  pub bind_ipv6 : String
  pub bind_device : String

pub record Socks5Settings : Type 0 where
  pub addr : String
  pub username : String
  pub password : String

pub record HttpSettings : Type 0 where
  pub url : String
  pub insecure : Bool

pub record OutboundEntry : Type 0 where
  pub name : String
  pub outbound_type : String
  pub direct : DirectSettings
  pub socks5 : Socks5Settings
  pub http : HttpSettings

pub record MasqueradeProxy : Type 0 where
  pub url : String
  pub rewrite_host : Bool

pub record MasqueradeString : Type 0 where
  pub content : String
  pub headers : Assoc String String
  pub status_code : ℤ

pub record MasqueradeSettings : Type 0 where
  pub masquerade_type : String
  pub dir : String
  pub proxy : MasqueradeProxy
  pub fixed : MasqueradeString
  pub listen_http : String
  pub listen_https : String
  pub force_https : Bool

pub record ServerConfig : Type 0 where
  pub quic : QuicSettings
  pub disable_udp : Bool
  pub udp_idle_timeout : ℤ
  pub resolver : ResolverSettings
  pub sniff : SniffSettings
  pub acl : AclSettings
  pub outbounds : List OutboundEntry
  pub masquerade : MasqueradeSettings
