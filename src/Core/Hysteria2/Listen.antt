-- ===== src/Core/Hysteria2/Listen.antt =====
-- core/hy2/config.go: the socket, the bandwidth and the sniffer. Sockets and port unions are values
-- of libraries, made by functions that are arguments.
pub mod Mbps
pub mod Made
use ccaa.Base.{
  ℕ, ℤ, pos, ltb, ltb_ℤ, wrap64, scale, quot, to_bits64, itoa, String, string_eq, nat_eq, int_eq,
  str_append, contains_char, Bool, true, false, ◌||◌, Option, none, some, ◌⊎◌, inl, inr, ◌==◌,
  if◌then◌else◌, Result, ok, err, panicked, ◌>>=◌, ◌>>◌, refuse_if, of_sum,
}
use ccaa.Panel.Node.{
  NodeInfo, Hysteria2Node, Settings, v_allss, shadowsocks, trojan, tuic, any_tls, hysteria,
  hysteria2,
}
use ccaa.Core.Hysteria2.Settings.{ServerConfig, QuicSettings, SniffSettings}
use ccaa.Core.Hysteria2.Outbound.{is_set}
use ccaa.Core.Hysteria2.Config.{NodeOptions}

unfoldable pub format_address : String → ℤ → String
format_address ip port =
    if contains_char 58 ip
    then str_append "[" (str_append ip (str_append "]:" (itoa port)))
    else str_append ip (str_append ":" (itoa port))

-- `net.SplitHostPort` and `strconv.Atoi`, with `none` for an error.
unfoldable pub extract_port_from_addr :
    (String → Option (String × String)) → (String → Option ℤ) → String → ℤ
extract_port_from_addr split_host_port atoi addr = elim (split_host_port addr) [
  | none ↦ pos 0
  | some (host, port) ↦ elim (atoi port) [ none ↦ pos 0 | some n ↦ n ]
]

-- The node's pointer Hysteria2; `panicked` where it is nil.
abbrev pub hysteria2_of : Settings → Result Hysteria2Node
hysteria2_of (hysteria2 h) = ok h
hysteria2_of (v_allss s) = panicked
hysteria2_of (shadowsocks s) = panicked
hysteria2_of (trojan s) = panicked
hysteria2_of (tuic s) = panicked
hysteria2_of (any_tls s) = panicked
hysteria2_of (hysteria s) = panicked

-- The sockets C of net and correctnet, the addresses U, and hysteria's obfuscator of a socket.
pub record Sockets (C U : Type 0) : Type 0 where
  pub resolve_udp_addr : String → String ⊎ U
  pub listen_udp : U → String ⊎ C
  pub salamander : String → String ⊎ (C → C)
  pub local_addr : C → String

module _ {C U : Type 0} (net : Sockets C U) (to_lower : String → String) where
  unfoldable pub get_conn : NodeInfo → NodeOptions → Result C
  get_conn info options = do
    u_addr ←
        of_sum (net.resolve_udp_addr (format_address options.listen_ip info.common.server_port))
    conn ← of_sum (net.listen_udp u_addr)
    h ← hysteria2_of info.settings
    let t = to_lower h.obfs_type
    if t == "" || t == "plain"
        then ok conn
        else if t == "salamander"
        then (of_sum (net.salamander h.obfs_password) >>= λ ob. ok (ob conn))
        else err "unsupported obfuscation type"

-- `server.BandwidthConfig`, in bytes a second; zero is no limit.
pub record BandwidthConfig : Type 0 where
  pub max_tx : ℕ
  pub max_rx : ℕ

-- The product in an int, and its conversion to uint64.
abbrev pub bytes_of_mbps : ℤ → ℕ
bytes_of_mbps n = to_bits64 (quot (wrap64 (scale 1_000_000 n)) 8)

unfoldable pub get_bandwidth_config : Hysteria2Node → BandwidthConfig
get_bandwidth_config h = record {
  max_tx = if h.up_mbps == pos 0 then 0 else bytes_of_mbps h.up_mbps;
  max_rx = if h.down_mbps == pos 0 then 0 else bytes_of_mbps h.down_mbps;
}

-- `sniff.Sniffer`, where P is a port union.
pub record Sniffer (P : Type 0) : Type 0 where
  pub timeout : ℤ
  pub rewrite_domain : Bool
  pub tcp_ports : Option P
  pub udp_ports : Option P

-- `parse` is ParsePortUnion, which gives nil for a text that is no union.
abbrev pub ports_of : {P : Type 0} → (String → Option P) → String → String → Result (Option P)
ports_of parse s error =
    if is_set s then (elim (parse s) [ none ↦ err error | some p ↦ ok (some p) ]) else ok none

unfoldable pub get_request_hook :
    {P : Type 0} → (String → Option P) → SniffSettings → Result (Option (Sniffer P))
get_request_hook parse c =
    if c.enable
    then (do
      tcp ← ports_of parse c.tcp_ports "sniff.tcpPorts: invalid port union"
      udp ← ports_of parse c.udp_ports "sniff.udpPorts: invalid port union"
      ok (
          some (record {
            timeout = c.timeout;
            rewrite_domain = c.rewrite_domain;
            tcp_ports = tcp;
            udp_ports = udp;
          })))
    else ok none
