-- ===== src/Core/Hysteria2/Server.antt =====
-- core/hy2/config.go: getHyConfig, which puts the parts together. The loggers are left out.
pub mod Sound
use ccaa.Base.{ℕ, ℤ, String, Bool, Option, ◌⊎◌, Result, ok, err, ◌>>=◌}
use ccaa.Panel.Node.{NodeInfo, Hysteria2Node}
use ccaa.Core.Hysteria2.Settings.{ServerConfig}
use ccaa.Core.Hysteria2.Outbound.{Outbounds, get_outbound_config}
use ccaa.Core.Hysteria2.Config.{NodeOptions, QuicConfig, get_tls_config, get_quic_config}
use ccaa.Core.Hysteria2.Listen.{
  BandwidthConfig, Sniffer, Sockets, get_conn, get_request_hook, get_bandwidth_config, hysteria2_of,
}
use ccaa.Core.Hysteria2.Masquerade.{Url, Handler, MasqTcpServer, get_masq_handler}

-- What the code calls: certificates T, sockets C at addresses U, port unions P, outbounds O and IP
-- addresses I.
pub record Libraries (T C U P O I : Type 0) : Type 0 where
  pub to_lower : String → String
  pub load_key_pair : String → String → String ⊎ T
  pub net : Sockets C U
  pub parse_port_union : String → Option P
  pub outbounds : Outbounds O I
  pub parse_url : String → String ⊎ Url
  pub split_host_port : String → Option (String × String)
  pub atoi : String → Option ℤ

-- `server.Config`, and the servers over TCP that getMasqHandler starts.
pub record HyConfig (T C P O : Type 0) : Type 0 where
  pub tls_config : T
  pub quic_config : QuicConfig
  pub conn : C
  pub request_hook : Option (Sniffer P)
  pub outbound : O
  pub bandwidth_config : BandwidthConfig
  pub ignore_client_bandwidth : Bool
  pub disable_udp : Bool
  pub udp_idle_timeout : ℤ
  pub masq_handler : Handler
  pub masq_server : Option MasqTcpServer

module _ {T C U P O I : Type 0} (libs : Libraries T C U P O I) where
  unfoldable pub get_hy_config : NodeInfo → NodeOptions → ServerConfig → Result (HyConfig T C P O)
  get_hy_config info options c = do
    tls ← get_tls_config libs.load_key_pair options
    quic ← get_quic_config c
    conn ← get_conn libs.net libs.to_lower info options
    sniff ← get_request_hook libs.parse_port_union c.sniff
    outbound ← get_outbound_config libs.outbounds libs.to_lower c
    masq ←
        get_masq_handler libs.split_host_port libs.atoi libs.parse_url libs.to_lower
          (libs.net.local_addr conn) c.masquerade
    hy ← hysteria2_of info.settings
    ok (record {
      tls_config = tls;
      quic_config = quic;
      conn = conn;
      request_hook = sniff;
      outbound = outbound;
      bandwidth_config = get_bandwidth_config hy;
      ignore_client_bandwidth = hy.ignore_client_bandwidth;
      disable_udp = c.disable_udp;
      udp_idle_timeout = c.udp_idle_timeout;
      masq_handler = masq.0;
      masq_server = masq.1;
    })
