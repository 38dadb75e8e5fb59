-- ===== src/Core/Hysteria2/Server/Sound.antt =====
-- What a server's configuration has, whatever the libraries do.
use ccaa.Base.{
  String, string_eq, Bool, true, false, ◌||◌, some, ◌⊎◌, inl, inr, ◌≡◌, refl, ap, ◌∙◌, ◌==◌, Result,
  ok, err, panicked, Gives, bind-Gives, if-Gives, of_sum-Gives, Option-cases,
}
use ccaa.Panel.Node.{NodeInfo, Hysteria2Node, hysteria2}
use ccaa.Core.Hysteria2.Settings.{ServerConfig}
use ccaa.Core.Hysteria2.Outbound.{get_outbound_config}
use ccaa.Core.Hysteria2.Outbound.Chain.{IsChain, get_outbound_config-IsChain}
use ccaa.Core.Hysteria2.Config.{
  NodeOptions, QuicConfig, CertConfig, get_tls_config, get_quic_config,
}
use ccaa.Core.Hysteria2.Listen.{get_conn, get_request_hook, get_bandwidth_config, hysteria2_of}
use ccaa.Core.Hysteria2.Listen.Made.{
  IsConn, get_conn-IsConn, Hooks, get_request_hook-Hooks, bytes_a_second,
  get_bandwidth_config-rates,
}
use ccaa.Core.Hysteria2.Config.Quic.{IsOutcome, is_allowed, quic_of, get_quic_config_lem}
use ccaa.Core.Hysteria2.Masquerade.{get_masq_handler}
use ccaa.Core.Hysteria2.Masquerade.Answers.{Serves, get_masq_handler-Serves}
use ccaa.Core.Hysteria2.Server.{Libraries, HyConfig, get_hy_config}

-- The certificate is one that the mode asks for.
abbrev pub HasCert : {T : Type 0} → (String → String → String ⊎ T) → NodeOptions → T → Type 0
HasCert load_key_pair options cert =
    (c : CertConfig) × (options.cert_config ≡ some c)
    × ((c.cert_mode == "none" || c.cert_mode == "") ≡ false)
    × (load_key_pair c.cert_file c.key_file ≡ inr cert)

get_tls_config-HasCert :
    {T : Type 0} (load_key_pair : String → String → String ⊎ T) (options : NodeOptions)
    → Gives (HasCert load_key_pair options) (get_tls_config load_key_pair options)
unfolding get_tls_config
get_tls_config-HasCert load_key_pair options = elim (Option-cases options.cert_config) [
  | inl e ↦ rw e tt
  | inr (c, e) ↦ rw e (
      if-Gives _ (c.cert_mode == "none" || c.cert_mode == "") _ _ (λ f. tt)
        λ f. of_sum-Gives _ (load_key_pair c.cert_file c.key_file) λ cert g. (c, refl, f, g))
]

-- The QUIC settings are allowed, and the configuration is theirs.
abbrev pub IsQuic : ServerConfig → QuicConfig → Type 0
IsQuic c q = (is_allowed c.quic ≡ true) × (q ≡ quic_of c.quic)

allowed :
    (m : Result QuicConfig) (b : Bool) (q : QuicConfig)
    → IsOutcome b q m
    → Gives (λ x. (b ≡ true) × (x ≡ q)) m
allowed (ok x) b q h = h
allowed (err e) b q h = tt
allowed panicked b q h = h

get_quic_config-IsQuic : (c : ServerConfig) → Gives (IsQuic c) (get_quic_config c)
get_quic_config-IsQuic c =
    allowed (get_quic_config c) (is_allowed c.quic) (quic_of c.quic) (get_quic_config_lem c)

hysteria2_of-returns :
    (info : NodeInfo) (h : Hysteria2Node)
    → info.settings ≡ hysteria2 h
    → Gives (λ x. x ≡ h) (hysteria2_of info.settings)
hysteria2_of-returns info h e = rw e refl

module _ {T C U P O I : Type 0} (libs : Libraries T C U P O I) where
  -- What the parts have.
  abbrev pub IsSound :
      NodeInfo → NodeOptions → ServerConfig → Hysteria2Node → HyConfig T C P O → Type 0
  IsSound info options c h config =
      HasCert libs.load_key_pair options config.tls_config
      × IsQuic c config.quic_config
      × IsConn libs.net libs.to_lower info options h config.conn
      × Hooks libs.parse_port_union c.sniff config.request_hook
      × IsChain libs.outbounds libs.to_lower c config.outbound
      × Serves libs.parse_url libs.to_lower c.masquerade (config.masq_handler, config.masq_server)
      × (config.bandwidth_config.max_tx ≡ bytes_a_second h.up_mbps)
      × (config.bandwidth_config.max_rx ≡ bytes_a_second h.down_mbps)
      × (config.ignore_client_bandwidth ≡ h.ignore_client_bandwidth)
      × (config.disable_udp ≡ c.disable_udp)
      × (config.udp_idle_timeout ≡ c.udp_idle_timeout)

  -- The last step, with the node's settings.
  rates :
      (h hy : Hysteria2Node)
      → hy ≡ h
      → let b = get_bandwidth_config hy in
        (b.max_tx ≡ bytes_a_second h.up_mbps)
        × (b.max_rx ≡ bytes_a_second h.down_mbps)
        × (hy.ignore_client_bandwidth ≡ h.ignore_client_bandwidth)
  rates h hy e =
      let (tx, rx) = get_bandwidth_config-rates hy in
      (
        tx ∙ ap (λ x. bytes_a_second (Hysteria2Node.up_mbps x)) e,
        rx ∙ ap (λ x. bytes_a_second (Hysteria2Node.down_mbps x)) e,
        ap Hysteria2Node.ignore_client_bandwidth e,
      )

  -- For a node with settings of hysteria2, getHyConfig never panics, and the configuration it gives
  -- has the certificate of its mode, which is not none; the QUIC settings, which are allowed, with
  -- the defaults for those that are unset; the socket on the node's address and port, behind the
  -- obfuscator that the node asks for; the sniffer, if it is enabled; the chain of the outbounds that
  -- the entries ask for, the rules, and the resolver of the type that is set; the handler of the masquerade's type, a fixed
  -- answer only with a status from 200 to 599 other than 233, and servers over TCP only with an
  -- address for HTTPS; and the node's bandwidth up and down in bytes a second, computed in 64 bits.
  pub get_hy_config-IsSound :
      (info : NodeInfo) (options : NodeOptions) (c : ServerConfig) (h : Hysteria2Node)
      → info.settings ≡ hysteria2 h
      → Gives (IsSound info options c h) (get_hy_config libs info options c)
  unfolding get_hy_config
  get_hy_config-IsSound info options c h e =
      let Q = IsSound info options c h in
      bind-Gives (HasCert libs.load_key_pair options) Q (get_tls_config libs.load_key_pair options)
        _ (get_tls_config-HasCert libs.load_key_pair options)
        λ tls f cert.
          bind-Gives (IsQuic c) Q (get_quic_config c) _ (get_quic_config-IsQuic c) λ quic g good.
            bind-Gives (IsConn libs.net libs.to_lower info options h) Q
              (get_conn libs.net libs.to_lower info options) _
              (get_conn-IsConn libs.net libs.to_lower info options h e)
              λ conn i j.
                bind-Gives (Hooks libs.parse_port_union c.sniff) Q
                  (get_request_hook libs.parse_port_union c.sniff) _
                  (get_request_hook-Hooks libs.parse_port_union c.sniff)
                  λ sniff k l.
                    bind-Gives (IsChain libs.outbounds libs.to_lower c) Q
                      (get_outbound_config libs.outbounds libs.to_lower c) _
                      (get_outbound_config-IsChain libs.outbounds libs.to_lower c)
                      λ outbound m chain.
                        bind-Gives (Serves libs.parse_url libs.to_lower c.masquerade) Q
                          (get_masq_handler libs.split_host_port libs.atoi libs.parse_url
                            libs.to_lower (libs.net.local_addr conn) c.masquerade)
                          _
                          (get_masq_handler-Serves libs.parse_url libs.to_lower libs.split_host_port
                            libs.atoi (libs.net.local_addr conn) c.masquerade)
                          λ masq n serves.
                            bind-Gives (λ x. x ≡ h) Q (hysteria2_of info.settings) _
                              (hysteria2_of-returns info h e)
                              λ hy o same.
                                let (tx, rx, own) = rates h hy same in
                                (cert, good, j, l, chain, serves, tx, rx, own, refl, refl)
