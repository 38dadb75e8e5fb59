-- ===== src/Core/Hysteria2/Config.antt =====
-- core/hy2/config.go: the certificate and the settings of QUIC. Certificates are values of a library,
-- made by a function that is an argument.
pub mod Quic
use ccaa.Base.{
  ℕ, ℤ, pos, ltb, ltb_ℤ, wrap64, scale, quot, to_bits64, itoa, String, string_eq, nat_eq, int_eq,
  str_append, contains_char, Bool, true, false, ◌||◌, Option, none, some, ◌⊎◌, inl, inr, ◌==◌,
  if◌then◌else◌, Result, ok, err, panicked, ◌>>=◌, ◌>>◌, refuse_if, of_sum,
}
use ccaa.Panel.Node.{
  NodeInfo, Hysteria2Node, Settings, v_allss, shadowsocks, trojan, tuic, any_tls, hysteria,
  hysteria2,
}
use ccaa.Core.Hysteria2.Settings.{ServerConfig, QuicSettings, SniffSettings}
use ccaa.Core.Hysteria2.Outbound.{is_set}

pub record CertConfig : Type 0 where
  pub cert_mode : String
  pub cert_file : String
  pub key_file : String

-- The parts of conf.Options that this core reads.
pub record NodeOptions : Type 0 where
  pub listen_ip : String
  pub report_min_traffic : ℤ
  pub hysteria2_config_path : String
  pub cert_config : Option CertConfig

-- `tls.LoadX509KeyPair` is asked again for each connection; here for the first certificate.
unfoldable pub get_tls_config :
    {T : Type 0} → (String → String → String ⊎ T) → NodeOptions → Result T
get_tls_config load_key_pair options = elim options.cert_config [
  | none ↦ err "the CertConfig is not vail"
  | some c ↦
      if c.cert_mode == "none" || c.cert_mode == ""
      then err "the CertMode cannot be none"
      else of_sum (load_key_pair c.cert_file c.key_file)
]

-- `server.QUICConfig`
pub record QuicConfig : Type 0 where
  pub initial_stream_receive_window : ℕ
  pub max_stream_receive_window : ℕ
  pub initial_connection_receive_window : ℕ
  pub max_connection_receive_window : ℕ
  pub max_idle_timeout : ℤ
  pub max_incoming_streams : ℤ
  pub disable_path_mtu_discovery : Bool

abbrev pub zero_quic : QuicConfig
zero_quic = record {
  initial_stream_receive_window = 0;
  max_stream_receive_window = 0;
  initial_connection_receive_window = 0;
  max_connection_receive_window = 0;
  max_idle_timeout = pos 0;
  max_incoming_streams = pos 0;
  disable_path_mtu_discovery = false;
}

abbrev pub default_stream_receive_window : ℕ
default_stream_receive_window = 8_388_608

abbrev pub default_conn_receive_window : ℕ
default_conn_receive_window = 20_971_520

abbrev pub seconds : ℕ → ℤ
seconds n = scale 1_000_000_000 (pos n)

-- The six tests, each with the field that it writes. The first one writes another's field.
unfoldable pub init_stream : QuicSettings → QuicConfig → Result QuicConfig
init_stream c q =
    if c.init_stream_receive_window == 0
    then ok (record q { initial_stream_receive_window = default_stream_receive_window })
    else if ltb c.init_stream_receive_window 16384
    then err "QUICConfig.InitialStreamReceiveWindowf must be at least 16384"
    else ok (record q { initial_connection_receive_window = c.init_connection_receive_window })

unfoldable pub max_stream : QuicSettings → QuicConfig → Result QuicConfig
max_stream c q =
    if c.max_stream_receive_window == 0
    then ok (record q { max_stream_receive_window = default_stream_receive_window })
    else if ltb c.max_stream_receive_window 16384
    then err "QUICConfig.MaxStreamReceiveWindowf must be at least 16384"
    else ok (record q { max_stream_receive_window = c.max_stream_receive_window })

unfoldable pub init_connection : QuicSettings → QuicConfig → Result QuicConfig
init_connection c q =
    if c.init_connection_receive_window == 0
    then ok (record q { initial_connection_receive_window = default_conn_receive_window })
    else if ltb c.init_connection_receive_window 16384
    then err "QUICConfig.InitialConnectionReceiveWindowf must be at least 16384"
    else ok (record q { initial_connection_receive_window = c.init_connection_receive_window })

unfoldable pub max_connection : QuicSettings → QuicConfig → Result QuicConfig
max_connection c q =
    if c.max_connection_receive_window == 0
    then ok (record q { max_connection_receive_window = default_conn_receive_window })
    else if ltb c.max_connection_receive_window 16384
    then err "QUICConfig.MaxConnectionReceiveWindowf must be at least 16384"
    else ok (record q { max_connection_receive_window = c.max_connection_receive_window })

unfoldable pub idle_timeout : QuicSettings → QuicConfig → Result QuicConfig
idle_timeout c q =
    if c.max_idle_timeout == pos 0
    then ok (record q { max_idle_timeout = seconds 30 })
    else if ltb_ℤ c.max_idle_timeout (seconds 4) || ltb_ℤ (seconds 120) c.max_idle_timeout
    then err "QUICConfig.MaxIdleTimeoutf must be between 4s and 120s"
    else ok (record q { max_idle_timeout = c.max_idle_timeout })

unfoldable pub incoming_streams : QuicSettings → QuicConfig → Result QuicConfig
incoming_streams c q =
    if c.max_incoming_streams == pos 0
    then ok (record q { max_incoming_streams = pos 4096 })
    else if ltb_ℤ c.max_incoming_streams (pos 8)
    then err "QUICConfig.MaxIncomingStreamsf must be at least 8"
    else ok (record q { max_incoming_streams = c.max_incoming_streams })

unfoldable pub get_quic_config : ServerConfig → Result QuicConfig
get_quic_config config = do
  let c = config.quic
  q1 ← init_stream c zero_quic
  q2 ← max_stream c q1
  q3 ← init_connection c q2
  q4 ← max_connection c q3
  q5 ← idle_timeout c q4
  q6 ← incoming_streams c q5
  ok (record q6 { disable_path_mtu_discovery = false })
