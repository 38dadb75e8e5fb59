-- ===== src/Core/Hysteria2/Node/Tests.antt =====
-- The hysteria core at a concrete node, with libraries whose values are texts.
use ccaa.Base.{
  pos, negsuc, String, string_eq, str_append, false, [], ◌∷◌, Option, none, some, ◌⊎◌, inr, ◌≡◌,
  refl, load, store, wrap64, ok, Gives,
}
use ccaa.Panel.Node.{NodeInfo, hysteria2}
use ccaa.Panel.Node as Panel
use ccaa.Core.Hysteria2.Settings.{ServerConfig, ResolverAddr}
use ccaa.Core.Hysteria2.Outbound.{
  Outbounds, get_outbound_config, with_acl, all_outbounds, with_resolver,
}
use ccaa.Core.Hysteria2.Config.{
  NodeOptions, get_tls_config, get_quic_config, init_stream, max_stream, init_connection,
  max_connection, idle_timeout, incoming_streams,
}
use ccaa.Core.Hysteria2.Listen.{Sockets, get_conn, get_request_hook}
use ccaa.Core.Hysteria2.Config.Quic.{IsOutcome, is_allowed, quic_of, get_quic_config_lem}
use ccaa.Core.Hysteria2.Masquerade.{handler_of, get_masq_handler}
use ccaa.Core.Hysteria2.Server.{Libraries, HyConfig, get_hy_config}
use ccaa.Core.Hysteria2.Server.Sound.{IsSound, get_hy_config-IsSound}
use ccaa.Core.Hysteria2.Node.{Hysteria2Node, Hysteria2, add_node, del_node}
use ccaa.Core.Hysteria2.Node.Nodes.{del_node-add_node}

abbrev outbounds : Outbounds String String
outbounds = record {
  direct_simple = λ m. "direct";
  direct_bind_ips = λ m ip4 ip6. inr "direct";
  direct_bind_device = λ m d. inr "direct";
  socks5 = λ a u p. a;
  http = λ u i. inr u;
  acl_from_file = λ f obs geo. inr f;
  acl_from_string = λ s obs geo. inr s;
  system_resolver = λ o. str_append "system " o;
  resolver_tcp = λ a t o. o;
  resolver_udp = λ a t o. o;
  resolver_tls = λ a t s i o. o;
  doh_resolver = λ a t s i o. o;
  parse_ip = λ s. some s;
}

abbrev net : Sockets String String
net = record {
  resolve_udp_addr = inr;
  listen_udp = inr;
  salamander = λ p. inr (λ c. c);
  local_addr = λ c. c;
}

abbrev libs : Libraries String String String String String String
libs = record {
  to_lower = λ s. s;
  load_key_pair = λ c k. inr c;
  net = net;
  parse_port_union = some;
  outbounds = outbounds;
  parse_url = λ s. inr (record { scheme = "https"; host = s });
  split_host_port = λ s. none;
  atoi = λ s. none;
}

abbrev no_addr : ResolverAddr
no_addr = record { addr = ""; timeout = pos 0; sni = ""; insecure = false }

-- A fixed answer, inline rules, and a stream window that is set.
abbrev config : ServerConfig
config = record {
  quic = record {
    init_stream_receive_window = 65536;
    max_stream_receive_window = 0;
    init_connection_receive_window = 0;
    max_connection_receive_window = 0;
    max_idle_timeout = pos 0;
    max_incoming_streams = pos 0;
  };
  disable_udp = false;
  udp_idle_timeout = pos 0;
  resolver = record {
    resolver_type = "";
    tcp = no_addr;
    udp = no_addr;
    tls = no_addr;
    https = no_addr;
  };
  sniff = record {
    enable = false;
    timeout = pos 0;
    rewrite_domain = false;
    tcp_ports = "";
    udp_ports = "";
  };
  acl = record {
    file = "";
    inline = "reject(all)" ∷ [];
    geo_ip = "";
    geo_site = "";
    geo_update_interval = pos 0;
  };
  outbounds = [];
  masquerade = record {
    masquerade_type = "string";
    dir = "";
    proxy = record { url = ""; rewrite_host = false };
    fixed = record { content = "hello"; headers = []; status_code = pos 0 };
    listen_http = "";
    listen_https = "";
    force_https = false;
  };
}

abbrev settings : Panel.Hysteria2Node
settings = record {
  ignore_client_bandwidth = false;
  up_mbps = pos 100;
  down_mbps = negsuc 0;
  obfs_type = "";
  obfs_password = "";
}

abbrev info : NodeInfo
info = record {
  id = pos 1;
  node_type = "hysteria2";
  security = pos 1;
  push_interval = pos 60;
  pull_interval = pos 60;
  raw_dns = record { dns_map = []; dns_json = "" };
  rules = record { regexp = []; protocol = [] };
  settings = hysteria2 settings;
  common = record { host = ""; server_port = pos 443; server_name = "" };
}

abbrev options : NodeOptions
options = record {
  listen_ip = "::";
  report_min_traffic = pos 0;
  hysteria2_config_path = "";
  cert_config = some (record { cert_mode = "file"; cert_file = "cert"; key_file = "key" });
}

get_quic_config_lem_example :
    IsOutcome (is_allowed config.quic) (quic_of config.quic) (get_quic_config config)
get_quic_config_lem_example = get_quic_config_lem config

outbound_of_config : get_outbound_config outbounds libs.to_lower config ≡ ok "system reject(all)"
unfolding get_outbound_config with_acl all_outbounds with_resolver
outbound_of_config = refl

get_hy_config-IsSound_example :
    Gives (IsSound libs info options config settings) (get_hy_config libs info options config)
get_hy_config-IsSound_example = get_hy_config-IsSound libs info options config settings refl

abbrev core : Hysteria2 String
core = record { nodes = []; users = [] }

abbrev added : Hysteria2Node String
added = record {
  server = "system reject(all)";
  tag = "n";
  report_min_traffic_bytes = pos 0;
  counter = [];
}

abbrev with_node : Hysteria2 String
with_node = record { nodes = ("n", added) ∷ []; users = [] }

abbrev new_server : HyConfig String String String String → String ⊎ String
new_server c = inr c.outbound

abbrev close_server : String → Option String
close_server s = none

added_node : add_node libs config (λ p. none) new_server "n" info options core ≡ ok with_node
unfolding add_node get_hy_config get_tls_config get_quic_config init_stream max_stream
    init_connection max_connection idle_timeout incoming_streams get_conn get_request_hook
    get_outbound_config with_acl all_outbounds with_resolver get_masq_handler handler_of store
    wrap64
added_node = refl

del_node-add_node_example :
    (g : Hysteria2 String) × (del_node close_server "n" with_node ≡ ok g)
    × (load "m" g.nodes ≡ load "m" core.nodes)
    × (g.users ≡ core.users)
unfolding load
del_node-add_node_example =
    del_node-add_node libs config (λ p. none) new_server close_server "n" "m" info options core
      with_node added refl added_node refl refl
