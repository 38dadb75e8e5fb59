-- ===== src/Core/Hysteria2/Outbound.antt =====
-- core/hy2/serverConfig.go and config.go: the outbounds, the rules before them, and the resolver
-- before the rules. The outbounds of hysteria's library are values of the type O.
pub mod Entries
pub mod Chain
use ccaa.Base.{
  ℤ, String, string_eq, str_append, Bool, true, false, not, ◌&&◌, ◌||◌, List, [], ◌∷◌, Option, none,
  some, ◌⊎◌, is_some, ◌==◌, if◌then◌else◌, Result, ok, err, panicked, ◌>>=◌, ◌>>◌, refuse_if,
  of_sum,
}
use ccaa.Core.Hysteria2.Settings.{
  ServerConfig, DirectSettings, Socks5Settings, HttpSettings, OutboundEntry, AclSettings,
  ResolverSettings, ResolverAddr,
}

-- `outbounds.DirectOutboundMode`
pub data Mode : Type 0 where
  auto six_four four_six six four : Mode

pub record GeoFiles : Type 0 where
  pub geo_ip : String
  pub geo_site : String
  pub update_interval : ℤ

-- hysteria's constructors of outbounds, and `net.ParseIP`.
pub record Outbounds (O I : Type 0) : Type 0 where
  pub direct_simple : Mode → O
  pub direct_bind_ips : Mode → Option I → Option I → String ⊎ O
  pub direct_bind_device : Mode → String → String ⊎ O
  pub socks5 : String → String → String → O
  pub http : String → Bool → String ⊎ O
  pub acl_from_file : String → List (String × O) → GeoFiles → String ⊎ O
  pub acl_from_string : String → List (String × O) → GeoFiles → String ⊎ O
  pub system_resolver : O → O
  pub resolver_tcp : String → ℤ → O → O
  pub resolver_udp : String → ℤ → O → O
  pub resolver_tls : String → ℤ → String → Bool → O → O
  pub doh_resolver : String → ℤ → String → Bool → O → O
  pub parse_ip : String → Option I

abbrev pub is_set : String → Bool
is_set s = not (s == "")

abbrev pub mode_of : String → Result Mode
mode_of m =
    if m == "" || m == "auto"
    then ok auto
    else if m == "64"
    then ok six_four
    else if m == "46"
    then ok four_six
    else if m == "6"
    then ok six
    else if m == "4"
    then ok four
    else err "outbounds.direct.mode unsupported mode"

-- The lines of an inline list.
abbrev pub lines : List String → String
lines [] = ""
lines (s ∷ []) = s
lines (s ∷ t ∷ ss) = str_append s (str_append "\n" (lines (t ∷ ss)))

module _ {O I : Type 0} (lib : Outbounds O I) (to_lower : String → String) where
  abbrev pub bind_ips : Mode → DirectSettings → Result O
  bind_ips mode c = do
    let ip4 = lib.parse_ip c.bind_ipv4
    let ip6 = lib.parse_ip c.bind_ipv6
    refuse_if (is_set c.bind_ipv4 && not (is_some ip4))
        "outbounds.direct.bindIPv4 invalid IPv4 address"
    refuse_if (is_set c.bind_ipv6 && not (is_some ip6))
        "outbounds.direct.bindIPv6 invalid IPv6 address"
    of_sum (lib.direct_bind_ips mode ip4 ip6)

  abbrev pub bound : Mode → DirectSettings → Result O
  bound mode c =
      if is_set c.bind_ipv4 || is_set c.bind_ipv6
      then bind_ips mode c
      else if is_set c.bind_device
      then of_sum (lib.direct_bind_device mode c.bind_device)
      else ok (lib.direct_simple mode)

  unfoldable pub direct_to_outbound : DirectSettings → Result O
  direct_to_outbound c = do
    mode ← mode_of (to_lower c.mode)
    refuse_if ((is_set c.bind_ipv4 || is_set c.bind_ipv6) && is_set c.bind_device)
        "outbounds.direct cannot bind both IP and device"
    bound mode c

  abbrev pub socks5_to_outbound : Socks5Settings → Result O
  socks5_to_outbound c =
      if is_set c.addr
      then ok (lib.socks5 c.addr c.username c.password)
      else err "outbounds.socks5.addr empty socks5 address"

  abbrev pub http_to_outbound : HttpSettings → Result O
  http_to_outbound c =
      if is_set c.url
      then of_sum (lib.http c.url c.insecure)
      else err "outbounds.http.url empty http address"

  -- The switch on the type of an entry.
  unfoldable pub to_outbound : OutboundEntry → Result O
  to_outbound entry =
      let t = to_lower entry.outbound_type in
      if t == "direct"
      then direct_to_outbound entry.direct
      else if t == "socks5"
      then socks5_to_outbound entry.socks5
      else if t == "http"
      then http_to_outbound entry.http
      else err "outbounds.type unsupported outbound type"

  -- The loop over the entries.
  unfoldable pub entries : List OutboundEntry → Result (List (String × O))
  entries [] = ok []
  entries (e ∷ es) = do
    refuse_if (e.name == "") "empty outbound name"
    o ← to_outbound e
    os ← entries es
    ok ((e.name, o) ∷ os)

  unfoldable pub all_outbounds : List OutboundEntry → Result (List (String × O))
  all_outbounds [] = ok (("default", lib.direct_simple auto) ∷ [])
  all_outbounds (e ∷ es) = entries (e ∷ es)

  abbrev pub has_acl : AclSettings → Bool
  has_acl c = is_set c.file || (elim c.inline [ [] ↦ false | s ∷ ss ↦ true ])

  -- `obs[0]`
  abbrev pub first_outbound : List (String × O) → Result O
  first_outbound [] = panicked
  first_outbound ((name, o) ∷ os) = ok o

  abbrev pub acl_inline : List String → List (String × O) → GeoFiles → Result O
  acl_inline [] obs geo = first_outbound obs
  acl_inline (s ∷ ss) obs geo = of_sum (lib.acl_from_string (lines (s ∷ ss)) obs geo)

  unfoldable pub with_acl : AclSettings → List (String × O) → Result O
  with_acl c obs = do
    refuse_if (is_set c.file && has_acl (record c { file = "" }))
        "cannot set both acl.file and acl.inline"
    let geo : GeoFiles = record {
      geo_ip = c.geo_ip;
      geo_site = c.geo_site;
      update_interval = c.geo_update_interval;
    }
    if is_set c.file then of_sum (lib.acl_from_file c.file obs geo) else acl_inline c.inline obs geo

  abbrev pub at : ResolverAddr → O → Result O
  at r o = if is_set r.addr then ok o else err "empty resolver address"

  unfoldable pub with_resolver : Bool → ResolverSettings → O → Result O
  with_resolver acl c o =
      let t = to_lower c.resolver_type in
      if t == "" || t == "system"
      then ok (if acl then lib.system_resolver o else o)
      else if t == "tcp"
      then at c.tcp (lib.resolver_tcp c.tcp.addr c.tcp.timeout o)
      else if t == "udp"
      then at c.udp (lib.resolver_udp c.udp.addr c.udp.timeout o)
      else if t == "tls" || t == "tcp-tls"
      then at c.tls (lib.resolver_tls c.tls.addr c.tls.timeout c.tls.sni c.tls.insecure o)
      else if t == "https" || t == "http"
      then at c.https (lib.doh_resolver c.https.addr c.https.timeout c.https.sni c.https.insecure o)
      else err "unsupported resolver type"

  unfoldable pub get_outbound_config : ServerConfig → Result O
  get_outbound_config c = do
    obs ← all_outbounds c.outbounds
    o ← with_acl c.acl obs
    with_resolver (has_acl c.acl) c.resolver o
