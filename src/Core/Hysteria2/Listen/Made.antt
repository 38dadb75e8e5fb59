-- ===== src/Core/Hysteria2/Listen/Made.antt =====
-- The socket, the sniffer and the bandwidth that are made of the settings.
use ccaa.Base.{
  ℕ, ℤ, pos, wrap64, scale, quot, to_bits64, itoa, String, string_eq, int_eq, str_append,
  contains_char, true, false, Bool-cases, beq_or, ◌||◌, Option, none, some, ◌⊎◌, inl, inr, ◌==◌,
  ◌≡◌, ◌≢◌, refl, if◌then◌else◌, ok, err, of_sum, Gives, bind-Gives, if-Gives, of_sum-Gives, arith,
}
use text.Mathlib.TextEquality.{eq_iff}
use ccaa.Panel.Node.{NodeInfo, Hysteria2Node, hysteria2}
use ccaa.Core.Hysteria2.Settings.{SniffSettings}
use ccaa.Core.Hysteria2.Config.{NodeOptions}
use ccaa.Core.Hysteria2.Listen.{
  Sniffer, Sockets, get_conn, get_request_hook, bytes_of_mbps, get_bandwidth_config, ports_of,
  format_address,
}

-- An IPv6 address, which has colons, stands in brackets before the port.
abbrev pub IsAddress : String → ℤ → String → Type 0
IsAddress ip port address =
    ((contains_char 58 ip ≡ true)
      × (address ≡ str_append "[" (str_append ip (str_append "]:" (itoa port)))))
    ⊎ ((contains_char 58 ip ≡ false) × (address ≡ str_append ip (str_append ":" (itoa port))))

format_address-IsAddress : (ip : String) (port : ℤ) → IsAddress ip port (format_address ip port)
unfolding format_address
format_address-IsAddress ip port = elim (Bool-cases (contains_char 58 ip)) [
  | inl e ↦ inl (e, rw e refl)
  | inr e ↦ inr (e, rw e refl)
]

module _ {C U : Type 0} (net : Sockets C U) (to_lower : String → String) where
  -- The socket that listens on the node's address and port, behind the obfuscator where the node
  -- asks for one.
  abbrev pub IsConn : NodeInfo → NodeOptions → Hysteria2Node → C → Type 0
  IsConn info options h conn =
      let t = to_lower h.obfs_type in
      (address : String) × (u : U) × (socket : C) × IsAddress options.listen_ip
        info.common.server_port address
      × (net.resolve_udp_addr address ≡ inr u)
      × (net.listen_udp u ≡ inr socket)
      × ((((t ≡ "") ⊎ (t ≡ "plain")) × (conn ≡ socket))
          ⊎ ((t ≡ "salamander")
              × (ob : C → C) × (net.salamander h.obfs_password ≡ inr ob)
              × (conn ≡ ob socket)))

  pub get_conn-IsConn :
      (info : NodeInfo) (options : NodeOptions) (h : Hysteria2Node)
      → info.settings ≡ hysteria2 h
      → Gives (IsConn info options h) (get_conn net to_lower info options)
  unfolding get_conn
  get_conn-IsConn info options h e =
      let P = IsConn info options h in
      let t = to_lower h.obfs_type in
      let address = format_address options.listen_ip info.common.server_port in
      let is_address = format_address-IsAddress options.listen_ip info.common.server_port in
      bind-Gives (λ u. net.resolve_udp_addr address ≡ inr u) P
        (of_sum (net.resolve_udp_addr address)) _
        (of_sum-Gives _ (net.resolve_udp_addr address) (λ u f. f))
        λ u f resolved.
          bind-Gives (λ c. net.listen_udp u ≡ inr c) P (of_sum (net.listen_udp u)) _
            (of_sum-Gives _ (net.listen_udp u) (λ c g. g))
            λ socket i listens. rw e (
              if-Gives P (t == "" || t == "plain") _ _
                (λ k. (
                  address,
                  u,
                  socket,
                  is_address,
                  resolved,
                  listens,
                  inl (beq_or t "" "plain" k, refl),
                ))
                λ k.
                  if-Gives P (t == "salamander") _ _
                    (λ l.
                      bind-Gives (λ ob. net.salamander h.obfs_password ≡ inr ob) P
                        (of_sum (net.salamander h.obfs_password)) _
                        (of_sum-Gives _ (net.salamander h.obfs_password) (λ ob m. m))
                        λ ob m made. (
                          address,
                          u,
                          socket,
                          is_address,
                          resolved,
                          listens,
                          inr ((eq_iff t "salamander").0 l, ob, made, refl),
                        ))
                    (λ l. tt))

-- The ports are those that the text stands for; an empty one asks for none.
abbrev pub ArePorts : {P : Type 0} → (String → Option P) → String → Option P → Type 0
ArePorts {P} parse s ports =
    ((s ≡ "") × (ports ≡ none)) ⊎ ((s ≢ "") × (p : P) × (parse s ≡ some p) × (ports ≡ some p))

module _ {P : Type 0} (parse : String → Option P) where
  parsed-ArePorts :
      (s e : String) (o : Option P)
      → parse s ≡ o
      → s ≢ ""
      → Gives (ArePorts parse s) (elim o [ none ↦ err e | some p ↦ ok (some p) ])
  parsed-ArePorts s e none g h = tt
  parsed-ArePorts s e (some p) g h = inr (h, p, g, refl)

  ports_of-ArePorts : (s e : String) → Gives (ArePorts parse s) (ports_of parse s e)
  ports_of-ArePorts s e = elim (Bool-cases (s == "")) [
    | inl f ↦ rw f (inl ((eq_iff s "").0 f, refl))
    | inr f ↦ rw f (parsed-ArePorts s e (parse s) refl λ h. ground (arith, f, eq_iff s "", h))
  ]

  -- There is a sniffer exactly if it is enabled, and it has the settings.
  abbrev pub Hooks : SniffSettings → Option (Sniffer P) → Type 0
  Hooks c none = c.enable ≡ false
  Hooks c (some s) =
      (c.enable ≡ true)
      × (s.timeout ≡ c.timeout)
      × (s.rewrite_domain ≡ c.rewrite_domain)
      × ArePorts parse c.tcp_ports s.tcp_ports
      × ArePorts parse c.udp_ports s.udp_ports

  pub get_request_hook-Hooks : (c : SniffSettings) → Gives (Hooks c) (get_request_hook parse c)
  unfolding get_request_hook
  get_request_hook-Hooks c =
      let Q = Hooks c in
      if-Gives Q c.enable _ _
        (λ e.
          bind-Gives (ArePorts parse c.tcp_ports) Q (ports_of parse c.tcp_ports _) _
            (ports_of-ArePorts c.tcp_ports "sniff.tcpPorts: invalid port union")
            λ tcp f t.
              bind-Gives (ArePorts parse c.udp_ports) Q (ports_of parse c.udp_ports _) _
                (ports_of-ArePorts c.udp_ports "sniff.udpPorts: invalid port union")
                λ udp h u. (e, refl, refl, t, u))
        (λ e. e)

-- An eighth of a million bytes for each megabit, in 64 bits.
abbrev pub bytes_a_second : ℤ → ℕ
bytes_a_second mbps = to_bits64 (quot (wrap64 (scale 1_000_000 mbps)) 8)

rate_of : (n : ℤ) → (if n == pos 0 then 0 else bytes_of_mbps n) ≡ bytes_a_second n
unfolding wrap64
rate_of n = elim (Bool-cases (n == pos 0)) [
  | inl e ↦ rw ((int_eq.same_iff n (pos 0)).0 e) refl
  | inr e ↦ rw e refl
]

-- What is sent is limited by the node's rate up, what is received by its rate down.
pub get_bandwidth_config-rates :
    (h : Hysteria2Node)
    → let b = get_bandwidth_config h in
      (b.max_tx ≡ bytes_a_second h.up_mbps) × (b.max_rx ≡ bytes_a_second h.down_mbps)
unfolding get_bandwidth_config
get_bandwidth_config-rates h = (rate_of h.up_mbps, rate_of h.down_mbps)
