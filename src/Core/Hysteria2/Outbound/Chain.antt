-- ===== src/Core/Hysteria2/Outbound/Chain.antt =====
-- The chain that is built of the settings: Resolver(ACL(Outbounds...)).
use ccaa.Base.{
  String, string_eq, Bool, true, false, ◌&&◌, ◌||◌, beq_or, List, [], ◌∷◌, ◌⊎◌, inl, inr, ◌≡◌, ◌≢◌,
  refl, ◌==◌, if◌then◌else◌, ok, Gives, bind-Gives, if-Gives, refuse_if-Gives, of_sum-Gives,
  Gives-map, arith,
}
use text.Mathlib.TextEquality.{eq_iff}
use ccaa.Core.Hysteria2.Settings.{
  ServerConfig, OutboundEntry, AclSettings, ResolverSettings, ResolverAddr,
}
use ccaa.Core.Hysteria2.Outbound.{
  auto, GeoFiles, Outbounds, is_set, lines, to_outbound, entries, all_outbounds, has_acl,
  first_outbound, acl_inline, with_acl, at, with_resolver, get_outbound_config,
}
use ccaa.Core.Hysteria2.Outbound.Entries.{IsMade, to_outbound-IsMade}

module _ {O I : Type 0} (lib : Outbounds O I) (to_lower : String → String) where
  -- One outbound for each entry, in their order: the one that the entry asks for, under its name.
  abbrev pub AreMade : List OutboundEntry → List (String × O) → Type 0
  AreMade [] [] = Unit
  AreMade [] (o ∷ os) = ⊥
  AreMade (e ∷ es) [] = ⊥
  AreMade (e ∷ es) ((name, o) ∷ os) =
      (name ≡ e.name) × (name ≢ "") × IsMade lib to_lower e o × AreMade es os

  entries-AreMade : (es : List OutboundEntry) → Gives (AreMade es) (entries lib to_lower es)
  unfolding entries
  entries-AreMade [] = tt
  entries-AreMade (e ∷ es) = refuse_if-Gives (AreMade (e ∷ es)) (e.name == "") _ _ λ named.
      bind-Gives (IsMade lib to_lower e) (AreMade (e ∷ es)) (to_outbound lib to_lower e) _
        (to_outbound-IsMade lib to_lower e)
        λ o made h.
          bind-Gives (AreMade es) (AreMade (e ∷ es)) (entries lib to_lower es) _
            (entries-AreMade es) λ os f rest. (refl, λ x. ground (arith, eq_iff e.name ""), h, rest)

  -- Without an entry there is a direct outbound.
  abbrev pub Listed : List OutboundEntry → List (String × O) → Type 0
  Listed [] obs = obs ≡ ("default", lib.direct_simple auto) ∷ []
  Listed (e ∷ es) obs = AreMade (e ∷ es) obs

  all_outbounds-Listed :
      (es : List OutboundEntry) → Gives (Listed es) (all_outbounds lib to_lower es)
  unfolding all_outbounds
  all_outbounds-Listed [] = refl
  all_outbounds-Listed (e ∷ es) = entries-AreMade (e ∷ es)

  abbrev pub geo_of : AclSettings → GeoFiles
  geo_of c = record {
    geo_ip = c.geo_ip;
    geo_site = c.geo_site;
    update_interval = c.geo_update_interval;
  }

  -- The engine of the rules in the file, or of the inline ones, or the first outbound.
  abbrev pub Chosen : AclSettings → List (String × O) → O → Type 0
  Chosen c obs p =
      ((is_set c.file ≡ true) × (lib.acl_from_file c.file obs (geo_of c) ≡ inr p))
      ⊎ ((is_set c.file ≡ false)
          × (has_acl lib to_lower c ≡ true)
          × (lib.acl_from_string (lines c.inline) obs (geo_of c) ≡ inr p))
      ⊎ ((has_acl lib to_lower c ≡ false) × (first_outbound lib to_lower obs ≡ ok p))

  Listed-first :
      (es : List OutboundEntry) (obs : List (String × O))
      → Listed es obs
      → Gives (λ p. first_outbound lib to_lower obs ≡ ok p) (first_outbound lib to_lower obs)
  Listed-first es ((name, o) ∷ os) h = refl
  Listed-first [] [] h = absurd (cc)
  Listed-first (e ∷ es) [] h = h

  inline-Chosen :
      (c : AclSettings) (obs : List (String × O)) (ss : List String)
      → c.inline ≡ ss
      → is_set c.file ≡ false
      → Gives (λ p. first_outbound lib to_lower obs ≡ ok p) (first_outbound lib to_lower obs)
      → Gives (Chosen c obs) (acl_inline lib to_lower ss obs (geo_of c))
  inline-Chosen c obs [] e f first =
      Gives-map _ (Chosen c obs) (first_outbound lib to_lower obs) first
        λ p g. inr (inr (ground (arith, e), g))
  inline-Chosen c obs (s ∷ ss) e f first =
      of_sum-Gives (Chosen c obs) (lib.acl_from_string (lines (s ∷ ss)) obs (geo_of c))
        λ p g. inr (inl (f, ground (arith, e), rw e g))

  with_acl-Chosen :
      (c : AclSettings) (es : List OutboundEntry) (obs : List (String × O))
      → Listed es obs
      → Gives (Chosen c obs) (with_acl lib to_lower c obs)
  unfolding with_acl
  with_acl-Chosen c es obs h =
      refuse_if-Gives (Chosen c obs)
        (is_set c.file && has_acl lib to_lower (record c { file = "" })) _ _
        λ x.
          if-Gives (Chosen c obs) (is_set c.file) _ _
            (λ y.
              of_sum-Gives (Chosen c obs) (lib.acl_from_file c.file obs (geo_of c))
                λ p e. inl (y, e))
            (λ y. inline-Chosen c obs c.inline refl y (Listed-first es obs h))

  -- The resolver that the type asks for, with the settings of that type, before another outbound;
  -- the system's is only there where rules are.
  abbrev pub Fronts : Bool → ResolverSettings → O → O → Type 0
  Fronts acl c p o =
      let t = to_lower c.resolver_type in
      (((t ≡ "") ⊎ (t ≡ "system")) × (o ≡ (if acl then lib.system_resolver p else p)))
      ⊎ ((t ≡ "tcp") × (c.tcp.addr ≢ "") × (o ≡ lib.resolver_tcp c.tcp.addr c.tcp.timeout p))
      ⊎ ((t ≡ "udp") × (c.udp.addr ≢ "") × (o ≡ lib.resolver_udp c.udp.addr c.udp.timeout p))
      ⊎ (((t ≡ "tls") ⊎ (t ≡ "tcp-tls"))
          × (c.tls.addr ≢ "")
          × (o ≡ lib.resolver_tls c.tls.addr c.tls.timeout c.tls.sni c.tls.insecure p))
      ⊎ (((t ≡ "https") ⊎ (t ≡ "http"))
          × (c.https.addr ≢ "")
          × (o ≡ lib.doh_resolver c.https.addr c.https.timeout c.https.sni c.https.insecure p))

  at-Gives :
      (P : O → Type 0) (r : ResolverAddr) (o : O)
      → (r.addr ≢ "" → P o)
      → Gives P (at lib to_lower r o)
  at-Gives P r o h =
      if-Gives P (is_set r.addr) _ _ (λ e. h (λ f. ground (arith, eq_iff r.addr ""))) (λ e. tt)

  with_resolver-Fronts :
      (acl : Bool) (c : ResolverSettings) (p : O)
      → Gives (Fronts acl c p) (with_resolver lib to_lower acl c p)
  unfolding with_resolver
  with_resolver-Fronts acl c p =
      let t = to_lower c.resolver_type in
      let P = Fronts acl c p in
      if-Gives P (t == "" || t == "system") _ _ (λ x. inl (beq_or t "" "system" x, refl))
        λ x.
          if-Gives P (t == "tcp") _ _
            (λ y. at-Gives P c.tcp _ λ h. inr (inl ((eq_iff t "tcp").0 y, h, refl)))
            λ y.
              if-Gives P (t == "udp") _ _
                (λ z. at-Gives P c.udp _ λ h. inr (inr (inl ((eq_iff t "udp").0 z, h, refl))))
                λ z.
                  if-Gives P (t == "tls" || t == "tcp-tls") _ _
                    (λ w.
                      at-Gives P c.tls _
                        λ h. inr (inr (inr (inl (beq_or t "tls" "tcp-tls" w, h, refl)))))
                    λ w.
                      if-Gives P (t == "https" || t == "http") _ _
                        (λ v.
                          at-Gives P c.https _
                            λ h. inr (inr (inr (inr (beq_or t "https" "http" v, h, refl)))))
                        (λ v. tt)

  -- The chain of the settings: the outbounds of all entries, the rules over them or the first one,
  -- and the resolver.
  abbrev pub IsChain : ServerConfig → O → Type 0
  IsChain c o =
      (obs : List (String × O)) × (p : O) × Listed c.outbounds obs
      × Chosen c.acl obs p
      × Fronts (has_acl lib to_lower c.acl) c.resolver p o

  -- getOutboundConfig never panics, and what it gives is a resolver before the engine of the rules
  -- over all the outbounds, or before the first of them where there are no rules: the resolver is the
  -- one of the type that is set, at its own address, and for the system's type it is missing where
  -- there are no rules. The outbounds are those of the entries, in their order and under their
  -- names, none of which is empty, or without an entry a direct one.
  pub get_outbound_config-IsChain :
      (c : ServerConfig) → Gives (IsChain c) (get_outbound_config lib to_lower c)
  unfolding get_outbound_config
  get_outbound_config-IsChain c =
      bind-Gives (Listed c.outbounds) (IsChain c) (all_outbounds lib to_lower c.outbounds) _
        (all_outbounds-Listed c.outbounds)
        λ obs e listed.
          bind-Gives (Chosen c.acl obs) (IsChain c) (with_acl lib to_lower c.acl obs) _
            (with_acl-Chosen c.acl c.outbounds obs listed)
            λ p f base.
              Gives-map (Fronts (has_acl lib to_lower c.acl) c.resolver p) (IsChain c)
                (with_resolver lib to_lower (has_acl lib to_lower c.acl) c.resolver p)
                (with_resolver-Fronts (has_acl lib to_lower c.acl) c.resolver p)
                λ o fronts. (obs, p, listed, base, fronts)
