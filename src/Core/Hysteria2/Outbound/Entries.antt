-- ===== src/Core/Hysteria2/Outbound/Entries.antt =====
-- The outbound that is made of an entry.
use ccaa.Base.{
  String, string_eq, false, true, not, ◌&&◌, ◌||◌, beq_or, none, is_some, ◌⊎◌, inl, inr, ◌≡◌, ◌≢◌,
  refl, ◌==◌, Gives, bind-Gives, if-Gives, refuse_if-Gives, of_sum-Gives, Gives-map, arith,
  Bool-cases,
}
use text.Mathlib.TextEquality.{eq_iff}
use ccaa.Core.Hysteria2.Settings.{DirectSettings, OutboundEntry}
use ccaa.Core.Hysteria2.Outbound.{
  Mode, auto, six_four, four_six, six, four, Outbounds, is_set, mode_of, bound, direct_to_outbound,
  to_outbound,
}

abbrev pub IsMode : String → Mode → Type 0
IsMode m auto = (m ≡ "") ⊎ (m ≡ "auto")
IsMode m six_four = m ≡ "64"
IsMode m four_six = m ≡ "46"
IsMode m six = m ≡ "6"
IsMode m four = m ≡ "4"

mode_of-IsMode : (m : String) → Gives (IsMode m) (mode_of m)
mode_of-IsMode m =
    let P = IsMode m in
    if-Gives P (m == "" || m == "auto") _ _ (beq_or m "" "auto") λ a.
      if-Gives P (m == "64") _ _ (eq_iff m "64").0 λ b.
        if-Gives P (m == "46") _ _ (eq_iff m "46").0 λ c.
          if-Gives P (m == "6") _ _ (eq_iff m "6").0
            λ d. if-Gives P (m == "4") _ _ (eq_iff m "4").0 λ e. tt

set : (s : String) → is_set s ≡ true → s ≢ ""
set s e = λ f. ground (arith, e, (eq_iff s "").1 f)

unset : (s : String) → is_set s ≡ false → s ≡ ""
unset s e = (eq_iff s "").0 (ground (arith, e))

either_set : (s t : String) → (is_set s || is_set t) ≡ true → (s ≢ "") ⊎ (t ≢ "")
either_set s t e = elim (Bool-cases (is_set s)) [
  | inl p ↦ inl (set s p)
  | inr p ↦ inr (set t (ground (arith, e, p)))
]

module _ {O I : Type 0} (lib : Outbounds O I) (to_lower : String → String) where
  -- An address to bind to is one, if it is set.
  abbrev pub IsIp : String → Type 0
  IsIp s = (s ≡ "") ⊎ (lib.parse_ip s ≢ none)

  accepted-IsIp : (s : String) → (is_set s && not (is_some (lib.parse_ip s))) ≡ false → IsIp s
  accepted-IsIp s e = elim (Bool-cases (s == "")) [
    | inl p ↦ inl ((eq_iff s "").0 p)
    | inr p ↦ inr λ n. ground (arith, e, p, n)
  ]

  -- What is bound: an address, or both; a device; or nothing.
  abbrev pub IsBound : Mode → DirectSettings → O → Type 0
  IsBound mode c o =
      (((c.bind_ipv4 ≢ "") ⊎ (c.bind_ipv6 ≢ ""))
        × (c.bind_device ≡ "")
        × IsIp c.bind_ipv4
        × IsIp c.bind_ipv6
        × (lib.direct_bind_ips mode (lib.parse_ip c.bind_ipv4) (lib.parse_ip c.bind_ipv6) ≡ inr o))
      ⊎ ((c.bind_ipv4 ≡ "")
          × (c.bind_ipv6 ≡ "")
          × (c.bind_device ≢ "")
          × (lib.direct_bind_device mode c.bind_device ≡ inr o))
      ⊎ ((c.bind_ipv4 ≡ "")
          × (c.bind_ipv6 ≡ "")
          × (c.bind_device ≡ "")
          × (o ≡ lib.direct_simple mode))

  bound-IsBound :
      (mode : Mode) (c : DirectSettings)
      → ((is_set c.bind_ipv4 || is_set c.bind_ipv6) && is_set c.bind_device) ≡ false
      → Gives (IsBound mode c) (bound lib to_lower mode c)
  bound-IsBound mode c h =
      let P = IsBound mode c in
      let ip4 = lib.parse_ip c.bind_ipv4 in
      let ip6 = lib.parse_ip c.bind_ipv6 in
      if-Gives P (is_set c.bind_ipv4 || is_set c.bind_ipv6) _ _
        (λ y. refuse_if-Gives P (is_set c.bind_ipv4 && not (is_some ip4)) _ _ λ z.
          refuse_if-Gives P (is_set c.bind_ipv6 && not (is_some ip6)) _ _ λ w.
            of_sum-Gives P (lib.direct_bind_ips mode ip4 ip6) λ o f. inl (
              either_set c.bind_ipv4 c.bind_ipv6 y,
              unset c.bind_device (ground (arith, h, y)),
              accepted-IsIp c.bind_ipv4 z,
              accepted-IsIp c.bind_ipv6 w,
              f,
            ))
        λ y.
          let none4 = unset c.bind_ipv4 (ground (arith, y)) in
          let none6 = unset c.bind_ipv6 (ground (arith, y)) in
          if-Gives P (is_set c.bind_device) _ _
            (λ z.
              of_sum-Gives P (lib.direct_bind_device mode c.bind_device)
                λ o f. inr (inl (none4, none6, set c.bind_device z, f)))
            (λ z. inr (inr (none4, none6, unset c.bind_device z, refl)))

  abbrev pub IsDirect : DirectSettings → O → Type 0
  IsDirect c o = (mode : Mode) × IsMode (to_lower c.mode) mode × IsBound mode c o

  direct_to_outbound-IsDirect :
      (c : DirectSettings) → Gives (IsDirect c) (direct_to_outbound lib to_lower c)
  unfolding direct_to_outbound
  direct_to_outbound-IsDirect c =
      bind-Gives (IsMode (to_lower c.mode)) (IsDirect c) (mode_of (to_lower c.mode)) _
        (mode_of-IsMode (to_lower c.mode))
        λ mode e h.
          refuse_if-Gives (IsDirect c)
            ((is_set c.bind_ipv4 || is_set c.bind_ipv6) && is_set c.bind_device) _
            (bound lib to_lower mode c)
            λ x.
              Gives-map (IsBound mode c) (IsDirect c) (bound lib to_lower mode c)
                (bound-IsBound mode c x) λ o b. (mode, h, b)

  -- The outbound of the entry's type, with the settings of that type.
  abbrev pub IsMade : OutboundEntry → O → Type 0
  IsMade e o =
      let t = to_lower e.outbound_type in
      ((t ≡ "direct") × IsDirect e.direct o)
      ⊎ ((t ≡ "socks5")
          × (e.socks5.addr ≢ "")
          × (o ≡ lib.socks5 e.socks5.addr e.socks5.username e.socks5.password))
      ⊎ ((t ≡ "http") × (e.http.url ≢ "") × (lib.http e.http.url e.http.insecure ≡ inr o))

  pub to_outbound-IsMade : (e : OutboundEntry) → Gives (IsMade e) (to_outbound lib to_lower e)
  unfolding to_outbound
  to_outbound-IsMade e =
      let P = IsMade e in
      let t = to_lower e.outbound_type in
      if-Gives P (t == "direct") _ _
        (λ x.
          Gives-map (IsDirect e.direct) P (direct_to_outbound lib to_lower e.direct)
            (direct_to_outbound-IsDirect e.direct) λ o d. inl ((eq_iff t "direct").0 x, d))
        λ x.
          if-Gives P (t == "socks5") _ _
            (λ y.
              if-Gives P (is_set e.socks5.addr) _ _
                (λ z. inr (inl ((eq_iff t "socks5").0 y, set e.socks5.addr z, refl))) (λ z. tt))
            λ y.
              if-Gives P (t == "http") _ _
                (λ z.
                  if-Gives P (is_set e.http.url) _ _
                    (λ w.
                      of_sum-Gives P (lib.http e.http.url e.http.insecure)
                        λ o f. inr (inr ((eq_iff t "http").0 z, set e.http.url w, f)))
                    (λ w. tt))
                (λ z. tt)
