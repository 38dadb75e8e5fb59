-- ===== src/Core/Hysteria2/Masquerade/Answers.antt =====
-- The answers of an accepted configuration.
use ccaa.Base.{
  ℤ, pos, ◌≤ℤ◌, String, string_eq, int_eq, str_append, true, false, Bool-cases, beq_or, ok, err,
  not, ◌&&◌, ◌||◌, Option, none, some, ◌⊎◌, inl, inr, Assoc, ◌==◌, ◌≡◌, ◌≢◌, refl, arith, Gives,
  bind-Gives, if-Gives, refuse_if-Gives,
}
use text.Mathlib.TextEquality.{eq_iff}
use ccaa.Core.Hysteria2.Settings.{MasqueradeSettings, MasqueradeString}
use ccaa.Core.Hysteria2.Outbound.{is_set}
use ccaa.Core.Hysteria2.Masquerade.{
  Url, Handler, not_found, file_server, fixed_answer, reverse_proxy, answer_fixed, handler_of,
  is_invalid, MasqTcpServer, tcp_server, get_masq_handler,
}

-- A status that HTTP knows, and that is not hysteria's own.
abbrev pub IsPlain : ℤ → Type 0
IsPlain status = (pos 200 ≤ℤ status) × (status ≤ℤ pos 599) × (status ≢ pos 233)

answer_fixed-IsPlain :
    (s : MasqueradeString) (h : Assoc String String)
    → is_invalid s.status_code ≡ false
    → IsPlain (answer_fixed s h).status
unfolding answer_fixed
answer_fixed-IsPlain s h valid = ground arith

module _ (parse : String → String ⊎ Url) (to_lower : String → String) where
  -- The handler that the type asks for: no page, the files of a directory, the proxied site, or a
  -- fixed answer with a status from 200 to 599 that is not 233, whatever headers are there already.
  abbrev pub Answers : MasqueradeSettings → Handler → Type 0
  Answers c x =
      let t = to_lower c.masquerade_type in
      (((t ≡ "") ⊎ (t ≡ "404")) × (x ≡ not_found))
      ⊎ ((t ≡ "file") × (c.dir ≢ "") × (x ≡ file_server c.dir))
      ⊎ ((t ≡ "proxy")
          × (u : Url) × (parse c.proxy.url ≡ inr u)
          × (x ≡ reverse_proxy u c.proxy.rewrite_host))
      ⊎ ((t ≡ "string")
          × (c.fixed.content ≢ "")
          × ((h : Assoc String String) → IsPlain (answer_fixed c.fixed h).status)
          × (x ≡ fixed_answer c.fixed))

  unset : (s : String) → is_set s ≡ true → s ≢ ""
  unset s e = λ f. ground (arith, e, eq_iff s "")

  proxy-Answers :
      (c : MasqueradeSettings) (s : String ⊎ Url)
      → parse c.proxy.url ≡ s
      → to_lower c.masquerade_type ≡ "proxy"
      → Gives (Answers c) (elim s [
        | inl e ↦ err (str_append "masquerade.proxy.url " e)
        | inr u ↦ ok (reverse_proxy u c.proxy.rewrite_host)
      ])
  proxy-Answers c (inl e) p t = tt
  proxy-Answers c (inr u) p t = inr (inr (inl (t, u, p, refl)))

  handler_of-Answers : (c : MasqueradeSettings) → Gives (Answers c) (handler_of parse to_lower c)
  unfolding handler_of
  handler_of-Answers c =
      let t = to_lower c.masquerade_type in
      let P = Answers c in
      if-Gives P (t == "" || t == "404") _ _ (λ e. inl (beq_or t "" "404" e, refl))
        λ e.
          if-Gives P (t == "file") _ _
            (λ f.
              if-Gives P (is_set c.dir) _ _
                (λ g. inr (inl ((eq_iff t "file").0 f, unset c.dir g, refl))) (λ g. tt))
            λ f.
              if-Gives P (t == "proxy") _ _
                (λ g.
                  refuse_if-Gives P (not (is_set c.proxy.url)) _ _
                    λ x. proxy-Answers c (parse c.proxy.url) refl ((eq_iff t "proxy").0 g))
                λ g.
                  if-Gives P (t == "string") _ _
                    (λ x. refuse_if-Gives P (not (is_set c.fixed.content)) _ _ λ y.
                      refuse_if-Gives P (is_invalid c.fixed.status_code) _ _ λ z. inr (
                        inr (
                          inr (
                            (eq_iff t "string").0 x,
                            unset c.fixed.content (ground (arith, y)),
                            λ h. answer_fixed-IsPlain c.fixed h z,
                            refl,
                          ))))
                    (λ x. tt)

-- The servers over TCP are there exactly when HTTPS has an address, and HTTP has none without. They
-- answer with the handler.
abbrev pub ServesTcp : MasqueradeSettings → Handler → Option MasqTcpServer → Type 0
ServesTcp c handler none = (c.listen_https ≡ "") × (c.listen_http ≡ "")
ServesTcp c handler (some m) =
    (c.listen_https ≢ "")
    × (m.https_addr ≡ c.listen_https)
    × (m.http_addr ≡ c.listen_http)
    × (m.handler ≡ handler)
    × (m.force_https ≡ c.force_https)

tcp_server-serves :
    (split_host_port : String → Option (String × String)) (atoi : String → Option ℤ)
    (local : String) (c : MasqueradeSettings) (handler : Handler)
    → (is_set c.listen_http && not (is_set c.listen_https)) ≡ false
    → ServesTcp c handler (tcp_server split_host_port atoi c local handler)
tcp_server-serves split_host_port atoi local c handler h =
    elim (Bool-cases (c.listen_https == "")) [
      | inl x ↦ elim (Bool-cases (c.listen_http == "")) [
        | inl y ↦ rw (x, y) ((eq_iff c.listen_https "").0 x, (eq_iff c.listen_http "").0 y)
        | inr y ↦ absurd (ground arith)
      ]
      | inr x ↦ elim (Bool-cases (c.listen_http == "")) [
        | inl y ↦
            rw (x, y) (λ e. ground (arith, (eq_iff c.listen_https "").1 e), refl, refl, refl, refl)
        | inr y ↦
            rw (x, y) (λ e. ground (arith, (eq_iff c.listen_https "").1 e), refl, refl, refl, refl)
      ]
    ]

abbrev pub Serves :
    (String → String ⊎ Url)
    → (String → String)
    → MasqueradeSettings
    → Handler × Option MasqTcpServer
    → Type 0
Serves parse to_lower c (handler, server) =
    Answers parse to_lower c handler × ServesTcp c handler server

-- getMasqHandler never panics, and of settings that it accepts it makes the handler of their type
-- and servers: a fixed answer has a status from 200 to 599 other than hysteria's 233, and there are servers over
-- TCP exactly when HTTPS has an address, which is then theirs; without one for HTTPS there is none
-- for HTTP either.
pub get_masq_handler-Serves :
    (parse : String → String ⊎ Url) (to_lower : String → String)
    (split_host_port : String → Option (String × String)) (atoi : String → Option ℤ)
    (local : String) (c : MasqueradeSettings)
    → Gives (Serves parse to_lower c) (get_masq_handler split_host_port atoi parse to_lower local c)
unfolding get_masq_handler
get_masq_handler-Serves parse to_lower split_host_port atoi local c =
    let P = Serves parse to_lower c in
    bind-Gives (Answers parse to_lower c) P (handler_of parse to_lower c) _
      (handler_of-Answers parse to_lower c)
      λ handler e h.
        refuse_if-Gives P (is_set c.listen_http && not (is_set c.listen_https)) _ _
          λ b. (h, tcp_server-serves split_host_port atoi local c handler b)
