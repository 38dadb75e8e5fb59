-- ===== src/Core/Xray/Users/Fitting.antt =====
-- The settings of a node that the panel's client makes.
use ccaa.Base.{
  ℤ, String, string_eq, Bool, true, false, Bool-cases, beq_or, ◌||◌, ◌⊎◌, Option, none, some, ◌≡◌,
  refl, inl, inr, ◌==◌, if◌then◌else◌, Option-cases, arith, nat_eq,
}
use text.Mathlib.TextEquality.{eq_iff}
use ccaa.Panel.Node.{
  Settings, VAllssNode, v_allss, shadowsocks, trojan, tuic, any_tls, hysteria, hysteria2,
}
use ccaa.Panel.Routes.{Parsed, Interval, parse_routes, empty}
use ccaa.Panel.Client.{
  Client, Body, Decoders, Decoded, unknown, undecodable, decoded, with_settings, decode_node,
  Response, NodeAnswer, fails, unchanged, gives, panics, node_of, with_intervals, read_node,
  get_node_info, check_response, tls_security, none_security, tls_back, network_back,
}
use ccaa.Core.Xray.Users.Built.{Fits}

-- The settings are the ones that the type asks for.
abbrev pub SettingsOf : String → Settings → Type 0
SettingsOf t (v_allss v) = (t ≡ "vmess") ⊎ (t ≡ "vless")
SettingsOf t (shadowsocks s) = t ≡ "shadowsocks"
SettingsOf t (trojan s) = t ≡ "trojan"
SettingsOf t (tuic s) = t ≡ "tuic"
SettingsOf t (any_tls s) = t ≡ "anytls"
SettingsOf t (hysteria s) = t ≡ "hysteria"
SettingsOf t (hysteria2 s) = t ≡ "hysteria2"

-- They are, and where xray dereferences a pointer for the type it is set.
abbrev pub IsSettled : String → Settings → Type 0
IsSettled t s = SettingsOf t s × Fits t s

-- The decoded settings are the ones that the type asks for.
abbrev Suits : String → Decoded → Type 0
Suits t unknown = Unit
Suits t undecodable = Unit
Suits t (decoded b s security) = IsSettled t s

with_settings-Suits :
    {A : Type 0} (t : String) (settings : A → Settings) (security : A → ℤ) (o : Option (Body × A))
    → ((a : A) → IsSettled t (settings a))
    → Suits t (with_settings settings security o)
with_settings-Suits t settings security none h = tt
with_settings-Suits t settings security (some (b, a)) h = h a

if-Suits :
    (t : String) (b : Bool) (x y : Decoded)
    → (b ≡ true → Suits t x)
    → (b ≡ false → Suits t y)
    → Suits t (if b then x else y)
if-Suits t true x y h k = h refl
if-Suits t false x y h k = k refl

other :
    (t s : String)
    → (t == s) ≡ true
    → (s == "vless" || s == "shadowsocks") ≡ false
    → (t == "vless" || t == "shadowsocks") ≡ false
other t s e h = rw ((eq_iff t s).0 e) h

not_vless : (t : String) → (t == "shadowsocks") ≡ true → (t == "vless") ≡ false
not_vless t e = rw ((eq_iff t "shadowsocks").0 e) refl

not_shadowsocks :
    (t : String) → (t == "vmess" || t == "vless") ≡ true → (t == "shadowsocks") ≡ false
not_shadowsocks t e = elim (Bool-cases (t == "vmess")) [
  | inl f ↦ rw ((eq_iff t "vmess").0 f) refl
  | inr f ↦ elim (Bool-cases (t == "vless")) [
    | inl g ↦ rw ((eq_iff t "vless").0 g) refl
    | inr g ↦ absurd (ground arith)
  ]
]

decode_node-Suits : (json : Decoders) (t body : String) → Suits t (decode_node json t body)
unfolding decode_node
decode_node-Suits json t body =
    if-Suits t (t == "vmess" || t == "vless") _ _
      (λ e.
        with_settings-Suits t (λ v. v_allss (tls_back (network_back v))) VAllssNode.tls
          (json.v_allss_of body) λ a. (beq_or t "vmess" "vless" e, not_shadowsocks t e))
      λ e.
        if-Suits t (t == "shadowsocks") _ _
          (λ f.
            with_settings-Suits t shadowsocks (λ x. none_security) (json.shadowsocks_of body)
              λ a. ((eq_iff t "shadowsocks").0 f, not_vless t f))
          λ f.
            if-Suits t (t == "trojan") _ _
              (λ g.
                with_settings-Suits t trojan (λ x. tls_security) (json.trojan_of body)
                  λ a. ((eq_iff t "trojan").0 g, other t "trojan" g refl))
              λ g.
                if-Suits t (t == "tuic") _ _
                  (λ h.
                    with_settings-Suits t tuic (λ x. tls_security) (json.tuic_of body)
                      λ a. ((eq_iff t "tuic").0 h, other t "tuic" h refl))
                  λ h.
                    if-Suits t (t == "anytls") _ _
                      (λ i.
                        with_settings-Suits t any_tls (λ x. tls_security) (json.any_tls_of body)
                          λ a. ((eq_iff t "anytls").0 i, other t "anytls" i refl))
                      λ i.
                        if-Suits t (t == "hysteria") _ _
                          (λ j.
                            with_settings-Suits t hysteria (λ x. tls_security)
                              (json.hysteria_of body)
                              λ a. ((eq_iff t "hysteria").0 j, other t "hysteria" j refl))
                          λ j.
                            if-Suits t (t == "hysteria2") _ _
                              (λ k.
                                with_settings-Suits t hysteria2 (λ x. tls_security)
                                  (json.hysteria2_of body)
                                  λ a. ((eq_iff t "hysteria2").0 k, other t "hysteria2" k refl))
                              λ k. tt

-- A node that is given has the settings that its type asks for.
abbrev pub HasFitting : NodeAnswer → Type 0
HasFitting (fails e) = Unit
HasFitting unchanged = Unit
HasFitting (gives info) = IsSettled info.node_type info.settings
HasFitting panics = Unit

node_of-HasFitting :
    (c : Client) (b : Body) (s : Settings) (security : ℤ) (p : Parsed) (push pull : Option ℤ)
    → IsSettled c.node_type s
    → HasFitting (node_of c b s security p push pull)
node_of-HasFitting c b s security p none pull h = tt
node_of-HasFitting c b s security p (some push) none h = tt
node_of-HasFitting c b s security p (some push) (some pull) h = h

module _ (json : Decoders) (atoi : String → ℤ) where
  with_intervals-HasFitting :
      (c : Client) (b : Body) (s : Settings) (security : ℤ) (o : Option (Interval × Interval))
      (p : Parsed)
      → IsSettled c.node_type s
      → HasFitting (with_intervals atoi c b s security o p)
  with_intervals-HasFitting c b s security none p h = tt
  with_intervals-HasFitting c b s security (some (push, pull)) p h =
      node_of-HasFitting c b s security p _ _ h

  read_node-HasFitting :
      (c : Client) (d : Decoded) → Suits c.node_type d → HasFitting (read_node json atoi c d)
  read_node-HasFitting c unknown h = tt
  read_node-HasFitting c undecodable h = tt
  read_node-HasFitting c (decoded b s security) h =
      elim (Option-cases (parse_routes 0 b.routes empty)) [
        | inl e ↦ rw (e, HasFitting) tt
        | inr (p, e) ↦
            rw (e, HasFitting) (with_intervals-HasFitting c b s security b.base_config p h)
      ]

  -- The settings of every node that GetNodeInfo gives are the ones of its type, whatever the panel
  -- answers: those of vmess and vless for these two, and for each other type its own. So the pointers
  -- that AddUsers of xray dereferences for the type are set.
  pub get_node_info-HasFitting :
      (hash : String → String) (r : Response) (c : Client)
      → HasFitting (get_node_info json atoi hash r c).1
  unfolding get_node_info
  get_node_info-HasFitting hash r c =
      let d = record c { response_body_hash = hash r.body; node_etag = r.etag } in
      elim (Bool-cases (r.status == 304)) [
        | inl e ↦ rw (e, HasFitting) tt
        | inr e ↦ elim (Bool-cases (c.response_body_hash == hash r.body)) [
          | inl f ↦ rw (e, f, HasFitting) tt
          | inr f ↦ elim (Option-cases (check_response r)) [
            | inl g ↦
                rw (e, f, g, HasFitting)
                  (read_node-HasFitting d (decode_node json d.node_type r.body)
                    (decode_node-Suits json d.node_type r.body))
            | inr (text, g) ↦ rw (e, f, g, HasFitting) tt
          ]
        ]
      ]
