-- ===== src/Panel/Client/Answered.antt =====
-- The types of node that a client can have.
use ccaa.Base.{
  ℤ, String, string_eq, Bool, true, false, Bool-cases, ◌≡◌, refl, sym, inl, inr, ◌≢◌, ◌==◌,
  if◌then◌else◌, arith, ◌||◌, Option, none, some,
}
use mathlib.Core.Option.{some-injective}
use ccaa.Panel.Node.{Settings}
use ccaa.Panel.Client.{
  Body, Decoded, Client, ApiConfig, Decoders, is_supported, client_of, new_client, decode_node,
  unknown, with_settings,
}

with_settings-known :
    {A : Type 0} (settings : A → Settings) (security : A → ℤ) (o : Option (Body × A))
    → with_settings settings security o ≢ unknown
with_settings-known settings security none h = absurd (ground arith)
with_settings-known settings security (some (b, a)) h = absurd (ground arith)

if-known :
    (b : Bool) (x y : Decoded)
    → x ≢ unknown
    → (b ≡ false → y ≢ unknown)
    → (if b then x else y) ≢ unknown
if-known true x y h k = h
if-known false x y h k = k refl

module _ (json : Decoders) where
  is_supported-decodes :
      (t body : String) → is_supported t ≡ true → decode_node json t body ≢ unknown
  unfolding decode_node
  is_supported-decodes t body h =
      if-known (t == "vmess" || t == "vless") _ _ (with_settings-known _ _ _) λ a.
        if-known (t == "shadowsocks") _ _ (with_settings-known _ _ _) λ b.
          if-known (t == "trojan") _ _ (with_settings-known _ _ _) λ c.
            if-known (t == "tuic") _ _ (with_settings-known _ _ _) λ d.
              if-known (t == "anytls") _ _ (with_settings-known _ _ _) λ e.
                if-known (t == "hysteria") _ _ (with_settings-known _ _ _) λ f.
                  if-known (t == "hysteria2") _ _ (with_settings-known _ _ _)
                    λ g. absurd (ground arith)

  -- A client that New makes, with whatever `strings.ToLower` gives for the type, has a type that the
  -- switch of GetNodeInfo knows: the pointers it dereferences behind the switch are set, or it has
  -- returned the decoder's error.
  new_client-decodes :
      (to_lower : String → String) (config : ApiConfig) (c : Client) (body : String)
      → new_client to_lower config ≡ some c
      → decode_node json c.node_type body ≢ unknown
  unfolding new_client decode_node
  new_client-decodes to_lower config c body h =
      let t = to_lower config.node_type in
      is_supported-decodes c.node_type body (elim (Bool-cases (t == "v2ray")) [
        | inl e ↦
            let same : client_of config "vmess" ≡ c = some-injective _ _ (ground arith) in
            rw (sym same) refl
        | inr e ↦ elim (Bool-cases (is_supported t)) [
          | inl f ↦
              let same : client_of config t ≡ c = some-injective _ _ (ground arith) in
              rw (sym same) f
          | inr f ↦ absurd (ground arith)
        ]
      ])
