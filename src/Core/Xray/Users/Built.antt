-- ===== src/Core/Xray/Users/Built.antt =====
-- The users that are built for xray.
use Prim.Native.String.{len}
use ccaa.Base.{
  ℕ, ◌≤◌, ltb, ◌||◌, All, String, string_eq, true, false, List, [], ◌∷◌, ◌==◌, ◌≡◌, refl, Result,
  Gives, bind-Gives, if-Gives, arith,
}
use ccaa.Format.{user_tag}
use ccaa.Panel.User.{UserInfo}
use ccaa.Panel.Node.{
  NodeInfo, Settings, ShadowsocksNode, v_allss, shadowsocks, trojan, tuic, any_tls, hysteria,
  hysteria2,
}
use ccaa.Core.Xray.Users.{
  User, build_all, build_users, prefix_of, build_ss_user, key_length, build_vless, build_ss,
}

-- The uuids are as long as any key that is cut out of them.
abbrev pub IsLong : UserInfo → Type 0
IsLong u = 32 ≤ len u.uuid

-- The settings are the ones that the type asks for.
abbrev pub Fits : String → Settings → Type 0
Fits t (v_allss v) = (t == "shadowsocks") ≡ false
Fits t (shadowsocks s) = (t == "vless") ≡ false
Fits t (trojan s) = (t == "vless" || t == "shadowsocks") ≡ false
Fits t (tuic s) = (t == "vless" || t == "shadowsocks") ≡ false
Fits t (any_tls s) = (t == "vless" || t == "shadowsocks") ≡ false
Fits t (hysteria s) = (t == "vless" || t == "shadowsocks") ≡ false
Fits t (hysteria2 s) = (t == "vless" || t == "shadowsocks") ≡ false

abbrev pub emails : List User → List String
emails [] = []
emails (x ∷ xs) = x.email ∷ emails xs

abbrev pub tags : String → List UserInfo → List String
tags tag [] = []
tags tag (u ∷ us) = user_tag tag u.uuid ∷ tags tag us

module _ (to_lower encode : String → String) (tag : String) where
  build_all-emails :
      (build : UserInfo → Result User) (us : List UserInfo)
      → ((u : UserInfo) → IsLong u → Gives (λ x. x.email ≡ user_tag tag u.uuid) (build u))
      → All IsLong us
      → Gives (λ xs. emails xs ≡ tags tag us) (build_all to_lower encode build us)
  unfolding build_all
  build_all-emails build [] h long = refl
  build_all-emails build (u ∷ us) h long =
      bind-Gives (λ x. x.email ≡ user_tag tag u.uuid) _ (build u) _ (h u long.0)
        λ x e same.
          bind-Gives (λ xs. emails xs ≡ tags tag us) _ (build_all to_lower encode build us) _
            (build_all-emails build us h long.1) λ xs f rest. rw (same, rest) refl

  prefix_of-returns : (n : ℕ) (s : String) → n ≤ len s → Gives (λ k. Unit) (prefix_of n s)
  prefix_of-returns n s h = if-Gives (λ k. Unit) (ltb (len s) n) _ _ (λ e. ground arith) (λ e. tt)

  key_length-le : (c : String) → key_length c ≤ 32
  key_length-le c = ground arith

  build_ss_user-email :
      (s : ShadowsocksNode) (u : UserInfo)
      → IsLong u
      → Gives (λ x. x.email ≡ user_tag tag u.uuid) (build_ss_user to_lower encode s tag u)
  build_ss_user-email s u long =
      let P : User → Type 0 = λ x. x.email ≡ user_tag tag u.uuid in
      if-Gives P (s.server_key == "") _ _ (λ e. refl)
        λ e.
          bind-Gives (λ k. Unit) P (prefix_of (key_length s.cipher) u.uuid) _
            (prefix_of-returns (key_length s.cipher) u.uuid
              (omega (arith, key_length-le s.cipher, long)))
            λ k f g. refl

  build_vless-emails :
      (t : String) (s : Settings) (us : List UserInfo)
      → (t == "vless") ≡ true
      → Fits t s
      → All IsLong us
      → Gives (λ xs. emails xs ≡ tags tag us) (build_vless to_lower encode s tag us)
  build_vless-emails t (v_allss v) us e f long = build_all-emails _ us (λ u h. refl) long
  build_vless-emails t (shadowsocks s) us e f long = absurd (ground arith)
  build_vless-emails t (trojan s) us e f long = absurd (ground arith)
  build_vless-emails t (tuic s) us e f long = absurd (ground arith)
  build_vless-emails t (any_tls s) us e f long = absurd (ground arith)
  build_vless-emails t (hysteria s) us e f long = absurd (ground arith)
  build_vless-emails t (hysteria2 s) us e f long = absurd (ground arith)

  build_ss-emails :
      (t : String) (s : Settings) (us : List UserInfo)
      → (t == "shadowsocks") ≡ true
      → Fits t s
      → All IsLong us
      → Gives (λ xs. emails xs ≡ tags tag us) (build_ss to_lower encode s tag us)
  build_ss-emails t (shadowsocks s) us e f long = build_all-emails _ us (build_ss_user-email s) long
  build_ss-emails t (v_allss s) us e f long = absurd (ground arith)
  build_ss-emails t (trojan s) us e f long = absurd (ground arith)
  build_ss-emails t (tuic s) us e f long = absurd (ground arith)
  build_ss-emails t (any_tls s) us e f long = absurd (ground arith)
  build_ss-emails t (hysteria s) us e f long = absurd (ground arith)
  build_ss-emails t (hysteria2 s) us e f long = absurd (ground arith)

  pub build_users-emails :
      (info : NodeInfo) (us : List UserInfo)
      → Fits info.node_type info.settings
      → All IsLong us
      → Gives (λ xs. emails xs ≡ tags tag us) (build_users to_lower encode info tag us)
  unfolding build_users
  build_users-emails info us fits long =
      let t = info.node_type in
      let P : List User → Type 0 = λ xs. emails xs ≡ tags tag us in
      if-Gives P (t == "vmess") _ _ (λ e. build_all-emails _ us (λ u h. refl) long)
        λ e.
          if-Gives P (t == "vless") _ _ (λ f. build_vless-emails t info.settings us f fits long)
            λ f.
              if-Gives P (t == "trojan") _ _ (λ g. build_all-emails _ us (λ u h. refl) long)
                λ g.
                  if-Gives P (t == "shadowsocks") _ _
                    (λ h. build_ss-emails t info.settings us h fits long) (λ h. tt)
