-- ===== src/Core/Xray/Users.antt =====
-- core/xray/user.go: AddUsers and GetUserTrafficSlice, with the users of vmess.go, trojan.go and ss.go.
-- The account's typed message is the account. A uuid is text of one byte a character.
pub mod Built
pub mod Added
pub mod Fitting
use Prim.Native.String.{len, slice}
use ccaa.Base.{
  ℕ, ℤ, pos, ltb, String, string_eq, Bool, true, false, ◌||◌, List, [], ◌∷◌, Option, none, some,
  ◌⊎◌, inl, inr, Assoc, load, store, length, ◌==◌, if◌then◌else◌, Result, ok, err, panicked, ◌>>=◌,
}
use ccaa.Format.{user_tag}
use ccaa.Panel.User.{UserInfo, UserTraffic}
use ccaa.Panel.Node.{
  NodeInfo, Settings, VAllssNode, ShadowsocksNode, v_allss, shadowsocks, trojan, tuic, any_tls,
  hysteria, hysteria2,
}
use ccaa.Core.Interface.{Error}
use ccaa.Core.Dispatcher.{Dispatcher}
use ccaa.Core.Traffic.{traffic_slice}
use ccaa.Core.Xray.{Xray}

-- `shadowsocks.CipherType`
pub data CipherType : Type 0 where
  aes_128_gcm aes_256_gcm chacha20_poly1305 no_cipher unknown_cipher : CipherType

pub data Account : Type 0 where
  vmess_account : String → String → Account
  vless_account : String → String → Account
  trojan_account : String → Account
  ss_account : String → CipherType → Account
  ss_2022_account : String → Account

-- `protocol.User`, of level zero.
pub record User : Type 0 where
  pub email : String
  pub account : Account

abbrev pub get_cipher_from_string : String → CipherType
get_cipher_from_string c =
    if c == "aes-128-gcm" || c == "aead_aes_128_gcm"
    then aes_128_gcm
    else if c == "aes-256-gcm" || c == "aead_aes_256_gcm"
    then aes_256_gcm
    else if c == "chacha20-poly1305"
        || (c == "aead_chacha20_poly1305" || c == "chacha20-ietf-poly1305")
    then chacha20_poly1305
    else if c == "none" || c == "plain"
    then no_cipher
    else unknown_cipher

abbrev pub key_length : String → ℕ
key_length cypher =
    if cypher == "2022-blake3-aes-128-gcm"
    then 16
    else if cypher == "2022-blake3-aes-256-gcm"
    then 32
    else if cypher == "2022-blake3-chacha20-poly1305"
    then 32
    else 0

-- `uuid[:n]`, which panics where the uuid is shorter.
abbrev pub prefix_of : ℕ → String → Result String
prefix_of n uuid = if ltb (len uuid) n then panicked else ok (slice uuid 0 n)

module _ (to_lower encode : String → String) where
  abbrev pub build_vmess_user : String → UserInfo → Result User
  build_vmess_user tag u =
      ok (record { email = user_tag tag u.uuid; account = vmess_account u.uuid "auto" })

  abbrev pub build_vless_user : String → String → UserInfo → Result User
  build_vless_user flow tag u =
      ok (record { email = user_tag tag u.uuid; account = vless_account u.uuid flow })

  abbrev pub build_trojan_user : String → UserInfo → Result User
  build_trojan_user tag u =
      ok (record { email = user_tag tag u.uuid; account = trojan_account u.uuid })

  -- `encode` is base64's.
  abbrev pub build_ss_user : ShadowsocksNode → String → UserInfo → Result User
  build_ss_user s tag u =
      if s.server_key == ""
      then ok (record {
        email = user_tag tag u.uuid;
        account = ss_account u.uuid (get_cipher_from_string (to_lower s.cipher));
      })
      else (do
        key ← prefix_of (key_length s.cipher) u.uuid
        ok (record { email = user_tag tag u.uuid; account = ss_2022_account (encode key) }))

  -- The loop of the four build functions for lists.
  unfoldable pub build_all : (UserInfo → Result User) → List UserInfo → Result (List User)
  build_all build [] = ok []
  build_all build (u ∷ us) = do x ← build u; xs ← build_all build us; ok (x ∷ xs)

  abbrev pub build_vless : Settings → String → List UserInfo → Result (List User)
  build_vless (v_allss v) tag us = build_all (build_vless_user v.flow tag) us
  build_vless (shadowsocks s) tag us = panicked
  build_vless (trojan s) tag us = panicked
  build_vless (tuic s) tag us = panicked
  build_vless (any_tls s) tag us = panicked
  build_vless (hysteria s) tag us = panicked
  build_vless (hysteria2 s) tag us = panicked

  abbrev pub build_ss : Settings → String → List UserInfo → Result (List User)
  build_ss (shadowsocks s) tag us = build_all (build_ss_user s tag) us
  build_ss (v_allss s) tag us = panicked
  build_ss (trojan s) tag us = panicked
  build_ss (tuic s) tag us = panicked
  build_ss (any_tls s) tag us = panicked
  build_ss (hysteria s) tag us = panicked
  build_ss (hysteria2 s) tag us = panicked

  -- The switch on the node's type.
  unfoldable pub build_users : NodeInfo → String → List UserInfo → Result (List User)
  build_users info tag us =
      if info.node_type == "vmess"
      then build_all (build_vmess_user tag) us
      else if info.node_type == "vless"
      then build_vless info.settings tag us
      else if info.node_type == "trojan"
      then build_all (build_trojan_user tag) us
      else if info.node_type == "shadowsocks"
      then build_ss info.settings tag us
      else err "unsupported node type"

unfoldable pub put_uids : String → List UserInfo → Assoc String ℤ → Assoc String ℤ
put_uids tag [] uids = uids
put_uids tag (u ∷ us) uids = put_uids tag us (store (user_tag tag u.uuid) u.id uids)

-- `to_memory_user` is xray's, as is `add_user` of a manager M.
module _ {V M : Type 0} (to_memory_user : User → String ⊎ V) (add_user : V → M → M × Error) where
  -- The loop over the built users, which the first error ends.
  unfoldable pub add_all : List User → M → M × Error
  add_all [] m = (m, none)
  add_all (u ∷ us) m = elim (to_memory_user u) [
    | inl e ↦ (m, some e)
    | inr v ↦
        let (m', e) = add_user v m in
        let rest = add_all us m' in elim e [ some text ↦ (m', some text) | none ↦ rest ]
  ]

  abbrev pub count_or : List User → Error → Result ℤ
  count_or users none = ok (pos (length users))
  count_or users (some e) = err e

  abbrev pub add_with :
      {R B : Type 0} → String → List User → Option M → Xray R B M → Xray R B M × Result ℤ
  add_with tag users none x = (x, err "get user manager error")
  add_with tag users (some m) x =
      let (m', e) = add_all users m in
      (record x { managers = store tag m' x.managers }, count_or users e)

  -- With the users that were built, or what became of the building.
  abbrev pub add_built :
      {R B : Type 0} → String → Result (List User) → Xray R B M → Xray R B M × Result ℤ
  add_built tag (err e) x = (x, err e)
  add_built tag panicked x = (x, panicked)
  add_built tag (ok users) x = add_with tag users (load tag x.managers) x

  -- The uids are stored before anything can fail.
  unfoldable pub add_users :
      {R B : Type 0}
      → (String → String)
      → (String → String)
      → String
      → List UserInfo
      → NodeInfo
      → Xray R B M
      → Xray R B M × Result ℤ
  add_users to_lower encode tag us info x =
      add_built tag (build_users to_lower encode info tag us)
        (record x { uid_map = put_uids tag us x.uid_map })

abbrev pub min_of : Option ℤ → ℤ
min_of none = pos 0
min_of (some n) = n

-- `report_min` is nodeReportMinTrafficBytes.
unfoldable pub get_user_traffic_slice :
    {R B M : Type 0} → Assoc String ℤ → String → Bool → Xray R B M → Xray R B M × List UserTraffic
get_user_traffic_slice report_min tag reset x = elim (load tag x.dispatcher.counter) [
  | none ↦ (x, [])
  | some c ↦
      let (c', out) = traffic_slice (min_of (load tag report_min)) reset x.uid_map c in
      let d = x.dispatcher in
      (record x { dispatcher = record d { counter = store tag c' d.counter } }, out)
]
