-- ===== src/Core/Sing/Users.antt =====
-- core/sing/user.go: AddUsers, DelUsers and the reports of traffic. An inbound I is sing-box's, with the
-- type that the code asserts; of its AddUsers only those of tuic and hysteria2 take the ids. A uuid is
-- text of one byte a character.
use ccaa.Base.{
  ℕ, ℤ, pos, ltb, String, string_eq, Bool, ◌||◌, List, [], ◌∷◌, Option, none, some, Assoc, load,
  store, delete, length, ◌==◌, if◌then◌else◌, Result, ok, err, panicked, ◌>>=◌,
}
use Prim.Native.String.{len, slice}
use ccaa.Panel.User.{UserInfo, UserTraffic}
use ccaa.Panel.Node.{
  NodeInfo, Settings, v_allss, shadowsocks, trojan, tuic, any_tls, hysteria, hysteria2,
}
use ccaa.Counter.{TrafficCounter, get_up_count, get_down_count, reset, delete_counter}
use ccaa.Core.Interface.{Error}
use ccaa.Core.Traffic.{traffic_slice}

-- The users of sing-box's options; where name, uuid and password are one, it stands once.
pub data SingUser : Type 0 where
  vless_user : String → String → SingUser
  vmess_user trojan_user tuic_user hysteria_user hysteria2_user any_tls_user : String → SingUser
  shadowsocks_user : String → String → SingUser

pub record Inbounds (I : Type 0) : Type 0 where
  pub type_of : I → String
  pub add_users : List SingUser → List ℤ → I → I × Error
  pub del_users : List String → I → I × Error

pub record Sing (I : Type 0) : Type 0 where
  pub uid_map : Assoc String ℤ
  pub inbounds : Assoc String I
  pub counter : Assoc String TrafficCounter
  pub node_report_min_traffic_bytes : Assoc String ℤ

unfoldable pub put_uids : List UserInfo → Assoc String ℤ → Assoc String ℤ
put_uids [] uids = uids
put_uids (u ∷ us) uids = put_uids us (store u.uuid u.id uids)

abbrev pub ids : List UserInfo → List ℤ
ids [] = []
ids (u ∷ us) = u.id ∷ ids us

abbrev pub users_by : (String → SingUser) → List UserInfo → List SingUser
users_by f [] = []
users_by f (u ∷ us) = f u.uuid ∷ users_by f us

-- `password[:n]` in base64, which panics where the uuid is shorter.
abbrev pub key_of : (String → String) → ℕ → String → Result String
key_of encode n uuid = if ltb (len uuid) n then panicked else ok (encode (slice uuid 0 n))

abbrev pub password_of : (String → String) → String → String → Result String
password_of encode cipher uuid =
    if cipher == "2022-blake3-aes-128-gcm"
    then key_of encode 16 uuid
    else if cipher == "2022-blake3-aes-256-gcm"
    then key_of encode 32 uuid
    else ok uuid

unfoldable pub shadowsocks_users :
    (String → String) → String → List UserInfo → Result (List SingUser)
shadowsocks_users encode cipher [] = ok []
shadowsocks_users encode cipher (u ∷ us) = do
  password ← password_of encode cipher u.uuid
  rest ← shadowsocks_users encode cipher us
  ok (shadowsocks_user u.uuid password ∷ rest)

abbrev pub vless_users : Settings → List UserInfo → Result (List SingUser)
vless_users (v_allss v) us = ok (users_by (λ uuid. vless_user uuid v.flow) us)
vless_users (shadowsocks s) us = panicked
vless_users (trojan s) us = panicked
vless_users (tuic s) us = panicked
vless_users (any_tls s) us = panicked
vless_users (hysteria s) us = panicked
vless_users (hysteria2 s) us = panicked

abbrev pub ss_users : (String → String) → Settings → List UserInfo → Result (List SingUser)
ss_users encode (shadowsocks s) us = shadowsocks_users encode s.cipher us
ss_users encode (v_allss s) us = panicked
ss_users encode (trojan s) us = panicked
ss_users encode (tuic s) us = panicked
ss_users encode (any_tls s) us = panicked
ss_users encode (hysteria s) us = panicked
ss_users encode (hysteria2 s) us = panicked

-- The switch on the type; `none` is a type that it does not know, for which nothing is done.
unfoldable pub build_users :
    (String → String) → NodeInfo → List UserInfo → Option (Result (List SingUser))
build_users encode info us =
    let t = info.node_type in
    if t == "vless"
    then some (vless_users info.settings us)
    else if t == "vmess"
    then some (ok (users_by vmess_user us))
    else if t == "shadowsocks"
    then some (ss_users encode info.settings us)
    else if t == "trojan"
    then some (ok (users_by trojan_user us))
    else if t == "tuic"
    then some (ok (users_by tuic_user us))
    else if t == "hysteria"
    then some (ok (users_by hysteria_user us))
    else if t == "hysteria2"
    then some (ok (users_by hysteria2_user us))
    else if t == "anytls"
    then some (ok (users_by any_tls_user us))
    else none

abbrev pub count_or : List UserInfo → Error → Result ℤ
count_or us none = ok (pos (length us))
count_or us (some e) = err e

module _ {I : Type 0} (lib : Inbounds I) where
  -- With the users that were built; the assertion of the inbound's type comes after.
  abbrev pub add_built :
      String
      → List UserInfo
      → String
      → I
      → Option (Result (List SingUser))
      → Sing I
      → Sing I × Result ℤ
  add_built tag us t i none s = (s, ok (pos (length us)))
  add_built tag us t i (some (err e)) s = (s, err e)
  add_built tag us t i (some panicked) s = (s, panicked)
  add_built tag us t i (some (ok users)) s =
      let (j, e) = lib.add_users users (ids us) i in
      if lib.type_of i == t
      then (record s { inbounds = store tag j s.inbounds }, count_or us e)
      else (s, panicked)

  -- The uids are stored before anything can fail, but for an inbound that is missing.
  unfoldable pub add_users :
      (String → String) → String → List UserInfo → NodeInfo → Sing I → Sing I × Result ℤ
  add_users encode tag us info s = elim (load tag s.inbounds) [
    | none ↦ (s, err "the inbound not found")
    | some i ↦
        add_built tag us info.node_type i (build_users encode info us)
          (record s { uid_map = put_uids us s.uid_map })
  ]

  abbrev pub drop_count :
      String
      → String
      → Option TrafficCounter
      → Assoc String TrafficCounter
      → Assoc String TrafficCounter
  drop_count tag uuid none counter = counter
  drop_count tag uuid (some c) counter = store tag (delete_counter uuid c) counter

  -- The loop: the counts and the uids of the users.
  unfoldable pub forget_users : String → List UserInfo → Sing I → Sing I
  forget_users tag [] s = s
  forget_users tag (u ∷ us) s = forget_users tag us (record s {
    counter = drop_count tag u.uuid (load tag s.counter) s.counter;
    uid_map = delete u.uuid s.uid_map;
  })

  abbrev pub uuids : List UserInfo → List String
  uuids [] = []
  uuids (u ∷ us) = u.uuid ∷ uuids us

  -- The types that DelUsers asserts; any other leaves a nil UserDeleter, at which it panics.
  abbrev pub is_known : String → Bool
  is_known t =
      (t == "vmess" || (t == "vless" || (t == "shadowsocks" || t == "trojan")))
      || (t == "tuic" || (t == "hysteria" || (t == "hysteria2" || t == "anytls")))

  abbrev pub del_from : String → List UserInfo → I → Sing I → Sing I × Result (Unit {0})
  del_from tag us i s =
      let (j, e) = lib.del_users (uuids us) i in
      (
        record (forget_users tag us s) { inbounds = store tag j s.inbounds },
        elim e [ some text ↦ err text | none ↦ ok tt ],
      )

  unfoldable pub del_users : List UserInfo → String → NodeInfo → Sing I → Sing I × Result (Unit {0})
  del_users us tag info s = elim (load tag s.inbounds) [
    | none ↦ (s, err "the inbound not found")
    | some i ↦
        if is_known info.node_type
        then if lib.type_of i == info.node_type then del_from tag us i s else (s, panicked)
        else (forget_users tag us s, panicked)
  ]

  unfoldable pub get_user_traffic : String → String → Bool → Sing I → Sing I × ℤ × ℤ
  get_user_traffic tag uuid is_reset s = elim (load tag s.counter) [
    | none ↦ (s, pos 0, pos 0)
    | some c ↦ (
      if is_reset then record s { counter = store tag (reset uuid c) s.counter } else s,
      get_up_count uuid c,
      get_down_count uuid c,
    )
  ]

  abbrev pub min_of : Option ℤ → ℤ
  min_of none = pos 0
  min_of (some n) = n

  unfoldable pub get_user_traffic_slice : String → Bool → Sing I → Sing I × List UserTraffic
  get_user_traffic_slice tag is_reset s = elim (load tag s.counter) [
    | none ↦ (s, [])
    | some c ↦
        let min = min_of (load tag s.node_report_min_traffic_bytes) in
        let (d, out) = traffic_slice min is_reset s.uid_map c in
        (record s { counter = store tag d s.counter }, out)
  ]
