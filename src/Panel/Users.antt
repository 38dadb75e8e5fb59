-- ===== src/Panel/Users.antt =====
-- api/panel/user.go: the users and the devices that the panel lists, and what it is told. What resty
-- answers is an argument.
pub mod Read
use ccaa.Base.{
  ℕ, ℤ, leb, String, string_eq, nat_eq, int_eq, Bool, true, false, List, [], ◌∷◌, ◌++◌, Option,
  none, some, ◌⊎◌, inl, inr, Assoc, store, ◌==◌, if◌then◌else◌,
}
use ccaa.Panel.User.{UserInfo, UserTraffic}
use ccaa.Panel.Client.{Client, Response, check_response}

-- What jsontext's decoder reads of a body: a string, an array's brackets, or another token; within
-- the array a value, of which json.Unmarshal makes a user or an error.
pub data Token : Type 0 where
  string : String → Token
  begin_array end_array : Token
  value : Option UserInfo → Token
  other : Token

-- A user list, or the error of the decoder.
abbrev pub Users : Type 0
Users = String ⊎ List UserInfo

abbrev pub and_user : UserInfo → Users → Users
and_user u (inl e) = inl e
and_user u (inr us) = inr (u ∷ us)

-- The values, up to the end of the array. A token that begins no value is an error of ReadValue.
unfoldable pub read_users : List Token → Users
read_users [] = inl "read user object"
read_users (end_array ∷ ts) = inr []
read_users (value (some u) ∷ ts) = and_user u (read_users ts)
read_users (value none ∷ ts) = inl "unmarshal user error"
read_users (string s ∷ ts) = inl "unmarshal user error"
read_users (begin_array ∷ ts) = inl "unmarshal user error"
read_users (other ∷ ts) = inl "unmarshal user error"

-- The token behind the first string "users".
abbrev pub read_array : List Token → Users
read_array [] = inl "decode user list error"
read_array (begin_array ∷ ts) = read_users ts
read_array (t ∷ ts) = inl "expected \"users\" array"

-- The loop that looks for the string "users", wherever it stands.
unfoldable pub find_users : List Token → Users
find_users [] = inl "decode user list error"
find_users (string s ∷ ts) =
    let rest = find_users ts in if s == "users" then read_array ts else rest
find_users (t ∷ ts) = find_users ts

-- A body that is msgpack, of which msgpack's decoder makes a list or an error, or JSON.
pub data UserBody : Type 0 where
  msgpack : Users → UserBody
  json : List Token → UserBody

abbrev pub decode_users : UserBody → Users
decode_users (msgpack us) = us
decode_users (json ts) = find_users ts

abbrev pub keep_etag : String → Client → Users → Client × (String ⊎ Option (List UserInfo))
keep_etag etag c (inl e) = (c, inl e)
keep_etag etag c (inr us) = (record c { user_etag = etag }, inr (some us))

-- `none` is no response at all.
unfoldable pub get_user_list :
    Option (Response × UserBody) → Client → Client × (String ⊎ Option (List UserInfo))
get_user_list none c = (c, inl "received nil response or raw response")
get_user_list (some (r, body)) c =
    if r.status == 304 then (c, inr none) else elim (check_response r) [
      | some e ↦ (c, inl e)
      | none ↦ keep_etag r.etag c (decode_users body)
    ]

abbrev pub or_none : Option (Assoc ℤ ℤ) → Assoc ℤ ℤ
or_none none = []
or_none (some m) = m

-- Whatever goes wrong, the devices alive are none; `alive_of` is json.Unmarshal.
unfoldable pub get_user_alive :
    (String → Option (Assoc ℤ ℤ)) → Response → Client → Client × Assoc ℤ ℤ
get_user_alive alive_of r c =
    let alive : Assoc ℤ ℤ = elim r.error [
      | some e ↦ []
      | none ↦ if leb 399 r.status then [] else or_none (alive_of r.body)
    ] in
    (record c { alive_map = alive }, alive)

-- The body of ReportUserTraffic.
unfoldable pub traffic_map : List UserTraffic → Assoc ℤ (ℤ × ℤ) → Assoc ℤ (ℤ × ℤ)
traffic_map [] m = m
traffic_map (t ∷ ts) m = traffic_map ts (store t.uid (t.upload, t.download) m)

unfoldable pub report_user_traffic : List UserTraffic → Response → Assoc ℤ (ℤ × ℤ) × Option String
report_user_traffic ts r = (traffic_map ts [], check_response r)

-- What is sent, and that every error is dropped.
unfoldable pub report_node_online_users :
    Assoc ℤ (List String) → Response → Assoc ℤ (List String) × Option String
report_node_online_users ips r = elim (check_response r) [
  | some e ↦ (ips, none)
  | none ↦ (ips, none)
]
