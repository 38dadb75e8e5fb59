-- ===== src/Node/Users.antt =====
-- node/user.go: the difference of two user lists, and the report of a node's traffic.
pub mod Difference
pub mod Matched
pub mod Members
use ccaa.Base.{
  ℕ, zero, suc, ◌+◌, ℤ, pos, String, string_eq, int_eq, Bool, true, false, not, List, [], ◌∷◌, ◌++◌,
  Option, none, some, Assoc, load, store, delete, ◌==◌, if◌then◌else◌, str_append, itoa, is_some,
  get_elem?, ltb_ℤ, wrap64,
}
use ccaa.Panel.User.{UserInfo, OnlineUser, UserTraffic}
use ccaa.Counter.{add64}

-- What tells a user of one list from one of the other.
unfoldable pub user_key : UserInfo → String
user_key u = str_append u.uuid (itoa u.speed_limit)

-- The loop that maps each key of the old list to its place.
unfoldable pub index_users : ℕ → List UserInfo → Assoc String ℕ → Assoc String ℕ
index_users i [] m = m
index_users i (u ∷ us) m = index_users (i + 1) us (store (user_key u) i m)

-- The loop over the new list: what is left of the map, and the added users.
unfoldable pub match_users :
    List UserInfo → Assoc String ℕ × List UserInfo → Assoc String ℕ × List UserInfo
match_users [] s = s
match_users (u ∷ us) (m, added) = match_users us (
    if is_some (load (user_key u) m)
    then (delete (user_key u) m, added)
    else (m, added ++ (u ∷ [])))

-- The loop over what is left. An index of the map is in range.
unfoldable pub pick_users : List UserInfo → Assoc String ℕ → List UserInfo
pick_users old [] = []
pick_users old ((k, i) ∷ m) = elim (get_elem? old i) [
  | none ↦ pick_users old m
  | some u ↦ u ∷ pick_users old m
]

-- The result is the deleted and the added users.
unfoldable pub compare_user_list : List UserInfo → List UserInfo → List UserInfo × List UserInfo
compare_user_list old new =
    let (m, added) = match_users new (index_users 0 old [], []) in (pick_users old m, added)
