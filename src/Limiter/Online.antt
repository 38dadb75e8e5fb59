-- ===== src/Limiter/Online.antt =====
-- limiter/limiter.go: GetOnlineDevice. The loops are over the entries at the time of the call: the
-- body of the outer loop deletes the key that it is at, which a `sync.Map` allows.
pub mod Report
use ccaa.Base.{ℤ, String, string_eq, List, [], ◌∷◌, ◌++◌, Assoc, store, delete}
use ccaa.Panel.User.{OnlineUser}
use ccaa.Limiter.{Limiter}

-- The inner loop, over one user's addresses.
unfoldable pub report_ips :
    {R B : Type 0} → Assoc String ℤ → Limiter R B × List OnlineUser → Limiter R B × List OnlineUser
report_ips [] s = s
report_ips ((ip, uid) ∷ ips) (l, out) = report_ips ips (
  record l { old_user_online = store ip uid l.old_user_online },
  out ++ (record { uid = uid; ip = ip } ∷ []),
)

-- The outer loop, over the users.
unfoldable pub report_users :
    {R B : Type 0}
    → Assoc String (Assoc String ℤ)
    → Limiter R B × List OnlineUser
    → Limiter R B × List OnlineUser
report_users [] s = s
report_users ((taguuid, ips) ∷ m) s =
    let (l, out) = report_ips ips s in
    report_users m (record l { user_online_ip = delete taguuid l.user_online_ip }, out)

unfoldable pub get_online_device : {R B : Type 0} → Limiter R B → Limiter R B × List OnlineUser
get_online_device l = report_users l.user_online_ip (record l { old_user_online = [] }, [])
