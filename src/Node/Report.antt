-- ===== src/Node/Report.antt =====
-- node/user.go: reportUserTrafficTask. The traffic that the core answers is an argument. What the
-- panel is told is part of the result; its answers are only logged.
pub mod Online
use ccaa.Base.{
  ℤ, pos, ltb_ℤ, wrap64, scale, String, int_eq, List, [], ◌∷◌, ◌++◌, Option, none, some, Assoc,
  load, store, if◌then◌else◌, is_some, Bool,
}
use ccaa.Panel.User.{OnlineUser, UserTraffic}
use ccaa.Counter.{add64}
use ccaa.Limiter.{Limiter}
use ccaa.Limiter.Online.{get_online_device}

-- An absent key of a `map[int][]string` reads as no addresses.
abbrev pub or_empty : Option (List String) → List String
or_empty none = []
or_empty (some ips) = ips

-- The traffic of one user is below the bound, which is given in kB.
abbrev pub is_low : ℤ → UserTraffic → Bool
is_low min_kb t = ltb_ℤ (add64 t.upload t.download) (wrap64 (scale 1_000 min_kb))

-- The loop over the traffic, which collects the users not to be counted.
unfoldable pub low_traffic : ℤ → List UserTraffic → Assoc ℤ (Unit {0}) → Assoc ℤ (Unit {0})
low_traffic min_kb [] nocount = nocount
low_traffic min_kb (t ∷ ts) nocount =
    low_traffic min_kb ts (if is_low min_kb t then store t.uid tt nocount else nocount)

-- The loop over the online devices.
unfoldable pub keep_counted : Assoc ℤ (Unit {0}) → List OnlineUser → List OnlineUser
keep_counted nocount [] = []
keep_counted nocount (o ∷ os) =
    let rest = keep_counted nocount os in if is_some (load o.uid nocount) then rest else o ∷ rest

-- The loop that collects the addresses of each user.
unfoldable pub group_ips : List OnlineUser → Assoc ℤ (List String) → Assoc ℤ (List String)
group_ips [] by_uid = by_uid
group_ips (o ∷ os) by_uid =
    group_ips os (store o.uid (or_empty (load o.uid by_uid) ++ (o.ip ∷ [])) by_uid)

-- What is sent to the panel: `none` is no request.
pub record Sent : Type 0 where
  pub user_traffic : Option (List UserTraffic)
  pub online_users : Option (Assoc ℤ (List String))

abbrev pub sent_traffic : List UserTraffic → Option (List UserTraffic)
sent_traffic [] = none
sent_traffic (t ∷ ts) = some (t ∷ ts)

abbrev pub sent_online : ℤ → List UserTraffic → List OnlineUser → Option (Assoc ℤ (List String))
sent_online min_kb ts [] = none
sent_online min_kb ts (o ∷ os) =
    some (group_ips (keep_counted (low_traffic min_kb ts []) (o ∷ os)) [])

unfoldable pub report_user_traffic_task :
    {R B : Type 0} → ℤ → List UserTraffic → Limiter R B → Limiter R B × Sent
report_user_traffic_task min_kb ts l =
    let (m, online) = get_online_device l in
    (m, record { user_traffic = sent_traffic ts; online_users = sent_online min_kb ts online })
