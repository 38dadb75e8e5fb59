-- ===== src/Node/Tests.antt =====
-- The node's functions at concrete inputs.
use ccaa.Base.{◌≡◌, pos, String, ◌||◌, ◌&&◌, not, List, [], ◌∷◌, ℤ, none, some, ◌⊎◌, if◌then◌else◌}
use ccaa.Limiter.{Limiter}
use ccaa.Limiter.Online.{get_online_device}
use ccaa.Node.Report.{report_user_traffic_task}
use ccaa.Node.Report.Online.{told, has_low, ips_of, report_user_traffic_task_lem}
use ccaa.Panel.User.{UserInfo, UserTraffic}
use ccaa.Node.Users.{compare_user_list}
use ccaa.Node.Users.Difference.{has_key, compare_user_list-keys}

abbrev old_users : List UserInfo
old_users =
    record { id = pos 1; uuid = "a"; speed_limit = pos 0; device_limit = pos 0 }
    ∷ record { id = pos 2; uuid = "b"; speed_limit = pos 5; device_limit = pos 0 }
    ∷ []

abbrev new_users : List UserInfo
new_users =
    record { id = pos 2; uuid = "b"; speed_limit = pos 6; device_limit = pos 0 }
    ∷ record { id = pos 1; uuid = "a"; speed_limit = pos 0; device_limit = pos 3 }
    ∷ []

abbrev key_b : String
key_b = "b5"

compare_user_list-keys_example :
    let (deleted, added) = compare_user_list old_users new_users in
    (has_key key_b deleted ≡ (has_key key_b old_users && not (has_key key_b new_users)))
    × (has_key key_b new_users
        ≡ ((has_key key_b old_users && not (has_key key_b deleted)) || has_key key_b added))
compare_user_list-keys_example = compare_user_list-keys key_b old_users new_users

-- One user with 1500 bytes of traffic and two addresses, and one with 3000.
abbrev traffic : List UserTraffic
traffic =
    record { uid = pos 1; upload = pos 500; download = pos 1_000 }
    ∷ record { uid = pos 2; upload = pos 1_000; download = pos 2_000 }
    ∷ []

abbrev online_node : Limiter String ℤ
online_node = record {
  domain_rules = [];
  protocol_rules = [];
  speed_limit = pos 0;
  user_online_ip =
      ("n|a", ("10.0.0.1", pos 1) ∷ ("10.0.0.2", pos 1) ∷ [])
      ∷ ("n|b", ("10.0.0.3", pos 2) ∷ [])
      ∷ [];
  old_user_online = [];
  uuid_to_uid = [];
  user_limit_info = [];
  speed_limiter = [];
  alive_list = [];
}

report_user_traffic_task_lem_example :
    let (m, sent) = report_user_traffic_task (pos 2) traffic online_node in
    (m ≡ (get_online_device online_node).0)
    × (told (pos 2) sent.online_users ≡ (
        if has_low (pos 2) (pos 2) traffic
        then []
        else ips_of (pos 2) (get_online_device online_node).1))
    × ((sent.user_traffic ≡ some traffic) ⊎ ((traffic ≡ []) × (sent.user_traffic ≡ none)))
report_user_traffic_task_lem_example =
    report_user_traffic_task_lem (pos 2) (pos 2) traffic online_node
