-- ===== src/Core/Hysteria2/Tests.antt =====
-- The hysteria hook and users at concrete inputs.
use ccaa.Base.{
  ℤ, pos, wrap64, String, string_eq, nat_eq, true, not, ◌&&◌, ◌≡◌, refl, List, [], ◌∷◌, load, some,
  false, ◌↔◌, ◌==◌, if◌then◌else◌,
}
use ccaa.Panel.User.{UserInfo}
use ccaa.Format.{user_tag}
use ccaa.Counter.{new_traffic_counter, add_up, add_down}
use ccaa.Counter.Totals.{storage_of, new-IsSeparate}
use ccaa.Limiter.{Limiter, UserLimitInfo}
use ccaa.Limiter.Registry.{Registry, get_limiter}
use ccaa.Core.Hysteria2.{HookServer, over_limit, log_traffic, UsersMap}
use ccaa.Core.Hysteria2.Logger.{Addr, udp_addr, connect}
use ccaa.Core.Hysteria2.Logger.Marks.{MustRefuse, connect-log_traffic}
use ccaa.Core.Hysteria2.Logs.{counter_at, log_traffic_lem}

abbrev over : UserLimitInfo
over = record {
  uid = pos 7;
  speed_limit = pos 0;
  device_limit = pos 0;
  dynamic_speed_limit = pos 0;
  expire_time = pos 0;
  over_limit = true;
}

abbrev node : Limiter String ℤ
node = record {
  domain_rules = [];
  protocol_rules = [];
  speed_limit = pos 0;
  user_online_ip = [];
  old_user_online = [];
  uuid_to_uid = [];
  user_limit_info = ("n|b", over) ∷ [];
  speed_limiter = [];
  alive_list = [];
}

abbrev hook : HookServer String ℤ
hook = record {
  tag = "n";
  registry = record { limiter = ("n", 0) ∷ []; heap = (0, node) ∷ []; next = 1 };
  counter = ("n", new_traffic_counter) ∷ [];
}

abbrev user_a : String
user_a = "a"

log_traffic_lem_example :
    let (h', accepted) = log_traffic user_a 10 20 hook in
    let before = storage_of user_a (counter_at hook) in
    (accepted ≡ not (over_limit (user_tag hook.tag user_a) node))
    × (storage_of user_a (counter_at h') ≡ (
        if accepted && user_a == user_a
        then add_up (wrap64 (pos 10)) (add_down (wrap64 (pos 20)) before)
        else before))
unfolding load get_limiter
log_traffic_lem_example = log_traffic_lem user_a user_a 10 20 0 node hook refl refl new-IsSeparate

abbrev at_home : Addr
at_home = udp_addr "10.0.0.1"

abbrev fresh : ℤ → ℤ → ℤ
fresh fill capacity = fill

connect-log_traffic_example :
    (g : Registry String ℤ) × (connect fresh (pos 10) "n" at_home "b" hook.registry ≡ some g)
    × (((log_traffic "b" 10 20 (record hook { registry = g })).1 ≡ false)
        ↔ MustRefuse (pos 10) (user_tag "n" "b") at_home node)
unfolding load get_limiter
connect-log_traffic_example =
    connect-log_traffic fresh (pos 10) hook 0 node "b" at_home 10 20 refl refl

abbrev users : UsersMap
users = ("a", pos 1) ∷ ("b", pos 2) ∷ []

abbrev gone : List UserInfo
gone = record { id = pos 1; uuid = "a"; speed_limit = pos 0; device_limit = pos 0 } ∷ []

abbrev come : List UserInfo
come = record { id = pos 3; uuid = "c"; speed_limit = pos 0; device_limit = pos 0 } ∷ []
