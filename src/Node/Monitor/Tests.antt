-- ===== src/Node/Monitor/Tests.antt =====
-- Rounds of the monitor at concrete inputs: a server that takes everything and counts the calls.
use ccaa.Base.{
  ℕ, ◌+◌, ℤ, pos, String, nat_eq, string_eq, int_eq, false, ◌≡◌, ◌≢◌, refl, [], ◌∷◌, Option, none,
  some, load, store, arith,
}
use text.Mathlib.TextEquality.{eq_iff}
use ccaa.Panel.User.{UserInfo}
use ccaa.Panel.Node.{NodeInfo, trojan}
use ccaa.Limiter.{Limiter}
use ccaa.Limiter.Users.{new_limiter}
use ccaa.Limiter.Rules.{update_rule, compile_all}
use ccaa.Task.{new_task}
use ccaa.Core.Interface.{Core}
use ccaa.Node.Users.{compare_user_list}
use ccaa.Node.Controller.{Controller}
use ccaa.Node.Monitor.{
  renew_limiter, set_rules, set_up_node, add_new_node, set_intervals, set_pull, set_push,
  reload_node, change_users,
}
use ccaa.Node.Monitor.Unchanged.{IsRound, change_users-whole}
use ccaa.Node.Monitor.Keeps.{limits}
use ccaa.Node.Monitor.Named.{reload_node-named}

abbrev counting : Core ℕ String
counting = record {
  start = λ s. (s, none);
  close = λ s. (s, none);
  add_node = λ tag info option s. (s + 1, none);
  del_node = λ tag s. (s + 1, none);
  add_users = λ p s. (s + 1, pos 0, none);
  get_user_traffic_slice = λ tag reset s. (s, [], none);
  del_users = λ us tag info s. (s + 1, none);
  protocols = λ s. "vless" ∷ [];
  core_type = λ s. "xray";
}

abbrev user_a : UserInfo
user_a = record { id = pos 1; uuid = "a"; speed_limit = pos 0; device_limit = pos 0 }

abbrev user_b : UserInfo
user_b = record { id = pos 2; uuid = "b"; speed_limit = pos 0; device_limit = pos 0 }

abbrev info : NodeInfo
info = record {
  id = pos 1;
  node_type = "vless";
  security = pos 0;
  push_interval = pos 60;
  pull_interval = pos 60;
  raw_dns = record { dns_map = []; dns_json = "" };
  rules = record { regexp = []; protocol = [] };
  settings = trojan (record { network = ""; network_settings = "" });
  common = record { host = ""; server_port = pos 0; server_name = "" };
}

abbrev controller : Controller ℕ String ℤ String
controller = record {
  server = 0;
  registry = record {
    limiter = ("n", 0) ∷ [];
    heap = (0, new_limiter "n" (pos 0) (user_a ∷ []) []) ∷ [];
    next = 1;
  };
  tag = "n";
  limiter = 0;
  traffic = [];
  user_list = user_a ∷ [];
  info = info;
  node_info_monitor_periodic = new_task (pos 60);
  user_report_periodic = new_task (pos 60);
  renew_cert_periodic = none;
  dynamic_speed_limit_periodic = none;
  config = record {
    name = "n";
    api_host = "";
    speed_limit = pos 0;
    enable_dynamic_speed_limit = false;
    dynamic_traffic = pos 0;
    dynamic_speed_limit = pos 0;
    dynamic_expire_time = pos 0;
    dynamic_periodic = pos 60;
    cert_mode = "";
    options = record { core_name = ""; core = "xray"; raw_options = none };
  };
}

change_users-whole_example :
    let (deleted, added) = compare_user_list (user_a ∷ []) (user_b ∷ []) in
    IsRound counting deleted added
      (user_b ∷ [])
      controller
      (change_users counting (user_b ∷ []) controller)
change_users-whole_example = change_users-whole counting (user_b ∷ []) controller

abbrev compile : String → Option String
compile s = some s

controller-named : controller.config.name ≢ ""
controller-named p = absurd (ground (arith, p, (eq_iff "n" "").1))

abbrev first : Limiter String ℤ
first = new_limiter "n" (pos 0) (user_a ∷ []) []

-- The node is deleted and added, and its new users; the limiter has no rules, as before.
abbrev reloaded : Controller ℕ String ℤ String
reloaded = record controller {
  server = 3;
  user_list = user_b ∷ [];
  registry = record controller.registry {
    heap = (0, record first { domain_rules = []; protocol_rules = [] }) ∷ [];
  };
}

reload_node-named_example :
    (reloaded.user_list ≡ user_b ∷ []) × (limits reloaded ≡ limits controller)
unfolding reload_node renew_limiter set_up_node set_rules update_rule compile_all add_new_node
    set_intervals set_pull set_push new_task load store
reload_node-named_example =
    reload_node-named counting compile none info (some (user_b ∷ [])) none controller reloaded
      controller-named refl
