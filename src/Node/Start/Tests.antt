-- ===== src/Node/Start/Tests.antt =====
-- Start, rounds and Close at concrete inputs: a server that takes everything and counts the calls.
use ccaa.Base.{
  ℕ, ◌+◌, load, store, ℤ, pos, String, nat_eq, string_eq, int_eq, false, ◌≡◌, refl, [], ◌∷◌, Option,
  none, some, arith, inr, subst,
}
use ccaa.Panel.User.{UserInfo}
use ccaa.Panel.Node.{NodeInfo, trojan}
use ccaa.Limiter.Registry.{add_limiter, delete_limiter}
use ccaa.Limiter.Users.{new_limiter, add_users, add_user}
use ccaa.Limiter.Rules.{update_rule, compile_all}
use ccaa.Task.{Task, mark, new_task, start, close}
use ccaa.Core.Interface.{Core}
use ccaa.Node.Controller.{Controller}
use ccaa.Node.Monitor.{Answers, set_rules, node_info_monitor, check_users}
use ccaa.Node.Monitor.InStep.{InStep, IsList}
use ccaa.Node.Monitor.InStep.Rounds.{AnswersOk}
use ccaa.Node.Start.{
  starts, limit_speeds, start_tasks, make_limiter, set_up, serve_node, start_controller,
  speed_checker,
}
use ccaa.Node.Start.Begun.{Life, begins, goes_round, checks_speed, Life-InStep}

abbrev counting : Core ℕ String
counting = record {
  start = λ s. (s, none);
  close = λ s. (s, none);
  add_node = λ tag info option s. (s + 1, none);
  del_node = λ tag s. (s + 1, none);
  add_users = λ p s. (s + 1, pos 0, none);
  get_user_traffic_slice = λ tag reset s. (s, [], none);
  del_users = λ us tag info s. (s + 1, none);
  protocols = λ s. "vless" ∷ [];
  core_type = λ s. "xray";
}

abbrev user : UserInfo
user = record { id = pos 1; uuid = "a"; speed_limit = pos 0; device_limit = pos 0 }

abbrev info : NodeInfo
info = record {
  id = pos 1;
  node_type = "vless";
  security = pos 0;
  push_interval = pos 60;
  pull_interval = pos 60;
  raw_dns = record { dns_map = []; dns_json = "" };
  rules = record { regexp = []; protocol = [] };
  settings = trojan (record { network = ""; network_settings = "" });
  common = record { host = ""; server_port = pos 0; server_name = "" };
}

abbrev controller : Controller ℕ String ℤ String
controller = record {
  server = 0;
  registry = record { limiter = []; heap = []; next = 0 };
  tag = "";
  limiter = 0;
  traffic = [];
  user_list = [];
  info = info;
  node_info_monitor_periodic = new_task (pos 0);
  user_report_periodic = new_task (pos 0);
  renew_cert_periodic = none;
  dynamic_speed_limit_periodic = none;
  config = record {
    name = "";
    api_host = "";
    speed_limit = pos 0;
    enable_dynamic_speed_limit = false;
    dynamic_traffic = pos 0;
    dynamic_speed_limit = pos 0;
    dynamic_expire_time = pos 0;
    dynamic_periodic = pos 60;
    cert_mode = "";
    options = record { core_name = ""; core = "xray"; raw_options = none };
  };
}

abbrev compile : String → Option String
compile p = some p

-- The panel has a node with one user.
abbrev answers : Answers
answers = record {
  new_node = inr (some info);
  new_users = inr (some (user ∷ []));
  new_alive = inr none;
}

answers-AnswersOk : AnswersOk 1 answers
answers-AnswersOk us h =
    let same : user ∷ [] ≡ us = ground (arith, h) in
    subst (λ x. IsList 1 x) same ((refl, tt), (refl, tt))

-- The panel says that nothing is new.
abbrev nothing : Answers
nothing = record { new_node = inr none; new_users = inr none; new_alive = inr none }

nothing-AnswersOk : AnswersOk 1 nothing
nothing-AnswersOk us h = absurd (ground (arith, h))

abbrev made : Controller ℕ String ℤ String
made = make_limiter info (user ∷ []) none controller

abbrev begun : Controller ℕ String ℤ String
begun = start_tasks info (record made { server = 2; info = info })

controller-starts : start_controller counting compile none answers controller ≡ starts begun
unfolding start_controller set_up serve_node set_rules update_rule compile_all make_limiter load
    add_limiter store new_limiter add_users add_user
controller-starts = refl

abbrev checked : Controller ℕ String ℤ String
checked = speed_checker (pos 100) begun

life : Life counting 1 compile (check_users counting none checked)
unfolding node_info_monitor speed_checker start_tasks make_limiter limit_speeds
life =
    goes_round none nothing checked (check_users counting none checked)
      (checks_speed (pos 100) begun
        (begins none answers controller begun answers-AnswersOk controller-starts))
      refl nothing-AnswersOk refl

Life-InStep_example : InStep 1 (check_users counting none checked)
Life-InStep_example = Life-InStep counting 1 compile (check_users counting none checked) life

-- Close stops the two tasks that run.
abbrev stopped : Task → Task
stopped t = record t { running = false; closed = mark t.stop t.closed }

abbrev closed : Controller ℕ String ℤ String
closed = record begun {
  server = 3;
  registry = delete_limiter begun.tag begun.registry;
  node_info_monitor_periodic = stopped begun.node_info_monitor_periodic;
  user_report_periodic = stopped begun.user_report_periodic;
}
