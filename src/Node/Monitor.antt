-- ===== src/Node/Monitor.antt =====
-- node/task.go: nodeInfoMonitor, in the steps of its body, and SpeedChecker. `compile` is
-- `regexp.Compile`, and `cert` the error of `requestCert`, if there is one.
pub mod Unchanged
pub mod Keeps
pub mod Named
pub mod InStep
mod Tests
use ccaa.Base.{
  ℕ, ℤ, pos, ◌+ℤ◌, leb_ℤ, wrap64, scale, String, nat_eq, string_eq, int_eq, Bool, true, false, not,
  ◌&&◌, ◌||◌, List, [], ◌∷◌, Option, none, some, Assoc, load, store, delete, ◌==◌, if◌then◌else◌,
  is_some, ◌⊎◌, inl, inr,
}
use ccaa.Panel.User.{UserInfo}
use ccaa.Panel.Node.{NodeInfo}
use ccaa.Limiter.{Limiter}
use ccaa.Limiter.Registry.{Registry, add_limiter, delete_limiter}
use ccaa.Limiter.Users.{update_user, update_dynamic_speed_limit}
use ccaa.Limiter.Rules.{update_rule}
use ccaa.Task.{Task}
use ccaa.Core.Interface.{Core, Error, AddUsersParams, Options}
use ccaa.Node.Users.{compare_user_list}
use ccaa.Node.Controller.{
  Controller, Config, Result, returns, panics, build_node_tag, modify_limiter, restart,
}

-- The panel's answers: an error, or the answer, `none` where Go has nil.
pub record Answers : Type 0 where
  pub new_node : String ⊎ Option NodeInfo
  pub new_users : String ⊎ Option (List UserInfo)
  pub new_alive : String ⊎ Option (Assoc ℤ ℤ)

abbrev pub or_old {ℓ} : {A : Type ℓ} → A → Option A → A
or_old a none = a
or_old a (some b) = b

abbrev pub is_nil : List UserInfo → Bool
is_nil [] = true
is_nil (u ∷ us) = false

abbrev pub tls : ℤ
tls = pos 1

abbrev pub forget_traffic : List UserInfo → Assoc String ℤ → Assoc String ℤ
forget_traffic [] traffic = traffic
forget_traffic (u ∷ us) traffic = forget_traffic us (delete u.uuid traffic)

module _ {S X B R : Type 0} where
  abbrev pub set_alive : Option (Assoc ℤ ℤ) → Controller S X B R → Controller S X B R
  set_alive none c = c
  set_alive (some alive) c = record c {
    registry = modify_limiter (λ l. record l { alive_list = alive }) c.limiter c.registry;
  }

  -- Without a name in the options the tag is made anew, and with it the limiter.
  unfoldable pub renew_limiter :
      NodeInfo → Option (Assoc ℤ ℤ) → Controller S X B R → Controller S X B R
  renew_limiter n alive c =
      if c.config.name == ""
      then (let tag = build_node_tag c.config.api_host n in
          let (r, g) =
            add_limiter tag c.config.speed_limit c.user_list (or_old [] alive)
              (delete_limiter tag c.registry) in
          record c { tag = tag; registry = g; limiter = r })
      else c

  -- `UpdateRule` of the controller's limiter; `none` is its panic.
  unfoldable pub set_rules :
      (String → Option X) → NodeInfo → Controller S X B R → Option (Controller S X B R)
  set_rules compile n c = elim (load c.limiter c.registry.heap) [
    | none ↦ some c
    | some l ↦ elim (update_rule compile n.rules l) [
      | none ↦ none
      | some m ↦
          some
            (record c { registry = record c.registry { heap = store c.limiter m c.registry.heap } })
    ]
  ]

  -- The intervals. The push interval is compared, but the pull interval is set.
  unfoldable pub set_pull : NodeInfo → Controller S X B R → Option (Controller S X B R)
  set_pull n c =
      if not (c.node_info_monitor_periodic.interval == n.pull_interval)
        && not (n.pull_interval == pos 0)
      then elim (restart n.pull_interval c.node_info_monitor_periodic) [
        | none ↦ none
        | some t ↦ some (record c { node_info_monitor_periodic = t })
      ]
      else some c

  unfoldable pub set_push : NodeInfo → Controller S X B R → Option (Controller S X B R)
  set_push n c =
      if not (c.user_report_periodic.interval == n.push_interval) && not (n.push_interval == pos 0)
      then elim (restart n.pull_interval c.user_report_periodic) [
        | none ↦ none
        | some t ↦ some (record c { user_report_periodic = t })
      ]
      else some c

  unfoldable pub set_intervals : NodeInfo → Controller S X B R → Result (Controller S X B R)
  set_intervals n c = elim (set_pull n c) [
    | none ↦ panics
    | some d ↦ elim (set_push n d) [ none ↦ panics | some e ↦ returns e ]
  ]

module _ {S X B R : Type 0} (core : Core S R) where
  -- The users of a list are added to the server.
  abbrev pub serve_users :
      NodeInfo → List UserInfo → Controller S X B R → Controller S X B R × Error
  serve_users n us c =
      let (s, added, e) =
        core.add_users (record { tag = c.tag; users = us; node_info = n }) c.server in
      (record c { server = s }, e)

  -- The new node is added, then its users.
  unfoldable pub add_new_node : NodeInfo → Controller S X B R → Result (Controller S X B R)
  add_new_node n c =
      let (s, e) = core.add_node c.tag n c.config.options c.server in
      let (d, f) = serve_users n c.user_list (record c { server = s }) in
      elim e [
        | some text ↦ panics
        | none ↦ elim f [ some text ↦ returns d | none ↦ set_intervals n d ]
      ]

  -- From the rules on.
  unfoldable pub set_up_node :
      (String → Option X) → Error → NodeInfo → Controller S X B R → Result (Controller S X B R)
  set_up_node compile cert n c = elim (set_rules compile n c) [
    | none ↦ panics
    | some d ↦ if n.security == tls && is_some cert then returns d else add_new_node n d
  ]

  -- The node has changed.
  unfoldable pub reload_node :
      (String → Option X)
      → Error
      → NodeInfo
      → Option (List UserInfo)
      → Option (Assoc ℤ ℤ)
      → Controller S X B R
      → Result (Controller S X B R)
  reload_node compile cert n users alive c =
      let (s, e) = core.del_node c.tag c.server in
      let d = record c {
        info = n;
        user_list = or_old c.user_list users;
        traffic = [];
        server = s;
      } in
      elim e [
        | some text ↦ panics
        | none ↦ set_up_node compile cert n (set_alive alive (renew_limiter n alive d))
      ]

  -- The deleted users leave the server, unless there are none.
  unfoldable pub drop_users : List UserInfo → Controller S X B R → Controller S X B R × Error
  drop_users [] c = (c, none)
  drop_users (u ∷ us) c =
      let (s, e) = core.del_users (u ∷ us) c.tag c.info c.server in (record c { server = s }, e)

  unfoldable pub take_users : List UserInfo → Controller S X B R → Controller S X B R × Error
  take_users [] c = (c, none)
  take_users (u ∷ us) c = serve_users c.info (u ∷ us) c

  -- The limiter, and the record of traffic.
  unfoldable pub limit_users :
      List UserInfo → List UserInfo → Controller S X B R → Controller S X B R
  limit_users deleted added c = if is_nil added && is_nil deleted then c else record c {
    registry = modify_limiter (update_user c.tag added deleted) c.limiter c.registry;
    traffic =
        if c.config.enable_dynamic_speed_limit then forget_traffic deleted c.traffic else c.traffic;
  }

  -- After the added users: an error, or the limiter and the new list `us`.
  abbrev pub after_take :
      List UserInfo
      → List UserInfo
      → List UserInfo
      → Controller S X B R × Error
      → Controller S X B R
  after_take deleted added us (c, some text) = c
  after_take deleted added us (c, none) = record (limit_users deleted added c) { user_list = us }

  -- After the deleted users: an error, or the added users.
  abbrev pub after_drop :
      List UserInfo
      → List UserInfo
      → List UserInfo
      → Controller S X B R × Error
      → Controller S X B R
  after_drop deleted added us (c, some text) = c
  after_drop deleted added us (c, none) = after_take deleted added us (take_users added c)

  -- The node has not changed: its users are compared with the new list `us`.
  unfoldable pub change_users : List UserInfo → Controller S X B R → Controller S X B R
  change_users us c =
      let (deleted, added) = compare_user_list c.user_list us in
      after_drop deleted added us (drop_users deleted c)

  unfoldable pub check_users : Option (List UserInfo) → Controller S X B R → Controller S X B R
  check_users none c = c
  check_users (some []) c = c
  check_users (some (u ∷ us)) c = change_users (u ∷ us) c

  unfoldable pub node_info_monitor :
      (String → Option X) → Error → Answers → Controller S X B R → Result (Controller S X B R)
  node_info_monitor compile cert a c = elim a.new_node [
    | inl error ↦ returns c
    | inr node ↦ elim a.new_users [
      | inl error ↦ returns c
      | inr users ↦ elim a.new_alive [
        | inl error ↦ returns c
        | inr alive ↦ elim node [
          | some n ↦ reload_node compile cert n users alive c
          | none ↦ returns (check_users users (set_alive alive c))
        ]
      ]
    ]
  ]
