-- ===== src/Node/Start.antt =====
-- node/controller.go: Start and Close of a controller; node/task.go: startTasks and SpeedChecker.
-- What the panel answers, the certificate's error and the clock are arguments.
pub mod Limits
pub mod Begun
pub mod Closed
mod Tests
use ccaa.Base.{
  ℕ, ◌/◌, ℤ, pos, negsuc, ◌+ℤ◌, leb_ℤ, wrap64, scale, String, nat_eq, string_eq, int_eq, str_append,
  Bool, true, false, not, ◌&&◌, ◌||◌, List, [], ◌∷◌, Option, none, some, Assoc, load, store, delete,
  ◌==◌, if◌then◌else◌, is_some, ◌⊎◌, inl, inr,
}
use ccaa.Panel.User.{UserInfo}
use ccaa.Panel.Node.{NodeInfo}
use ccaa.Limiter.Registry.{add_limiter, delete_limiter}
use ccaa.Limiter.Users.{update_dynamic_speed_limit}
use ccaa.Task.{Task, Outcome, ok, panics, new_task, start, close}
use ccaa.Core.Interface.{Core, Error}
use ccaa.Node.Controller.{Controller, build_node_tag, modify_limiter}
use ccaa.Node.Monitor.{Answers, or_old, is_nil, tls, set_rules, serve_users}

-- `Unix()` of the time that is some minutes after `now`, both in nanoseconds from the epoch on: the
-- product with `time.Minute` is a 64-bit one, and the seconds are rounded down.
abbrev pub unix : ℤ → ℤ
unix (pos n) = pos (n / 1_000_000_000)
unix (negsuc n) = negsuc (n / 1_000_000_000)

abbrev pub expires_at : ℤ → ℤ → ℤ
expires_at now minutes = unix (now +ℤ wrap64 (scale 60_000_000_000 minutes))

-- `fmt.Errorf` of the server's error, where there is one.
abbrev pub del_node_error : Error → Error
del_node_error none = none
del_node_error (some text) = some (str_append "del node error: " text)

-- Start returns an error, or nil, or the code panics.
pub data Started (A : Type 0) : Type 0 where
  fails starts : A → Started A
  breaks : Started A

-- The modes in which a certificate is not renewed.
abbrev pub keeps_cert : String → Bool
keeps_cert mode = (mode == "none" || mode == "") || (mode == "file" || mode == "self")

abbrev pub day : ℤ
day = pos 86_400_000_000_000

abbrev pub second : ℕ
second = 1_000_000_000

-- A task that there is none of is left alone; `none` is a panic.
abbrev pub after_close : Outcome → Option (Option Task)
after_close (ok u) = some (some u)
after_close panics = none

abbrev pub close_task : Option Task → Option (Option Task)
close_task none = some none
close_task (some t) = after_close (close t)

infixl 10 ◌>>=◌
abbrev pub ◌>>=◌ {ℓ κ} : {A : Type ℓ} {B : Type κ} → Option A → (A → Option B) → Option B
none >>= f = none
some a >>= f = f a

module _ {S X B R : Type 0} where
  -- The task of the dynamic speed limits is made, and the code goes no further with it.
  unfoldable pub start_tasks : NodeInfo → Controller S X B R → Controller S X B R
  start_tasks n c = record c {
    node_info_monitor_periodic = start false (new_task n.pull_interval);
    user_report_periodic = start false (new_task n.push_interval);
    renew_cert_periodic =
        if n.security == tls && not (keeps_cert c.config.cert_mode)
        then some (start true (new_task day))
        else c.renew_cert_periodic;
    traffic = if c.config.enable_dynamic_speed_limit then [] else c.traffic;
    dynamic_speed_limit_periodic =
        if c.config.enable_dynamic_speed_limit
        then some (new_task (wrap64 (scale second c.config.dynamic_periodic)))
        else c.dynamic_speed_limit_periodic;
  }

  -- The tag and the limiter, from the list of users and the devices alive.
  unfoldable pub make_limiter :
      NodeInfo → List UserInfo → Option (Assoc ℤ ℤ) → Controller S X B R → Controller S X B R
  make_limiter n users alive c =
      let tag = if c.config.name == "" then build_node_tag c.config.api_host n else c.config.name in
      let (r, g) = add_limiter tag c.config.speed_limit users (or_old [] alive) c.registry in
      record c { tag = tag; registry = g; limiter = r; user_list = users }

  -- A loop over the map of traffic. UpdateDynamicSpeedLimit's error is only logged. `now` is the
  -- time in nanoseconds.
  unfoldable pub limit_speeds : ℤ → Assoc String ℤ → Controller S X B R → Controller S X B R
  limit_speeds now [] c = c
  limit_speeds now ((u, t) ∷ ts) c = limit_speeds now ts (
      if leb_ℤ c.config.dynamic_traffic t
      then record c {
        registry =
            modify_limiter
              (λ l. or_old l (
                update_dynamic_speed_limit c.tag u c.config.dynamic_speed_limit
                  (expires_at now c.config.dynamic_expire_time) l))
              c.limiter c.registry;
        traffic = delete u c.traffic;
      }
      else c)

  unfoldable pub speed_checker : ℤ → Controller S X B R → Controller S X B R
  speed_checker now c = limit_speeds now c.traffic c

  -- The four tasks are closed, one after the other; `none` is the panic of a task.
  unfoldable pub close_tasks : Controller S X B R → Option (Controller S X B R)
  close_tasks c = do
    node_info_monitor ← close_task (some c.node_info_monitor_periodic)
    user_report ← close_task (some c.user_report_periodic)
    renew_cert ← close_task c.renew_cert_periodic
    dynamic_speed_limit ← close_task c.dynamic_speed_limit_periodic
    some (record c {
      node_info_monitor_periodic = or_old c.node_info_monitor_periodic node_info_monitor;
      user_report_periodic = or_old c.user_report_periodic user_report;
      renew_cert_periodic = renew_cert;
      dynamic_speed_limit_periodic = dynamic_speed_limit;
    })

module _ {S X B R : Type 0} (core : Core S R) where
  -- From AddNode on.
  unfoldable pub serve_node : NodeInfo → Controller S X B R → Started (Controller S X B R)
  serve_node n c =
      let (s, e) = core.add_node c.tag n c.config.options c.server in
      let (d, f) = serve_users core n c.user_list (record c { server = s }) in
      elim e [
        | some text ↦ fails (record c { server = s })
        | none ↦ elim f [
          | some text ↦ fails d
          | none ↦ starts (start_tasks n (record d { info = n }))
        ]
      ]

  -- With the node, a list of users that is not empty, and the devices alive.
  unfoldable pub set_up :
      (String → Option X)
      → Error
      → NodeInfo
      → List UserInfo
      → Option (Assoc ℤ ℤ)
      → Controller S X B R
      → Started (Controller S X B R)
  set_up compile cert n users alive c = elim (set_rules compile n (make_limiter n users alive c)) [
    | none ↦ breaks
    | some d ↦ if n.security == tls && is_some cert then fails d else serve_node n d
  ]

  -- Without a node the code panics, once the other answers are in.
  abbrev pub set_up_answered :
      (String → Option X)
      → Error
      → Option NodeInfo
      → List UserInfo
      → Option (Assoc ℤ ℤ)
      → Controller S X B R
      → Started (Controller S X B R)
  set_up_answered compile cert none users alive c = breaks
  set_up_answered compile cert (some n) users alive c = set_up compile cert n users alive c

  abbrev pub with_users :
      (String → Option X)
      → Error
      → Option NodeInfo
      → List UserInfo
      → String ⊎ Option (Assoc ℤ ℤ)
      → Controller S X B R
      → Started (Controller S X B R)
  with_users compile cert info [] alive c = fails (record c { user_list = [] })
  with_users compile cert info (u ∷ us) (inl error) c = fails (record c { user_list = u ∷ us })
  with_users compile cert info (u ∷ us) (inr alive) c =
      set_up_answered compile cert info (u ∷ us) alive c

  unfoldable pub start_controller :
      (String → Option X) → Error → Answers → Controller S X B R → Started (Controller S X B R)
  start_controller compile cert a c = elim a.new_node [
    | inl error ↦ fails c
    | inr node ↦ elim a.new_users [
      | inl error ↦ fails (record c { user_list = [] })
      | inr users ↦ with_users compile cert node (or_old [] users) a.new_alive c
    ]
  ]

  unfoldable pub close_controller : Controller S X B R → Option (Controller S X B R × Error)
  close_controller c = do
    d ← close_tasks (record c { registry = delete_limiter c.tag c.registry })
    let (s, e) = core.del_node d.tag d.server in some (record d { server = s }, del_node_error e)
