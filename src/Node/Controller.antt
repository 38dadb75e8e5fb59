-- ===== src/Node/Controller.antt =====
-- node/controller.go and node/task.go: the state of a node's controller, with the server and the
-- limiters that it changes. What the panel answers is an argument of the operations.
use ccaa.Base.{
  ℕ, ℤ, String, nat_eq, string_eq, int_eq, Bool, false, List, Option, none, some, Assoc, load,
  store, str_append, itoa,
}
use ccaa.Panel.User.{UserInfo}
use ccaa.Panel.Node.{NodeInfo}
use ccaa.Limiter.{Limiter}
use ccaa.Limiter.Registry.{Registry}
use ccaa.Task.{Task, ok, start, close}
use ccaa.Core.Interface.{Options}

-- The parts of conf.Options that the controller reads; `options` is what it hands to the core.
pub record Config (R : Type 0) : Type 0 where
  pub name : String
  pub api_host : String
  pub speed_limit : ℤ
  pub enable_dynamic_speed_limit : Bool
  pub dynamic_traffic : ℤ
  pub dynamic_speed_limit : ℤ
  pub dynamic_expire_time : ℤ
  pub dynamic_periodic : ℤ
  pub cert_mode : String
  pub options : Options R

-- S is the server's state; X and B are the limiter's expressions and buckets. `limiter` is the
-- pointer that the controller keeps.
pub record Controller (S X B R : Type 0) : Type 0 where
  pub server : S
  pub registry : Registry X B
  pub tag : String
  pub limiter : ℕ
  pub traffic : Assoc String ℤ
  pub user_list : List UserInfo
  pub info : NodeInfo
  pub node_info_monitor_periodic : Task
  pub user_report_periodic : Task
  pub renew_cert_periodic : Option Task
  pub dynamic_speed_limit_periodic : Option Task
  pub config : Config R

-- The code logs the error and returns, or panics.
pub data Result (A : Type 0) : Type 0 where
  returns : A → Result A
  panics : Result A

-- `buildNodeTag`
unfoldable pub build_node_tag : String → NodeInfo → String
build_node_tag host n =
    str_append "["
      (str_append host (str_append "]-" (str_append n.node_type (str_append ":" (itoa n.id)))))

-- The limiter that a pointer leads to is changed in place.
unfoldable pub modify_limiter :
    {X B : Type 0} → (Limiter X B → Limiter X B) → ℕ → Registry X B → Registry X B
modify_limiter f r g = elim (load r g.heap) [
  | none ↦ g
  | some l ↦ record g { heap = store r (f l) g.heap }
]

-- The interval is set, and the task closed and started; `none` is a panic of `Close`.
unfoldable pub restart : ℤ → Task → Option Task
restart interval t = elim (close (record t { interval = interval })) [
  | ok u ↦ some (start false u)
  | _ ↦ none
]
