-- ===== src/Core/Interface.antt =====
-- core/interface.go: what the controller and the selector need of a core. S is the state of a core;
-- an operation gives the new state and its answer. An error is `some` of its text.
use ccaa.Base.{ℤ, String, List, Option, Bool}
use ccaa.Panel.User.{UserInfo, UserTraffic}
use ccaa.Panel.Node.{NodeInfo}

abbrev pub Error : Type 0
Error = Option String

pub record AddUsersParams : Type 0 where
  pub tag : String
  pub users : List UserInfo
  pub node_info : NodeInfo

-- The parts of conf.Options that the selector reads; R is what is left to decode.
pub record Options (R : Type 0) : Type 0 where
  pub core_name : String
  pub core : String
  pub raw_options : Option R

pub record Core (S R : Type 0) : Type 0 where
  pub start : S → S × Error
  pub close : S → S × Error
  pub add_node : String → NodeInfo → Options R → S → S × Error
  pub del_node : String → S → S × Error
  pub add_users : AddUsersParams → S → S × ℤ × Error
  pub get_user_traffic_slice : String → Bool → S → S × List UserTraffic × Error
  pub del_users : List UserInfo → String → NodeInfo → S → S × Error
  pub protocols : S → List String
  pub core_type : S → String
