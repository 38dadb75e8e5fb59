-- ===== src/Limiter.antt =====
-- limiter/: what a node knows of its users' limits, and who is online. One value of `Limiter` is
-- what a `*Limiter` points to. Compiled expressions and rate buckets are those of Go's `regexp`
-- and of juju/ratelimit: the types R and B, with the functions that make them as arguments.
pub mod Speed
pub mod Users
pub mod Registry
pub mod Check
pub mod Online
pub mod Rules
pub mod History
mod Tests
use ccaa.Base.{ℤ, Bool, String, List, Assoc}

pub record UserLimitInfo : Type 0 where
  pub uid : ℤ
  pub speed_limit : ℤ
  pub device_limit : ℤ
  pub dynamic_speed_limit : ℤ
  pub expire_time : ℤ
  pub over_limit : Bool

pub record Limiter (R B : Type 0) : Type 0 where
  pub domain_rules : List R
  pub protocol_rules : List String
  pub speed_limit : ℤ
  pub user_online_ip : Assoc String (Assoc String ℤ)
  pub old_user_online : Assoc String ℤ
  pub uuid_to_uid : Assoc String ℤ
  pub user_limit_info : Assoc String UserLimitInfo
  pub speed_limiter : Assoc String B
  pub alive_list : Assoc ℤ ℤ
