-- ===== src/Panel/User.antt =====
-- The records of api/panel/user.go that the other packages exchange.
use ccaa.Base.{ℤ, String}

pub record OnlineUser : Type 0 where
  pub uid : ℤ
  pub ip : String

pub record UserInfo : Type 0 where
  pub id : ℤ
  pub uuid : String
  pub speed_limit : ℤ
  pub device_limit : ℤ

pub record UserTraffic : Type 0 where
  pub uid : ℤ
  pub upload : ℤ
  pub download : ℤ
