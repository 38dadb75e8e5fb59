-- ===== src/Limiter/Users.antt =====
-- limiter/limiter.go: AddLimiter, GetLimiter, DeleteLimiter, UpdateUser, UpdateDynamicSpeedLimit.
pub mod Known
use ccaa.Base.{
  ℤ, pos, ◌==◌, int_eq, string_eq, false, not, String, List, [], ◌∷◌, Option, none, some, Assoc,
  load, store, delete, if◌then◌else◌,
}
use ccaa.Format.{user_tag}
use ccaa.Panel.User.{UserInfo}
use ccaa.Limiter.{Limiter, UserLimitInfo}

-- Field by field, as the loop of `AddLimiter` fills the zero record; `UpdateUser` fills it alike.
unfoldable pub user_limit_of : UserInfo → UserLimitInfo
user_limit_of u = record {
  uid = u.id;
  speed_limit = if not (u.speed_limit == pos 0) then u.speed_limit else pos 0;
  device_limit = if not (u.device_limit == pos 0) then u.device_limit else pos 0;
  dynamic_speed_limit = pos 0;
  expire_time = pos 0;
  over_limit = false;
}

-- One round of the loop over the users, and the loop.
unfoldable pub add_user : {R B : Type 0} → String → UserInfo → Limiter R B → Limiter R B
add_user tag u l = record l {
  uuid_to_uid = store u.uuid u.id l.uuid_to_uid;
  user_limit_info = store (user_tag tag u.uuid) (user_limit_of u) l.user_limit_info;
}

unfoldable pub add_users : {R B : Type 0} → String → List UserInfo → Limiter R B → Limiter R B
add_users tag [] l = l
add_users tag (u ∷ us) l = add_users tag us (add_user tag u l)

abbrev pub empty_limiter : {R B : Type 0} → ℤ → Assoc ℤ ℤ → Limiter R B
empty_limiter speed alive = record {
  domain_rules = [];
  protocol_rules = [];
  speed_limit = speed;
  user_online_ip = [];
  old_user_online = [];
  uuid_to_uid = [];
  user_limit_info = [];
  speed_limiter = [];
  alive_list = alive;
}

unfoldable pub new_limiter : {R B : Type 0} → String → ℤ → List UserInfo → Assoc ℤ ℤ → Limiter R B
new_limiter tag speed users alive = add_users tag users (empty_limiter speed alive)

-- One round of the loop over the deleted users, and the loop.
unfoldable pub delete_user : {R B : Type 0} → String → UserInfo → Limiter R B → Limiter R B
delete_user tag u l = record l {
  user_limit_info = delete (user_tag tag u.uuid) l.user_limit_info;
  user_online_ip = delete (user_tag tag u.uuid) l.user_online_ip;
  speed_limiter = delete (user_tag tag u.uuid) l.speed_limiter;
  uuid_to_uid = delete u.uuid l.uuid_to_uid;
  alive_list = delete u.id l.alive_list;
}

unfoldable pub delete_users : {R B : Type 0} → String → List UserInfo → Limiter R B → Limiter R B
delete_users tag [] l = l
delete_users tag (u ∷ us) l = delete_users tag us (delete_user tag u l)

unfoldable pub update_user :
    {R B : Type 0} → String → List UserInfo → List UserInfo → Limiter R B → Limiter R B
update_user tag added deleted l = add_users tag added (delete_users tag deleted l)

-- `none` is the error "not found".
unfoldable pub update_dynamic_speed_limit :
    {R B : Type 0} → String → String → ℤ → ℤ → Limiter R B → Option (Limiter R B)
update_dynamic_speed_limit tag uuid limit expire l =
    elim (load (user_tag tag uuid) l.user_limit_info) [
      | none ↦ none
      | some info ↦ some (record l {
        user_limit_info =
            store (user_tag tag uuid)
              (record info { dynamic_speed_limit = limit; expire_time = expire }) l.user_limit_info;
      })
    ]
