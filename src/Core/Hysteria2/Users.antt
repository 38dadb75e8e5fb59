-- ===== src/Core/Hysteria2/Users.antt =====
-- Who may authenticate after users were added and deleted.
use ccaa.Base.{
  ◌≡◌, refl, String, string_eq, Bool, false, not, ◌&&◌, ◌||◌, List, [], ◌∷◌, Option, none, some,
  load, store, delete, load-store, load-delete, ◌==◌, if◌then◌else◌, is_some, arith,
}
use ccaa.Panel.User.{UserInfo}
use ccaa.Counter.{TrafficCounter, delete_counter}
use ccaa.Core.Hysteria2.{UsersMap, authenticate, add_users, del_users}

abbrev pub among : String → List UserInfo → Bool
among v [] = false
among v (u ∷ us) = u.uuid == v || among v us

add_users-among :
    (v : String) (us : List UserInfo) (users : UsersMap)
    → is_some (load v (add_users us users)) ≡ (among v us || is_some (load v users))
unfolding add_users
add_users-among v [] users = refl
add_users-among v (u ∷ us) users =
    ground (arith, add_users-among v us (store u.uuid u.id users), load-store u.uuid v u.id users)

del_users-among :
    (v : String) (us : List UserInfo) (users : UsersMap) (c : Option TrafficCounter)
    → is_some (load v (del_users us (users, c)).0) ≡ (not (among v us) && is_some (load v users))
unfolding del_users
del_users-among v [] users c = refl
del_users-among v (u ∷ us) users none =
    ground (arith, del_users-among v us (delete u.uuid users) none, load-delete u.uuid v users)
del_users-among v (u ∷ us) users (some t) = ground (
  arith,
  del_users-among v us (delete u.uuid users) (some (delete_counter u.uuid t)),
  load-delete u.uuid v users,
)

-- After some users are deleted and others added, a user may authenticate, under their own id,
-- exactly when they are among the added, or were among the users before and are not deleted.
authenticate_lem :
    (v : String) (deleted added : List UserInfo) (users : UsersMap) (c : Option TrafficCounter)
    → authenticate v (add_users added (del_users deleted (users, c)).0) ≡ (
        if among v added || (not (among v deleted) && is_some (load v users)) then some v else none)
unfolding authenticate
authenticate_lem v deleted added users c = ground (
  arith,
  add_users-among v added (del_users deleted (users, c)).0,
  del_users-among v deleted users c,
)
