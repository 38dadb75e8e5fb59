-- ===== src/Limiter/Users/Known.antt =====
-- Which users a limiter knows after AddLimiter and UpdateUser, against the lists that it was given.
use ccaa.Base.{
  ℤ, Bool, false, ◌||◌, ◌≡◌, refl, ap, ◌∙◌, String, List, [], ◌∷◌, Option, none, some, Assoc, load,
  load-store, load-delete, string_eq, int_eq, ◌==◌, arith, if◌then◌else◌,
}
use text.Mathlib.TextEquality.{eq_iff}
use ccaa.Format.{user_tag, user_tag_injective}
use ccaa.Panel.User.{UserInfo}
use ccaa.Limiter.{Limiter, UserLimitInfo}
use ccaa.Limiter.Users.{
  user_limit_of, add_user, add_users, new_limiter, empty_limiter, delete_user, delete_users,
  update_user,
}

-- The last entry of a list for a uuid: what a list of users says of one.
abbrev pub last_user : String → List UserInfo → Option UserInfo
last_user v [] = none
last_user v (u ∷ us) = elim (last_user v us) [
  | some w ↦ some w
  | none ↦ if u.uuid == v then some u else none
]

abbrev pub mentions : String → List UserInfo → Bool
mentions v [] = false
mentions v (u ∷ us) = u.uuid == v || mentions v us

-- What the list makes of what was known before.
abbrev pub override : {A : Type 0} → (UserInfo → A) → Option UserInfo → Option A → Option A
override f none old = old
override f (some u) old = some (f u)

abbrev pub override_uid : Option UserLimitInfo → Option ℤ
override_uid none = none
override_uid (some i) = some i.uid

-- Two keys of one node are equal exactly when the uuids are.
pub user_tag_beq : (tag u v : String) → (user_tag tag u == user_tag tag v) ≡ (u == v)
user_tag_beq tag u v =
    ground (arith, eq_iff (user_tag tag u) (user_tag tag v), eq_iff u v, user_tag_injective tag u v)

module _ {R B : Type 0} (tag : String) where
  add_users-known :
      (v : String) (us : List UserInfo) (l : Limiter R B)
      → load (user_tag tag v) (add_users tag us l).user_limit_info
        ≡ override user_limit_of (last_user v us) (load (user_tag tag v) l.user_limit_info)
  unfolding add_users add_user
  add_users-known v [] l = refl
  add_users-known v (u ∷ us) l = ground (
    arith,
    add_users-known v us (add_user tag u l),
    user_tag_beq tag u.uuid v,
    load-store (user_tag tag u.uuid) (user_tag tag v) (user_limit_of u) l.user_limit_info,
  )

  delete_users-known :
      (v : String) (us : List UserInfo) (l : Limiter R B)
      → load (user_tag tag v) (delete_users tag us l).user_limit_info
        ≡ (if mentions v us then none else load (user_tag tag v) l.user_limit_info)
  unfolding delete_users delete_user
  delete_users-known v [] l = refl
  delete_users-known v (u ∷ us) l = ground (
    arith,
    delete_users-known v us (delete_user tag u l),
    user_tag_beq tag u.uuid v,
    load-delete (user_tag tag u.uuid) (user_tag tag v) l.user_limit_info,
  )

  -- After UpdateUser a user is known by the last entry for it among the added; else it is not known
  -- if it is among the deleted, and is as before if it is in neither list.
  pub update_user-known :
      (v : String) (added deleted : List UserInfo) (l : Limiter R B)
      → load (user_tag tag v) (update_user tag added deleted l).user_limit_info
        ≡ override user_limit_of
            (last_user v added)
            (if mentions v deleted then none else load (user_tag tag v) l.user_limit_info)
  unfolding update_user
  update_user-known v added deleted l =
      add_users-known v added (delete_users tag deleted l)
      ∙ ap (override user_limit_of (last_user v added)) (delete_users-known v deleted l)

  add_users-buckets :
      (us : List UserInfo) (l : Limiter R B)
      → ((add_users tag us l).speed_limiter ≡ l.speed_limiter)
        × ((add_users tag us l).user_online_ip ≡ l.user_online_ip)
  unfolding add_users add_user
  add_users-buckets [] l = (refl, refl)
  add_users-buckets (u ∷ us) l = add_users-buckets us (add_user tag u l)

  delete_users-buckets :
      (v : String) (us : List UserInfo) (l : Limiter R B)
      → let t = user_tag tag v in
        let m = delete_users tag us l in
        (load t m.speed_limiter ≡ (if mentions v us then none else load t l.speed_limiter))
        × (load t m.user_online_ip ≡ (if mentions v us then none else load t l.user_online_ip))
  unfolding delete_users delete_user
  delete_users-buckets v [] l = (refl, refl)
  delete_users-buckets v (u ∷ us) l =
      let ih = delete_users-buckets v us (delete_user tag u l) in
      (
        ground (
          arith,
          ih.0,
          user_tag_beq tag u.uuid v,
          load-delete (user_tag tag u.uuid) (user_tag tag v) l.speed_limiter,
        ),
        ground (
          arith,
          ih.1,
          user_tag_beq tag u.uuid v,
          load-delete (user_tag tag u.uuid) (user_tag tag v) l.user_online_ip,
        ),
      )

  -- UpdateUser drops the rate bucket and the online addresses of every deleted user, also of one
  -- that is added again, and keeps those of every other user.
  pub update_user-resets :
      (v : String) (added deleted : List UserInfo) (l : Limiter R B)
      → let t = user_tag tag v in
        let m = update_user tag added deleted l in
        (load t m.speed_limiter ≡ (if mentions v deleted then none else load t l.speed_limiter))
        × (load t m.user_online_ip ≡ (if mentions v deleted then none else load t l.user_online_ip))
  unfolding update_user
  update_user-resets v added deleted l =
      let kept = add_users-buckets added (delete_users tag deleted l) in
      (
        rw kept.0 (delete_users-buckets v deleted l).0,
        rw kept.1 (delete_users-buckets v deleted l).1,
      )

  -- The table of uids agrees with the limits: a uuid has the uid of its record, and none if it has
  -- no record.
  abbrev pub IsConsistent : Limiter R B → Type 0
  IsConsistent l =
      (v : String) → load v l.uuid_to_uid ≡ override_uid (load (user_tag tag v) l.user_limit_info)

  add_user-IsConsistent :
      (u : UserInfo) (l : Limiter R B) → IsConsistent l → IsConsistent (add_user tag u l)
  unfolding add_user user_limit_of
  add_user-IsConsistent u l h v = ground (
    arith,
    h v,
    user_tag_beq tag u.uuid v,
    load-store (user_tag tag u.uuid) (user_tag tag v) (user_limit_of u) l.user_limit_info,
    load-store u.uuid v u.id l.uuid_to_uid,
  )

  add_users-IsConsistent :
      (us : List UserInfo) (l : Limiter R B) → IsConsistent l → IsConsistent (add_users tag us l)
  unfolding add_users
  add_users-IsConsistent [] l h = h
  add_users-IsConsistent (u ∷ us) l h =
      add_users-IsConsistent us (add_user tag u l) (add_user-IsConsistent u l h)

  delete_user-IsConsistent :
      (u : UserInfo) (l : Limiter R B) → IsConsistent l → IsConsistent (delete_user tag u l)
  unfolding delete_user
  delete_user-IsConsistent u l h v = ground (
    arith,
    h v,
    user_tag_beq tag u.uuid v,
    load-delete (user_tag tag u.uuid) (user_tag tag v) l.user_limit_info,
    load-delete u.uuid v l.uuid_to_uid,
  )

  delete_users-IsConsistent :
      (us : List UserInfo) (l : Limiter R B) → IsConsistent l → IsConsistent (delete_users tag us l)
  unfolding delete_users
  delete_users-IsConsistent [] l h = h
  delete_users-IsConsistent (u ∷ us) l h =
      delete_users-IsConsistent us (delete_user tag u l) (delete_user-IsConsistent u l h)

  -- UpdateUser keeps the table of uids and the table of limits in agreement.
  pub update_user-IsConsistent :
      (added deleted : List UserInfo) (l : Limiter R B)
      → IsConsistent l
      → IsConsistent (update_user tag added deleted l)
  unfolding update_user
  update_user-IsConsistent added deleted l h =
      add_users-IsConsistent added (delete_users tag deleted l)
        (delete_users-IsConsistent deleted l h)

module _ (R B : Type 0) (tag : String) (speed : ℤ) (us : List UserInfo) (alive : Assoc ℤ ℤ) where
  abbrev pub fresh_limiter : Limiter R B
  fresh_limiter = new_limiter tag speed us alive

  -- The limiter of a new node knows exactly the users of its list, each by its last entry, and its
  -- table of uids agrees with the limits.
  pub new_limiter-known :
      ((v : String)
        → load (user_tag tag v) fresh_limiter.user_limit_info
          ≡ override user_limit_of (last_user v us) none)
      × IsConsistent tag fresh_limiter
  unfolding new_limiter load
  new_limiter-known = (
    λ v. add_users-known tag v us (empty_limiter speed alive),
    add_users-IsConsistent tag us (empty_limiter speed alive) (λ v. refl),
  )
