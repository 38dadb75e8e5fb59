-- ===== src/Limiter/Speed.antt =====
-- limiter/dynamic.go: which of two limits counts, and the limit that the panel sets for a while.
use ccaa.Base.{
  ℤ, pos, negsuc, ◌+ℤ◌, ◌≤ℤ◌, ltb_ℤ, ◌==◌, int_eq, ◌||◌, ◌≡◌, ◌≢◌, ◌⊎◌, if◌then◌else◌, arith,
  String, store, string_eq, false,
}
use ccaa.Format.{user_tag}
use ccaa.Panel.User.{UserInfo}
use ccaa.Limiter.{Limiter, UserLimitInfo}

unfoldable pub determine_speed_limit : ℤ → ℤ → ℤ
determine_speed_limit limit1 limit2 =
    if limit1 == pos 0 || limit2 == pos 0
    then if ltb_ℤ limit2 limit1 then limit1 else if ltb_ℤ limit1 limit2 then limit2 else pos 0
    else if ltb_ℤ limit2 limit1
    then limit2
    else if ltb_ℤ limit1 limit2
    then limit1
    else limit1

-- The new record of `AddDynamicSpeedLimit`: fields that the literal leaves out are zero.
abbrev pub dynamic_user_limit : ℤ → ℤ → UserLimitInfo
dynamic_user_limit limit_num expire_at = record {
  uid = pos 0;
  speed_limit = pos 0;
  device_limit = pos 0;
  dynamic_speed_limit = limit_num;
  expire_time = expire_at;
  over_limit = false;
}

-- `now` is `time.Now().Unix()`; adding seconds to the time adds them to its Unix value.
unfoldable pub add_dynamic_speed_limit :
    {R B : Type 0} → ℤ → String → UserInfo → ℤ → ℤ → Limiter R B → Limiter R B
add_dynamic_speed_limit now tag user_info limit_num expire l = record l {
  user_limit_info =
      store (user_tag tag user_info.uuid) (dynamic_user_limit limit_num (now +ℤ expire))
        l.user_limit_info;
}

-- The smaller of two limits that are not negative, where zero means no limit: the result is one of
-- the two, it is not above either that is not zero, and it is zero only if both are.
determine_speed_limit_min :
    (a b : ℤ)
    → pos 0 ≤ℤ a
    → pos 0 ≤ℤ b
    → let r = determine_speed_limit a b in
      ((r ≡ a) ⊎ (r ≡ b))
      × ((a ≡ pos 0) ⊎ (r ≤ℤ a))
      × ((b ≡ pos 0) ⊎ (r ≤ℤ b))
      × ((r ≢ pos 0) ⊎ ((a ≡ pos 0) × (b ≡ pos 0)))
unfolding determine_speed_limit
determine_speed_limit_min (pos a) (pos b) ha hb =
    (ground arith, ground arith, ground arith, ground arith)
determine_speed_limit_min (pos a) (negsuc b) ha hb = absurd (omega arith)
determine_speed_limit_min (negsuc a) b ha hb = absurd (omega arith)
