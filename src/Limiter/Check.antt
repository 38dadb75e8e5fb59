-- ===== src/Limiter/Check.antt =====
-- limiter/limiter.go: CheckLimit, in the steps of its body. `now` is `time.Now().Unix()`, read
-- once in the body. `new_bucket fill capacity` is `ratelimit.NewBucketWithQuantum(time.Second, …)`.
pub mod Device
pub mod Reject
pub mod Bucket
pub mod Known
use ccaa.Base.{
  ℤ, pos, ltb_ℤ, leb_ℤ, wrap64, scale, quot, ◌==◌, int_eq, string_eq, Bool, true, false, not, ◌&&◌,
  String, [], Option, none, some, Assoc, load, store, delete, if◌then◌else◌, trim_prefix, is_some,
}
use ccaa.Limiter.{Limiter, UserLimitInfo}
use ccaa.Limiter.Speed.{determine_speed_limit}

-- An absent key of a `map[int]int` reads as zero.
abbrev pub or_zero : Option ℤ → ℤ
or_zero none = pos 0
or_zero (some z) = z

-- The dynamic limit has run out.
abbrev pub has_expired : ℤ → UserLimitInfo → Bool
has_expired now u = ltb_ℤ u.expire_time now && not (u.expire_time == pos 0)

-- The user's own limit, and what the call does to the user's record. (The record is read before
-- the deletion, so the device limit and the uid are those of `u` on every branch.)
unfoldable pub user_speed_limit :
    {R B : Type 0} → ℤ → String → UserLimitInfo → Limiter R B → ℤ × Limiter R B
user_speed_limit now taguuid u l =
    if has_expired now u
    then if not (u.speed_limit == pos 0)
      then (
        u.speed_limit,
        record l {
          user_limit_info =
              store taguuid (record u { dynamic_speed_limit = pos 0; expire_time = pos 0 })
                l.user_limit_info;
        },
      )
      else (pos 0, record l { user_limit_info = delete taguuid l.user_limit_info })
    else (determine_speed_limit u.speed_limit u.dynamic_speed_limit, l)

-- The device limit is reached by what the panel counts as alive.
abbrev pub at_device_limit : ℤ → ℤ → Bool
at_device_limit device_limit alive_ip = ltb_ℤ (pos 0) device_limit && leb_ℤ device_limit alive_ip

-- An address that was online in the last period is taken off that record, if it was this user's.
abbrev pub forget_old : String → ℤ → Assoc String ℤ → Assoc String ℤ
forget_old ip uid old = elim (load ip old) [
  | none ↦ old
  | some v ↦ if v == uid then delete ip old else old
]

-- `LoadOrStore` found the user's addresses `ips`.
unfoldable pub known_device :
    {R B : Type 0} → String → String → ℤ → ℤ → Assoc String ℤ → Limiter R B → Limiter R B × Bool
known_device taguuid ip uid device_limit ips l =
    if is_some (load ip ips)
    then (l, false)
    else if is_some (load ip l.old_user_online)
    then (
      record l {
        user_online_ip = store taguuid (store ip uid ips) l.user_online_ip;
        old_user_online = forget_old ip uid l.old_user_online;
      },
      false,
    )
    else if at_device_limit device_limit (or_zero (load uid l.alive_list))
    then (
      record l { user_online_ip = store taguuid (delete ip (store ip uid ips)) l.user_online_ip },
      true,
    )
    else (record l { user_online_ip = store taguuid (store ip uid ips) l.user_online_ip }, false)

-- `LoadOrStore` stored the new map of one address.
unfoldable pub first_device :
    {R B : Type 0} → String → String → ℤ → ℤ → Limiter R B → Limiter R B × Bool
first_device taguuid ip uid device_limit l =
    let online = store taguuid (store ip uid []) l.user_online_ip in
    if is_some (load ip l.old_user_online)
    then (
      record l { user_online_ip = online; old_user_online = forget_old ip uid l.old_user_online },
      false,
    )
    else if at_device_limit device_limit (or_zero (load uid l.alive_list))
    then (record l { user_online_ip = delete taguuid online }, true)
    else (record l { user_online_ip = online }, false)

-- The device check; the flag says that the connection is rejected.
unfoldable pub check_device :
    {R B : Type 0} → String → String → ℤ → ℤ → Limiter R B → Limiter R B × Bool
unfolding known_device first_device
check_device taguuid ip uid device_limit l = elim (load taguuid l.user_online_ip) [
  | none ↦ first_device taguuid ip uid device_limit l
  | some ips ↦ known_device taguuid ip uid device_limit ips l
]

-- Bytes a second, in an int64.
unfoldable pub bytes_per_second : ℤ → ℤ
bytes_per_second mbps = quot (wrap64 (scale 1_000_000 mbps)) 8

module _ {R B : Type 0} (new_bucket : ℤ → ℤ → B) where
  unfoldable pub speed_bucket : String → ℤ → Limiter R B → Limiter R B × Option B
  speed_bucket taguuid limit l =
      if ltb_ℤ (pos 0) limit
      then elim (load taguuid l.speed_limiter) [
        | some b ↦ (l, some b)
        | none ↦
            let b = new_bucket limit limit in
            (record l { speed_limiter = store taguuid b l.speed_limiter }, some b)
      ]
      else (l, none)

  -- The result is the new limiter, the bucket and whether the connection is rejected.
  unfoldable pub check_known :
      ℤ → String → String → Bool → UserLimitInfo → Limiter R B → Limiter R B × Option B × Bool
  check_known now taguuid ip no_ss_udp u l =
      let (user_limit, l1) = user_speed_limit now taguuid u l in
      let (l2, reject) =
        if no_ss_udp then check_device taguuid ip u.uid u.device_limit l1 else (l1, false) in
      if reject
      then (l2, none, true)
      else let limit = bytes_per_second (determine_speed_limit l.speed_limit user_limit) in
        let (l3, b) = speed_bucket taguuid limit l2 in (l3, b, false)

  unfoldable pub check_limit :
      ℤ → String → String → Bool → Bool → Limiter R B → Limiter R B × Option B × Bool
  check_limit now taguuid ip is_tcp no_ss_udp l = elim (load taguuid l.user_limit_info) [
    | none ↦ (l, none, true)
    | some u ↦ check_known now taguuid (trim_prefix ip "::ffff:") no_ss_udp u l
  ]
