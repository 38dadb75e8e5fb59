-- ===== src/Limiter/Check/Known.antt =====
-- The users whom CheckLimit goes on knowing.
use ccaa.Base.{
  ℤ, pos, Bool, not, ◌&&◌, ◌≡◌, String, some, is_some, load, load-store, load-delete, beq_refl,
  string_eq, int_eq, arith, ◌==◌,
}
use ccaa.Limiter.{Limiter, UserLimitInfo}
use ccaa.Limiter.Check.{check_limit, check_known, check_device, user_speed_limit, has_expired}
use ccaa.Limiter.Check.Reject.{check_limit-known, plain_ip}
use ccaa.Limiter.Check.Bucket.{rate_of, check_device-users, speed_bucket-users}

-- The user's dynamic limit has run out, and there is no limit of the user's own.
abbrev pub is_forgotten : ℤ → UserLimitInfo → Bool
is_forgotten now u = has_expired now u && u.speed_limit == pos 0

user_speed_limit-knows :
    {R B : Type 0} (now : ℤ) (taguuid : String) (u : UserLimitInfo) (l : Limiter R B)
    → load taguuid l.user_limit_info ≡ some u
    → is_some (load taguuid (user_speed_limit now taguuid u l).1.user_limit_info)
      ≡ not (is_forgotten now u)
unfolding user_speed_limit
user_speed_limit-knows now taguuid u l e =
    let reset = record u { dynamic_speed_limit = pos 0; expire_time = pos 0 } in
    ground (
      arith,
      beq_refl taguuid,
      load-delete taguuid taguuid l.user_limit_info,
      load-store taguuid taguuid reset l.user_limit_info,
    )

module _ {R B : Type 0} (new_bucket : ℤ → ℤ → B) where
  check_known-knows :
      (now : ℤ) (taguuid ip : String) (no_ss_udp : Bool) (u : UserLimitInfo) (l : Limiter R B)
      → load taguuid l.user_limit_info ≡ some u
      → is_some
          (load taguuid (check_known new_bucket now taguuid ip no_ss_udp u l).0.user_limit_info)
        ≡ not (is_forgotten now u)
  unfolding check_known
  check_known-knows now taguuid ip no_ss_udp u l e =
      let m = (user_speed_limit now taguuid u l).1 in
      let rate = rate_of now taguuid u l in
      let d = (check_device taguuid ip u.uid u.device_limit m).0 in
      ground (
        arith,
        user_speed_limit-knows now taguuid u l e,
        check_device-users taguuid ip u.uid u.device_limit m,
        speed_bucket-users new_bucket taguuid rate m,
        speed_bucket-users new_bucket taguuid rate d,
      )

  -- A known user stays known, but for one whose limit for a while has run out and who has no other.
  pub check_limit-knows :
      (now : ℤ) (taguuid ip : String) (is_tcp no_ss_udp : Bool) (u : UserLimitInfo)
      (l : Limiter R B)
      → load taguuid l.user_limit_info ≡ some u
      → is_some (
          load taguuid (check_limit new_bucket now taguuid ip is_tcp no_ss_udp l).0.user_limit_info)
        ≡ not (is_forgotten now u)
  check_limit-knows now taguuid ip is_tcp no_ss_udp u l e =
      rw (check_limit-known new_bucket now taguuid ip is_tcp no_ss_udp u l e)
        (check_known-knows now taguuid (plain_ip ip) no_ss_udp u l e)
