-- ===== src/Limiter/Check/Reject.antt =====
-- What CheckLimit decides about a connection, and what becomes of the record of who is online.
use ccaa.Base.{
  ℤ, Bool, true, false, ◌≡◌, ◌≢◌, ◌⊎◌, inl, inr, ◌↔◌, String, none, some, load, string_eq, int_eq,
  trim_prefix, is_some, ◌&&◌, arith, Option-cases, if◌then◌else◌,
}
use text.Mathlib.TextEquality.{eq_iff}
use ccaa.Limiter.{Limiter, UserLimitInfo}
use ccaa.Limiter.Check.Device.{
  online_at, IsOverDeviceLimit, check_device-rejects, check_device-keeps, check_device-admits,
  check_device-others, user_speed_limit-frame, speed_bucket-frame,
}
use ccaa.Limiter.Speed.{determine_speed_limit}
use ccaa.Limiter.Check.{check_limit, check_known, check_device, user_speed_limit, bytes_per_second}

-- The address as CheckLimit reads it.
abbrev pub plain_ip : String → String
plain_ip ip = trim_prefix ip "::ffff:"

-- Why a connection is turned away: the user is not known to the node, or the connection counts as
-- a device and is one too many.
abbrev pub MustReject : {R B : Type 0} → String → String → Bool → Limiter R B → Type 0
MustReject taguuid ip no_ss_udp l =
    (load taguuid l.user_limit_info ≡ none)
    ⊎ ((u : UserLimitInfo) × (load taguuid l.user_limit_info ≡ some u)
        × (no_ss_udp ≡ true)
        × IsOverDeviceLimit taguuid (plain_ip ip) u l)

IsOverDeviceLimit-congr :
    {R B : Type 0} (taguuid ip : String) (u : UserLimitInfo) (l m : Limiter R B)
    → m.user_online_ip ≡ l.user_online_ip
    → m.old_user_online ≡ l.old_user_online
    → m.alive_list ≡ l.alive_list
    → IsOverDeviceLimit taguuid ip u m ↔ IsOverDeviceLimit taguuid ip u l
IsOverDeviceLimit-congr taguuid ip u l m p q r = (λ h. ground arith, λ h. ground arith)

module _ {R B : Type 0} (new_bucket : ℤ → ℤ → B) where
  check_known-flag :
      (now : ℤ) (taguuid ip : String) (no_ss_udp : Bool) (u : UserLimitInfo) (l : Limiter R B)
      → (check_known new_bucket now taguuid ip no_ss_udp u l).2 ≡ (
          no_ss_udp
          && (check_device taguuid ip u.uid u.device_limit (user_speed_limit now taguuid u l).1).1)
  unfolding check_known
  check_known-flag now taguuid ip no_ss_udp u l = ground arith

  check_known-rejects :
      (now : ℤ) (taguuid ip : String) (no_ss_udp : Bool) (u : UserLimitInfo) (l : Limiter R B)
      → ((check_known new_bucket now taguuid ip no_ss_udp u l).2 ≡ true)
        ↔ ((no_ss_udp ≡ true) × IsOverDeviceLimit taguuid ip u l)
  check_known-rejects now taguuid ip no_ss_udp u l =
      let m = (user_speed_limit now taguuid u l).1 in
      let same = user_speed_limit-frame now taguuid u l in
      let iff = IsOverDeviceLimit-congr taguuid ip u l m same.0 same.1 same.2 in
      let device = check_device-rejects taguuid ip u m in
      (
        λ h. (
          ground (arith, check_known-flag now taguuid ip no_ss_udp u l),
          iff.0 (device.0 (ground (arith, check_known-flag now taguuid ip no_ss_udp u l))),
        ),
        λ h. ground (arith, check_known-flag now taguuid ip no_ss_udp u l, device.1 (iff.1 h.1)),
      )

  pub check_limit-unknown :
      (now : ℤ) (taguuid ip : String) (is_tcp no_ss_udp : Bool) (l : Limiter R B)
      → load taguuid l.user_limit_info ≡ none
      → check_limit new_bucket now taguuid ip is_tcp no_ss_udp l ≡ (l, none, true)
  unfolding check_limit
  check_limit-unknown now taguuid ip is_tcp no_ss_udp l e = rw (e, check_limit)

  pub check_limit-known :
      (now : ℤ) (taguuid ip : String) (is_tcp no_ss_udp : Bool) (u : UserLimitInfo)
      (l : Limiter R B)
      → load taguuid l.user_limit_info ≡ some u
      → check_limit new_bucket now taguuid ip is_tcp no_ss_udp l
        ≡ check_known new_bucket now taguuid (plain_ip ip) no_ss_udp u l
  unfolding check_limit
  check_limit-known now taguuid ip is_tcp no_ss_udp u l e = rw (e, check_limit)

  -- A connection is rejected exactly when the user is not known to the node, or when it counts as a
  -- device, comes from an address that is online neither now nor in the last period, and the user
  -- has a device limit that the number of devices alive has reached.
  pub check_limit-rejects :
      (now : ℤ) (taguuid ip : String) (is_tcp no_ss_udp : Bool) (l : Limiter R B)
      → ((check_limit new_bucket now taguuid ip is_tcp no_ss_udp l).2 ≡ true)
        ↔ MustReject taguuid ip no_ss_udp l
  check_limit-rejects now taguuid ip is_tcp no_ss_udp l = (
    λ h. elim (Option-cases (load taguuid l.user_limit_info)) [
      | inl e ↦ inl e
      | inr (u, e) ↦ inr (
        u,
        e,
        ((check_known-rejects now taguuid (plain_ip ip) no_ss_udp u l).0
            (rw (check_limit-known now taguuid ip is_tcp no_ss_udp u l e) at h)).0,
        ((check_known-rejects now taguuid (plain_ip ip) no_ss_udp u l).0
            (rw (check_limit-known now taguuid ip is_tcp no_ss_udp u l e) at h)).1,
      )
    ],
    λ d. elim d [
      | inl e ↦ rw (check_limit-unknown now taguuid ip is_tcp no_ss_udp l e)
      | inr (u, e, f, o) ↦
          rw (check_limit-known now taguuid ip is_tcp no_ss_udp u l e)
            ((check_known-rejects now taguuid (plain_ip ip) no_ss_udp u l).1 (f, o))
    ],
  )

  check_known-online :
      (now : ℤ) (taguuid ip : String) (no_ss_udp : Bool) (u : UserLimitInfo) (l : Limiter R B)
      → let m = (user_speed_limit now taguuid u l).1 in
        (check_known new_bucket now taguuid ip no_ss_udp u l).0.user_online_ip ≡ (
          if no_ss_udp
          then (check_device taguuid ip u.uid u.device_limit m).0.user_online_ip
          else l.user_online_ip)
  unfolding check_known
  check_known-online now taguuid ip no_ss_udp u l =
      let m = (user_speed_limit now taguuid u l).1 in
      let rate =
        bytes_per_second
          (determine_speed_limit l.speed_limit (user_speed_limit now taguuid u l).0) in
      ground (
        arith,
        user_speed_limit-frame now taguuid u l,
        speed_bucket-frame new_bucket taguuid rate m,
        speed_bucket-frame new_bucket taguuid rate
            (check_device taguuid ip u.uid u.device_limit m).0,
      )

  -- A rejected connection leaves no address online that was not, and takes none off.
  pub check_limit-rejected_keeps :
      (now : ℤ) (taguuid ip : String) (is_tcp no_ss_udp : Bool) (l : Limiter R B) (t i : String)
      → (check_limit new_bucket now taguuid ip is_tcp no_ss_udp l).2 ≡ true
      → online_at t i (check_limit new_bucket now taguuid ip is_tcp no_ss_udp l).0 ≡ online_at t i l
  check_limit-rejected_keeps now taguuid ip is_tcp no_ss_udp l t i h =
      elim (Option-cases (load taguuid l.user_limit_info)) [
        | inl e ↦ rw (check_limit-unknown now taguuid ip is_tcp no_ss_udp l e)
        | inr (u, e) ↦
            let known = check_limit-known now taguuid ip is_tcp no_ss_udp u l e in
            let m = (user_speed_limit now taguuid u l).1 in
            ground (
              arith,
              known,
              check_known-flag now taguuid (plain_ip ip) no_ss_udp u l,
              check_known-online now taguuid (plain_ip ip) no_ss_udp u l,
              user_speed_limit-frame now taguuid u l,
              check_device-keeps taguuid (plain_ip ip) u.uid u.device_limit m t i,
            )
      ]

  -- An admitted connection that counts as a device is online for its user.
  check_limit-admitted_online :
      (now : ℤ) (taguuid ip : String) (is_tcp : Bool) (l : Limiter R B)
      → (check_limit new_bucket now taguuid ip is_tcp true l).2 ≡ false
      → is_some
          (online_at taguuid (plain_ip ip) (check_limit new_bucket now taguuid ip is_tcp true l).0)
        ≡ true
  check_limit-admitted_online now taguuid ip is_tcp l h =
      elim (Option-cases (load taguuid l.user_limit_info)) [
        | inl e ↦ ground (arith, check_limit-unknown now taguuid ip is_tcp true l e)
        | inr (u, e) ↦
            let m = (user_speed_limit now taguuid u l).1 in
            ground (
              arith,
              check_limit-known now taguuid ip is_tcp true u l e,
              check_known-flag now taguuid (plain_ip ip) true u l,
              check_known-online now taguuid (plain_ip ip) true u l,
              check_device-admits taguuid (plain_ip ip) u.uid u.device_limit m,
            )
      ]

  -- No check changes which addresses are online for another user.
  check_limit-others :
      (now : ℤ) (taguuid ip : String) (is_tcp no_ss_udp : Bool) (l : Limiter R B) (t i : String)
      → taguuid ≢ t
      → online_at t i (check_limit new_bucket now taguuid ip is_tcp no_ss_udp l).0 ≡ online_at t i l
  check_limit-others now taguuid ip is_tcp no_ss_udp l t i d =
      elim (Option-cases (load taguuid l.user_limit_info)) [
        | inl e ↦ rw (check_limit-unknown now taguuid ip is_tcp no_ss_udp l e)
        | inr (u, e) ↦
            let m = (user_speed_limit now taguuid u l).1 in
            ground (
              arith,
              eq_iff taguuid t,
              check_limit-known now taguuid ip is_tcp no_ss_udp u l e,
              check_known-online now taguuid (plain_ip ip) no_ss_udp u l,
              user_speed_limit-frame now taguuid u l,
              check_device-others taguuid (plain_ip ip) u.uid u.device_limit m t i,
            )
      ]
