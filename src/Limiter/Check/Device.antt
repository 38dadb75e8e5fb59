-- ===== src/Limiter/Check/Device.antt =====
-- The steps of CheckLimit: what the device check decides, and what each step leaves alone.
use ccaa.Base.{
  ℤ, pos, ◌≤ℤ◌, ◌<ℤ◌, true, false, ◌≡◌, inl, inr, ◌↔◌, String, [], Option, none, some, load, store,
  delete, load-store, load-delete, beq_refl, ◌==◌, string_eq, int_eq, is_some, arith, Option-cases,
}
use text.Mathlib.TextEquality.{eq_iff}
use ccaa.Limiter.{Limiter, UserLimitInfo}
use ccaa.Limiter.Check.{check_device, user_speed_limit, speed_bucket, or_zero}

-- Who an address is online for: the entry of `ip` in the map of `taguuid`.
abbrev pub online_at : {R B : Type 0} → String → String → Limiter R B → Option ℤ
online_at taguuid ip l = elim (load taguuid l.user_online_ip) [
  | none ↦ none
  | some ips ↦ load ip ips
]

-- A new address of a user whose device limit the panel's count has reached.
pub record IsOverDeviceLimit {R B : Type 0} (taguuid ip : String) (u : UserLimitInfo)
    (l : Limiter R B) : Type 0 where
  pub not_online : online_at taguuid ip l ≡ none
  pub not_before : load ip l.old_user_online ≡ none
  pub limited : pos 0 <ℤ u.device_limit
  pub reached : u.device_limit ≤ℤ or_zero (load u.uid l.alive_list)

pub check_device-rejects :
    {R B : Type 0} (taguuid ip : String) (u : UserLimitInfo) (l : Limiter R B)
    → ((check_device taguuid ip u.uid u.device_limit l).1 ≡ true) ↔ IsOverDeviceLimit taguuid ip u l
unfolding check_device
check_device-rejects taguuid ip u l = (λ h. ground arith, λ h. ground arith)

-- The user's record is all that the speed step changes.
pub user_speed_limit-frame :
    {R B : Type 0} (now : ℤ) (taguuid : String) (u : UserLimitInfo) (l : Limiter R B)
    → let m = (user_speed_limit now taguuid u l).1 in
      (m.user_online_ip ≡ l.user_online_ip)
      × (m.old_user_online ≡ l.old_user_online)
      × (m.alive_list ≡ l.alive_list)
      × (m.speed_limiter ≡ l.speed_limiter)
unfolding user_speed_limit
user_speed_limit-frame now taguuid u l = (ground arith, ground arith, ground arith, ground arith)

pub speed_bucket-frame :
    {R B : Type 0} (new_bucket : ℤ → ℤ → B) (taguuid : String) (limit : ℤ) (l : Limiter R B)
    → (speed_bucket new_bucket taguuid limit l).0.user_online_ip ≡ l.user_online_ip
unfolding speed_bucket
speed_bucket-frame new_bucket taguuid limit l = ground arith

-- When the device step rejects, every address is online or not as before.
pub check_device-keeps :
    {R B : Type 0} (taguuid ip : String) (uid limit : ℤ) (l : Limiter R B) (t i : String)
    → (check_device taguuid ip uid limit l).1 ≡ true
    → online_at t i (check_device taguuid ip uid limit l).0 ≡ online_at t i l
unfolding check_device
check_device-keeps taguuid ip uid limit l t i h =
    elim (Option-cases (load taguuid l.user_online_ip)) [
      | inl e ↦ ground (
        arith,
        e,
        load-store taguuid t (store ip uid []) l.user_online_ip,
        load-delete taguuid t (store taguuid (store ip uid []) l.user_online_ip),
        eq_iff taguuid t,
      )
      | inr (ips, e) ↦ ground (
        arith,
        e,
        load-store taguuid t (delete ip (store ip uid ips)) l.user_online_ip,
        load-delete ip i (store ip uid ips),
        load-store ip i uid ips,
        eq_iff taguuid t,
        eq_iff ip i,
      )
    ]

-- When it admits, the address is online for the user.
pub check_device-admits :
    {R B : Type 0} (taguuid ip : String) (uid limit : ℤ) (l : Limiter R B)
    → (check_device taguuid ip uid limit l).1 ≡ false
    → is_some (online_at taguuid ip (check_device taguuid ip uid limit l).0) ≡ true
unfolding check_device
check_device-admits taguuid ip uid limit l h = elim (Option-cases (load taguuid l.user_online_ip)) [
  | inl e ↦ ground (
    arith,
    e,
    beq_refl taguuid,
    beq_refl ip,
    load-store taguuid taguuid (store ip uid []) l.user_online_ip,
    load-store ip ip uid ([]),
  )
  | inr (ips, e) ↦ ground (
    arith,
    e,
    beq_refl taguuid,
    beq_refl ip,
    load-store taguuid taguuid (store ip uid ips) l.user_online_ip,
    load-store ip ip uid ips,
  )
]

-- Another user's addresses are not touched.
pub check_device-others :
    {R B : Type 0} (taguuid ip : String) (uid limit : ℤ) (l : Limiter R B) (t i : String)
    → (taguuid == t) ≡ false
    → online_at t i (check_device taguuid ip uid limit l).0 ≡ online_at t i l
unfolding check_device
check_device-others taguuid ip uid limit l t i h =
    elim (Option-cases (load taguuid l.user_online_ip)) [
      | inl e ↦ ground (
        arith,
        e,
        load-store taguuid t (store ip uid []) l.user_online_ip,
        load-delete taguuid t (store taguuid (store ip uid []) l.user_online_ip),
      )
      | inr (ips, e) ↦ ground (
        arith,
        e,
        load-store taguuid t (store ip uid ips) l.user_online_ip,
        load-store taguuid t (delete ip (store ip uid ips)) l.user_online_ip,
      )
    ]
