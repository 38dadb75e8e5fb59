-- ===== src/Limiter/Check/Bucket.antt =====
-- The rate bucket that CheckLimit hands out, and what it forgets when a limit runs out.
use ccaa.Base.{
  ℤ, pos, ltb_ℤ, Bool, true, false, ◌≡◌, ◌⊎◌, inl, inr, refl, String, none, some, load, load-store,
  load-delete, beq_refl, string_eq, int_eq, arith, Option-cases, if◌then◌else◌,
}
use text.Mathlib.TextEquality.{eq_iff}
use ccaa.Limiter.{Limiter, UserLimitInfo}
use ccaa.Limiter.Speed.{determine_speed_limit}
use ccaa.Limiter.Check.{
  check_limit, check_known, check_device, user_speed_limit, speed_bucket, bytes_per_second,
  has_expired,
}
use ccaa.Limiter.Check.Reject.{check_limit-unknown, check_limit-known, plain_ip}

-- The rate for a user's next connection, in bytes a second.
abbrev pub rate_of : {R B : Type 0} → ℤ → String → UserLimitInfo → Limiter R B → ℤ
rate_of now taguuid u l =
    bytes_per_second (determine_speed_limit l.speed_limit (user_speed_limit now taguuid u l).0)

check_device-buckets :
    {R B : Type 0} (taguuid ip : String) (uid limit : ℤ) (l : Limiter R B)
    → (check_device taguuid ip uid limit l).0.speed_limiter ≡ l.speed_limiter
unfolding check_device
check_device-buckets taguuid ip uid limit l = ground arith

user_speed_limit-buckets :
    {R B : Type 0} (now : ℤ) (taguuid : String) (u : UserLimitInfo) (l : Limiter R B)
    → (user_speed_limit now taguuid u l).1.speed_limiter ≡ l.speed_limiter
unfolding user_speed_limit
user_speed_limit-buckets now taguuid u l = ground arith

pub check_device-users :
    {R B : Type 0} (taguuid ip : String) (uid limit : ℤ) (l : Limiter R B)
    → (check_device taguuid ip uid limit l).0.user_limit_info ≡ l.user_limit_info
unfolding check_device
check_device-users taguuid ip uid limit l = ground arith

pub speed_bucket-users :
    {R B : Type 0} (new_bucket : ℤ → ℤ → B) (taguuid : String) (rate : ℤ) (l : Limiter R B)
    → (speed_bucket new_bucket taguuid rate l).0.user_limit_info ≡ l.user_limit_info
unfolding speed_bucket
speed_bucket-users new_bucket taguuid rate l = ground arith

user_speed_limit-forgets :
    {R B : Type 0} (now : ℤ) (taguuid : String) (u : UserLimitInfo) (l : Limiter R B)
    → has_expired now u ≡ true
    → u.speed_limit ≡ pos 0
    → load taguuid (user_speed_limit now taguuid u l).1.user_limit_info ≡ none
unfolding user_speed_limit
user_speed_limit-forgets now taguuid u l x z =
    ground (arith, beq_refl taguuid, load-delete taguuid taguuid l.user_limit_info)

module _ {R B : Type 0} (new_bucket : ℤ → ℤ → B) where
  -- The bucket that is handed out at a rate: the stored one if there is one, else a new one.
  abbrev pub bucket_for : String → ℤ → Limiter R B → B
  bucket_for taguuid rate l = elim (load taguuid l.speed_limiter) [
    | none ↦ new_bucket rate rate
    | some b ↦ b
  ]

  -- The last step, in one equation: the stored bucket stays, and a positive rate stores one.
  speed_bucket_lem :
      (taguuid : String) (rate : ℤ) (l : Limiter R B)
      → let (m, b) = speed_bucket new_bucket taguuid rate l in
        (b ≡ (if ltb_ℤ (pos 0) rate then some (bucket_for taguuid rate l) else none))
        × (load taguuid m.speed_limiter
            ≡ (if ltb_ℤ (pos 0) rate then b else load taguuid l.speed_limiter))
  unfolding speed_bucket
  speed_bucket_lem taguuid rate l = (
    ground arith,
    ground (
      arith,
      beq_refl taguuid,
      load-store taguuid taguuid (new_bucket rate rate) l.speed_limiter,
    ),
  )

  speed_bucket-sticky :
      (t taguuid : String) (rate : ℤ) (l : Limiter R B) (b : B)
      → load t l.speed_limiter ≡ some b
      → load t (speed_bucket new_bucket taguuid rate l).0.speed_limiter ≡ some b
  unfolding speed_bucket
  speed_bucket-sticky t taguuid rate l b e =
      ground (arith, eq_iff taguuid t, load-store taguuid t (new_bucket rate rate) l.speed_limiter)

  check_known-bucket :
      (now : ℤ) (taguuid ip : String) (no_ss_udp : Bool) (u : UserLimitInfo) (l : Limiter R B)
      → (check_known new_bucket now taguuid ip no_ss_udp u l).2 ≡ false
      → let (m, b, reject) = check_known new_bucket now taguuid ip no_ss_udp u l in
        let rate = rate_of now taguuid u l in
        (b ≡ (if ltb_ℤ (pos 0) rate then some (bucket_for taguuid rate l) else none))
        × (load taguuid m.speed_limiter
            ≡ (if ltb_ℤ (pos 0) rate then b else load taguuid l.speed_limiter))
  unfolding check_known
  check_known-bucket now taguuid ip no_ss_udp u l h =
      let m = (user_speed_limit now taguuid u l).1 in
      let rate = rate_of now taguuid u l in
      let d = (check_device taguuid ip u.uid u.device_limit m).0 in
      let same = user_speed_limit-buckets now taguuid u l in
      let kept = check_device-buckets taguuid ip u.uid u.device_limit m in
      (
        ground
            (arith, speed_bucket_lem taguuid rate m, speed_bucket_lem taguuid rate d, same, kept),
        ground
            (arith, speed_bucket_lem taguuid rate m, speed_bucket_lem taguuid rate d, same, kept),
      )

  -- An admitted connection of a known user has no bucket unless the rate is positive. Then its
  -- bucket is the one stored for the user, or if there is none a new one at the rate; that bucket is
  -- stored afterwards, and without a positive rate the stored bucket stays.
  pub check_limit-bucket :
      (now : ℤ) (taguuid ip : String) (is_tcp no_ss_udp : Bool) (u : UserLimitInfo)
      (l : Limiter R B)
      → load taguuid l.user_limit_info ≡ some u
      → (check_limit new_bucket now taguuid ip is_tcp no_ss_udp l).2 ≡ false
      → let (m, b, reject) = check_limit new_bucket now taguuid ip is_tcp no_ss_udp l in
        let rate = rate_of now taguuid u l in
        (b ≡ (if ltb_ℤ (pos 0) rate then some (bucket_for taguuid rate l) else none))
        × (load taguuid m.speed_limiter
            ≡ (if ltb_ℤ (pos 0) rate then b else load taguuid l.speed_limiter))
  check_limit-bucket now taguuid ip is_tcp no_ss_udp u l e h =
      let known = check_limit-known new_bucket now taguuid ip is_tcp no_ss_udp u l e in
      rw known (check_known-bucket now taguuid (plain_ip ip) no_ss_udp u l (rw known at h))

  check_known-sticky :
      (now : ℤ) (t taguuid ip : String) (no_ss_udp : Bool) (u : UserLimitInfo) (l : Limiter R B)
      (b : B)
      → load t l.speed_limiter ≡ some b
      → load t (check_known new_bucket now taguuid ip no_ss_udp u l).0.speed_limiter ≡ some b
  unfolding check_known
  check_known-sticky now t taguuid ip no_ss_udp u l b e =
      let m = (user_speed_limit now taguuid u l).1 in
      let rate = rate_of now taguuid u l in
      let d = (check_device taguuid ip u.uid u.device_limit m).0 in
      let same = user_speed_limit-buckets now taguuid u l in
      let kept = check_device-buckets taguuid ip u.uid u.device_limit m in
      ground (
        arith,
        same,
        kept,
        speed_bucket-sticky t taguuid rate m b,
        speed_bucket-sticky t taguuid rate d b,
      )

  -- What bucket has been stored for a user, no later check replaces, whatever the limits are.
  pub check_limit-sticky :
      (now : ℤ) (t taguuid ip : String) (is_tcp no_ss_udp : Bool) (l : Limiter R B) (b : B)
      → load t l.speed_limiter ≡ some b
      → load t (check_limit new_bucket now taguuid ip is_tcp no_ss_udp l).0.speed_limiter ≡ some b
  check_limit-sticky now t taguuid ip is_tcp no_ss_udp l b e =
      elim (Option-cases (load taguuid l.user_limit_info)) [
        | inl p ↦ rw (check_limit-unknown new_bucket now taguuid ip is_tcp no_ss_udp l p) e
        | inr (u, p) ↦
            rw (check_limit-known new_bucket now taguuid ip is_tcp no_ss_udp u l p)
              (check_known-sticky now t taguuid (plain_ip ip) no_ss_udp u l b e)
      ]

  check_known-forgets :
      (now : ℤ) (taguuid ip : String) (no_ss_udp : Bool) (u : UserLimitInfo) (l : Limiter R B)
      → has_expired now u ≡ true
      → u.speed_limit ≡ pos 0
      → load taguuid (check_known new_bucket now taguuid ip no_ss_udp u l).0.user_limit_info ≡ none
  unfolding check_known
  check_known-forgets now taguuid ip no_ss_udp u l x z =
      let m = (user_speed_limit now taguuid u l).1 in
      let rate = rate_of now taguuid u l in
      let d = (check_device taguuid ip u.uid u.device_limit m).0 in
      ground (
        arith,
        user_speed_limit-forgets now taguuid u l x z,
        check_device-users taguuid ip u.uid u.device_limit m,
        speed_bucket-users new_bucket taguuid rate m,
        speed_bucket-users new_bucket taguuid rate d,
      )

  -- A user whose limit for a while has run out, and who has no limit of their own, is forgotten by
  -- the check that notices it: a check of the limiter that it leaves, at any time, turns the user
  -- away and changes nothing.
  pub check_limit-expired_forgets :
      (now later : ℤ) (taguuid ip ip' : String) (is_tcp is_tcp' no_ss_udp no_ss_udp' : Bool)
      (u : UserLimitInfo) (l : Limiter R B)
      → load taguuid l.user_limit_info ≡ some u
      → has_expired now u ≡ true
      → u.speed_limit ≡ pos 0
      → let m = (check_limit new_bucket now taguuid ip is_tcp no_ss_udp l).0 in
        check_limit new_bucket later taguuid ip' is_tcp' no_ss_udp' m ≡ (m, none, true)
  check_limit-expired_forgets now later taguuid ip ip' is_tcp is_tcp' no_ss_udp no_ss_udp' u l e x
        z =
      check_limit-unknown new_bucket later taguuid ip' is_tcp' no_ss_udp' _ (
        rw (check_limit-known new_bucket now taguuid ip is_tcp no_ss_udp u l e)
          (check_known-forgets now taguuid (plain_ip ip) no_ss_udp u l x z))

  speed_bucket-reuses :
      (taguuid : String) (rate : ℤ) (l : Limiter R B) (b : B)
      → load taguuid l.speed_limiter ≡ some b
      → let got = (speed_bucket new_bucket taguuid rate l).1 in (got ≡ none) ⊎ (got ≡ some b)
  unfolding speed_bucket
  speed_bucket-reuses taguuid rate l b e = ground arith

  check_known-reuses :
      (now : ℤ) (taguuid ip : String) (no_ss_udp : Bool) (u : UserLimitInfo) (l : Limiter R B)
      (b : B)
      → load taguuid l.speed_limiter ≡ some b
      → let got = (check_known new_bucket now taguuid ip no_ss_udp u l).1 in
        (got ≡ none) ⊎ (got ≡ some b)
  unfolding check_known
  check_known-reuses now taguuid ip no_ss_udp u l b e =
      let m = (user_speed_limit now taguuid u l).1 in
      let rate = rate_of now taguuid u l in
      let d = (check_device taguuid ip u.uid u.device_limit m).0 in
      let same = user_speed_limit-buckets now taguuid u l in
      let kept = check_device-buckets taguuid ip u.uid u.device_limit m in
      ground (
        arith,
        same,
        kept,
        speed_bucket-reuses taguuid rate m b,
        speed_bucket-reuses taguuid rate d b,
      )

  -- A check hands out the stored bucket or none.
  pub check_limit-reuses :
      (now : ℤ) (taguuid ip : String) (is_tcp no_ss_udp : Bool) (l : Limiter R B) (b : B)
      → load taguuid l.speed_limiter ≡ some b
      → let got = (check_limit new_bucket now taguuid ip is_tcp no_ss_udp l).1 in
        (got ≡ none) ⊎ (got ≡ some b)
  check_limit-reuses now taguuid ip is_tcp no_ss_udp l b e =
      elim (Option-cases (load taguuid l.user_limit_info)) [
        | inl p ↦ rw (check_limit-unknown new_bucket now taguuid ip is_tcp no_ss_udp l p) (inl refl)
        | inr (u, p) ↦
            rw (check_limit-known new_bucket now taguuid ip is_tcp no_ss_udp u l p)
              (check_known-reuses now taguuid (plain_ip ip) no_ss_udp u l b e)
      ]
