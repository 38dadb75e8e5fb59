-- ===== src/Limiter/Tests.antt =====
-- The limiter at concrete inputs: a node "n" with two users, where a bucket is its rate and an
-- expression matches the text that it is spelled like.
use ccaa.Base.{
  ℤ, pos, ltb_ℤ, true, false, ◌≡◌, ◌⊎◌, refl, String, string_eq, int_eq, [], ◌∷◌, none, some, load,
  store, if◌then◌else◌, beq_refl, wrap64,
}
use ccaa.Format.{user_tag}
use ccaa.Panel.User.{UserInfo}
use ccaa.Limiter.{Limiter, UserLimitInfo}
use ccaa.Limiter.Speed.{determine_speed_limit}
use ccaa.Limiter.Users.{user_limit_of, update_user}
use ccaa.Limiter.Users.Known.{
  update_user-known, update_user-IsConsistent, new_limiter-known, IsConsistent, fresh_limiter,
}
use ccaa.Limiter.Check.{
  check_limit, check_known, check_device, user_speed_limit, speed_bucket, bytes_per_second,
}
use ccaa.Limiter.Check.Device.{online_at}
use ccaa.Limiter.Check.Reject.{MustReject, check_limit-rejects, check_limit-rejected_keeps}
use ccaa.Limiter.Check.Bucket.{rate_of, bucket_for, check_limit-bucket, check_limit-expired_forgets}
use ccaa.Limiter.Online.{get_online_device}
use ccaa.Limiter.Online.Report.{reports, last_report, get_online_device_lem}
use ccaa.Limiter.History.{updates_dynamic, apply_all, apply_all-stale_bucket}

abbrev bucket : ℤ → ℤ → ℤ
bucket fill capacity = fill

-- A user with a device limit of one, and one with a limit for a while that runs out at 50.
abbrev limited : UserLimitInfo
limited = record {
  uid = pos 7;
  speed_limit = pos 8;
  device_limit = pos 1;
  dynamic_speed_limit = pos 0;
  expire_time = pos 0;
  over_limit = false;
}

abbrev expiring : UserLimitInfo
expiring = record {
  uid = pos 9;
  speed_limit = pos 0;
  device_limit = pos 0;
  dynamic_speed_limit = pos 2;
  expire_time = pos 50;
  over_limit = false;
}

abbrev node : Limiter String ℤ
node = record {
  domain_rules = [];
  protocol_rules = [];
  speed_limit = pos 0;
  user_online_ip = ("n|a", ("10.0.0.1", pos 7) ∷ []) ∷ [];
  old_user_online = [];
  uuid_to_uid = ("a", pos 7) ∷ ("b", pos 9) ∷ [];
  user_limit_info = ("n|a", limited) ∷ ("n|b", expiring) ∷ [];
  speed_limiter = [];
  alive_list = (pos 7, pos 1) ∷ [];
}

abbrev user_c : UserInfo
user_c = record { id = pos 11; uuid = "c"; speed_limit = pos 3; device_limit = pos 0 }

abbrev user_a : UserInfo
user_a = record { id = pos 7; uuid = "a"; speed_limit = pos 8; device_limit = pos 1 }

-- A second address of the first user is one device too many.
second_device_rejected :
    (check_limit bucket (pos 10) "n|a" "::ffff:10.0.0.2" true true node).2 ≡ true
unfolding check_limit check_known check_device user_speed_limit speed_bucket bytes_per_second load
    store
second_device_rejected = refl

-- The address that is online is admitted, with a bucket of 8 Mbit/s.
first_device_admitted :
    let (m, b, reject) = check_limit bucket (pos 10) "n|a" "10.0.0.1" true true node in
    (b ≡ some (pos 1_000_000)) × (reject ≡ false)
unfolding check_limit check_known check_device user_speed_limit speed_bucket bytes_per_second load
    store determine_speed_limit wrap64
first_device_admitted = (refl, refl)

known_a : load "n|a" node.user_limit_info ≡ some limited
unfolding load
known_a = refl

known_b : load "n|b" node.user_limit_info ≡ some expiring
unfolding load
known_b = refl

check_limit-rejects_example : MustReject "n|a" "::ffff:10.0.0.2" true node
check_limit-rejects_example =
    (check_limit-rejects bucket (pos 10) "n|a" "::ffff:10.0.0.2" true true node).0
      second_device_rejected

check_limit-rejected_keeps_example :
    online_at "n|a" "10.0.0.2"
      (check_limit bucket (pos 10) "n|a" "::ffff:10.0.0.2" true true node).0
    ≡ online_at "n|a" "10.0.0.2" node
check_limit-rejected_keeps_example =
    check_limit-rejected_keeps bucket (pos 10) "n|a" "::ffff:10.0.0.2" true true node "n|a"
      "10.0.0.2" second_device_rejected

second_user_admitted : (check_limit bucket (pos 10) "n|b" "10.0.0.9" true true node).2 ≡ false
unfolding check_limit check_known check_device user_speed_limit speed_bucket bytes_per_second load
    store determine_speed_limit wrap64
second_user_admitted = refl

check_limit-bucket_example :
    let (m, b, reject) = check_limit bucket (pos 10) "n|a" "10.0.0.1" true true node in
    let rate = rate_of (pos 10) "n|a" limited node in
    (b ≡ (if ltb_ℤ (pos 0) rate then some (bucket_for bucket "n|a" rate node) else none))
    × (load "n|a" m.speed_limiter
        ≡ (if ltb_ℤ (pos 0) rate then b else load "n|a" node.speed_limiter))
check_limit-bucket_example =
    check_limit-bucket bucket (pos 10) "n|a" "10.0.0.1" true true limited node known_a
      first_device_admitted.1

check_limit-expired_forgets_example :
    let m = (check_limit bucket (pos 60) "n|b" "10.0.0.9" true true node).0 in
    check_limit bucket (pos 61) "n|b" "10.0.0.9" true true m ≡ (m, none, true)
check_limit-expired_forgets_example =
    check_limit-expired_forgets bucket (pos 60) (pos 61) "n|b" "10.0.0.9" "10.0.0.9" true true true
      true expiring node known_b refl refl

abbrev shaped : Limiter String ℤ
shaped = record node { speed_limiter = (user_tag "n" "a", pos 1_000_000) ∷ [] }

apply_all-stale_bucket_example :
    let got =
      (check_limit bucket
        (pos 20)
        (user_tag "n" "a")
        "10.0.0.1"
        true
        true
        (apply_all bucket "n" (updates_dynamic "a" (pos 1) (pos 900) ∷ []) shaped)).1 in
    (got ≡ none) ⊎ (got ≡ some (pos 1_000_000))
unfolding load
apply_all-stale_bucket_example =
    apply_all-stale_bucket bucket "n" "a" (pos 1_000_000)
      (updates_dynamic "a" (pos 1) (pos 900) ∷ []) shaped (pos 20) "10.0.0.1" true true (refl, tt)
      (rw beq_refl)

update_user-known_example :
    load (user_tag "n" "c") (update_user "n" (user_c ∷ []) (user_a ∷ []) node).user_limit_info
    ≡ some (user_limit_of user_c)
update_user-known_example = update_user-known "n" "c" (user_c ∷ []) (user_a ∷ []) node

update_user-IsConsistent_example : IsConsistent "n" (
    update_user "n"
      (user_c ∷ [])
      (user_a ∷ [])
      (fresh_limiter String ℤ "n" (pos 0) (user_a ∷ []) []))
update_user-IsConsistent_example =
    update_user-IsConsistent "n" (user_c ∷ []) (user_a ∷ [])
      (fresh_limiter String ℤ "n" (pos 0) (user_a ∷ []) [])
      (new_limiter-known String ℤ "n" (pos 0) (user_a ∷ []) []).1

get_online_device_lem_example :
    let (m, out) = get_online_device node in
    (out ≡ reports node.user_online_ip)
    × (load "n|a" m.user_online_ip ≡ none)
    × (load "10.0.0.1" m.old_user_online ≡ last_report "10.0.0.1" out)
    × (m.user_limit_info ≡ node.user_limit_info)
get_online_device_lem_example = get_online_device_lem node "n|a" "10.0.0.1"

online_a : online_at "n|a" "10.0.0.1" node ≡ some (pos 7)
unfolding load
online_a = refl
