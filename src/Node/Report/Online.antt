-- ===== src/Node/Report/Online.antt =====
-- Which addresses reportUserTrafficTask tells the panel.
use ccaa.Base.{
  ℤ, ◌+ℤ◌, ltb_ℤ, wrap64, scale, ◌≡◌, refl, sym, String, int_eq, Bool, false, ◌||◌, List, [], ◌∷◌,
  ◌++◌, Option, none, some, Assoc, load, store, load-store, ◌==◌, if◌then◌else◌, is_some, arith,
  inl, inr, int_beq_iff, ◌&&◌, ◌⊎◌,
}
use mathlib.Core.List.{append_assoc, append-nil}
use ccaa.Panel.User.{OnlineUser, UserTraffic}
use ccaa.Counter.{add64}
use ccaa.Limiter.{Limiter}
use ccaa.Limiter.Online.{get_online_device}
use ccaa.Node.Report.{
  or_empty, is_low, low_traffic, keep_counted, group_ips, sent_online, report_user_traffic_task,
}

-- Up and down together, in 64 bits, it is less traffic than the bound in thousands of bytes.
abbrev pub is_little : ℤ → UserTraffic → Bool
is_little min_kb t = ltb_ℤ (wrap64 (t.upload +ℤ t.download)) (wrap64 (scale 1_000 min_kb))

is_low-little : (min_kb : ℤ) (t : UserTraffic) → is_low min_kb t ≡ is_little min_kb t
unfolding add64
is_low-little min_kb t = refl

-- Some entry of the user has so little traffic.
abbrev pub has_low : ℤ → ℤ → List UserTraffic → Bool
has_low min_kb v [] = false
has_low min_kb v (t ∷ ts) = (is_little min_kb t && t.uid == v) || has_low min_kb v ts

abbrev pub ips_of : ℤ → List OnlineUser → List String
ips_of v [] = []
ips_of v (o ∷ os) = let rest = ips_of v os in if o.uid == v then o.ip ∷ rest else rest

-- The addresses of a user in a request.
abbrev pub told : ℤ → Option (Assoc ℤ (List String)) → List String
told v none = []
told v (some by_uid) = or_empty (load v by_uid)

low_traffic-has :
    (min_kb v : ℤ) (ts : List UserTraffic) (nocount : Assoc ℤ (Unit {0}))
    → is_some (load v (low_traffic min_kb ts nocount))
      ≡ (has_low min_kb v ts || is_some (load v nocount))
unfolding low_traffic
low_traffic-has min_kb v [] nocount = refl
low_traffic-has min_kb v (t ∷ ts) nocount = ground (
  arith,
  is_low-little min_kb t,
  low_traffic-has min_kb v ts nocount,
  low_traffic-has min_kb v ts (store t.uid tt nocount),
  load-store t.uid v tt nocount,
)

ips_of-keep_counted :
    (v : ℤ) (nocount : Assoc ℤ (Unit {0})) (os : List OnlineUser)
    → ips_of v (keep_counted nocount os) ≡ (if is_some (load v nocount) then [] else ips_of v os)
unfolding keep_counted
ips_of-keep_counted v nocount [] = ground arith
ips_of-keep_counted v nocount (o ∷ os) =
    ground (arith, ips_of-keep_counted v nocount os, int_beq_iff o.uid v)

group_ips-told :
    (v : ℤ) (os : List OnlineUser) (by_uid : Assoc ℤ (List String))
    → or_empty (load v (group_ips os by_uid)) ≡ or_empty (load v by_uid) ++ ips_of v os
unfolding group_ips
group_ips-told v [] by_uid = sym (append-nil (or_empty (load v by_uid)))
group_ips-told v (o ∷ os) by_uid =
    let entry = or_empty (load o.uid by_uid) ++ (o.ip ∷ []) in
    ground (
      arith,
      group_ips-told v os (store o.uid entry by_uid),
      load-store o.uid v entry by_uid,
      append_assoc (or_empty (load o.uid by_uid)) (o.ip ∷ []) (ips_of v os),
      int_beq_iff o.uid v,
    )

sent_online-told :
    (min_kb v : ℤ) (ts : List UserTraffic) (os : List OnlineUser)
    → told v (sent_online min_kb ts os) ≡ (if has_low min_kb v ts then [] else ips_of v os)
unfolding load
sent_online-told min_kb v ts [] = ground arith
sent_online-told min_kb v ts (o ∷ os) =
    let low = low_traffic min_kb ts [] in
    ground (
      arith,
      group_ips-told v (keep_counted low (o ∷ os)) [],
      ips_of-keep_counted v low (o ∷ os),
      low_traffic-has min_kb v ts [],
    )

-- The task tells the panel all traffic, if there is any, and of each user exactly the addresses that
-- were online, in the limiter's order, but none of a user of whom some traffic entry is below the
-- bound: upload and download together, in 64 bits, less than 1000 times DeviceOnlineMinTraffic. Of a
-- user without a traffic entry all addresses are told, whatever the bound. Afterwards the limiter has reported its devices.
pub report_user_traffic_task_lem :
    {R B : Type 0} (min_kb v : ℤ) (ts : List UserTraffic) (l : Limiter R B)
    → let (m, sent) = report_user_traffic_task min_kb ts l in
      (m ≡ (get_online_device l).0)
      × (told v sent.online_users
          ≡ (if has_low min_kb v ts then [] else ips_of v (get_online_device l).1))
      × ((sent.user_traffic ≡ some ts) ⊎ ((ts ≡ []) × (sent.user_traffic ≡ none)))
unfolding report_user_traffic_task
report_user_traffic_task_lem min_kb v [] l =
    (refl, sent_online-told min_kb v [] (get_online_device l).1, inr (refl, refl))
report_user_traffic_task_lem min_kb v (t ∷ ts) l =
    (refl, sent_online-told min_kb v (t ∷ ts) (get_online_device l).1, inl refl)
