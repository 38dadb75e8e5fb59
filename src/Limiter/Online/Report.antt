-- ===== src/Limiter/Online/Report.antt =====
-- What GetOnlineDevice reports, and what the next period knows of it.
use ccaa.Base.{
  ℤ, Bool, true, false, ◌≡◌, inl, inr, refl, ap, ◌∙◌, sym, String, List, [], ◌∷◌, ◌++◌, Option,
  none, some, Assoc, load, store, delete, load-store, load-delete, string_eq, ◌==◌, arith,
  Option-cases, Bool-cases, if◌then◌else◌, is_some,
}
use mathlib.Core.List.{append_assoc, append-nil}
use ccaa.Panel.User.{OnlineUser}
use ccaa.Limiter.{Limiter, UserLimitInfo}
use ccaa.Limiter.Online.{report_ips, report_users, get_online_device}
use ccaa.Limiter.Check.{check_limit}
use ccaa.Limiter.Check.Device.{online_at}
use ccaa.Limiter.Check.Reject.{check_limit-rejects, plain_ip}

-- The reports of one user's addresses, and of a table of users.
abbrev pub reports_of : Assoc String ℤ → List OnlineUser
reports_of [] = []
reports_of ((ip, uid) ∷ ips) = record { uid = uid; ip = ip } ∷ reports_of ips

abbrev pub reports : Assoc String (Assoc String ℤ) → List OnlineUser
reports [] = []
reports ((taguuid, ips) ∷ m) = reports_of ips ++ reports m

-- The uid of the last report of an address.
abbrev pub last_report : String → List OnlineUser → Option ℤ
last_report ip [] = none
last_report ip (o ∷ os) = elim (last_report ip os) [
  | some v ↦ some v
  | none ↦ if o.ip == ip then some o.uid else none
]

abbrev or_else : Option ℤ → Option ℤ → Option ℤ
or_else (some v) old = some v
or_else none old = old

last_report-append :
    (ip : String) (xs ys : List OnlineUser)
    → last_report ip (xs ++ ys) ≡ or_else (last_report ip ys) (last_report ip xs)
last_report-append ip [] ys = ground arith
last_report-append ip (o ∷ xs) ys = ground (arith, last_report-append ip xs ys)

module _ {R B : Type 0} where
  -- The inner loop, for every address and the fields that it leaves alone.
  report_ips_lem :
      (i : String) (ips : Assoc String ℤ) (l : Limiter R B) (out : List OnlineUser)
      → let (m, out') = report_ips ips (l, out) in
        (out' ≡ out ++ reports_of ips)
        × (load i m.old_user_online
            ≡ or_else (last_report i (reports_of ips)) (load i l.old_user_online))
        × (m.user_online_ip ≡ l.user_online_ip)
        × (m.user_limit_info ≡ l.user_limit_info)
  unfolding report_ips
  report_ips_lem i [] l out = (sym (append-nil out), refl, refl, refl)
  report_ips_lem i ((ip, uid) ∷ ips) l out =
      let rest =
        report_ips_lem i ips (record l { old_user_online = store ip uid l.old_user_online })
          (out ++ (record { uid = uid; ip = ip } ∷ [])) in
      (
        rest.0 ∙ append_assoc out (record { uid = uid; ip = ip } ∷ []) (reports_of ips),
        ground (arith, rest.1, load-store ip i uid l.old_user_online),
        rest.2,
        rest.3,
      )

  -- The outer loop.
  report_users_lem :
      (i t : String) (us : Assoc String (Assoc String ℤ)) (l : Limiter R B) (out : List OnlineUser)
      → let (m, out') = report_users us (l, out) in
        (out' ≡ out ++ reports us)
        × (load i m.old_user_online
            ≡ or_else (last_report i (reports us)) (load i l.old_user_online))
        × (load t m.user_online_ip
            ≡ (if is_some (load t us) then none else load t l.user_online_ip))
        × (m.user_limit_info ≡ l.user_limit_info)
  unfolding report_users load
  report_users_lem i t [] l out = (sym (append-nil out), refl, refl, refl)
  report_users_lem i t ((taguuid, ips) ∷ us) l out =
      let first = report_ips_lem i ips l out in
      let (m, out') = report_ips ips (l, out) in
      let rest =
        report_users_lem i t us (record m { user_online_ip = delete taguuid m.user_online_ip })
          out' in
      (
        rest.0 ∙ ap (λ o. o ++ reports us) first.0 ∙ append_assoc out (reports_of ips) (reports us),
        ground (arith, first.1, rest.1, last_report-append i (reports_of ips) (reports us)),
        ground (arith, rest.2, first.2, load-delete taguuid t m.user_online_ip),
        rest.3 ∙ first.3,
      )

  -- The report lists every online address of every user, in the order of the tables. Afterwards
  -- nobody is online, and the record of the last period has for an address the uid of its last
  -- report and nothing for other addresses.
  pub get_online_device_lem :
      (l : Limiter R B) (t i : String)
      → let (m, out) = get_online_device l in
        (out ≡ reports l.user_online_ip)
        × (load t m.user_online_ip ≡ none)
        × (load i m.old_user_online ≡ last_report i out)
        × (m.user_limit_info ≡ l.user_limit_info)
  unfolding get_online_device load
  get_online_device_lem l t i =
      let all = report_users_lem i t l.user_online_ip (record l { old_user_online = [] }) [] in
      (all.0, ground (arith, all.2), ground (arith, all.0, all.1), all.3)

-- An address that is in a user's table is among the reports.
reports_of-is_some :
    (ip : String) (ips : Assoc String ℤ) {v : ℤ}
    → load ip ips ≡ some v
    → is_some (last_report ip (reports_of ips)) ≡ true
unfolding load
reports_of-is_some ip [] h = cc
reports_of-is_some ip ((j, w) ∷ ips) {v} h = ground (arith, reports_of-is_some ip ips {v = v})

reports-is_some :
    (t ip : String) (us : Assoc String (Assoc String ℤ)) (ips : Assoc String ℤ) {v : ℤ}
    → load t us ≡ some ips
    → load ip ips ≡ some v
    → is_some (last_report ip (reports us)) ≡ true
unfolding load
reports-is_some t ip [] ips h k = cc
reports-is_some t ip ((s, js) ∷ us) ips {v} h k = ground (
  arith,
  last_report-append ip (reports_of js) (reports us),
  reports_of-is_some ip js {v = v},
  reports-is_some t ip us ips {v = v},
)

is_reported :
    {R B : Type 0} (t ip : String) (l : Limiter R B) {v : ℤ}
    → online_at t ip l ≡ some v
    → is_some (last_report ip (reports l.user_online_ip)) ≡ true
is_reported t ip l {v} h = elim (Option-cases (load t l.user_online_ip)) [
  | inl e ↦ ground arith
  | inr (ips, e) ↦ reports-is_some t ip l.user_online_ip ips {v = v} e (ground arith)
]

module _ {R B : Type 0} (new_bucket : ℤ → ℤ → B) where
  -- A known user who was online from an address when the node reported is admitted from it in the
  -- next period, whatever the device limit is and however many devices are alive.
  check_limit_returning :
      (now : ℤ) (taguuid ip : String) (is_tcp no_ss_udp : Bool) (u : UserLimitInfo) (v : ℤ)
      (l : Limiter R B)
      → load taguuid l.user_limit_info ≡ some u
      → online_at taguuid (plain_ip ip) l ≡ some v
      → (check_limit new_bucket now taguuid ip is_tcp no_ss_udp (get_online_device l).0).2 ≡ false
  check_limit_returning now taguuid ip is_tcp no_ss_udp u v l known online =
      let m = (get_online_device l).0 in
      let facts = get_online_device_lem l taguuid (plain_ip ip) in
      elim (Bool-cases (check_limit new_bucket now taguuid ip is_tcp no_ss_udp m).2) [
        | inr admitted ↦ admitted
        | inl rejected ↦
            elim ((check_limit-rejects new_bucket now taguuid ip is_tcp no_ss_udp m).0 rejected) [
              | inl unknown ↦ ground (arith, facts.3)
              | inr (w, e, f, over) ↦
                  let seen = is_reported taguuid (plain_ip ip) l online in
                  ground (arith, facts.0, facts.2, over.not_before, seen)
            ]
      ]

module _ {R B : Type 0} where
  report_ips-buckets :
      (ips : Assoc String ℤ) (l : Limiter R B) (out : List OnlineUser)
      → (report_ips ips (l, out)).0.speed_limiter ≡ l.speed_limiter
  unfolding report_ips
  report_ips-buckets [] l out = refl
  report_ips-buckets ((ip, uid) ∷ ips) l out = report_ips-buckets ips _ _

  report_users-buckets :
      (us : Assoc String (Assoc String ℤ)) (l : Limiter R B) (out : List OnlineUser)
      → (report_users us (l, out)).0.speed_limiter ≡ l.speed_limiter
  unfolding report_users
  report_users-buckets [] l out = refl
  report_users-buckets ((t, ips) ∷ us) l out =
      report_users-buckets us _ _ ∙ report_ips-buckets ips l out

  -- GetOnlineDevice leaves the rate buckets alone.
  pub get_online_device-buckets :
      (l : Limiter R B) → (get_online_device l).0.speed_limiter ≡ l.speed_limiter
  unfolding get_online_device
  get_online_device-buckets l = report_users-buckets l.user_online_ip _ []
