-- ===== src/Limiter/History.antt =====
-- A limiter under any sequence of the calls that the node and its cores make of it.
use ccaa.Base.{
  ℤ, Bool, false, ◌≡◌, ◌⊎◌, String, string_eq, List, [], ◌∷◌, Option, none, some, load, arith,
}
use ccaa.Format.{user_tag}
use ccaa.Panel.User.{UserInfo}
use ccaa.Limiter.{Limiter}
use ccaa.Limiter.Speed.{add_dynamic_speed_limit}
use ccaa.Limiter.Users.{update_user, update_dynamic_speed_limit}
use ccaa.Limiter.Users.Known.{mentions, update_user-resets}
use ccaa.Limiter.Check.{check_limit}
use ccaa.Limiter.Check.Bucket.{check_limit-sticky, check_limit-reuses}
use ccaa.Limiter.Online.{get_online_device}
use ccaa.Limiter.Online.Report.{get_online_device-buckets}

-- The calls on the limiter of one node. Each check has its time, key, address and two flags.
pub data Call : Type 0 where
  checks : ℤ → String → String → Bool → Bool → Call
  updates_users : List UserInfo → List UserInfo → Call
  updates_dynamic : String → ℤ → ℤ → Call
  adds_dynamic : ℤ → UserInfo → ℤ → ℤ → Call
  reports_online : Call

abbrev pub or_same : {A : Type 0} → Option A → A → A
or_same none a = a
or_same (some b) a = b

module _ {R B : Type 0} (new_bucket : ℤ → ℤ → B) (tag : String) where
  unfoldable pub apply : Call → Limiter R B → Limiter R B
  apply (checks now taguuid ip is_tcp no_ss_udp) l =
      (check_limit new_bucket now taguuid ip is_tcp no_ss_udp l).0
  apply (updates_users added deleted) l = update_user tag added deleted l
  apply (updates_dynamic uuid limit expire) l =
      or_same (update_dynamic_speed_limit tag uuid limit expire l) l
  apply (adds_dynamic now u limit expire) l = add_dynamic_speed_limit now tag u limit expire l
  apply reports_online l = (get_online_device l).0

  unfoldable pub apply_all : List Call → Limiter R B → Limiter R B
  apply_all [] l = l
  apply_all (c ∷ cs) l = apply_all cs (apply c l)

-- No call of the history deletes the user.
abbrev pub deletes : String → Call → Bool
deletes v (updates_users added deleted) = mentions v deleted
deletes v _ = false

abbrev pub NeverDeleted : String → List Call → Type 0
NeverDeleted v [] = Unit
NeverDeleted v (c ∷ cs) = (deletes v c ≡ false) × NeverDeleted v cs

module _ {R B : Type 0} (new_bucket : ℤ → ℤ → B) (tag v : String) (b : B) where
  apply-keeps_bucket :
      (c : Call) (l : Limiter R B)
      → deletes v c ≡ false
      → load (user_tag tag v) l.speed_limiter ≡ some b
      → load (user_tag tag v) (apply new_bucket tag c l).speed_limiter ≡ some b
  unfolding apply
  apply-keeps_bucket (checks now taguuid ip is_tcp no_ss_udp) l d e =
      check_limit-sticky new_bucket now (user_tag tag v) taguuid ip is_tcp no_ss_udp l b e
  apply-keeps_bucket (updates_users added deleted) l d e =
      ground (arith, update_user-resets tag v added deleted l)
  apply-keeps_bucket (updates_dynamic uuid limit expire) l d e =
      unfold update_dynamic_speed_limit in ground arith
  apply-keeps_bucket (adds_dynamic now u limit expire) l d e = unfold add_dynamic_speed_limit in e
  apply-keeps_bucket reports_online l d e = ground (arith, get_online_device-buckets l)

  apply_all-keeps_bucket :
      (cs : List Call) (l : Limiter R B)
      → NeverDeleted v cs
      → load (user_tag tag v) l.speed_limiter ≡ some b
      → load (user_tag tag v) (apply_all new_bucket tag cs l).speed_limiter ≡ some b
  unfolding apply_all
  apply_all-keeps_bucket [] l n e = e
  apply_all-keeps_bucket (c ∷ cs) l n e =
      apply_all-keeps_bucket cs (apply new_bucket tag c l) n.1 (apply-keeps_bucket c l n.0 e)

  -- Once a rate bucket is stored for a user, every later connection of theirs that is admitted gets
  -- that bucket or none, whatever limits are set in between, as long as the user is not deleted.
  pub apply_all-stale_bucket :
      (cs : List Call) (l : Limiter R B) (now : ℤ) (ip : String) (is_tcp no_ss_udp : Bool)
      → NeverDeleted v cs
      → load (user_tag tag v) l.speed_limiter ≡ some b
      → let got =
          (check_limit new_bucket now
            (user_tag tag v)
            ip
            is_tcp
            no_ss_udp
            (apply_all new_bucket tag cs l)).1 in
        (got ≡ none) ⊎ (got ≡ some b)
  apply_all-stale_bucket cs l now ip is_tcp no_ss_udp n e =
      check_limit-reuses new_bucket now (user_tag tag v) ip is_tcp no_ss_udp
        (apply_all new_bucket tag cs l) b (apply_all-keeps_bucket cs l n e)
