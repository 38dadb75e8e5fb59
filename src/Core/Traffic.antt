-- ===== src/Core/Traffic.antt =====
-- The loop of `GetUserTrafficSlice`, which core/xray/user.go, core/sing/user.go and
-- core/hy2/user.go write alike. Each entry is read and reset with no other call in between.
pub mod Conserved
use ccaa.Base.{
  ℤ, pos, ltb_ℤ, Bool, true, false, String, string_eq, int_eq, nat_eq, List, [], ◌∷◌, ◌++◌, Option,
  none, some, Assoc, load, ◌==◌, if◌then◌else◌, ℕ,
}
use ccaa.Counter.{TrafficCounter, TrafficStorage, zero_storage, add64, delete_counter, write}
use ccaa.Panel.User.{UserTraffic}

-- An absent key of a `map[string]int` reads as zero.
abbrev pub uid_or_zero : Option ℤ → ℤ
uid_or_zero none = pos 0
uid_or_zero (some z) = z

abbrev pub over_minimum : ℤ → TrafficStorage → Bool
over_minimum min s = ltb_ℤ min (add64 s.up_counter s.down_counter)

abbrev pub traffic_of : ℤ → TrafficStorage → UserTraffic
traffic_of uid s = record { uid = uid; upload = s.up_counter; download = s.down_counter }

abbrev pub reset_at : Bool → ℕ → TrafficCounter → TrafficCounter
reset_at reset r c = if reset then record c { heap = write r zero_storage c.heap } else c

module _ (min : ℤ) (reset : Bool) (uids : Assoc String ℤ) where
  -- The function that `Range` calls.
  unfoldable pub collect_entry :
      String × ℕ → TrafficCounter × List UserTraffic → TrafficCounter × List UserTraffic
  collect_entry (key, r) (c, out) =
      if over_minimum min (c.heap r)
      then if uid_or_zero (load key uids) == pos 0
        then (delete_counter key (reset_at reset r c), out)
        else (reset_at reset r c, out ++ (traffic_of (uid_or_zero (load key uids)) (c.heap r) ∷ []))
      else (c, out)

  unfoldable pub collect :
      Assoc String ℕ → TrafficCounter × List UserTraffic → TrafficCounter × List UserTraffic
  collect [] s = s
  collect (e ∷ es) s = collect es (collect_entry e s)

  unfoldable pub traffic_slice : TrafficCounter → TrafficCounter × List UserTraffic
  traffic_slice c = collect c.counters (c, [])
