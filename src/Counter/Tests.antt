-- ===== src/Counter/Tests.antt =====
-- The counters at concrete inputs.
use ccaa.Base.{pos, ◌≡◌, String, string_eq, [], ◌∷◌}
use ccaa.Counter.{TrafficCounter, zero_storage, new_traffic_counter}
use ccaa.Counter.Totals.{sent, count}
use ccaa.Counter.Conn.Streams.{read_all, write_all, read_all-last}

abbrev user_a : String
user_a = "a"

abbrev counted : TrafficCounter
counted = count (sent user_a 5) new_traffic_counter

read_all-last_example :
    ((read_all (pos 3 ∷ pos 4 ∷ []) zero_storage).up_counter ≡ pos 4)
    × ((write_all (pos 3 ∷ pos 4 ∷ []) zero_storage).down_counter ≡ pos 4)
read_all-last_example = read_all-last (pos 3 ∷ pos 4 ∷ []) zero_storage
