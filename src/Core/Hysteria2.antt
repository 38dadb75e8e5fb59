-- ===== src/Core/Hysteria2.antt =====
-- core/hy2/hook.go and core/hy2/user.go: the traffic that hysteria logs, and its users. The
-- goroutines of AddUsers and DelUsers each take the lock, and are run here one after the other.
pub mod Logs
pub mod Logger
pub mod Settings
pub mod Outbound
pub mod Config
pub mod Listen
pub mod Masquerade
pub mod Server
pub mod Node
pub mod Users
mod Tests
use ccaa.Base.{
  ℕ, ℤ, pos, wrap64, String, string_eq, nat_eq, Bool, true, false, List, [], ◌∷◌, Option, none,
  some, Assoc, load, store, delete, length, if◌then◌else◌, is_some,
}
use ccaa.Format.{user_tag}
use ccaa.Panel.User.{UserInfo}
use ccaa.Counter.{TrafficCounter, new_traffic_counter, rx, tx, delete_counter}
use ccaa.Limiter.{Limiter, UserLimitInfo}
use ccaa.Limiter.Registry.{Registry, get_limiter}

-- `registry` is the limiter package's.
pub record HookServer (R B : Type 0) : Type 0 where
  pub tag : String
  pub registry : Registry R B
  pub counter : Assoc String TrafficCounter

abbrev pub counter_of : Option TrafficCounter → TrafficCounter
counter_of none = new_traffic_counter
counter_of (some c) = c

-- The user has used up what they may: the mark is taken back, and the traffic refused.
abbrev pub over_limit : String → {R B : Type 0} → Limiter R B → Bool
over_limit t l = elim (load t l.user_limit_info) [ none ↦ false | some u ↦ u.over_limit ]

abbrev pub take_back : Option UserLimitInfo → Option UserLimitInfo
take_back none = none
take_back (some u) = some (record u { over_limit = false })

module _ {R B : Type 0} where
  -- `tx_bytes` and `rx_bytes` are `uint64`, read as `int`.
  unfoldable pub count_traffic : String → ℕ → ℕ → HookServer R B → HookServer R B
  count_traffic id tx_bytes rx_bytes h =
      let c = counter_of (load h.tag h.counter) in
      record h {
        counter =
            store h.tag (tx id (wrap64 (pos tx_bytes)) (rx id (wrap64 (pos rx_bytes)) c)) h.counter;
      }

  unfoldable pub clear_over_limit :
      ℕ → String → UserLimitInfo → Limiter R B → HookServer R B → HookServer R B
  clear_over_limit r t u l h = record h {
    registry = record h.registry {
      heap =
          store r
            (record l {
              user_limit_info = store t (record u { over_limit = false }) l.user_limit_info;
            })
            h.registry.heap;
    };
  }

  -- With the limiter that the table leads to.
  unfoldable pub log_with :
      String → ℕ → ℕ → ℕ → Limiter R B → HookServer R B → HookServer R B × Bool
  log_with id tx_bytes rx_bytes r l h = elim (load (user_tag h.tag id) l.user_limit_info) [
    | none ↦ (count_traffic id tx_bytes rx_bytes h, true)
    | some u ↦
        if u.over_limit
        then (clear_over_limit r (user_tag h.tag id) u l h, false)
        else (count_traffic id tx_bytes rx_bytes h, true)
  ]

  -- A reference of the table is always in the heap; the case of one that is not does not arise.
  unfoldable pub log_traffic : String → ℕ → ℕ → HookServer R B → HookServer R B × Bool
  log_traffic id tx_bytes rx_bytes h = elim (get_limiter h.tag h.registry) [
    | none ↦ (h, false)
    | some r ↦ elim (load r h.registry.heap) [
      | none ↦ (h, false)
      | some l ↦ log_with id tx_bytes rx_bytes r l h
    ]
  ]

-- `V2bX`, the users that may authenticate, by their uuid.
abbrev pub UsersMap : Type 0
UsersMap = Assoc String ℤ

-- The user's id, if the user may connect.
unfoldable pub authenticate : String → UsersMap → Option String
authenticate auth users = if is_some (load auth users) then some auth else none

unfoldable pub add_users : List UserInfo → UsersMap → UsersMap
add_users [] users = users
add_users (u ∷ us) users = add_users us (store u.uuid u.id users)

-- The counter is that of the node's tag, if it has one.
unfoldable pub del_users :
    List UserInfo → UsersMap × Option TrafficCounter → UsersMap × Option TrafficCounter
del_users [] s = s
del_users (u ∷ us) (users, c) =
    del_users us
      (delete u.uuid users, elim c [ none ↦ none | some t ↦ some (delete_counter u.uuid t) ])
