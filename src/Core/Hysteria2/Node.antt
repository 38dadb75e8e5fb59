-- ===== src/Core/Hysteria2/Node.antt =====
-- core/hy2/node.go, hy2.go and user.go: the core, its nodes and its users. A server is a value S of
-- hysteria's library; what it serves once it is started is the library's.
pub mod Nodes
mod Tests
use ccaa.Base.{
  ℕ, ℤ, pos, wrap64, scale, String, string_eq, nat_eq, Bool, true, false, List, [], ◌∷◌, Option,
  none, some, ◌⊎◌, inl, inr, Assoc, load, store, delete, length, ◌==◌, if◌then◌else◌, Result, ok,
  err, panicked, ◌>>=◌, of_sum,
}
use ccaa.Panel.User.{UserInfo, UserTraffic}
use ccaa.Panel.Node.{NodeInfo}
use ccaa.Counter.{TrafficCounter}
use ccaa.Core.Traffic.{traffic_slice}
use ccaa.Core.Hysteria2.{UsersMap, add_users, del_users}
use ccaa.Core.Hysteria2.Logger.{Level, LogFormat, init_logger}
use ccaa.Core.Hysteria2.Settings.{ServerConfig}
use ccaa.Core.Hysteria2.Outbound.{is_set}
use ccaa.Core.Hysteria2.Config.{NodeOptions}
use ccaa.Core.Hysteria2.Server.{Libraries, HyConfig, get_hy_config}

-- A node: its server, and the hook's counters and least traffic.
pub record Hysteria2Node (S : Type 0) : Type 0 where
  pub server : S
  pub tag : String
  pub report_min_traffic_bytes : ℤ
  pub counter : Assoc String TrafficCounter

pub record Hysteria2 (S : Type 0) : Type 0 where
  pub nodes : Assoc String (Hysteria2Node S)
  pub users : UsersMap

-- `new_logger` builds zap's logger.
unfoldable pub new :
    {S L : Type 0}
    → (String → String)
    → (Level → LogFormat → String ⊎ L)
    → String
    → String ⊎ Hysteria2 S
new to_lower build level =
    elim (init_logger to_lower build (if is_set level then level else "error") "console") [
      | inl e ↦ inl e
      | inr logger ↦ inr (record { nodes = []; users = [] })
    ]

abbrev pub protocols : List String
protocols = "hysteria2" ∷ []

-- `read_config` is viper's reading of a file; where it fails the program ends, which is `panicked`.
-- `zero_config` is the settings of an empty path. `new_server` is `server.NewServer`.
module _ {T C U P O I S : Type 0} (libs : Libraries T C U P O I) (zero_config : ServerConfig)
    (read_config : String → Option ServerConfig) (new_server : HyConfig T C P O → String ⊎ S) where
  abbrev pub config_of : String → Result ServerConfig
  config_of path =
      if is_set path
      then (elim (read_config path) [ none ↦ panicked | some c ↦ ok c ])
      else ok zero_config

  -- After an error the core is as it was.
  unfoldable pub add_node : String → NodeInfo → NodeOptions → Hysteria2 S → Result (Hysteria2 S)
  add_node tag info options h = do
    c ← config_of options.hysteria2_config_path
    config ← get_hy_config libs info options c
    s ← of_sum (new_server config)
    ok (record h {
      nodes =
          store tag
            (record {
              server = s;
              tag = tag;
              report_min_traffic_bytes = wrap64 (scale 1024 options.report_min_traffic);
              counter = [];
            })
            h.nodes;
    })

module _ {S : Type 0} (close_server : S → Option String) where
  unfoldable pub del_node : String → Hysteria2 S → Result (Hysteria2 S)
  del_node tag h = elim (load tag h.nodes) [
    | none ↦ panicked
    | some n ↦ elim (close_server n.server) [
      | some e ↦ err e
      | none ↦ ok (record h { nodes = delete tag h.nodes })
    ]
  ]

  -- The servers that are closed, and the first error, which ends the loop.
  unfoldable pub close_all : Assoc String (Hysteria2Node S) → List S × Option String
  close_all [] = ([], none)
  close_all ((tag, n) ∷ ns) =
      let (closed, e) = close_all ns in
      elim (close_server n.server) [ some f ↦ ([], some f) | none ↦ (n.server ∷ closed, e) ]

-- How many were added, and the users.
unfoldable pub add_node_users : {S : Type 0} → List UserInfo → Hysteria2 S → Hysteria2 S × ℤ
add_node_users us h = (record h { users = add_users us h.users }, pos (length us))

abbrev pub or_else : {A : Type 0} → A → Option A → A
or_else a none = a
or_else a (some b) = b

module _ {S : Type 0} where
  abbrev pub put_counter :
      String → Hysteria2Node S → Option TrafficCounter → Hysteria2 S → Hysteria2 S
  put_counter tag n none h = h
  put_counter tag n (some c) h = record h {
    nodes = store tag (record n { counter = store tag c n.counter }) h.nodes;
  }

  -- A tag without a node has no hook, at which the first user panics.
  unfoldable pub del_node_users : List UserInfo → String → Hysteria2 S → Result (Hysteria2 S)
  del_node_users [] tag h = ok h
  del_node_users (u ∷ us) tag h = elim (load tag h.nodes) [
    | none ↦ panicked
    | some n ↦
        let (users, c) = del_users (u ∷ us) (h.users, load tag n.counter) in
        ok (put_counter tag n c (record h { users = users }))
  ]

  unfoldable pub get_user_traffic_slice :
      String → Bool → Hysteria2 S → Hysteria2 S × List UserTraffic
  get_user_traffic_slice tag reset h = elim (load tag h.nodes) [
    | none ↦ (h, [])
    | some n ↦ elim (load tag n.counter) [
      | none ↦ (h, [])
      | some c ↦
          let (d, out) = traffic_slice n.report_min_traffic_bytes reset h.users c in
          (put_counter tag n (some d) h, out)
    ]
  ]
