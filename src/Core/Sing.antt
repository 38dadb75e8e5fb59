-- ===== src/Core/Sing.antt =====
-- core/sing/hook.go: what the hook does to a new connection. The time, the user and the metadata of
-- the connection are arguments. The wrappers that a connection gets are part of the result.
pub mod Decides
pub mod Users
use ccaa.Base.{
  ℕ, ℤ, pos, String, string_eq, nat_eq, Bool, true, false, not, ◌&&◌, ◌||◌, Option, none, some,
  Assoc, load, store, ◌==◌, if◌then◌else◌, List, [], ◌∷◌,
}
use ccaa.Format.{user_tag}
use ccaa.Counter.{TrafficCounter, new_traffic_counter, get_counter, Ref}
use ccaa.Limiter.{Limiter}
use ccaa.Limiter.Registry.{Registry, get_limiter}
use ccaa.Limiter.Check.{check_limit}
use ccaa.Limiter.Rules.{check_domain_rule, check_protocol_rule}

-- `registry` is the limiter package's. A counter is stored for a tag once and stays.
pub record HookServer (R B : Type 0) : Type 0 where
  pub registry : Registry R B
  pub counter : Assoc String TrafficCounter

-- `sing-box`'s metadata: the inbound's tag, the user, the source address, and the destination.
pub record InboundContext : Type 0 where
  pub inbound : String
  pub user : String
  pub source : String
  pub destination : String
  pub protocol : String
  pub network : String

-- The protocol that the rules see: for packets it is the network of the destination.
abbrev pub protocol_of : Bool → InboundContext → String
protocol_of is_tcp m = if is_tcp then m.protocol else m.network

-- What becomes of the connection: whether it is closed, the bucket that limits its rate, and the
-- storage that counts its traffic.
pub record Routed (B : Type 0) : Type 0 where
  pub closed : Bool
  pub bucket : Option B
  pub storage : Option Ref

abbrev pub untouched : {B : Type 0} → Routed B
untouched = record { closed = false; bucket = none; storage = none }

abbrev pub closed_with : {B : Type 0} → Option B → Routed B
closed_with b = record { closed = true; bucket = b; storage = none }

-- The counter of the tag, made if there is none.
abbrev pub counter_of : Option TrafficCounter → TrafficCounter
counter_of none = new_traffic_counter
counter_of (some c) = c

unfoldable pub count_user :
    String → String → Assoc String TrafficCounter → Ref × Assoc String TrafficCounter
count_user tag user counter =
    let (r, c) = get_counter user (counter_of (load tag counter)) in (r, store tag c counter)

module _ {R B : Type 0} (match_string : R → String → Bool) where
  -- The domain rule, then the protocol rule if the protocol is known.
  unfoldable pub blocked : String → String → Limiter R B → Bool
  blocked destination protocol l =
      check_domain_rule match_string destination l
      || (not (protocol == "") && check_protocol_rule protocol l)

  -- After the limiter has answered: the rules, then the counter.
  unfoldable pub finish :
      String → InboundContext → Option B → Limiter R B → HookServer R B → HookServer R B × Routed B
  finish protocol m b l h =
      let (r, counter) = count_user m.inbound m.user h.counter in
      if blocked m.destination protocol l
      then (h, closed_with b)
      else (record h { counter = counter }, record { closed = false; bucket = b; storage = some r })

abbrev pub put : {R B : Type 0} → ℕ → Limiter R B → HookServer R B → HookServer R B
put r l h = record h { registry = record h.registry { heap = store r l h.registry.heap } }

module _ {R B : Type 0} (new_bucket : ℤ → ℤ → B) (match_string : R → String → Bool) where
  -- With the limiter that the table leads to.
  unfoldable pub routed_with :
      ℤ → Bool → InboundContext → ℕ → Limiter R B → HookServer R B → HookServer R B × Routed B
  routed_with now is_tcp m r l h =
      let (l', b, reject) =
        check_limit new_bucket now (user_tag m.inbound m.user) m.source is_tcp is_tcp l in
      if reject
      then (put r l' h, closed_with none)
      else finish match_string (protocol_of is_tcp m) m (if is_tcp then b else none) l' (put r l' h)

  -- A reference of the table is always in the heap; the case of one that is not does not arise.
  unfoldable pub routed : ℤ → Bool → InboundContext → HookServer R B → HookServer R B × Routed B
  routed now is_tcp m h = elim (get_limiter m.inbound h.registry) [
    | none ↦ (h, untouched)
    | some r ↦ elim (load r h.registry.heap) [
      | none ↦ (h, untouched)
      | some l ↦ routed_with now is_tcp m r l h
    ]
  ]

  unfoldable pub routed_connection : ℤ → InboundContext → HookServer R B → HookServer R B × Routed B
  routed_connection now m h = routed now true m h

  -- The bucket is not used here.
  unfoldable pub routed_packet_connection :
      ℤ → InboundContext → HookServer R B → HookServer R B × Routed B
  routed_packet_connection now m h = routed now false m h
