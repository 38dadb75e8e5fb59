-- ===== src/Counter.antt =====
-- common/counter: the traffic that passes for each user. `TrafficCounter` maps users to pointers:
-- a `Ref` says which storage, and the heap what it holds, so that a connection which keeps its
-- pointer goes on counting where the map no longer leads. A new reference holds zeros.
pub mod Conn
pub mod Totals
mod Tests
use ccaa.Base.{
  ℕ, ◌+◌, ℤ, pos, ◌+ℤ◌, wrap64, String, string_eq, nat_eq, List, [], Option, none, some, Assoc,
  load, store, delete, ◌==◌, if◌then◌else◌, length,
}

pub record TrafficStorage : Type 0 where
  pub up_counter : ℤ
  pub down_counter : ℤ

abbrev pub Ref : Type 0
Ref = ℕ

pub record TrafficCounter : Type 0 where
  pub counters : Assoc String Ref
  pub heap : ℕ → TrafficStorage
  pub next : Ref

abbrev pub zero_storage : TrafficStorage
zero_storage = record { up_counter = pos 0; down_counter = pos 0 }

abbrev pub write : ℕ → TrafficStorage → (ℕ → TrafficStorage) → ℕ → TrafficStorage
write r s heap q = if r == q then s else heap q

-- `atomic.Int64.Add`
unfoldable pub add64 : ℤ → ℤ → ℤ
add64 a b = wrap64 (a +ℤ b)

unfoldable pub new_traffic_counter : TrafficCounter
new_traffic_counter = record { counters = []; heap = λ _. zero_storage; next = 0 }

-- With no other caller between them, the `LoadOrStore` stores what the `Load` did not find.
unfoldable pub get_counter : String → TrafficCounter → Ref × TrafficCounter
get_counter uuid c = elim (load uuid c.counters) [
  | some r ↦ (r, c)
  | none ↦ (
    c.next,
    record c {
      counters = store uuid c.next c.counters;
      heap = write c.next zero_storage c.heap;
      next = c.next + 1;
    },
  )
]

unfoldable pub get_up_count : String → TrafficCounter → ℤ
get_up_count uuid c = elim (load uuid c.counters) [ some r ↦ (c.heap r).up_counter | none ↦ pos 0 ]

unfoldable pub get_down_count : String → TrafficCounter → ℤ
get_down_count uuid c = elim (load uuid c.counters) [
  | some r ↦ (c.heap r).down_counter
  | none ↦ pos 0
]

unfoldable pub len : TrafficCounter → ℕ
len c = length c.counters

unfoldable pub reset : String → TrafficCounter → TrafficCounter
reset uuid c = elim (load uuid c.counters) [
  | some r ↦ record c { heap = write r zero_storage c.heap }
  | none ↦ c
]

unfoldable pub delete_counter : String → TrafficCounter → TrafficCounter
delete_counter uuid c = record c { counters = delete uuid c.counters }

abbrev pub add_up : ℤ → TrafficStorage → TrafficStorage
add_up n s = record s { up_counter = add64 s.up_counter n }

abbrev pub add_down : ℤ → TrafficStorage → TrafficStorage
add_down n s = record s { down_counter = add64 s.down_counter n }

unfoldable pub modify : (TrafficStorage → TrafficStorage) → Ref → TrafficCounter → TrafficCounter
modify f r c = record c { heap = write r (f (c.heap r)) c.heap }

unfoldable pub rx : String → ℤ → TrafficCounter → TrafficCounter
rx uuid n c = let (r, d) = get_counter uuid c in modify (add_down n) r d

unfoldable pub tx : String → ℤ → TrafficCounter → TrafficCounter
tx uuid n c = let (r, d) = get_counter uuid c in modify (add_up n) r d
