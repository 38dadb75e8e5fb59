-- ===== src/Counter/Conn/Streams.antt =====
-- What a storage shows after a stream of calls on one connection.
use ccaa.Base.{ℕ, ◌+◌, ◌<◌, ℤ, pos, two63, Bool, ◌≡◌, refl, List, [], ◌∷◌, if◌then◌else◌, arith}
use ccaa.Counter.{TrafficStorage}
use ccaa.Counter.Totals.{add64_pos}
use ccaa.Counter.Conn.{
  conn_read, conn_write, conn_read_buffer, conn_write_buffer, read_packet, write_packet, read_func,
  write_func,
}

-- A call that moves bytes through a connection or a packet connection.
pub data Move : Type 0 where
  reads_buffer : Bool → ℕ → Move
  writes_buffer : Bool → ℕ → Move
  reads_packet : Bool → ℕ → Move
  writes_packet : Bool → ℕ → Move
  counts_read : ℕ → Move
  counts_write : ℕ → Move

unfoldable pub move : Move → TrafficStorage → TrafficStorage
move (reads_buffer failed n) s = conn_read_buffer failed (pos n) s
move (writes_buffer failed n) s = conn_write_buffer failed (pos n) s
move (reads_packet failed n) s = read_packet failed (pos n) s
move (writes_packet failed n) s = write_packet failed (pos n) s
move (counts_read n) s = read_func (pos n) s
move (counts_write n) s = write_func (pos n) s

unfoldable pub move_all : List Move → TrafficStorage → TrafficStorage
move_all [] s = s
move_all (m ∷ ms) s = move_all ms (move m s)

-- The bytes of the calls that succeeded, each way.
abbrev pub up_bytes : Move → ℕ
up_bytes (reads_buffer failed n) = if failed then 0 else n
up_bytes (reads_packet failed n) = if failed then 0 else n
up_bytes (counts_read n) = n
up_bytes _ = 0

abbrev pub down_bytes : Move → ℕ
down_bytes (writes_buffer failed n) = if failed then 0 else n
down_bytes (writes_packet failed n) = if failed then 0 else n
down_bytes (counts_write n) = n
down_bytes _ = 0

abbrev pub total : (Move → ℕ) → List Move → ℕ
total f [] = 0
total f (m ∷ ms) = f m + total f ms

move_lem :
    (m : Move) (a b : ℕ)
    → a + up_bytes m < two63
    → b + down_bytes m < two63
    → move m (record { up_counter = pos a; down_counter = pos b })
      ≡ record { up_counter = pos (a + up_bytes m); down_counter = pos (b + down_bytes m) }
unfolding move conn_read_buffer conn_write_buffer read_packet write_packet read_func write_func
move_lem (reads_buffer failed n) a b p q = ground (arith, add64_pos a n)
move_lem (writes_buffer failed n) a b p q = ground (arith, add64_pos b n)
move_lem (reads_packet failed n) a b p q = ground (arith, add64_pos a n)
move_lem (writes_packet failed n) a b p q = ground (arith, add64_pos b n)
move_lem (counts_read n) a b p q = ground (arith, add64_pos a n)
move_lem (counts_write n) a b p q = ground (arith, add64_pos b n)

-- Buffers, packets and the unwrapped counting functions add up: after any number of calls each
-- counter has grown by the bytes of the calls that succeeded, as long as it stays below 2^63.
move_all-totals :
    (ms : List Move) (a b : ℕ)
    → a + total up_bytes ms < two63
    → b + total down_bytes ms < two63
    → move_all ms (record { up_counter = pos a; down_counter = pos b }) ≡ record {
      up_counter = pos (a + total up_bytes ms);
      down_counter = pos (b + total down_bytes ms);
    }
unfolding move_all
move_all-totals [] a b p q = ground arith
move_all-totals (m ∷ ms) a b p q = rw (move_lem m a b (omega arith) (omega arith)) (
    ground
      (arith, move_all-totals ms (a + up_bytes m) (b + down_bytes m) (omega arith) (omega arith)))

unfoldable pub read_all : List ℤ → TrafficStorage → TrafficStorage
read_all [] s = s
read_all (n ∷ ns) s = read_all ns (conn_read n s)

unfoldable pub write_all : List ℤ → TrafficStorage → TrafficStorage
write_all [] s = s
write_all (n ∷ ns) s = write_all ns (conn_write n s)

abbrev pub last_or : ℤ → List ℤ → ℤ
last_or z [] = z
last_or z (n ∷ ns) = last_or n ns

-- Plain reads and writes do not add up: whatever came before, the counter shows the last count
-- alone, so the traffic of every earlier call is lost.
pub read_all-last :
    (ns : List ℤ) (s : TrafficStorage)
    → ((read_all ns s).up_counter ≡ last_or s.up_counter ns)
      × ((write_all ns s).down_counter ≡ last_or s.down_counter ns)
unfolding read_all write_all conn_read conn_write
read_all-last [] s = (refl, refl)
read_all-last (n ∷ ns) s = (
  (read_all-last ns (record s { up_counter = n })).0,
  (read_all-last ns (record s { down_counter = n })).1,
)
