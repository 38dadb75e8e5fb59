-- ===== src/Counter/Conn.antt =====
-- common/counter/conn.go and xraytraffic.go: what a wrapped connection does to its storage. The
-- wrapped connection is not this program's: the count and the error that it answers are arguments.
pub mod Streams
use ccaa.Base.{ℤ, pos, ltb_ℤ, Bool, if◌then◌else◌}
use ccaa.Counter.{TrafficStorage, add_up, add_down, add64}

-- `Read` and `Write` store the count of this one call.
unfoldable pub conn_read : ℤ → TrafficStorage → TrafficStorage
conn_read n s = record s { up_counter = n }

unfoldable pub conn_write : ℤ → TrafficStorage → TrafficStorage
conn_write n s = record s { down_counter = n }

-- `failed` says that the wrapped call returned an error; `n` is the buffer's length after it.
unfoldable pub conn_read_buffer : Bool → ℤ → TrafficStorage → TrafficStorage
conn_read_buffer failed n s = if failed then s else if ltb_ℤ (pos 0) n then add_up n s else s

-- Here `n` is the buffer's length before the call.
unfoldable pub conn_write_buffer : Bool → ℤ → TrafficStorage → TrafficStorage
conn_write_buffer failed n s = if failed then s else if ltb_ℤ (pos 0) n then add_down n s else s

-- The functions that `UnwrapReader` and `UnwrapWriter` hand out, for connections and packets.
unfoldable pub read_func : ℤ → TrafficStorage → TrafficStorage
read_func n s = add_up n s

unfoldable pub write_func : ℤ → TrafficStorage → TrafficStorage
write_func n s = add_down n s

unfoldable pub read_packet : Bool → ℤ → TrafficStorage → TrafficStorage
read_packet failed n s = if failed then s else add_up n s

unfoldable pub write_packet : Bool → ℤ → TrafficStorage → TrafficStorage
write_packet failed n s = if failed then s else if ltb_ℤ (pos 0) n then add_down n s else s

-- `XrayTrafficCounter`, over the number that it points to: the new value and the answer.
unfoldable pub value : ℤ → ℤ
value v = v

unfoldable pub set : ℤ → ℤ → ℤ × ℤ
set new_value v = (new_value, v)

unfoldable pub add : ℤ → ℤ → ℤ × ℤ
add delta v = (add64 v delta, add64 v delta)
