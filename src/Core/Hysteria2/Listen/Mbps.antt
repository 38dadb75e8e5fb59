-- ===== src/Core/Hysteria2/Listen/Mbps.antt =====
-- The bandwidth in bytes a second.
use ccaa.Base.{
  ℕ, suc, ◌-◌, ◌*◌, ℤ, pos, negsuc, scale, two64, InInt64, wrap64_of_InInt64, int_eq, ◌≡◌, arith,
}
use ccaa.Panel.Node.{Hysteria2Node}
use ccaa.Core.Hysteria2.Listen.{bytes_of_mbps, get_bandwidth_config}

-- The product with a megabyte fits in an int.
abbrev pub Fits : ℤ → Type 0
Fits n = InInt64 (scale 1_000_000 n)

-- An eighth of a million bytes for each megabit, where that is negative modulo 2^64.
abbrev pub bytes_exact : ℤ → ℕ
bytes_exact (pos n) = 125_000 * n
bytes_exact (negsuc n) = two64 - 125_000 * suc n

bytes_of_mbps_lem : (n : ℤ) → Fits n → bytes_of_mbps n ≡ bytes_exact n
bytes_of_mbps_lem (pos n) h = rw (wrap64_of_InInt64 (scale 1_000_000 (pos n)) h) (ground (arith, h))
bytes_of_mbps_lem (negsuc n) h =
    rw (wrap64_of_InInt64 (scale 1_000_000 (negsuc n)) h) (ground (arith, h))

-- For bandwidths whose product with a million fits in an int, both ways are converted exactly:
-- 125000 bytes a second for each megabit. One that is negative becomes that number modulo 2^64,
-- which is a limit so large that it is none.
get_bandwidth_config-exact :
    (h : Hysteria2Node)
    → Fits h.up_mbps
    → Fits h.down_mbps
    → let b = get_bandwidth_config h in
      (b.max_tx ≡ bytes_exact h.up_mbps) × (b.max_rx ≡ bytes_exact h.down_mbps)
unfolding get_bandwidth_config
get_bandwidth_config-exact h up down = (
  ground (arith, bytes_of_mbps_lem h.up_mbps up),
  ground (arith, bytes_of_mbps_lem h.down_mbps down),
)
