-- ===== src/FakeIp/Address.antt =====
-- Addresses as numbers: the two conversions, and the addresses of a pool's offsets.
use clash_flt.Prelude.{ℕ, ◌<◌, ◌≡◌, arith}
use clash_flt.FakeIp.{Ipv4, u32, add32, sub32, ip_to_uint, uint_to_ip}

-- Every uint32 is the number of the address that it is converted to.
pub ip_to_uint-uint_to_ip : (v : ℕ) → v < u32 → ip_to_uint (uint_to_ip v) ≡ v
unfolding ip_to_uint uint_to_ip
ip_to_uint-uint_to_ip v h = omega arith

pub add32-lt : (x y : ℕ) → add32 x y < u32
unfolding add32
add32-lt x y = omega arith

pub sub32-lt : (x y : ℕ) → sub32 x y < u32
unfolding sub32
sub32-lt x y = omega arith

pub ip_to_uint-lt : (ip : Ipv4) → ip_to_uint ip < u32
unfolding ip_to_uint
ip_to_uint-lt ip = omega arith
