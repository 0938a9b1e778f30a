-- ===== src/NetCrypto/Request/Bounds.antt =====
-- toxcore/net_crypto.c: the length of a request packet.
use insert_project_name_here.Base.{
  ℕ, zero, suc, ◌+◌, ◌-◌, ◌≤◌, ◌<◌, ◌≡◌, some, List, arith, u32, sub32, length,
}
use insert_project_name_here.NetCrypto.PacketsArray.{PacketsArray, Slots}
use insert_project_name_here.NetCrypto.Request.{request_bytes, generate_request_packet}

length-request_bytes :
    (k i last n room : ℕ) (f : Slots) → 0 < room → length (request_bytes k i last n room f) ≤ room
unfolding request_bytes
length-request_bytes zero i last n room f h = omega arith
length-request_bytes (suc k) i last n room f h = ground (
  arith,
  length-request_bytes k (u32 (i + 1)) last 1 (room - 1) f,
  length-request_bytes k (u32 (i + 1)) last (n + 1) room f,
)

-- The packet that `generate_request_packet` writes is never longer than the room it is given.
pub length-generate_request_packet :
    (len : ℕ) (a : PacketsArray) {p : List ℕ}
    → generate_request_packet len a ≡ some p
    → length p ≤ len
unfolding generate_request_packet
length-generate_request_packet len a e = ground (
  arith,
  length-request_bytes (sub32 a.buffer_end a.buffer_start) a.buffer_start a.buffer_end 1 (len - 1)
      a.buffer,
)
