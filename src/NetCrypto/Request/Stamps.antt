-- ===== src/NetCrypto/Request/Stamps.antt =====
-- toxcore/net_crypto.c: the time stamp that `handle_request_packet` reports.
use insert_project_name_here.Base.{
  ℕ, zero, suc, ◌+◌, ◌-◌, ◌%◌, ◌^◌, ◌<◌, ◌≡◌, ◌==◌, inl, inr, Option, none, some, List, [], ◌∷◌,
  arith, u32, sub32, refl, Bool-cases,
}
use insert_project_name_here.NetCrypto.PacketsArray.{
  PacketData, PacketsArray, Slots, buffer_size, store,
}
use insert_project_name_here.NetCrypto.Request.{
  handle_bytes, handle_request_packet, mark_due, packet_id_request, latest_of,
}

-- Every stored time stamp is a uint64_t.
abbrev pub Stamped : Slots → Type 0
Stamped s = (j : ℕ) (d : PacketData) → s j ≡ some d → d.sent_time < 2 ^ 64

store-Stamped : (s : Slots) (slot : ℕ) → Stamped s → Stamped (store s slot none)
unfolding store
store-Stamped s slot h j d e = ground (arith, h j d)

mark_due-lt :
    (now rtt : ℕ) (o : Option PacketData) {d : PacketData}
    → ((c : PacketData) → o ≡ some c → c.sent_time < 2 ^ 64)
    → mark_due now rtt o ≡ some d
    → d.sent_time < 2 ^ 64
mark_due-lt now rtt none h e = ground arith
mark_due-lt now rtt (some c) h e = ground (arith, h c)

store_due-Stamped :
    (now rtt : ℕ) (s : Slots) (slot : ℕ)
    → Stamped s
    → Stamped (store s slot (mark_due now rtt (s slot)))
unfolding store
store_due-Stamped now rtt s slot h j d e = elim (Bool-cases (j == slot)) [
  | inl p ↦ mark_due-lt now rtt (s slot) (h slot) (rw p at e)
  | inr p ↦ h j d (rw p at e)
]

latest_of-max :
    (o : Option PacketData)
    → ((c : PacketData) → o ≡ some c → c.sent_time < 2 ^ 64)
    → latest_of (2 ^ 64 - 1) o ≡ 2 ^ 64 - 1
latest_of-max none h = refl
latest_of-max (some c) h = ground (arith, h c)

module _ (now rtt last : ℕ) where
  handle_bytes-l_sent_time :
      (k i n requested : ℕ) (bs : List ℕ) (s : Slots)
      → Stamped s
      → (handle_bytes now rtt k i last n bs requested (2 ^ 64 - 1) s).l_sent_time ≡ 2 ^ 64 - 1
  unfolding handle_bytes
  handle_bytes-l_sent_time zero i n requested bs s h = refl
  handle_bytes-l_sent_time (suc k) i n requested [] s h = refl
  handle_bytes-l_sent_time (suc k) i n requested (b ∷ bs) s h =
      rw (latest_of-max (s (i % buffer_size)) (h (i % buffer_size))) (
        ground (
          arith,
          handle_bytes-l_sent_time k (u32 (i + 1)) 1 (u32 (requested + 1)) bs
              (store s (i % buffer_size) (mark_due now rtt (s (i % buffer_size))))
              (store_due-Stamped now rtt s (i % buffer_size) h),
          handle_bytes-l_sent_time k (u32 (i + 1)) 1 requested bs (store s (i % buffer_size) none)
              (store-Stamped s (i % buffer_size) h),
          handle_bytes-l_sent_time k (u32 (i + 1)) (n + 1) requested (b ∷ bs)
              (store s (i % buffer_size) none) (store-Stamped s (i % buffer_size) h),
        ))

-- If all time stamps are words of 64 bits, every request of at least two bytes that
-- `handle_request_packet` handles successfully sets the latest send time to 2^64 - 1, whatever
-- the time stamps are.
pub handle_request_packet-latest :
    (now rtt : ℕ) (a : PacketsArray) (c latest : ℕ) (bs : List ℕ) {count : ℕ}
    → Stamped a.buffer
    → latest < 2 ^ 64
    → (handle_request_packet now rtt a (packet_id_request ∷ c ∷ bs) latest).2 ≡ some count
    → (handle_request_packet now rtt a (packet_id_request ∷ c ∷ bs) latest).1 ≡ 2 ^ 64 - 1
unfolding handle_request_packet
handle_request_packet-latest now rtt a c latest bs h hl e = ground (
  arith,
  handle_bytes-l_sent_time now rtt a.buffer_end (sub32 a.buffer_end a.buffer_start) a.buffer_start 1
      0 (c ∷ bs) a.buffer h,
)
