-- ===== src/NetCrypto/Request.antt =====
-- toxcore/net_crypto.c, `generate_request_packet` and `handle_request_packet`: the receiver lists the
-- packets that it lacks, and the sender forgets those that it has.
pub mod Bounds
pub mod Bytes
pub mod Exchange
pub mod Holes
pub mod Stamps
use insert_project_name_here.Base.{
  ℕ, zero, suc, ◌+◌, ◌-◌, ◌%◌, ◌^◌, Option, none, some, List, [], ◌∷◌, u8, u32, u64, sub32, ltb,
  leb, ◌==◌, if◌then◌else◌,
}
use insert_project_name_here.NetCrypto.PacketsArray.{
  PacketData, PacketsArray, Slots, buffer_size, store, is_some,
}

-- PACKET_ID_REQUEST
abbrev pub packet_id_request : ℕ
packet_id_request = 1

-- The loop of `generate_request_packet` from number `i` on, on fuel: the bytes that it writes, with
-- `room` bytes left and `n` numbers since the last one written.
unfoldable pub request_bytes : ℕ → ℕ → ℕ → ℕ → ℕ → Slots → List ℕ
request_bytes zero i last n room f = []
request_bytes (suc fuel) i last n room f =
    let fresh = request_bytes fuel (u32 (i + 1)) last 1 (room - 1) f in
    let run_on = request_bytes fuel (u32 (i + 1)) last (n + 1) room f in
    let after_byte = if leb room 1 then [] else fresh in
    if i == last
    then []
    else if is_some (f (i % buffer_size))
    then (if n == 255 then 0 ∷ after_byte else run_on)
    else u8 n ∷ after_byte

-- `none` is -1; otherwise the packet, whose length is returned.
unfoldable pub generate_request_packet : ℕ → PacketsArray → Option (List ℕ)
unfolding request_bytes
generate_request_packet len a =
    if len == 0
    then none
    else if a.buffer_start == a.buffer_end
    then some (packet_id_request ∷ [])
    else if leb len 1
    then some (packet_id_request ∷ [])
    else some (
        packet_id_request
        ∷ request_bytes (sub32 a.buffer_end a.buffer_start) a.buffer_start a.buffer_end 1 (len - 1)
            a.buffer)

-- A requested packet is due again if it was sent longer than a round trip ago.
abbrev pub mark_due : ℕ → ℕ → Option PacketData → Option PacketData
mark_due now rtt none = none
mark_due now rtt (some d) =
    some (if ltb (u64 (d.sent_time + rtt)) now then record d { sent_time = 0 } else d)

-- `if (l_sent_time < sent_time) l_sent_time = sent_time`
abbrev pub latest_of : ℕ → Option PacketData → ℕ
latest_of l none = l
latest_of l (some d) = if ltb l d.sent_time then d.sent_time else l

-- What the loop of `handle_request_packet` leaves: the slots, `l_sent_time`, and the number of
-- requested packets, or `none` for the return of -1.
pub record Handled : Type 0 where
  pub slots : Slots
  pub l_sent_time : ℕ
  pub requested : Option ℕ

module _ (now rtt : ℕ) where
  -- The loop from number `i` on, on fuel, over the bytes that are left.
  unfoldable pub handle_bytes : ℕ → ℕ → ℕ → ℕ → List ℕ → ℕ → ℕ → Slots → Handled
  unfolding store
  handle_bytes zero i last n bytes requested l f = record {
    slots = f;
    l_sent_time = l;
    requested = some requested;
  }
  handle_bytes (suc fuel) i last n [] requested l f = record {
    slots = f;
    l_sent_time = l;
    requested = some requested;
  }
  handle_bytes (suc fuel) i last n (b ∷ bs) requested l f =
      let slot = i % buffer_size in
      let l' = latest_of l (f slot) in
      let dropped = store f slot none in
      let hit =
        handle_bytes fuel (u32 (i + 1)) last 1 bs (u32 (requested + 1)) l
          (store f slot (mark_due now rtt (f slot))) in
      let run_out = handle_bytes fuel (u32 (i + 1)) last 1 bs requested l' dropped in
      let run_on = handle_bytes fuel (u32 (i + 1)) last (n + 1) (b ∷ bs) requested l' dropped in
      if i == last
      then record { slots = f; l_sent_time = l; requested = some requested }
      else if n == b
      then hit
      else if n == 255
      then (if b == 0
          then run_out
          else record { slots = dropped; l_sent_time = l'; requested = none })
      else run_on

  -- The array, `*latest_send_time`, and the number of requested packets or `none` for -1.
  abbrev pub after_loop : PacketsArray → ℕ → Handled → PacketsArray × ℕ × Option ℕ
  after_loop a latest h = (
    record a { buffer = h.slots },
    elim h.requested [
      | none ↦ latest
      | some _ ↦ if ltb latest h.l_sent_time then h.l_sent_time else latest
    ],
    h.requested,
  )

  unfoldable pub handle_request_packet : PacketsArray → List ℕ → ℕ → PacketsArray × ℕ × Option ℕ
  unfolding handle_bytes
  handle_request_packet a [] latest = (a, latest, none)
  handle_request_packet a (b ∷ []) latest =
      (a, latest, if b == packet_id_request then some 0 else none)
  handle_request_packet a (b ∷ c ∷ bs) latest =
      if b == packet_id_request
      then after_loop a latest (
          handle_bytes (sub32 a.buffer_end a.buffer_start) a.buffer_start a.buffer_end 1 (c ∷ bs) 0
            (2 ^ 64 - 1) a.buffer)
      else (a, latest, none)
