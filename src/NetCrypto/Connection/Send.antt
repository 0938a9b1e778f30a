-- ===== src/NetCrypto/Connection/Send.antt =====
-- toxcore/net_crypto.c: what a crypto connection sends. The authenticated encryption of the cryptographic
-- library, the results of `send_packet_to` and `malloc`, and the clock are arguments.
use insert_project_name_here.Base.{
  ℕ, zero, suc, ◌+◌, ◌-◌, ◌%◌, Bool, true, false, not, ◌&&◌, ◌||◌, Option, none, some, List, [],
  ◌∷◌, ◌++◌, u32, sub32, ltb, leb, ◌==◌, if◌then◌else◌, length, drop, replicate, be32,
}
use insert_project_name_here.NetCrypto.PacketsArray.{
  PacketData, PacketsArray, num_packets_array, get_data_pointer, found, hole, outside,
  add_data_end_of_buffer,
}
use insert_project_name_here.NetCrypto.Nonce.{increment_nonce}
use insert_project_name_here.NetCrypto.Request.{generate_request_packet}
use insert_project_name_here.NetCrypto.Connection.{
  CryptoBox, CryptoConnection, is_live, max_crypto_packet_size, net_packet_crypto_data,
  crypto_max_padding, packet_id_padding, packet_id_kill, lossy_range_start, lossy_range_size,
  bytes_of, first_byte, set_sent_time, count_packet, refuses_write,
}

module _ (box : CryptoBox) where
  -- MAX_CRYPTO_DATA_SIZE: MAX_CRYPTO_PACKET_SIZE without CRYPTO_DATA_PACKET_MIN_SIZE.
  abbrev pub max_crypto_data_size : ℕ
  max_crypto_data_size = max_crypto_packet_size - (11 + box.mac_bytes)

  -- toxcore/crypto_core.c
  unfoldable pub encrypt_data_symmetric : List ℕ → List ℕ → List ℕ → Option (List ℕ)
  encrypt_data_symmetric key nonce plain =
      if length plain == 0 then none else box.afternm key nonce plain

  -- `crypto_box_BOXZEROBYTES` is as large as the authenticator.
  unfoldable pub decrypt_data_symmetric : List ℕ → List ℕ → List ℕ → Option (List ℕ)
  decrypt_data_symmetric key nonce encrypted =
      if leb (length encrypted) box.mac_bytes then none else box.open_afternm key nonce encrypted

  abbrev pub data_packet : List ℕ → List ℕ → List ℕ
  data_packet nonce encrypted =
      net_packet_crypto_data ∷ (drop (length nonce - 2) nonce ++ encrypted)

  -- The connection, and whether the call returned 0. `sent` says whether `send_packet_to` returned 0.
  unfoldable pub send_data_packet : Bool → CryptoConnection → List ℕ → CryptoConnection × Bool
  unfolding encrypt_data_symmetric increment_nonce
  send_data_packet sent conn plain =
      if length plain == 0 || ltb max_crypto_packet_size (length plain + (3 + box.mac_bytes))
      then (conn, false)
      else if not (is_live conn.status)
      then (conn, false)
      else elim (encrypt_data_symmetric conn.shared_key conn.sent_nonce plain) [
        | none ↦ (conn, false)
        | some encrypted ↦ (
          record conn {
            sent_nonce = increment_nonce conn.sent_nonce;
            wire = (plain, data_packet conn.sent_nonce encrypted) ∷ conn.wire;
          },
          sent,
        )
      ]

  -- The numbers in network order, the padding, and the data.
  unfoldable pub padded : ℕ → ℕ → List ℕ → List ℕ
  padded buffer_start num bytes =
      be32 buffer_start
      ++ (be32 num
          ++ (replicate ((max_crypto_data_size - length bytes) % crypto_max_padding)
                packet_id_padding
              ++ bytes))

  unfoldable pub send_data_packet_helper :
      Bool → CryptoConnection → ℕ → ℕ → List ℕ → CryptoConnection × Bool
  unfolding send_data_packet padded
  send_data_packet_helper sent conn buffer_start num bytes =
      if length bytes == 0 || ltb max_crypto_data_size (length bytes)
      then (conn, false)
      else send_data_packet sent conn (padded buffer_start num bytes)

  -- Sends the packet with a number again, and stamps it if that succeeds.
  unfoldable pub send_stored :
      Bool → ℕ → CryptoConnection → ℕ → PacketData → CryptoConnection × Bool
  unfolding send_data_packet_helper set_sent_time
  send_stored sent now conn number d =
      let (c, done) =
        send_data_packet_helper sent conn conn.recv_array.buffer_start number (bytes_of d) in
      if done
      then (record c { send_array = set_sent_time c.send_array number now }, true)
      else (c, false)

  -- The packet that `reset_max_speed_reached` sends again is not stamped yet.
  unfoldable pub retry_last : Bool → ℕ → CryptoConnection → CryptoConnection × Bool
  unfolding get_data_pointer send_stored
  retry_last sent now conn =
      let number = sub32 conn.send_array.buffer_end 1 in
      elim (get_data_pointer conn.send_array number) [
        | found d ↦ if d.sent_time == 0 then send_stored sent now conn number d else (conn, true)
        | _ ↦ (conn, true)
      ]

  unfoldable pub reset_max_speed_reached : Bool → ℕ → CryptoConnection → CryptoConnection × Bool
  unfolding retry_last
  reset_max_speed_reached sent now conn =
      if not (is_live conn.status)
      then (conn, false)
      else if conn.maximum_speed_reached
      then (let (c, done) = retry_last sent now conn in
          if done then (record c { maximum_speed_reached = false }, true) else (c, false))
      else (conn, true)

  -- A packet that was just queued is sent for the first time.
  unfoldable pub send_first : Bool → ℕ → CryptoConnection → ℕ → List ℕ → CryptoConnection
  unfolding send_data_packet_helper get_data_pointer set_sent_time
  send_first sent now conn number bytes =
      let (c, done) = send_data_packet_helper sent conn conn.recv_array.buffer_start number bytes in
      if done
      then elim (get_data_pointer c.send_array number) [
        | found _ ↦ record c { send_array = set_sent_time c.send_array number now }
        | _ ↦ c
      ]
      else record c { maximum_speed_reached = true }

  unfoldable pub send_queued :
      Bool → ℕ → CryptoConnection → ℕ → List ℕ → Bool → CryptoConnection × Option ℕ
  unfolding send_first
  send_queued sent now c number bytes congestion_control =
      if not congestion_control && c.maximum_speed_reached
      then (c, some number)
      else (send_first sent now c number bytes, some number)

  -- What follows `add_data_end_of_buffer`, by the number that it gave.
  unfoldable pub queue_added :
      Bool
      → ℕ
      → CryptoConnection
      → List ℕ
      → Bool
      → PacketsArray
      → Option ℕ
      → CryptoConnection × Option ℕ
  unfolding send_queued
  queue_added sent now conn bytes congestion_control a none = (record conn { send_array = a }, none)
  queue_added sent now conn bytes congestion_control a (some number) =
      send_queued sent now (record conn { send_array = a }) number bytes congestion_control

  unfoldable pub queue_packet :
      Bool → Bool → ℕ → CryptoConnection → List ℕ → Bool → CryptoConnection × Option ℕ
  unfolding add_data_end_of_buffer queue_added
  queue_packet sent malloc now conn bytes congestion_control =
      let (a, packet_num) =
        add_data_end_of_buffer malloc conn.send_array
          (record { sent_time = 0; len = length bytes; payload = bytes }) in
      queue_added sent now conn bytes congestion_control a packet_num

  -- The packet number, or `none` for -1. `again` and `sent` say what the two calls of
  -- `send_packet_to` give.
  unfoldable pub send_lossless_packet :
      Bool → Bool → Bool → ℕ → CryptoConnection → List ℕ → Bool → CryptoConnection × Option ℕ
  unfolding reset_max_speed_reached queue_packet
  send_lossless_packet again sent malloc now conn bytes congestion_control =
      if length bytes == 0 || ltb max_crypto_data_size (length bytes)
      then (conn, none)
      else if not (is_live conn.status)
      then (conn, none)
      else let (c, done) = reset_max_speed_reached again now conn in
        if c.maximum_speed_reached && congestion_control
        then (c, none)
        else queue_packet sent malloc now c bytes congestion_control

  unfoldable pub write_cryptpacket :
      Bool → Bool → Bool → ℕ → CryptoConnection → List ℕ → Bool → CryptoConnection × Option ℕ
  write_cryptpacket again sent malloc now conn bytes congestion_control =
      if refuses_write conn bytes congestion_control
      then (conn, none)
      else let (c, number) =
          send_lossless_packet again sent malloc now conn bytes congestion_control in
        count_packet congestion_control c number

  unfoldable pub send_lossy_cryptpacket : Bool → CryptoConnection → List ℕ → CryptoConnection × Bool
  unfolding send_data_packet_helper
  send_lossy_cryptpacket sent conn bytes =
      if length bytes == 0 || ltb max_crypto_data_size (length bytes)
      then (conn, false)
      else if ltb (first_byte bytes) lossy_range_start
      then (conn, false)
      else if leb (lossy_range_start + lossy_range_size) (first_byte bytes)
      then (conn, false)
      else if is_live conn.status
      then send_data_packet_helper sent conn conn.recv_array.buffer_start conn.send_array.buffer_end
          bytes
      else (conn, false)

  unfoldable pub send_request_packet : Bool → CryptoConnection → CryptoConnection × Bool
  unfolding generate_request_packet send_data_packet_helper
  send_request_packet sent conn =
      if not (is_live conn.status)
      then (conn, false)
      else elim (generate_request_packet max_crypto_data_size conn.recv_array) [
        | none ↦ (conn, false)
        | some bytes ↦
            send_data_packet_helper sent conn conn.recv_array.buffer_start
              conn.send_array.buffer_end bytes
      ]

  unfoldable pub send_kill_packet : Bool → CryptoConnection → CryptoConnection × Bool
  unfolding send_data_packet_helper
  send_kill_packet sent conn =
      if not (is_live conn.status)
      then (conn, false)
      else send_data_packet_helper sent conn conn.recv_array.buffer_start conn.send_array.buffer_end
          (packet_id_kill ∷ [])

  -- The loop of `send_requested_packets` with `rounds` rounds left, from number `buffer_start + i` on.
  -- `sent` says of each number what `send_packet_to` gives.
  unfoldable pub send_requested :
      ℕ → (ℕ → Bool) → ℕ → CryptoConnection → ℕ → ℕ → ℕ → CryptoConnection × Option ℕ
  unfolding get_data_pointer send_stored
  send_requested zero sent now conn i num_sent max_num = (conn, some num_sent)
  send_requested (suc rounds) sent now conn i num_sent max_num =
      let packet_num = u32 (i + conn.send_array.buffer_start) in
      elim (get_data_pointer conn.send_array packet_num) [
        | outside ↦ (conn, none)
        | hole ↦ send_requested rounds sent now conn (i + 1) num_sent max_num
        | found d ↦
            let (c, done) =
              if d.sent_time == 0
              then send_stored (sent packet_num) now conn packet_num d
              else (conn, false) in
            let count = if done then num_sent + 1 else num_sent in
            if leb max_num count && d.sent_time == 0
            then (c, some count)
            else send_requested rounds sent now c (i + 1) count max_num
      ]

  unfoldable pub send_requested_packets :
      (ℕ → Bool) → ℕ → CryptoConnection → ℕ → CryptoConnection × Option ℕ
  unfolding send_requested num_packets_array
  send_requested_packets sent now conn max_num =
      if max_num == 0
      then (conn, none)
      else if is_live conn.status
      then send_requested (num_packets_array conn.send_array) sent now conn 0 0 max_num
      else (conn, none)
