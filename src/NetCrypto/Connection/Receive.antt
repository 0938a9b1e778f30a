-- ===== src/NetCrypto/Connection/Receive.antt =====
-- toxcore/net_crypto.c: what a crypto connection does with a data packet. Of the callbacks, only that
-- of lossless data is recorded; none calls back into the connection.
use insert_project_name_here.Base.{
  ℕ, zero, suc, ◌+◌, ◌-◌, ◌^◌, Bool, true, false, not, ◌&&◌, ◌||◌, Option, none, some, List, [],
  ◌∷◌, ◌++◌, u16, u32, u64, ltb, leb, ◌==◌, if◌then◌else◌, length, take, drop, of_be,
}
use insert_project_name_here.NetCrypto.PacketsArray.{
  PacketsArray, num_packets_array, get_data_pointer, found, add_data_to_buffer,
  read_data_beg_buffer, clear_buffer_until, set_buffer_end,
}
use insert_project_name_here.NetCrypto.Nonce.{increment_nonce_number, get_nonce_uint16}
use insert_project_name_here.NetCrypto.Request.{handle_request_packet, packet_id_request}
use insert_project_name_here.NetCrypto.Connection.{
  CryptoBox, CryptoConnection, ConnStatus, no_connection, not_confirmed, established, is_live,
  is_established, max_crypto_packet_size, packet_id_kill, crypto_reserved_packets,
  lossy_range_start, lossy_range_size, bytes_of,
}
use insert_project_name_here.NetCrypto.Connection.Send.{decrypt_data_symmetric, send_kill_packet}

-- DATA_NUM_THRESHOLD and DEFAULT_TCP_PING_CONNECTION
abbrev pub data_num_threshold : ℕ
data_num_threshold = 21845

abbrev pub default_tcp_ping_connection : ℕ
default_tcp_ping_connection = 500

-- The nonce of a packet, and how far it is ahead of the expected one.
unfoldable pub nonce_ahead : CryptoConnection → List ℕ → ℕ
unfolding get_nonce_uint16
nonce_ahead conn packet =
    u16 (of_be 0 (take 2 (drop 1 packet)) + 2 ^ 16 - get_nonce_uint16 conn.recv_nonce)

-- The loop that skips padding; nothing is left if there was only padding.
unfoldable pub skip_padding : List ℕ → List ℕ
skip_padding [] = []
skip_padding (b ∷ bs) = let rest = skip_padding bs in if b == 0 then rest else b ∷ bs

unfoldable pub clear_temp_packet : CryptoConnection → CryptoConnection
clear_temp_packet conn = record conn { temp_packet = none }

abbrev pub empty_array : PacketsArray
empty_array = record { buffer = λ _. none; buffer_start = 0; buffer_end = 0 }

-- `wipe_crypto_connection`: every field is zero.
unfoldable pub wipe_crypto_connection : CryptoConnection → CryptoConnection
wipe_crypto_connection conn = record conn {
  status = no_connection;
  shared_key = [];
  sent_nonce = [];
  recv_nonce = [];
  temp_packet = none;
  send_array = empty_array;
  recv_array = empty_array;
  packet_counter = 0;
  packets_left = 0;
  packets_left_requested = 0;
  packets_sent = 0;
  rtt_time = 0;
  maximum_speed_reached = false;
}

-- The first packet that is decrypted confirms the connection.
unfoldable pub confirm : ConnStatus → CryptoConnection → CryptoConnection
unfolding clear_temp_packet
confirm not_confirmed conn = record (clear_temp_packet conn) { status = established }
confirm _ conn = conn

-- The time stamp of the first packet that was not acknowledged before, or 0.
unfoldable pub first_sent_time : PacketsArray → ℕ
unfolding get_data_pointer
first_sent_time a = elim (get_data_pointer a a.buffer_start) [ found d ↦ d.sent_time | _ ↦ 0 ]

-- The peer has received all packets before `buffer_start`. `none` is the return of -1.
unfoldable pub acknowledge : CryptoConnection → ℕ → Option (CryptoConnection × ℕ)
unfolding clear_buffer_until first_sent_time
acknowledge conn buffer_start =
    if buffer_start == conn.send_array.buffer_start
    then some (conn, 0)
    else let (a, done) = clear_buffer_until conn.send_array buffer_start in
      if done then some (record conn { send_array = a }, first_sent_time conn.send_array) else none

-- `while (1)`: packets are read and handed on until there is a hole. The packet number is an `int`, in
-- which 2 ^ 32 - 1 is -1.
unfoldable pub hand_on : ℕ → CryptoConnection → CryptoConnection
unfolding read_data_beg_buffer
hand_on zero conn = conn
hand_on (suc rounds) conn =
    let (a, packet) = read_data_beg_buffer conn.recv_array in
    elim packet [
      | none ↦ conn
      | some (id, d) ↦
          if id == 2 ^ 32 - 1
          then record conn { recv_array = a }
          else hand_on rounds
              (record conn { recv_array = a; handed = conn.handed ++ (bytes_of d ∷ []) })
    ]

-- A lossless packet. `sent_time` is not set by the source; the stamp of a received packet is not used.
unfoldable pub take_lossless : Bool → CryptoConnection → ℕ → List ℕ → CryptoConnection × Bool
unfolding add_data_to_buffer hand_on num_packets_array
take_lossless malloc conn num bytes =
    let (a, done) =
      add_data_to_buffer malloc conn.recv_array num
        (record { sent_time = 0; len = length bytes; payload = bytes }) in
    if done
    then (let c = hand_on (num_packets_array a) (record conn { recv_array = a }) in
        (record c { packet_counter = u32 (c.packet_counter + 1) }, true))
    else (conn, false)

-- The shortest time that a packet took.
unfoldable pub note_rtt : ℕ → ℕ → CryptoConnection → CryptoConnection
note_rtt now rtt_calc_time conn =
    if rtt_calc_time == 0
    then conn
    else if ltb (u64 (now + 2 ^ 64 - rtt_calc_time)) conn.rtt_time
    then record conn { rtt_time = u64 (now + 2 ^ 64 - rtt_calc_time) }
    else conn

-- A request for lost packets.
unfoldable pub take_request : Bool → ℕ → CryptoConnection → ℕ → List ℕ → ℕ → CryptoConnection × Bool
unfolding handle_request_packet set_buffer_end note_rtt
take_request udp now conn num bytes rtt_calc_time =
    let rtt_time = if udp then conn.rtt_time else default_tcp_ping_connection in
    let (a, calc, requested) =
      handle_request_packet now rtt_time conn.send_array bytes rtt_calc_time in
    elim requested [
      | none ↦ (record conn { send_array = a }, false)
      | some _ ↦ (
        note_rtt now calc
            (record conn { send_array = a; recv_array = (set_buffer_end conn.recv_array num).0 }),
        true,
      )
    ]

module _ (box : CryptoBox) where
  -- The plain text, or `none` for -1.
  unfoldable pub handle_data_packet : CryptoConnection → List ℕ → CryptoConnection × Option (List ℕ)
  unfolding nonce_ahead increment_nonce_number decrypt_data_symmetric
  handle_data_packet conn packet =
      if leb (length packet) (3 + box.mac_bytes) || ltb max_crypto_packet_size (length packet)
      then (conn, none)
      else if not (is_live conn.status)
      then (conn, none)
      else elim (decrypt_data_symmetric box conn.shared_key
          (increment_nonce_number conn.recv_nonce (nonce_ahead conn packet)) (drop 3 packet)) [
            | none ↦ (conn, none)
            | some plain ↦ (
              if ltb (data_num_threshold + data_num_threshold) (nonce_ahead conn packet)
                  then record conn {
                    recv_nonce = increment_nonce_number conn.recv_nonce data_num_threshold;
                  }
                  else conn,
              some plain,
            )
          ]

  -- `connection_kill` and `crypto_kill`.
  unfoldable pub connection_kill : Bool → CryptoConnection → CryptoConnection
  unfolding send_kill_packet wipe_crypto_connection
  connection_kill sent conn =
      if not (is_live conn.status)
      then conn
      else wipe_crypto_connection
          (if is_established conn.status then (send_kill_packet box sent conn).0 else conn)

  -- The data behind the padding, by its first byte.
  unfoldable pub by_first_byte :
      Bool → Bool → Bool → ℕ → CryptoConnection → ℕ → ℕ → List ℕ → CryptoConnection × Bool
  unfolding confirm connection_kill take_request take_lossless set_buffer_end note_rtt
  by_first_byte sent malloc udp now conn num rtt_calc_time [] = (conn, false)
  by_first_byte sent malloc udp now conn num rtt_calc_time (b ∷ bs) =
      let c = confirm conn.status conn in
      if b == packet_id_kill
      then (connection_kill sent conn, true)
      else if b == packet_id_request
      then take_request udp now c num (b ∷ bs) rtt_calc_time
      else if leb crypto_reserved_packets b && ltb b lossy_range_start
      then (let (c', done) = take_lossless malloc c num (b ∷ bs) in
          if done then (note_rtt now rtt_calc_time c', true) else (c', false))
      else if leb lossy_range_start b && ltb b (lossy_range_start + lossy_range_size)
      then (
        note_rtt now rtt_calc_time (record c { recv_array = (set_buffer_end c.recv_array num).0 }),
        true,
      )
      else (c, false)

  -- What is done with a plain text.
  unfoldable pub handle_plain :
      Bool → Bool → Bool → ℕ → CryptoConnection → List ℕ → CryptoConnection × Bool
  unfolding acknowledge skip_padding by_first_byte
  handle_plain sent malloc udp now conn plain =
      if leb (length plain) 8
      then (conn, false)
      else elim (acknowledge conn (of_be 0 (take 4 plain))) [
        | none ↦ (conn, false)
        | some (c, rtt_calc_time) ↦
            by_first_byte sent malloc udp now c (of_be 0 (take 4 (drop 4 plain))) rtt_calc_time
              (skip_padding (drop 8 plain))
      ]

  -- The connection, and whether the call returned 0. `sent` says what `send_packet_to` gives for the
  -- kill packet.
  unfoldable pub handle_data_packet_helper :
      Bool → Bool → Bool → ℕ → CryptoConnection → List ℕ → CryptoConnection × Bool
  unfolding handle_data_packet handle_plain
  handle_data_packet_helper sent malloc udp now conn packet =
      if ltb max_crypto_packet_size (length packet) || leb (length packet) (11 + box.mac_bytes)
      then (conn, false)
      else let (c, plain) = handle_data_packet conn packet in
        elim plain [ none ↦ (c, false) | some bytes ↦ handle_plain sent malloc udp now c bytes ]
