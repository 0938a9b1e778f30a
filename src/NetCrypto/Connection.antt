-- ===== src/NetCrypto/Connection.antt =====
-- toxcore/net_crypto.c: the state of one crypto connection, and what is read off it.
pub mod Send
pub mod Receive
pub mod Room
use insert_project_name_here.Base.{
  ℕ, zero, suc, ◌+◌, ◌-◌, ◌%◌, Bool, true, false, not, ◌&&◌, ◌||◌, Option, none, some, List, [],
  ◌∷◌, ◌++◌, u32, sub32, ltb, leb, ◌==◌, if◌then◌else◌, length, take, drop, replicate, be32,
}
use insert_project_name_here.NetCrypto.PacketsArray.{
  PacketData, PacketsArray, buffer_size, store, num_packets_array, get_data_pointer, found, hole,
  outside, add_data_end_of_buffer,
}
use insert_project_name_here.NetCrypto.Nonce.{increment_nonce}
use insert_project_name_here.NetCrypto.Request.{generate_request_packet}

-- What the cryptographic library gives: crypto_box_MACBYTES, crypto_box_afternm and
-- crypto_box_open_afternm on a key, a nonce and bytes, without the padding of zeros.
pub record CryptoBox : Type 0 where
  pub mac_bytes : ℕ
  pub afternm : List ℕ → List ℕ → List ℕ → Option (List ℕ)
  pub open_afternm : List ℕ → List ℕ → List ℕ → Option (List ℕ)

-- CRYPTO_CONN_NO_CONNECTION to CRYPTO_CONN_ESTABLISHED
pub data ConnStatus : Type 0 where
  no_connection cookie_requesting handshake_sent not_confirmed established : ConnStatus

-- `Crypto_Connection`, without its addresses and the counters of its rates. `wire` holds what was
-- handed to `send_packet_to`, each packet with its plain text, and `handed` what the data callback was
-- called with, in order.
pub record CryptoConnection : Type 0 where
  pub status : ConnStatus
  pub shared_key : List ℕ
  pub sent_nonce : List ℕ
  pub recv_nonce : List ℕ
  pub temp_packet : Option (List ℕ)
  pub send_array : PacketsArray
  pub recv_array : PacketsArray
  pub packet_counter : ℕ  -- uint32_t
  pub packets_left : ℕ  -- uint32_t
  pub packets_left_requested : ℕ  -- uint32_t
  pub packets_sent : ℕ  -- uint32_t
  pub rtt_time : ℕ  -- uint64_t
  pub maximum_speed_reached : Bool
  pub wire : List (List ℕ × List ℕ)
  pub handed : List (List ℕ)

-- `get_crypto_connection` finds a connection unless its status is CRYPTO_CONN_NO_CONNECTION.
abbrev pub is_live : ConnStatus → Bool
is_live no_connection = false
is_live _ = true

abbrev pub is_established : ConnStatus → Bool
is_established established = true
is_established _ = false

-- MAX_CRYPTO_PACKET_SIZE, NET_PACKET_CRYPTO_DATA and CRYPTO_MAX_PADDING
abbrev pub max_crypto_packet_size : ℕ
max_crypto_packet_size = 1400

abbrev pub net_packet_crypto_data : ℕ
net_packet_crypto_data = 27

abbrev pub crypto_max_padding : ℕ
crypto_max_padding = 8

-- PACKET_ID_PADDING, PACKET_ID_KILL, CRYPTO_RESERVED_PACKETS, PACKET_ID_LOSSY_RANGE_START and
-- PACKET_ID_LOSSY_RANGE_SIZE
abbrev pub packet_id_padding : ℕ
packet_id_padding = 0

abbrev pub packet_id_kill : ℕ
packet_id_kill = 2

abbrev pub crypto_reserved_packets : ℕ
crypto_reserved_packets = 16

abbrev pub lossy_range_start : ℕ
lossy_range_start = 192

abbrev pub lossy_range_size : ℕ
lossy_range_size = 63

-- The bytes of a stored packet.
abbrev pub bytes_of : PacketData → List ℕ
bytes_of d = take d.len d.payload

abbrev pub first_byte : List ℕ → ℕ
first_byte [] = 0
first_byte (b ∷ bs) = b

-- A write of `sent_time` through the pointer that `get_data_pointer` gave for a number.
unfoldable pub set_sent_time : PacketsArray → ℕ → ℕ → PacketsArray
unfolding store
set_sent_time a number now = record a {
  buffer = store a.buffer (number % buffer_size) (elim (a.buffer (number % buffer_size)) [
    | none ↦ none
    | some d ↦ some (record d { sent_time = now })
  ]);
}

-- The counters after a packet was queued.
abbrev pub count_packet : Bool → CryptoConnection → Option ℕ → CryptoConnection × Option ℕ
count_packet congestion_control c none = (c, none)
count_packet congestion_control c (some number) = (
  if congestion_control
      then record c {
        packets_left = sub32 c.packets_left 1;
        packets_left_requested = sub32 c.packets_left_requested 1;
        packets_sent = u32 (c.packets_sent + 1);
      }
      else c,
  some number,
)

-- The early returns of `write_cryptpacket`.
abbrev pub refuses_write : CryptoConnection → List ℕ → Bool → Bool
refuses_write conn bytes congestion_control =
    length bytes == 0
    || (ltb (first_byte bytes) crypto_reserved_packets
        || (leb lossy_range_start (first_byte bytes)
            || (not (is_established conn.status)
                || (congestion_control && conn.packets_left == 0))))

-- Whether the peer has acknowledged a packet: the return of 0.
unfoldable pub cryptpacket_received : CryptoConnection → ℕ → Bool
cryptpacket_received conn packet_number =
    if is_live conn.status
    then ltb (sub32 conn.send_array.buffer_end conn.send_array.buffer_start)
        (sub32 packet_number conn.send_array.buffer_start)
    else false

-- The room in the send window, as far as the packets that are left allow.
unfoldable pub crypto_num_free_sendqueue_slots : CryptoConnection → ℕ
unfolding num_packets_array
crypto_num_free_sendqueue_slots conn =
    if is_live conn.status
    then (let max_packets = sub32 buffer_size (num_packets_array conn.send_array) in
        if ltb conn.packets_left max_packets then conn.packets_left else max_packets)
    else 0
