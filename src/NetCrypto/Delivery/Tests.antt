-- ===== src/NetCrypto/Delivery/Tests.antt =====
-- toxcore/net_crypto.c, toxcore/crypto_core.c: two peers and nonces on concrete data.
use insert_project_name_here.Base.{
  ℕ, ◌+◌, ◌%◌, ◌<◌, ◌^◌, ◌≡◌, refl, inl, true, false, Option, none, some, List, [], ◌∷◌, arith,
  length, take, replicate, get_elem?,
}
use insert_project_name_here.NetCrypto.PacketsArray.Window.{IsWindow}
use insert_project_name_here.NetCrypto.Connection.Room.{write_cryptpacket-free_slots}
use insert_project_name_here.NetCrypto.PacketsArray.{buffer_size}
use insert_project_name_here.NetCrypto.Nonce.{increment_nonce, increment_nonce_number}
use insert_project_name_here.NetCrypto.Nonce.Value.{
  nonce_value, weight, increment_nonce-value, increment_nonce_number-value,
}
use insert_project_name_here.NetCrypto.Connection.{
  CryptoBox, CryptoConnection, established, cryptpacket_received, crypto_num_free_sendqueue_slots,
}
use insert_project_name_here.NetCrypto.Connection.Send.{
  padded, data_packet, write_cryptpacket, send_lossless_packet, send_lossy_cryptpacket,
}
use insert_project_name_here.NetCrypto.Connection.Receive.{
  empty_array, handle_data_packet, handle_data_packet_helper,
}
use insert_project_name_here.NetCrypto.Delivery.Acts.{
  Event, write, arrive, lossy, act, accepted, WasSent,
}
use insert_project_name_here.NetCrypto.Delivery.Agree.{IsFresh}
use insert_project_name_here.NetCrypto.Delivery.Runs.{
  Run, start, by_giver, by_taker, Run-in_order, Run-cryptpacket_received,
}

-- A box with an authenticator of one byte.
abbrev open_box : List ℕ → Option (List ℕ)
open_box [] = none
open_box (b ∷ bs) = some bs

abbrev plain_box : CryptoBox
plain_box = record {
  mac_bytes = 1;
  afternm = λ key nonce plain. some (0 ∷ plain);
  open_afternm = λ key nonce encrypted. open_box encrypted;
}

abbrev opened : CryptoConnection
opened = record {
  status = established;
  shared_key = [];
  sent_nonce = replicate 24 0;
  recv_nonce = replicate 24 0;
  temp_packet = none;
  send_array = empty_array;
  recv_array = empty_array;
  packet_counter = 0;
  packets_left = 5;
  packets_left_requested = 5;
  packets_sent = 0;
  rtt_time = 1000;
  maximum_speed_reached = false;
  wire = [];
  handed = [];
}

opened-IsFresh : IsFresh opened
opened-IsFresh = record { no_sent = refl; no_received = refl; no_wire = refl; no_handed = refl }

abbrev word : List ℕ
word = 16 ∷ 7 ∷ []

abbrev writing : Event
writing = write true true true 40 word false

abbrev giver : CryptoConnection
giver = act plain_box writing opened

abbrev arrived : List ℕ → List ℕ
arrived plain = data_packet plain_box (replicate 24 0) (0 ∷ plain)

-- The packet that the giver has sent.
abbrev plain_text : List ℕ
plain_text = padded plain_box 0 0 word

abbrev arriving : Event
arriving = arrive true true true 50 (arrived plain_text)

abbrev taker : CryptoConnection
taker = act plain_box arriving opened

taken : taker.handed ≡ word ∷ []
unfolding act handle_data_packet_helper
taken = refl

giver_wire : giver.wire ≡ (plain_text, arrived plain_text) ∷ []
unfolding act write_cryptpacket send_lossless_packet
giver_wire = refl

decrypted : (handle_data_packet plain_box opened (arrived plain_text)).1 ≡ some plain_text
unfolding handle_data_packet padded
decrypted = refl

-- What was decrypted is the only packet that was sent.
only_sent :
    {wire : List (List ℕ × List ℕ)} {packet text : List ℕ} {o : Option (List ℕ)} (plain : List ℕ)
    → wire ≡ (text, packet) ∷ []
    → o ≡ some text
    → o ≡ some plain
    → WasSent plain wire
only_sent plain w d e = rw w (inl (cc (e, d)))

one_packet : Run plain_box opened opened (accepted plain_box writing opened []) giver taker
one_packet =
    by_taker arriving (by_giver writing start tt)
      (λ plain e. only_sent plain giver_wire decrypted e)

one_accepted : accepted plain_box writing opened [] ≡ word ∷ []
unfolding accepted write_cryptpacket send_lossless_packet
one_accepted = refl

few_accepted : length (accepted plain_box writing opened []) + 1 + buffer_size < 2 ^ 32
few_accepted = rw one_accepted (omega arith)

Run-in_order_example :
    taker.handed ≡ take (length taker.handed) (accepted plain_box writing opened [])
Run-in_order_example = Run-in_order opened-IsFresh opened-IsFresh one_packet few_accepted

-- The taker's next packet acknowledges it.
abbrev answering : Event
answering = lossy true (200 ∷ [])

abbrev answer_text : List ℕ
answer_text = padded plain_box 1 0 (200 ∷ [])

abbrev answered : Event
answered = arrive true true true 60 (arrived answer_text)

taker_wire : (act plain_box answering taker).wire ≡ (answer_text, arrived answer_text) ∷ []
unfolding act write_cryptpacket send_lossless_packet handle_data_packet_helper
    send_lossy_cryptpacket
taker_wire = refl

answer_decrypted : (handle_data_packet plain_box giver (arrived answer_text)).1 ≡ some answer_text
unfolding act write_cryptpacket send_lossless_packet handle_data_packet
answer_decrypted = refl

acknowledged : cryptpacket_received (act plain_box answered giver) 0 ≡ true
unfolding act write_cryptpacket send_lossless_packet handle_data_packet_helper cryptpacket_received
acknowledged = refl

answer_steps :
    Run plain_box opened opened
      (accepted plain_box writing opened [])
      (act plain_box answered giver)
      (act plain_box answering taker)
unfolding accepted
answer_steps =
    by_giver answered (by_taker answering one_packet tt)
      (λ plain e. only_sent plain taker_wire answer_decrypted e)

Run-cryptpacket_received_example :
    get_elem? (act plain_box answering taker).handed 0
    ≡ get_elem? (accepted plain_box writing opened []) 0
Run-cryptpacket_received_example =
    Run-cryptpacket_received 0 opened-IsFresh opened-IsFresh answer_steps few_accepted
      (rw one_accepted (omega arith)) acknowledged

increment_nonce-value_example :
    nonce_value (increment_nonce (1 ∷ 255 ∷ 255 ∷ [])) ≡ (131071 + 1) % 16777216
increment_nonce-value_example = increment_nonce-value (1 ∷ 255 ∷ 255 ∷ [])

increment_nonce_number-value_example :
    nonce_value (increment_nonce_number (0 ∷ 1 ∷ 255 ∷ 255 ∷ 255 ∷ []) 21845)
    ≡ (33554431 + 21845) % weight (0 ∷ 1 ∷ 255 ∷ 255 ∷ 255 ∷ [])
increment_nonce_number-value_example =
    increment_nonce_number-value (0 ∷ 1 ∷ 255 ∷ 255 ∷ 255 ∷ []) 21845 (omega arith) (omega arith)

empty_array-IsWindow : IsWindow empty_array
empty_array-IsWindow = record {
  start_word = omega arith;
  end_word = omega arith;
  fits = omega arith;
  inside = λ j h k. refl;
}

five_free : crypto_num_free_sendqueue_slots opened ≡ 5
unfolding crypto_num_free_sendqueue_slots
five_free = refl

write_cryptpacket-free_slots_example :
    (write_cryptpacket plain_box true true true 40 opened word true).1 ≡ some 0
write_cryptpacket-free_slots_example =
    write_cryptpacket-free_slots plain_box true 40 word true true opened empty_array-IsWindow
      (rw five_free (omega arith)) refl refl (omega arith) (omega arith) (omega arith)
