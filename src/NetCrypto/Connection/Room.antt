-- ===== src/NetCrypto/Connection/Room.antt =====
-- toxcore/net_crypto.c: `crypto_num_free_sendqueue_slots` and what `write_cryptpacket` then does.
use insert_project_name_here.Base.{
  ℕ, ◌+◌, ◌-◌, ◌≤◌, ◌<◌, ◌≡◌, refl, ap, ◌∙◌, Bool, true, false, not, ◌&&◌, ◌||◌, Option, none, some,
  List, [], ◌∷◌, arith, length, ltb, ◌==◌, if_elim, sub32,
}
use insert_project_name_here.NetCrypto.PacketsArray.{
  PacketData, PacketsArray, buffer_size, num_packets_array, add_data_end_of_buffer,
}
use insert_project_name_here.NetCrypto.PacketsArray.Window.{IsWindow}
use insert_project_name_here.NetCrypto.Connection.{
  CryptoBox, CryptoConnection, established, is_live, first_byte, count_packet, refuses_write,
  crypto_num_free_sendqueue_slots,
}
use insert_project_name_here.NetCrypto.Connection.Send.{
  reset_max_speed_reached, queue_added, send_queued, queue_packet, send_lossless_packet,
  write_cryptpacket, max_crypto_data_size,
}

count_packet-number :
    (congestion_control : Bool) (c : CryptoConnection) (number : Option ℕ)
    → (count_packet congestion_control c number).1 ≡ number
count_packet-number congestion_control c none = refl
count_packet-number congestion_control c (some number) = refl

add_data_end_of_buffer-number :
    (a : PacketsArray) (d : PacketData)
    → num_packets_array a < buffer_size
    → (add_data_end_of_buffer true a d).1 ≡ some a.buffer_end
unfolding add_data_end_of_buffer
add_data_end_of_buffer-number a d h = ground (arith, h)

first_byte-length : (bytes : List ℕ) → 16 ≤ first_byte bytes → 0 < length bytes
first_byte-length [] h = absurd (ground (arith, h))
first_byte-length (b ∷ bs) h = omega arith

free_slots-room :
    (c : CryptoConnection)
    → sub32 c.send_array.buffer_end c.send_array.buffer_start ≤ buffer_size
    → 0 < crypto_num_free_sendqueue_slots c
    → num_packets_array c.send_array < buffer_size
unfolding crypto_num_free_sendqueue_slots
free_slots-room c fits slots = ground (arith, fits, slots)

free_slots-left :
    (c : CryptoConnection)
    → sub32 c.send_array.buffer_end c.send_array.buffer_start ≤ buffer_size
    → 0 < crypto_num_free_sendqueue_slots c
    → 0 < c.packets_left
unfolding crypto_num_free_sendqueue_slots
free_slots-left c fits slots = ground (arith, fits, slots)

accepts :
    (c : CryptoConnection) (bytes : List ℕ) (congestion_control : Bool)
    → sub32 c.send_array.buffer_end c.send_array.buffer_start ≤ buffer_size
    → 0 < crypto_num_free_sendqueue_slots c
    → c.status ≡ established
    → 16 ≤ first_byte bytes
    → first_byte bytes < 192
    → refuses_write c bytes congestion_control ≡ true
    → ⊥
accepts c bytes congestion_control fits slots st lo hi e =
    ground (arith, e, st, lo, hi, first_byte-length bytes lo, free_slots-left c fits slots)

module _ (box : CryptoBox) (sent : Bool) (now : ℕ) (bytes : List ℕ)
    (congestion_control : Bool) where
  queue_added-number :
      (c : CryptoConnection) (a : PacketsArray) (number : Option ℕ)
      → (queue_added box sent now c bytes congestion_control a number).1 ≡ number
  unfolding queue_added send_queued
  queue_added-number c a none = refl
  queue_added-number c a (some number) =
      if_elim (λ (q : CryptoConnection × Option ℕ). q.1 ≡ some number)
        (not congestion_control && c.maximum_speed_reached) _ _ (λ _. refl) (λ _. refl)

  queue_packet-number :
      (c : CryptoConnection)
      → num_packets_array c.send_array < buffer_size
      → (queue_packet box sent true now c bytes congestion_control).1 ≡ some c.send_array.buffer_end
  unfolding queue_packet
  queue_packet-number c h =
      queue_added-number c _ _
      ∙ add_data_end_of_buffer-number c.send_array
          (record { sent_time = 0; len = length bytes; payload = bytes }) h

  -- Nothing is sent again before the packet.
  reset_max_speed_reached-same :
      (again : Bool) (c : CryptoConnection)
      → c.maximum_speed_reached ≡ false
      → (reset_max_speed_reached box again now c).0 ≡ c
  unfolding reset_max_speed_reached
  reset_max_speed_reached-same again c speed =
      if_elim (λ (q : CryptoConnection × Bool). q.0 ≡ c) (not (is_live c.status)) (c, false) _
        (λ _. refl)
        (λ _.
          if_elim (λ (q : CryptoConnection × Bool). q.0 ≡ c) c.maximum_speed_reached _ (c, true)
            (λ e. absurd (ground (arith, e, speed))) (λ _. refl))

  send_lossless_packet-number :
      (again : Bool) (c : CryptoConnection)
      → num_packets_array c.send_array < buffer_size
      → c.status ≡ established
      → c.maximum_speed_reached ≡ false
      → 0 < length bytes
      → length bytes ≤ max_crypto_data_size box
      → (send_lossless_packet box again sent true now c bytes congestion_control).1
        ≡ some c.send_array.buffer_end
  unfolding send_lossless_packet
  send_lossless_packet-number again c room st speed some_bytes few =
      let c' = (reset_max_speed_reached box again now c).0 in
      let same = reset_max_speed_reached-same again c speed in
      let given : CryptoConnection × Option ℕ → Type 0 = λ q. q.1 ≡ some c.send_array.buffer_end in
      if_elim given (length bytes == 0 || ltb (1400 - (11 + box.mac_bytes)) (length bytes))
        (c, none) _ (λ e. absurd (ground (arith, e, some_bytes, few)))
        (λ _.
          if_elim given (not (is_live c.status)) (c, none) _ (λ e. absurd (ground (arith, e, st)))
            (λ _.
              if_elim given (c'.maximum_speed_reached && congestion_control) (c', none) _
                (λ e. absurd (
                  ground
                    (arith, e, speed, ap (λ (d : CryptoConnection). d.maximum_speed_reached) same)))
                (λ _. rw same (queue_packet-number c room))))

  -- On an established connection whose send window is well formed and whose last packet was not
  -- held up, if `crypto_num_free_sendqueue_slots` is positive and `malloc` succeeds,
  -- `write_cryptpacket` accepts every packet that starts with a byte from 16 to 191 and is not
  -- longer than the largest size, with or without congestion control and whether or not it can be
  -- sent at once, and gives it the number that ends the window.
  pub write_cryptpacket-free_slots :
      (again : Bool) (c : CryptoConnection)
      → IsWindow c.send_array
      → 0 < crypto_num_free_sendqueue_slots c
      → c.status ≡ established
      → c.maximum_speed_reached ≡ false
      → 16 ≤ first_byte bytes
      → first_byte bytes < 192
      → length bytes ≤ max_crypto_data_size box
      → (write_cryptpacket box again sent true now c bytes congestion_control).1
        ≡ some c.send_array.buffer_end
  unfolding write_cryptpacket
  write_cryptpacket-free_slots again c w slots st speed lo hi few =
      let sending = send_lossless_packet box again sent true now c bytes congestion_control in
      if_elim (λ (q : CryptoConnection × Option ℕ). q.1 ≡ some c.send_array.buffer_end)
        (refuses_write c bytes congestion_control) (c, none)
        (count_packet congestion_control sending.0 sending.1)
        (λ e. absurd (accepts c bytes congestion_control w.fits slots st lo hi e))
        (λ _.
          count_packet-number congestion_control sending.0 sending.1
          ∙ send_lossless_packet-number again c (free_slots-room c w.fits slots) st speed
              (first_byte-length bytes lo) few)
