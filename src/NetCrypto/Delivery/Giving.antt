-- ===== src/NetCrypto/Delivery/Giving.antt =====
-- toxcore/net_crypto.c: what the peer that gives lossless packets does with the data packets it gets.
use insert_project_name_here.Base.{
  ℕ, zero, suc, ◌+◌, ◌-◌, ◌^◌, ◌≤◌, ◌≡◌, refl, sym, ◌∙◌, Bool, true, false, not, Bool-cases, inl,
  inr, Option-cases, some, List, [], ◌∷◌, arith, length, take, of_be, ltb, leb, ◌==◌, if◌then◌else◌,
  ◌||◌, ◌&&◌, if_elim, if_fst, u64,
}
use insert_project_name_here.NetCrypto.PacketsArray.{
  PacketsArray, set_buffer_end, clear_buffer_until, add_data_to_buffer, num_packets_array,
  read_data_beg_buffer,
}
use insert_project_name_here.NetCrypto.Request.{handle_request_packet}
use insert_project_name_here.NetCrypto.Connection.{
  CryptoBox, CryptoConnection, ConnStatus, no_connection, cookie_requesting, handshake_sent,
  not_confirmed, established, is_live, is_established,
}
use insert_project_name_here.NetCrypto.Connection.Send.{
  send_kill_packet, send_request_packet, send_lossy_cryptpacket, send_requested_packets,
}
use insert_project_name_here.NetCrypto.Connection.Receive.{
  confirm, note_rtt, take_request, take_lossless, hand_on, acknowledge, by_first_byte,
  connection_kill, handle_plain, handle_data_packet, handle_data_packet_helper,
  wipe_crypto_connection,
}
use insert_project_name_here.NetCrypto.Delivery.Wire.{
  ack_of, number_of, body_of, Genuine, handle_data_packet-elim, handle_data_packet-live,
}
use insert_project_name_here.NetCrypto.Delivery.Sender.{
  IsSender, clear_buffer_until-IsSender, handle_request_packet-IsSender,
}
use insert_project_name_here.NetCrypto.Delivery.Sending.{
  Sends, send_kill_packet-Sends, send_request_packet-Sends, send_lossy_cryptpacket-Sends,
  send_requested_packets-Sends,
}
use insert_project_name_here.NetCrypto.Delivery.Giver.{
  IsGiver, IsGiver-same, Sends-IsGiver, control-Genuine, stored-Genuine, stamped-IsSender,
}

module _ (box : CryptoBox) (sent : List (List ℕ)) (acked : ℕ) (c : CryptoConnection)
    (l : is_live c.status ≡ true) (w : IsGiver sent acked c) where
  abbrev Given : CryptoConnection → Type 0
  Given c' = Sends (Genuine sent) (IsSender sent acked) c.recv_array c.handed c.status c'

  start_giving : Given c
  start_giving = record {
    texts = w.texts;
    array = w.sender l;
    recv = refl;
    handed_is = refl;
    status_is = refl;
  }

  send_kill_packet-Given : (ok : Bool) → Given (send_kill_packet box ok c).0
  send_kill_packet-Given ok =
      send_kill_packet-Sends box (Genuine sent) (IsSender sent acked) c.recv_array c.handed c.status
        (control-Genuine box sent acked c.recv_array) (stored-Genuine box sent acked c.recv_array)
        (stamped-IsSender box sent acked c.recv_array) ok c start_giving

  pub send_lossy_cryptpacket-Given :
      (ok : Bool) (bytes : List ℕ) → IsGiver sent acked (send_lossy_cryptpacket box ok c bytes).0
  send_lossy_cryptpacket-Given ok bytes = Sends-IsGiver (
      send_lossy_cryptpacket-Sends box (Genuine sent) (IsSender sent acked) c.recv_array c.handed
        c.status (control-Genuine box sent acked c.recv_array)
        (stored-Genuine box sent acked c.recv_array) (stamped-IsSender box sent acked c.recv_array)
        ok c bytes start_giving)

  pub send_request_packet-Given : (ok : Bool) → IsGiver sent acked (send_request_packet box ok c).0
  send_request_packet-Given ok = Sends-IsGiver (
      send_request_packet-Sends box (Genuine sent) (IsSender sent acked) c.recv_array c.handed
        c.status (control-Genuine box sent acked c.recv_array)
        (stored-Genuine box sent acked c.recv_array) (stamped-IsSender box sent acked c.recv_array)
        ok c start_giving)

  pub send_requested_packets-Given :
      (ok : ℕ → Bool) (now max_num : ℕ)
      → IsGiver sent acked (send_requested_packets box ok now c max_num).0
  send_requested_packets-Given ok now max_num = Sends-IsGiver (
      send_requested_packets-Sends box (Genuine sent) (IsSender sent acked) c.recv_array c.handed
        c.status (control-Genuine box sent acked c.recv_array)
        (stored-Genuine box sent acked c.recv_array) (stamped-IsSender box sent acked c.recv_array)
        ok now c max_num start_giving)

  wiped-IsGiver :
      {c' : CryptoConnection} → Given c' → IsGiver sent acked (wipe_crypto_connection c')
  unfolding wipe_crypto_connection
  wiped-IsGiver {c'} s = record { sender = λ e. cc; texts = s.texts; close = w.close }

  pub connection_kill-IsGiver : (ok : Bool) → IsGiver sent acked (connection_kill box ok c)
  unfolding connection_kill
  connection_kill-IsGiver ok =
      if_elim (IsGiver sent acked) (not (is_live c.status)) c _ (λ _. w)
        (λ _. wiped-IsGiver (
          if_elim Given (is_established c.status) _ c (λ _. send_kill_packet-Given ok)
            (λ _. start_giving)))

module _ (sent : List (List ℕ)) (acked : ℕ) where
  abbrev G : CryptoConnection → Type 0
  G c = IsGiver sent acked c

  note_rtt-IsGiver : (now calc : ℕ) (c : CryptoConnection) → G c → G (note_rtt now calc c)
  unfolding note_rtt
  note_rtt-IsGiver now calc c w =
      if_elim G (calc == 0) c _ (λ _. w)
        (λ _.
          if_elim G (ltb (u64 (now + 2 ^ 64 - calc)) c.rtt_time) _ c
            (λ _. IsGiver-same refl refl refl w) (λ _. w))

  confirm-IsGiver :
      (st : ConnStatus) (c : CryptoConnection) → is_live c.status ≡ true → G c → G (confirm st c)
  unfolding confirm
  confirm-IsGiver no_connection c l w = w
  confirm-IsGiver cookie_requesting c l w = w
  confirm-IsGiver handshake_sent c l w = w
  confirm-IsGiver established c l w = w
  confirm-IsGiver not_confirmed c l w = IsGiver-same refl refl (sym l) w

  hand_on-IsGiver : (rounds : ℕ) (c : CryptoConnection) → G c → G (hand_on rounds c)
  unfolding hand_on
  hand_on-IsGiver zero c w = w
  hand_on-IsGiver (suc rounds) c w = elim (Option-cases (read_data_beg_buffer c.recv_array).1) [
    | inl e ↦ rw (e, hand_on) w
    | inr ((id, d), e) ↦
        rw (e, hand_on)
          (if_elim G (id == 2 ^ 32 - 1) _ _ (λ _. IsGiver-same refl refl refl w)
            (λ _. hand_on-IsGiver rounds _ (IsGiver-same {c = c} refl refl refl w)))
  ]

  take_lossless-IsGiver :
      (malloc : Bool) (c : CryptoConnection) (num : ℕ) (bytes : List ℕ)
      → G c
      → G (take_lossless malloc c num bytes).0
  unfolding take_lossless
  take_lossless-IsGiver malloc c num bytes w =
      let added =
        add_data_to_buffer malloc c.recv_array num
          (record { sent_time = 0; len = length bytes; payload = bytes }) in
      if_fst G added.1 _ (c, false)
        (λ _. IsGiver-same refl refl refl (
          hand_on-IsGiver (num_packets_array added.0) (record c { recv_array = added.0 })
            (IsGiver-same refl refl refl w)))
        (λ _. w)

  asked-IsGiver :
      (udp : Bool) (now : ℕ) (c : CryptoConnection) (bytes : List ℕ) (calc : ℕ) (r : PacketsArray)
      → G c
      → G (record c {
        send_array =
            (handle_request_packet now (if udp then c.rtt_time else 500) c.send_array bytes calc).0;
        recv_array = r;
      })
  asked-IsGiver udp now c bytes calc r w = record {
    sender = λ l.
        handle_request_packet-IsSender now (if udp then c.rtt_time else 500) calc bytes
          (w.sender l);
    texts = w.texts;
    close = w.close;
  }

  take_request-IsGiver :
      (udp : Bool) (now : ℕ) (c : CryptoConnection) (num : ℕ) (bytes : List ℕ) (calc : ℕ)
      → G c
      → G (take_request udp now c num bytes calc).0
  unfolding take_request
  take_request-IsGiver udp now c num bytes calc w =
      let handled =
        handle_request_packet now (if udp then c.rtt_time else 500) c.send_array bytes calc in
      elim (Option-cases handled.2) [
        | inl e ↦ rw (e, take_request) (asked-IsGiver udp now c bytes calc c.recv_array w)
        | inr (count, e) ↦
            rw (e, take_request)
              (note_rtt-IsGiver now handled.1 _
                (asked-IsGiver udp now c bytes calc (set_buffer_end c.recv_array num).0 w))
      ]

module _ (box : CryptoBox) (sent : List (List ℕ)) (acked : ℕ) (ok malloc udp : Bool) (now : ℕ) where
  by_first_byte-IsGiver :
      (c : CryptoConnection) (num calc : ℕ) (bytes : List ℕ)
      → is_live c.status ≡ true
      → IsGiver sent acked c
      → IsGiver sent acked (by_first_byte box ok malloc udp now c num calc bytes).0
  unfolding by_first_byte
  by_first_byte-IsGiver c num calc [] l w = w
  by_first_byte-IsGiver c num calc (b ∷ bs) l w =
      let v = confirm-IsGiver sent acked c.status c l w in
      let c' = confirm c.status c in
      if_fst (IsGiver sent acked) (b == 2) _ _
        (λ _. connection_kill-IsGiver box sent acked c l w ok)
        (λ _.
          if_fst (IsGiver sent acked) (b == 1) _ _
            (λ _. take_request-IsGiver sent acked udp now c' num (b ∷ bs) calc v)
            (λ _.
              if_fst (IsGiver sent acked) (leb 16 b && ltb b 192) _ _
                (λ _.
                  let taken = take_lossless-IsGiver sent acked malloc c' num (b ∷ bs) v in
                  if_fst (IsGiver sent acked) (take_lossless malloc c' num (b ∷ bs)).1 _ _
                    (λ _. note_rtt-IsGiver sent acked now calc _ taken) (λ _. taken))
                (λ _.
                  if_fst (IsGiver sent acked) (leb 192 b && ltb b 255) _ _
                    (λ _. note_rtt-IsGiver sent acked now calc _ (IsGiver-same refl refl refl v))
                    (λ _. v))))

  cleared-IsGiver :
      (c : CryptoConnection) (number : ℕ)
      → number ≤ acked
      → IsGiver sent acked c
      → IsGiver sent acked (record c { send_array = (clear_buffer_until c.send_array number).0 })
  cleared-IsGiver c number h w = record {
    sender = λ l. clear_buffer_until-IsSender number h (w.sender l);
    texts = w.texts;
    close = w.close;
  }

  acknowledge-IsGiver :
      (c : CryptoConnection) (number : ℕ) {c' : CryptoConnection} {calc : ℕ}
      → number ≤ acked
      → IsGiver sent acked c
      → acknowledge c number ≡ some (c', calc)
      → IsGiver sent acked c'
  unfolding acknowledge
  acknowledge-IsGiver c number {c'} {calc} h w e =
      elim (Bool-cases (number == c.send_array.buffer_start)) [
        | inl q ↦ let same : c ≡ c' = ground (arith, e, q) in rw same at w
        | inr q ↦
            let same : record c { send_array = (clear_buffer_until c.send_array number).0 } ≡ c' =
              ground (arith, e, q) in
            rw same at (cleared-IsGiver c number h w)
      ]

  acknowledge-live :
      (c : CryptoConnection) (number : ℕ) {c' : CryptoConnection} {calc : ℕ}
      → acknowledge c number ≡ some (c', calc)
      → is_live c'.status ≡ is_live c.status
  unfolding acknowledge
  acknowledge-live c number {c'} {calc} e = ground (arith, e)

  handle_plain-IsGiver :
      (c : CryptoConnection) (plain : List ℕ)
      → is_live c.status ≡ true
      → ack_of plain ≤ acked
      → IsGiver sent acked c
      → IsGiver sent acked (handle_plain box ok malloc udp now c plain).0
  unfolding handle_plain
  handle_plain-IsGiver c plain l h w =
      if_fst (IsGiver sent acked) (leb (length plain) 8) (c, false) _ (λ _. w)
        (λ _. elim (Option-cases (acknowledge c (of_be 0 (take 4 plain)))) [
          | inl e ↦ rw e w
          | inr ((c', calc), e) ↦ rw e (
              by_first_byte-IsGiver c' (number_of plain) calc (body_of plain)
                (acknowledge-live c (of_be 0 (take 4 plain)) e ∙ l)
                (acknowledge-IsGiver c (of_be 0 (take 4 plain)) h w e))
        ])

  -- A packet that acknowledges only what was handed on, if it decrypts, leaves a giver.
  pub handle_data_packet_helper-IsGiver :
      (c : CryptoConnection) (packet : List ℕ)
      → ((plain : List ℕ) → (handle_data_packet box c packet).1 ≡ some plain → ack_of plain ≤ acked)
      → IsGiver sent acked c
      → IsGiver sent acked (handle_data_packet_helper box ok malloc udp now c packet).0
  unfolding handle_data_packet_helper
  handle_data_packet_helper-IsGiver c packet acks w =
      if_fst (IsGiver sent acked)
        (ltb 1400 (length packet) || leb (length packet) (11 + box.mac_bytes)) (c, false) _ (λ _. w)
        (λ _. elim (Option-cases (handle_data_packet box c packet).1) [
          | inl e ↦ rw e (
              handle_data_packet-elim box (IsGiver sent acked) c packet w
                (λ n. IsGiver-same refl refl refl w))
          | inr (plain, e) ↦
              let l = handle_data_packet-live box c packet plain e in
              let h = acks plain e in
              rw e (
                handle_data_packet-elim box
                  (λ d. IsGiver sent acked (handle_plain box ok malloc udp now d plain).0) c packet
                  (handle_plain-IsGiver c plain l h w)
                  (λ n.
                    handle_plain-IsGiver (record c { recv_nonce = n }) plain l h
                      (IsGiver-same refl refl refl w)))
        ])
