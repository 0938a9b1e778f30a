-- ===== src/NetCrypto/Delivery/Taking.antt =====
-- toxcore/net_crypto.c: `handle_data_packet_helper` at the peer that takes lossless packets.
use insert_project_name_here.Base.{
  ℕ, ◌+◌, ◌-◌, ◌^◌, ◌≤◌, ◌<◌, ◌≡◌, refl, sym, Bool, true, false, inl, inr, Option-cases, some, List,
  [], ◌∷◌, arith, length, take, of_be, get_elem?, ltb, leb, ◌==◌, if◌then◌else◌, ◌||◌, ◌&&◌,
  if_elim, if_fst, u64, sub32,
}
use insert_project_name_here.NetCrypto.PacketsArray.{PacketsArray, buffer_size, set_buffer_end}
use insert_project_name_here.NetCrypto.Request.{handle_request_packet}
use insert_project_name_here.NetCrypto.Connection.{
  CryptoBox, CryptoConnection, ConnStatus, no_connection, cookie_requesting, handshake_sent,
  not_confirmed, established, is_live,
}
use insert_project_name_here.NetCrypto.Connection.Receive.{
  confirm, note_rtt, take_request, take_lossless, acknowledge, by_first_byte, handle_plain,
  handle_data_packet, handle_data_packet_helper,
}
use insert_project_name_here.NetCrypto.Delivery.Wire.{
  number_of, body_of, Genuine, handle_data_packet-elim, handle_data_packet-live,
}
use insert_project_name_here.NetCrypto.Delivery.Taker.{
  IsTaker, IsTaker-same, take_lossless-IsTaker, connection_kill-IsTaker,
}
use insert_project_name_here.NetCrypto.Delivery.Receiver.{IsReceiver}

note_rtt-IsTaker :
    {sent : List (List ℕ)} {least : ℕ} (now calc : ℕ) (c : CryptoConnection)
    → IsTaker sent least c
    → IsTaker sent least (note_rtt now calc c)
unfolding note_rtt
note_rtt-IsTaker {sent} {least} now calc c w =
    if_elim (IsTaker sent least) (calc == 0) c _ (λ _. w)
      (λ _.
        if_elim (IsTaker sent least) (ltb (u64 (now + 2 ^ 64 - calc)) c.rtt_time) _ c
          (λ _. IsTaker-same refl refl refl refl w) (λ _. w))

-- What holds of a live connection holds of it when it is confirmed.
record Live (sent : List (List ℕ)) (least : ℕ) (count : ℕ) (c : CryptoConnection) : Type 0 where
  taker : IsTaker sent least c
  live : is_live c.status ≡ true
  handed_is : length c.handed ≡ count

confirm-Live :
    {sent : List (List ℕ)} {least : ℕ} {count : ℕ} (st : ConnStatus) (c : CryptoConnection)
    → Live sent least count c
    → Live sent least count (confirm st c)
unfolding confirm
confirm-Live no_connection c w = w
confirm-Live cookie_requesting c w = w
confirm-Live handshake_sent c w = w
confirm-Live established c w = w
confirm-Live not_confirmed c w = record {
  taker = IsTaker-same refl refl refl (sym w.live) w.taker;
  live = refl;
  handed_is = w.handed_is;
}

set_buffer_end-same :
    (a : PacketsArray) (num : ℕ) {sent : List (List ℕ)} {count : ℕ}
    → IsReceiver sent count a
    → IsReceiver sent count (set_buffer_end a num).0
unfolding set_buffer_end
set_buffer_end-same a num {sent} {count} w =
    if_fst (IsReceiver sent count)
      (ltb buffer_size (sub32 num a.buffer_start) || ltb buffer_size (sub32 num a.buffer_end))
      (a, false) (record a { buffer_end = num }, true) (λ _. w)
      (λ _. record { start_is = w.start_is; slots = w.slots })

ended-IsTaker :
    {sent : List (List ℕ)} {least : ℕ} (num : ℕ) (c : CryptoConnection)
    → IsTaker sent least c
    → IsTaker sent least (record c { recv_array = (set_buffer_end c.recv_array num).0 })
ended-IsTaker num c w = record {
  receiver = λ l. set_buffer_end-same c.recv_array num (w.receiver l);
  in_order = w.in_order;
  grown = w.grown;
  inside = w.inside;
  acks = w.acks;
}

take_request-IsTaker :
    {sent : List (List ℕ)} {least : ℕ} (udp : Bool) (now : ℕ) (c : CryptoConnection) (num : ℕ)
    (bytes : List ℕ) (calc : ℕ)
    → IsTaker sent least c
    → IsTaker sent least (take_request udp now c num bytes calc).0
unfolding take_request
take_request-IsTaker {sent} {least} udp now c num bytes calc w =
    let handled =
      handle_request_packet now (if udp then c.rtt_time else 500) c.send_array bytes calc in
    elim (Option-cases handled.2) [
      | inl e ↦ rw (e, take_request) (IsTaker-same refl refl refl refl w)
      | inr (count, e) ↦
          rw (e, take_request)
            (note_rtt-IsTaker now handled.1 _ (
              IsTaker-same {c = record c { recv_array = (set_buffer_end c.recv_array num).0 }} refl
                refl refl refl (ended-IsTaker num c w)))
    ]

module _ (box : CryptoBox) (sent : List (List ℕ)) {least : ℕ}
    (word : length sent + buffer_size < 2 ^ 32) (ok malloc udp : Bool) (now : ℕ) where
  by_first_byte-IsTaker :
      (c : CryptoConnection) (num calc count : ℕ) (bytes : List ℕ)
      → length sent ≤ count + buffer_size
      → ((b : ℕ) (bs : List ℕ)
          → bytes ≡ b ∷ bs
          → 16 ≤ b
          → b < 192
          → get_elem? sent num ≡ some (b ∷ bs))
      → Live sent least count c
      → IsTaker sent least (by_first_byte box ok malloc udp now c num calc bytes).0
  unfolding by_first_byte
  by_first_byte-IsTaker c num calc count [] close genuine w = w.taker
  by_first_byte-IsTaker c num calc count (b ∷ bs) close genuine w =
      let v = confirm-Live c.status c w in
      let c' = confirm c.status c in
      if_fst (IsTaker sent least) (b == 2) _ _
        (λ _. connection_kill-IsTaker box sent c word w.live w.taker ok)
        (λ _.
          if_fst (IsTaker sent least) (b == 1) _ _
            (λ _. take_request-IsTaker udp now c' num (b ∷ bs) calc v.taker)
            (λ _.
              if_fst (IsTaker sent least) (leb 16 b && ltb b 192) _ _
                (λ q.
                  let taken =
                    take_lossless-IsTaker malloc c' num (b ∷ bs) word v.live
                      (omega (arith, v.handed_is))
                      (genuine b bs refl (ground (arith, q)) (ground (arith, q))) v.taker in
                  if_fst (IsTaker sent least) (take_lossless malloc c' num (b ∷ bs)).1 _ _
                    (λ _. note_rtt-IsTaker now calc _ taken) (λ _. taken))
                (λ _.
                  if_fst (IsTaker sent least) (leb 192 b && ltb b 255) _ _
                    (λ _. note_rtt-IsTaker now calc _ (ended-IsTaker num c' v.taker))
                    (λ _. v.taker))))

  -- `acknowledge` does not touch what a taker has.
  acknowledge-Live :
      (c : CryptoConnection) (number : ℕ) {c' : CryptoConnection} {calc : ℕ}
      → is_live c.status ≡ true
      → IsTaker sent least c
      → acknowledge c number ≡ some (c', calc)
      → Live sent least (length c.handed) c'
  unfolding acknowledge
  acknowledge-Live c number {c'} {calc} l w e = record {
    taker =
        IsTaker-same (ground (arith, e)) (ground (arith, e)) (ground (arith, e)) (ground (arith, e))
          w;
    live = ground (arith, e, l);
    handed_is = ground (arith, e);
  }

  handle_plain-IsTaker :
      (c : CryptoConnection) (plain : List ℕ)
      → is_live c.status ≡ true
      → length sent ≤ length c.handed + buffer_size
      → Genuine sent plain
      → IsTaker sent least c
      → IsTaker sent least (handle_plain box ok malloc udp now c plain).0
  unfolding handle_plain
  handle_plain-IsTaker c plain l close genuine w =
      if_fst (IsTaker sent least) (leb (length plain) 8) (c, false) _ (λ _. w)
        (λ _. elim (Option-cases (acknowledge c (of_be 0 (take 4 plain)))) [
          | inl e ↦ rw e w
          | inr ((c', calc), e) ↦ rw e (
              by_first_byte-IsTaker c' (number_of plain) calc (length c.handed) (body_of plain)
                close genuine (acknowledge-Live c (of_be 0 (take 4 plain)) l w e))
        ])

  -- A packet that decrypts to a genuine plain text, if to any, leaves a taker.
  pub handle_data_packet_helper-IsTaker :
      (c : CryptoConnection) (packet : List ℕ)
      → (is_live c.status ≡ true → length sent ≤ length c.handed + buffer_size)
      → ((plain : List ℕ) → (handle_data_packet box c packet).1 ≡ some plain → Genuine sent plain)
      → IsTaker sent least c
      → IsTaker sent least (handle_data_packet_helper box ok malloc udp now c packet).0
  unfolding handle_data_packet_helper
  handle_data_packet_helper-IsTaker c packet close genuine w =
      if_fst (IsTaker sent least)
        (ltb 1400 (length packet) || leb (length packet) (11 + box.mac_bytes)) (c, false) _ (λ _. w)
        (λ _. elim (Option-cases (handle_data_packet box c packet).1) [
          | inl e ↦ rw e (
              handle_data_packet-elim box (IsTaker sent least) c packet w
                (λ n. IsTaker-same refl refl refl refl w))
          | inr (plain, e) ↦
              let l = handle_data_packet-live box c packet plain e in
              let g = genuine plain e in
              rw e (
                handle_data_packet-elim box
                  (λ d. IsTaker sent least (handle_plain box ok malloc udp now d plain).0) c packet
                  (handle_plain-IsTaker c plain l (close l) g w)
                  (λ n.
                    handle_plain-IsTaker (record c { recv_nonce = n }) plain l (close l) g
                      (IsTaker-same refl refl refl refl w)))
        ])
