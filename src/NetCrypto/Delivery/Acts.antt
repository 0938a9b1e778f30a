-- ===== src/NetCrypto/Delivery/Acts.antt =====
-- toxcore/net_crypto.c: the calls that a peer of an open connection makes, one after the other.
use insert_project_name_here.Base.{
  ℕ, ◌+◌, ◌⊎◌, ◌^◌, ◌≤◌, ◌<◌, ◌≡◌, refl, ap, Bool, true, false, inl, inr, Option, none, some, List,
  [], ◌∷◌, arith, length, if_elim,
}
use insert_project_name_here.NetCrypto.PacketsArray.{buffer_size}
use insert_project_name_here.NetCrypto.Connection.{
  CryptoBox, CryptoConnection, ConnStatus, no_connection, cookie_requesting, handshake_sent,
  not_confirmed, established, is_established, refuses_write, is_live, bytes_of,
}
use insert_project_name_here.NetCrypto.Connection.Send.{
  send_request_packet, send_lossy_cryptpacket, send_requested_packets, write_cryptpacket,
}
use insert_project_name_here.NetCrypto.Connection.Receive.{
  connection_kill, handle_data_packet, handle_data_packet_helper,
}
use insert_project_name_here.NetCrypto.Delivery.Wire.{Genuine}
use insert_project_name_here.NetCrypto.Delivery.Sending.{
  AllTexts, send_request_packet-Sends, send_lossy_cryptpacket-Sends, send_requested_packets-Sends,
}
use insert_project_name_here.NetCrypto.Delivery.Giver.{IsGiver, queued}
use insert_project_name_here.NetCrypto.Delivery.Giving.{
  send_lossy_cryptpacket-Given, send_request_packet-Given, send_requested_packets-Given,
  connection_kill-IsGiver, handle_data_packet_helper-IsGiver,
}
use insert_project_name_here.NetCrypto.Delivery.Writing.{
  write_cryptpacket-Written, write_cryptpacket-IsTaker,
}
use insert_project_name_here.NetCrypto.Delivery.Taker.{
  IsTaker, Acks, Sent-IsTaker, start_sending, padded-Acks, connection_kill-IsTaker,
}
use insert_project_name_here.NetCrypto.Delivery.Taking.{handle_data_packet_helper-IsTaker}

-- A call, with what it is given by the clock, `malloc` and `send_packet_to`. `resend` is the call of
-- `send_crypto_packets`, and `arrive` that of a data packet from the network.
pub data Event : Type 0 where
  write : (again ok malloc : Bool) (now : ℕ) (bytes : List ℕ) (congestion_control : Bool) → Event
  lossy : (ok : Bool) (bytes : List ℕ) → Event
  request : (ok : Bool) → Event
  resend : (ok : ℕ → Bool) (now max_num : ℕ) → Event
  kill : (ok : Bool) → Event
  arrive : (ok malloc udp : Bool) (now : ℕ) (packet : List ℕ) → Event

-- A plain text that a peer has sent.
abbrev pub WasSent : List ℕ → List (List ℕ × List ℕ) → Type 0
WasSent plain [] = ⊥
WasSent plain (text ∷ wire) = (plain ≡ text.0) ⊎ WasSent plain wire

is_established-live : (st : ConnStatus) → is_live st ≡ false → is_established st ≡ false
is_established-live no_connection e = refl
is_established-live cookie_requesting e = refl
is_established-live handshake_sent e = refl
is_established-live not_confirmed e = refl
is_established-live established e = absurd (cc e)

WasSent-AllTexts :
    (P : List ℕ → Type 0) (plain : List ℕ) (wire : List (List ℕ × List ℕ))
    → WasSent plain wire
    → AllTexts P wire
    → P plain
WasSent-AllTexts P plain [] k h = absurd k
WasSent-AllTexts P plain (text ∷ wire) (inl e) h = rw e h.0
WasSent-AllTexts P plain (text ∷ wire) (inr k) h = WasSent-AllTexts P plain wire k h.1

module _ (box : CryptoBox) where
  -- The connection after a call.
  unfoldable pub act : Event → CryptoConnection → CryptoConnection
  act (write again ok malloc now bytes congestion_control) c =
      (write_cryptpacket box again ok malloc now c bytes congestion_control).0
  act (lossy ok bytes) c = (send_lossy_cryptpacket box ok c bytes).0
  act (request ok) c = (send_request_packet box ok c).0
  act (resend ok now max_num) c = (send_requested_packets box ok now c max_num).0
  act (kill ok) c = connection_kill box ok c
  act (arrive ok malloc udp now packet) c =
      (handle_data_packet_helper box ok malloc udp now c packet).0

  -- The lossless packets accepted until after a call.
  unfoldable pub accepted : Event → CryptoConnection → List (List ℕ) → List (List ℕ)
  accepted (write again ok malloc now bytes congestion_control) c sent =
      queued sent bytes (write_cryptpacket box again ok malloc now c bytes congestion_control).1
  accepted (lossy ok bytes) c sent = sent
  accepted (request ok) c sent = sent
  accepted (resend ok now max_num) c sent = sent
  accepted (kill ok) c sent = sent
  accepted (arrive ok malloc udp now packet) c sent = sent

  -- The encryption is authenticated: what a packet decrypts to was sent by the other peer.
  abbrev pub Authentic : Event → CryptoConnection → List (List ℕ × List ℕ) → Type 0
  Authentic (arrive ok malloc udp now packet) c wire =
      (plain : List ℕ) → (handle_data_packet box c packet).1 ≡ some plain → WasSent plain wire
  Authentic _ c wire = Unit

  -- A property of the plain text that a packet decrypts to.
  abbrev pub Arrives : (List ℕ → Type 0) → Event → CryptoConnection → Type 0
  Arrives P (arrive ok malloc udp now packet) c =
      (plain : List ℕ) → (handle_data_packet box c packet).1 ≡ some plain → P plain
  Arrives P _ c = Unit

  write_cryptpacket-closed :
      (again ok malloc : Bool) (now : ℕ) (bytes : List ℕ) (congestion_control : Bool)
      (c : CryptoConnection)
      → is_live c.status ≡ false
      → write_cryptpacket box again ok malloc now c bytes congestion_control ≡ (c, none)
  unfolding write_cryptpacket
  write_cryptpacket-closed again ok malloc now bytes congestion_control c l =
      if_elim (λ (q : CryptoConnection × Option ℕ). q ≡ (c, none))
        (refuses_write c bytes congestion_control) (c, none) _ (λ _. refl)
        (λ r. absurd (ground (arith, r, is_established-live c.status l)))

  -- On a connection that is not live, no call changes the connection, and no packet is accepted.
  pub act-closed :
      (e : Event) (c : CryptoConnection) (sent : List (List ℕ))
      → is_live c.status ≡ false
      → (act e c ≡ c) × (accepted e c sent ≡ sent)
  unfolding act accepted send_lossy_cryptpacket send_request_packet send_requested_packets
      connection_kill handle_data_packet_helper handle_data_packet
  act-closed (write again ok malloc now bytes congestion_control) c sent l =
      let closed = write_cryptpacket-closed again ok malloc now bytes congestion_control c l in
      (ap (λ q. q.0) closed, ap (λ q. queued sent bytes q.1) closed)
  act-closed (lossy ok bytes) c sent l = (ground arith, refl)
  act-closed (request ok) c sent l = (ground arith, refl)
  act-closed (resend ok now max_num) c sent l = (ground arith, refl)
  act-closed (kill ok) c sent l = (ground arith, refl)
  act-closed (arrive ok malloc udp now packet) c sent l = (ground arith, refl)

  pub act-IsGiver :
      (sent : List (List ℕ)) (acked : ℕ) (e : Event) (c : CryptoConnection)
      → length sent + 1 + buffer_size < 2 ^ 32
      → is_live c.status ≡ true
      → Arrives (Acks acked) e c
      → IsGiver sent acked c
      → IsGiver (accepted e c sent) acked (act e c)
  unfolding act accepted
  act-IsGiver sent acked (write again ok malloc now bytes congestion_control) c few l p w =
      (write_cryptpacket-Written box sent acked bytes few again ok malloc now c congestion_control
        w).0
  act-IsGiver sent acked (lossy ok bytes) c few l p w =
      send_lossy_cryptpacket-Given box sent acked c l w ok bytes
  act-IsGiver sent acked (request ok) c few l p w =
      send_request_packet-Given box sent acked c l w ok
  act-IsGiver sent acked (resend ok now max_num) c few l p w =
      send_requested_packets-Given box sent acked c l w ok now max_num
  act-IsGiver sent acked (kill ok) c few l p w = connection_kill-IsGiver box sent acked c l w ok
  act-IsGiver sent acked (arrive ok malloc udp now packet) c few l p w =
      handle_data_packet_helper-IsGiver box sent acked ok malloc udp now c packet p w

  pub act-IsTaker :
      (sent : List (List ℕ)) (least : ℕ) (e : Event) (c : CryptoConnection)
      → length sent + buffer_size < 2 ^ 32
      → is_live c.status ≡ true
      → length sent ≤ length c.handed + buffer_size
      → Arrives (Genuine sent) e c
      → IsTaker sent least c
      → IsTaker sent least (act e c)
  unfolding act
  act-IsTaker sent least (write again ok malloc now bytes congestion_control) c few l close p w =
      write_cryptpacket-IsTaker box sent c few l w again ok malloc now bytes congestion_control
  act-IsTaker sent least (lossy ok bytes) c few l close p w = Sent-IsTaker box sent c few l w (
      send_lossy_cryptpacket-Sends box (Acks (length c.handed)) (λ _. Unit {0}) c.recv_array
        c.handed c.status (λ a b _ _. padded-Acks box sent c few l w a.buffer_end b)
        (λ a n d _ _ _. padded-Acks box sent c few l w n (bytes_of d)) (λ a n m _. tt) ok c bytes
        (start_sending box sent c few l w))
  act-IsTaker sent least (request ok) c few l close p w = Sent-IsTaker box sent c few l w (
      send_request_packet-Sends box (Acks (length c.handed)) (λ _. Unit {0}) c.recv_array c.handed
        c.status (λ a b _ _. padded-Acks box sent c few l w a.buffer_end b)
        (λ a n d _ _ _. padded-Acks box sent c few l w n (bytes_of d)) (λ a n m _. tt) ok c
        (start_sending box sent c few l w))
  act-IsTaker sent least (resend ok now max_num) c few l close p w =
      Sent-IsTaker box sent c few l w (
        send_requested_packets-Sends box (Acks (length c.handed)) (λ _. Unit {0}) c.recv_array
          c.handed c.status (λ a b _ _. padded-Acks box sent c few l w a.buffer_end b)
          (λ a n d _ _ _. padded-Acks box sent c few l w n (bytes_of d)) (λ a n m _. tt) ok now c
          max_num (start_sending box sent c few l w))
  act-IsTaker sent least (kill ok) c few l close p w = connection_kill-IsTaker box sent c few l w ok
  act-IsTaker sent least (arrive ok malloc udp now packet) c few l close p w =
      handle_data_packet_helper-IsTaker box sent few ok malloc udp now c packet (λ _. close) p w

  -- A property of everything that a peer has sent holds of what arrives from it.
  pub Arrives-AllTexts :
      (P : List ℕ → Type 0) (e : Event) (c : CryptoConnection) (wire : List (List ℕ × List ℕ))
      → Authentic e c wire
      → AllTexts P wire
      → Arrives P e c
  Arrives-AllTexts P (write again ok malloc now bytes congestion_control) c wire a h = tt
  Arrives-AllTexts P (lossy ok bytes) c wire a h = tt
  Arrives-AllTexts P (request ok) c wire a h = tt
  Arrives-AllTexts P (resend ok now max_num) c wire a h = tt
  Arrives-AllTexts P (kill ok) c wire a h = tt
  Arrives-AllTexts P (arrive ok malloc udp now packet) c wire a h =
      λ plain e. WasSent-AllTexts P plain wire (a plain e) h
