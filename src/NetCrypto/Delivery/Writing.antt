-- ===== src/NetCrypto/Delivery/Writing.antt =====
-- toxcore/net_crypto.c: `write_cryptpacket` at the peer that gives packets, and at the one that takes them.
use insert_project_name_here.Base.{
  ℕ, ◌+◌, ◌-◌, ◌^◌, ◌<◌, ◌≡◌, refl, sym, ap, ◌∙◌, Bool, true, false, not, Option, none, some, List,
  arith, length, ltb, ◌==◌, ◌||◌, ◌&&◌, if_elim, if_fst,
}
use insert_project_name_here.NetCrypto.PacketsArray.{PacketsArray, buffer_size}
use insert_project_name_here.NetCrypto.Connection.{
  CryptoBox, CryptoConnection, ConnStatus, no_connection, cookie_requesting, handshake_sent,
  not_confirmed, established, is_live, is_established, bytes_of, count_packet, refuses_write,
}
use insert_project_name_here.NetCrypto.Connection.Send.{
  send_queued, queue_added, queue_packet, reset_max_speed_reached, send_lossless_packet,
  write_cryptpacket, send_first,
}
use insert_project_name_here.NetCrypto.Delivery.Sending.{
  reset_max_speed_reached-Sends, send_first-Sends,
}
use insert_project_name_here.NetCrypto.Delivery.Giver.{
  IsGiver, IsGiver-same, Sends-IsGiver, Queued, queued, send_lossless_packet-Queued,
}
use insert_project_name_here.NetCrypto.Delivery.Taker.{
  IsTaker, Acks, Sent, Sent-IsTaker, start_sending, padded-Acks,
}

-- What the test of the status says of it.
is_established-eq : (st : ConnStatus) → is_established st ≡ true → st ≡ established
is_established-eq no_connection e = absurd (cc e)
is_established-eq cookie_requesting e = absurd (cc e)
is_established-eq handshake_sent e = absurd (cc e)
is_established-eq not_confirmed e = absurd (cc e)
is_established-eq established e = refl

module _ (box : CryptoBox) (sent : List (List ℕ)) (acked : ℕ) (bytes : List ℕ)
    (word : length sent + 1 + buffer_size < 2 ^ 32) where
  -- What a call of `write_cryptpacket` leaves.
  abbrev pub Written : CryptoConnection → CryptoConnection × Option ℕ → Type 0
  Written c q =
      IsGiver (queued sent bytes q.1) acked q.0
      × (q.0.recv_array ≡ c.recv_array)
      × (q.0.handed ≡ c.handed)
      × (is_live q.0.status ≡ is_live c.status)

  counted :
      (c : CryptoConnection) (congestion_control : Bool) (d : CryptoConnection) (number : Option ℕ)
      → c.status ≡ established
      → Queued sent acked c.recv_array c.handed bytes (d, number)
      → Written c (count_packet congestion_control d number)
  counted c congestion_control d none e w =
      (Sends-IsGiver w, w.recv, w.handed_is, ap is_live (w.status_is ∙ sym e))
  counted c true d (some number) e w = (
    IsGiver-same {c = d} refl refl refl (Sends-IsGiver w),
    w.recv,
    w.handed_is,
    ap is_live (w.status_is ∙ sym e),
  )
  counted c false d (some number) e w =
      (Sends-IsGiver w, w.recv, w.handed_is, ap is_live (w.status_is ∙ sym e))

  pub write_cryptpacket-Written :
      (again ok malloc : Bool) (now : ℕ) (c : CryptoConnection) (congestion_control : Bool)
      → IsGiver sent acked c
      → Written c (write_cryptpacket box again ok malloc now c bytes congestion_control)
  unfolding write_cryptpacket
  write_cryptpacket-Written again ok malloc now c congestion_control w =
      let sending = send_lossless_packet box again ok malloc now c bytes congestion_control in
      if_elim (Written c) (refuses_write c bytes congestion_control) (c, none)
        (count_packet congestion_control sending.0 sending.1) (λ _. (w, refl, refl, refl))
        (λ q.
          let st : c.status ≡ established = is_established-eq c.status (ground (arith, q)) in
          counted c congestion_control sending.0 sending.1 st (
            send_lossless_packet-Queued box sent acked c.recv_array c.handed bytes
              (ground (arith, q)) word again ok malloc now c congestion_control
              (record {
                texts = w.texts;
                array = w.sender (rw st refl);
                recv = refl;
                handed_is = refl;
                status_is = st;
              })))

module _ (box : CryptoBox) (sent : List (List ℕ)) {least : ℕ} (c : CryptoConnection)
    (few : length sent + buffer_size < 2 ^ 32) (l : is_live c.status ≡ true)
    (w : IsTaker sent least c) where
  abbrev Kept : CryptoConnection → Type 0
  Kept c' = Sent box sent c few l w c'

  send_first-Kept :
      (ok : Bool) (now : ℕ) (d : CryptoConnection) (number : ℕ) (bytes : List ℕ)
      → Kept d
      → Kept (send_first box ok now d number bytes)
  send_first-Kept ok now d number bytes =
      send_first-Sends box (Acks (length c.handed)) (λ _. Unit {0}) c.recv_array c.handed c.status
        (λ a b _ _. padded-Acks box sent c few l w a.buffer_end b)
        (λ a n e _ _ _. padded-Acks box sent c few l w n (bytes_of e)) (λ a n m _. tt) ok now d
        number bytes (padded-Acks box sent c few l w number bytes)

  array-Kept :
      (d : CryptoConnection) (a : PacketsArray) → Kept d → Kept (record d { send_array = a })
  array-Kept d a k = record {
    texts = k.texts;
    array = tt;
    recv = k.recv;
    handed_is = k.handed_is;
    status_is = k.status_is;
  }

  queue_added-Kept :
      (ok : Bool) (now : ℕ) (d : CryptoConnection) (bytes : List ℕ) (congestion_control : Bool)
      (a : PacketsArray) (number : Option ℕ)
      → Kept d
      → Kept (queue_added box ok now d bytes congestion_control a number).0
  unfolding queue_added send_queued
  queue_added-Kept ok now d bytes congestion_control a none k = array-Kept d a k
  queue_added-Kept ok now d bytes congestion_control a (some number) k =
      if_fst Kept (not congestion_control && d.maximum_speed_reached)
        (record d { send_array = a }, some number)
        (send_first box ok now (record d { send_array = a }) number bytes, some number)
        (λ _. array-Kept d a k)
        (λ _. send_first-Kept ok now (record d { send_array = a }) number bytes (array-Kept d a k))

  send_lossless_packet-Kept :
      (again ok malloc : Bool) (now : ℕ) (bytes : List ℕ) (congestion_control : Bool)
      → Kept (send_lossless_packet box again ok malloc now c bytes congestion_control).0
  unfolding send_lossless_packet queue_packet
  send_lossless_packet-Kept again ok malloc now bytes congestion_control =
      let k = start_sending box sent c few l w in
      let c' = (reset_max_speed_reached box again now c).0 in
      let k' =
        reset_max_speed_reached-Sends box (Acks (length c.handed)) (λ _. Unit {0}) c.recv_array
          c.handed c.status (λ a b _ _. padded-Acks box sent c few l w a.buffer_end b)
          (λ a n e _ _ _. padded-Acks box sent c few l w n (bytes_of e)) (λ a n m _. tt) again now c
          k in
      if_fst Kept (length bytes == 0 || ltb (1400 - (11 + box.mac_bytes)) (length bytes)) (c, none)
        _ (λ _. k)
        (λ _.
          if_fst Kept (not (is_live c.status)) (c, none) _ (λ _. k)
            (λ _.
              if_fst Kept (c'.maximum_speed_reached && congestion_control) (c', none) _ (λ _. k')
                (λ _. queue_added-Kept ok now c' bytes congestion_control _ _ k')))

  counted-Kept :
      (congestion_control : Bool) (d : CryptoConnection) (number : Option ℕ)
      → Kept d
      → Kept (count_packet congestion_control d number).0
  counted-Kept congestion_control d none k = k
  counted-Kept true d (some number) k = record {
    texts = k.texts;
    array = tt;
    recv = k.recv;
    handed_is = k.handed_is;
    status_is = k.status_is;
  }
  counted-Kept false d (some number) k = k

  pub write_cryptpacket-IsTaker :
      (again ok malloc : Bool) (now : ℕ) (bytes : List ℕ) (congestion_control : Bool)
      → IsTaker sent least (write_cryptpacket box again ok malloc now c bytes congestion_control).0
  unfolding write_cryptpacket
  write_cryptpacket-IsTaker again ok malloc now bytes congestion_control =
      let sending = send_lossless_packet box again ok malloc now c bytes congestion_control in
      if_fst (IsTaker sent least) (refuses_write c bytes congestion_control) (c, none)
        (count_packet congestion_control sending.0 sending.1) (λ _. w)
        (λ _. Sent-IsTaker box sent c few l w (
          counted-Kept congestion_control sending.0 sending.1
            (send_lossless_packet-Kept again ok malloc now bytes congestion_control)))
