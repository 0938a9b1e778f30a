-- ===== src/NetCrypto/Delivery/Taker.antt =====
-- toxcore/net_crypto.c: a peer that takes the lossless packets of another.
use native.Mathlib.Numerals.{add-one}
use insert_project_name_here.Base.{
  ℕ, zero, suc, ◌+◌, ◌-◌, ◌^◌, ◌≤◌, ◌<◌, ◌≡◌, inl, inr, refl, ap, sym, ◌∙◌, Bool, true, false, not,
  Option-cases, some, List, [], ◌∷◌, ◌++◌, arith, length, take, length-append, get_elem?, ◌==◌,
  if_elim, if_fst,
}
use insert_project_name_here.NetCrypto.PacketsArray.{
  PacketData, PacketsArray, buffer_size, add_data_to_buffer, read_data_beg_buffer,
  num_packets_array,
}
use insert_project_name_here.NetCrypto.Connection.{
  CryptoBox, CryptoConnection, bytes_of, is_live, is_established,
}
use insert_project_name_here.NetCrypto.Connection.Send.{padded, send_kill_packet}
use insert_project_name_here.NetCrypto.Connection.Receive.{
  hand_on, take_lossless, wipe_crypto_connection, connection_kill,
}
use insert_project_name_here.NetCrypto.Delivery.Wire.{ack_of, ack_of-padded}
use insert_project_name_here.NetCrypto.Delivery.Sending.{
  AllTexts, AllTexts-map, Sends, send_kill_packet-Sends,
}
use insert_project_name_here.NetCrypto.Delivery.Receiver.{
  IsReceiver, get_elem?-lt, take-suc, add_data_to_buffer-IsReceiver, read_data_beg_buffer-next,
}

-- The plain texts of a peer acknowledge at most `count` packets.
abbrev pub Acks : ℕ → List ℕ → Type 0
Acks count plain = ack_of plain ≤ count

-- A peer that has handed on the first packets of `sent`, and acknowledged no others.
-- Its window counts while it is live. It has handed on `least` packets at least.
pub record IsTaker (sent : List (List ℕ)) (least : ℕ) (c : CryptoConnection) : Type 0 where
  pub receiver : is_live c.status ≡ true → IsReceiver sent (length c.handed) c.recv_array
  pub in_order : c.handed ≡ take (length c.handed) sent
  pub grown : least ≤ length c.handed
  pub inside : length c.handed ≤ length sent
  pub acks : AllTexts (Acks (length c.handed)) c.wire

-- Nothing else of the connection matters.
pub IsTaker-same :
    {sent : List (List ℕ)} {least : ℕ} {c d : CryptoConnection}
    → d.recv_array ≡ c.recv_array
    → d.handed ≡ c.handed
    → d.wire ≡ c.wire
    → is_live d.status ≡ is_live c.status
    → IsTaker sent least c
    → IsTaker sent least d
IsTaker-same {sent} {least} {c} {d} e f g q w = record {
  receiver = λ l. rw (e, f) (w.receiver (sym q ∙ l));
  in_order = rw f w.in_order;
  grown = rw f w.grown;
  inside = rw f w.inside;
  acks = rw (f, g) w.acks;
}

next-IsTaker :
    {sent : List (List ℕ)} {least : ℕ} {c : CryptoConnection} {a : PacketsArray} (d : PacketData)
    → get_elem? sent (length c.handed) ≡ some (bytes_of d)
    → IsReceiver sent (length c.handed + 1) a
    → IsTaker sent least c
    → IsTaker sent least (record c { recv_array = a; handed = c.handed ++ (bytes_of d ∷ []) })
next-IsTaker {sent} {least} {c} {a} d e r w =
    let size : length (c.handed ++ (bytes_of d ∷ [])) ≡ suc (length c.handed) =
      omega (arith, length-append c.handed (bytes_of d ∷ [])) in
    let n = get_elem?-lt sent (length c.handed) e in
    record {
      receiver = λ _. rw size (rw (add-one (length c.handed)) at r);
      in_order = rw size (
          ap (λ (l : List (List ℕ)). l ++ (bytes_of d ∷ [])) w.in_order
          ∙ sym (take-suc sent (length c.handed) e));
      grown = omega (arith, size, w.grown);
      inside = omega (arith, size);
      acks =
          AllTexts-map (Acks (length c.handed)) (Acks (length (c.handed ++ (bytes_of d ∷ []))))
            c.wire (λ x h. omega (arith, size)) w.acks;
    }

pub hand_on-IsTaker :
    {sent : List (List ℕ)} {least : ℕ} (rounds : ℕ) (c : CryptoConnection)
    → length sent + buffer_size < 2 ^ 32
    → is_live c.status ≡ true
    → IsTaker sent least c
    → IsTaker sent least (hand_on rounds c)
unfolding hand_on
hand_on-IsTaker zero c word l w = w
hand_on-IsTaker {sent} {least} (suc rounds) c word l w =
    elim (Option-cases (read_data_beg_buffer c.recv_array).1) [
      | inl e ↦ rw (e, hand_on) w
      | inr ((id, d), e) ↦
          let next = read_data_beg_buffer-next word (w.receiver l) e in
          let n = get_elem?-lt sent (length c.handed) next.1 in
          let more : (id == 2 ^ 32 - 1) ≡ false = ground (arith, next.0) in
          rw (e, more, hand_on) (hand_on-IsTaker rounds _ word l (next-IsTaker d next.1 next.2 w))
    ]

pub take_lossless-IsTaker :
    {sent : List (List ℕ)} {least : ℕ} (malloc : Bool) (c : CryptoConnection) (num : ℕ)
    (bytes : List ℕ)
    → length sent + buffer_size < 2 ^ 32
    → is_live c.status ≡ true
    → length sent ≤ length c.handed + buffer_size
    → get_elem? sent num ≡ some bytes
    → IsTaker sent least c
    → IsTaker sent least (take_lossless malloc c num bytes).0
unfolding take_lossless
take_lossless-IsTaker {sent} {least} malloc c num bytes word l close e w =
    let added =
      add_data_to_buffer malloc c.recv_array num
        (record { sent_time = 0; len = length bytes; payload = bytes }) in
    let received : IsTaker sent least (record c { recv_array = added.0 }) = record {
      receiver = λ _.
          add_data_to_buffer-IsReceiver malloc num 0 bytes word close w.inside e (w.receiver l);
      in_order = w.in_order;
      grown = w.grown;
      inside = w.inside;
      acks = w.acks;
    } in
    if_fst (IsTaker sent least) added.1 _ (c, false)
      (λ _. IsTaker-same refl refl refl refl (
        hand_on-IsTaker (num_packets_array added.0) (record c { recv_array = added.0 }) word l
          received))
      (λ _. w)

module _ (box : CryptoBox) (sent : List (List ℕ)) {least : ℕ} (c : CryptoConnection)
    (word : length sent + buffer_size < 2 ^ 32) (l : is_live c.status ≡ true)
    (w : IsTaker sent least c) where
  -- What the peer sends acknowledges what it has handed on.
  pub padded-Acks :
      (num : ℕ) (bytes : List ℕ)
      → Acks (length c.handed) (padded box c.recv_array.buffer_start num bytes)
  padded-Acks num bytes =
      let r = w.receiver l in
      omega (
        arith,
        r.start_is,
        w.inside,
        ack_of-padded box c.recv_array.buffer_start num bytes (omega (arith, r.start_is, w.inside)),
      )

  abbrev pub Sent : CryptoConnection → Type 0
  Sent c' = Sends (Acks (length c.handed)) (λ _. Unit {0}) c.recv_array c.handed c.status c'

  pub start_sending : Sent c
  start_sending = record {
    texts = w.acks;
    array = tt;
    recv = refl;
    handed_is = refl;
    status_is = refl;
  }

  pub Sent-IsTaker : {c' : CryptoConnection} → Sent c' → IsTaker sent least c'
  Sent-IsTaker {c'} s = record {
    receiver = λ _. rw (s.recv, s.handed_is) (w.receiver l);
    in_order = rw s.handed_is w.in_order;
    grown = rw s.handed_is w.grown;
    inside = rw s.handed_is w.inside;
    acks = rw s.handed_is s.texts;
  }

  send_kill_packet-Sent : (ok : Bool) → Sent (send_kill_packet box ok c).0
  send_kill_packet-Sent ok =
      send_kill_packet-Sends box (Acks (length c.handed)) (λ _. Unit {0}) c.recv_array c.handed
        c.status (λ a bytes _ _. padded-Acks a.buffer_end bytes)
        (λ a number d _ _ _. padded-Acks number (bytes_of d)) (λ a number now _. tt) ok c
        start_sending

  wiped-IsTaker : {c' : CryptoConnection} → Sent c' → IsTaker sent least (wipe_crypto_connection c')
  unfolding wipe_crypto_connection
  wiped-IsTaker {c'} s = record {
    receiver = λ e. cc;
    in_order = rw s.handed_is w.in_order;
    grown = rw s.handed_is w.grown;
    inside = rw s.handed_is w.inside;
    acks = rw s.handed_is s.texts;
  }

  pub connection_kill-IsTaker : (ok : Bool) → IsTaker sent least (connection_kill box ok c)
  unfolding connection_kill
  connection_kill-IsTaker ok =
      if_elim (IsTaker sent least) (not (is_live c.status)) c _ (λ _. w)
        (λ _. wiped-IsTaker (
          if_elim Sent (is_established c.status) _ c (λ _. send_kill_packet-Sent ok)
            (λ _. start_sending)))
