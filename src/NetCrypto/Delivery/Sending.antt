-- ===== src/NetCrypto/Delivery/Sending.antt =====
-- toxcore/net_crypto.c: the functions that send data packets, for any property of the plain texts and
-- of the window that they keep.
use insert_project_name_here.Base.{
  ℕ, zero, suc, ◌+◌, ◌-◌, ◌^◌, ◌≤◌, ◌<◌, ◌≡◌, ◌⊎◌, inl, inr, refl, sym, Bool, true, false, not,
  ◌&&◌, ◌||◌, Bool-cases, Option-cases, none, some, List, [], ◌∷◌, arith, length, u32, sub32, ltb,
  leb, ◌==◌, if◌then◌else◌, if_elim,
}
use mathlib.Core.Path.{subst}
use insert_project_name_here.NetCrypto.PacketsArray.{
  PacketData, PacketsArray, Lookup, get_data_pointer, found, hole, outside, num_packets_array,
}
use insert_project_name_here.NetCrypto.Request.{generate_request_packet}
use insert_project_name_here.NetCrypto.Connection.{
  CryptoBox, CryptoConnection, ConnStatus, is_live, bytes_of, first_byte, set_sent_time,
  packet_id_kill,
}
use insert_project_name_here.NetCrypto.Connection.Send.{
  padded, encrypt_data_symmetric, send_data_packet, send_data_packet_helper, send_stored,
  retry_last, reset_max_speed_reached, send_lossy_cryptpacket, send_request_packet,
  send_kill_packet, send_requested, send_requested_packets, send_first,
}

-- A property of each plain text that was sent.
abbrev pub AllTexts : (List ℕ → Type 0) → List (List ℕ × List ℕ) → Type 0
AllTexts P [] = Unit
AllTexts P (text ∷ wire) = P text.0 × AllTexts P wire

pub AllTexts-map :
    (P Q : List ℕ → Type 0) (wire : List (List ℕ × List ℕ))
    → ((x : List ℕ) → P x → Q x)
    → AllTexts P wire
    → AllTexts Q wire
AllTexts-map P Q [] f h = tt
AllTexts-map P Q (text ∷ wire) f h = (f text.0 h.0, AllTexts-map P Q wire f h.1)

-- The first byte of a packet that is not lossless.
abbrev pub IsControl : List ℕ → Type 0
IsControl bytes = (first_byte bytes ≡ 1) ⊎ ((first_byte bytes ≡ 2) ⊎ (192 ≤ first_byte bytes))

request-IsControl :
    (room : ℕ) (a : PacketsArray) (bytes : List ℕ)
    → generate_request_packet room a ≡ some bytes
    → IsControl bytes
unfolding generate_request_packet
request-IsControl room a bytes e = inl (ground arith)

pub Lookup-cases : (l : Lookup) → ((d : PacketData) × (l ≡ found d)) ⊎ ((l ≡ hole) ⊎ (l ≡ outside))
Lookup-cases (found d) = inl (d, refl)
Lookup-cases hole = inr (inl refl)
Lookup-cases outside = inr (inr refl)

-- A connection whose plain texts and window have the properties, with what sending leaves alone.
pub record Sends (P : List ℕ → Type 0) (S : PacketsArray → Type 0) (r : PacketsArray)
    (h : List (List ℕ)) (st : ConnStatus) (c : CryptoConnection) : Type 0 where
  pub texts : AllTexts P c.wire
  pub array : S c.send_array
  pub recv : c.recv_array ≡ r
  pub handed_is : c.handed ≡ h
  pub status_is : c.status ≡ st

module _ (box : CryptoBox) (P : List ℕ → Type 0) (S : PacketsArray → Type 0) (r : PacketsArray)
    (h : List (List ℕ)) (st : ConnStatus)
    (control : (a : PacketsArray) (bytes : List ℕ)
      → S a
      → IsControl bytes
      → P (padded box r.buffer_start a.buffer_end bytes))
    (stored : (a : PacketsArray) (number : ℕ) (d : PacketData)
      → S a
      → number < 2 ^ 32
      → get_data_pointer a number ≡ found d
      → P (padded box r.buffer_start number (bytes_of d)))
    (stamped : (a : PacketsArray) (number now : ℕ) → S a → S (set_sent_time a number now)) where
  abbrev W : CryptoConnection → Type 0
  W c = Sends P S r h st c

  if-Sends {ℓ} :
      {X : Type ℓ} (b : Bool) (x y : CryptoConnection × X)
      → (b ≡ true → W x.0)
      → (b ≡ false → W y.0)
      → W (if b then x else y).0
  if-Sends true x y f g = f refl
  if-Sends false x y f g = g refl

  send_data_packet-Sends :
      (sent : Bool) (c : CryptoConnection) (plain : List ℕ)
      → P plain
      → Sends P S r h st c
      → Sends P S r h st (send_data_packet box sent c plain).0
  unfolding send_data_packet
  send_data_packet-Sends sent c plain p w =
      elim (Bool-cases (length plain == 0 || ltb 1400 (length plain + (3 + box.mac_bytes)))) [
        | inl e ↦ rw (e, send_data_packet) w
        | inr e ↦ elim (Bool-cases (not (is_live c.status))) [
          | inl q ↦ rw (e, q, send_data_packet) w
          | inr q ↦
              elim (Option-cases (encrypt_data_symmetric box c.shared_key c.sent_nonce plain)) [
                | inl n ↦ rw (e, q, n, send_data_packet) w
                | inr (cipher, n) ↦
                    rw (e, q, n, send_data_packet)
                      (record {
                        texts = (p, w.texts);
                        array = w.array;
                        recv = w.recv;
                        handed_is = w.handed_is;
                        status_is = w.status_is;
                      })
              ]
        ]
      ]

  pub send_data_packet_helper-Sends :
      (sent : Bool) (c : CryptoConnection) (number : ℕ) (bytes : List ℕ)
      → P (padded box r.buffer_start number bytes)
      → Sends P S r h st c
      → Sends P S r h st
          (send_data_packet_helper box sent c c.recv_array.buffer_start number bytes).0
  unfolding send_data_packet_helper
  send_data_packet_helper-Sends sent c number bytes p w =
      let p' : P (padded box c.recv_array.buffer_start number bytes) =
        subst (λ (q : PacketsArray). P (padded box q.buffer_start number bytes)) (sym w.recv) p in
      elim (Bool-cases (length bytes == 0 || ltb (1400 - (11 + box.mac_bytes)) (length bytes))) [
        | inl e ↦ rw (e, send_data_packet_helper) w
        | inr e ↦
            rw (e, send_data_packet_helper)
              (send_data_packet-Sends sent c (padded box c.recv_array.buffer_start number bytes) p'
                w)
      ]

  pub stamp-Sends :
      (c : CryptoConnection) (number now : ℕ)
      → Sends P S r h st c
      → Sends P S r h st (record c { send_array = set_sent_time c.send_array number now })
  stamp-Sends c number now w = record {
    texts = w.texts;
    array = stamped c.send_array number now w.array;
    recv = w.recv;
    handed_is = w.handed_is;
    status_is = w.status_is;
  }

  send_stored-Sends :
      (sent : Bool) (now : ℕ) (c : CryptoConnection) (number : ℕ) (d : PacketData)
      → number < 2 ^ 32
      → get_data_pointer c.send_array number ≡ found d
      → Sends P S r h st c
      → Sends P S r h st (send_stored box sent now c number d).0
  unfolding send_stored
  send_stored-Sends sent now c number d few e w =
      let w' =
        send_data_packet_helper-Sends sent c number (bytes_of d)
          (stored c.send_array number d w.array few e) w in
      elim (Bool-cases
        (send_data_packet_helper box sent c c.recv_array.buffer_start number (bytes_of d)).1) [
          | inl q ↦ rw (q, send_stored) (stamp-Sends _ number now w')
          | inr q ↦ rw (q, send_stored) w'
        ]

  pub flag-Sends :
      (c : CryptoConnection) (flag : Bool)
      → Sends P S r h st c
      → Sends P S r h st (record c { maximum_speed_reached = flag })
  flag-Sends c flag w = record {
    texts = w.texts;
    array = w.array;
    recv = w.recv;
    handed_is = w.handed_is;
    status_is = w.status_is;
  }

  retry_last-Sends :
      (sent : Bool) (now : ℕ) (c : CryptoConnection)
      → Sends P S r h st c
      → Sends P S r h st (retry_last box sent now c).0
  unfolding retry_last
  retry_last-Sends sent now c w =
      elim (Lookup-cases (get_data_pointer c.send_array (sub32 c.send_array.buffer_end 1))) [
        | inl (d, e) ↦ elim (Bool-cases (d.sent_time == 0)) [
          | inl q ↦
              rw (e, q, retry_last)
                (send_stored-Sends sent now c (sub32 c.send_array.buffer_end 1) d (omega arith) e w)
          | inr q ↦ rw (e, q, retry_last) w
        ]
        | inr (inl e) ↦ rw (e, retry_last) w
        | inr (inr e) ↦ rw (e, retry_last) w
      ]

  pub reset_max_speed_reached-Sends :
      (sent : Bool) (now : ℕ) (c : CryptoConnection)
      → Sends P S r h st c
      → Sends P S r h st (reset_max_speed_reached box sent now c).0
  unfolding reset_max_speed_reached
  reset_max_speed_reached-Sends sent now c w =
      let w' = retry_last-Sends sent now c w in
      if-Sends (not (is_live c.status)) _ _ (λ _. w)
        (λ _.
          if-Sends c.maximum_speed_reached _ _
            (λ _. if-Sends (retry_last box sent now c).1 _ _ (λ _. flag-Sends _ false w') (λ _. w'))
            (λ _. w))

  pub send_first-Sends :
      (ok : Bool) (now : ℕ) (c : CryptoConnection) (number : ℕ) (bytes : List ℕ)
      → P (padded box r.buffer_start number bytes)
      → Sends P S r h st c
      → Sends P S r h st (send_first box ok now c number bytes)
  unfolding send_first
  send_first-Sends ok now c number bytes p w =
      let helper = send_data_packet_helper box ok c c.recv_array.buffer_start number bytes in
      let w' = send_data_packet_helper-Sends ok c number bytes p w in
      if_elim W helper.1 _ _
        (λ _. elim (Lookup-cases (get_data_pointer helper.0.send_array number)) [
          | inl (d, e) ↦ rw e (stamp-Sends helper.0 number now w')
          | inr (inl e) ↦ rw e w'
          | inr (inr e) ↦ rw e w'
        ])
        (λ _. flag-Sends helper.0 true w')

  control-Sends :
      (sent : Bool) (c : CryptoConnection) (bytes : List ℕ)
      → IsControl bytes
      → Sends P S r h st c
      → Sends P S r h st
          (send_data_packet_helper box sent c c.recv_array.buffer_start c.send_array.buffer_end
            bytes).0
  control-Sends sent c bytes k w =
      send_data_packet_helper-Sends sent c c.send_array.buffer_end bytes
        (control c.send_array bytes w.array k) w

  pub send_kill_packet-Sends :
      (sent : Bool) (c : CryptoConnection)
      → Sends P S r h st c
      → Sends P S r h st (send_kill_packet box sent c).0
  unfolding send_kill_packet
  send_kill_packet-Sends sent c w =
      if-Sends (not (is_live c.status)) _ _ (λ _. w)
        (λ _. control-Sends sent c (packet_id_kill ∷ []) (inr (inl refl)) w)

  pub send_request_packet-Sends :
      (sent : Bool) (c : CryptoConnection)
      → Sends P S r h st c
      → Sends P S r h st (send_request_packet box sent c).0
  unfolding send_request_packet
  send_request_packet-Sends sent c w =
      if-Sends (not (is_live c.status)) _ _ (λ _. w)
        (λ _.
          elim (Option-cases (generate_request_packet (1400 - (11 + box.mac_bytes)) c.recv_array)) [
            | inl q ↦ rw q w
            | inr (bytes, q) ↦
                rw q (control-Sends sent c bytes (request-IsControl _ c.recv_array bytes q) w)
          ])

  pub send_lossy_cryptpacket-Sends :
      (sent : Bool) (c : CryptoConnection) (bytes : List ℕ)
      → Sends P S r h st c
      → Sends P S r h st (send_lossy_cryptpacket box sent c bytes).0
  unfolding send_lossy_cryptpacket
  send_lossy_cryptpacket-Sends sent c bytes w =
      if-Sends (length bytes == 0 || ltb (1400 - (11 + box.mac_bytes)) (length bytes)) _ _ (λ _. w)
        (λ _.
          if-Sends (ltb (first_byte bytes) 192) _ _ (λ _. w)
            (λ q.
              if-Sends (leb 255 (first_byte bytes)) _ _ (λ _. w)
                (λ _.
                  if-Sends (is_live c.status) _ _
                    (λ _. control-Sends sent c bytes (inr (inr (ground (arith, q)))) w) (λ _. w))))

  send_requested-Sends :
      (rounds : ℕ) (sent : ℕ → Bool) (now : ℕ) (c : CryptoConnection) (i num_sent max_num : ℕ)
      → Sends P S r h st c
      → Sends P S r h st (send_requested box rounds sent now c i num_sent max_num).0
  unfolding send_requested
  send_requested-Sends zero sent now c i num_sent max_num w = w
  send_requested-Sends (suc rounds) sent now c i num_sent max_num w =
      let number = u32 (i + c.send_array.buffer_start) in
      elim (Lookup-cases (get_data_pointer c.send_array number)) [
        | inr (inl e) ↦
            rw (e, send_requested)
              (send_requested-Sends rounds sent now c (i + 1) num_sent max_num w)
        | inr (inr e) ↦ rw (e, send_requested) w
        | inl (d, e) ↦
            let one =
              if d.sent_time == 0
              then send_stored box (sent number) now c number d
              else (c, false) in
            let count = if one.1 then num_sent + 1 else num_sent in
            let w' =
              if-Sends (d.sent_time == 0) (send_stored box (sent number) now c number d) (c, false)
                (λ _. send_stored-Sends (sent number) now c number d (omega arith) e w) (λ _. w) in
            rw (e, send_requested)
              (if-Sends (leb max_num count && d.sent_time == 0) (one.0, some count)
                (send_requested box rounds sent now one.0 (i + 1) count max_num) (λ _. w')
                (λ _. send_requested-Sends rounds sent now one.0 (i + 1) count max_num w'))
      ]

  pub send_requested_packets-Sends :
      (sent : ℕ → Bool) (now : ℕ) (c : CryptoConnection) (max_num : ℕ)
      → Sends P S r h st c
      → Sends P S r h st (send_requested_packets box sent now c max_num).0
  unfolding send_requested_packets
  send_requested_packets-Sends sent now c max_num w =
      if-Sends (max_num == 0) (c, none) _ (λ _. w)
        (λ _.
          if-Sends (is_live c.status) _ (c, none)
            (λ _. send_requested-Sends (num_packets_array c.send_array) sent now c 0 0 max_num w)
            (λ _. w))
