-- ===== src/NetCrypto/Delivery/Giver.antt =====
-- toxcore/net_crypto.c: a peer that gives lossless packets to another.
use insert_project_name_here.Base.{
  ℕ, ◌+◌, ◌-◌, ◌%◌, ◌^◌, ◌≤◌, ◌<◌, ◌≡◌, ◌≢◌, ◌⊎◌, inl, inr, refl, ap, sym, ◌∙◌, Bool, true, not,
  Bool-cases, Option, none, some, List, [], ◌∷◌, ◌++◌, arith, length, u32, get_elem?, sub32, ltb,
  leb, ◌==◌, ◌||◌, ◌&&◌, if_elim,
}
use insert_project_name_here.NetCrypto.PacketsArray.{
  PacketData, PacketsArray, buffer_size, store, add_data_end_of_buffer, num_packets_array,
  get_data_pointer, found,
}
use insert_project_name_here.NetCrypto.Connection.{
  CryptoBox, CryptoConnection, ConnStatus, established, bytes_of, first_byte, is_live,
  set_sent_time,
}
use insert_project_name_here.NetCrypto.Connection.Send.{
  padded, send_first, send_queued, queue_added, queue_packet, reset_max_speed_reached,
  send_lossless_packet,
}
use insert_project_name_here.NetCrypto.Delivery.Wire.{Genuine, number_of-padded, body_of-padded}
use insert_project_name_here.NetCrypto.Delivery.Sender.{
  IsSender, set_sent_time-IsSender, add_data_end_of_buffer-IsSender, get_data_pointer-Holds,
  get_elem?-append, get_elem?-end,
}
use insert_project_name_here.NetCrypto.Delivery.Sending.{
  AllTexts, AllTexts-map, Sends, IsControl, reset_max_speed_reached-Sends, send_first-Sends,
}

-- A peer whose window, while it is live, is that of a sender, and whose plain texts are genuine.
pub record IsGiver (sent : List (List ℕ)) (acked : ℕ) (c : CryptoConnection) : Type 0 where
  pub sender : is_live c.status ≡ true → IsSender sent acked c.send_array
  pub texts : AllTexts (Genuine sent) c.wire
  pub close : length sent ≤ acked + buffer_size

-- Nothing else of the connection matters.
pub IsGiver-same :
    {sent : List (List ℕ)} {acked : ℕ} {c d : CryptoConnection}
    → d.send_array ≡ c.send_array
    → d.wire ≡ c.wire
    → is_live d.status ≡ is_live c.status
    → IsGiver sent acked c
    → IsGiver sent acked d
IsGiver-same e f q w = record {
  sender = λ l. rw e (w.sender (sym q ∙ l));
  texts = rw f w.texts;
  close = w.close;
}

pub Sends-IsGiver :
    {sent : List (List ℕ)} {acked : ℕ} {r : PacketsArray} {h : List (List ℕ)} {st : ConnStatus}
    {c : CryptoConnection}
    → Sends (Genuine sent) (IsSender sent acked) r h st c
    → IsGiver sent acked c
Sends-IsGiver w = record {
  sender = λ _. w.array;
  texts = w.texts;
  close = omega (arith, w.array.start_le, w.array.few);
}

-- The rules of `Sends` for a giver.
module _ (box : CryptoBox) (sent : List (List ℕ)) (acked : ℕ) (r : PacketsArray) where
  pub control-Genuine :
      (a : PacketsArray) (bytes : List ℕ)
      → IsSender sent acked a
      → IsControl bytes
      → Genuine sent (padded box r.buffer_start a.buffer_end bytes)
  control-Genuine a bytes w k b bs e lo hi =
      let nonzero : first_byte bytes ≢ 0 = ground (arith, k) in
      let q : bytes ≡ b ∷ bs =
        sym (body_of-padded box r.buffer_start a.buffer_end bytes nonzero) ∙ e in
      absurd (ground (arith, k, ap first_byte q))

  lossless-Genuine :
      (number : ℕ) (bytes : List ℕ)
      → number < 2 ^ 32
      → 16 ≤ first_byte bytes
      → get_elem? sent number ≡ some bytes
      → Genuine sent (padded box r.buffer_start number bytes)
  lossless-Genuine number bytes few lo e b bs q lo' hi =
      let q' : bytes ≡ b ∷ bs =
        sym (body_of-padded box r.buffer_start number bytes (ground (arith, lo))) ∙ q in
      ap (λ n. get_elem? sent n) (number_of-padded box r.buffer_start number bytes few)
      ∙ (e ∙ ap some q')

  pub stored-Genuine :
      (a : PacketsArray) (number : ℕ) (d : PacketData)
      → IsSender sent acked a
      → number < 2 ^ 32
      → get_data_pointer a number ≡ found d
      → Genuine sent (padded box r.buffer_start number (bytes_of d))
  stored-Genuine a number d w few e =
      let held = get_data_pointer-Holds number few w e in
      lossless-Genuine number (bytes_of d) few held.1 held.0

  pub stamped-IsSender :
      (a : PacketsArray) (number now : ℕ)
      → IsSender sent acked a
      → IsSender sent acked (set_sent_time a number now)
  stamped-IsSender a number now w = set_sent_time-IsSender number now w

Genuine-append :
    (sent : List (List ℕ)) (x plain : List ℕ)
    → Genuine sent plain
    → Genuine (sent ++ (x ∷ [])) plain
Genuine-append sent x plain g b bs e lo hi = get_elem?-append sent (x ∷ []) _ (g b bs e lo hi)

add_cases :
    (malloc : Bool) (a : PacketsArray) (d : PacketData)
    → (((add_data_end_of_buffer malloc a d).1 ≡ none) × ((add_data_end_of_buffer malloc a d).0 ≡ a))
      ⊎ (((add_data_end_of_buffer malloc a d).1 ≡ some a.buffer_end)
          × ((add_data_end_of_buffer malloc a d).0 ≡ record a {
            buffer = store a.buffer (a.buffer_end % buffer_size) (some d);
            buffer_end = u32 (a.buffer_end + 1);
          })
          × (sub32 a.buffer_end a.buffer_start < buffer_size))
unfolding add_data_end_of_buffer num_packets_array
add_cases malloc a d = elim (Bool-cases (leb buffer_size (num_packets_array a))) [
  | inl e ↦ rw e (inl (refl, refl))
  | inr e ↦ elim (Bool-cases malloc) [
    | inl m ↦ rw (e, m) (inr (refl, refl, ground (arith, e)))
    | inr m ↦ rw (e, m) (inl (refl, refl))
  ]
]

-- The packets queued after a call that gave a number, or failed.
abbrev pub queued : List (List ℕ) → List ℕ → Option ℕ → List (List ℕ)
queued sent bytes none = sent
queued sent bytes (some _) = sent ++ (bytes ∷ [])

module _ (box : CryptoBox) (sent : List (List ℕ)) (acked : ℕ) (r : PacketsArray)
    (h : List (List ℕ)) where
  -- A giver that has sent packets, with what sending leaves alone.
  abbrev pub Gives : CryptoConnection → Type 0
  Gives c = Sends (Genuine sent) (IsSender sent acked) r h established c

  pub send_first-Gives :
      (ok : Bool) (now : ℕ) (c : CryptoConnection) (number : ℕ) (bytes : List ℕ)
      → Genuine sent (padded box r.buffer_start number bytes)
      → Gives c
      → Gives (send_first box ok now c number bytes)
  send_first-Gives =
      send_first-Sends box (Genuine sent) (IsSender sent acked) r h established
        (control-Genuine box sent acked r) (stored-Genuine box sent acked r)
        (stamped-IsSender box sent acked r)

-- What a call that queues a packet leaves.
abbrev pub Queued :
    (sent : List (List ℕ)) (acked : ℕ) (r : PacketsArray) (h : List (List ℕ)) (bytes : List ℕ)
    → CryptoConnection × Option ℕ
    → Type 0
Queued sent acked r h bytes q =
    Sends (Genuine (queued sent bytes q.1)) (IsSender (queued sent bytes q.1) acked) r h established
      q.0

module _ (box : CryptoBox) (sent : List (List ℕ)) (acked : ℕ) (r : PacketsArray) (h : List (List ℕ))
    (bytes : List ℕ) (lossless : 16 ≤ first_byte bytes)
    (word : length sent + 1 + buffer_size < 2 ^ 32) where
  send_queued-Queued :
      (ok : Bool) (now : ℕ) (c : CryptoConnection) (number : ℕ) (congestion_control : Bool)
      → Genuine (sent ++ (bytes ∷ [])) (padded box r.buffer_start number bytes)
      → Gives box (sent ++ (bytes ∷ [])) acked r h c
      → Queued sent acked r h bytes (send_queued box ok now c number bytes congestion_control)
  unfolding send_queued
  send_queued-Queued ok now c number congestion_control g w =
      if_elim (Queued sent acked r h bytes) (not congestion_control && c.maximum_speed_reached)
        (c, some number) (send_first box ok now c number bytes, some number) (λ _. w)
        (λ _. send_first-Gives box (sent ++ (bytes ∷ [])) acked r h ok now c number bytes g w)

  -- What `add_data_end_of_buffer` gives.
  abbrev Added : PacketsArray → PacketsArray → Option ℕ → Type 0
  Added old a none = a ≡ old
  Added old a (some number) = (number ≡ length sent) × IsSender (sent ++ (bytes ∷ [])) acked a

  add_data_end_of_buffer-Added :
      (malloc : Bool) (a : PacketsArray)
      → IsSender sent acked a
      → Added a
          (add_data_end_of_buffer malloc a
            (record { sent_time = 0; len = length bytes; payload = bytes })).0
          (add_data_end_of_buffer malloc a
            (record { sent_time = 0; len = length bytes; payload = bytes })).1
  add_data_end_of_buffer-Added malloc a s =
      elim (add_cases malloc a (record { sent_time = 0; len = length bytes; payload = bytes })) [
        | inl e ↦ rw (e.0, e.1) refl
        | inr e ↦
            let room : length sent < a.buffer_start + buffer_size =
              omega (arith, e.2, s.end_is, s.start_le, s.acked_le, s.few, s.word) in
            rw (e.0, e.1) (s.end_is, add_data_end_of_buffer-IsSender bytes 0 lossless room word s)
      ]

  queue_added-Queued :
      (ok : Bool) (now : ℕ) (c : CryptoConnection) (congestion_control : Bool) (a : PacketsArray)
      (number : Option ℕ)
      → Added c.send_array a number
      → Gives box sent acked r h c
      → Queued sent acked r h bytes (queue_added box ok now c bytes congestion_control a number)
  unfolding queue_added
  queue_added-Queued ok now c congestion_control a none e w = record {
    texts = w.texts;
    array = rw e w.array;
    recv = w.recv;
    handed_is = w.handed_is;
    status_is = w.status_is;
  }
  queue_added-Queued ok now c congestion_control a (some number) (n, s) w =
      send_queued-Queued ok now (record c { send_array = a }) number congestion_control
        (lossless-Genuine box (sent ++ (bytes ∷ [])) acked r number bytes (omega (arith, n))
          lossless (ap (λ i. get_elem? (sent ++ (bytes ∷ [])) i) n ∙ get_elem?-end sent bytes))
        (record {
          texts =
              AllTexts-map (Genuine sent) (Genuine (sent ++ (bytes ∷ []))) c.wire
                (Genuine-append sent bytes) w.texts;
          array = s;
          recv = w.recv;
          handed_is = w.handed_is;
          status_is = w.status_is;
        })

  queue_packet-Queued :
      (ok malloc : Bool) (now : ℕ) (c : CryptoConnection) (congestion_control : Bool)
      → Gives box sent acked r h c
      → Queued sent acked r h bytes (queue_packet box ok malloc now c bytes congestion_control)
  unfolding queue_packet
  queue_packet-Queued ok malloc now c congestion_control w =
      queue_added-Queued ok now c congestion_control _ _
        (add_data_end_of_buffer-Added malloc c.send_array w.array) w

  pub send_lossless_packet-Queued :
      (again ok malloc : Bool) (now : ℕ) (c : CryptoConnection) (congestion_control : Bool)
      → Gives box sent acked r h c
      → Queued sent acked r h bytes
          (send_lossless_packet box again ok malloc now c bytes congestion_control)
  unfolding send_lossless_packet
  send_lossless_packet-Queued again ok malloc now c congestion_control w =
      let c' = (reset_max_speed_reached box again now c).0 in
      let w' =
        reset_max_speed_reached-Sends box (Genuine sent) (IsSender sent acked) r h established
          (control-Genuine box sent acked r) (stored-Genuine box sent acked r)
          (stamped-IsSender box sent acked r) again now c w in
      if_elim (Queued sent acked r h bytes)
        (length bytes == 0 || ltb (1400 - (11 + box.mac_bytes)) (length bytes)) (c, none) _ (λ _. w)
        (λ _.
          if_elim (Queued sent acked r h bytes) (not (is_live c.status)) (c, none) _ (λ _. w)
            (λ _.
              if_elim (Queued sent acked r h bytes) (c'.maximum_speed_reached && congestion_control)
                (c', none) _ (λ _. w')
                (λ _. queue_packet-Queued ok malloc now c' congestion_control w')))
