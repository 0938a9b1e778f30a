-- ===== src/NetCrypto/Delivery/Wire.antt =====
-- toxcore/net_crypto.c: the plain text of a data packet, as the peer reads it.
use insert_project_name_here.Base.{
  ℕ, zero, suc, ◌+◌, ◌^◌, ◌≤◌, ◌<◌, ◌≡◌, ◌≢◌, refl, true, not, ltb, leb, length, ◌||◌, if_elim,
  if_fst, Bool-cases, Option-cases, inl, inr, none, some, List, [], ◌∷◌, ◌++◌, arith, take, drop,
  replicate, get_elem?, of_be, of_be-be32,
}
use insert_project_name_here.NetCrypto.Nonce.{increment_nonce_number}
use insert_project_name_here.NetCrypto.Connection.{CryptoBox, CryptoConnection, is_live, first_byte}
use insert_project_name_here.NetCrypto.Connection.Send.{padded, decrypt_data_symmetric}
use insert_project_name_here.NetCrypto.Connection.Receive.{
  skip_padding, handle_data_packet, nonce_ahead, data_num_threshold,
}

-- The parts that `handle_plain` reads.
abbrev pub ack_of : List ℕ → ℕ
ack_of plain = of_be 0 (take 4 plain)

abbrev pub number_of : List ℕ → ℕ
number_of plain = of_be 0 (take 4 (drop 4 plain))

abbrev pub body_of : List ℕ → List ℕ
body_of plain = skip_padding (drop 8 plain)

-- A plain text whose data, if they are lossless, are the packet that was queued under its number.
abbrev pub Genuine : List (List ℕ) → List ℕ → Type 0
Genuine sent plain =
    (b : ℕ) (bs : List ℕ)
    → body_of plain ≡ b ∷ bs
    → 16 ≤ b
    → b < 192
    → get_elem? sent (number_of plain) ≡ some (b ∷ bs)

skip_padding-zeros :
    (k : ℕ) (bytes : List ℕ) → first_byte bytes ≢ 0 → skip_padding (replicate k 0 ++ bytes) ≡ bytes
unfolding skip_padding
skip_padding-zeros zero [] h = refl
skip_padding-zeros zero (b ∷ bs) h = ground arith
skip_padding-zeros (suc k) bytes h = skip_padding-zeros k bytes h

module _ (box : CryptoBox) (start num : ℕ) (bytes : List ℕ) where
  pub ack_of-padded : start < 2 ^ 32 → ack_of (padded box start num bytes) ≡ start
  unfolding padded
  ack_of-padded h = of_be-be32 start h

  pub number_of-padded : num < 2 ^ 32 → number_of (padded box start num bytes) ≡ num
  unfolding padded
  number_of-padded h = of_be-be32 num h

  pub body_of-padded : first_byte bytes ≢ 0 → body_of (padded box start num bytes) ≡ bytes
  unfolding padded
  body_of-padded h = skip_padding-zeros _ bytes h

-- Decryption changes at most the nonce of a connection.
pub handle_data_packet-elim :
    (box : CryptoBox) (P : CryptoConnection → Type 0) (c : CryptoConnection) (packet : List ℕ)
    → P c
    → ((nonce : List ℕ) → P (record c { recv_nonce = nonce }))
    → P (handle_data_packet box c packet).0
unfolding handle_data_packet
handle_data_packet-elim box P c packet p q =
    if_fst P (leb (length packet) (3 + box.mac_bytes) || ltb 1400 (length packet)) (c, none) _
      (λ _. p)
      (λ _.
        if_fst P (not (is_live c.status)) (c, none) _ (λ _. p)
          (λ _.
            elim (Option-cases (
              decrypt_data_symmetric box c.shared_key
                (increment_nonce_number c.recv_nonce (nonce_ahead c packet)) (drop 3 packet))) [
                  | inl e ↦ rw e p
                  | inr (plain, e) ↦ rw e (
                      if_elim P
                        (ltb (data_num_threshold + data_num_threshold) (nonce_ahead c packet)) _ c
                        (λ _. q (increment_nonce_number c.recv_nonce data_num_threshold)) (λ _. p))
                ]))

-- Only a live connection decrypts a packet.
pub handle_data_packet-live :
    (box : CryptoBox) (c : CryptoConnection) (packet plain : List ℕ)
    → (handle_data_packet box c packet).1 ≡ some plain
    → is_live c.status ≡ true
unfolding handle_data_packet
handle_data_packet-live box c packet plain e = elim (Bool-cases (is_live c.status)) [
  | inl l ↦ l
  | inr l ↦ ground (arith, l, e)
]
