-- ===== src/NetCrypto/Delivery/Runs.antt =====
-- toxcore/net_crypto.c: two peers with an open connection, and a network that loses, repeats and reorders
-- their packets. What one peer, the giver, queues is what the other, the taker, hands on.
use insert_project_name_here.Base.{
  ℕ, zero, suc, ◌+◌, ◌^◌, ◌<◌, ◌≡◌, inl, inr, refl, ap, ◌∙◌, true, List, [], ◌∷◌, arith, length,
  take, length-append, get_elem?,
}
use insert_project_name_here.NetCrypto.PacketsArray.{buffer_size}
use insert_project_name_here.NetCrypto.Connection.{
  CryptoBox, CryptoConnection, is_live, cryptpacket_received,
}
use insert_project_name_here.NetCrypto.Delivery.Agree.{
  IsFresh, Agree, start-Agree, by_giver-Agree, by_taker-Agree, accepted_cases,
}
use insert_project_name_here.NetCrypto.Delivery.Acts.{Event, act, accepted, Authentic}

-- The packets that the giver has accepted, the giver and the taker, after steps of either peer.
pub data Run (box : CryptoBox) (giver taker : CryptoConnection)
    : List (List ℕ) → CryptoConnection → CryptoConnection → Type 0 where
  start : Run box giver taker [] giver taker
  by_giver :
      {sent : List (List ℕ)} {g t : CryptoConnection} (e : Event)
      → Run box giver taker sent g t
      → Authentic box e g t.wire
      → Run box giver taker (accepted box e g sent) (act box e g) t
  by_taker :
      {sent : List (List ℕ)} {g t : CryptoConnection} (e : Event)
      → Run box giver taker sent g t
      → Authentic box e t g.wire
      → Run box giver taker sent g (act box e t)

get_elem?-take : (xs : List (List ℕ)) (k i : ℕ) → i < k → get_elem? (take k xs) i ≡ get_elem? xs i
get_elem?-take xs zero i h = absurd (ground (arith, h))
get_elem?-take [] (suc k) i h = refl
get_elem?-take (x ∷ xs) (suc k) zero h = refl
get_elem?-take (x ∷ xs) (suc k) (suc i) h = get_elem?-take xs k i (omega (arith, h))

Run-Agree :
    {box : CryptoBox} {giver taker : CryptoConnection} {sent : List (List ℕ)}
    {g t : CryptoConnection}
    → IsFresh giver
    → IsFresh taker
    → Run box giver taker sent g t
    → length sent + 1 + buffer_size < 2 ^ 32
    → Agree sent g t
Run-Agree fg ft start few = start-Agree fg ft
Run-Agree {box} fg ft (by_giver {sent} {g} {t} e r a) few =
    let few' : length sent + 1 + buffer_size < 2 ^ 32 = elim (accepted_cases box e g sent) [
      | inl q ↦ omega (arith, few, ap length q)
      | inr (x, q) ↦ omega (arith, few, ap length q, length-append sent (x ∷ []))
    ] in
    by_giver-Agree box e few' a (Run-Agree fg ft r few')
Run-Agree {box} fg ft (by_taker e r a) few = by_taker-Agree box e few a (Run-Agree fg ft r few)

-- Let two peers start with connections that were just opened and make any calls in any order
-- (writes, lossy packets, requests for lost packets, packets sent again, kills, and data packets
-- that arrive), where the network may lose, repeat and reorder packets and each call of
-- `send_packet_to` and `malloc` may fail. If every packet that decrypts was sent by the other
-- peer, and fewer than 2^32 - 32769 packets were accepted by the one, then what the other's data
-- callback was called with are the first of the accepted packets: in order, each once, unchanged.
pub Run-in_order :
    {box : CryptoBox} {giver taker : CryptoConnection} {sent : List (List ℕ)}
    {g t : CryptoConnection}
    → IsFresh giver
    → IsFresh taker
    → Run box giver taker sent g t
    → length sent + 1 + buffer_size < 2 ^ 32
    → t.handed ≡ take (length t.handed) sent
Run-in_order fg ft r few = (Run-Agree fg ft r few).taker.in_order

-- In such a run of two peers, if `cryptpacket_received` says of the number of an accepted packet
-- that it was received, then the peer's data callback was called with that packet.
pub Run-cryptpacket_received :
    {box : CryptoBox} {giver taker : CryptoConnection} {sent : List (List ℕ)}
    {g t : CryptoConnection} (packet_number : ℕ)
    → IsFresh giver
    → IsFresh taker
    → Run box giver taker sent g t
    → length sent + 1 + buffer_size < 2 ^ 32
    → packet_number < length sent
    → cryptpacket_received g packet_number ≡ true
    → get_elem? t.handed packet_number ≡ get_elem? sent packet_number
unfolding cryptpacket_received
Run-cryptpacket_received {sent = sent} {g} {t} packet_number fg ft r few valid e =
    let w = Run-Agree fg ft r few in
    let l : is_live g.status ≡ true = ground (arith, e) in
    let s = w.giver.sender l in
    let below : packet_number < length t.handed =
      ground (arith, e, l, s.start_le, s.end_is, s.acked_le, s.word, valid) in
    ap (λ h. get_elem? h packet_number) w.taker.in_order
    ∙ get_elem?-take sent (length t.handed) packet_number below
