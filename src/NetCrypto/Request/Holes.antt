-- ===== src/NetCrypto/Request/Holes.antt =====
-- toxcore/net_crypto.c: how many packets a request asks for.
use insert_project_name_here.Base.{
  ℕ, zero, suc, ◌+◌, ◌-◌, ◌%◌, ◌^◌, ◌≤◌, ◌<◌, ◌≡◌, if◌then◌else◌, ◌==◌, none, some, List, [], ◌∷◌,
  arith, u32, sub32, ap, ◌∙◌, refl,
}
use insert_project_name_here.NetCrypto.PacketsArray.{
  PacketsArray, Slots, buffer_size, store, is_some,
}
use insert_project_name_here.NetCrypto.PacketsArray.Window.{IsWindow}
use mathlib.Core.Path.{subst}
use native.Mathlib.Decide.{ℕ_discrete}
use insert_project_name_here.NetCrypto.Request.{
  request_bytes, generate_request_packet, handle_bytes, handle_request_packet, mark_due,
  packet_id_request, latest_of,
}
use insert_project_name_here.NetCrypto.Request.Exchange.{
  Describes-AtLeast, request_tail, request_tail-Describes, generate_request_packet-tail,
}
use insert_project_name_here.NetCrypto.Request.Bytes.{Describes, stop, lack, full, have}

-- The number of empty slots among the `k` from number `i` on.
unfoldable pub holes : Slots → ℕ → ℕ → ℕ
holes r zero i = 0
holes r (suc k) i =
    let rest = holes r k (u32 (i + 1)) in if is_some (r (i % buffer_size)) then rest else suc rest

-- The number of bytes that are not 0.
abbrev nonzero : List ℕ → ℕ
nonzero [] = 0
nonzero (b ∷ bs) = if b == 0 then nonzero bs else suc (nonzero bs)

nonzero-le : {r : Slots} {k i n : ℕ} {bs : List ℕ} → Describes r k i n bs → nonzero bs ≤ k
nonzero-le stop = omega arith
nonzero-le (lack e h) = ground (arith, nonzero-le h)
nonzero-le (full d e q h) = ground (arith, nonzero-le h)
nonzero-le (have d e q h) = omega (arith, nonzero-le h)

nonzero-request_bytes :
    (r : Slots) (k i last n room : ℕ)
    → i < 2 ^ 32
    → last < 2 ^ 32
    → k ≡ sub32 last i
    → 0 < n
    → n ≤ 255
    → k < room
    → nonzero (request_bytes k i last n room r) ≡ holes r k i
unfolding request_bytes holes
nonzero-request_bytes r zero i last n room hi hl e hn hm hr = refl
nonzero-request_bytes r (suc k) i last n room hi hl e hn hm hr = ground (
  arith,
  nonzero-request_bytes r k (u32 (i + 1)) last 1 (room - 1),
  nonzero-request_bytes r k (u32 (i + 1)) last (n + 1) room,
)

module _ (now rtt : ℕ) (r : Slots) where
  handle_bytes-requested :
      (last ks requested l : ℕ) (s : Slots) {kr i n : ℕ} {bs : List ℕ}
      → Describes r kr i n bs
      → i < 2 ^ 32
      → last < 2 ^ 32
      → ks ≡ sub32 last i
      → kr ≤ ks
      → 0 < n
      → n ≤ 255
      → requested + kr < 2 ^ 32
      → (handle_bytes now rtt ks i last n bs requested l s).requested
        ≡ some (requested + nonzero bs)
  unfolding handle_bytes
  handle_bytes-requested last zero requested l s {bs = []} h hi hl e le hn hm hq = ground arith
  handle_bytes-requested last zero requested l s {bs = b ∷ bs} h hi hl e le hn hm hq =
      ground (arith, nonzero-le h)
  handle_bytes-requested last (suc ks) requested l s stop hi hl e le hn hm hq = ground arith
  handle_bytes-requested last (suc ks) requested l s {i = i} {n = n} (lack {bs = bs} no_packet h) hi
        hl e le hn hm hq =
      ground (
        arith,
        handle_bytes-requested last ks (u32 (requested + 1)) l
            (store s (i % buffer_size) (mark_due now rtt (s (i % buffer_size)))) h,
      )
  handle_bytes-requested last (suc ks) requested l s {i = i} {n = n} (full {bs = bs} d e' q h) hi hl
        e le hn hm hq =
      ground (
        arith,
        handle_bytes-requested last ks requested (latest_of l (s (i % buffer_size)))
            (store s (i % buffer_size) none) h,
      )
  handle_bytes-requested last (suc ks) requested l s {bs = []} (have d e' q h) hi hl e le hn hm hq =
      ground arith
  handle_bytes-requested last (suc ks) requested l s {i = i} {n = n} {bs = b ∷ bs} (have d e' q h)
        hi hl e le hn hm hq =
      ground (
        arith,
        Describes-AtLeast h,
        handle_bytes-requested last ks requested (latest_of l (s (i % buffer_size)))
            (store s (i % buffer_size) none) h,
      )

handle_tail-requested :
    (now rtt latest : ℕ) (send : PacketsArray) (r : Slots) (k : ℕ) (bs : List ℕ)
    → IsWindow send
    → k ≤ sub32 send.buffer_end send.buffer_start
    → Describes r k send.buffer_start 1 bs
    → (handle_request_packet now rtt send (packet_id_request ∷ bs) latest).2 ≡ some (nonzero bs)
unfolding handle_request_packet
handle_tail-requested now rtt latest send r k [] w le h = refl
handle_tail-requested now rtt latest send r k (b ∷ bs) w le h =
    handle_bytes-requested now rtt r send.buffer_end (sub32 send.buffer_end send.buffer_start) 0
      (2 ^ 64 - 1) send.buffer h w.start_word w.end_word refl le (omega arith) (omega arith)
      (omega (arith, w.fits))
    ∙ ap some (omega arith)

nonzero-request_tail :
    (len : ℕ) {a : PacketsArray}
    → IsWindow a
    → sub32 a.buffer_end a.buffer_start + 1 < len
    → nonzero (request_tail len a)
      ≡ holes a.buffer (sub32 a.buffer_end a.buffer_start) a.buffer_start
unfolding request_tail holes
nonzero-request_tail len {a} w h = elim (ℕ_discrete a.buffer_start a.buffer_end) [
  | yes e ↦
      ground (arith, holes_of_zero a.buffer (sub32 a.buffer_end a.buffer_start) a.buffer_start)
  | no ne ↦ ground (
    arith,
    w.start_word,
    w.end_word,
    nonzero-request_bytes a.buffer (sub32 a.buffer_end a.buffer_start) a.buffer_start a.buffer_end 1
        (len - 1),
  )
]
  where
    holes_of_zero : (r : Slots) (k i : ℕ) → k ≡ 0 → holes r k i ≡ 0
    holes_of_zero r zero i e = refl
    holes_of_zero r (suc k) i e = absurd (omega arith)

-- If the receiver's and the sender's windows are well formed and start at the same number, the
-- receiver's is not longer, and the request packet has room for a byte for each number of the
-- receiver's window and one more, then `handle_request_packet` succeeds at the sender and counts
-- as requested exactly the empty slots of the receiver's window.
pub generate-handle_requested :
    (recv send : PacketsArray) (len latest now rtt : ℕ) {packet : List ℕ}
    → IsWindow recv
    → IsWindow send
    → recv.buffer_start ≡ send.buffer_start
    → sub32 recv.buffer_end recv.buffer_start ≤ sub32 send.buffer_end send.buffer_start
    → sub32 recv.buffer_end recv.buffer_start + 1 < len
    → generate_request_packet len recv ≡ some packet
    → (handle_request_packet now rtt send packet latest).2
      ≡ some (holes recv.buffer (sub32 recv.buffer_end recv.buffer_start) recv.buffer_start)
generate-handle_requested recv send len latest now rtt {packet} wr ws es le room e =
    rw (generate_request_packet-tail len recv e) (
      handle_tail-requested now rtt latest send recv.buffer
        (sub32 recv.buffer_end recv.buffer_start) (request_tail len recv) ws le
        (subst
          (λ i.
            Describes recv.buffer (sub32 recv.buffer_end recv.buffer_start) i 1
              (request_tail len recv))
          es (request_tail-Describes len wr))
      ∙ ap some (nonzero-request_tail len wr room))
