-- ===== src/NetCrypto/Request/Exchange.antt =====
-- toxcore/net_crypto.c: what a request packet does to the sender's window.
use mathlib.Core.Path.{subst}
use insert_project_name_here.Base.{
  ℕ, zero, suc, ◌+◌, ◌-◌, ◌%◌, ◌^◌, ◌≤◌, ◌<◌, ◌≡◌, ◌⊎◌, if◌then◌else◌, leb, ◌==◌, ◌||◌, inl, inr,
  none, some, List, [], ◌∷◌, arith, u32, sub32, refl,
}
use insert_project_name_here.NetCrypto.PacketsArray.{PacketsArray, Slots, buffer_size, store}
use insert_project_name_here.NetCrypto.PacketsArray.Window.{IsWindow}
use insert_project_name_here.NetCrypto.Request.{
  request_bytes, generate_request_packet, handle_bytes, handle_request_packet, mark_due,
  packet_id_request, latest_of,
}
use insert_project_name_here.NetCrypto.Request.Bytes.{
  content, content-store_due, content-store-none, Describes, stop, lack, full, have, Describes-if,
  request_bytes-Describes,
}

-- The first byte, if there is one, is 0 or at least `n`.
abbrev pub AtLeast : ℕ → List ℕ → Type 0
AtLeast n [] = Unit
AtLeast n (b ∷ bs) = (b ≡ 0) ⊎ (n ≤ b)

pub Describes-AtLeast : {r : Slots} {k i n : ℕ} {bs : List ℕ} → Describes r k i n bs → AtLeast n bs
Describes-AtLeast stop = tt
Describes-AtLeast (lack e h) = inr (omega arith)
Describes-AtLeast (full d e q h) = inl refl
Describes-AtLeast {bs = []} (have d e q h) = tt
Describes-AtLeast {bs = b ∷ bs} (have d e q h) = ground (arith, Describes-AtLeast h)

module _ (now rtt : ℕ) (r : Slots) (j : ℕ) (lacks : r j ≡ none) where
  handle_bytes-content :
      (last ks requested l : ℕ) (s : Slots) {kr i n : ℕ} {bs : List ℕ}
      → Describes r kr i n bs
      → i < 2 ^ 32
      → last < 2 ^ 32
      → ks ≡ sub32 last i
      → kr ≤ ks
      → 0 < n
      → n ≤ 255
      → content ((handle_bytes now rtt ks i last n bs requested l s).slots j) ≡ content (s j)
  unfolding handle_bytes
  handle_bytes-content last zero requested l s h hi hl e le hn hm = refl
  handle_bytes-content last (suc ks) requested l s stop hi hl e le hn hm = refl
  handle_bytes-content last (suc ks) requested l s {i = i} {n = n} (lack {bs = bs} no_packet h) hi
        hl e le hn hm =
      ground (
        arith,
        content-store_due now rtt (i % buffer_size) s j,
        handle_bytes-content last ks (u32 (requested + 1)) l
            (store s (i % buffer_size) (mark_due now rtt (s (i % buffer_size)))) h,
      )
  handle_bytes-content last (suc ks) requested l s {i = i} {n = n} (full {bs = bs} d e' q h) hi hl e
        le hn hm =
      ground (
        arith,
        content-store-none (i % buffer_size) r s j e' lacks,
        handle_bytes-content last ks requested (latest_of l (s (i % buffer_size)))
            (store s (i % buffer_size) none) h,
      )
  handle_bytes-content last (suc ks) requested l s {bs = []} (have d e' q h) hi hl e le hn hm = refl
  handle_bytes-content last (suc ks) requested l s {i = i} {n = n} {bs = b ∷ bs} (have d e' q h) hi
        hl e le hn hm =
      ground (
        arith,
        content-store-none (i % buffer_size) r s j e' lacks,
        Describes-AtLeast h,
        handle_bytes-content last ks requested (latest_of l (s (i % buffer_size)))
            (store s (i % buffer_size) none) h,
      )

-- The bytes behind the packet id.
unfoldable pub request_tail : ℕ → PacketsArray → List ℕ
request_tail len a =
    if a.buffer_start == a.buffer_end || leb len 1
    then []
    else request_bytes (sub32 a.buffer_end a.buffer_start) a.buffer_start a.buffer_end 1 (len - 1)
        a.buffer

pub generate_request_packet-tail :
    (len : ℕ) (a : PacketsArray) {p : List ℕ}
    → generate_request_packet len a ≡ some p
    → p ≡ packet_id_request ∷ request_tail len a
unfolding generate_request_packet request_tail
generate_request_packet-tail len a e = ground arith

pub request_tail-Describes :
    (len : ℕ) {a : PacketsArray}
    → IsWindow a
    → Describes a.buffer (sub32 a.buffer_end a.buffer_start) a.buffer_start 1 (request_tail len a)
unfolding request_tail
request_tail-Describes len {a} w =
    Describes-if a.buffer _ _ (a.buffer_start == a.buffer_end || leb len 1) _ (
      request_bytes-Describes a.buffer (sub32 a.buffer_end a.buffer_start) a.buffer_start
        a.buffer_end 1 (len - 1) w.start_word w.end_word refl (omega arith))

handle_tail-content :
    (now rtt latest : ℕ) (send : PacketsArray) (r : Slots) (j k : ℕ) (bs : List ℕ)
    → IsWindow send
    → r j ≡ none
    → k ≤ sub32 send.buffer_end send.buffer_start
    → Describes r k send.buffer_start 1 bs
    → content ((handle_request_packet now rtt send (packet_id_request ∷ bs) latest).0.buffer j)
      ≡ content (send.buffer j)
unfolding handle_request_packet
handle_tail-content now rtt latest send r j k [] w lacks le h = refl
handle_tail-content now rtt latest send r j k (b ∷ bs) w lacks le h =
    handle_bytes-content now rtt r j lacks send.buffer_end (sub32 send.buffer_end send.buffer_start)
      0 (2 ^ 64 - 1) send.buffer h w.start_word w.end_word refl le (omega arith) (omega arith)

-- If the receiver's and the sender's windows are well formed and start at the same number, the
-- receiver's is not longer, and the request packet that `generate_request_packet` makes of the
-- receiver's window is handled by the sender, then every slot that is empty at the receiver keeps
-- its packet at the sender, up to the time stamp: the sender never drops what the receiver lacks.
pub generate-handle_request_keeps :
    (recv send : PacketsArray) (len latest now rtt : ℕ) {packet : List ℕ}
    → IsWindow recv
    → IsWindow send
    → recv.buffer_start ≡ send.buffer_start
    → sub32 recv.buffer_end recv.buffer_start ≤ sub32 send.buffer_end send.buffer_start
    → generate_request_packet len recv ≡ some packet
    → (j : ℕ) → recv.buffer j ≡ none
    → content ((handle_request_packet now rtt send packet latest).0.buffer j)
      ≡ content (send.buffer j)
generate-handle_request_keeps recv send len latest now rtt {packet} wr ws es le e j lacks =
    rw (generate_request_packet-tail len recv e) (
      handle_tail-content now rtt latest send recv.buffer j
        (sub32 recv.buffer_end recv.buffer_start) (request_tail len recv) ws lacks le
        (subst
          (λ i.
            Describes recv.buffer (sub32 recv.buffer_end recv.buffer_start) i 1
              (request_tail len recv))
          es (request_tail-Describes len wr)))
