-- ===== src/NetCrypto/Request/Bytes.antt =====
-- toxcore/net_crypto.c: how the bytes of a request packet describe the receiver's window.
use native.Mathlib.Decide.{ℕ_discrete}
use insert_project_name_here.Base.{
  ℕ, zero, suc, ◌+◌, ◌-◌, ◌%◌, ◌^◌, ◌≤◌, ◌<◌, ◌≡◌, ◌≢◌, Bool, true, false, Option-cases,
  if◌then◌else◌, leb, inl, inr, Option, none, some, List, [], ◌∷◌, arith, u32, sub32, refl,
}
use insert_project_name_here.NetCrypto.PacketsArray.{PacketData, Slots, buffer_size, store}
use insert_project_name_here.NetCrypto.Request.{request_bytes, mark_due}

-- The content of a slot: all but its time stamp.
abbrev pub content : Option PacketData → Option (ℕ × List ℕ)
content none = none
content (some d) = some (d.len, d.payload)

content-mark_due : (now rtt : ℕ) (o : Option PacketData) → content (mark_due now rtt o) ≡ content o
content-mark_due now rtt none = refl
content-mark_due now rtt (some d) = ground arith

pub content-store_due :
    (now rtt slot : ℕ) (s : Slots) (j : ℕ)
    → content (store s slot (mark_due now rtt (s slot)) j) ≡ content (s j)
unfolding store
content-store_due now rtt slot s j = ground (arith, content-mark_due now rtt (s j))

pub content-store-none :
    (slot : ℕ) (r s : Slots) {d : PacketData} (j : ℕ)
    → r slot ≡ some d
    → r j ≡ none
    → store s slot none j ≡ s j
unfolding store
content-store-none slot r s j e h = ground arith

-- How the bytes of a request packet describe the slots of the receiver's window from number `i` on.
pub data Describes (r : Slots) : ℕ → ℕ → ℕ → List ℕ → Type 0 where
  stop : {k i n : ℕ} → Describes r k i n []
  lack :
      {k i n : ℕ} {bs : List ℕ}
      → r (i % buffer_size) ≡ none
      → Describes r k (u32 (i + 1)) 1 bs
      → Describes r (suc k) i n (n ∷ bs)
  full :
      {k i n : ℕ} {bs : List ℕ} (d : PacketData)
      → r (i % buffer_size) ≡ some d
      → n ≡ 255
      → Describes r k (u32 (i + 1)) 1 bs
      → Describes r (suc k) i n (0 ∷ bs)
  have :
      {k i n : ℕ} {bs : List ℕ} (d : PacketData)
      → r (i % buffer_size) ≡ some d
      → n ≢ 255
      → Describes r k (u32 (i + 1)) (n + 1) bs
      → Describes r (suc k) i n bs

module _ (r : Slots) where
  request_bytes-lack :
      (k i last n room : ℕ)
      → i ≢ last
      → n ≤ 255
      → r (i % buffer_size) ≡ none
      → request_bytes (suc k) i last n room r
        ≡ n ∷ (if leb room 1 then [] else request_bytes k (u32 (i + 1)) last 1 (room - 1) r)
  unfolding request_bytes
  request_bytes-lack k i last n room ne h e = ground arith

  request_bytes-full :
      (k i last n room : ℕ) {d : PacketData}
      → i ≢ last
      → n ≡ 255
      → r (i % buffer_size) ≡ some d
      → request_bytes (suc k) i last n room r
        ≡ 0 ∷ (if leb room 1 then [] else request_bytes k (u32 (i + 1)) last 1 (room - 1) r)
  unfolding request_bytes
  request_bytes-full k i last n room ne h e = ground arith

  request_bytes-have :
      (k i last n room : ℕ) {d : PacketData}
      → i ≢ last
      → n ≢ 255
      → r (i % buffer_size) ≡ some d
      → request_bytes (suc k) i last n room r ≡ request_bytes k (u32 (i + 1)) last (n + 1) room r
  unfolding request_bytes
  request_bytes-have k i last n room ne h e = ground arith

  pub Describes-if :
      (k i : ℕ) (b : Bool) (bs : List ℕ)
      → Describes r k i 1 bs
      → Describes r k i 1 (if b then [] else bs)
  Describes-if k i true bs h = stop
  Describes-if k i false bs h = h

  pub request_bytes-Describes :
      (k i last n room : ℕ)
      → i < 2 ^ 32
      → last < 2 ^ 32
      → k ≡ sub32 last i
      → n ≤ 255
      → Describes r k i n (request_bytes k i last n room r)
  unfolding request_bytes
  request_bytes-Describes zero i last n room hi hl e hn = stop
  request_bytes-Describes (suc k) i last n room hi hl e hn =
      elim (Option-cases (r (i % buffer_size))) [
        | inl no_packet ↦ rw (request_bytes-lack k i last n room (omega arith) hn no_packet) (
            lack no_packet (
              Describes-if _ _ (leb room 1) _ (
                request_bytes-Describes k (u32 (i + 1)) last 1 (room - 1) (omega arith) hl
                  (omega arith) (omega arith))))
        | inr (d, e') ↦ elim (ℕ_discrete n 255) [
          | yes f ↦ rw (request_bytes-full k i last n room (omega arith) f e') (
              full d e' f (
                Describes-if _ _ (leb room 1) _ (
                  request_bytes-Describes k (u32 (i + 1)) last 1 (room - 1) (omega arith) hl
                    (omega arith) (omega arith))))
          | no f ↦ rw (request_bytes-have k i last n room (omega arith) f e') (
              have d e' f (
                request_bytes-Describes k (u32 (i + 1)) last (n + 1) room (omega arith) hl
                  (omega arith) (omega arith)))
        ]
      ]
