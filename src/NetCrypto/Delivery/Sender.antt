-- ===== src/NetCrypto/Delivery/Sender.antt =====
-- toxcore/net_crypto.c: the packets that a peer keeps until they are acknowledged.
use mathlib.Core.Path.{subst}
use native.Mathlib.Decide.{ℕ_discrete}
use insert_project_name_here.Base.{
  ℕ, zero, suc, ◌+◌, ◌-◌, ◌%◌, ◌^◌, ◌≤◌, ◌<◌, ◌≡◌, inl, inr, refl, false, Bool-cases, ==_iff,
  Option-cases, Option, none, some, List, [], ◌∷◌, ◌++◌, arith, length, take, take-length,
  length-append, get_elem?, u32, sub32, ltb, leb, ◌==◌, ◌||◌,
}
use insert_project_name_here.NetCrypto.PacketsArray.{
  PacketData, PacketsArray, Slots, buffer_size, store, get_data_pointer, found, clear_buffer_until,
  clear_to,
}
use insert_project_name_here.NetCrypto.PacketsArray.Slots.{clear_slots_lem, clear_slots-end}
use insert_project_name_here.NetCrypto.Request.{
  handle_bytes, handle_request_packet, mark_due, latest_of, packet_id_request,
}
use insert_project_name_here.NetCrypto.Request.Bytes.{content, content-store_due}
use insert_project_name_here.NetCrypto.Connection.{bytes_of, first_byte, set_sent_time}

-- A packet of the window is the one that was queued under its number.
abbrev pub Holds : List (List ℕ) → ℕ → Option PacketData → Type 0
Holds sent m none = Unit
Holds sent m (some d) = (get_elem? sent m ≡ some (bytes_of d)) × (16 ≤ first_byte (bytes_of d))

-- The window of a peer that has queued the packets `sent`, of which `acked` may be acknowledged.
pub record IsSender (sent : List (List ℕ)) (acked : ℕ) (a : PacketsArray) : Type 0 where
  pub end_is : a.buffer_end ≡ length sent
  pub start_le : a.buffer_start ≤ acked
  pub acked_le : acked ≤ length sent
  pub few : length sent ≤ a.buffer_start + buffer_size
  pub word : length sent + buffer_size < 2 ^ 32
  pub slots :
      (m : ℕ) → a.buffer_start ≤ m → m < length sent → Holds sent m (a.buffer (m % buffer_size))

nothing_there {ℓ} : {A : Type ℓ} {a : A} → none ≡ some a → ⊥
nothing_there e = absurd (cc e)

some_inj {ℓ} : {A : Type ℓ} {a b : A} → some a ≡ some b → a ≡ b
some_inj e = cc e

-- Slots of which some were emptied, and the others at most stamped.
abbrev Fewer : Slots → Slots → Type 0
Fewer s s' = (j : ℕ) (c : ℕ × List ℕ) → content (s' j) ≡ some c → content (s j) ≡ some c

Holds-content :
    (sent : List (List ℕ)) (m : ℕ) (o o' : Option PacketData)
    → Holds sent m o
    → ((c : ℕ × List ℕ) → content o' ≡ some c → content o ≡ some c)
    → Holds sent m o'
Holds-content sent m o none h e = tt
Holds-content sent m none (some d) h e = absurd (nothing_there (e (d.len, d.payload) refl))
Holds-content sent m (some c) (some d) h e =
    let same : (c.len, c.payload) ≡ (d.len, d.payload) = some_inj (e (d.len, d.payload) refl) in
    subst
      (λ (p : ℕ × List ℕ).
        (get_elem? sent m ≡ some (take p.0 p.1)) × (16 ≤ first_byte (take p.0 p.1)))
      same h

pub IsSender-Fewer :
    {sent : List (List ℕ)} {acked : ℕ} {a : PacketsArray} {s : Slots}
    → IsSender sent acked a
    → Fewer a.buffer s
    → IsSender sent acked (record a { buffer = s })
IsSender-Fewer {sent} {a = a} {s = s} w f = record {
  end_is = w.end_is;
  start_le = w.start_le;
  acked_le = w.acked_le;
  few = w.few;
  word = w.word;
  slots = λ m h l.
      Holds-content sent m (a.buffer (m % buffer_size)) (s (m % buffer_size)) (w.slots m h l)
        (f (m % buffer_size));
}

store-Fewer : (slot : ℕ) (s : Slots) → Fewer s (store s slot none)
unfolding store
store-Fewer slot s j c e = ground (arith, e)

handle_bytes-Fewer :
    (now rtt fuel i last n : ℕ) (bs : List ℕ) (requested l : ℕ) (s : Slots)
    → Fewer s (handle_bytes now rtt fuel i last n bs requested l s).slots
unfolding handle_bytes
handle_bytes-Fewer now rtt zero i last n bs requested l s j c e = e
handle_bytes-Fewer now rtt (suc fuel) i last n [] requested l s j c e = e
handle_bytes-Fewer now rtt (suc fuel) i last n (b ∷ bs) requested l s j c e =
    let slot = i % buffer_size in
    let l' = latest_of l (s slot) in
    let dropped = store s slot none in
    ground (
      arith,
      content-store_due now rtt slot s j,
      store-Fewer slot s j c,
      handle_bytes-Fewer now rtt fuel (u32 (i + 1)) last 1 bs (u32 (requested + 1)) l
          (store s slot (mark_due now rtt (s slot))) j c,
      handle_bytes-Fewer now rtt fuel (u32 (i + 1)) last 1 bs requested l' dropped j c,
      handle_bytes-Fewer now rtt fuel (u32 (i + 1)) last (n + 1) (b ∷ bs) requested l' dropped j c,
    )

-- A request leaves the window that of a sender.
pub handle_request_packet-IsSender :
    {sent : List (List ℕ)} {acked : ℕ} {a : PacketsArray} (now rtt latest : ℕ) (packet : List ℕ)
    → IsSender sent acked a
    → IsSender sent acked (handle_request_packet now rtt a packet latest).0
unfolding handle_request_packet
handle_request_packet-IsSender now rtt latest [] w = w
handle_request_packet-IsSender now rtt latest (b ∷ []) w = w
handle_request_packet-IsSender {a = a} now rtt latest (b ∷ c ∷ bs) w =
    let fewer =
      handle_bytes-Fewer now rtt (sub32 a.buffer_end a.buffer_start) a.buffer_start a.buffer_end 1
        (c ∷ bs) 0 (2 ^ 64 - 1) a.buffer in
    elim (Bool-cases (b == packet_id_request)) [
      | inl e ↦ rw (e, handle_request_packet) (IsSender-Fewer w fewer)
      | inr e ↦ rw (e, handle_request_packet) w
    ]

pub set_sent_time-IsSender :
    {sent : List (List ℕ)} {acked : ℕ} {a : PacketsArray} (number now : ℕ)
    → IsSender sent acked a
    → IsSender sent acked (set_sent_time a number now)
unfolding set_sent_time store
set_sent_time-IsSender {a = a} number now w = IsSender-Fewer w (λ j c e.
    elim (Option-cases (a.buffer (number % buffer_size))) [
      | inl q ↦ ground (arith, e, q)
      | inr (d, q) ↦ ground (arith, e, q)
    ])

pub IsSender-acked :
    {sent : List (List ℕ)} {acked acked' : ℕ} {a : PacketsArray}
    → acked ≤ acked'
    → acked' ≤ length sent
    → IsSender sent acked a
    → IsSender sent acked' a
IsSender-acked h l w = record {
  end_is = w.end_is;
  start_le = omega (arith, w.start_le);
  acked_le = l;
  few = w.few;
  word = w.word;
  slots = w.slots;
}

pub clear_buffer_until-IsSender :
    {sent : List (List ℕ)} {acked : ℕ} {a : PacketsArray} (number : ℕ)
    → number ≤ acked
    → IsSender sent acked a
    → IsSender sent acked (clear_buffer_until a number).0
unfolding clear_buffer_until clear_to
clear_buffer_until-IsSender {sent} {acked} {a = a} number h w =
    let before = w.start_le in
    let end_is = w.end_is in
    let acked_le = w.acked_le in
    let few = w.few in
    let word = w.word in
    let same =
      clear_slots-end (sub32 number a.buffer_start) a.buffer_start number a.buffer (omega arith)
        (omega arith) refl in
    elim (Bool-cases (
      leb (sub32 a.buffer_end a.buffer_start) (sub32 a.buffer_end number)
      || ltb (sub32 a.buffer_end a.buffer_start) (sub32 number a.buffer_start))) [
        | inl e ↦ rw (e, clear_buffer_until) w
        | inr e ↦
            let inner : a.buffer_start ≤ number = ground arith in
            rw (e, clear_buffer_until)
              (record {
                end_is = end_is;
                start_le = rw same h;
                acked_le = acked_le;
                few = rw same (omega arith);
                word = word;
                slots = λ m hm l.
                    let hm' : number ≤ m = rw same at hm in
                    Holds-content sent m (a.buffer (m % buffer_size)) _ (w.slots m (omega arith) l)
                      (λ c q. ground (
                        arith,
                        clear_slots_lem (sub32 number a.buffer_start) a.buffer_start number a.buffer
                            (m % buffer_size) (omega arith) (omega arith) refl (omega arith),
                      ));
              })
      ]

pub get_elem?-end :
    (xs : List (List ℕ)) (x : List ℕ) → get_elem? (xs ++ (x ∷ [])) (length xs) ≡ some x
get_elem?-end [] x = refl
get_elem?-end (y ∷ xs) x = get_elem?-end xs x

pub get_elem?-append :
    (xs ys : List (List ℕ)) (i : ℕ) {x : List ℕ}
    → get_elem? xs i ≡ some x
    → get_elem? (xs ++ ys) i ≡ some x
get_elem?-append [] ys i e = absurd (nothing_there e)
get_elem?-append (z ∷ xs) ys zero e = e
get_elem?-append (z ∷ xs) ys (suc i) e = get_elem?-append xs ys i e

Holds-append :
    (sent : List (List ℕ)) (x : List ℕ) (m : ℕ) (o : Option PacketData)
    → Holds sent m o
    → Holds (sent ++ (x ∷ [])) m o
Holds-append sent x m none h = tt
Holds-append sent x m (some d) h = (get_elem?-append sent (x ∷ []) m h.0, h.1)

-- The window after a packet was queued.
pub add_data_end_of_buffer-IsSender :
    {sent : List (List ℕ)} {acked : ℕ} {a : PacketsArray} (bytes : List ℕ) (stamp : ℕ)
    → 16 ≤ first_byte bytes
    → length sent < a.buffer_start + buffer_size
    → length sent + 1 + buffer_size < 2 ^ 32
    → IsSender sent acked a
    → IsSender (sent ++ (bytes ∷ [])) acked (record a {
      buffer =
          store a.buffer
            (a.buffer_end % buffer_size)
            (some (record { sent_time = stamp; len = length bytes; payload = bytes }));
      buffer_end = u32 (a.buffer_end + 1);
    })
unfolding store
add_data_end_of_buffer-IsSender {sent} {acked} {a} bytes stamp h room few w =
    let size = length-append sent (bytes ∷ []) in
    let end_is = w.end_is in
    let whole = take-length bytes in
    record {
      end_is = omega (arith, size);
      start_le = w.start_le;
      acked_le = omega (arith, size, w.acked_le);
      few = omega (arith, size);
      word = omega (arith, size);
      slots = λ m hm l. elim (ℕ_discrete m (length sent)) [
        | yes q ↦
            rw (q, end_is, (==_iff (length sent % buffer_size) (length sent % buffer_size)).1 refl)
              (rw whole (get_elem?-end sent bytes, h))
        | no q ↦
            let other : (m % buffer_size == a.buffer_end % buffer_size) ≡ false = ground arith in
            rw other (
              Holds-append sent bytes m (a.buffer (m % buffer_size))
                (w.slots m hm (omega (arith, size))))
      ];
    }

pub get_data_pointer-Holds :
    {sent : List (List ℕ)} {acked : ℕ} {a : PacketsArray} (number : ℕ) {d : PacketData}
    → number < 2 ^ 32
    → IsSender sent acked a
    → get_data_pointer a number ≡ found d
    → Holds sent number (some d)
unfolding get_data_pointer
get_data_pointer-Holds {sent} {a = a} number {d} h w e =
    let inner : a.buffer_start ≤ number =
      ground (arith, w.start_le, w.end_is, w.acked_le, w.few, w.word) in
    let below : number < length sent =
      ground (arith, w.start_le, w.end_is, w.acked_le, w.few, w.word) in
    let here : a.buffer (number % buffer_size) ≡ some d = ground arith in
    subst (λ o. Holds sent number o) here (w.slots number inner below)
