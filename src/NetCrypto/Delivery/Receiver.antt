-- ===== src/NetCrypto/Delivery/Receiver.antt =====
-- toxcore/net_crypto.c: the packets that a peer has received, and those that it has handed on.
use mathlib.Core.Path.{subst}
use insert_project_name_here.Base.{
  ℕ, zero, suc, ◌+◌, ◌%◌, ◌^◌, ◌≤◌, ◌<◌, ◌≡◌, refl, ap, Bool, false, Option, none, some, List, [],
  ◌∷◌, ◌++◌, arith, length, take, take-length, get_elem?, sub32, ltb, ◌==◌, if_elim, if_fst,
}
use insert_project_name_here.NetCrypto.PacketsArray.{
  PacketData, PacketsArray, buffer_size, store, is_some, add_data_to_buffer, read_data_beg_buffer,
}
use insert_project_name_here.NetCrypto.Connection.{bytes_of}

abbrev pub Belongs : List (List ℕ) → ℕ → Option PacketData → Type 0
Belongs sent m none = Unit
Belongs sent m (some d) = get_elem? sent m ≡ some (bytes_of d)

-- The window of a peer that has handed on the first `count` packets of `sent`.
pub record IsReceiver (sent : List (List ℕ)) (count : ℕ) (a : PacketsArray) : Type 0 where
  pub start_is : a.buffer_start ≡ count
  pub slots :
      (m : ℕ) → count ≤ m → m < count + buffer_size → Belongs sent m (a.buffer (m % buffer_size))

pub get_elem?-lt :
    (xs : List (List ℕ)) (i : ℕ) {x : List ℕ} → get_elem? xs i ≡ some x → i < length xs
get_elem?-lt [] i e = absurd (cc e)
get_elem?-lt (y ∷ xs) zero e = omega arith
get_elem?-lt (y ∷ xs) (suc i) e = omega (arith, get_elem?-lt xs i e)

pub take-suc :
    (xs : List (List ℕ)) (k : ℕ) {x : List ℕ}
    → get_elem? xs k ≡ some x
    → take (suc k) xs ≡ take k xs ++ (x ∷ [])
take-suc [] k e = absurd (cc e)
take-suc (y ∷ xs) zero {x = x} e = let q : y ≡ x = cc e in rw q refl
take-suc (y ∷ xs) (suc k) e = ap (λ r. y ∷ r) (take-suc xs k e)

pub add_data_to_buffer-IsReceiver :
    {sent : List (List ℕ)} {count : ℕ} {a : PacketsArray} (malloc : Bool) (num stamp : ℕ)
    (bytes : List ℕ)
    → length sent + buffer_size < 2 ^ 32
    → length sent ≤ count + buffer_size
    → count ≤ length sent
    → get_elem? sent num ≡ some bytes
    → IsReceiver sent count a
    → IsReceiver sent count
        (add_data_to_buffer malloc a num
          (record { sent_time = stamp; len = length bytes; payload = bytes })).0
unfolding add_data_to_buffer store
add_data_to_buffer-IsReceiver {sent} {count} {a} malloc num stamp bytes word close le e w =
    let n = get_elem?-lt sent num e in
    let start_is = w.start_is in
    let new : PacketData = record { sent_time = stamp; len = length bytes; payload = bytes } in
    if_fst (IsReceiver sent count) (ltb buffer_size (sub32 num a.buffer_start)) (a, false) _
      (λ _. w)
      (λ q.
        if_fst (IsReceiver sent count) (is_some (a.buffer (num % buffer_size))) (a, false) _
          (λ _. w)
          (λ _.
            if_fst (IsReceiver sent count) malloc _ (a, false)
              (λ _. record {
                start_is = start_is;
                slots = λ m h l.
                    if_elim (Belongs sent m) (m % buffer_size == num % buffer_size) (some new) _
                      (λ p.
                        let inner : count ≤ num = ground (arith, q) in
                        let same : m ≡ num = ground (arith, p) in rw (same, take-length bytes) e)
                      (λ _. w.slots m h l);
              })
              (λ _. w)))

-- What `read_data_beg_buffer` gives is the next packet.
pub read_data_beg_buffer-next :
    {sent : List (List ℕ)} {count : ℕ} {a : PacketsArray} {id : ℕ} {d : PacketData}
    → length sent + buffer_size < 2 ^ 32
    → IsReceiver sent count a
    → (read_data_beg_buffer a).1 ≡ some (id, d)
    → (id ≡ count)
      × (get_elem? sent count ≡ some (bytes_of d))
      × IsReceiver sent (count + 1) (read_data_beg_buffer a).0
unfolding read_data_beg_buffer store
read_data_beg_buffer-next {sent} {count} {a} {id} {d} word w e =
    let start_is = w.start_is in
    let ne : (a.buffer_end == a.buffer_start) ≡ false = ground arith in
    let here : a.buffer (a.buffer_start % buffer_size) ≡ some d = ground arith in
    let belongs : get_elem? sent count ≡ some (bytes_of d) =
      subst (λ o. Belongs sent count o) (rw start_is at here)
        (w.slots count (omega arith) (omega arith)) in
    let n = get_elem?-lt sent count belongs in
    (
      ground arith,
      belongs,
      rw (ne, here)
          (record {
            start_is = omega arith;
            slots = λ m h l.
                if_elim (Belongs sent m) (m % buffer_size == a.buffer_start % buffer_size) none _
                  (λ _. tt) (λ p. w.slots m (omega arith) (ground (arith, p)));
          }),
    )
