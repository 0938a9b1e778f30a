-- ===== src/NetCrypto/Delivery/Agree.antt =====
-- toxcore/net_crypto.c: what holds between a peer that gives lossless packets and one that takes them, at
-- first and after each step of either.
use insert_project_name_here.Base.{
  ℕ, zero, suc, ◌+◌, ◌%◌, ◌^◌, ◌≤◌, ◌<◌, ◌≡◌, ◌⊎◌, inl, inr, refl, ap, sym, ◌∙◌, Bool-cases, Option,
  none, some, List, [], ◌∷◌, ◌++◌, arith, length, take, length-append,
}
use insert_project_name_here.NetCrypto.PacketsArray.{PacketData, buffer_size}
use insert_project_name_here.NetCrypto.Connection.{CryptoBox, CryptoConnection, is_live}
use insert_project_name_here.NetCrypto.Connection.Send.{write_cryptpacket}
use insert_project_name_here.NetCrypto.Connection.Receive.{empty_array}
use insert_project_name_here.NetCrypto.Delivery.Wire.{Genuine}
use insert_project_name_here.NetCrypto.Delivery.Sender.{IsSender-acked, get_elem?-append}
use insert_project_name_here.NetCrypto.Delivery.Sending.{AllTexts}
use insert_project_name_here.NetCrypto.Delivery.Giver.{IsGiver, queued}
use insert_project_name_here.NetCrypto.Delivery.Receiver.{Belongs}
use insert_project_name_here.NetCrypto.Delivery.Taker.{IsTaker, Acks}
use insert_project_name_here.NetCrypto.Delivery.Acts.{
  Event, write, lossy, request, resend, kill, arrive, act, accepted, Authentic, act-closed,
  act-IsGiver, act-IsTaker, Arrives-AllTexts,
}

-- A connection that was just opened: `new_crypto_connection` and `create_crypto_connection`.
pub record IsFresh (c : CryptoConnection) : Type 0 where
  pub no_sent : c.send_array ≡ empty_array
  pub no_received : c.recv_array ≡ empty_array
  pub no_wire : c.wire ≡ []
  pub no_handed : c.handed ≡ []

-- What holds between the peers of a run.
pub record Agree (sent : List (List ℕ)) (g t : CryptoConnection) : Type 0 where
  pub giver : IsGiver sent (length t.handed) g
  pub taker : IsTaker sent 0 t

take-append : (xs ys : List (List ℕ)) (k : ℕ) → k ≤ length xs → take k (xs ++ ys) ≡ take k xs
take-append xs ys zero h = refl
take-append [] ys (suc k) h = absurd (ground (arith, h))
take-append (x ∷ xs) ys (suc k) h = ap (λ r. x ∷ r) (take-append xs ys k (omega (arith, h)))

AllTexts-none : (P : List ℕ → Type 0) {wire : List (List ℕ × List ℕ)} → wire ≡ [] → AllTexts P wire
AllTexts-none P e = rw e tt

Belongs-append :
    (sent : List (List ℕ)) (x : List ℕ) (m : ℕ) (o : Option PacketData)
    → Belongs sent m o
    → Belongs (sent ++ (x ∷ [])) m o
Belongs-append sent x m none h = tt
Belongs-append sent x m (some d) h = get_elem?-append sent (x ∷ []) m h

IsTaker-append :
    {sent : List (List ℕ)} {least : ℕ} {c : CryptoConnection} (x : List ℕ)
    → IsTaker sent least c
    → IsTaker (sent ++ (x ∷ [])) least c
IsTaker-append {sent} {least} {c} x w = record {
  receiver = λ l.
      let r = w.receiver l in
      record {
        start_is = r.start_is;
        slots = λ m h k.
            Belongs-append sent x m (c.recv_array.buffer (m % buffer_size)) (r.slots m h k);
      };
  in_order = w.in_order ∙ sym (take-append sent (x ∷ []) (length c.handed) w.inside);
  grown = w.grown;
  inside = omega (arith, w.inside, length-append sent (x ∷ []));
  acks = w.acks;
}

IsTaker-least :
    {sent : List (List ℕ)} {least : ℕ} {c : CryptoConnection}
    → IsTaker sent least c
    → (least' : ℕ) → least' ≤ length c.handed
    → IsTaker sent least' c
IsTaker-least w least' h = record {
  receiver = w.receiver;
  in_order = w.in_order;
  grown = h;
  inside = w.inside;
  acks = w.acks;
}

IsGiver-acked :
    {sent : List (List ℕ)} {acked acked' : ℕ} {c : CryptoConnection}
    → acked ≤ acked'
    → acked' ≤ length sent
    → IsGiver sent acked c
    → IsGiver sent acked' c
IsGiver-acked h i w = record {
  sender = λ l. IsSender-acked h i (w.sender l);
  texts = w.texts;
  close = omega (arith, h, w.close);
}

queued_cases :
    (sent : List (List ℕ)) (bytes : List ℕ) (number : Option ℕ)
    → (queued sent bytes number ≡ sent)
      ⊎ ((x : List ℕ) × (queued sent bytes number ≡ sent ++ (x ∷ [])))
queued_cases sent bytes none = inl refl
queued_cases sent bytes (some number) = inr (bytes, refl)

-- A call accepts one packet or none.
pub accepted_cases :
    (box : CryptoBox) (e : Event) (c : CryptoConnection) (sent : List (List ℕ))
    → (accepted box e c sent ≡ sent) ⊎ ((x : List ℕ) × (accepted box e c sent ≡ sent ++ (x ∷ [])))
unfolding accepted
accepted_cases box (write again ok malloc now bytes cc_on) c sent =
    queued_cases sent bytes (write_cryptpacket box again ok malloc now c bytes cc_on).1
accepted_cases box (lossy ok bytes) c sent = inl refl
accepted_cases box (request ok) c sent = inl refl
accepted_cases box (resend ok now max_num) c sent = inl refl
accepted_cases box (kill ok) c sent = inl refl
accepted_cases box (arrive ok malloc udp now packet) c sent = inl refl

pub start-Agree : {g t : CryptoConnection} → IsFresh g → IsFresh t → Agree [] g t
start-Agree {g} {t} fg ft =
    let none_handed : length t.handed ≡ 0 = ap length ft.no_handed in
    record {
      giver = record {
        sender = λ _.
            rw (fg.no_sent, none_handed)
              (record {
                end_is = refl;
                start_le = omega arith;
                acked_le = omega arith;
                few = omega arith;
                word = omega arith;
                slots = λ m h k. tt;
              });
        texts = AllTexts-none (Genuine []) fg.no_wire;
        close = omega arith;
      };
      taker = record {
        receiver =
            λ _. rw (ft.no_received, none_handed) (record { start_is = refl; slots = λ m h k. tt });
        in_order = ft.no_handed ∙ sym (rw none_handed refl);
        grown = omega arith;
        inside = omega (arith, none_handed);
        acks = AllTexts-none (Acks (length t.handed)) ft.no_wire;
      };
    }

pub by_giver-Agree :
    (box : CryptoBox) {sent : List (List ℕ)} {g t : CryptoConnection} (e : Event)
    → length sent + 1 + buffer_size < 2 ^ 32
    → Authentic box e g t.wire
    → Agree sent g t
    → Agree (accepted box e g sent) (act box e g) t
by_giver-Agree box {sent} {g} {t} e few a w = elim (Bool-cases (is_live g.status)) [
  | inr l ↦ let closed = act-closed box e g sent l in rw (closed.0, closed.1) w
  | inl l ↦ record {
    giver =
        act-IsGiver box sent (length t.handed) e g few l
          (Arrives-AllTexts box (Acks (length t.handed)) e g t.wire a w.taker.acks) w.giver;
    taker = elim (accepted_cases box e g sent) [
      | inl q ↦ rw q w.taker
      | inr (x, q) ↦ rw q (IsTaker-append x w.taker)
    ];
  }
]

pub by_taker-Agree :
    (box : CryptoBox) {sent : List (List ℕ)} {g t : CryptoConnection} (e : Event)
    → length sent + 1 + buffer_size < 2 ^ 32
    → Authentic box e t g.wire
    → Agree sent g t
    → Agree sent g (act box e t)
by_taker-Agree box {sent} {g} {t} e few a w = elim (Bool-cases (is_live t.status)) [
  | inr l ↦ rw (act-closed box e t sent l).0 w
  | inl l ↦
      let t' =
        act-IsTaker box sent (length t.handed) e t (omega (arith, few)) l w.giver.close
          (Arrives-AllTexts box (Genuine sent) e t g.wire a w.giver.texts)
          (IsTaker-least w.taker (length t.handed) (omega arith)) in
      record {
        giver = IsGiver-acked t'.grown t'.inside w.giver;
        taker = IsTaker-least t' 0 (omega arith);
      }
]
