-- ===== src/Messenger/Files/Stream.antt =====
-- toxcore/Messenger.c: any calls of `file_data` at the sender of a file, and all of its packets at the
-- receiver.
use insert_project_name_here.Base.{
  ℕ, ◌+◌, ◌^◌, ◌≤◌, ◌<◌, ◌≡◌, ◌⊎◌, inl, inr, sym, ap, ◌∙◌, false, List, [], ◌∷◌, ◌++◌, arith,
  length, append-singleton, ◌==◌, if◌then◌else◌,
}
use mathlib.Core.List.{append-nil, append_assoc}
use insert_project_name_here.NetCrypto.Connection.{CryptoBox}
use insert_project_name_here.Messenger.Files.{FileEvent, Friend, Env, transferring}
use insert_project_name_here.Messenger.Files.Send.{max_file_data_size, file_data}
use insert_project_name_here.Messenger.Files.Receive.{handle_file_packet}
use insert_project_name_here.Messenger.Files.Checks.{file_data_cases, data_error-Fits}
use insert_project_name_here.Messenger.Files.Transfer.{Together, Over, reported, chunk_step}

-- A call of `file_data`, with whatever arguments.
pub record Call : Type 0 where
  pub env : Env
  pub position : ℕ
  pub bytes : List ℕ

abbrev pub total : List (List ℕ) → ℕ
total [] = 0
total (c ∷ cs) = length c + total cs

module _ (box : CryptoBox) (i : ℕ) where
  -- The sender after the calls, and the chunks that were accepted.
  unfoldable pub send_chunks : List Call → Friend → Friend × List (List ℕ)
  send_chunks [] s = (s, [])
  send_chunks (c ∷ cs) s =
      let q = file_data box c.env s i c.position c.bytes in
      let rest = send_chunks cs q.0 in (rest.0, if q.1 == 0 then c.bytes ∷ rest.1 else rest.1)

  -- The packets of the chunks, and the receiver after them.
  abbrev pub packets_of : List (List ℕ) → List (List ℕ)
  packets_of [] = []
  packets_of (c ∷ cs) = (82 ∷ i ∷ c) ∷ packets_of cs

  unfoldable pub receive_packets : Env → List (List ℕ) → Friend → Friend
  receive_packets env [] r = r
  receive_packets env (p ∷ ps) r = receive_packets env ps (handle_file_packet box env r p)

module _ (box : CryptoBox) (i : ℕ) (slot : i < 256) (room : 0 < max_file_data_size box) where
  -- What the receiving client should see of chunks from a position on.
  abbrev pub reports : ℕ → ℕ → List (List ℕ) → List FileEvent
  reports size position [] = []
  reports size position (c ∷ cs) =
      reported box i slot room size position c ++ reports size (position + length c) cs

  abbrev pub InStep : Friend → Friend → Type 0
  InStep s r = Together box i slot room s r ⊎ Over box i slot room s r

  -- What chunks do to the sender and the receiver.
  pub record Streamed (s r : Friend) (chunks : List (List ℕ)) (s' r' : Friend) : Type 0 where
    pub outbox_is : s'.outbox ≡ s.outbox ++ packets_of box i chunks
    pub events_are :
        r'.events
        ≡ r.events ++ reports (s.file_sending i).size (s.file_sending i).transferred chunks
    pub place_is : (s'.file_sending i).transferred ≡ (s.file_sending i).transferred + total chunks
    pub in_step : InStep s' r'

  -- Calls that are refused.
  InStep-kept : {s s' r : Friend} → s'.file_sending i ≡ s.file_sending i → InStep s r → InStep s' r
  InStep-kept {s} {s'} {r} e (inl w) = inl (record {
    sending_is = rw e w.sending_is;
    receiving_is = w.receiving_is;
    same_size = rw e w.same_size;
    same_place = rw e w.same_place;
    inside = rw e w.inside;
    size_word = rw e w.size_word;
    online = w.online;
  })
  InStep-kept {s} {s'} {r} e (inr w) = inr (record {
    sending_is = rw e w.sending_is;
    receiving_is = w.receiving_is;
    whole = rw e w.whole;
    inside = rw e w.inside;
    size_word = rw e w.size_word;
  })

  Streamed-kept :
      {s s1 r s' r' : Friend} {chunks : List (List ℕ)}
      → s1.outbox ≡ s.outbox
      → s1.file_sending i ≡ s.file_sending i
      → Streamed s1 r chunks s' r'
      → Streamed s r chunks s' r'
  Streamed-kept {chunks = chunks} o e w = record {
    outbox_is = w.outbox_is ∙ ap (λ (x : List (List ℕ)). x ++ packets_of box i chunks) o;
    events_are = rw e at w.events_are;
    place_is = rw e at w.place_is;
    in_step = w.in_step;
  }

  Streamed-sent :
      {s s1 r r1 s' r' : Friend} {chunks : List (List ℕ)} (chunk : List ℕ)
      → s1.outbox ≡ s.outbox ++ ((82 ∷ i ∷ chunk) ∷ [])
      → r1.events
        ≡ r.events
          ++ reported box i slot room (s.file_sending i).size (s.file_sending i).transferred chunk
      → (s1.file_sending i).transferred ≡ (s.file_sending i).transferred + length chunk
      → (s1.file_sending i).size ≡ (s.file_sending i).size
      → Streamed s1 r1 chunks s' r'
      → Streamed s r (chunk ∷ chunks) s' r'
  Streamed-sent {s} {s1} {r} {r1} {s'} {r'} {chunks} chunk o ev place size w = record {
    outbox_is =
        w.outbox_is
        ∙ (ap (λ (x : List (List ℕ)). x ++ packets_of box i chunks) o
            ∙ append-singleton s.outbox (packets_of box i chunks) (82 ∷ i ∷ chunk));
    events_are =
        w.events_are
        ∙ rw (ev, place, size)
            (append_assoc r.events
              (reported box i slot room (s.file_sending i).size (s.file_sending i).transferred
                chunk)
              (reports (s.file_sending i).size ((s.file_sending i).transferred + length chunk)
                chunks));
    place_is = omega (arith, w.place_is, place);
    in_step = w.in_step;
  }

  InStep-inside :
      {s r : Friend}
      → InStep s r
      → ((s.file_sending i).transferred ≤ (s.file_sending i).size)
        × ((s.file_sending i).size < 2 ^ 64)
  InStep-inside (inl w) = (w.inside, w.size_word)
  InStep-inside (inr w) = (w.inside, w.size_word)

  InStep-Together :
      {s r : Friend}
      → InStep s r
      → (s.file_sending i).status ≡ transferring
      → Together box i slot room s r
  InStep-Together (inl w) e = w
  InStep-Together (inr w) e = absurd (cc (w.sending_is, e))

  -- Let the sender and the receiver of a file go on at the same place of a transfer in a slot
  -- below 256, or both be over, with the same size below 2^64, the receiver online. Whatever
  -- calls of `file_data` the sender makes for it, accepted or refused, once the receiver has
  -- handled the packets of the accepted chunks in order: the packets that were written are those
  -- of the accepted chunks, the receiver's client was given these chunks in order and without a
  -- gap, from the place where they went on, with an empty chunk exactly behind a last one that is
  -- not empty, and the two sides go on at the same place or are both over; a transfer of known
  -- size is over only with all of it sent. A chunk can hold at least one byte.
  pub send_chunks-receive_packets :
      (env : Env) (calls : List Call) (s r : Friend)
      → InStep s r
      → Streamed s r
          (send_chunks box i calls s).1
          (send_chunks box i calls s).0
          (receive_packets box i env (packets_of box i (send_chunks box i calls s).1) r)
  unfolding send_chunks receive_packets
  send_chunks-receive_packets env [] s r w = record {
    outbox_is = sym (append-nil s.outbox);
    events_are = sym (append-nil r.events);
    place_is = omega arith;
    in_step = w;
  }
  send_chunks-receive_packets env (c ∷ cs) s r w =
      let q = file_data box c.env s i c.position c.bytes in
      elim (file_data_cases box i c.env s c.position c.bytes) [
        | inr k ↦
            let refused : (q.1 == 0) ≡ false = ground (arith, k.0) in
            rw refused
              (Streamed-kept k.1 k.2 (send_chunks-receive_packets env cs q.0 r (InStep-kept k.2 w)))
        | inl (d, sent) ↦
            let fits =
              data_error-Fits box i s c.position (length c.bytes) (InStep-inside w).0
                (InStep-inside w).1 d in
            let together = InStep-Together w fits.transferring_is in
            let step =
              chunk_step box i slot room env s q.0 r c.bytes sent.2.0 c.position together fits
                sent.2.1 in
            rw sent.0 (
              Streamed-sent c.bytes sent.1 step.1 step.2 step.3 (
                send_chunks-receive_packets env cs q.0
                  (handle_file_packet box env r (82 ∷ i ∷ c.bytes)) step.0))
      ]
