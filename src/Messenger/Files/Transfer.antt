-- ===== src/Messenger/Files/Transfer.antt =====
-- toxcore/Messenger.c: chunks of a file that one peer sends with `file_data`, and what the other peer makes
-- of the packets.
use insert_project_name_here.Base.{
  ℕ, ◌+◌, ◌-◌, ◌^◌, ◌≤◌, ◌<◌, ◌≡◌, ◌⊎◌, inl, inr, refl, sym, ◌∙◌, Bool, true, false, not,
  Bool-cases, ◌&&◌, ◌||◌, List, [], ◌∷◌, ◌++◌, arith, length, take-length, append-singleton, leb,
  ◌==◌, if◌then◌else◌, if_elim, u16, u64,
}
use insert_project_name_here.NetCrypto.Connection.{CryptoBox}
use insert_project_name_here.Messenger.Files.{
  no_transfer, transferring, finished, is_transferring, FileTransfers, FileEvent, data_came, Friend,
  set_slot, set_receiving, Env,
}
use insert_project_name_here.Messenger.Files.Send.{max_file_data_size, data_transfer}
use insert_project_name_here.Messenger.Files.Receive.{
  receiving_number, handle_file_data, handle_file_packet, is_whole, bounded,
}
use insert_project_name_here.Messenger.Files.Checks.{Fits}

module _ (box : CryptoBox) (i : ℕ) (slot : i < 256) (room : 0 < max_file_data_size box) where
  -- The two sides of a transfer: both go on at the same place.
  pub record Together (s r : Friend) : Type 0 where
    pub sending_is : (s.file_sending i).status ≡ transferring
    pub receiving_is : (r.file_receiving i).status ≡ transferring
    pub same_size : (r.file_receiving i).size ≡ (s.file_sending i).size
    pub same_place : (r.file_receiving i).transferred ≡ (s.file_sending i).transferred
    pub inside : (s.file_sending i).transferred ≤ (s.file_sending i).size
    pub size_word : (s.file_sending i).size < 2 ^ 64
    pub online : r.is_online ≡ true

  -- Or both are over, with all of the file sent if its size was known.
  pub record Over (s r : Friend) : Type 0 where
    pub sending_is : (s.file_sending i).status ≡ finished
    pub receiving_is : (r.file_receiving i).status ≡ no_transfer
    pub whole :
        ((s.file_sending i).transferred ≡ (s.file_sending i).size)
        ⊎ ((s.file_sending i).size ≡ 2 ^ 64 - 1)
    pub inside : (s.file_sending i).transferred ≤ (s.file_sending i).size
    pub size_word : (s.file_sending i).size < 2 ^ 64

  -- What the receiving client is called with for a chunk: the chunk, and an empty one behind the last.
  abbrev pub is_last : ℕ → ℕ → ℕ → Bool
  is_last size position len =
      not (len == 0) && ((position + len == size) || not (len == max_file_data_size box))

  abbrev pub reported : ℕ → ℕ → List ℕ → List FileEvent
  reported size position chunk =
      data_came (receiving_number i) position chunk
      ∷ (if is_last size position (length chunk)
          then data_came (receiving_number i) (position + length chunk) [] ∷ []
          else [])

  -- The receiver after a chunk.
  record Received (r : Friend) (chunk : List ℕ) (over : Bool) (r' : Friend) : Type 0 where
    status_is : (r'.file_receiving i).status ≡ (if over then no_transfer else transferring)
    size_is : (r'.file_receiving i).size ≡ (r.file_receiving i).size
    place_is : (r'.file_receiving i).transferred ≡ (r.file_receiving i).transferred + length chunk
    events_are :
        r'.events
        ≡ r.events ++ reported (r.file_receiving i).size (r.file_receiving i).transferred chunk
    online_is : r'.is_online ≡ r.is_online

  -- Whether a chunk ends the transfer.
  abbrev ends : ℕ → ℕ → ℕ → Bool
  ends size position len = (position + len == size) || not (len == max_file_data_size box)

  set_slot_self : (slots : ℕ → FileTransfers) (ft : FileTransfers) → set_slot slots i ft i ≡ ft
  unfolding set_slot
  set_slot_self slots ft = ground arith

  slot-Received :
      (r : Friend) (chunk : List ℕ) (over : Bool) (ft : FileTransfers) (events : List FileEvent)
      → ft.status ≡ (if over then no_transfer else transferring)
      → ft.size ≡ (r.file_receiving i).size
      → ft.transferred ≡ (r.file_receiving i).transferred + length chunk
      → events
        ≡ r.events ++ reported (r.file_receiving i).size (r.file_receiving i).transferred chunk
      → Received r chunk over (record (set_receiving r i ft) { events = events })
  unfolding set_receiving
  slot-Received r chunk over ft events st sz pl ev = record {
    status_is = rw (set_slot_self r.file_receiving ft) st;
    size_is = rw (set_slot_self r.file_receiving ft) sz;
    place_is = rw (set_slot_self r.file_receiving ft) pl;
    events_are = ev;
    online_is = refl;
  }

  -- On a chunk within the file, the receiver's test is that of `is_last`.
  last_true :
      (size position len : ℕ)
      → position + len ≤ size
      → (not (len == 0) && (leb size (position + len) || not (len == max_file_data_size box)))
        ≡ true
      → is_last size position len ≡ true
  last_true size position len h e = ground (arith, h, e)

  last_false :
      (size position len : ℕ)
      → position + len ≤ size
      → (not (len == 0) && (leb size (position + len) || not (len == max_file_data_size box)))
        ≡ false
      → is_last size position len ≡ false
  last_false size position len h e = ground (arith, h, e)

  handle_file_data-Received :
      (r : Friend) (chunk : List ℕ)
      → (r.file_receiving i).status ≡ transferring
      → (r.file_receiving i).transferred + length chunk ≤ (r.file_receiving i).size
      → (r.file_receiving i).size < 2 ^ 64
      → length chunk ≤ max_file_data_size box
      → Received r chunk
          (ends (r.file_receiving i).size (r.file_receiving i).transferred (length chunk))
          (handle_file_data box r (i ∷ chunk))
  unfolding handle_file_data
  handle_file_data-Received r chunk st h w few =
      let ft = r.file_receiving i in
      let len = length chunk in
      let over = ends ft.size ft.transferred len in
      let place : u64 (ft.transferred + len) ≡ ft.transferred + len = omega (arith, h, w) in
      let same : bounded box ft (u16 len) ≡ len = ground (arith, h, w, few) in
      if_elim (Received r chunk over) (leb 256 i) r _ (λ e. absurd (ground (arith, e, slot)))
        (λ _.
          if_elim (Received r chunk over) (not (is_transferring ft.status)) r _
            (λ e. absurd (ground (arith, e, st)))
            (λ _.
              if_elim (Received r chunk over)
                (is_whole box ft (bounded box ft (u16 len))
                  (u64 (ft.transferred + bounded box ft (u16 len))))
                _ _
                (λ e.
                  slot-Received r chunk over _ _ (ground (arith, rw (same, place) at e)) refl
                    (rw (same, place) refl)
                    (rw
                      (
                        same,
                        place,
                        take-length chunk,
                        last_true ft.size ft.transferred len h (rw (same, place) at e),
                      )
                      (append-singleton r.events
                        (data_came (receiving_number i) (ft.transferred + len) [] ∷ []) _)))
                (λ e.
                  slot-Received r chunk over _ _ (ground (arith, rw (same, place) at e, st, same))
                    refl (rw (same, place) refl)
                    (rw
                      (
                        same,
                        take-length chunk,
                        last_false ft.size ft.transferred len h (rw (same, place) at e),
                      )
                      refl))))

  -- The sender after a chunk that was accepted.
  record Moved (ft : FileTransfers) (len : ℕ) (ft' : FileTransfers) : Type 0 where
    status_is : ft'.status ≡ (if ends ft.size ft.transferred len then finished else transferring)
    size_is : ft'.size ≡ ft.size
    place_is : ft'.transferred ≡ ft.transferred + len

  data_transfer-Moved :
      (ft : FileTransfers) (len number : ℕ)
      → ft.status ≡ transferring
      → ft.transferred + len ≤ ft.size
      → ft.size < 2 ^ 64
      → Moved ft len (data_transfer box ft len number)
  unfolding data_transfer
  data_transfer-Moved ft len number st h w =
      let place : u64 (ft.transferred + len) ≡ ft.transferred + len = omega (arith, h, w) in
      if_elim (Moved ft len)
        (not (len == max_file_data_size box) || ft.size == u64 (ft.transferred + len)) _ _
        (λ e. record {
          status_is = ground (arith, rw place at e);
          size_is = refl;
          place_is = place;
        })
        (λ e. record {
          status_is = ground (arith, rw place at e, st);
          size_is = refl;
          place_is = place;
        })

  handle_file_packet-data :
      (env : Env) (r : Friend) (chunk : List ℕ)
      → r.is_online ≡ true
      → handle_file_packet box env r (82 ∷ i ∷ chunk) ≡ handle_file_data box r (i ∷ chunk)
  unfolding handle_file_packet
  handle_file_packet-data env r chunk e = rw (e, handle_file_packet) refl

  -- One chunk that was accepted leaves the two sides together, or both over.
  pub chunk_step :
      (env : Env) (s s' r : Friend) (chunk : List ℕ) (number position : ℕ)
      → Together s r
      → Fits box i s position (length chunk)
      → s'.file_sending i ≡ data_transfer box (s.file_sending i) (length chunk) number
      → (Together s' (handle_file_packet box env r (82 ∷ i ∷ chunk))
          ⊎ Over s' (handle_file_packet box env r (82 ∷ i ∷ chunk)))
        × ((handle_file_packet box env r (82 ∷ i ∷ chunk)).events
            ≡ r.events ++ reported (s.file_sending i).size (s.file_sending i).transferred chunk)
        × ((s'.file_sending i).transferred ≡ (s.file_sending i).transferred + length chunk)
        × ((s'.file_sending i).size ≡ (s.file_sending i).size)
  chunk_step env s s' r chunk number position w fits e =
      let ft = s.file_sending i in
      let over = ends ft.size ft.transferred (length chunk) in
      let moved : Moved ft (length chunk) (s'.file_sending i) =
        rw e (data_transfer-Moved ft (length chunk) number w.sending_is fits.inside w.size_word) in
      let received =
        handle_file_data-Received r chunk w.receiving_is
          (rw (w.same_size, w.same_place) fits.inside) (rw w.same_size w.size_word) fits.small in
      rw (handle_file_packet-data env r chunk w.online) (
        elim (Bool-cases over) [
          | inl q ↦ inr (record {
            sending_is = moved.status_is ∙ rw q refl;
            receiving_is = received.status_is ∙ rw (w.same_size, w.same_place, q) refl;
            whole = rw (moved.place_is, moved.size_is) (ground (arith, q, fits.last));
            inside = omega (arith, moved.place_is, moved.size_is, fits.inside);
            size_word = omega (arith, moved.size_is, w.size_word);
          })
          | inr q ↦ inl (record {
            sending_is = moved.status_is ∙ rw q refl;
            receiving_is = received.status_is ∙ rw (w.same_size, w.same_place, q) refl;
            same_size = received.size_is ∙ (w.same_size ∙ sym moved.size_is);
            same_place = omega (arith, received.place_is, w.same_place, moved.place_is);
            inside = omega (arith, moved.place_is, moved.size_is, fits.inside);
            size_word = omega (arith, moved.size_is, w.size_word);
            online = received.online_is ∙ w.online;
          })
        ],
        rw (w.same_size, w.same_place) at received.events_are,
        moved.place_is,
        moved.size_is,
      )
