-- ===== src/Messenger/Files/Resume.antt =====
-- toxcore/Messenger.c: a transfer that the receiver seeks in and then accepts, up to the first chunk that
-- the sender's client is asked for.
use insert_project_name_here.Base.{
  ℕ, ◌-◌, ◌^◌, ◌≤◌, ◌<◌, ◌≡◌, refl, ap, ◌∙◌, true, false, not, ◌&&◌, [], ◌∷◌, ◌++◌, arith, leb,
  ◌==◌, if◌then◌else◌, if_elim, if_fst, be64,
}
use mathlib.Core.List.{append_assoc}
use insert_project_name_here.NetCrypto.Connection.{CryptoBox}
use insert_project_name_here.NetCrypto.Connection.Send.{max_crypto_data_size}
use insert_project_name_here.Messenger.Files.{
  not_accepted, transferring, pause_not, is_none, is_not_accepted, is_transferring, is_unpaused,
  FileTransfers, Friend, Env, chunk_wanted, controlled, set_sending, call,
}
use insert_project_name_here.Messenger.Files.Send.{
  slot_of, is_receiving, set_transfer, file_seek, file_data,
}
use insert_project_name_here.Messenger.Files.Receive.{
  accept_transfer, control_existing, handle_filecontrol, handle_file_control_packet,
  handle_file_packet,
}
use insert_project_name_here.Messenger.Files.Chunks.{
  want_chunk, chunk_length, request_chunk, max_speed_reached, request_chunks,
}
use insert_project_name_here.Messenger.Files.Packets.{transfer_of-set_transfer}
use insert_project_name_here.Messenger.Files.Seek.{file_seek-handle_file_packet}

-- A client that leaves the messenger alone.
abbrev pub quiet : ℕ → ℕ → ℕ → Friend → Friend
quiet i position len f = f

-- A sender that may be asked for the chunks of a file from a position on.
pub record Ready (position i : ℕ) (h : Friend) : Type 0 where
  pub status_is : (h.file_sending i).status ≡ transferring
  pub paused_is : (h.file_sending i).paused ≡ pause_not
  pub requested_is : (h.file_sending i).requested ≡ position
  pub inside : position < (h.file_sending i).size

module _ (box : CryptoBox) where
  request_chunk-events :
      (i : ℕ) (h : Friend)
      → (request_chunk box quiet i h).events
        ≡ h.events
          ++ (chunk_wanted i
                (h.file_sending i).requested
                (chunk_length box quiet (h.file_sending i))
              ∷ [])
  unfolding request_chunk want_chunk set_sending
  request_chunk-events i h = refl

  speed_aside :
      (env : Env) (i : ℕ) (h : Friend)
      → ((max_speed_reached box quiet env h).0.events ≡ h.events)
        × ((max_speed_reached box quiet env h).0.file_sending ≡ h.file_sending)
  unfolding max_speed_reached
  speed_aside env i h = (refl, refl)

  -- A round of the loop asks for the chunk at the position.
  Ready-request_chunks :
      (env : ℕ → Env) (position i free_slots : ℕ) (h : Friend)
      → Ready position i h
      → 0 < free_slots
      → (max_speed_reached box quiet (env free_slots) h).1 ≡ false
      → (request_chunks box quiet 1 env i free_slots h).0.events
        ≡ h.events ++ (chunk_wanted i position (chunk_length box quiet (h.file_sending i)) ∷ [])
  unfolding request_chunks
  Ready-request_chunks env position i free_slots h w some_free fast =
      let ft = h.file_sending i in
      let st : ft.status ≡ transferring = w.status_is in
      let pa : ft.paused ≡ pause_not = w.paused_is in
      let re : ft.requested ≡ position = w.requested_is in
      let si : position < ft.size = w.inside in
      let reached = max_speed_reached box quiet (env free_slots) h in
      let g = reached.0 in
      let same = speed_aside (env free_slots) i h in
      let free = if reached.1 then 0 else free_slots in
      let left : free ≡ free_slots = rw fast refl in
      let P : Friend × ℕ → Type 0 =
        λ q. q.0.events ≡ h.events ++ (chunk_wanted i position (chunk_length box quiet ft) ∷ []) in
      if_elim P (not (is_transferring ft.status && is_unpaused ft.paused)) (h, free_slots) _
        (λ q. absurd (ground (arith, q, st, pa)))
        (λ _.
          if_elim P (free == 0) (g, 0) _ (λ q. absurd (ground (arith, q, left, some_free)))
            (λ _.
              if_elim P (ft.size == 0) ((file_data box (env free_slots) g i 0 []).0, free) _
                (λ q. absurd (ground (arith, q, si)))
                (λ _.
                  if_elim P (ft.size == ft.requested) (g, free)
                    (request_chunk box quiet i g, free - 1)
                    (λ q. absurd (ground (arith, q, re, si)))
                    (λ _. request_chunk-events i g ∙ rw (same.0, same.1, re) refl))))

  -- What our accept does to the friend's transfer.
  abbrev Accepted : Env → Friend → ℕ → FileTransfers → Friend → Type 0
  Accepted env g i ft h =
      (h.file_sending i ≡ record ft { status = transferring })
      × (h.events ≡ g.events ++ (controlled i 0 ∷ []))

  accept_transfer-first :
      (ft : FileTransfers)
      → ft.status ≡ not_accepted
      → accept_transfer true ft ≡ (record ft { status = transferring }, true)
  unfolding accept_transfer
  accept_transfer-first ft st = rw st refl

  set_sending-Accepted :
      (env : Env) (g : Friend) (i : ℕ) (ft : FileTransfers)
      → Accepted env g i ft
          (call (controlled i 0) (set_transfer g false i (record ft { status = transferring })))
  unfolding set_transfer set_sending
  set_sending-Accepted env g i ft =
      (transfer_of-set_transfer g false i (record ft { status = transferring }), refl)

  handle_file_packet-accept :
      (env : Env) (g : Friend) (i : ℕ)
      → i < 256
      → g.is_online ≡ true
      → (g.file_sending i).status ≡ not_accepted
      → Accepted env g i (g.file_sending i) (handle_file_packet box env g (81 ∷ 1 ∷ i ∷ 0 ∷ []))
  unfolding handle_file_packet handle_file_control_packet handle_filecontrol control_existing
  handle_file_packet-accept env g i slot online st =
      let P = Accepted env g i (g.file_sending i) in
      if_elim P (not g.is_online) g _ (λ q. absurd (ground (arith, q, online)))
        (λ _.
          if_elim P (leb 256 i) g _ (λ q. absurd (ground (arith, q, slot)))
            (λ _.
              if_fst P (is_none (g.file_sending i).status) _ _ (λ q. absurd (ground (arith, q, st)))
                (λ _.
                  rw (accept_transfer-first (g.file_sending i) st)
                    (set_sending-Accepted env g i (g.file_sending i)))))

  -- The friend after a seek packet and an accept packet.
  abbrev pub resumed : Env → Friend → ℕ → ℕ → Friend
  resumed env g i position =
      handle_file_packet box env (handle_file_packet box env g (81 ∷ 1 ∷ i ∷ 3 ∷ be64 position))
        (81 ∷ 1 ∷ i ∷ 0 ∷ [])

  -- A seek succeeds only for a slot and a position that exist.
  file_seek-inside :
      (env : Env) (f : Friend) (filenumber position : ℕ)
      → (file_seek box env f filenumber position).1 ≡ 0
      → (slot_of filenumber < 256) × (position < (f.file_receiving (slot_of filenumber)).size)
  unfolding file_seek
  file_seek-inside env f filenumber position =
      let i = slot_of filenumber in
      let ft = f.file_receiving i in
      let P : Friend × ℕ → Type 0 = λ q. q.1 ≡ 0 → (i < 256) × (position < ft.size) in
      if_elim P (not f.is_online) (f, 2) _ (λ _ q. absurd (ground (arith, q)))
        (λ _.
          if_elim P (not (is_receiving filenumber)) (f, 4) _ (λ _ q. absurd (ground (arith, q)))
            (λ _.
              if_elim P (leb 256 i) (f, 3) _ (λ _ q. absurd (ground (arith, q)))
                (λ slot.
                  if_elim P (is_none ft.status) (f, 3) _ (λ _ q. absurd (ground (arith, q)))
                    (λ _.
                      if_elim P (not (is_not_accepted ft.status)) (f, 5) _
                        (λ _ q. absurd (ground (arith, q)))
                        (λ _.
                          if_elim P (leb ft.size position) (f, 6) _
                            (λ _ q. absurd (ground (arith, q)))
                            (λ inside _. (below slot, below inside)))))))
    where
      below : {m n : ℕ} → leb n m ≡ false → m < n
      below h = ground (arith, h)

  -- Let the friend be online, with a transfer that is not accepted, not paused and of the same
  -- size as ours, and let `file_seek` to a position below 2^64 succeed. Once the friend has
  -- handled its packet and then that of our accept, a round of the loop of `do_reqchunk_filecb`
  -- over this transfer, with a free slot, the maximum speed not reached and a client that leaves
  -- the messenger alone, asks the friend's client for the chunk at this very position; before,
  -- the client was told of the accept, and of nothing else. Packets can have at least twelve
  -- bytes.
  pub file_seek-request_chunks :
      (env env' : Env) (rounds : ℕ → Env) (f g : Friend) (filenumber position free_slots : ℕ)
      → 12 ≤ max_crypto_data_size box
      → position < 2 ^ 64
      → g.is_online ≡ true
      → (g.file_sending (slot_of filenumber)).status ≡ not_accepted
      → (g.file_sending (slot_of filenumber)).paused ≡ pause_not
      → (g.file_sending (slot_of filenumber)).size ≡ (f.file_receiving (slot_of filenumber)).size
      → (file_seek box env f filenumber position).1 ≡ 0
      → 0 < free_slots
      → (max_speed_reached box quiet
          (rounds free_slots)
          (resumed env' g (slot_of filenumber) position)).1
        ≡ false
      → (request_chunks box quiet 1 rounds
          (slot_of filenumber)
          free_slots
          (resumed env' g (slot_of filenumber) position)).0.events
        ≡ g.events
          ++ (controlled (slot_of filenumber) 0
              ∷ chunk_wanted (slot_of filenumber) position (
                  chunk_length box quiet (
                    (resumed env' g (slot_of filenumber) position).file_sending
                      (slot_of filenumber)))
              ∷ [])
  file_seek-request_chunks env env' rounds f g filenumber position free_slots room word online st
        pause same done some_free fast =
      let i = slot_of filenumber in
      let bounds = file_seek-inside env f filenumber position done in
      let sought =
        (file_seek-handle_file_packet box env env' f g filenumber position room word online st same
          done).2 in
      let g' = handle_file_packet box env' g (81 ∷ 1 ∷ i ∷ 3 ∷ be64 position) in
      let moved = sought.0 in
      let accepted =
        handle_file_packet-accept env' g' i bounds.0 sought.1
          (ap (λ (t : FileTransfers). t.status) moved ∙ st) in
      let now = accepted.0 in
      Ready-request_chunks rounds position i free_slots (resumed env' g i position)
        (record {
          status_is = ap (λ (t : FileTransfers). t.status) now;
          paused_is =
              ap (λ (t : FileTransfers). t.paused) now
              ∙ (ap (λ (t : FileTransfers). t.paused) moved ∙ pause);
          requested_is =
              ap (λ (t : FileTransfers). t.requested) now
              ∙ ap (λ (t : FileTransfers). t.requested) moved;
          inside = omega (
            arith,
            bounds.1,
            same,
            ap (λ (t : FileTransfers). t.size) now ∙ ap (λ (t : FileTransfers). t.size) moved,
          );
        })
        some_free fast
      ∙ rw (accepted.1, sought.2) (append_assoc g.events (controlled i 0 ∷ []) _)
