-- ===== src/Messenger/Files/Seek.antt =====
-- toxcore/Messenger.c: `file_seek` at the peer that receives a file, and `handle_filecontrol` at the one
-- that sends it.
use insert_project_name_here.Base.{
  ℕ, ◌^◌, ◌≤◌, ◌<◌, ◌≡◌, refl, ap, ◌∙◌, Bool, true, false, not, ◌||◌, List, [], ◌∷◌, ◌++◌, arith,
  length, ltb, leb, ◌==◌, if_elim, if_fst, be64, of_be, of_be-be64,
}
use insert_project_name_here.NetCrypto.Connection.{CryptoBox}
use insert_project_name_here.NetCrypto.Connection.Send.{max_crypto_data_size}
use insert_project_name_here.Messenger.Files.{
  not_accepted, is_none, is_not_accepted, FileTransfers, Friend, set_receiving, set_sending,
  set_slot, Env,
}
use insert_project_name_here.Messenger.Files.Send.{
  is_receiving, slot_of, set_transfer, send_file_control_packet, file_seek,
}
use insert_project_name_here.Messenger.Files.Receive.{
  seek_transfer, control_existing, handle_filecontrol, handle_file_control_packet,
  handle_file_packet,
}
use insert_project_name_here.Messenger.Files.Packets.{
  transfer_of-set_transfer, send_file_control_packet-Sent,
}

-- A sender whose transfer has moved to a position, and that has otherwise stayed as it was.
abbrev pub GoesOnFrom : Friend → ℕ → ℕ → Friend → Type 0
GoesOnFrom before position i g =
    (g.file_sending i
      ≡ record (before.file_sending i) { transferred = position; requested = position })
    × (g.is_online ≡ true)
    × (g.events ≡ before.events)

set_transfer-GoesOnFrom :
    (g : Friend) (position i : ℕ)
    → g.is_online ≡ true
    → GoesOnFrom g position i (
        set_transfer g false i
          (record (g.file_sending i) { transferred = position; requested = position }))
unfolding set_transfer set_sending
set_transfer-GoesOnFrom g position i online = (
  transfer_of-set_transfer g false i
      (record (g.file_sending i) { transferred = position; requested = position }),
  online,
  refl,
)

outbox-set_receiving :
    (f : Friend) (i : ℕ) (ft : FileTransfers) → (set_receiving f i ft).outbox ≡ f.outbox
unfolding set_receiving
outbox-set_receiving f i ft = refl

transfer_of-set_receiving :
    (f : Friend) (i : ℕ) (ft : FileTransfers) → (set_receiving f i ft).file_receiving i ≡ ft
unfolding set_receiving set_slot
transfer_of-set_receiving f i ft = ground arith

-- The eight bytes of a position that lies in the file.
seek_transfer-position :
    (ft : FileTransfers) (bytes : List ℕ) (position : ℕ)
    → length bytes ≡ 8
    → of_be 0 bytes ≡ position
    → ft.status ≡ not_accepted
    → position < ft.size
    → seek_transfer true ft bytes
      ≡ (record ft { transferred = position; requested = position }, true)
unfolding seek_transfer
seek_transfer-position ft bytes position size value st inside =
    let P : FileTransfers × Bool → Type 0 =
      λ q. q ≡ (record ft { transferred = position; requested = position }, true) in
    if_elim P (not (length bytes == 8)) (ft, false) _ (λ e. absurd (ground (arith, e, size)))
      (λ _.
        if_elim P (not (is_not_accepted ft.status) || false) (ft, false) _
          (λ e. absurd (ground (arith, e, st)))
          (λ _.
            if_elim P (leb ft.size (of_be 0 bytes)) (ft, false) _
              (λ e. absurd (ground (arith, e, value, inside))) (λ _. rw value refl)))

module _ (box : CryptoBox) (i position : ℕ) (bytes : List ℕ) (size : length bytes ≡ 8)
    (value : of_be 0 bytes ≡ position) where
  control_existing-seek :
      (g : Friend)
      → g.is_online ≡ true
      → (g.file_sending i).status ≡ not_accepted
      → position < (g.file_sending i).size
      → GoesOnFrom g position i (control_existing g true i 3 bytes).0
  unfolding control_existing
  control_existing-seek g online st inside =
      rw (seek_transfer-position (g.file_sending i) bytes position size value st inside)
        (set_transfer-GoesOnFrom g position i online)

  handle_file_control_packet-seek :
      (env : Env) (g : Friend)
      → i < 256
      → g.is_online ≡ true
      → (g.file_sending i).status ≡ not_accepted
      → position < (g.file_sending i).size
      → GoesOnFrom g position i (handle_file_control_packet box env g (1 ∷ i ∷ 3 ∷ bytes))
  unfolding handle_file_control_packet handle_filecontrol
  handle_file_control_packet-seek env g slot online st inside =
      if_elim (GoesOnFrom g position i) (ltb (length (1 ∷ i ∷ 3 ∷ bytes)) 3) g _
        (λ q. absurd (ground (arith, q)))
        (λ _.
          if_elim (GoesOnFrom g position i) (leb 256 i) g _ (λ q. absurd (ground (arith, q, slot)))
            (λ _.
              if_fst (GoesOnFrom g position i) (is_none (g.file_sending i).status) _ _
                (λ q. absurd (ground (arith, q, st)))
                (λ _. control_existing-seek g online st inside)))

  handle_file_packet-seek :
      (env : Env) (g : Friend)
      → i < 256
      → g.is_online ≡ true
      → (g.file_sending i).status ≡ not_accepted
      → position < (g.file_sending i).size
      → GoesOnFrom g position i (handle_file_packet box env g (81 ∷ 1 ∷ i ∷ 3 ∷ bytes))
  unfolding handle_file_packet
  handle_file_packet-seek env g slot online st inside =
      if_elim (GoesOnFrom g position i) (not g.is_online) g
        (handle_file_control_packet box env g (1 ∷ i ∷ 3 ∷ bytes))
        (λ q. absurd (ground (arith, q, online)))
        (λ _. handle_file_control_packet-seek env g slot online st inside)

module _ (box : CryptoBox) where
  -- What a seek leads to at both ends.
  abbrev pub Sought : Env → Friend → Friend → ℕ → ℕ → Friend → Type 0
  Sought env f g i position f' =
      let packet = 81 ∷ 1 ∷ i ∷ 3 ∷ be64 position in
      (f'.outbox ≡ f.outbox ++ (packet ∷ []))
      × ((f'.file_receiving i).transferred ≡ position)
      × GoesOnFrom g position i (handle_file_packet box env g packet)

  sought_lem :
      (env : Env) (f g h : Friend) (i position : ℕ) (ft : FileTransfers)
      → i < 256
      → position < 2 ^ 64
      → g.is_online ≡ true
      → (g.file_sending i).status ≡ not_accepted
      → position < (g.file_sending i).size
      → h.outbox ≡ f.outbox ++ ((81 ∷ 1 ∷ i ∷ 3 ∷ be64 position) ∷ [])
      → Sought env f g i position (set_receiving h i (record ft { transferred = position }))
  sought_lem env f g h i position ft slot word online st inside o = (
    outbox-set_receiving h i (record ft { transferred = position }) ∙ o,
    ap (λ (t : FileTransfers). t.transferred)
        (transfer_of-set_receiving h i (record ft { transferred = position })),
    handle_file_packet-seek box i position (be64 position) refl (of_be-be64 position word) env g
        slot online st inside,
  )

  -- If the friend, who is online, has not seen our accept of a transfer of the same size as ours,
  -- and `file_seek` to a position below 2^64 succeeds, then exactly its packet was written, our
  -- transfer goes on from the position, and once the friend has handled the packet, what the
  -- friend's transfer has transferred and requested is the position; the friend's transfer is
  -- otherwise as it was, the friend is online, and its client was told nothing. Packets can have
  -- at least twelve bytes.
  pub file_seek-handle_file_packet :
      (env env' : Env) (f g : Friend) (filenumber position : ℕ)
      → 12 ≤ max_crypto_data_size box
      → position < 2 ^ 64
      → g.is_online ≡ true
      → (g.file_sending (slot_of filenumber)).status ≡ not_accepted
      → (g.file_sending (slot_of filenumber)).size ≡ (f.file_receiving (slot_of filenumber)).size
      → (file_seek box env f filenumber position).1 ≡ 0
      → Sought env' f g (slot_of filenumber) position (file_seek box env f filenumber position).0
  unfolding file_seek
  file_seek-handle_file_packet env env' f g filenumber position room word online st same =
      let i = slot_of filenumber in
      let ft = f.file_receiving i in
      let sending = send_file_control_packet box env f true i 3 (be64 position) in
      let P : Friend × ℕ → Type 0 = λ q. q.1 ≡ 0 → Sought env' f g i position q.0 in
      if_elim P (not f.is_online) (f, 2) _ (λ _ q. absurd (ground (arith, q)))
        (λ _.
          if_elim P (not (is_receiving filenumber)) (f, 4) _ (λ _ q. absurd (ground (arith, q)))
            (λ _.
              if_elim P (leb 256 i) (f, 3) _ (λ _ q. absurd (ground (arith, q)))
                (λ slot.
                  if_elim P (is_none ft.status) (f, 3) _ (λ _ q. absurd (ground (arith, q)))
                    (λ _.
                      if_elim P (not (is_not_accepted ft.status)) (f, 5) _
                        (λ _ q. absurd (ground (arith, q)))
                        (λ _.
                          if_elim P (leb ft.size position) (f, 6) _
                            (λ _ q. absurd (ground (arith, q)))
                            (λ inside.
                              if_elim P sending.1 _ (sending.0, 8)
                                (λ done _.
                                  sought_lem env' f g sending.0 i position ft (ground (arith, slot))
                                    word online st (ground (arith, inside, same))
                                    (send_file_control_packet-Sent box env f true i 3
                                      (be64 position) room done).0)
                                (λ _ q. absurd (ground (arith, q)))))))))
