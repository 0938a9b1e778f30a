-- ===== src/Messenger/Files/Handlers.antt =====
-- toxcore/Messenger.c: `num_sending_files` through the packets of the friend.
use insert_project_name_here.Base.{
  ℕ, ◌+◌, ◌<◌, ◌≡◌, refl, Bool, true, false, not, ◌||◌, List, [], ◌∷◌, arith, length, take, drop,
  ltb, leb, ◌==◌, if◌then◌else◌, if_elim, if_fst, u16, u64, of_be,
}
use insert_project_name_here.NetCrypto.Connection.{CryptoBox}
use insert_project_name_here.Messenger.Files.{
  no_transfer, not_accepted, is_none, is_not_accepted, is_transferring, FileTransfers, Friend,
  set_sending, set_receiving, call, Env, asked, controlled, data_came, pause_not,
}
use insert_project_name_here.Messenger.Files.Send.{
  transfer_of, set_transfer, send_file_control_packet,
}
use insert_project_name_here.Messenger.Files.Receive.{
  accept_transfer, pause_transfer, seek_transfer, control_existing, handle_filecontrol,
  handle_file_control_packet, handle_file_sendrequest, handle_file_data, handle_file_packet,
  receiving_number, real_filenumber, byte_at, is_whole, bounded,
}
use insert_project_name_here.Messenger.Files.Counting.{
  Counted, Same-Counted, send_file_control_packet-Same,
}
use insert_project_name_here.Messenger.Files.Balance.{inside, kept-Counted, ended-Counted}
use insert_project_name_here.Messenger.Files.Steps.{call-Counted, set_receiving-Counted}

module _ (box : CryptoBox) where
  -- The cases of `handle_filecontrol` for a transfer that we send.
  accept_transfer-used :
      (ft : FileTransfers) → is_none ft.status ≡ is_none (accept_transfer true ft).0.status
  unfolding accept_transfer
  accept_transfer-used ft = ground arith

  pause_transfer-used :
      (ft : FileTransfers) → is_none ft.status ≡ is_none (pause_transfer ft).0.status
  unfolding pause_transfer
  pause_transfer-used ft = ground arith

  seek_transfer-used :
      (ft : FileTransfers) (bytes : List ℕ)
      → is_none ft.status ≡ is_none (seek_transfer true ft bytes).0.status
  unfolding seek_transfer
  seek_transfer-used ft bytes =
      let P : FileTransfers → Type 0 = λ x. is_none ft.status ≡ is_none x.status in
      if_fst P (not (length bytes == 8)) (ft, false) _ (λ _. refl)
        (λ _.
          if_fst P (not (is_not_accepted ft.status) || false) (ft, false) _ (λ _. refl)
            (λ _. if_fst P (leb ft.size (of_be 0 bytes)) (ft, false) _ (λ _. refl) (λ _. refl)))

  control_existing-Counted :
      (f : Friend) (sending : Bool) (i control : ℕ) (bytes : List ℕ)
      → i < 256
      → is_none (transfer_of f (not sending) i).status ≡ false
      → Counted f
      → Counted (control_existing f sending i control bytes).0
  unfolding control_existing set_transfer
  control_existing-Counted f true i control bytes h e w =
      let ft = f.file_sending i in
      let event = controlled i control in
      if_fst Counted (control == 0) _ _
        (λ _.
          if_fst Counted (accept_transfer true ft).1 _ (f, false)
            (λ _.
              call-Counted event (set_sending f i (accept_transfer true ft).0)
                (kept-Counted f i _ h (accept_transfer-used ft) w))
            (λ _. w))
        (λ _.
          if_fst Counted (control == 1) _ _
            (λ _.
              if_fst Counted (pause_transfer ft).1 _ (f, false)
                (λ _.
                  call-Counted event (set_sending f i (pause_transfer ft).0)
                    (kept-Counted f i _ h (pause_transfer-used ft) w))
                (λ _. w))
            (λ _.
              if_fst Counted (control == 2) _ _
                (λ _.
                  ended-Counted (call event f) i (record ft { status = no_transfer }) h e refl
                    (call-Counted event f w))
                (λ _.
                  if_fst Counted (seek_transfer true ft bytes).1 _ (f, false)
                    (λ _. kept-Counted f i _ h (seek_transfer-used ft bytes) w) (λ _. w))))
  control_existing-Counted f false i control bytes h e w =
      let ft = f.file_receiving i in
      let event = controlled (real_filenumber false i) control in
      let set = λ (x : FileTransfers). set_receiving-Counted f i x w in
      if_fst Counted (control == 0) _ _
        (λ _.
          if_fst Counted (accept_transfer false ft).1 _ (f, false)
            (λ _.
              call-Counted event (set_receiving f i (accept_transfer false ft).0)
                (set (accept_transfer false ft).0))
            (λ _. w))
        (λ _.
          if_fst Counted (control == 1) _ _
            (λ _.
              if_fst Counted (pause_transfer ft).1 _ (f, false)
                (λ _.
                  call-Counted event (set_receiving f i (pause_transfer ft).0)
                    (set (pause_transfer ft).0))
                (λ _. w))
            (λ _.
              if_fst Counted (control == 2) _ _
                (λ _.
                  set_receiving-Counted (call event f) i (record ft { status = no_transfer })
                    (call-Counted event f w))
                (λ _.
                  if_fst Counted (seek_transfer false ft bytes).1 _ (f, false)
                    (λ _. set (seek_transfer false ft bytes).0) (λ _. w))))

  handle_filecontrol-Counted :
      (env : Env) (f : Friend) (receive_send i control : ℕ) (bytes : List ℕ)
      → i < 256
      → Counted f
      → Counted (handle_filecontrol box env f receive_send i control bytes).0
  unfolding handle_filecontrol
  handle_filecontrol-Counted env f receive_send i control bytes h w =
      let sending = receive_send == 1 in
      if_fst Counted (ltb 1 receive_send) (f, false) _ (λ _. w)
        (λ _.
          if_fst Counted (ltb 3 control) (f, false) _ (λ _. w)
            (λ _.
              if_fst Counted (is_none (transfer_of f (not sending) i).status)
                ((send_file_control_packet box env f (not sending) i 2 []).0, false)
                (control_existing f sending i control bytes)
                (λ _.
                  Same-Counted f (send_file_control_packet box env f (not sending) i 2 []).0
                    (send_file_control_packet-Same box env f (not sending) i 2 []) w)
                (λ e. control_existing-Counted f sending i control bytes h e w)))

  handle_file_control_packet-Counted :
      (env : Env) (f : Friend) (bytes : List ℕ)
      → Counted f
      → Counted (handle_file_control_packet box env f bytes)
  unfolding handle_file_control_packet
  handle_file_control_packet-Counted env f bytes w =
      if_elim Counted (ltb (length bytes) 3) f _ (λ _. w)
        (λ _.
          if_elim Counted (leb 256 (byte_at 1 bytes)) f _ (λ _. w)
            (λ h.
              handle_filecontrol-Counted env f (byte_at 0 bytes) (byte_at 1 bytes) (byte_at 2 bytes)
                (drop 3 bytes) (inside (byte_at 1 bytes) h) w))

  handle_file_sendrequest-Counted :
      (f : Friend) (bytes : List ℕ) → Counted f → Counted (handle_file_sendrequest f bytes)
  unfolding handle_file_sendrequest
  handle_file_sendrequest-Counted f bytes w =
      let i = byte_at 0 bytes in
      let size : ℕ = of_be 0 (take 8 (drop 5 bytes)) in
      let event =
        asked (receiving_number i) (of_be 0 (take 4 (drop 1 bytes))) size (drop 45 bytes) in
      let ft : FileTransfers = record (f.file_receiving i) {
        status = not_accepted;
        size = size;
        transferred = 0;
        paused = pause_not;
        id = take 32 (drop 13 bytes);
      } in
      if_elim Counted (ltb (length bytes) 45) f _ (λ _. w)
        (λ _.
          if_elim Counted (leb 256 i) f _ (λ _. w)
            (λ _.
              if_elim Counted (ltb (45 + 255) (length bytes)) f _ (λ _. w)
                (λ _.
                  if_elim Counted (not (is_none (f.file_receiving i).status)) f _ (λ _. w)
                    (λ _.
                      call-Counted event (set_receiving f i ft) (set_receiving-Counted f i ft w)))))

  handle_file_data-Counted :
      (f : Friend) (bytes : List ℕ) → Counted f → Counted (handle_file_data box f bytes)
  unfolding handle_file_data
  handle_file_data-Counted f [] w = w
  handle_file_data-Counted f (i ∷ bytes) w =
      let ft = f.file_receiving i in
      let len = bounded box ft (u16 (length bytes)) in
      let moved = u64 (ft.transferred + len) in
      let event = data_came (receiving_number i) ft.transferred (take len bytes) in
      let f' : Friend = call event f in
      let w' : Counted f' = call-Counted event f w in
      let whole : FileTransfers = record ft { transferred = moved; status = no_transfer } in
      let part : FileTransfers = record ft {
        transferred = moved;
        status = if len == 0 then no_transfer else ft.status;
      } in
      if_elim Counted (leb 256 i) f _ (λ _. w)
        (λ _.
          if_elim Counted (not (is_transferring ft.status)) f _ (λ _. w)
            (λ _.
              if_elim Counted (is_whole box ft len moved) _ _
                (λ _.
                  call-Counted (data_came (receiving_number i) moved []) (set_receiving f' i whole)
                    (set_receiving-Counted f' i whole w'))
                (λ _. set_receiving-Counted f' i part w')))

  pub handle_file_packet-Counted :
      (env : Env) (f : Friend) (packet : List ℕ)
      → Counted f
      → Counted (handle_file_packet box env f packet)
  unfolding handle_file_packet
  handle_file_packet-Counted env f [] w = w
  handle_file_packet-Counted env f (id ∷ bytes) w =
      if_elim Counted (not f.is_online) f _ (λ _. w)
        (λ _.
          if_elim Counted (id == 80) (handle_file_sendrequest f bytes) _
            (λ _. handle_file_sendrequest-Counted f bytes w)
            (λ _.
              if_elim Counted (id == 81) (handle_file_control_packet box env f bytes) _
                (λ _. handle_file_control_packet-Counted env f bytes w)
                (λ _.
                  if_elim Counted (id == 82) (handle_file_data box f bytes) f
                    (λ _. handle_file_data-Counted f bytes w) (λ _. w))))
