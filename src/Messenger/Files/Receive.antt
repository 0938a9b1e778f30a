-- ===== src/Messenger/Files/Receive.antt =====
-- toxcore/Messenger.c: what is done with a friend's packets about file transfers, and when the friend goes
-- offline. The callbacks are recorded; they do not call back into the messenger.
use insert_project_name_here.Base.{
  ℕ, zero, suc, ◌+◌, ◌*◌, ◌^◌, Bool, true, false, not, ◌&&◌, ◌||◌, List, [], ◌∷◌, u16, u32, u64,
  sub32, sub64, length, take, drop, ltb, leb, ◌==◌, if◌then◌else◌, of_be,
}
use insert_project_name_here.NetCrypto.Connection.{CryptoBox}
use insert_project_name_here.Messenger.Files.{
  no_transfer, not_accepted, transferring, pause_not, control_accept, control_pause, control_kill,
  control_seek, is_none, is_not_accepted, is_transferring, by_other, add_other, flip_other,
  FileTransfers, asked, controlled, data_came, Friend, max_concurrent_file_pipes, set_receiving,
  call, Env,
}
use insert_project_name_here.Messenger.Files.Send.{
  transfer_of, set_transfer, packet_id_file_sendrequest, packet_id_file_control,
  packet_id_file_data, max_filename_length, max_file_data_size, send_file_control_packet,
}

-- The number by which the client knows a transfer that is received.
abbrev pub receiving_number : ℕ → ℕ
receiving_number filenumber = u32 ((filenumber + 1) * 2 ^ 16)

-- `real_filenumber` of `handle_filecontrol`; `sending` says that the transfer is one that we send.
abbrev pub real_filenumber : Bool → ℕ → ℕ
real_filenumber true filenumber = filenumber
real_filenumber false filenumber = receiving_number filenumber

-- FILECONTROL_ACCEPT: the transfer, and whether the call goes on.
unfoldable pub accept_transfer : Bool → FileTransfers → FileTransfers × Bool
accept_transfer sending ft =
    if sending && is_not_accepted ft.status
    then (record ft { status = transferring }, true)
    else if by_other ft.paused
    then (record ft { paused = flip_other ft.paused }, true)
    else (ft, false)

-- FILECONTROL_PAUSE
unfoldable pub pause_transfer : FileTransfers → FileTransfers × Bool
pause_transfer ft =
    if by_other ft.paused || not (is_transferring ft.status)
    then (ft, false)
    else (record ft { paused = add_other ft.paused }, true)

-- FILECONTROL_SEEK
unfoldable pub seek_transfer : Bool → FileTransfers → List ℕ → FileTransfers × Bool
seek_transfer sending ft bytes =
    let position = of_be 0 bytes in
    if not (length bytes == 8)
    then (ft, false)
    else if not (is_not_accepted ft.status) || not sending
    then (ft, false)
    else if leb ft.size position
    then (ft, false)
    else (record ft { transferred = position; requested = position }, true)

-- `FILECONTROL_KILL`: a transfer that we send is counted no more.
abbrev pub count_killed : Bool → Friend → Friend
count_killed true f = record f { num_sending_files = sub32 f.num_sending_files 1 }
count_killed false f = f

-- What `handle_filecontrol` does with a transfer that exists.
unfoldable pub control_existing : Friend → Bool → ℕ → ℕ → List ℕ → Friend × Bool
unfolding accept_transfer pause_transfer seek_transfer set_transfer
control_existing f sending filenumber control_type bytes =
    let receiving = not sending in
    let ft = transfer_of f receiving filenumber in
    let event = controlled (real_filenumber sending filenumber) control_type in
    if control_type == control_accept
    then (let (ft', done) = accept_transfer sending ft in
        if done then (call event (set_transfer f receiving filenumber ft'), true) else (f, false))
    else if control_type == control_pause
    then (let (ft', done) = pause_transfer ft in
        if done then (call event (set_transfer f receiving filenumber ft'), true) else (f, false))
    else if control_type == control_kill
    then (
      count_killed sending
          (set_transfer (call event f) receiving filenumber (record ft { status = no_transfer })),
      true,
    )
    else (let (ft', done) = seek_transfer sending ft bytes in
        if done then (set_transfer f receiving filenumber ft', true) else (f, false))

-- The packet of a file request, without its first byte.
abbrev pub head_length : ℕ
head_length = 45

abbrev pub byte_at : ℕ → List ℕ → ℕ
byte_at i [] = 0
byte_at zero (b ∷ bs) = b
byte_at (suc i) (b ∷ bs) = byte_at i bs

unfoldable pub handle_file_sendrequest : Friend → List ℕ → Friend
unfolding set_receiving
handle_file_sendrequest f bytes =
    let filenumber = byte_at 0 bytes in
    let filesize = of_be 0 (take 8 (drop 5 bytes)) in
    let ft = f.file_receiving filenumber in
    if ltb (length bytes) head_length
    then f
    else if leb max_concurrent_file_pipes filenumber
    then f
    else if ltb (head_length + max_filename_length) (length bytes)
    then f
    else if not (is_none ft.status)
    then f
    else call
        (asked (receiving_number filenumber) (of_be 0 (take 4 (drop 1 bytes))) filesize
          (drop head_length bytes))
        (set_receiving f filenumber (record ft {
          status = not_accepted;
          size = filesize;
          transferred = 0;
          paused = pause_not;
          id = take 32 (drop 13 bytes);
        }))

-- `break_files`: every transfer ends.
abbrev pub broken : FileTransfers → FileTransfers
broken ft = record ft { status = no_transfer }

unfoldable pub break_slots : ℕ → ℕ → (ℕ → FileTransfers) → ℕ → FileTransfers
break_slots n i slots = λ j. if leb i j && ltb j (i + n) then broken (slots j) else slots j

unfoldable pub break_files : Friend → Friend
unfolding break_slots
break_files f = record f {
  file_sending = break_slots max_concurrent_file_pipes 0 f.file_sending;
  file_receiving = break_slots max_concurrent_file_pipes 0 f.file_receiving;
}

module _ (box : CryptoBox) where
  -- The friend, and whether 0 is returned. `receive_send` is 1 for a transfer that we send.
  unfoldable pub handle_filecontrol : Env → Friend → ℕ → ℕ → ℕ → List ℕ → Friend × Bool
  unfolding control_existing send_file_control_packet
  handle_filecontrol env f receive_send filenumber control_type bytes =
      let sending = receive_send == 1 in
      if ltb 1 receive_send
      then (f, false)
      else if ltb control_seek control_type
      then (f, false)
      else if is_none (transfer_of f (not sending) filenumber).status
      then ((send_file_control_packet box env f (not sending) filenumber control_kill []).0, false)
      else control_existing f sending filenumber control_type bytes

  unfoldable pub handle_file_control_packet : Env → Friend → List ℕ → Friend
  unfolding handle_filecontrol
  handle_file_control_packet env f bytes =
      if ltb (length bytes) 3
      then f
      else if leb max_concurrent_file_pipes (byte_at 1 bytes)
      then f
      else (handle_filecontrol env f (byte_at 0 bytes) (byte_at 1 bytes) (byte_at 2 bytes)
          (drop 3 bytes)).0

  -- `file_data_length`: no more than what is left of the file.
  abbrev pub bounded : FileTransfers → ℕ → ℕ
  bounded ft len =
      if ltb ft.size (u64 (ft.transferred + len)) then u16 (sub64 ft.size ft.transferred) else len

  -- Whether the transfer is over after `len` bytes with `moved` bytes transferred.
  abbrev pub is_whole : FileTransfers → ℕ → ℕ → Bool
  is_whole ft len moved =
      not (len == 0) && (leb ft.size moved || not (len == max_file_data_size box))

  unfoldable pub handle_file_data : Friend → List ℕ → Friend
  unfolding set_receiving
  handle_file_data f [] = f
  handle_file_data f (filenumber ∷ bytes) =
      let ft = f.file_receiving filenumber in
      let len = bounded ft (u16 (length bytes)) in
      let moved = u64 (ft.transferred + len) in
      let number = receiving_number filenumber in
      let f' = call (data_came number ft.transferred (take len bytes)) f in
      if leb max_concurrent_file_pipes filenumber
      then f
      else if not (is_transferring ft.status)
      then f
      else if is_whole ft len moved
      then call (data_came number moved [])
          (set_receiving f' filenumber (record ft { transferred = moved; status = no_transfer }))
      else set_receiving f' filenumber
          (record ft { transferred = moved; status = if len == 0 then no_transfer else ft.status })

  -- The cases of `handle_packet` for files, while the friend is online.
  unfoldable pub handle_file_packet : Env → Friend → List ℕ → Friend
  unfolding handle_file_sendrequest handle_file_control_packet handle_file_data
  handle_file_packet env f [] = f
  handle_file_packet env f (packet_id ∷ bytes) =
      if not f.is_online
      then f
      else if packet_id == packet_id_file_sendrequest
      then handle_file_sendrequest f bytes
      else if packet_id == packet_id_file_control
      then handle_file_control_packet env f bytes
      else if packet_id == packet_id_file_data
      then handle_file_data f bytes
      else f
