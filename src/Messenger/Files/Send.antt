-- ===== src/Messenger/Files/Send.antt =====
-- toxcore/Messenger.c: what the client does with file transfers. A result -n of the source is the number
-- n, and 0 is its 0.
use insert_project_name_here.Base.{
  ℕ, zero, suc, ◌+◌, ◌-◌, ◌/◌, ◌^◌, Bool, true, false, not, ◌&&◌, ◌||◌, Option, none, some, inl,
  inr, ◌⊎◌, List, [], ◌∷◌, ◌++◌, u32, u64, sub32, sub64, length, ltb, leb, ◌==◌, if◌then◌else◌,
  be32, be64,
}
use insert_project_name_here.NetCrypto.Connection.{CryptoBox, crypto_num_free_sendqueue_slots}
use insert_project_name_here.NetCrypto.Connection.Send.{max_crypto_data_size}
use insert_project_name_here.Messenger.Files.{
  no_transfer, not_accepted, transferring, finished, pause_not, control_accept, control_pause,
  control_kill, control_seek, is_none, is_not_accepted, is_transferring, by_us, by_other, add_us,
  flip_us, FileTransfers, Friend, max_concurrent_file_pipes, set_sending, set_receiving, Env,
  write_packet, write_cryptpacket_id,
}

-- A file number names a transfer that is received from 2 ^ 16 on.
abbrev pub is_receiving : ℕ → Bool
is_receiving filenumber = leb (2 ^ 16) filenumber

abbrev pub slot_of : ℕ → ℕ
slot_of filenumber = if leb (2 ^ 16) filenumber then filenumber / 2 ^ 16 - 1 else filenumber

-- `ft`, and a write through it.
abbrev pub transfer_of : Friend → Bool → ℕ → FileTransfers
transfer_of f true i = f.file_receiving i
transfer_of f false i = f.file_sending i

unfoldable pub set_transfer : Friend → Bool → ℕ → FileTransfers → Friend
unfolding set_receiving set_sending
set_transfer f true i ft = set_receiving f i ft
set_transfer f false i ft = set_sending f i ft

abbrev pub as_byte : Bool → ℕ
as_byte true = 1
as_byte false = 0

-- The file id, or the error.
unfoldable pub file_get_id : Friend → ℕ → Option (List ℕ)
file_get_id f filenumber =
    if not f.is_online
    then none
    else if leb max_concurrent_file_pipes (slot_of filenumber)
    then none
    else let ft = transfer_of f (is_receiving filenumber) (slot_of filenumber) in
      if is_none ft.status then none else some ft.id

unfoldable pub file_dataremaining : Friend → ℕ → Bool → ℕ
file_dataremaining f filenumber send_receive =
    let ft = transfer_of f send_receive filenumber in
    if is_none ft.status then 0 else sub64 ft.size ft.transferred

-- PACKET_ID_FILE_SENDREQUEST, PACKET_ID_FILE_CONTROL, PACKET_ID_FILE_DATA
abbrev pub packet_id_file_sendrequest : ℕ
packet_id_file_sendrequest = 80

abbrev pub packet_id_file_control : ℕ
packet_id_file_control = 81

abbrev pub packet_id_file_data : ℕ
packet_id_file_data = 82

abbrev pub max_filename_length : ℕ
max_filename_length = 255

abbrev pub min_slots_free : ℕ
min_slots_free = 16

-- The first of `n` slots from `i` on that is not used, or `i + n`.
unfoldable pub free_slot : ℕ → ℕ → (ℕ → FileTransfers) → ℕ
free_slot zero i slots = i
free_slot (suc n) i slots =
    let rest = free_slot n (i + 1) slots in if is_none (slots i).status then i else rest

-- The checks of `file_control`, in order; 0 if it goes on.
unfoldable pub control_error : FileTransfers → Bool → ℕ → ℕ
control_error ft send_receive control =
    if is_none ft.status
    then 3
    else if ltb control_kill control
    then 4
    else if control == control_pause && (by_us ft.paused || not (is_transferring ft.status))
    then 5
    else if control == control_accept
    then if is_transferring ft.status
      then if by_us ft.paused then 0 else if by_other ft.paused then 6 else 7
      else if not (is_not_accepted ft.status)
      then 7
      else if not send_receive
      then 6
      else 0
    else 0

-- The transfer after a control packet was sent.
unfoldable pub control_transfer : FileTransfers → ℕ → FileTransfers
control_transfer ft control =
    if control == control_kill
    then record ft { status = no_transfer }
    else if control == control_pause
    then record ft { paused = add_us ft.paused }
    else if control == control_accept
    then record ft {
      status = transferring;
      paused = if by_us ft.paused then flip_us ft.paused else ft.paused;
    }
    else ft

-- `--num_sending_files`, if a sending transfer was killed.
abbrev pub count_kill : Bool → ℕ → Friend → Friend
count_kill send_receive control f =
    if control == control_kill && not send_receive
    then record f { num_sending_files = sub32 f.num_sending_files 1 }
    else f

module _ (box : CryptoBox) where
  -- MAX_FILE_DATA_SIZE
  abbrev pub max_file_data_size : ℕ
  max_file_data_size = max_crypto_data_size box - 2

  unfoldable pub file_sendrequest : Env → Friend → ℕ → ℕ → ℕ → List ℕ → List ℕ → Friend × Bool
  unfolding write_cryptpacket_id
  file_sendrequest env f filenumber file_type filesize file_id filename =
      if ltb max_filename_length (length filename)
      then (f, false)
      else write_cryptpacket_id box env f packet_id_file_sendrequest
          (filenumber ∷ (be32 file_type ++ (be64 filesize ++ (file_id ++ filename)))) false

  -- The file number, or the error.
  unfoldable pub new_filesender : Env → Friend → ℕ → ℕ → List ℕ → List ℕ → Friend × (ℕ ⊎ ℕ)
  unfolding file_sendrequest free_slot set_sending
  new_filesender env f file_type filesize file_id filename =
      let i = free_slot max_concurrent_file_pipes 0 f.file_sending in
      if ltb max_filename_length (length filename)
      then (f, inr 2)
      else if i == max_concurrent_file_pipes
      then (f, inr 3)
      else let (f', done) = file_sendrequest env f i file_type filesize file_id filename in
        if done
        then (
          record (set_sending f' i (record (f'.file_sending i) {
            status = not_accepted;
            size = filesize;
            transferred = 0;
            requested = 0;
            slots_allocated = 0;
            paused = pause_not;
            id = file_id;
          })) { num_sending_files = u32 (f'.num_sending_files + 1) },
          inl i,
        )
        else (f', inr 4)

  -- Whether the packet was accepted; a packet that is too long gives -1, which counts as true.
  unfoldable pub send_file_control_packet : Env → Friend → Bool → ℕ → ℕ → List ℕ → Friend × Bool
  unfolding write_cryptpacket_id
  send_file_control_packet env f send_receive filenumber control_type bytes =
      if ltb (max_crypto_data_size box) (1 + 3 + length bytes)
      then (f, true)
      else write_cryptpacket_id box env f packet_id_file_control
          (as_byte send_receive ∷ filenumber ∷ control_type ∷ bytes) false

  unfoldable pub file_control : Env → Friend → ℕ → ℕ → Friend × ℕ
  unfolding control_error control_transfer send_file_control_packet set_transfer
  file_control env f filenumber control =
      let send_receive = is_receiving filenumber in
      let i = slot_of filenumber in
      let ft = transfer_of f send_receive i in
      if not f.is_online
      then (f, 2)
      else if leb max_concurrent_file_pipes i
      then (f, 3)
      else if not (control_error ft send_receive control == 0)
      then (f, control_error ft send_receive control)
      else let (f', done) = send_file_control_packet env f send_receive i control [] in
        if done
        then (
          count_kill send_receive control
              (set_transfer f' send_receive i (control_transfer ft control)),
          0,
        )
        else (f', 8)

  unfoldable pub file_seek : Env → Friend → ℕ → ℕ → Friend × ℕ
  unfolding send_file_control_packet set_receiving
  file_seek env f filenumber position =
      let i = slot_of filenumber in
      let ft = f.file_receiving i in
      if not f.is_online
      then (f, 2)
      else if not (is_receiving filenumber)
      then (f, 4)
      else if leb max_concurrent_file_pipes i
      then (f, 3)
      else if is_none ft.status
      then (f, 3)
      else if not (is_not_accepted ft.status)
      then (f, 5)
      else if leb ft.size position
      then (f, 6)
      else let (f', done) = send_file_control_packet env f true i control_seek (be64 position) in
        if done then (set_receiving f' i (record ft { transferred = position }), 0) else (f', 8)

  unfoldable pub send_file_data_packet : Env → Friend → ℕ → List ℕ → Friend × Option ℕ
  unfolding write_packet
  send_file_data_packet env f filenumber bytes =
      write_packet box env f (packet_id_file_data ∷ filenumber ∷ bytes) true

  -- The checks of `file_data`, in order; 0 if it goes on.
  unfoldable pub data_error : Friend → ℕ → ℕ → ℕ → ℕ
  unfolding crypto_num_free_sendqueue_slots
  data_error f filenumber position len =
      let ft = f.file_sending filenumber in
      if not f.is_online
      then 2
      else if leb max_concurrent_file_pipes filenumber
      then 3
      else if not (is_transferring ft.status)
      then 4
      else if ltb max_file_data_size len
      then 5
      else if ltb (sub64 ft.size ft.transferred) len
      then 5
      else if not (ft.size == 2 ^ 64 - 1)
          && (not (len == max_file_data_size) && not (u64 (ft.transferred + len) == ft.size))
      then 5
      else if not (position == ft.transferred) || (leb ft.requested position && not (ft.size == 0))
      then 7
      else if ltb (crypto_num_free_sendqueue_slots f.connection) min_slots_free
      then 6
      else 0

  -- The transfer after a packet of `len` bytes was accepted under a number.
  unfoldable pub data_transfer : FileTransfers → ℕ → ℕ → FileTransfers
  data_transfer ft len number =
      let moved = record ft {
        transferred = u64 (ft.transferred + len);
        slots_allocated = ft.slots_allocated - 1;
      } in
      if not (len == max_file_data_size) || ft.size == u64 (ft.transferred + len)
      then record moved { status = finished; last_packet_number = u32 number }
      else moved

  -- What follows the packet, by its number.
  unfoldable pub data_sent : ℕ → FileTransfers → ℕ → Friend → Option ℕ → Friend × ℕ
  unfolding data_transfer set_sending
  data_sent filenumber ft len f none = (f, 6)
  data_sent filenumber ft len f (some number) =
      (set_sending f filenumber (data_transfer ft len number), 0)

  unfoldable pub file_data : Env → Friend → ℕ → ℕ → List ℕ → Friend × ℕ
  unfolding data_error send_file_data_packet data_sent
  file_data env f filenumber position bytes =
      let error = data_error f filenumber position (length bytes) in
      if not (error == 0)
      then (f, error)
      else let (f', number) = send_file_data_packet env f filenumber bytes in
        data_sent filenumber (f.file_sending filenumber) (length bytes) f' number
