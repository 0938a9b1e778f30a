-- ===== src/Messenger/Files/Chunks.antt =====
-- toxcore/Messenger.c, `do_reqchunk_filecb`: the client is asked for the next chunks of the files that are
-- sent. What its callback does with the messenger, such as calls of `file_data`, is a parameter.
use insert_project_name_here.Base.{
  ℕ, zero, suc, ◌+◌, ◌-◌, Bool, not, ◌&&◌, [], sub32, u32, u64, sub64, ltb, ◌==◌, if◌then◌else◌,
}
use insert_project_name_here.NetCrypto.Connection.{
  CryptoBox, cryptpacket_received, crypto_num_free_sendqueue_slots,
}
use insert_project_name_here.NetCrypto.Connection.Send.{reset_max_speed_reached}
use insert_project_name_here.Messenger.Files.{
  no_transfer, is_none, is_transferring, is_finished, is_unpaused, FileTransfers, chunk_wanted,
  Friend, max_concurrent_file_pipes, set_sending, call, Env,
}
use insert_project_name_here.Messenger.Files.Send.{min_slots_free, max_file_data_size, file_data}

-- The free slots of the connection, less those that other packets may need.
unfoldable pub spare_slots : Friend → ℕ
unfolding crypto_num_free_sendqueue_slots
spare_slots f =
    let free_slots = crypto_num_free_sendqueue_slots f.connection in
    if ltb free_slots min_slots_free then 0 else free_slots - min_slots_free

-- The slots that are left beside those that a transfer was given.
unfoldable pub slots_beside : FileTransfers → ℕ → ℕ
slots_beside ft free_slots =
    if ltb free_slots ft.slots_allocated then 0 else free_slots - ft.slots_allocated

module _ (box : CryptoBox) (client : ℕ → ℕ → ℕ → Friend → Friend) where
  -- The callback for a chunk: it is recorded, and the client acts.
  unfoldable pub want_chunk : ℕ → ℕ → ℕ → Friend → Friend
  want_chunk i position len f = client i position len (call (chunk_wanted i position len) f)

  -- A transfer of which every packet was received is over.
  unfoldable pub end_finished : ℕ → Friend → Friend
  unfolding want_chunk cryptpacket_received set_sending
  end_finished i f =
      let ft = f.file_sending i in
      if is_finished ft.status && cryptpacket_received f.connection ft.last_packet_number
      then (let f' = want_chunk i ft.transferred 0 f in
          record (set_sending f' i (record (f'.file_sending i) { status = no_transfer })) {
            num_sending_files = sub32 f'.num_sending_files 1;
          })
      else f

  -- The length of the next chunk.
  abbrev pub chunk_length : FileTransfers → ℕ
  chunk_length ft =
      if ltb (sub64 ft.size ft.requested) (max_file_data_size box)
      then sub64 ft.size ft.requested
      else max_file_data_size box

  -- The next chunk is counted as requested before the client is asked for it.
  unfoldable pub request_chunk : ℕ → Friend → Friend
  unfolding want_chunk set_sending
  request_chunk i f =
      let ft = f.file_sending i in
      want_chunk i ft.requested (chunk_length ft) (
        set_sending f i (record ft {
          slots_allocated = u32 (ft.slots_allocated + 1);
          requested = u64 (ft.requested + chunk_length ft);
        }))

  -- `max_speed_reached`: the connection, and the result.
  unfoldable pub max_speed_reached : Env → Friend → Friend × Bool
  unfolding reset_max_speed_reached
  max_speed_reached env f =
      let (c, done) = reset_max_speed_reached box env.again env.now f.connection in
      (record f { connection = c }, not done)

  -- The `while` loop for one transfer, on fuel, with the free slots that are left. `env`
  -- is by these.
  unfoldable pub request_chunks : ℕ → (ℕ → Env) → ℕ → ℕ → Friend → Friend × ℕ
  unfolding max_speed_reached request_chunk file_data
  request_chunks zero env i free_slots f = (f, free_slots)
  request_chunks (suc rounds) env i free_slots f =
      let ft = f.file_sending i in
      let (g, reached) = max_speed_reached (env free_slots) f in
      let free = if reached then 0 else free_slots in
      let rest = request_chunks rounds env i (free - 1) (request_chunk i g) in
      if not (is_transferring ft.status && is_unpaused ft.paused)
      then (f, free_slots)
      else if free == 0
      then (g, 0)
      else if ft.size == 0
      then ((file_data box (env free_slots) g i 0 []).0, free)
      else if ft.size == ft.requested
      then (g, free)
      else rest

  -- The `for` loop from transfer `i` on; `num` counts the transfers that are still to come.
  unfoldable pub request_files : ℕ → (ℕ → ℕ → Env) → ℕ → ℕ → ℕ → Friend → Friend
  unfolding end_finished slots_beside request_chunks
  request_files zero env i num free_slots f = f
  request_files (suc n) env i num free_slots f =
      let used = not (is_none (f.file_sending i).status) in
      let g = if used then end_finished i f else f in
      let beside = if used then slots_beside (g.file_sending i) free_slots else free_slots in
      let left = if used then sub32 num 1 else num in
      let (h, free) = request_chunks (beside + 1) (env i) i beside g in
      let rest = request_files n env (i + 1) left free h in if left == 0 then h else rest

  unfoldable pub do_reqchunk_filecb : (ℕ → ℕ → Env) → Friend → Friend
  unfolding spare_slots request_files
  do_reqchunk_filecb env f =
      if f.num_sending_files == 0
      then f
      else request_files max_concurrent_file_pipes env 0 f.num_sending_files (spare_slots f) f
