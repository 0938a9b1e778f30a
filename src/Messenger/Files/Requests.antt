-- ===== src/Messenger/Files/Requests.antt =====
-- toxcore/Messenger.c: `num_sending_files` through `do_reqchunk_filecb`.
use insert_project_name_here.Base.{
  ℕ, zero, suc, ◌+◌, ◌-◌, ◌<◌, ◌≤◌, ◌≡◌, refl, Bool, true, false, not, ◌&&◌, [], arith, ◌==◌,
  if◌then◌else◌, if_elim, if_fst, u32, u64, sub32,
}
use insert_project_name_here.NetCrypto.Connection.{CryptoBox, cryptpacket_received}
use insert_project_name_here.Messenger.Files.{
  no_transfer, is_none, is_transferring, is_finished, is_unpaused, chunk_wanted, FileTransfers,
  Friend, set_sending, call, Env,
}
use insert_project_name_here.Messenger.Files.Send.{file_data}
use insert_project_name_here.Messenger.Files.Chunks.{
  spare_slots, slots_beside, want_chunk, end_finished, chunk_length, request_chunk,
  max_speed_reached, request_chunks, request_files, do_reqchunk_filecb,
}
use insert_project_name_here.Messenger.Files.Counting.{Counted, Same, Same-Counted}
use insert_project_name_here.Messenger.Files.Balance.{kept-Counted, ended-Counted}
use insert_project_name_here.Messenger.Files.Steps.{call-Counted, file_data-Counted}

-- A client that keeps the count, and does not end the transfer that it is told is over.
abbrev pub Careful : (ℕ → ℕ → ℕ → Friend → Friend) → Type 0
Careful client =
    ((i position len : ℕ) (f : Friend) → Counted f → Counted (client i position len f))
    × ((i position : ℕ) (f : Friend)
        → is_finished (f.file_sending i).status ≡ true
        → is_none ((client i position 0 f).file_sending i).status ≡ false)

module _ (box : CryptoBox) (client : ℕ → ℕ → ℕ → Friend → Friend) (careful : Careful client) where
  want_chunk-Counted :
      (i position len : ℕ) (f : Friend)
      → Counted f
      → Counted (want_chunk box client i position len f)
  unfolding want_chunk
  want_chunk-Counted i position len f w =
      careful.0 i position len (call (chunk_wanted i position len) f)
        (call-Counted (chunk_wanted i position len) f w)

  and_left : (a b : Bool) → (a && b) ≡ true → a ≡ true
  and_left true b q = refl
  and_left false b q = q

  end_finished-Counted :
      (i : ℕ) (f : Friend) → i < 256 → Counted f → Counted (end_finished box client i f)
  unfolding end_finished want_chunk
  end_finished-Counted i f h w =
      let ft = f.file_sending i in
      if_elim Counted
        (is_finished ft.status && cryptpacket_received f.connection ft.last_packet_number) _ f
        (λ q.
          let f' = want_chunk box client i ft.transferred 0 f in
          ended-Counted f' i (record (f'.file_sending i) { status = no_transfer }) h
            (careful.1 i ft.transferred (call (chunk_wanted i ft.transferred 0) f) (and_left _ _ q))
            refl (want_chunk-Counted i ft.transferred 0 f w))
        (λ _. w)

  request_chunk-Counted :
      (i : ℕ) (f : Friend) → i < 256 → Counted f → Counted (request_chunk box client i f)
  unfolding request_chunk
  request_chunk-Counted i f h w =
      let ft = f.file_sending i in
      let ft' : FileTransfers = record ft {
        slots_allocated = u32 (ft.slots_allocated + 1);
        requested = u64 (ft.requested + chunk_length box client ft);
      } in
      want_chunk-Counted i ft.requested (chunk_length box client ft) (set_sending f i ft')
        (kept-Counted f i ft' h refl w)

  max_speed_reached-Same : (env : Env) (f : Friend) → Same f (max_speed_reached box client env f).0
  unfolding max_speed_reached
  max_speed_reached-Same env f = (refl, refl)

  request_chunks-Counted :
      (rounds : ℕ) (env : ℕ → Env) (i free_slots : ℕ) (f : Friend)
      → i < 256
      → Counted f
      → Counted (request_chunks box client rounds env i free_slots f).0
  unfolding request_chunks
  request_chunks-Counted zero env i free_slots f h w = w
  request_chunks-Counted (suc rounds) env i free_slots f h w =
      let ft = f.file_sending i in
      let reached = max_speed_reached box client (env free_slots) f in
      let g = reached.0 in
      let free = if reached.1 then 0 else free_slots in
      let w' = Same-Counted f g (max_speed_reached-Same (env free_slots) f) w in
      if_fst Counted (not (is_transferring ft.status && is_unpaused ft.paused)) (f, free_slots) _
        (λ _. w)
        (λ _.
          if_fst Counted (free == 0) (g, 0) _ (λ _. w')
            (λ _.
              if_fst Counted (ft.size == 0) ((file_data box (env free_slots) g i 0 []).0, free) _
                (λ _. file_data-Counted box (env free_slots) g i 0 [] w')
                (λ _.
                  if_fst Counted (ft.size == ft.requested) (g, free) _ (λ _. w')
                    (λ _.
                      request_chunks-Counted rounds env i (free - 1) (request_chunk box client i g)
                        h (request_chunk-Counted i g h w')))))

  request_files-Counted :
      (n : ℕ) (env : ℕ → ℕ → Env) (i num free_slots : ℕ) (f : Friend)
      → i + n ≤ 256
      → Counted f
      → Counted (request_files box client n env i num free_slots f)
  unfolding request_files
  request_files-Counted zero env i num free_slots f h w = w
  request_files-Counted (suc n) env i num free_slots f h w =
      let used = not (is_none (f.file_sending i).status) in
      let g = if used then end_finished box client i f else f in
      let beside = if used then slots_beside (g.file_sending i) free_slots else free_slots in
      let left = if used then sub32 num 1 else num in
      let asked = request_chunks box client (beside + 1) (env i) i beside g in
      let inside : i < 256 = omega (arith, h) in
      let w1 : Counted g =
        if_elim Counted used (end_finished box client i f) f
          (λ _. end_finished-Counted i f inside w) (λ _. w) in
      let w2 : Counted asked.0 = request_chunks-Counted (beside + 1) (env i) i beside g inside w1 in
      if_elim Counted (left == 0) asked.0 _ (λ _. w2)
        (λ _. request_files-Counted n env (i + 1) left asked.1 asked.0 (omega (arith, h)) w2)

  pub do_reqchunk_filecb-Counted :
      (env : ℕ → ℕ → Env) (f : Friend) → Counted f → Counted (do_reqchunk_filecb box client env f)
  unfolding do_reqchunk_filecb
  do_reqchunk_filecb-Counted env f w =
      if_elim Counted (f.num_sending_files == 0) f _ (λ _. w)
        (λ _. request_files-Counted 256 env 0 f.num_sending_files (spare_slots f) f (omega arith) w)
