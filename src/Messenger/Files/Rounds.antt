-- ===== src/Messenger/Files/Rounds.antt =====
-- toxcore/Messenger.c: how often the loop of `do_reqchunk_filecb` runs.
use insert_project_name_here.Base.{
  ℕ, zero, suc, ◌-◌, ◌≤◌, ◌<◌, ◌≡◌, not, ◌&&◌, arith, ◌==◌, if◌then◌else◌, if_elim, if_same, [],
}
use insert_project_name_here.NetCrypto.Connection.{CryptoBox}
use insert_project_name_here.Messenger.Files.{Friend, Env, is_transferring, is_unpaused}
use insert_project_name_here.Messenger.Files.Send.{file_data}
use insert_project_name_here.Messenger.Files.Chunks.{
  max_speed_reached, request_chunk, request_chunks,
}

module _ (box : CryptoBox) (client : ℕ → ℕ → ℕ → Friend → Friend) where
  -- The loop that asks the client for the chunks of one file ends before it has run more often
  -- than the free slots and once more, whatever the client does: any two amounts of fuel beyond
  -- the free slots give the same result, and no more slots are left than were free.
  pub request_chunks_enough :
      (rounds more : ℕ) (env : ℕ → Env) (i free_slots : ℕ) (f : Friend)
      → free_slots < rounds
      → free_slots < more
      → (request_chunks box client more env i free_slots f
          ≡ request_chunks box client rounds env i free_slots f)
        × ((request_chunks box client rounds env i free_slots f).1 ≤ free_slots)
  unfolding request_chunks
  request_chunks_enough zero more env i free_slots f h k = absurd (ground (arith, h))
  request_chunks_enough (suc rounds) zero env i free_slots f h k = absurd (ground (arith, k))
  request_chunks_enough (suc rounds) (suc more) env i free_slots f h k =
      let ft = f.file_sending i in
      let reached = max_speed_reached box client (env free_slots) f in
      let g = reached.0 in
      let free = if reached.1 then 0 else free_slots in
      let less : free ≤ free_slots =
        if_elim (λ n. n ≤ free_slots) reached.1 0 free_slots (λ _. omega arith)
          (λ _. omega arith) in
      let over = not (is_transferring ft.status && is_unpaused ft.paused) in
      let rest =
        request_chunks_enough rounds more env i (free - 1) (request_chunk box client i g) in
      (
        if_same over (f, free_slots)
            (λ _.
              if_same (free == 0) (g, 0)
                (λ e. if_same (ft.size == 0) _ (λ _.
                  if_same (ft.size == ft.requested) (g, free)
                    (λ _. (rest (ground (arith, e, less, h)) (ground (arith, e, less, k))).0)))),
        if_elim (λ (q : Friend × ℕ). q.1 ≤ free_slots) over (f, free_slots) _ (λ _. omega arith)
            (λ _.
              if_elim (λ (q : Friend × ℕ). q.1 ≤ free_slots) (free == 0) (g, 0) _ (λ _. omega arith)
                (λ e.
                  if_elim (λ (q : Friend × ℕ). q.1 ≤ free_slots) (ft.size == 0)
                    ((file_data box (env free_slots) g i 0 []).0, free) _ (λ _. less)
                    (λ _.
                      if_elim (λ (q : Friend × ℕ). q.1 ≤ free_slots) (ft.size == ft.requested)
                        (g, free) _ (λ _. less)
                        (λ _. omega (
                          arith,
                          less,
                          (rest (ground (arith, e, less, h)) (ground (arith, e, less, k))).1,
                        ))))),
      )
