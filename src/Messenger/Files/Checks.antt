-- ===== src/Messenger/Files/Checks.antt =====
-- toxcore/Messenger.c: what `file_data` lets through, and what it then changes.
use insert_project_name_here.Base.{
  ℕ, ◌+◌, ◌-◌, ◌^◌, ◌≤◌, ◌<◌, ◌≡◌, ◌≢◌, ◌⊎◌, inl, inr, refl, not, Option, none, some, List, [], ◌∷◌,
  ◌++◌, arith, length, ◌==◌, if_elim,
}
use insert_project_name_here.NetCrypto.Connection.{CryptoBox}
use insert_project_name_here.Messenger.Files.{
  transferring, FileTransfers, Friend, set_slot, set_sending, Env, write_packet, logged,
}
use insert_project_name_here.Messenger.Files.Send.{
  max_file_data_size, data_error, data_transfer, data_sent, send_file_data_packet, file_data,
}

-- What `file_data` does: nothing to the transfers, or one packet is accepted.
module _ (box : CryptoBox) (i : ℕ) where
  abbrev Sent : Friend → List ℕ → Friend × ℕ → Type 0
  Sent s bytes q =
      (q.1 ≡ 0)
      × (q.0.outbox ≡ s.outbox ++ ((82 ∷ i ∷ bytes) ∷ []))
      × ((number : ℕ) × (q.0.file_sending i
            ≡ data_transfer box (s.file_sending i) (length bytes) number))

  abbrev Kept : Friend → Friend × ℕ → Type 0
  Kept s q = (q.1 ≢ 0) × (q.0.outbox ≡ s.outbox) × (q.0.file_sending i ≡ s.file_sending i)

  set_slot_self : (slots : ℕ → FileTransfers) (ft : FileTransfers) → set_slot slots i ft i ≡ ft
  unfolding set_slot
  set_slot_self slots ft = ground arith

  data_sent_cases :
      (s f : Friend) (bytes : List ℕ) (number : Option ℕ)
      → f.outbox ≡ logged s.outbox (82 ∷ i ∷ bytes) number
      → f.file_sending i ≡ s.file_sending i
      → Sent s bytes (data_sent box i (s.file_sending i) (length bytes) f number)
        ⊎ Kept s (data_sent box i (s.file_sending i) (length bytes) f number)
  unfolding data_sent set_sending
  data_sent_cases s f bytes none o e = inr (ground arith, o, e)
  data_sent_cases s f bytes (some number) o e = inl (
    refl,
    o,
    (
      number,
      set_slot_self f.file_sending (data_transfer box (s.file_sending i) (length bytes) number),
    ),
  )

  -- One packet is accepted for a chunk that passes the checks, or nothing changes but the connection.
  pub file_data_cases :
      (env : Env) (s : Friend) (position : ℕ) (bytes : List ℕ)
      → ((data_error box s i position (length bytes) ≡ 0)
          × Sent s bytes (file_data box env s i position bytes))
        ⊎ Kept s (file_data box env s i position bytes)
  unfolding file_data send_file_data_packet write_packet
  file_data_cases env s position bytes =
      let error = data_error box s i position (length bytes) in
      let written = send_file_data_packet box env s i bytes in
      if_elim (λ (q : Friend × ℕ). ((error ≡ 0) × Sent s bytes q) ⊎ Kept s q) (not (error == 0))
        (s, error) _ (λ e. inr (ground (arith, e), refl, refl))
        (λ e. elim (data_sent_cases s written.0 bytes written.1 refl refl) [
          | inl q ↦ inl (ground (arith, e), q)
          | inr q ↦ inr q
        ])

  -- What the checks of `file_data` let through.
  pub record Fits (s : Friend) (position len : ℕ) : Type 0 where
    pub transferring_is : (s.file_sending i).status ≡ transferring
    pub position_is : position ≡ (s.file_sending i).transferred
    pub small : len ≤ max_file_data_size box
    pub inside : (s.file_sending i).transferred + len ≤ (s.file_sending i).size
    pub last :
        ((s.file_sending i).size ≡ 2 ^ 64 - 1)
        ⊎ ((len ≡ max_file_data_size box)
            ⊎ ((s.file_sending i).transferred + len ≡ (s.file_sending i).size))

  pub data_error-Fits :
      (s : Friend) (position len : ℕ)
      → (s.file_sending i).transferred ≤ (s.file_sending i).size
      → (s.file_sending i).size < 2 ^ 64
      → data_error box s i position len ≡ 0
      → Fits s position len
  unfolding data_error
  data_error-Fits s position len h w e =
      let ft = s.file_sending i in
      let size = ft.size in
      let moved = ft.transferred in
      record {
        transferring_is = ground (arith, e);
        position_is = ground (arith, e);
        small = ground (arith, e);
        inside = ground (arith, e);
        last = ground (arith, e);
      }
