-- ===== src/Messenger/Files/Control.antt =====
-- toxcore/Messenger.c: `file_control` at one peer, and `handle_filecontrol` at the other.
use insert_project_name_here.Base.{
  ℕ, ◌≤◌, ◌<◌, ◌≡◌, refl, zero, suc, ◌∙◌, Bool, true, false, not, [], ◌∷◌, ◌++◌, arith, ltb, leb,
  ◌==◌, if_elim,
}
use insert_project_name_here.NetCrypto.Connection.{CryptoBox}
use insert_project_name_here.NetCrypto.Connection.Send.{max_crypto_data_size}
use insert_project_name_here.Messenger.Files.{
  is_none, FileTransfers, controlled, Friend, set_slot, call, Env,
}
use insert_project_name_here.Messenger.Files.Send.{
  is_receiving, slot_of, transfer_of, set_transfer, as_byte, control_error, control_transfer,
  count_kill, send_file_control_packet, file_control,
}
use insert_project_name_here.Messenger.Files.Receive.{
  real_filenumber, accept_transfer, pause_transfer, count_killed, control_existing,
  handle_filecontrol, handle_file_control_packet, handle_file_packet,
}
use insert_project_name_here.Messenger.Files.Mirror.{
  Mirrored, control_error_bound, accepted-Mirrored, paused-Mirrored, killed-Mirrored,
  Mirrored-exists,
}
use insert_project_name_here.Messenger.Files.Packets.{
  transfer_of-set_transfer, transfer_of-count_kill, outbox-count_kill,
  send_file_control_packet-Sent,
}

-- What the other end does with a control packet for a transfer that mirrors ours.
abbrev Followed : FileTransfers → Friend → Bool → ℕ → ℕ → Friend × Bool → Type 0
Followed a g sr i control q =
    Mirrored (control_transfer a control) (transfer_of q.0 (not sr) i)
    × (q.0.events ≡ g.events ++ (controlled (real_filenumber sr i) control ∷ []))

changed-Followed :
    (a : FileTransfers) (g : Friend) (sr : Bool) (i control : ℕ) (ft : FileTransfers)
    → Mirrored (control_transfer a control) ft
    → Followed a g sr i control
        (call (controlled (real_filenumber sr i) control) (set_transfer g (not sr) i ft), true)
unfolding set_transfer set_slot
changed-Followed a g true i control ft m = (rw (transfer_of-set_transfer g false i ft) m, refl)
changed-Followed a g false i control ft m = (rw (transfer_of-set_transfer g true i ft) m, refl)

killed-Followed :
    (a : FileTransfers) (g : Friend) (sr : Bool) (i : ℕ) (ft : FileTransfers)
    → Mirrored (control_transfer a 2) ft
    → Followed a g sr i 2 (
      count_killed sr (set_transfer (call (controlled (real_filenumber sr i) 2) g) (not sr) i ft),
      true,
    )
unfolding set_transfer set_slot
killed-Followed a g true i ft m = (rw (transfer_of-set_transfer g false i ft) m, refl)
killed-Followed a g false i ft m = (rw (transfer_of-set_transfer g true i ft) m, refl)

control_existing-Followed :
    (a : FileTransfers) (g : Friend) (sr : Bool) (i control : ℕ)
    → control_error a sr control ≡ 0
    → Mirrored a (transfer_of g (not sr) i)
    → Followed a g sr i control (control_existing g sr i control [])
unfolding control_existing
control_existing-Followed a g sr i zero e w =
    let m = accepted-Mirrored a (transfer_of g (not sr) i) sr e w in
    if_elim (Followed a g sr i 0) (accept_transfer sr (transfer_of g (not sr) i)).1 _ (g, false)
      (λ _. changed-Followed a g sr i 0 _ m.1) (λ q. absurd (cc (q, m.0)))
control_existing-Followed a g sr i (suc zero) e w =
    let m = paused-Mirrored a (transfer_of g (not sr) i) sr e w in
    if_elim (Followed a g sr i 1) (pause_transfer (transfer_of g (not sr) i)).1 _ (g, false)
      (λ _. changed-Followed a g sr i 1 _ m.1) (λ q. absurd (cc (q, m.0)))
control_existing-Followed a g sr i (suc (suc zero)) e w =
    killed-Followed a g sr i _ (killed-Mirrored a (transfer_of g (not sr) i) w)
control_existing-Followed a g sr i (suc (suc (suc control))) e w =
    absurd (omega (arith, control_error_bound a sr (suc (suc (suc control))) e))

module _ (box : CryptoBox) where
  handle_filecontrol-Followed :
      (env : Env) (a : FileTransfers) (g : Friend) (sr : Bool) (i control : ℕ)
      → control_error a sr control ≡ 0
      → Mirrored a (transfer_of g (not sr) i)
      → Followed a g sr i control (handle_filecontrol box env g (as_byte sr) i control [])
  unfolding handle_filecontrol
  handle_filecontrol-Followed env a g true i control e w =
      if_elim (Followed a g true i control) (ltb 3 control) (g, false) _
        (λ q. absurd (ground (arith, q, control_error_bound a true control e)))
        (λ _.
          if_elim (Followed a g true i control) (is_none (g.file_sending i).status) _ _
            (λ q. absurd (cc (q, Mirrored-exists a (g.file_sending i) true control e w)))
            (λ _. control_existing-Followed a g true i control e w))
  handle_filecontrol-Followed env a g false i control e w =
      if_elim (Followed a g false i control) (ltb 3 control) (g, false) _
        (λ q. absurd (ground (arith, q, control_error_bound a false control e)))
        (λ _.
          if_elim (Followed a g false i control) (is_none (g.file_receiving i).status) _ _
            (λ q. absurd (cc (q, Mirrored-exists a (g.file_receiving i) false control e w)))
            (λ _. control_existing-Followed a g false i control e w))

  -- The packet reaches the transfer of the other end.
  handle_file_packet-Followed :
      (env : Env) (a : FileTransfers) (g : Friend) (sr : Bool) (i control : ℕ)
      → i < 256
      → g.is_online ≡ true
      → control_error a sr control ≡ 0
      → Mirrored a (transfer_of g (not sr) i)
      → Followed a g sr i control
          (handle_file_packet box env g (81 ∷ as_byte sr ∷ i ∷ control ∷ []), true)
  unfolding handle_file_packet handle_file_control_packet
  handle_file_packet-Followed env a g sr i control slot online e w =
      let P : Friend → Type 0 = λ x. Followed a g sr i control (x, true) in
      if_elim P (not g.is_online) g _ (λ q. absurd (ground (arith, q, online)))
        (λ _.
          if_elim P (leb 256 i) g _ (λ q. absurd (ground (arith, q, slot)))
            (λ _. handle_filecontrol-Followed env a g sr i control e w))

  -- What a control packet that was sent leads to at both ends.
  abbrev pub Controlled : Env → Friend → Friend → Bool → ℕ → ℕ → Friend → Type 0
  Controlled env f g sr i control f' =
      let packet = 81 ∷ as_byte sr ∷ i ∷ control ∷ [] in
      let g' = handle_file_packet box env g packet in
      (f'.outbox ≡ f.outbox ++ (packet ∷ []))
      × Mirrored (transfer_of f' sr i) (transfer_of g' (not sr) i)
      × (g'.events ≡ g.events ++ (controlled (real_filenumber sr i) control ∷ []))

  concluded :
      (env : Env) (f g h : Friend) (sr : Bool) (i control : ℕ) (ft : FileTransfers)
      → h.outbox ≡ f.outbox ++ ((81 ∷ as_byte sr ∷ i ∷ control ∷ []) ∷ [])
      → Followed ft g sr i control
          (handle_file_packet box env g (81 ∷ as_byte sr ∷ i ∷ control ∷ []), true)
      → Controlled env f g sr i control
          (count_kill sr control (set_transfer h sr i (control_transfer ft control)))
  concluded env f g h sr i control ft o w = (
    outbox-count_kill h sr control i (control_transfer ft control) ∙ o,
    rw
        (
          transfer_of-count_kill (set_transfer h sr i (control_transfer ft control)) sr control sr
              i,
          transfer_of-set_transfer h sr i (control_transfer ft control),
        )
        w.0,
    w.1,
  )

  -- Let a transfer of ours, sent or received, mirror the friend's: the same status, not finished,
  -- the pauses of the two exchanged, and none before it is accepted. If `file_control` succeeds,
  -- exactly its packet was written; once the friend, who is online, has handled it, the two
  -- transfers mirror each other again, and the friend's client was told of this control, once.
  -- Packets can have at least four bytes.
  pub file_control-handle_file_packet :
      (env env' : Env) (f g : Friend) (filenumber control : ℕ)
      → 4 ≤ max_crypto_data_size box
      → g.is_online ≡ true
      → Mirrored
          (transfer_of f (is_receiving filenumber) (slot_of filenumber))
          (transfer_of g (not (is_receiving filenumber)) (slot_of filenumber))
      → (file_control box env f filenumber control).1 ≡ 0
      → Controlled env' f g
          (is_receiving filenumber)
          (slot_of filenumber)
          control
          (file_control box env f filenumber control).0
  unfolding file_control
  file_control-handle_file_packet env env' f g filenumber control room online w =
      let sr = is_receiving filenumber in
      let i = slot_of filenumber in
      let ft = transfer_of f sr i in
      let error = control_error ft sr control in
      let sending = send_file_control_packet box env f sr i control [] in
      let P : Friend × ℕ → Type 0 = λ q. q.1 ≡ 0 → Controlled env' f g sr i control q.0 in
      if_elim P (not f.is_online) (f, 2) _ (λ _ q. absurd (ground (arith, q)))
        (λ _.
          if_elim P (leb 256 i) (f, 3) _ (λ _ q. absurd (ground (arith, q)))
            (λ slot.
              if_elim P (not (error == 0)) (f, error) _ (λ e q. absurd (ground (arith, e, q)))
                (λ e.
                  if_elim P sending.1 _ (sending.0, 8)
                    (λ done _.
                      let none_wrong : error ≡ 0 = ground (arith, e) in
                      let sent =
                        send_file_control_packet-Sent box env f sr i control [] room done in
                      let followed =
                        handle_file_packet-Followed env' ft g sr i control (ground (arith, slot))
                          online none_wrong w in
                      concluded env' f g sending.0 sr i control ft sent.0 followed)
                    (λ _ q. absurd (ground (arith, q))))))
