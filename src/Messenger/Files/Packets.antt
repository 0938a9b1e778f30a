-- ===== src/Messenger/Files/Packets.antt =====
-- toxcore/Messenger.c: control packets that were accepted, and the transfers of a friend.
use insert_project_name_here.Base.{
  ℕ, ◌+◌, ◌≤◌, ◌≡◌, refl, ap, Bool, true, false, not, ◌||◌, Option, none, some, List, [], ◌∷◌, ◌++◌,
  arith, length, ltb, leb, if_elim,
}
use insert_project_name_here.NetCrypto.Connection.{CryptoBox}
use insert_project_name_here.NetCrypto.Connection.Send.{max_crypto_data_size}
use insert_project_name_here.Messenger.Files.{
  FileTransfers, Friend, set_slot, Env, write_packet, write_cryptpacket_id, logged, is_written,
}
use insert_project_name_here.Messenger.Files.Send.{
  transfer_of, set_transfer, as_byte, count_kill, send_file_control_packet,
}
use insert_project_name_here.Messenger.Files.Receive.{count_killed}

-- A write of one transfer, read back.
pub transfer_of-set_transfer :
    (f : Friend) (receiving : Bool) (i : ℕ) (ft : FileTransfers)
    → transfer_of (set_transfer f receiving i ft) receiving i ≡ ft
unfolding set_transfer set_slot
transfer_of-set_transfer f true i ft = ground arith
transfer_of-set_transfer f false i ft = ground arith

pub transfer_of-count_kill :
    (f : Friend) (sr : Bool) (control : ℕ) (receiving : Bool) (i : ℕ)
    → transfer_of (count_kill sr control f) receiving i ≡ transfer_of f receiving i
transfer_of-count_kill f sr control true i = ground arith
transfer_of-count_kill f sr control false i = ground arith

pub outbox-count_kill :
    (f : Friend) (sr : Bool) (control i : ℕ) (ft : FileTransfers)
    → (count_kill sr control (set_transfer f sr i ft)).outbox ≡ f.outbox
unfolding set_transfer set_slot
outbox-count_kill f true control i ft = ground arith
outbox-count_kill f false control i ft = ground arith

pub transfer_of-count_killed :
    (f : Friend) (sending receiving : Bool) (i : ℕ)
    → transfer_of (count_killed sending f) receiving i ≡ transfer_of f receiving i
transfer_of-count_killed f true true i = refl
transfer_of-count_killed f true false i = refl
transfer_of-count_killed f false receiving i = refl

pub transfer_of_same :
    (f g : Friend) (receiving : Bool) (i : ℕ)
    → g.file_sending ≡ f.file_sending
    → g.file_receiving ≡ f.file_receiving
    → transfer_of g receiving i ≡ transfer_of f receiving i
transfer_of_same f g true i e h = ap (λ (s : ℕ → FileTransfers). s i) h
transfer_of_same f g false i e h = ap (λ (s : ℕ → FileTransfers). s i) e

module _ (box : CryptoBox) where
  -- What is left of the friend by a control packet that was accepted.
  abbrev pub Sent : Friend → Bool → ℕ → ℕ → List ℕ → Friend × Bool → Type 0
  Sent f sr i control bytes q =
      q.1 ≡ true
      → (q.0.outbox ≡ f.outbox ++ ((81 ∷ as_byte sr ∷ i ∷ control ∷ bytes) ∷ []))
        × ((receiving : Bool) → transfer_of q.0 receiving i ≡ transfer_of f receiving i)

  written-Sent :
      (f : Friend) (g : Friend) (sr : Bool) (i control : ℕ) (bytes : List ℕ) (number : Option ℕ)
      → g.outbox ≡ logged f.outbox (81 ∷ as_byte sr ∷ i ∷ control ∷ bytes) number
      → ((receiving : Bool) → transfer_of g receiving i ≡ transfer_of f receiving i)
      → Sent f sr i control bytes (g, is_written number)
  written-Sent f g sr i control bytes none o t e = absurd (cc e)
  written-Sent f g sr i control bytes (some number) o t e = (o, t)

  pub send_file_control_packet-Sent :
      (env : Env) (f : Friend) (sr : Bool) (i control : ℕ) (bytes : List ℕ)
      → length bytes + 4 ≤ max_crypto_data_size box
      → Sent f sr i control bytes (send_file_control_packet box env f sr i control bytes)
  unfolding send_file_control_packet write_cryptpacket_id write_packet
  send_file_control_packet-Sent env f sr i control bytes room =
      if_elim (Sent f sr i control bytes) (ltb (max_crypto_data_size box) (1 + 3 + length bytes))
        (f, true) _ (λ e. absurd (ground (arith, e, room)))
        (λ _.
          if_elim (Sent f sr i control bytes)
            (leb (max_crypto_data_size box) (length (as_byte sr ∷ i ∷ control ∷ bytes))
              || not f.is_online)
            (f, false) _ (λ e q. absurd (cc q))
            (λ _.
              written-Sent f
                (write_packet box env f (81 ∷ as_byte sr ∷ i ∷ control ∷ bytes) false).0 sr i
                control bytes
                (write_packet box env f (81 ∷ as_byte sr ∷ i ∷ control ∷ bytes) false).1 refl
                (λ receiving.
                  transfer_of_same f
                    (write_packet box env f (81 ∷ as_byte sr ∷ i ∷ control ∷ bytes) false).0
                    receiving i refl refl)))
