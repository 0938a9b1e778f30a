-- ===== src/Messenger/Files/Balance.antt =====
-- toxcore/Messenger.c: `num_sending_files` through every call about file transfers.
use insert_project_name_here.Base.{
  ℕ, ◌≤◌, ◌<◌, ◌≡◌, refl, ap, Bool, true, false, not, ◌&&◌, [], arith, leb, ◌==◌, if_elim, if_fst,
  sub32,
}
use insert_project_name_here.NetCrypto.Connection.{CryptoBox}
use insert_project_name_here.Messenger.Files.{
  is_none, FileTransfers, Friend, set_sending, set_receiving, Env,
}
use insert_project_name_here.Messenger.Files.Send.{
  is_receiving, slot_of, transfer_of, set_transfer, control_error, control_transfer, count_kill,
  send_file_control_packet, file_control,
}
use insert_project_name_here.Messenger.Files.Counting.{
  Counted, Same, Same-Counted, used_bound, used-set_slot, set_sending-Counted,
  send_file_control_packet-Same,
}

pub inside : (i : ℕ) → leb 256 i ≡ false → i < 256
inside i h = ground (arith, h)

pub no_error : (error : ℕ) → not (error == 0) ≡ false → error ≡ 0
no_error error e = ground (arith, e)

-- Changes of a transfer that keep it in use.
pub kept-Counted :
    (f : Friend) (i : ℕ) (ft : FileTransfers)
    → i < 256
    → is_none (f.file_sending i).status ≡ is_none ft.status
    → Counted f
    → Counted (set_sending f i ft)
unfolding set_sending
kept-Counted f i ft h e w = set_sending-Counted f i f.num_sending_files ft h (ground (arith, e)) w

-- A transfer in use that ends, and is counted no more.
pub ended-Counted :
    (f : Friend) (i : ℕ) (ft : FileTransfers)
    → i < 256
    → is_none (f.file_sending i).status ≡ false
    → is_none ft.status ≡ true
    → Counted f
    → Counted (record (set_sending f i ft) { num_sending_files = sub32 f.num_sending_files 1 })
ended-Counted f i ft h e n w =
    let some_used : 1 ≤ f.num_sending_files =
      ground (arith, e, n, w, used-set_slot 256 i f.file_sending ft h) in
    let few : f.num_sending_files ≤ 256 = omega (arith, w, used_bound 256 f.file_sending) in
    set_sending-Counted f i (sub32 f.num_sending_files 1) ft h
      (ground (arith, e, n, some_used, few)) w

control_transfer-used :
    (ft : FileTransfers) (sr : Bool) (control : ℕ)
    → control_error ft sr control ≡ 0
    → (control == 2) ≡ false
    → is_none ft.status ≡ is_none (control_transfer ft control).status
unfolding control_error control_transfer
control_transfer-used ft sr control e n = ground (arith, e, n)

control_transfer-killed :
    (ft : FileTransfers) (sr : Bool) (control : ℕ)
    → control_error ft sr control ≡ 0
    → (control == 2) ≡ true
    → (is_none ft.status ≡ false) × (is_none (control_transfer ft control).status ≡ true)
unfolding control_error control_transfer
control_transfer-killed ft sr control e n = (ground (arith, e, n), ground (arith, e, n))

and_true : (b : Bool) → (b && true) ≡ b
and_true true = refl
and_true false = refl

and_false : (b : Bool) → (b && false) ≡ false
and_false true = refl
and_false false = refl

file_control_done-Counted :
    (f g : Friend) (sr : Bool) (i control : ℕ)
    → Same f g
    → i < 256
    → control_error (transfer_of f sr i) sr control ≡ 0
    → Counted f
    → Counted (
        count_kill sr control (set_transfer g sr i (control_transfer (transfer_of f sr i) control)))
unfolding set_transfer set_receiving
file_control_done-Counted f g true i control same h e w =
    let g' = set_transfer g true i (control_transfer (f.file_receiving i) control) in
    rw (and_false (control == 2)) (Same-Counted g g' (refl, refl) (Same-Counted f g same w))
file_control_done-Counted f g false i control same h e w =
    let ft = f.file_sending i in
    let w' = Same-Counted f g same w in
    let old : g.file_sending i ≡ f.file_sending i = ap (λ (s : ℕ → FileTransfers). s i) same.0 in
    rw (and_true (control == 2)) (
      if_elim Counted (control == 2) _ _
        (λ q.
          let killed = control_transfer-killed ft false control e q in
          ended-Counted g i (control_transfer ft control) h (rw old killed.0) killed.1 w')
        (λ q.
          kept-Counted g i (control_transfer ft control) h
            (rw old (control_transfer-used ft false control e q)) w'))

module _ (box : CryptoBox) where
  pub file_control-Counted :
      (env : Env) (f : Friend) (filenumber control : ℕ)
      → Counted f
      → Counted (file_control box env f filenumber control).0
  unfolding file_control
  file_control-Counted env f filenumber control w =
      let sr = is_receiving filenumber in
      let i = slot_of filenumber in
      let error = control_error (transfer_of f sr i) sr control in
      let sent = send_file_control_packet box env f sr i control [] in
      let same = send_file_control_packet-Same box env f sr i control [] in
      if_fst Counted (not f.is_online) (f, 2) _ (λ _. w)
        (λ _.
          if_fst Counted (leb 256 i) (f, 3) _ (λ _. w)
            (λ h.
              if_fst Counted (not (error == 0)) (f, error) _ (λ _. w)
                (λ e.
                  if_fst Counted sent.1 _ (sent.0, 8)
                    (λ _.
                      file_control_done-Counted f sent.0 sr i control same (inside i h)
                        (no_error error e) w)
                    (λ _. Same-Counted f sent.0 same w))))
